-- ===== src/Dns/Instrumenter/Tests.antt =====
-- An instrumenter with one metric.
use pweb.Prelude.{◌<◌, ◌≡◌, Bytes, [], ◌∷◌, arith}
use pweb.Dns.Instrumenter.{Instrumenter, new_instrumenter, add_metric, handle_nagle_timeout}
use pweb.Dns.Instrumenter.Sound.{concat, IsSound}
use pweb.Dns.Instrumenter.Runs.{
  Reaches, starts, adds, instrumenter-IsSound, handle_nagle_timeout-sends,
}
use pweb.Dns.Samples.{codes}

abbrev metric : Bytes
metric = codes "22 serialization::archive 10"

abbrev one : Instrumenter
one = add_metric metric new_instrumenter

one-Reaches : Reaches one (metric ∷ [])
one-Reaches = adds metric starts (record { nonempty = omega arith; fits = omega arith })

one_waits : 0 < one.buf_size
unfolding add_metric pweb.Dns.Instrumenter.time_first pweb.Dns.Instrumenter.send_full
    pweb.Dns.Instrumenter.push_back pweb.Dns.Instrumenter.make_room
    pweb.Dns.Instrumenter.start_timer new_instrumenter
one_waits = omega arith

instrumenter-IsSound_example : IsSound one (metric ∷ [])
instrumenter-IsSound_example = instrumenter-IsSound one (metric ∷ []) one-Reaches

handle_nagle_timeout-sends_example :
    (s' : Instrumenter) × Reaches s' (metric ∷ [])
    × (0 < s'.due)
    × (concat (handle_nagle_timeout s').sent ≡ metric ∷ [])
    × ((handle_nagle_timeout s').buf ≡ [])
handle_nagle_timeout-sends_example =
    handle_nagle_timeout-sends one (metric ∷ []) one-Reaches one_waits
