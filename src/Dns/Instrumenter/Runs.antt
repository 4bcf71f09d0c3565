-- ===== src/Dns/Instrumenter/Runs.antt =====
-- Runs of the instrumenter: no metric is lost, none is sent out of order, and none waits for ever.
use pweb.Prelude.{◌<◌, ◌≡◌, refl, ◌∙◌, inl, inr, true, Bytes, List, [], ◌∷◌, ◌++◌, arith}
use pweb.Dns.Instrumenter.{
  Instrumenter, new_instrumenter, send_now, add_metric, timer_ends, handle_nagle_timeout,
}
use pweb.Dns.Instrumenter.Sound.{
  IsMetric, concat, concat-snoc, IsSound, new_instrumenter-IsSound, add_metric-IsSound,
  timer_ends-IsSound, handle_nagle_timeout-IsSound,
}

-- The states that a run leads to, with the metrics that were added, in order.
pub data Reaches : Instrumenter → List Bytes → Type 0 where
  starts : Reaches new_instrumenter []
  adds :
      {s : Instrumenter} {added : List Bytes} (m : Bytes)
      → Reaches s added
      → IsMetric m
      → Reaches (add_metric m s) (added ++ m ∷ [])
  ends :
      {s : Instrumenter} {added : List Bytes}
      → Reaches s added
      → s.armed ≡ true
      → Reaches (timer_ends s) added
  handles :
      {s : Instrumenter} {added : List Bytes}
      → Reaches s added
      → 0 < s.due
      → Reaches (handle_nagle_timeout s) added

-- In every run of the instrumenter whose metrics have 1 to 65507 bytes: the metrics of the datagrams
-- sent, and then those in the buffer, are the metrics added, in order; no datagram has more than
-- 65507 bytes; `buf_size_` is the size of the buffer, which is not full; and while the buffer has
-- bytes, the timer runs or its handler is due.
pub instrumenter-IsSound :
    (s : Instrumenter) (added : List Bytes) → Reaches s added → IsSound s added
instrumenter-IsSound _ _ starts = new_instrumenter-IsSound
instrumenter-IsSound _ _ (adds {s} {added} m r g) =
    add_metric-IsSound m s added (instrumenter-IsSound s added r) g
instrumenter-IsSound _ _ (ends {s} {added} r a) =
    timer_ends-IsSound s added (instrumenter-IsSound s added r)
instrumenter-IsSound _ _ (handles {s} {added} r d) =
    handle_nagle_timeout-IsSound s added (instrumenter-IsSound s added r)

-- From every state of a run in which the buffer has bytes, a handler is due or the timer can end and
-- make it so, and when the handler has run, every metric that was added has been sent, in order.
pub handle_nagle_timeout-sends :
    (s : Instrumenter) (added : List Bytes)
    → Reaches s added
    → 0 < s.buf_size
    → (s' : Instrumenter) × Reaches s' added
      × (0 < s'.due)
      × (concat (handle_nagle_timeout s').sent ≡ added)
      × ((handle_nagle_timeout s').buf ≡ [])
unfolding handle_nagle_timeout send_now timer_ends
handle_nagle_timeout-sends s added r h =
    let w = instrumenter-IsSound s added r in
    let all_sent : concat (s.sent ++ s.buf ∷ []) ≡ added = concat-snoc s.sent s.buf ∙ w.in_order in
    elim (w.timed h) [
      | inl armed ↦ (timer_ends s, ends r armed, omega arith, all_sent, refl)
      | inr due ↦ (s, r, due, all_sent, refl)
    ]
