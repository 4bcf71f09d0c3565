-- ===== src/Dns/Instrumenter/Sound.antt =====
-- What holds of the instrumenter after each step, and that each step keeps it.
use pweb.Prelude.{
  ℕ, ◌+◌, ◌-◌, ◌%◌, ◌<◌, ◌≤◌, ◌≡◌, refl, sym, ap, ◌∙◌, ◌⊎◌, inl, inr, true, false, Bool-cases,
  Bytes, List, [], ◌∷◌, ◌++◌, append_assoc, append-nil, length, ltb, ◌==◌, arith,
}
use pweb.Prelude.{All}
use pweb.Dns.Instrumenter.{
  Instrumenter, new_instrumenter, send_now, start_timer, push_back, make_room, send_full,
  time_first, add_metric, timer_ends, handle_nagle_timeout,
}

-- A metric as it is serialized: it has bytes, and a datagram can carry it.
pub record IsMetric (m : Bytes) : Type 0 where
  pub nonempty : 0 < length m
  pub fits : length m ≤ 65507

abbrev pub concat : List (List Bytes) → List Bytes
concat [] = []
concat (d ∷ ds) = d ++ concat ds

-- The size of a datagram.
abbrev pub total : List Bytes → ℕ
total [] = 0
total (m ∷ ms) = length m + total ms

pub concat-snoc : (ds : List (List Bytes)) (d : List Bytes) → concat (ds ++ d ∷ []) ≡ concat ds ++ d
concat-snoc [] d = append-nil d
concat-snoc (e ∷ ds) d = ap (λ x. e ++ x) (concat-snoc ds d) ∙ sym (append_assoc e (concat ds) d)

total-snoc : (ms : List Bytes) (m : Bytes) → total (ms ++ m ∷ []) ≡ total ms + length m
total-snoc [] m = omega arith
total-snoc (n ∷ ms) m = omega (arith, total-snoc ms m)

abbrev pub IsDatagram : List Bytes → Type 0
IsDatagram d = total d ≤ 65507

All-snoc :
    {A : Type 0} (P : A → Type 0) (xs : List A) (x : A) → All P xs → P x → All P (xs ++ x ∷ [])
All-snoc P [] x all p = (p, tt)
All-snoc P (y ∷ xs) x all p = (all.0, All-snoc P xs x all.1 p)

-- What holds after each step of a run.
pub record IsSound (s : Instrumenter) (added : List Bytes) : Type 0 where
  pub in_order : concat s.sent ++ s.buf ≡ added
  pub size : s.buf_size ≡ total s.buf
  pub below : s.buf_size < 65507
  pub datagrams : All IsDatagram s.sent
  pub timed : 0 < s.buf_size → (s.armed ≡ true) ⊎ (0 < s.due)

-- The steps of `add_metric_` between its tests: the same, but for the timer.
record IsStored (s : Instrumenter) (added : List Bytes) : Type 0 where
  in_order : concat s.sent ++ s.buf ≡ added
  size : s.buf_size ≡ total s.buf
  datagrams : All IsDatagram s.sent

send_now-IsStored :
    (s : Instrumenter) (added : List Bytes)
    → IsStored s added
    → s.buf_size ≤ 65507
    → IsStored (send_now s) added
unfolding send_now
send_now-IsStored s added w h = record {
  in_order = append-nil _ ∙ concat-snoc s.sent s.buf ∙ w.in_order;
  size = refl;
  datagrams = All-snoc IsDatagram s.sent s.buf w.datagrams (omega (arith, h, w.size));
}

stored : {s : Instrumenter} {added : List Bytes} → IsSound s added → IsStored s added
stored w = record { in_order = w.in_order; size = w.size; datagrams = w.datagrams }

push_back-IsStored :
    (m : Bytes) (s : Instrumenter) (added : List Bytes)
    → IsStored s added
    → s.buf_size + length m ≤ 65507
    → IsStored (push_back m s) (added ++ m ∷ [])
unfolding push_back
push_back-IsStored m s added w h = record {
  in_order = sym (append_assoc _ s.buf (m ∷ [])) ∙ ap (λ x. x ++ m ∷ []) w.in_order;
  size = omega (arith, h, w.size, total-snoc s.buf m);
  datagrams = w.datagrams;
}

pub new_instrumenter-IsSound : IsSound new_instrumenter []
unfolding new_instrumenter
new_instrumenter-IsSound = record {
  in_order = refl;
  size = refl;
  below = omega arith;
  datagrams = tt;
  timed = λ h. absurd (omega (arith, h));
}

-- A stored state whose buffer is not full and, unless it is empty, is timed.
sound :
    (s : Instrumenter) (added : List Bytes)
    → IsStored s added
    → s.buf_size < 65507
    → (0 < s.buf_size → (s.armed ≡ true) ⊎ (0 < s.due))
    → IsSound s added
sound s added w h t = record {
  in_order = w.in_order;
  size = w.size;
  below = h;
  datagrams = w.datagrams;
  timed = t;
}

send_now-IsSound :
    (s : Instrumenter) (added : List Bytes)
    → IsStored s added
    → s.buf_size ≤ 65507
    → IsSound (send_now s) added
unfolding send_now
send_now-IsSound s added w h =
    sound _ added (send_now-IsStored s added w h) (omega arith) (λ e. absurd (omega (arith, e)))

make_room-IsSound :
    (m : Bytes) (s : Instrumenter) (added : List Bytes)
    → IsSound s added
    → IsMetric m
    → IsSound (make_room m s) added × ((make_room m s).buf_size + length m ≤ 65507)
unfolding make_room send_now
make_room-IsSound m s added w g =
    let exact : (s.buf_size + length m) % 18446744073709551616 ≡ s.buf_size + length m =
      omega (arith, w.below, g.fits) in
    elim (Bool-cases (ltb 65507 (s.buf_size + length m))) [
      | inl full ↦
          rw (exact, full)
            (send_now-IsSound s added (stored w) (omega (arith, w.below)), omega (arith, g.fits))
      | inr room ↦ rw (exact, room) (w, ground (arith, room))
    ]

-- The last two tests, with `n` bytes in front of the metric.
send_full-IsSound :
    (m : Bytes) (n : ℕ) (s : Instrumenter) (added : List Bytes)
    → IsStored s added
    → IsMetric m
    → s.buf_size ≡ n + length m
    → s.buf_size ≤ 65507
    → (0 < n → (s.armed ≡ true) ⊎ (0 < s.due))
    → IsSound (time_first m (send_full s)) added
unfolding send_full time_first send_now start_timer
send_full-IsSound m n s added w g e h t = elim (Bool-cases (s.buf_size == 65507)) [
  | inl full ↦
      let some_bytes : (0 == length m) ≡ false = ground (arith, g.nonempty) in
      rw (full, send_full, time_first) (rw some_bytes (send_now-IsSound s added w h))
  | inr below ↦
      let small : s.buf_size < 65507 = ground (arith, below, h) in
      elim (Bool-cases (s.buf_size == length m)) [
        | inl first ↦
            rw (below, send_full, time_first)
              (rw (first, time_first)
                (sound _ added
                  (record { in_order = w.in_order; size = w.size; datagrams = w.datagrams }) small
                  (λ _. inl refl)))
        | inr later ↦
            let behind : 0 < n = ground (arith, later, e) in
            rw (below, send_full, time_first)
              (rw (later, time_first) (sound s added w small (λ _. t behind)))
      ]
]

push_back_size :
    (m : Bytes) (s : Instrumenter)
    → s.buf_size + length m ≤ 65507
    → (push_back m s).buf_size ≡ s.buf_size + length m
unfolding push_back
push_back_size m s h = omega (arith, h)

pub add_metric-IsSound :
    (m : Bytes) (s : Instrumenter) (added : List Bytes)
    → IsSound s added
    → IsMetric m
    → IsSound (add_metric m s) (added ++ m ∷ [])
unfolding add_metric push_back
add_metric-IsSound m s added w g =
    let (held, room) = make_room-IsSound m s added w g in
    let s1 = make_room m s in
    let size = push_back_size m s1 room in
    send_full-IsSound m s1.buf_size (push_back m s1) (added ++ m ∷ [])
      (push_back-IsStored m s1 added (stored held) room) g size (omega (arith, size, room))
      held.timed

pub timer_ends-IsSound :
    (s : Instrumenter) (added : List Bytes) → IsSound s added → IsSound (timer_ends s) added
unfolding timer_ends
timer_ends-IsSound s added w = record {
  in_order = w.in_order;
  size = w.size;
  below = w.below;
  datagrams = w.datagrams;
  timed = λ _. inr (omega arith);
}

pub handle_nagle_timeout-IsSound :
    (s : Instrumenter) (added : List Bytes)
    → IsSound s added
    → IsSound (handle_nagle_timeout s) added
unfolding handle_nagle_timeout
handle_nagle_timeout-IsSound s added w =
    send_now-IsSound (record s { due = s.due - 1 }) added
      (record { in_order = w.in_order; size = w.size; datagrams = w.datagrams })
      (omega (arith, w.below))
