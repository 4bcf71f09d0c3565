-- ===== src/Crawler/Protocol/Sound.antt =====
-- What holds of a `bufwrite` between calls, and that each call keeps it.
use pweb.Prelude.{
  ℕ, ◌+◌, ◌≡◌, refl, sym, ap, ◌∙◌, ◌⊎◌, inl, inr, Bool, true, false, not, ◌&&◌, Bool-cases,
  List-cases, List, [], ◌∷◌, ◌++◌, append_assoc, append-nil, arith,
}
use pweb.Crawler.Protocol.{
  BufItem, BufWrite, new_bufwrite, send_bufitem, send_next_bufitem, connect, handle_bufitem_sent,
}

-- The weight of items.
abbrev pub total : (BufItem → ℕ) → List BufItem → ℕ
total f [] = 0
total f (item ∷ items) = f item + total f items

total-append :
    (f : BufItem → ℕ) (xs ys : List BufItem) → total f (xs ++ ys) ≡ total f xs + total f ys
total-append f [] ys = omega arith
total-append f (x ∷ xs) ys = omega (arith, total-append f xs ys)

-- What holds of the items in every state.
pub record IsComplete (s : BufWrite) (accepted : List BufItem) : Type 0 where
  pub in_order : s.failed ≡ [] → accepted ≡ s.succeeded ++ (s.in_flight ++ s.send_queue)
  pub on_wire : s.failed ≡ [] → s.written ≡ s.succeeded ++ s.in_flight
  pub conserved :
      (f : BufItem → ℕ)
      → total f accepted
        ≡ total f s.succeeded + total f s.failed + total f s.in_flight + total f s.send_queue

-- What holds between calls.
pub record IsSound (s : BufWrite) (accepted : List BufItem) : Type 0 where
  pub is_complete : IsComplete s accepted
  pub flying :
      ((s.send_in_progress ≡ true) × ((item : BufItem) × (s.in_flight ≡ item ∷ [])))
      ⊎ ((s.send_in_progress ≡ false) × (s.in_flight ≡ []))
  pub idle : s.connected ≡ true → s.send_in_progress ≡ false → s.send_queue ≡ []
  pub silent : s.connected ≡ false → s.send_in_progress ≡ false

pub new_bufwrite-IsSound : IsSound new_bufwrite []
unfolding new_bufwrite
new_bufwrite-IsSound = record {
  is_complete = record { in_order = λ _. refl; on_wire = λ _. refl; conserved = λ f. refl };
  flying = inr (refl, refl);
  idle = λ _ _. refl;
  silent = λ _. refl;
}

-- With nothing in flight, the first of the queue is sent.
send_next-IsSound :
    (s : BufWrite) (accepted : List BufItem)
    → IsComplete s accepted
    → s.connected ≡ true
    → s.send_in_progress ≡ false
    → s.in_flight ≡ []
    → IsSound (send_next_bufitem s) accepted
unfolding send_next_bufitem send_bufitem
send_next-IsSound s accepted w up free none_due = elim (List-cases s.send_queue) [
  | inl empty ↦
      rw (empty, send_next_bufitem)
        (record {
          is_complete = w;
          flying = inr (free, none_due);
          idle = λ _ _. empty;
          silent = λ _. free;
        })
  | inr (item, rest, first) ↦
      rw (first, send_next_bufitem)
        (rw (up, free, none_due, send_bufitem)
          (record {
            is_complete = record {
              in_order = λ g. w.in_order g ∙ rw (none_due, first);
              on_wire = λ g. ap (λ x. x ++ item ∷ []) (w.on_wire g ∙ rw (none_due, append-nil));
              conserved =
                  λ f. omega (arith, w.conserved f, ap (total f) none_due, ap (total f) first);
            };
            flying = inl (refl, (item, refl));
            idle = λ _ busy. absurd (cc busy);
            silent = λ down. absurd (cc down);
          }))
]

-- An item that is only queued.
queued-IsComplete :
    (item : BufItem) (s : BufWrite) (accepted : List BufItem)
    → IsComplete s accepted
    → IsComplete (record s { send_queue = s.send_queue ++ item ∷ [] }) (accepted ++ item ∷ [])
queued-IsComplete item s accepted w = record {
  in_order = λ g.
      ap (λ x. x ++ item ∷ []) (w.in_order g)
      ∙ append_assoc s.succeeded (s.in_flight ++ s.send_queue) (item ∷ [])
      ∙ ap (λ x. s.succeeded ++ x) (append_assoc s.in_flight s.send_queue (item ∷ []));
  on_wire = w.on_wire;
  conserved = λ f. omega (
    arith,
    w.conserved f,
    total-append f accepted (item ∷ []),
    total-append f s.send_queue (item ∷ []),
  );
}

-- The queue of an idle socket is empty, so that an item is sent as the first of a queue.
send_bufitem_next :
    (item : BufItem) (s : BufWrite)
    → s.send_queue ≡ []
    → send_next_bufitem (record s { send_queue = s.send_queue ++ item ∷ [] }) ≡ send_bufitem item s
unfolding send_next_bufitem
send_bufitem_next item s empty = rw (empty, send_next_bufitem)

none_flying :
    (s : BufWrite) (accepted : List BufItem)
    → IsSound s accepted
    → s.send_in_progress ≡ false
    → s.in_flight ≡ []
none_flying s accepted w free = elim w.flying [
  | inl (busy, due) ↦ absurd (cc (sym busy ∙ free))
  | inr (still, none_due) ↦ none_due
]

one_flying :
    (s : BufWrite) (accepted : List BufItem)
    → IsSound s accepted
    → s.send_in_progress ≡ true
    → (item : BufItem) × (s.in_flight ≡ item ∷ [])
one_flying s accepted w busy = elim w.flying [
  | inl (still, due) ↦ due
  | inr (free, none_due) ↦ absurd (cc (sym busy ∙ free))
]

pub send_bufitem-IsSound :
    (item : BufItem) (s : BufWrite) (accepted : List BufItem)
    → IsSound s accepted
    → IsSound (send_bufitem item s) (accepted ++ item ∷ [])
unfolding send_bufitem
send_bufitem-IsSound item s accepted w =
    let waits = queued-IsComplete item s accepted w.is_complete in
    elim (Bool-cases s.connected) [
      | inr down ↦
          let shut : (s.connected && not s.send_in_progress) ≡ false = rw down in
          rw (shut, send_bufitem)
            (record {
              is_complete = waits;
              flying = w.flying;
              idle = λ up. absurd (cc (sym down ∙ up));
              silent = w.silent;
            })
      | inl up ↦ elim w.flying [
        | inl (busy, due) ↦
            let shut : (s.connected && not s.send_in_progress) ≡ false = rw (up, busy) in
            rw (shut, send_bufitem)
              (record {
                is_complete = waits;
                flying = inl (busy, due);
                idle = λ _ free. absurd (cc (sym busy ∙ free));
                silent = λ down. absurd (cc (sym down ∙ up));
              })
        | inr (free, none_due) ↦
            rw (← send_bufitem_next item s (w.idle up free))
              (send_next-IsSound _ (accepted ++ item ∷ []) waits up free none_due)
      ]
    ]

pub connect-IsSound :
    (s : BufWrite) (accepted : List BufItem)
    → IsSound s accepted
    → s.connected ≡ false
    → IsSound (connect s) accepted
unfolding connect
connect-IsSound s accepted w down =
    let free = w.silent down in
    let w' = w.is_complete in
    send_next-IsSound (record s { connected = true }) accepted
      (record { in_order = w'.in_order; on_wire = w'.on_wire; conserved = w'.conserved }) refl free
      (none_flying s accepted w free)

no_nil : (xs ys : List BufItem) (x : BufItem) → xs ++ x ∷ ys ≡ [] → ⊥
no_nil [] ys x e = cc e
no_nil (z ∷ xs) ys x e = cc e

pub handle_bufitem_sent-IsSound :
    (good : Bool) (s : BufWrite) (accepted : List BufItem)
    → IsSound s accepted
    → s.send_in_progress ≡ true
    → IsSound (handle_bufitem_sent good s) accepted
unfolding handle_bufitem_sent
handle_bufitem_sent-IsSound good s accepted w busy =
    let (item, due) = one_flying s accepted w busy in
    let c = w.is_complete in
    elim (Bool-cases good) [
      | inl fine ↦ elim (Bool-cases s.connected) [
        | inr down ↦ absurd (cc (sym busy ∙ w.silent down))
        | inl up ↦
            rw (due, fine, handle_bufitem_sent)
              (send_next-IsSound _ accepted
                (record {
                  in_order = λ g.
                      c.in_order g
                      ∙ rw due (sym (append_assoc s.succeeded (item ∷ []) s.send_queue));
                  on_wire = λ g. c.on_wire g ∙ rw (due, append-nil);
                  conserved = λ f. omega (
                    arith,
                    c.conserved f,
                    ap (total f) due,
                    total-append f s.succeeded (item ∷ []),
                  );
                })
                up refl refl)
      ]
      | inr lost ↦
          rw (due, lost, handle_bufitem_sent)
            (record {
              is_complete = record {
                in_order = λ g. absurd (no_nil s.failed s.send_queue item g);
                on_wire = λ g. absurd (no_nil s.failed s.send_queue item g);
                conserved = λ f. omega (
                  arith,
                  c.conserved f,
                  ap (total f) due,
                  total-append f s.failed (item ∷ s.send_queue),
                );
              };
              flying = inr (refl, refl);
              idle = λ _ _. refl;
              silent = λ _. refl;
            })
    ]
