-- ===== src/Crawler/HomeAgentDb/Present.antt =====
-- Which operations of `homeagentdb` keep a poller in the map.
use pweb.Prelude.{
  ℕ, zero, suc, ◌⊎◌, ◌≡◌, refl, inl, inr, true, false, Bool-cases, some, Option-cases, Bytes, List,
  [], ◌∷◌, ◌++◌, ltb, ◌==◌, arith,
}
use pweb.Klink.LookupTable.{Table, find, insert, erase}
use pweb.Crawler.HomeAgentDb.{
  HomeAgentDb, pointer, count, shortest, push_at, poller_at, assign_home_agent, is_empty, process,
  process_queue, poller_connected, take_back, poller_disconnected, add_home_agent,
}

-- The map has the poller.
abbrev pub IsPresent : ℕ → Table ℕ (List Bytes) → Type 0
IsPresent p t = (l : List Bytes) × (find pointer p t ≡ some l)

IsPresent-cons :
    (p q : ℕ) (l l' : List Bytes) (t t' : Table ℕ (List Bytes))
    → (IsPresent p t → IsPresent p t')
    → IsPresent p ((q, l) ∷ t)
    → IsPresent p ((q, l') ∷ t')
unfolding find
IsPresent-cons p q l l' t t' f (v, e) = elim (Bool-cases (q == p)) [
  | inl this ↦ (l', rw this refl)
  | inr that ↦ let (v', e') = f (v, rw that at e) in (v', rw that e')
]

IsPresent-push_at :
    (p i : ℕ) (ha : Bytes) (t : Table ℕ (List Bytes)) → IsPresent p t → IsPresent p (push_at i ha t)
IsPresent-push_at p i ha [] w = w
IsPresent-push_at p zero ha ((q, l) ∷ t) w = IsPresent-cons p q l (l ++ ha ∷ []) t t (λ v. v) w
IsPresent-push_at p (suc i) ha ((q, l) ∷ t) w =
    IsPresent-cons p q l l t (push_at i ha t) (IsPresent-push_at p i ha t) w

inserted-IsPresent : (p : ℕ) (t : Table ℕ (List Bytes)) → IsPresent p (insert pointer p [] t)
unfolding insert find
inserted-IsPresent p [] = let same : (p == p) ≡ true = ground arith in ([], rw same refl)
inserted-IsPresent p ((q, l) ∷ t) = elim (Bool-cases (ltb p q)) [
  | inl before ↦ let same : (p == p) ≡ true = ground arith in ([], rw before (rw same refl))
  | inr behind ↦ elim (Bool-cases (q == p)) [
    | inl this ↦ (l, rw (behind, this) (rw this refl))
    | inr that ↦ let (v, e) = inserted-IsPresent p t in (v, rw (behind, that) (rw that e))
  ]
]

IsPresent-insert :
    (p q : ℕ) (t : Table ℕ (List Bytes)) → IsPresent p t → IsPresent p (insert pointer q [] t)
unfolding insert find
IsPresent-insert p q [] (v, e) = absurd (cc e)
IsPresent-insert p q ((k, l) ∷ t) (v, e) = elim (Bool-cases (ltb q k)) [
  | inl before ↦
      rw before
        (elim (Bool-cases (q == p)) [ inl this ↦ ([], rw this refl) | inr that ↦ (v, rw that e) ])
  | inr behind ↦ rw behind (elim (Bool-cases (k == q)) [
    | inl same ↦ rw same (v, e)
    | inr other ↦
        rw other (IsPresent-cons p k l l t (insert pointer q [] t) (IsPresent-insert p q t) (v, e))
  ])
]

IsPresent-erase :
    (p q : ℕ) (t : Table ℕ (List Bytes))
    → (p == q) ≡ false
    → IsPresent p t
    → IsPresent p (erase pointer q t)
unfolding erase find
IsPresent-erase p q [] other (v, e) = absurd (cc e)
IsPresent-erase p q ((k, l) ∷ t) other (v, e) = elim (Bool-cases (k == q)) [
  | inl same ↦
      let differs : (k == p) ≡ false = ground (arith, same, other) in rw same (v, rw differs at e)
  | inr more ↦
      rw more (IsPresent-cons p k l l t (erase pointer q t) (IsPresent-erase p q t other) (v, e))
]

some-IsPresent :
    (p : ℕ) (s s' : HomeAgentDb)
    → some s ≡ some s'
    → IsPresent p s.pollerdb
    → IsPresent p s'.pollerdb
some-IsPresent p s s' e w = let same : s ≡ s' = cc e in rw (← same) w

assign_home_agent-IsPresent :
    (p : ℕ) (ha : Bytes) (s s' : HomeAgentDb)
    → assign_home_agent ha s ≡ some s'
    → IsPresent p s.pollerdb
    → IsPresent p s'.pollerdb
unfolding assign_home_agent
assign_home_agent-IsPresent p ha s s' e w = elim (Bool-cases (count ha s.hadb == 0)) [
  | inr known ↦ some-IsPresent p s s' (rw known at e) w
  | inl new ↦ elim (Option-cases (poller_at (shortest s.pollerdb) s.pollerdb)) [
    | inl nobody ↦ absurd (cc (rw (new, nobody) at e))
    | inr (q, found) ↦
        let kept = IsPresent-push_at p (shortest s.pollerdb) ha s.pollerdb w in
        some-IsPresent p _ s' (rw (new, found) at e) kept
  ]
]

process-IsPresent :
    (p : ℕ) (q : List Bytes) (s s' : HomeAgentDb)
    → process q s ≡ some s'
    → IsPresent p s.pollerdb
    → IsPresent p s'.pollerdb
unfolding process
process-IsPresent p [] s s' e w = some-IsPresent p _ s' e w
process-IsPresent p (ha ∷ q) s s' e w = elim (Bool-cases (is_empty s.pollerdb)) [
  | inl nobody ↦ some-IsPresent p _ s' (rw nobody at e) w
  | inr somebody ↦ elim (Option-cases (assign_home_agent ha s)) [
    | inl wrong ↦ absurd (cc (rw (somebody, wrong) at e))
    | inr (t, made) ↦
        process-IsPresent p q t s' (rw (somebody, made) at e)
          (assign_home_agent-IsPresent p ha s t made w)
  ]
]

-- Connecting a poller keeps the others and itself.
pub poller_connected-IsPresent :
    (p q : ℕ) (s s' : HomeAgentDb)
    → poller_connected q s ≡ some s'
    → ((p == q) ≡ true) ⊎ IsPresent p s.pollerdb
    → IsPresent p s'.pollerdb
unfolding poller_connected process_queue
poller_connected-IsPresent p q s s' e (inl this) =
    let same : p ≡ q = ground (arith, this) in
    process-IsPresent p s.pollerq (record s { pollerdb = insert pointer q [] s.pollerdb }) s' e
      (rw same (inserted-IsPresent q s.pollerdb))
poller_connected-IsPresent p q s s' e (inr w) =
    process-IsPresent p s.pollerq (record s { pollerdb = insert pointer q [] s.pollerdb }) s' e
      (IsPresent-insert p q s.pollerdb w)

take_back-pollerdb : (l : List Bytes) (s : HomeAgentDb) → (take_back l s).pollerdb ≡ s.pollerdb
take_back-pollerdb [] s = refl
take_back-pollerdb (ha ∷ l) s = take_back-pollerdb l _

-- Disconnecting a poller keeps the others.
pub poller_disconnected-IsPresent :
    (p q : ℕ) (s s' : HomeAgentDb)
    → poller_disconnected q s ≡ some s'
    → (p == q) ≡ false
    → IsPresent p s.pollerdb
    → IsPresent p s'.pollerdb
unfolding poller_disconnected process_queue
poller_disconnected-IsPresent p q s s' e other w = elim (Option-cases (find pointer q s.pollerdb)) [
  | inl unknown ↦ absurd (cc (rw (unknown, poller_disconnected) at e))
  | inr (l, there) ↦
      let left : HomeAgentDb = record (take_back l s) {
        pollerdb = erase pointer q (take_back l s).pollerdb;
      } in
      process-IsPresent p left.pollerq left s' (rw (there, poller_disconnected) at e)
        (rw (take_back-pollerdb l s) (IsPresent-erase p q s.pollerdb other w))
]

pub add_home_agent-IsPresent :
    (p : ℕ) (ha : Bytes) (s s' : HomeAgentDb)
    → add_home_agent ha s ≡ some s'
    → IsPresent p s.pollerdb
    → IsPresent p s'.pollerdb
unfolding add_home_agent
add_home_agent-IsPresent p ha s s' e w = elim (Bool-cases (is_empty s.pollerdb)) [
  | inl nobody ↦ some-IsPresent p _ s' (rw nobody at e) w
  | inr somebody ↦ assign_home_agent-IsPresent p ha s s' (rw somebody at e) w
]
