-- ===== src/Crawler/HomeAgentDb/Shortest.antt =====
-- The poller that `assign_home_agent` picks has a shortest list.
use pweb.Prelude.{
  ℕ, zero, suc, ◌+◌, ◌<◌, ◌≤◌, ◌≡◌, refl, ◌∙◌, ◌⊎◌, inl, inr, true, Bool-cases, some, Bytes, List,
  [], ◌∷◌, ◌++◌, ◌==◌, length, ltb, arith,
}
use pweb.Klink.LookupTable.{Table}
use pweb.Prelude.{All}
use pweb.Crawler.HomeAgentDb.{
  HomeAgentDb, count, shortest_from, shortest, push_at, poller_at, assign_home_agent,
}

-- The length of the list at a position.
abbrev pub load_at : ℕ → Table ℕ (List Bytes) → ℕ
load_at i [] = 0
load_at zero ((p, l) ∷ t) = length l
load_at (suc i) ((p, l) ∷ t) = load_at i t

-- Every list has at least so many strings.
abbrev pub AtLeast : ℕ → Table ℕ (List Bytes) → Type 0
AtLeast n t = All (λ (e : ℕ × List Bytes). n ≤ length e.1) t

poller_at_short :
    (i : ℕ) (t : Table ℕ (List Bytes)) → i < length t → (p : ℕ) × (poller_at i t ≡ some p)
poller_at_short i [] h = absurd (omega (arith, h))
poller_at_short zero ((p, l) ∷ t) h = (p, refl)
poller_at_short (suc i) ((p, l) ∷ t) h = poller_at_short i t (omega (arith, h))

-- Either the minimum stays, or it is at a later position with a shorter list.
abbrev Picks : Table ℕ (List Bytes) → ℕ → ℕ → ℕ → Type 0
Picks t i min size =
    ((shortest_from t i min size ≡ min) × AtLeast size t)
    ⊎ ((j : ℕ) × (shortest_from t i min size ≡ i + j)
        × (j < length t)
        × (load_at j t < size)
        × AtLeast (load_at j t) t)

shortest_from-Picks : (t : Table ℕ (List Bytes)) (i min size : ℕ) → Picks t i min size
shortest_from-Picks [] i min size = inl (refl, tt)
shortest_from-Picks ((p, l) ∷ t) i min size = elim (Bool-cases (ltb (length l) size)) [
  | inl less ↦
      let shorter : length l < size = ground (arith, less) in
      elim (shortest_from-Picks t (i + 1) i (length l)) [
        | inl (same, all) ↦
            inr (0, rw less (same ∙ omega arith), omega arith, shorter, (omega arith, all))
        | inr (j, at, small, load, all) ↦ inr (
          suc j,
          rw less (at ∙ omega arith),
          omega (arith, small),
          omega (arith, load, shorter),
          (omega (arith, load), all),
        )
      ]
  | inr more ↦
      let longer : size ≤ length l = ground (arith, more) in
      elim (shortest_from-Picks t (i + 1) min size) [
        | inl (same, all) ↦ inl (rw more same, (longer, all))
        | inr (j, at, small, load, all) ↦ inr (
          suc j,
          rw more (at ∙ omega arith),
          omega (arith, small),
          load,
          (omega (arith, load, longer), all),
        )
      ]
]

abbrev IsShortest : ℕ → Table ℕ (List Bytes) → Type 0
IsShortest i t = (p : ℕ) × (poller_at i t ≡ some p) × AtLeast (load_at i t) t

short-IsShortest :
    (t : Table ℕ (List Bytes)) (i j : ℕ)
    → i ≡ j
    → j < length t
    → AtLeast (load_at j t) t
    → IsShortest i t
short-IsShortest t i j e h all =
    let (p, found) = poller_at_short j t h in
    let here : IsShortest j t = (p, found, all) in rw e here

-- Of the pollers, if there is one, the one that is picked has no more home agents than any.
pub shortest-AtLeast :
    (e : ℕ × List Bytes) (t : Table ℕ (List Bytes))
    → (p : ℕ) × (poller_at (shortest (e ∷ t)) (e ∷ t) ≡ some p)
      × AtLeast (load_at (shortest (e ∷ t)) (e ∷ t)) (e ∷ t)
shortest-AtLeast (p, l) t = elim (shortest_from-Picks ((p, l) ∷ t) 0 0 (length l)) [
  | inl (same, all) ↦ short-IsShortest ((p, l) ∷ t) _ 0 same (omega arith) all
  | inr (j, at, small, load, all) ↦ short-IsShortest ((p, l) ∷ t) _ j (at ∙ omega arith) small all
]

-- A home agent that is new, while there is a poller, is told to one poller, and goes to its list,
-- which is none longer than that of any other.
pub assign_home_agent-AtLeast :
    (ha : Bytes) (s : HomeAgentDb) (e : ℕ × List Bytes) (t : Table ℕ (List Bytes))
    → s.pollerdb ≡ e ∷ t
    → count ha s.hadb ≡ 0
    → (i p : ℕ) × (s' : HomeAgentDb) × (assign_home_agent ha s ≡ some s')
      × (poller_at i s.pollerdb ≡ some p)
      × AtLeast (load_at i s.pollerdb) s.pollerdb
      × (s'.pollerdb ≡ push_at i ha s.pollerdb)
      × (s'.told ≡ s.told ++ (p, ha) ∷ [])
unfolding assign_home_agent
assign_home_agent-AtLeast ha s e t there new =
    let (p, found, all) = shortest-AtLeast e t in
    let here : poller_at (shortest s.pollerdb) s.pollerdb ≡ some p = rw there found in
    let least : AtLeast (load_at (shortest s.pollerdb) s.pollerdb) s.pollerdb = rw there all in
    let none_yet : (count ha s.hadb == 0) ≡ true = ground (arith, new) in
    (
      shortest s.pollerdb,
      p,
      record s {
        hadb = ha ∷ s.hadb;
        pollerdb = push_at (shortest s.pollerdb) ha s.pollerdb;
        told = s.told ++ (p, ha) ∷ [];
      },
      rw (none_yet, assign_home_agent) (rw here),
      here,
      least,
      refl,
      refl,
    )
