-- ===== src/Crawler/HomeAgentDb/Laws.antt =====
-- Counting the home agents of `homeagentdb`.
use pweb.Prelude.{
  ℕ, zero, suc, ◌+◌, ◌-◌, ◌≤◌, ◌≡◌, refl, ap, ◌⊎◌, inl, inr, Bool-cases, some, Bytes, List, [], ◌∷◌,
  ◌++◌, ltb, ◌==◌, if◌then◌else◌, arith, same_bytes, same_bytes_sound, same_bytes_refl,
}
use pweb.Klink.LookupTable.{Table, find, insert, erase}
use pweb.Crawler.HomeAgentDb.{HomeAgentDb, pointer, count, erase_all, push_at, poller_at, take_back}

-- One if the strings are the same.
abbrev pub hit : Bytes → Bytes → ℕ
hit x y = if same_bytes x y then 1 else 0

pub hit_refl : (x : Bytes) → hit x x ≡ 1
hit_refl x = rw (same_bytes_refl x)

pub count-cons : (x y : Bytes) (ys : List Bytes) → count x (y ∷ ys) ≡ hit x y + count x ys
count-cons x y ys = elim (Bool-cases (same_bytes x y)) [
  | inl same ↦ rw same (omega arith)
  | inr other ↦ rw other (omega arith)
]

pub count-append : (x : Bytes) (ys zs : List Bytes) → count x (ys ++ zs) ≡ count x ys + count x zs
count-append x [] zs = omega arith
count-append x (y ∷ ys) zs =
    omega (arith, count-cons x y (ys ++ zs), count-cons x y ys, count-append x ys zs)

pub count-snoc : (x y : Bytes) (ys : List Bytes) → count x (ys ++ y ∷ []) ≡ count x ys + hit x y
count-snoc x y ys = omega (arith, count-append x ys (y ∷ []), count-cons x y [])

pub hit_sound : (x y : Bytes) → hit x y ≡ 1 → x ≡ y
hit_sound x y h = elim (Bool-cases (same_bytes x y)) [
  | inl same ↦ same_bytes_sound x y same
  | inr other ↦ let missed : hit x y ≡ 0 = rw other in absurd (omega (arith, missed, h))
]

pub hit_bool : (x y : Bytes) → (hit x y ≡ 1) ⊎ (hit x y ≡ 0)
hit_bool x y = elim (Bool-cases (same_bytes x y)) [
  | inl same ↦ inl (rw same)
  | inr other ↦ inr (rw other)
]

count-erased : (x : Bytes) (ys : List Bytes) → count x (erase_all x ys) ≡ 0
count-erased x [] = refl
count-erased x (z ∷ ys) = elim (Bool-cases (same_bytes x z)) [
  | inl same ↦ rw same (count-erased x ys)
  | inr other ↦ rw other (rw other (count-erased x ys))
]

count-kept : (x y : Bytes) (ys : List Bytes) → hit x y ≡ 0 → count x (erase_all y ys) ≡ count x ys
count-kept x y [] h = refl
count-kept x y (z ∷ ys) h = elim (Bool-cases (same_bytes y z)) [
  | inl same ↦
      let e = same_bytes_sound y z same in
      let missed : hit x z ≡ 0 = rw e at h in
      rw same (omega (arith, count-kept x y ys h, count-cons x z ys, missed))
  | inr other ↦
      rw other
        (omega (arith, count-kept x y ys h, count-cons x z ys, count-cons x z (erase_all y ys)))
]

-- Erasing from a set takes away what is hit.
pub count-erase_all :
    (x y : Bytes) (ys : List Bytes)
    → count x ys ≤ 1
    → count x (erase_all y ys) ≡ count x ys - hit x y
count-erase_all x y ys h = elim (hit_bool x y) [
  | inr missed ↦ omega (arith, count-kept x y ys missed, missed)
  | inl met ↦
      let e : x ≡ y = hit_sound x y met in
      let gone : count x (erase_all y ys) ≡ 0 = rw (← e) (count-erased x ys) in
      omega (arith, gone, met, h)
]

-- How often the pollers have a string.
abbrev pub held : Bytes → Table ℕ (List Bytes) → ℕ
held x [] = 0
held x ((p, l) ∷ t) = count x l + held x t

pub held-insert :
    (x : Bytes) (p : ℕ) (t : Table ℕ (List Bytes)) → held x (insert pointer p [] t) ≡ held x t
unfolding insert
held-insert x p [] = refl
held-insert x p ((q, l) ∷ t) = elim (Bool-cases (ltb p q)) [
  | inl less ↦ rw less (omega arith)
  | inr more ↦ elim (Bool-cases (q == p)) [
    | inl same ↦ rw (more, same)
    | inr other ↦ rw (more, other) (ap (λ n. count x l + n) (held-insert x p t))
  ]
]

pub held-erase :
    (x : Bytes) (p : ℕ) (t : Table ℕ (List Bytes)) (l : List Bytes)
    → find pointer p t ≡ some l
    → held x t ≡ count x l + held x (erase pointer p t)
unfolding find erase
held-erase x p [] l e = absurd (cc e)
held-erase x p ((q, k) ∷ t) l e = elim (Bool-cases (q == p)) [
  | inl same ↦
      let this : some k ≡ some l = rw same at e in let list : k ≡ l = cc this in rw (same, list)
  | inr other ↦ rw other (let rest = held-erase x p t l (rw other at e) in omega (arith, rest))
]

pub held-push_at :
    (x : Bytes) (i : ℕ) (ha : Bytes) (t : Table ℕ (List Bytes)) (p : ℕ)
    → poller_at i t ≡ some p
    → held x (push_at i ha t) ≡ held x t + hit x ha
held-push_at x i ha [] p e = absurd (cc e)
held-push_at x zero ha ((q, l) ∷ t) p e = omega (arith, count-snoc x ha l)
held-push_at x (suc i) ha ((q, l) ∷ t) p e = omega (arith, held-push_at x i ha t p e)

-- What the queue and the set have when the list of a poller is taken back.
pub take_back-counts :
    (x : Bytes) (l : List Bytes) (s : HomeAgentDb)
    → count x s.hadb ≤ 1
    → (count x (take_back l s).hadb ≡ count x s.hadb - count x l)
      × (count x (take_back l s).pollerq ≡ count x s.pollerq + count x l)
      × ((take_back l s).pollerdb ≡ s.pollerdb)
take_back-counts x [] s h = (omega arith, omega arith, refl)
take_back-counts x (ha ∷ l) s h =
    let s' = record s { pollerq = s.pollerq ++ ha ∷ []; hadb = erase_all ha s.hadb } in
    let erased = count-erase_all x ha s.hadb h in
    let (set, queue, same) = take_back-counts x l s' (omega (arith, erased, h)) in
    (
      omega (arith, set, erased, count-cons x ha l),
      omega (arith, queue, count-snoc x ha s.pollerq, count-cons x ha l),
      same,
    )
