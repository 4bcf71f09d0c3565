-- ===== src/Klink/Cache/View.antt =====
-- The nodes of the cache as its entries, most recently used first, and the list operations that
-- the cache stands for.
use pweb.Prelude.{
  ℕ, suc, ◌+◌, ◌≡◌, refl, ap, true, false, ◌⊎◌, inl, inr, Option, none, some, [], ◌∷◌, ◌++◌, arith,
  length, length-append, ◌==◌, Bool-cases, if◌then◌else◌,
}
use pweb.Klink.OverlayId.{OverlayId, HostAddress, rank}
use pweb.Klink.LookupTable.{find}
use pweb.Klink.Message.Init.{RoutingTable}
use pweb.Klink.NextHop.{without}
use pweb.Klink.Dll.{Ptr}
use pweb.Klink.Dll.Links.{Cell, Cells}

abbrev pub entries : Cells → RoutingTable
entries [] = []
entries (c ∷ cs) = (c.key, c.value) ∷ entries cs

-- The address that has a rank, and how many nodes have it.
abbrev pub holder : ℕ → Cells → Option Ptr
holder i [] = none
holder i (c ∷ cs) = let rest = holder i cs in if rank c.key == i then some c.address else rest

abbrev pub ranked : ℕ → Cells → ℕ
ranked i [] = 0
ranked i (c ∷ cs) = let rest = ranked i cs in if rank c.key == i then suc rest else rest

abbrev pub entry_of : OverlayId → RoutingTable → Option (OverlayId × HostAddress)
entry_of key [] = none
entry_of key ((k, v) ∷ l) =
    let rest = entry_of key l in if rank k == rank key then some (k, v) else rest

-- The entry of a key is used: it becomes the first.
abbrev pub touch : OverlayId → RoutingTable → RoutingTable
touch key l = elim (entry_of key l) [ none ↦ l | some e ↦ e ∷ without key l ]

abbrev pub without_last : RoutingTable → RoutingTable
without_last [] = []
without_last (e ∷ l) = elim l [ [] ↦ [] | x ∷ xs ↦ e ∷ without_last l ]

pub ranked-append : (i : ℕ) (xs ys : Cells) → ranked i (xs ++ ys) ≡ ranked i xs + ranked i ys
ranked-append i [] ys = omega arith
ranked-append i (x ∷ xs) ys = ground (arith, ranked-append i xs ys)

pub locate :
    (i : ℕ) (cells : Cells)
    → (ranked i cells ≡ 0)
      ⊎ ((fs : Cells) × (c : Cell) × (ys : Cells) × (cells ≡ fs ++ (c ∷ ys))
          × ((rank c.key == i) ≡ true)
          × (ranked i fs ≡ 0))
locate i [] = inl refl
locate i (x ∷ xs) = elim (Bool-cases (rank x.key == i)) [
  | inl this ↦ inr ([], x, xs, refl, this, refl)
  | inr that ↦ elim (locate i xs) [
    | inl out ↦ inl (rw that out)
    | inr (fs, c, ys, e, this, out) ↦ inr (x ∷ fs, c, ys, ap (◌∷◌ x) e, this, rw that out)
  ]
]

-- The node of a rank after nodes that do not have it.
pub holder-here :
    (i : ℕ) (fs : Cells) (c : Cell) (ys : Cells)
    → (rank c.key == i) ≡ true
    → ranked i fs ≡ 0
    → holder i (fs ++ (c ∷ ys)) ≡ some c.address
holder-here i [] c ys this out = rw this refl
holder-here i (f ∷ fs) c ys this out =
    let that : (rank f.key == i) ≡ false = ground (arith, out) in
    rw that (holder-here i fs c ys this (ground (arith, out)))

pub holder-none : (i : ℕ) (cells : Cells) → ranked i cells ≡ 0 → holder i cells ≡ none
holder-none i [] out = refl
holder-none i (f ∷ fs) out =
    let that : (rank f.key == i) ≡ false = ground (arith, out) in
    rw that (holder-none i fs (ground (arith, out)))

pub holder-skip :
    (i : ℕ) (fs : Cells) (c : Cell) (ys : Cells)
    → (rank c.key == i) ≡ false
    → holder i (fs ++ (c ∷ ys)) ≡ holder i (fs ++ ys)
holder-skip i [] c ys that = rw that refl
holder-skip i (f ∷ fs) c ys that = rw (holder-skip i fs c ys that) refl

module _ (key : OverlayId) where
  pub entry_of-here :
      (fs : Cells) (c : Cell) (ys : Cells)
      → (rank c.key == rank key) ≡ true
      → ranked (rank key) fs ≡ 0
      → entry_of key (entries (fs ++ (c ∷ ys))) ≡ some (c.key, c.value)
  entry_of-here [] c ys this out = rw this refl
  entry_of-here (f ∷ fs) c ys this out =
      let that : (rank f.key == rank key) ≡ false = ground (arith, out) in
      rw that (entry_of-here fs c ys this (ground (arith, out)))

  pub without-here :
      (fs : Cells) (c : Cell) (ys : Cells)
      → (rank c.key == rank key) ≡ true
      → ranked (rank key) fs ≡ 0
      → without key (entries (fs ++ (c ∷ ys))) ≡ entries (fs ++ ys)
  without-here [] c ys this out = rw this refl
  without-here (f ∷ fs) c ys this out =
      let that : (rank f.key == rank key) ≡ false = ground (arith, out) in
      rw that (ap (◌∷◌ (f.key, f.value)) (without-here fs c ys this (ground (arith, out))))

  pub find-here :
      (fs : Cells) (c : Cell) (ys : Cells)
      → (rank c.key == rank key) ≡ true
      → ranked (rank key) fs ≡ 0
      → find rank key (entries (fs ++ (c ∷ ys))) ≡ some c.value
  unfolding find
  find-here [] c ys this out = rw this refl
  find-here (f ∷ fs) c ys this out =
      let that : (rank f.key == rank key) ≡ false = ground (arith, out) in
      rw that (find-here fs c ys this (ground (arith, out)))

  pub entry_of-none :
      (cells : Cells) → ranked (rank key) cells ≡ 0 → entry_of key (entries cells) ≡ none
  entry_of-none [] out = refl
  entry_of-none (f ∷ fs) out =
      let that : (rank f.key == rank key) ≡ false = ground (arith, out) in
      rw that (entry_of-none fs (ground (arith, out)))

  pub find-none :
      (cells : Cells) → ranked (rank key) cells ≡ 0 → find rank key (entries cells) ≡ none
  unfolding find
  find-none [] out = refl
  find-none (f ∷ fs) out =
      let that : (rank f.key == rank key) ≡ false = ground (arith, out) in
      rw that (find-none fs (ground (arith, out)))

pub length-entries : (cells : Cells) → length (entries cells) ≡ length cells
length-entries [] = refl
length-entries (c ∷ cs) = ap suc (length-entries cs)

pub without_last-append :
    (fs : Cells) (c : Cell) → without_last (entries (fs ++ (c ∷ []))) ≡ entries fs
without_last-append [] c = refl
without_last-append (f ∷ []) c = refl
without_last-append (f ∷ g ∷ fs) c = ap (◌∷◌ (f.key, f.value)) (without_last-append (g ∷ fs) c)

pub ranked-same : (i j : ℕ) (xs : Cells) → (i == j) ≡ true → ranked i xs ≡ ranked j xs
ranked-same i j xs e = let same : i ≡ j = ground (arith, e) in ap (λ (n : ℕ). ranked n xs) same

pub ranked-move :
    (i : ℕ) (fs : Cells) (c : Cell) (ys : Cells)
    → ranked i (c ∷ fs ++ ys) ≡ ranked i (fs ++ (c ∷ ys))
ranked-move i fs c ys = ground (arith, ranked-append i fs ys, ranked-append i fs (c ∷ ys))

pub length-move :
    (fs : Cells) (c : Cell) (ys : Cells) → length (fs ++ (c ∷ ys)) ≡ length (c ∷ fs ++ ys)
length-move fs c ys = omega (arith, length-append fs ys, length-append fs (c ∷ ys))
