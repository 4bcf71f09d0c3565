-- ===== src/Klink/LookupTable/Laws.antt =====
-- A table stays ordered, and its operations are those of a finite map from ranks to values.
use pweb.Prelude.{
  ℕ, ◌<◌, ◌≤◌, ◌≡◌, refl, inl, inr, false, Option, none, some, [], ◌∷◌, ltb, ◌==◌, if◌then◌else◌,
  Bool-cases, arith,
}
use pweb.Klink.LookupTable.{Table, find, insert, assign, erase}

module _ {V : Type 0} where
  -- A map changed at one rank.
  abbrev pub put : ℕ → Option V → (ℕ → Option V) → ℕ → Option V
  put j v m i = if j == i then v else m i

module _ {K V : Type 0} (rank : K → ℕ) where
  -- Every key of the table ranks above `n`, in order.
  abbrev pub Above : ℕ → Table K V → Type 0
  Above n [] = Unit {0}
  Above n ((k, v) ∷ table) = (n < rank k) × Above (rank k) table

  abbrev pub IsOrdered : Table K V → Type 0
  IsOrdered [] = Unit {0}
  IsOrdered ((k, v) ∷ table) = Above (rank k) table

  -- The value that a table has for a rank.
  abbrev pub contents : Table K V → ℕ → Option V
  contents [] i = none
  contents ((k, v) ∷ table) i = if rank k == i then some v else contents table i

  pub find-contents : (key : K) (t : Table K V) → find rank key t ≡ contents t (rank key)
  unfolding find
  find-contents key [] = refl
  find-contents key ((k, v) ∷ t) = rw (find-contents key t)

  Above-weaken : (n m : ℕ) (t : Table K V) → n < m → Above m t → Above n t
  Above-weaken n m [] h w = tt
  Above-weaken n m ((k, v) ∷ t) h w = (omega (arith, w.0), w.1)

  contents_below : (n : ℕ) (t : Table K V) (i : ℕ) → Above n t → i ≤ n → contents t i ≡ none
  contents_below n [] i w h = refl
  contents_below n ((k, v) ∷ t) i w h =
      let other : (rank k == i) ≡ false = ground (arith, w.0) in
      rw other (contents_below (rank k) t i w.1 (omega (arith, w.0)))

  insert-Above :
      (n : ℕ) (key : K) (value : V) (t : Table K V)
      → n < rank key
      → Above n t
      → Above n (insert rank key value t)
  unfolding insert
  insert-Above n key value [] h w = (h, tt)
  insert-Above n key value ((k, v) ∷ t) h w = elim (Bool-cases (ltb (rank key) (rank k))) [
    | inl before ↦ rw before (h, (ground (arith, before), w.1))
    | inr after ↦ rw after (elim (Bool-cases (rank k == rank key)) [
      | inl same ↦ rw same w
      | inr other ↦
          rw other (w.0, insert-Above (rank k) key value t (ground (arith, after, other)) w.1)
    ])
  ]

  assign-Above :
      (n : ℕ) (key : K) (value : V) (t : Table K V) → Above n t → Above n (assign rank key value t)
  unfolding assign
  assign-Above n key value [] w = w
  assign-Above n key value ((k, v) ∷ t) w = elim (Bool-cases (rank k == rank key)) [
    | inl same ↦ rw same w
    | inr other ↦ rw other (w.0, assign-Above (rank k) key value t w.1)
  ]

  erase-Above : (n : ℕ) (key : K) (t : Table K V) → Above n t → Above n (erase rank key t)
  unfolding erase
  erase-Above n key [] w = w
  erase-Above n key ((k, v) ∷ t) w = elim (Bool-cases (rank k == rank key)) [
    | inl same ↦ rw same (Above-weaken n (rank k) t w.0 w.1)
    | inr other ↦ rw other (w.0, erase-Above (rank k) key t w.1)
  ]

  Above-IsOrdered : (n : ℕ) (t : Table K V) → Above n t → IsOrdered t
  Above-IsOrdered n [] w = tt
  Above-IsOrdered n ((k, v) ∷ t) w = w.1

  pub insert-IsOrdered :
      (key : K) (value : V) (t : Table K V) → IsOrdered t → IsOrdered (insert rank key value t)
  unfolding insert
  insert-IsOrdered key value [] w = tt
  insert-IsOrdered key value ((k, v) ∷ t) w = elim (Bool-cases (ltb (rank key) (rank k))) [
    | inl before ↦ rw before (ground (arith, before), w)
    | inr after ↦ rw after (elim (Bool-cases (rank k == rank key)) [
      | inl same ↦ rw same w
      | inr other ↦ rw other (insert-Above (rank k) key value t (ground (arith, after, other)) w)
    ])
  ]

  pub assign-IsOrdered :
      (key : K) (value : V) (t : Table K V) → IsOrdered t → IsOrdered (assign rank key value t)
  unfolding assign
  assign-IsOrdered key value [] w = tt
  assign-IsOrdered key value ((k, v) ∷ t) w = elim (Bool-cases (rank k == rank key)) [
    | inl same ↦ rw same w
    | inr other ↦ rw other (assign-Above (rank k) key value t w)
  ]

  pub erase-IsOrdered : (key : K) (t : Table K V) → IsOrdered t → IsOrdered (erase rank key t)
  unfolding erase
  erase-IsOrdered key [] w = tt
  erase-IsOrdered key ((k, v) ∷ t) w = elim (Bool-cases (rank k == rank key)) [
    | inl same ↦ rw same (Above-IsOrdered (rank k) t w)
    | inr other ↦ rw other (erase-Above (rank k) key t w)
  ]

  pub insert-contents :
      (key : K) (value : V) (t : Table K V) (i : ℕ)
      → contents t (rank key) ≡ none
      → contents (insert rank key value t) i ≡ put (rank key) (some value) (contents t) i
  unfolding insert
  insert-contents key value [] i e = refl
  insert-contents key value ((k, v) ∷ t) i e = elim (Bool-cases (rank k == rank key)) [
    | inl same ↦ absurd (cc (rw same at e))
    | inr other ↦ rw other (elim (Bool-cases (ltb (rank key) (rank k))) [
      | inl before ↦ rw before
      | inr after ↦
          rw (after, insert-contents key value t i (rw other at e)) (ground (arith, other))
    ])
  ]

  pub assign-contents :
      (key : K) (value old : V) (t : Table K V) (i : ℕ)
      → contents t (rank key) ≡ some old
      → contents (assign rank key value t) i ≡ put (rank key) (some value) (contents t) i
  unfolding assign
  assign-contents key value old [] i e = absurd (cc e)
  assign-contents key value old ((k, v) ∷ t) i e = elim (Bool-cases (rank k == rank key)) [
    | inl same ↦ rw same (ground (arith, same))
    | inr other ↦
        rw (other, assign-contents key value old t i (rw other at e)) (ground (arith, other))
  ]

  pub erase-contents :
      (key : K) (t : Table K V) (i : ℕ)
      → IsOrdered t
      → contents (erase rank key t) i ≡ put (rank key) none (contents t) i
  unfolding erase
  erase-contents key [] i w = ground arith
  erase-contents key ((k, v) ∷ t) i w = elim (Bool-cases (rank k == rank key)) [
    | inl same ↦ rw same (elim (Bool-cases (rank key == i)) [
      | inl this ↦ rw (this, contents_below (rank k) t i w (ground (arith, same, this)))
      | inr that ↦ rw that (ground (arith, same, that))
    ])
    | inr other ↦
        rw (other, erase-contents key t i (Above-IsOrdered (rank k) t w)) (ground (arith, other))
  ]
