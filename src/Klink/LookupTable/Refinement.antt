-- ===== src/Klink/LookupTable/Refinement.antt =====
-- What the operations of a table do, as changes of the map from ranks to values that it stands for.
use pweb.Prelude.{
  ℕ, ◌≡◌, refl, inl, inr, Bool, true, false, Option, none, some, Option-cases, ◌==◌, Bool-cases,
  arith,
}
use pweb.Klink.LookupTable.{Table, add, update, update_strict, remove}
use pweb.Klink.LookupTable.Laws.{
  contents, IsOrdered, put, find-contents, insert-IsOrdered, assign-IsOrdered, erase-IsOrdered,
  insert-contents, assign-contents, erase-contents,
}

module _ {V : Type 0} where
  abbrev pub is_some : Option V → Bool
  is_some none = false
  is_some (some v) = true

  abbrev pub or_else : Option V → V → V
  or_else none v = v
  or_else (some w) v = w

  abbrev pub replaced : Option V → V → Option V
  replaced none v = none
  replaced (some w) v = some v

module _ {K V : Type 0} (rank : K → ℕ) where
  -- What a table must be after an operation: in order, with these contents rank.
  pub record Refines (t : Table K V) (m : ℕ → Option V) : Type 0 where
    pub ordered : IsOrdered rank t
    pub agrees : (i : ℕ) → contents rank t i ≡ m i

  put-same :
      (j : ℕ) (o : Option V) (t : Table K V) (i : ℕ)
      → contents rank t j ≡ o
      → contents rank t i ≡ put j o (contents rank t) i
  put-same j o t i e = elim (Bool-cases (j == i)) [
    | inl same ↦ rw same (let p : i ≡ j = ground (arith, same) in rw p e)
    | inr other ↦ rw other
  ]

  -- On an ordered table, `add` keeps the value that a key has, gives it the new one if it has
  -- none, changes no other key, keeps the order, and returns whether the key was there.
  pub add-Refines :
      (key : K) (value : V) (t : Table K V)
      → IsOrdered rank t
      → Refines
          (add rank key value t).0
          (put (rank key) (some (or_else (contents rank t (rank key)) value)) (contents rank t))
        × ((add rank key value t).1 ≡ is_some (contents rank t (rank key)))
  unfolding add
  add-Refines key value t w =
      rw (find-contents rank key t, add)
        (elim (Option-cases (contents rank t (rank key))) [
          | inl e ↦ rw e (
            record {
              ordered = insert-IsOrdered rank key value t w;
              agrees = λ i. insert-contents rank key value t i e;
            },
            refl,
          )
          | inr (old, e) ↦
              rw e
                (record { ordered = w; agrees = λ i. put-same (rank key) (some old) t i e }, refl)
        ])

  -- On an ordered table, `update` gives the key the new value, changes no other key, keeps the
  -- order, and returns whether the key was there.
  pub update-Refines :
      (key : K) (value : V) (t : Table K V)
      → IsOrdered rank t
      → Refines (update rank key value t).0 (put (rank key) (some value) (contents rank t))
        × ((update rank key value t).1 ≡ is_some (contents rank t (rank key)))
  unfolding update
  update-Refines key value t w =
      rw (find-contents rank key t, update)
        (elim (Option-cases (contents rank t (rank key))) [
          | inl e ↦ rw e (
            record {
              ordered = insert-IsOrdered rank key value t w;
              agrees = λ i. insert-contents rank key value t i e;
            },
            refl,
          )
          | inr (old, e) ↦ rw e (
            record {
              ordered = assign-IsOrdered rank key value t w;
              agrees = λ i. assign-contents rank key value old t i e;
            },
            refl,
          )
        ])

  -- On an ordered table, `update_strict` gives the key the new value if it is there and else
  -- changes nothing, keeps the order, and returns whether the key was there.
  pub update_strict-Refines :
      (key : K) (value : V) (t : Table K V)
      → IsOrdered rank t
      → Refines
          (update_strict rank key value t).0
          (put (rank key) (replaced (contents rank t (rank key)) value) (contents rank t))
        × ((update_strict rank key value t).1 ≡ is_some (contents rank t (rank key)))
  unfolding update_strict
  update_strict-Refines key value t w =
      rw (find-contents rank key t, update_strict)
        (elim (Option-cases (contents rank t (rank key))) [
          | inl e ↦
              rw e (record { ordered = w; agrees = λ i. put-same (rank key) none t i e }, refl)
          | inr (old, e) ↦ rw e (
            record {
              ordered = assign-IsOrdered rank key value t w;
              agrees = λ i. assign-contents rank key value old t i e;
            },
            refl,
          )
        ])

  -- On an ordered table, `remove` takes the key away, changes no other key and keeps the order;
  -- it returns false also if the key was there.
  pub remove-Refines :
      (key : K) (t : Table K V)
      → IsOrdered rank t
      → Refines (remove rank key t).0 (put (rank key) none (contents rank t))
        × ((remove rank key t).1 ≡ false)
  unfolding remove
  remove-Refines key t w =
      rw (find-contents rank key t, remove)
        (elim (Option-cases (contents rank t (rank key))) [
          | inl e ↦
              rw e (record { ordered = w; agrees = λ i. put-same (rank key) none t i e }, refl)
          | inr (old, e) ↦ rw e (
            record {
              ordered = erase-IsOrdered rank key t w;
              agrees = λ i. erase-contents rank key t i w;
            },
            refl,
          )
        ])
