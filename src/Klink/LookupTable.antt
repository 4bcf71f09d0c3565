-- ===== src/Klink/LookupTable.antt =====
-- `LookupTable`, dnsgw_test_ha/klink/plnode/ds/lookup_table.h: a `std::map` behind a lock. The map
-- is the list of its pairs in the order of the keys, which for `OverlayID` and the numbers is that
-- of a number, the `rank` of a key; keys of the same rank are one key to the map.
pub mod Laws
pub mod Refinement
pub mod Iterate
mod Tests
use pweb.Prelude.{
  ℕ, Bool, true, false, Option, none, some, List, [], ◌∷◌, length, ltb, ◌==◌, if◌then◌else◌,
}

abbrev pub Table : Type 0 → Type 0 → Type 0
Table K V = List (K × V)

module _ {K V : Type 0} (rank : K → ℕ) where
  -- `table.find(key)`, and the value that it points to.
  unfoldable pub find : K → Table K V → Option V
  find key [] = none
  find key ((k, v) ∷ table) = if rank k == rank key then some v else find key table

  -- `table.insert(make_pair(key, value))`
  unfoldable pub insert : K → V → Table K V → Table K V
  insert key value [] = (key, value) ∷ []
  insert key value ((k, v) ∷ table) =
      if ltb (rank key) (rank k)
      then (key, value) ∷ (k, v) ∷ table
      else if rank k == rank key
      then (k, v) ∷ table
      else (k, v) ∷ insert key value table

  -- `table[key] = value` for a key that is there.
  unfoldable pub assign : K → V → Table K V → Table K V
  assign key value [] = []
  assign key value ((k, v) ∷ table) =
      if rank k == rank key then (k, value) ∷ table else (k, v) ∷ assign key value table

  -- `table.erase(key)`
  unfoldable pub erase : K → Table K V → Table K V
  erase key [] = []
  erase key ((k, v) ∷ table) = if rank k == rank key then table else (k, v) ∷ erase key table

  unfoldable pub size : Table K V → ℕ
  size table = length table

  unfoldable pub clear : Table K V → Table K V
  clear table = []

  -- The table after the call, and what the call returns: here whether the key was there before.
  unfoldable pub add : K → V → Table K V → Table K V × Bool
  add key value table = elim (find key table) [
    | none ↦ (insert key value table, false)
    | some v ↦ (table, true)
  ]

  -- `lookup(key, value)` leaves `*value` as it was if the key is not there.
  unfoldable pub lookup : K → V → Table K V → V × Bool
  lookup key value table = elim (find key table) [ none ↦ (value, false) | some v ↦ (v, true) ]

  unfoldable pub update : K → V → Table K V → Table K V × Bool
  update key value table = elim (find key table) [
    | none ↦ (insert key value table, false)
    | some v ↦ (assign key value table, true)
  ]

  unfoldable pub update_strict : K → V → Table K V → Table K V × Bool
  update_strict key value table = elim (find key table) [
    | none ↦ (table, false)
    | some v ↦ (assign key value table, true)
  ]

  -- `removed` is set and not returned.
  unfoldable pub remove : K → Table K V → Table K V × Bool
  remove key table = elim (find key table) [
    | none ↦ (table, false)
    | some v ↦ (erase key table, false)
  ]
