-- ===== src/Klink/LookupTable/Iterate.antt =====
-- `LookupTableIterator`, dnsgw_test_ha/klink/plnode/ds/lookup_table_iterator.h: the part of the
-- table that is still to come; `getNextKey` takes its first pair away, `hasMoreKey` asks for one. A table that is rebuilt from its own pairs is the same table.
use pweb.Prelude.{ℕ, ◌<◌, ◌≡◌, refl, ap, true, false, none, some, [], ◌∷◌, ◌++◌, ltb, ◌==◌, arith}
use pweb.Klink.LookupTable.{Table, find, insert, add}
use pweb.Klink.LookupTable.Laws.{Above, IsOrdered}

abbrev pub Iterator : Type 0 → Type 0 → Type 0
Iterator K V = Table K V

module _ {K V : Type 0} where
  unfoldable pub reset_iterator : Table K V → Iterator K V
  reset_iterator table = table

module _ {K V : Type 0} (rank : K → ℕ) where
  Above-middle :
      (n : ℕ) (front : Table K V) (k : K) (v : V) (rest : Table K V)
      → Above rank n (front ++ (k, v) ∷ rest)
      → n < rank k
  Above-middle n [] k v rest w = w.0
  Above-middle n ((j, u) ∷ front) k v rest w =
      omega (arith, w.0, Above-middle (rank j) front k v rest w.1)

  Above-IsOrdered : (n : ℕ) (t : Table K V) → Above rank n t → IsOrdered rank t
  Above-IsOrdered n [] w = tt
  Above-IsOrdered n ((k, v) ∷ t) w = w.1

  -- The value that iteration finds for a key.
  pub find-middle :
      (front : Table K V) (k : K) (v : V) (rest : Table K V)
      → IsOrdered rank (front ++ (k, v) ∷ rest)
      → find rank k (front ++ (k, v) ∷ rest) ≡ some v
  unfolding find
  find-middle [] k v rest w = let same : (rank k == rank k) ≡ true = ground arith in rw same
  find-middle ((j, u) ∷ front) k v rest w =
      let other : (rank j == rank k) ≡ false =
        ground (arith, Above-middle (rank j) front k v rest w) in
      rw other (find-middle front k v rest (Above-IsOrdered (rank j) _ w))

  find-new :
      (front : Table K V) (k : K) (v : V) (rest : Table K V)
      → IsOrdered rank (front ++ (k, v) ∷ rest)
      → find rank k front ≡ none
  unfolding find
  find-new [] k v rest w = refl
  find-new ((j, u) ∷ front) k v rest w =
      let other : (rank j == rank k) ≡ false =
        ground (arith, Above-middle (rank j) front k v rest w) in
      rw other (find-new front k v rest (Above-IsOrdered (rank j) _ w))

  insert-last :
      (front : Table K V) (k : K) (v : V) (rest : Table K V)
      → IsOrdered rank (front ++ (k, v) ∷ rest)
      → insert rank k v front ≡ front ++ (k, v) ∷ []
  unfolding insert
  insert-last [] k v rest w = refl
  insert-last ((j, u) ∷ front) k v rest w =
      let below : rank j < rank k = Above-middle (rank j) front k v rest w in
      let after : ltb (rank k) (rank j) ≡ false = ground (arith, below) in
      let other : (rank j == rank k) ≡ false = ground (arith, below) in
      rw (after, other)
        (ap (◌∷◌ (j, u)) (insert-last front k v rest (Above-IsOrdered (rank j) _ w)))

  -- Adding the next pair of an ordered table behind those before it.
  pub add-last :
      (front : Table K V) (k : K) (v : V) (rest : Table K V)
      → IsOrdered rank (front ++ (k, v) ∷ rest)
      → (add rank k v front).0 ≡ front ++ (k, v) ∷ []
  unfolding add
  add-last front k v rest w = rw (find-new front k v rest w, add) (insert-last front k v rest w)
