-- ===== src/Dns/QueryMap/Timeout.antt =====
-- A query leaves the map once, and the handler of an answered query can take another one with it.
use pweb.Prelude.{
  ℕ, ◌≡◌, refl, sym, ◌∙◌, inl, inr, true, none, some, Option-cases, [], ◌∷◌, ◌++◌, ◌==◌, Bool-cases,
  arith,
}
use pweb.Klink.LookupTable.{Table, find, erase}
use pweb.Klink.LookupTable
use pweb.Klink.LookupTable.Laws.{
  contents, IsOrdered, find-contents, insert-contents, erase-contents, erase-IsOrdered,
  insert-IsOrdered,
}
use pweb.Dns.Header.{r_name_error}
use pweb.Dns.QueryMap.{
  itself, contains, delete, QueryMap, stop_timer, insert, remove, expire, run_handler,
}

module _ {Q : Type 0} where
  find-insert :
      (k : ℕ) (q : Q) (m : Table ℕ Q)
      → find itself k m ≡ none
      → find itself k (pweb.Klink.LookupTable.insert itself k q m) ≡ some q
  find-insert k q m e =
      let absent : contents itself m k ≡ none = sym (find-contents itself k m) ∙ e in
      let same : (k == k) ≡ true = ground arith in
      find-contents itself k (pweb.Klink.LookupTable.insert itself k q m)
      ∙ insert-contents itself k q m k absent
      ∙ rw same

  find-erase :
      (k : ℕ) (m : Table ℕ Q) → IsOrdered itself m → find itself k (erase itself k m) ≡ none
  find-erase k m w =
      let same : (k == k) ≡ true = ground arith in
      find-contents itself k (erase itself k m) ∙ erase-contents itself k m k w ∙ rw same

  map-stop_timer : (k : ℕ) (s : QueryMap Q) → (stop_timer k s).map ≡ s.map
  unfolding stop_timer
  map-stop_timer k s = elim (Bool-cases (contains s.armed k)) [
    | inl on ↦ rw (on, stop_timer)
    | inr off ↦ rw (off, stop_timer)
  ]

  -- Of two removals of an identifier from an ordered map, the second finds nothing.
  pub remove-remove :
      (k : ℕ) (s : QueryMap Q) → IsOrdered itself s.map → (remove k (remove k s).0).1 ≡ none
  unfolding remove
  remove-remove k s w = elim (Option-cases (find itself k s.map)) [
    | inl e ↦ rw (e, remove) (rw (e, remove))
    | inr (q, e) ↦
        let after = map-stop_timer k (record s { map = erase itself k s.map }) in
        rw (e, remove) (rw (after, find-erase k s.map w, remove))
  ]

  insert-new :
      (id : Q → ℕ) (q : Q) (k : ℕ) (s : QueryMap Q)
      → id q ≡ k
      → find itself k s.map ≡ none
      → insert id q s ≡ (
        record s { map = pweb.Klink.LookupTable.insert itself k q s.map; armed = k ∷ s.armed },
        true,
      )
  unfolding insert
  insert-new id q k s p e = rw (p, e, insert) (rw p)

  remove-armed :
      (k : ℕ) (q : Q) (s : QueryMap Q)
      → find itself k s.map ≡ some q
      → contains s.armed k ≡ true
      → remove k s ≡ (
        record s { map = erase itself k s.map; armed = delete s.armed k; due = s.due ++ k ∷ [] },
        some q,
      )
  unfolding remove stop_timer
  remove-armed k q s e on = rw (e, remove) (rw (on, stop_timer))

  run_handler-armed :
      (k : ℕ) (q : Q) (s : QueryMap Q)
      → s.due ≡ k ∷ []
      → find itself k s.map ≡ some q
      → contains s.armed k ≡ true
      → run_handler s ≡ record s {
        map = erase itself k s.map;
        armed = delete s.armed k;
        due = k ∷ [];
        timed_out = s.timed_out ++ (q, r_name_error) ∷ [];
      }
  unfolding run_handler expire
  run_handler-armed k q s d e on =
      let found = remove-armed k q (record s { due = [] }) e on in
      rw (d, run_handler) (rw (found, expire) (rw found))

  -- When no handler is due, a query is inserted and removed again, as by its answer, and another
  -- query with the same identifier is inserted, then the handler that the first query's timer
  -- leaves behind takes the second one out of the map and completes it as a name error, although
  -- its own timer has not ended.
  pub reused_id_times_out :
      (id : Q → ℕ) (q q' : Q) (s : QueryMap Q)
      → IsOrdered itself s.map
      → find itself (id q) s.map ≡ none
      → s.due ≡ []
      → id q' ≡ id q
      → let answered = (remove (id q) (insert id q s).0).0 in
        let after = run_handler (insert id q' answered).0 in
        ((insert id q' answered).1 ≡ true)
        × (after.timed_out ≡ s.timed_out ++ (q', r_name_error) ∷ [])
        × (find itself (id q) after.map ≡ none)
  reused_id_times_out id q q' s w absent idle same =
      let k = id q in
      let m1 = pweb.Klink.LookupTable.insert itself k q s.map in
      let w1 : IsOrdered itself m1 = insert-IsOrdered itself k q s.map w in
      let m2 = erase itself k m1 in
      let w2 : IsOrdered itself m2 = erase-IsOrdered itself k m1 w1 in
      let gone : find itself k m2 ≡ none = find-erase k m1 w1 in
      let on : (k == k) ≡ true = ground arith in
      let armed : contains (k ∷ s.armed) k ≡ true = rw on in
      let s1 : QueryMap Q = record s { map = m1; armed = k ∷ s.armed } in
      let s2 : QueryMap Q = record s {
        map = m2;
        armed = delete (k ∷ s.armed) k;
        due = s.due ++ k ∷ [];
      } in
      let m3 = pweb.Klink.LookupTable.insert itself k q' m2 in
      let s3 : QueryMap Q = record s2 { map = m3; armed = k ∷ s2.armed } in
      let armed3 : contains (k ∷ s2.armed) k ≡ true = rw on in
      let first = insert-new id q k s refl absent in
      let answer = remove-armed k q s1 (find-insert k q s.map absent) armed in
      let second = insert-new id q' k s2 same gone in
      let handler = run_handler-armed k q' s3 (rw idle) (find-insert k q' m2 gone) armed3 in
      rw (first, answer, second, handler)
        (refl, refl, find-erase k m3 (insert-IsOrdered itself k q' m2 w2))
