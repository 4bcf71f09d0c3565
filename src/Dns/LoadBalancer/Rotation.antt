-- ===== src/Dns/LoadBalancer/Rotation.antt =====
-- The home agent that is picked is the first enabled one in the order rotated by the offset.
use pweb.Prelude.{
  ℕ, zero, suc, ◌+◌, ◌%◌, ◌<◌, ◌≤◌, ◌≡◌, refl, ap, Bool, false, Option, none, some, List, [], ◌∷◌,
  ◌++◌, length, take, drop, length-drop, lt→ltb, ◌==◌, if◌then◌else◌, arith,
}
use native.Mathlib.Nat.{mod-lt}
use pweb.Dns.Header.{r_server_failure}
use pweb.Dns.Query.{DnsQuery}
use pweb.Dns.LoadBalancer.{sanity_check, pick, dispatched, completed, dispatch, process_query}

module _ {S : Type 0} (enabled : S → Bool) where
  abbrev pub first_enabled : List S → Option S
  first_enabled [] = none
  first_enabled (s ∷ rest) = let others = first_enabled rest in if enabled s then some s else others

  pick-take :
      (n : ℕ) (xs begin : List S)
      → n ≤ length xs
      → pick enabled n xs begin ≡ first_enabled (take n xs)
  unfolding pick
  pick-take zero xs begin h = refl
  pick-take (suc n) [] begin h = absurd (omega arith)
  pick-take (suc zero) (s ∷ []) begin h = refl
  pick-take (suc (suc n)) (s ∷ []) begin h = absurd (omega arith)
  pick-take (suc n) (s ∷ s' ∷ rest) begin h = rw (pick-take n (s' ∷ rest) begin (omega arith))

  pick-wrap :
      (n m : ℕ) (s : S) (hs begin : List S)
      → n ≡ length hs + m
      → m ≤ length begin
      → pick enabled (suc n) (s ∷ hs) begin ≡ first_enabled (s ∷ (hs ++ take m begin))
  unfolding pick
  pick-wrap n m s [] begin e h =
      let same : n ≡ m = omega (arith, e) in rw (same, pick-take m begin begin h)
  pick-wrap zero m s (s' ∷ hs) begin e h = absurd (omega (arith, e))
  pick-wrap (suc n) m s (s' ∷ hs) begin e h = rw (pick-wrap n m s' hs begin (omega (arith, e)) h)

  rotation :
      (k : ℕ) (all hs : List S)
      → k < length all
      → drop k all ≡ hs
      → pick enabled (length all) hs all ≡ first_enabled (hs ++ take k all)
  rotation k all [] h e = absurd (omega (arith, h, length-drop k all, ap length e))
  rotation k all (s ∷ hs) h e =
      let (n, long) = positive (length all) (omega (arith, h)) in
      rw long (
        pick-wrap n k s hs all (omega (arith, h, long, length-drop k all, ap length e))
          (omega (arith, h)))
    where
      positive : (n : ℕ) → 0 < n → (m : ℕ) × (n ≡ suc m)
      positive zero p = absurd (omega arith)
      positive (suc m) p = (m, refl)

  -- With at least one home agent and fewer than 2 ^ 63 queries before it, a query that passes the
  -- check goes to the first enabled home agent in the order that starts at the offset and goes
  -- once round; if none is enabled, the query is completed as a server failure. The next offset is
  -- one more.
  pub process_query-first_enabled :
      (offset : ℕ) (speakers : List S) (query : DnsQuery)
      → sanity_check query ≡ none
      → (nonempty : 0 < length speakers) → offset < 9223372036854775808
      → let k = offset % length speakers in
        process_query enabled offset speakers query ≡ (
          offset + 1,
          elim (first_enabled (drop k speakers ++ take k speakers)) [
            | none ↦ completed r_server_failure
            | some s ↦ dispatched s
          ],
        )
  unfolding process_query dispatch
  process_query-first_enabled offset speakers query sane nonempty few =
      let some_speaker : (length speakers == 0) ≡ false = ground (arith, nonempty) in
      let next : (offset + 1) % 18446744073709551616 ≡ offset + 1 = omega (arith, few) in
      let round = rotation (offset % length speakers) speakers _ (mod-lt offset nonempty) refl in
      rw (
        sane,
        some_speaker,
        lt→ltb offset 9223372036854775808 few,
        next,
        process_query,
        dispatch,
        round,
      )
