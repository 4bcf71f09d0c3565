-- ===== src/Klink/NextHop/Known.antt =====
-- The neighbour that the search finds is one that the peer knows, at the address that it has for
-- it.
use pweb.Prelude.{
  ◌≡◌, ◌⊎◌, refl, sym, ap, ◌∙◌, inl, inr, true, false, some, [], ◌∷◌, ◌++◌, append_assoc, ltb, ◌==◌,
  Bool-cases, if◌then◌else◌, arith,
}
use mathlib.Core.Path.{subst}
use pweb.Klink.OverlayId.{OverlayId, rank, HostAddress}
use pweb.Klink.OverlayId.Prefix.{get_matched_prefix_length}
use pweb.Klink.LookupTable.{find, lookup}
use pweb.Klink.LookupTable.Iterate.{reset_iterator}
use pweb.Klink.Message.Init.{RoutingTable, no_address}
use pweb.Klink.NextHop.{
  Router, Match, consider, search_table, Found, without, cache_lookup, consider_cached,
  search_cache, search,
}

-- One of the peer's tables has this address for the identifier.
abbrev pub IsKnown : Router → OverlayId → HostAddress → Type 0
IsKnown r oid address =
    (find rank oid r.routing_table ≡ some address)
    ⊎ (find rank oid r.proactive_cache ≡ some address)
    ⊎ (find rank oid r.cache ≡ some address)

abbrev IsKey : RoutingTable → OverlayId → Type 0
IsKey table oid = (address : HostAddress) × (find rank oid table ≡ some address)

abbrev AreKeys : RoutingTable → RoutingTable → Type 0
AreKeys table [] = Unit {0}
AreKeys table ((oid, address) ∷ pairs) = IsKey table oid × AreKeys table pairs

middle-IsKey :
    (front : RoutingTable) (oid : OverlayId) (address : HostAddress) (pairs : RoutingTable)
    → IsKey (front ++ (oid, address) ∷ pairs) oid
unfolding find
middle-IsKey [] oid address pairs =
    let same : (rank oid == rank oid) ≡ true = ground arith in (address, rw same refl)
middle-IsKey ((k, v) ∷ front) oid address pairs = elim (Bool-cases (rank k == rank oid)) [
  | inl this ↦ (v, rw this refl)
  | inr that ↦ let (a, e) = middle-IsKey front oid address pairs in (a, rw that e)
]

suffix-AreKeys : (front pairs : RoutingTable) → AreKeys (front ++ pairs) pairs
suffix-AreKeys front [] = tt
suffix-AreKeys front ((oid, address) ∷ pairs) =
    let next = append_assoc front ((oid, address) ∷ []) pairs in
    (
      middle-IsKey front oid address pairs,
      subst (λ (t : RoutingTable). AreKeys t pairs) next
          (suffix-AreKeys (front ++ (oid, address) ∷ []) pairs),
    )

-- A search leaves what it started from, or finds a key of the table.
abbrev Improves : RoutingTable → Match → Match → Type 0
Improves table best found = (found ≡ best) ⊎ ((found.improved ≡ true) × IsKey table found.oid)

consider-Improves :
    (target oid : OverlayId) (table : RoutingTable) (best : Match)
    → IsKey table oid
    → Improves table best (consider target oid best)
unfolding consider
consider-Improves target oid table best key =
    elim (Bool-cases (ltb best.length (get_matched_prefix_length target oid))) [
      | inl longer ↦ rw longer (inr (refl, key))
      | inr other ↦ rw other (inl refl)
    ]

search_table-Improves :
    (target : OverlayId) (table pairs : RoutingTable) (best : Match)
    → AreKeys table pairs
    → Improves table best (search_table target pairs best)
unfolding search_table
search_table-Improves target table [] best keys = inl refl
search_table-Improves target table ((oid, address) ∷ pairs) best keys =
    elim (search_table-Improves target table pairs (consider target oid best) keys.1) [
      | inr found ↦ inr found
      | inl same ↦ rw same (consider-Improves target oid table best keys.0)
    ]

looked_up :
    (oid : OverlayId) (else_address : HostAddress) (table : RoutingTable)
    → IsKey table oid
    → find rank oid table ≡ some (lookup rank oid else_address table).0
unfolding lookup
looked_up oid else_address table (address, e) = rw (e, lookup) refl

-- Nothing is found yet, or a neighbour that the peer knows.
abbrev pub IsSourced : Router → Found → Type 0
IsSourced r f = (f.length ≡ 0) ⊎ IsKnown r f.next_oid f.next_hop

-- What the search of the first table comes to.
first-IsKnown :
    (r : Router) (start m1 : Match)
    → Improves r.routing_table start m1
    → start.length ≡ 0
    → (m1.length ≡ 0) ⊎ IsKnown r m1.oid (lookup rank m1.oid no_address r.routing_table).0
first-IsKnown r start m1 (inl same) zero = inl (ap (λ (m : Match). m.length) same ∙ zero)
first-IsKnown r start m1 (inr (e, key)) zero =
    inr (inl (looked_up m1.oid no_address r.routing_table key))

-- The cache finds the same as at the start, whatever lookups have moved.
abbrev Agrees : RoutingTable → RoutingTable → Type 0
Agrees cache start = (key : OverlayId) → find rank key cache ≡ find rank key start

find-rank :
    (i k : OverlayId) (table : RoutingTable)
    → rank i ≡ rank k
    → find rank k table ≡ find rank i table
unfolding find
find-rank i k [] e = refl
find-rank i k ((j, v) ∷ table) e = rw (e, find-rank i k table e) refl

find-without :
    (i k : OverlayId) (table : RoutingTable)
    → (rank i == rank k) ≡ false
    → find rank k (without i table) ≡ find rank k table
unfolding find
find-without i k [] e = refl
find-without i k ((j, v) ∷ table) e = elim (Bool-cases (rank j == rank i)) [
  | inl this ↦
      let other : (rank j == rank k) ≡ false = ground (arith, this, e) in rw (this, other) refl
  | inr that ↦ rw that (elim (Bool-cases (rank j == rank k)) [
    | inl found ↦ rw found refl
    | inr further ↦ rw further (find-without i k table e)
  ])
]

find-moved :
    (i k : OverlayId) (address : HostAddress) (cache : RoutingTable)
    → find rank i cache ≡ some address
    → find rank k ((i, address) ∷ without i cache) ≡ find rank k cache
unfolding find
find-moved i k address cache e = elim (Bool-cases (rank i == rank k)) [
  | inl this ↦
      let same : rank i ≡ rank k = ground (arith, this) in
      rw this (sym (find-rank i k cache same ∙ e))
  | inr other ↦ rw other (find-without i k cache other)
]

lookup_hit :
    (oid : OverlayId) (else_address address : HostAddress) (table : RoutingTable)
    → find rank oid table ≡ some address
    → lookup rank oid else_address table ≡ (address, true)
unfolding lookup
lookup_hit oid else_address address table e = rw (e, lookup) refl

cache_lookup_hit :
    (id : OverlayId) (address : HostAddress) (f : Found)
    → find rank id f.cache ≡ some address
    → cache_lookup id f ≡ record f {
      next_hop = address;
      cache_hit = true;
      cache = (id, address) ∷ without id f.cache;
    }
unfolding cache_lookup
cache_lookup_hit id address f e = rw (lookup_hit id f.next_hop address f.cache e, cache_lookup) refl

consider_cached-IsSourced :
    (r : Router) (target id : OverlayId) (f : Found)
    → IsKey r.cache id
    → Agrees f.cache r.cache
    → IsSourced r f
    → Agrees (consider_cached target id f).cache r.cache × IsSourced r (consider_cached target id f)
unfolding consider_cached
consider_cached-IsSourced r target id f (address, e) agrees w =
    let here : find rank id f.cache ≡ some address = agrees id ∙ e in
    elim (Bool-cases (ltb f.length (get_matched_prefix_length target id))) [
      | inl longer ↦
          let longer_f : Found = record f { length = get_matched_prefix_length target id } in
          rw (longer, cache_lookup_hit id address longer_f here)
            (λ k. find-moved id k address f.cache here ∙ agrees k, inr (inr (inr e)))
      | inr other ↦ rw other (agrees, w)
    ]

search_cache-IsSourced :
    (r : Router) (target : OverlayId) (nodes : RoutingTable) (f : Found)
    → AreKeys r.cache nodes
    → Agrees f.cache r.cache
    → IsSourced r f
    → IsSourced r (search_cache target nodes f)
unfolding search_cache
search_cache-IsSourced r target [] f keys agrees w = w
search_cache-IsSourced r target ((id, address) ∷ nodes) f keys agrees w =
    let (agrees', w') = consider_cached-IsSourced r target id f keys.0 agrees w in
    search_cache-IsSourced r target nodes (consider_cached target id f) keys.1 agrees' w'

-- What the search of the second table makes of the first's result.
second-IsSourced :
    (r : Router) (m1 m2 : Match) (hop1 : HostAddress)
    → Improves r.proactive_cache (record { length = m1.length; oid = m1.oid; improved = false }) m2
    → (m1.length ≡ 0) ⊎ IsKnown r m1.oid hop1
    → (m2.length ≡ 0)
      ⊎ IsKnown r m2.oid
          (if m2.improved then (lookup rank m2.oid hop1 r.proactive_cache).0 else hop1)
second-IsSourced r m1 m2 hop1 (inl same) w = rw same w
second-IsSourced r m1 m2 hop1 (inr (e, key)) w =
    rw e (inr (inr (inl (looked_up m2.oid hop1 r.proactive_cache key))))

pub search-IsSourced :
    (created target : OverlayId) (r : Router) → IsSourced r (search created target r)
unfolding search reset_iterator
search-IsSourced created target r =
    let start : Match = record { length = 0; oid = created; improved = false } in
    let m1 = search_table target r.routing_table start in
    let hop1 = (lookup rank m1.oid no_address r.routing_table).0 in
    let one =
      first-IsKnown r start m1
        (search_table-Improves target r.routing_table r.routing_table start
          (suffix-AreKeys [] r.routing_table))
        refl in
    let start2 : Match = record { length = m1.length; oid = m1.oid; improved = false } in
    let m2 = search_table target r.proactive_cache start2 in
    let two =
      second-IsSourced r m1 m2 hop1
        (search_table-Improves target r.proactive_cache r.proactive_cache start2
          (suffix-AreKeys [] r.proactive_cache))
        one in
    search_cache-IsSourced r target r.cache _ (suffix-AreKeys [] r.cache) (λ k. refl) two
