-- ===== src/Klink/NextHop/Greedy.antt =====
-- The neighbour chosen is the best that the peer knows.
use pweb.Prelude.{
  ℕ, ◌<◌, ◌≤◌, ◌≡◌, ◌⊎◌, refl, inl, inr, true, false, ◌||◌, [], ◌∷◌, ltb, ◌==◌, Bool-cases, arith,
}
use pweb.Klink.OverlayId.{OverlayId, rank}
use pweb.Klink.OverlayId.Prefix.{get_matched_prefix_length}
use pweb.Klink.LookupTable.{lookup}
use pweb.Klink.LookupTable.Iterate.{reset_iterator}
use pweb.Klink.Message.{AbsMessage}
use pweb.Klink.Message.Init.{RoutingTable}
use pweb.Klink.NextHop.{
  PlexusMessage, base_of, target_of, Router, Match, consider, search_table, Found, cache_lookup,
  consider_cached, search_cache, search, count_hit, is_stopped, decide, set_next_hop,
}

-- No key of the table matches the target in more than `n` bits.
abbrev pub Bounded : OverlayId → RoutingTable → ℕ → Type 0
Bounded target [] n = Unit {0}
Bounded target ((oid, address) ∷ table) n =
    (get_matched_prefix_length target oid ≤ n) × Bounded target table n

Bounded-le :
    (target : OverlayId) (table : RoutingTable) (n m : ℕ)
    → n ≤ m
    → Bounded target table n
    → Bounded target table m
Bounded-le target [] n m h b = tt
Bounded-le target ((oid, address) ∷ table) n m h b =
    (omega (arith, b.0), Bounded-le target table n m h b.1)

-- A length that is 0, or that of an identifier's match.
abbrev pub IsMatch : OverlayId → OverlayId → ℕ → Type 0
IsMatch target oid n = (n ≡ 0) ⊎ (get_matched_prefix_length target oid ≡ n)

consider-best :
    (target oid : OverlayId) (best : Match)
    → IsMatch target best.oid best.length
    → (best.length ≤ (consider target oid best).length)
      × (get_matched_prefix_length target oid ≤ (consider target oid best).length)
      × IsMatch target (consider target oid best).oid (consider target oid best).length
unfolding consider
consider-best target oid best w =
    elim (Bool-cases (ltb best.length (get_matched_prefix_length target oid))) [
      | inl longer ↦ rw longer (ground (arith, longer), omega arith, inr refl)
      | inr other ↦ rw other (omega arith, ground (arith, other), w)
    ]

search_table-best :
    (target : OverlayId) (table : RoutingTable) (best : Match)
    → IsMatch target best.oid best.length
    → (best.length ≤ (search_table target table best).length)
      × Bounded target table (search_table target table best).length
      × IsMatch target (search_table target table best).oid (search_table target table best).length
unfolding search_table
search_table-best target [] best w = (omega arith, tt, w)
search_table-best target ((oid, address) ∷ table) best w =
    let one = consider-best target oid best w in
    let more = search_table-best target table (consider target oid best) one.2 in
    (omega (arith, one.0, more.0), (omega (arith, one.1, more.0), more.1), more.2)

length-cache_lookup : (id : OverlayId) (f : Found) → (cache_lookup id f).length ≡ f.length
unfolding cache_lookup
length-cache_lookup id f = elim (Bool-cases (lookup rank id f.next_hop f.cache).1) [
  | inl hit ↦ rw (hit, cache_lookup)
  | inr miss ↦ rw (miss, cache_lookup)
]

consider_cached-best :
    (target id : OverlayId) (f : Found)
    → IsMatch target f.next_oid f.length
    → (f.length ≤ (consider_cached target id f).length)
      × (get_matched_prefix_length target id ≤ (consider_cached target id f).length)
      × IsMatch target (consider_cached target id f).next_oid (consider_cached target id f).length
unfolding consider_cached
consider_cached-best target id f w =
    elim (Bool-cases (ltb f.length (get_matched_prefix_length target id))) [
      | inl longer ↦
          let same =
            length-cache_lookup id (record f { length = get_matched_prefix_length target id }) in
          rw (longer, same) (ground (arith, longer), omega arith, inr refl)
      | inr other ↦ rw other (omega arith, ground (arith, other), w)
    ]

search_cache-best :
    (target : OverlayId) (nodes : RoutingTable) (f : Found)
    → IsMatch target f.next_oid f.length
    → (f.length ≤ (search_cache target nodes f).length)
      × Bounded target nodes (search_cache target nodes f).length
      × IsMatch target (search_cache target nodes f).next_oid (search_cache target nodes f).length
unfolding search_cache
search_cache-best target [] f w = (omega arith, tt, w)
search_cache-best target ((id, address) ∷ nodes) f w =
    let one = consider_cached-best target id f w in
    let more = search_cache-best target nodes (consider_cached target id f) one.2 in
    (omega (arith, one.0, more.0), (omega (arith, one.1, more.0), more.1), more.2)

-- No neighbour that the peer knows matches the target in more than `n` bits.
pub record IsBest (target : OverlayId) (r : Router) (n : ℕ) : Type 0 where
  pub in_routing_table : Bounded target r.routing_table n
  pub in_proactive_cache : Bounded target r.proactive_cache n
  pub in_cache : Bounded target r.cache n

pub search-IsBest :
    (created target : OverlayId) (r : Router)
    → IsBest target r (search created target r).length
      × IsMatch target (search created target r).next_oid (search created target r).length
unfolding search reset_iterator
search-IsBest created target r =
    let one = search_table-best target r.routing_table _ (inl refl) in
    let two = search_table-best target r.proactive_cache _ one.2 in
    let three = search_cache-best target r.cache _ two.2 in
    (
      record {
        in_routing_table =
            Bounded-le target r.routing_table _ _ (omega (arith, two.0, three.0)) one.1;
        in_proactive_cache = Bounded-le target r.proactive_cache _ _ three.0 two.1;
        in_cache = three.1;
      },
      three.2,
    )

decide-keeps :
    (own : ℕ) (base : AbsMessage) (r : Router) (f : Found)
    → (decide own base r f).forwarded ≡ false
    → ((decide own base r f).base ≡ base) × ((f.length ≡ 0) ⊎ (f.length < own))
unfolding decide
decide-keeps own base r f h = elim (Bool-cases (f.length == 0 || ltb f.length own)) [
  | inl stop ↦ rw (stop, decide) (refl, ground (arith, stop))
  | inr go ↦ absurd (cc (rw (go, decide) at h))
]

pub set_next_hop-decide :
    (created : OverlayId) (r : Router) (m : PlexusMessage)
    → is_stopped r m ≡ false
    → set_next_hop created r m ≡ (
        let f = search created (target_of created m) r in
        decide
          (get_matched_prefix_length r.overlay_id (base_of m).dst_oid)
          (base_of m)
          (count_hit m f.cache_hit (record r { cache = f.cache }))
          f)
unfolding set_next_hop
set_next_hop-decide created r m go = rw (go, set_next_hop)

pub set_next_hop-stopped :
    (created : OverlayId) (r : Router) (m : PlexusMessage)
    → is_stopped r m ≡ true
    → (set_next_hop created r m).forwarded ≡ false
unfolding set_next_hop
set_next_hop-stopped created r m stop = rw (stop, set_next_hop)

-- A message that is not stopped for its type, its lifetime or its own answer, and is still not
-- forwarded, keeps its destination, and no identifier that the peer knows matches the target, or
-- none in as many bits as the peer itself matches the message's present destination.
pub set_next_hop-IsLocal :
    (created : OverlayId) (r : Router) (m : PlexusMessage)
    → is_stopped r m ≡ false
    → (set_next_hop created r m).forwarded ≡ false
    → ((set_next_hop created r m).base ≡ base_of m)
      × ((n : ℕ) × IsBest (target_of created m) r n
          × ((n ≡ 0) ⊎ (n < get_matched_prefix_length r.overlay_id (base_of m).dst_oid)))
set_next_hop-IsLocal created r m routed h =
    let same = set_next_hop-decide created r m routed in
    let kept = decide-keeps _ (base_of m) _ _ (rw same at h) in
    (rw same kept.0, (_, (search-IsBest created (target_of created m) r).0, kept.1))
