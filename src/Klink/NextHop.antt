-- ===== src/Klink/NextHop.antt =====
-- `PlexusProtocol::setNextHop`, dnsgw_test_ha/klink/plnode/protocol/plexus/plexus_protocol.h: the
-- choice of the neighbour that a message is forwarded to.
pub mod Greedy
pub mod Known
pub mod Forward
mod Tests
use pweb.Prelude.{same_bytes}
use pweb.Prelude.{
  ℕ, suc, ◌+◌, Bool, true, false, ◌&&◌, ◌||◌, List, [], ◌∷◌, Bytes, ltb, ◌==◌, if◌then◌else◌,
}
use pweb.Klink.OverlayId.{OverlayId, rank, HostAddress}
use pweb.Klink.OverlayId.Prefix.{get_matched_prefix_length}
use pweb.Klink.LookupTable.{Table, lookup}
use pweb.Klink.LookupTable.Iterate.{Iterator, reset_iterator}
use pweb.Klink.Message.{AbsMessage}
use pweb.Klink.Message.Put.{MessagePut}
use pweb.Klink.Message.PutReply.{MessagePutReply}
use pweb.Klink.Message.Get.{MessageGet}
use pweb.Klink.Message.GetReply.{MessageGetReply}
use pweb.Klink.Message.Init.{RoutingTable, no_address}

-- A message by its type, with the object that the type says it is.
pub data PlexusMessage : Type 0 where
  plexus_get : MessageGet → PlexusMessage
  plexus_get_reply : MessageGetReply → PlexusMessage
  plexus_put : MessagePut → PlexusMessage
  plexus_put_reply : MessagePutReply → PlexusMessage
  other : AbsMessage → PlexusMessage

unfoldable pub base_of : PlexusMessage → AbsMessage
base_of (plexus_get m) = m.base
base_of (plexus_get_reply m) = m.base
base_of (plexus_put m) = m.base
base_of (plexus_put_reply m) = m.base
base_of (other m) = m

-- The types for which the function returns false at once.
unfoldable pub is_never_routed : PlexusMessage → Bool
is_never_routed (other m) =
    let t = m.message_type in
    t == 4
    || t == 1
    || t == 3
    || t == 2
    || t == 31
    || t == 32
    || t == 11
    || t == 5
    || t == 6
    || t == 7
    || t == 51
    || t == 53
    || t == 54
is_never_routed _ = false

-- `target_oid`. For a type that sets none it stays as it was created.
unfoldable pub target_of : OverlayId → PlexusMessage → OverlayId
target_of created (plexus_get m) = m.target_oid
target_of created (plexus_get_reply m) = m.target_oid
target_of created (plexus_put m) = m.target_oid
target_of created (plexus_put_reply m) = m.target_oid
target_of created (other m) = created

unfoldable pub is_reply : PlexusMessage → Bool
is_reply (plexus_get_reply m) = true
is_reply (plexus_put_reply m) = true
is_reply _ = false

-- The peer as the function sees it. `end_point` is whether the cache storage is "end_point". The
-- cache is its list of nodes from the head, each found by its key.
pub record Router : Type 0 where
  pub overlay_id : OverlayId
  pub end_point : Bool
  pub index_table : List (Bytes × HostAddress)
  pub routing_table : RoutingTable
  pub proactive_cache : RoutingTable
  pub cache : RoutingTable
  pub get_cache_hits : ℕ
  pub put_cache_hits : ℕ

unfoldable pub is_indexed : Bytes → List (Bytes × HostAddress) → Bool
is_indexed name [] = false
is_indexed name ((n, address) ∷ table) = same_bytes n name || is_indexed name table

-- Whether a GET asks for a name that the peer has itself.
unfoldable pub is_resolved_here : Router → PlexusMessage → Bool
is_resolved_here r (plexus_get m) = is_indexed m.device_name r.index_table
is_resolved_here r _ = false

-- `maxLengthMatch`, the identifier that has it, and whether the loop has found a longer one.
pub record Match : Type 0 where
  pub length : ℕ
  pub oid : OverlayId
  pub improved : Bool

unfoldable pub consider : OverlayId → OverlayId → Match → Match
consider target oid best =
    let current = get_matched_prefix_length target oid in
    if ltb best.length current
    then record { length = current; oid = oid; improved = true }
    else best

-- The loop over a table.
unfoldable pub search_table : OverlayId → Iterator OverlayId HostAddress → Match → Match
search_table target [] best = best
search_table target ((oid, address) ∷ iterator) best =
    search_table target iterator (consider target oid best)

-- What the search has found so far, and the cache, which a lookup reorders.
pub record Found : Type 0 where
  pub length : ℕ
  pub next_oid : OverlayId
  pub next_hop : HostAddress
  pub cache_hit : Bool
  pub cache : RoutingTable

abbrev pub without : OverlayId → RoutingTable → RoutingTable
without key [] = []
without key ((k, v) ∷ nodes) =
    let rest = without key nodes in if rank k == rank key then nodes else (k, v) ∷ rest

-- `cache->lookup(id, next_hop)`: a hit moves the node to the head.
unfoldable pub cache_lookup : OverlayId → Found → Found
cache_lookup id f =
    let (address, hit) = lookup rank id f.next_hop f.cache in
    if hit
    then record f {
      next_hop = address;
      cache_hit = true;
      cache = (id, address) ∷ without id f.cache;
    }
    else f

unfoldable pub consider_cached : OverlayId → OverlayId → Found → Found
consider_cached target id f =
    let current = get_matched_prefix_length target id in
    if ltb f.length current
    then record (cache_lookup id (record f { length = current })) { next_oid = id }
    else f

-- The loop over the nodes of the cache. The iterator has its next node before the present one is
-- moved, so that it meets the nodes in the order they had at the start.
unfoldable pub search_cache : OverlayId → RoutingTable → Found → Found
search_cache target [] f = f
search_cache target ((id, address) ∷ nodes) f =
    search_cache target nodes (consider_cached target id f)

-- The three searches. `created` is an identifier as its constructor leaves it.
unfoldable pub search : OverlayId → OverlayId → Router → Found
search created target r =
    let m1 =
      search_table target (reset_iterator r.routing_table)
        (record { length = 0; oid = created; improved = false }) in
    let hop1 = (lookup rank m1.oid no_address r.routing_table).0 in
    let m2 =
      search_table target (reset_iterator r.proactive_cache)
        (record { length = m1.length; oid = m1.oid; improved = false }) in
    let hop2 = if m2.improved then (lookup rank m2.oid hop1 r.proactive_cache).0 else hop1 in
    search_cache target r.cache (record {
      length = m2.length;
      next_oid = m2.oid;
      next_hop = hop2;
      cache_hit = m2.improved;
      cache = r.cache;
    })

unfoldable pub count_hit : PlexusMessage → Bool → Router → Router
count_hit (plexus_get m) true r = record r { get_cache_hits = suc r.get_cache_hits }
count_hit (plexus_put m) true r = record r { put_cache_hits = suc r.put_cache_hits }
count_hit m hit r = r

-- The router and the message's common part after the call, and what the call returns.
pub record Decision : Type 0 where
  pub router : Router
  pub base : AbsMessage
  pub forwarded : Bool

unfoldable pub is_stopped : Router → PlexusMessage → Bool
is_stopped r m =
    is_never_routed m
    || r.end_point && is_reply m
    || (base_of m).overlay_ttl == 0
    || is_resolved_here r m

-- The end of the function: forward to what was found, or not.
unfoldable pub decide : ℕ → AbsMessage → Router → Found → Decision
decide own base r f =
    if f.length == 0 || ltb f.length own
    then record { router = r; base = base; forwarded = false }
    else record {
      router = r;
      base = record base {
        dest_host = f.next_hop.host_name;
        dest_port = f.next_hop.host_port;
        dst_oid = f.next_oid;
      };
      forwarded = true;
    }

unfoldable pub set_next_hop : OverlayId → Router → PlexusMessage → Decision
set_next_hop created r m =
    let own = get_matched_prefix_length r.overlay_id (base_of m).dst_oid in
    let f = search created (target_of created m) r in
    if is_stopped r m
    then record { router = r; base = base_of m; forwarded = false }
    else decide own (base_of m) (count_hit m f.cache_hit (record r { cache = f.cache })) f
