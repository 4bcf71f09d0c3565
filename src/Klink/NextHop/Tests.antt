-- ===== src/Klink/NextHop/Tests.antt =====
-- Routing of a PUT among neighbours with identifiers of four bits.
use pweb.Prelude.{ℕ, ◌<◌, ◌≡◌, ◌⊎◌, refl, false, [], ◌∷◌}
use pweb.Klink.OverlayId.{OverlayId, HostAddress, get_overlay_id, rank}
use pweb.Klink.OverlayId.Prefix.{get_matched_prefix_length, first_difference, get_bit_at_position}
use pweb.Klink.Message.Init.{RoutingTable}
use pweb.Klink.NextHop.{
  PlexusMessage, plexus_put, Router, is_stopped, set_next_hop, is_never_routed, base_of, target_of,
  is_resolved_here, is_reply, decide, search, search_cache, consider_cached, search_table, consider,
  cache_lookup, count_hit,
}
use pweb.Klink.LookupTable.{lookup, find}
use pweb.Klink.LookupTable.Iterate.{reset_iterator}
use pweb.Klink.NextHop.Greedy.{IsBest, set_next_hop-IsLocal}

abbrev bits : ℕ → OverlayId
bits n = record { overlay_id = n; prefix_length = 4; max_length = 4 }

abbrev host : HostAddress
host = record { host_name = b'h' ∷ []; host_port = 80 }

abbrev peer : RoutingTable → Router
peer table = record {
  overlay_id = bits 0;
  end_point = false;
  index_table = [];
  routing_table = table;
  proactive_cache = [];
  cache = (bits 8, host) ∷ [];
  get_cache_hits = 0;
  put_cache_hits = 0;
}

abbrev near : Router
near = peer ((bits 3, host) ∷ (bits 14, host) ∷ [])

-- A peer in the same half as the message's destination, with no neighbour there.
abbrev alone : Router
alone = record (peer []) { overlay_id = bits 12 }

abbrev put : PlexusMessage
put = plexus_put (record {
  base = record {
    message_type = 41;
    sequence_no = 1;
    dest_host = [];
    dest_port = 0;
    source_host = [];
    source_port = 0;
    overlay_hops = 0;
    overlay_ttl = 10;
    ip_hops = 0;
    latency = 0;
    dst_oid = bits 12;
    src_oid = bits 0;
  };
  target_oid = bits 12;
  device_name = b'p' ∷ [];
  host_address = host;
})

alone_run : (is_stopped alone put ≡ false) × ((set_next_hop (bits 0) alone put).forwarded ≡ false)
unfolding set_next_hop is_stopped is_never_routed base_of target_of is_resolved_here is_reply decide
    search search_cache consider_cached search_table consider cache_lookup count_hit
    get_matched_prefix_length first_difference get_bit_at_position get_overlay_id lookup find rank
    reset_iterator
alone_run = (refl, refl)

set_next_hop-IsLocal_example :
    ((set_next_hop (bits 0) alone put).base ≡ base_of put)
    × ((n : ℕ) × IsBest (target_of (bits 0) put) alone n
        × ((n ≡ 0) ⊎ (n < get_matched_prefix_length alone.overlay_id (base_of put).dst_oid)))
set_next_hop-IsLocal_example = set_next_hop-IsLocal (bits 0) alone put alone_run.0 alone_run.1
