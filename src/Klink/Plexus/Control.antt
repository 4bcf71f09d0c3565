-- ===== src/Klink/Plexus/Control.antt =====
-- The rest of `processMessage`, dnsgw_test_ha/klink/plnode/protocol/plexus/
-- plexus_message_processor.h: messages that are not routed.
use pweb.Prelude.{ℕ, ◌%◌, Bool, true, not, ◌&&◌, none, some, [], ◌∷◌, Bytes, ◌==◌, if◌then◌else◌}
use pweb.Klink.OverlayId.{OverlayId, HostAddress, rank}
use pweb.Klink.LookupTable.{find, lookup, add, remove}
use pweb.Klink.LookupTable.Iterate.{Iterator, reset_iterator}
use pweb.Klink.Message.{AbsMessage, new_message}
use pweb.Klink.Message.GetReply.{MessageGetReply}
use pweb.Klink.Message.Retrieve.{RetrieveMessage}
use pweb.Klink.Message.RetrieveReply.{MessageRetrieveReply}
use pweb.Klink.Message.Init.{PeerInitMessage, no_address}
use pweb.Klink.NextHop.{plexus_get_reply}
use pweb.Klink.Plexus.{
  Settings, plexus, cache_me, retrieve_reply, MessageStateIndex, place, Plexus, Unset,
  add_to_outgoing_queue, lookup_name, new_base, count_message,
}

-- `searchNameDb`, where the caller's result is a new address.
unfoldable pub search_name_db : Bytes → Plexus → HostAddress
search_name_db name s = elim (lookup_name name s.name_db) [ none ↦ no_address | some a ↦ a ]

unfoldable pub handle_retrieve : Unset → RetrieveMessage → Plexus → Plexus
handle_retrieve u m s =
    add_to_outgoing_queue
      (retrieve_reply (record {
        base = new_base 54 (m.base).source_host (m.base).source_port (m.base).src_oid s;
        resolution_status = 0;
        resolution_hops = u.hops;
        resolution_ip_hops = u.ip_hops;
        resolution_latency = u.latency;
        origin_seq_no = (m.base).sequence_no;
        host_address = search_name_db m.device_name s;
        device_name = m.device_name;
      }))
      (count_message s)

-- What the client is sent that asked for the name.
unfoldable pub client_reply :
    Unset → HostAddress → MessageStateIndex → MessageRetrieveReply → Plexus → MessageGetReply
client_reply u requester index m s = record {
  base = record (new_base 43 requester.host_name requester.host_port u.oid s) {
    sequence_no = index.message_seq_no;
  };
  resolution_status = 0;
  resolution_hops = u.hops;
  resolution_ip_hops = u.ip_hops;
  resolution_latency = u.latency;
  origin_seq_no = u.seq_no;
  target_oid = u.oid;
  host_address = m.host_address;
  device_name = m.device_name;
}

unfoldable pub handle_retrieve_reply : Unset → (Bytes → ℕ) → MessageRetrieveReply → Plexus → Plexus
handle_retrieve_reply u url_hash m s =
    let index : MessageStateIndex = record {
      name_hash = url_hash m.device_name % 4194304;
      message_seq_no = m.origin_seq_no;
    } in
    elim (find place index s.unresolved_get) [
      | none ↦ s
      | some (requester, name) ↦
          let s1 = record s { unresolved_get = (remove place index s.unresolved_get).0 } in
          add_to_outgoing_queue (plexus (plexus_get_reply (client_reply u requester index m s1)))
            (count_message s1)
    ]

-- `OverlayID::operator==`
unfoldable pub same_oid : OverlayId → OverlayId → Bool
same_oid a b = a.prefix_length == b.prefix_length && a.overlay_id == b.overlay_id

-- A CACHE_ME message in the name of a peer, to a neighbour.
unfoldable pub cache_me_to : AbsMessage → OverlayId → HostAddress → Plexus → AbsMessage
cache_me_to m dst_oid dst s =
    record (new_message s.sequence_no_generator 51 m.source_host m.source_port dst.host_name
      dst.host_port m.src_oid dst_oid).0 { overlay_ttl = m.overlay_ttl }

-- The loop over the routing table, with what is left of its iterator.
unfoldable pub flood : AbsMessage → Iterator OverlayId HostAddress → Plexus → Plexus
flood m [] s = s
flood m ((dst_oid, value) ∷ iterator) s =
    let dst = (lookup rank dst_oid no_address (s.router).routing_table).0 in
    flood m iterator
      (add_to_outgoing_queue (cache_me (cache_me_to m dst_oid dst s)) (count_message s))

unfoldable pub learn : AbsMessage → Plexus → Plexus
learn m s =
    let r = s.router in
    let address : HostAddress = record { host_name = m.source_host; host_port = m.source_port } in
    if not (same_oid m.src_oid r.overlay_id)
      && not (lookup rank m.src_oid no_address r.routing_table).1
    then record s {
      router = record r { proactive_cache = (add rank m.src_oid address r.proactive_cache).0 };
    }
    else s

-- The message's time to live is already one less.
unfoldable pub handle_cache_me : AbsMessage → Plexus → Plexus
handle_cache_me m s =
    let s1 = learn m s in
    let s2 = flood m (reset_iterator (s1.router).routing_table) s1 in
    if s.proactive then (if m.overlay_ttl == 0 then s1 else s2) else s

unfoldable pub configure : PeerInitMessage → Settings → Settings
configure m t = record t {
  n_peers = m.n_peers;
  k = m.k;
  alpha = m.alpha;
  peer_name = m.peer_name;
  publish_name_range_start = m.publish_name_range_start;
  publish_name_range_end = m.publish_name_range_end;
  lookup_name_range_start = m.lookup_name_range_start;
  lookup_name_range_end = m.lookup_name_range_end;
  webserver_port = m.webserver_port;
  run_sequence_no = m.run_sequence_no;
  log_server_name = m.log_server_name;
  log_server_user = m.log_server_user;
  init_rcvd = true;
}

-- The peer with new tables, a new cache of capacity `k`, and its counters at 0.
unfoldable pub initialise : PeerInitMessage → Plexus → Plexus
initialise m s = record s {
  router = record (s.router) {
    overlay_id = (m.base).dst_oid;
    routing_table = m.routing_table;
    index_table = [];
    cache = [];
    get_cache_hits = 0;
    put_cache_hits = 0;
  };
  capacity = m.k;
  incoming_queue_pushed = 0;
  incoming_queue_popped = 0;
  outgoing_queue_pushed = 0;
  outgoing_queue_popped = 0;
  logging_queue_pushed = 0;
  logging_queue_popped = 0;
  settings = configure m s.settings;
}

unfoldable pub introduce : Plexus → AbsMessage
introduce s = record (new_base 51 [] 0 (s.router).overlay_id s) { overlay_ttl = 2 }

unfoldable pub handle_init : PeerInitMessage → Plexus → Plexus
handle_init m s =
    let s1 = initialise m s in
    if s.proactive then flood (introduce s1) (reset_iterator (s1.router).routing_table) s1 else s1
