-- ===== src/Klink/Plexus/Tests.antt =====
-- A peer with one neighbour.
use pweb.Prelude.{ℕ, ◌-◌, ◌≡◌, refl, true, false, none, some, List, [], ◌∷◌, ◌++◌, arith, length}
use pweb.Klink.OverlayId.{OverlayId, HostAddress}
use pweb.Klink.Message.{AbsMessage, decrement_overlay_ttl}
use pweb.Klink.Message.Put.{MessagePut}
use pweb.Klink.Message.Get.{MessageGet}
use pweb.Klink.Message.RetrieveReply.{MessageRetrieveReply}
use pweb.Klink.Message.InitiateGet.{PeerInitiateGet}
use pweb.Klink.NextHop.{
  Router, plexus_get, plexus_put, set_next_hop, is_stopped, is_never_routed, is_resolved_here,
  is_reply, base_of,
}
use pweb.Klink.Plexus.{Message, plexus, cache_me, peer_start, Plexus, Settings, lookup_name}
use pweb.Klink.Plexus.Process.{process_plexus, finish, with_base}
use pweb.Klink.Plexus.Client.{World, process_message}
use pweb.Klink.Plexus.Kept.{process_all, stored-stays}
use pweb.Klink.Plexus.Answers.{Answers, put-Answers}
use pweb.Klink.Plexus.Flood.{Copies, cache_me-Copies}

abbrev oid : ℕ → OverlayId
oid n = record { overlay_id = n; prefix_length = 8; max_length = 8 }

abbrev host : ℕ → HostAddress
host n = record { host_name = 104 ∷ n ∷ []; host_port = 4000 }

abbrev base : ℕ → AbsMessage
base message_type = record {
  message_type = message_type;
  sequence_no = 7;
  dest_host = [];
  dest_port = 0;
  source_host = 99 ∷ [];
  source_port = 5000;
  overlay_hops = 0;
  overlay_ttl = 10;
  ip_hops = 0;
  latency = 0;
  dst_oid = oid 1;
  src_oid = oid 64;
}

abbrev router : Router
router = record {
  overlay_id = oid 1;
  end_point = true;
  index_table = [];
  routing_table = (oid 128, host 50) ∷ [];
  proactive_cache = [];
  cache = [];
  get_cache_hits = 0;
  put_cache_hits = 0;
}

abbrev settings : Settings
settings = record {
  n_peers = 2;
  k = 4;
  alpha = 0;
  peer_name = [];
  publish_name_range_start = 0;
  publish_name_range_end = 0;
  lookup_name_range_start = 0;
  lookup_name_range_end = 0;
  webserver_port = 0;
  run_sequence_no = 0;
  log_server_name = [];
  log_server_user = [];
  status = 1;
  dyn_status = 0;
  init_rcvd = true;
  start_gen_name_rcvd = false;
  start_lookup_name_rcvd = false;
}

abbrev peer : Plexus
peer = record {
  router = router;
  host_name = 112 ∷ [];
  listen_port = 6000;
  path = false;
  proactive = true;
  capacity = 4;
  sequence_no_generator = 20;
  unresolved_get = [];
  unresolved_put = [];
  name_db = [];
  incoming = [];
  incoming_queue_pushed = 0;
  incoming_queue_popped = 0;
  outgoing = [];
  outgoing_queue_pushed = 0;
  outgoing_queue_popped = 0;
  logging = [];
  logging_queue_pushed = 0;
  logging_queue_popped = 0;
  put_processed = 0;
  get_processed = 0;
  get_generated = 0;
  put_generated = 0;
  settings = settings;
}

abbrev world : World
world = record {
  unset = record { oid = oid 0; hops = 0; ip_hops = 0; latency = 0; seq_no = 0 };
  url_hash = λ name. length name;
  atoi = λ name. 5;
  oid_of = oid;
  timestamp = 0;
}

abbrev put_a : MessagePut
put_a = record {
  base = record (base 41) { overlay_ttl = 1 };
  target_oid = oid 1;
  device_name = 97 ∷ [];
  host_address = host 97;
}

abbrev get_a : MessageGet
get_a = record { base = base 42; target_oid = oid 1; device_name = 97 ∷ [] }

-- The PUT is at the end of its time to live.
put_stays : (process_plexus world.unset (plexus_put put_a) peer).forward ≡ false
unfolding process_plexus finish set_next_hop is_stopped is_never_routed is_resolved_here is_reply
    base_of with_base decrement_overlay_ttl
put_stays = refl

not_stored : lookup_name (97 ∷ []) (peer.router).index_table ≡ none
unfolding lookup_name
not_stored = refl

put-Answers_example :
    let t = process_all world (plexus (plexus_put put_a) ∷ peer_start (base 2) ∷ []) peer in
    Answers world.unset t (process_message world (plexus (plexus_get get_a)) t) get_a (host 97)
put-Answers_example =
    put-Answers world put_a (peer_start (base 2) ∷ []) get_a peer put_stays not_stored (refl, tt)
      refl

abbrev with_a : Plexus
with_a = record peer { router = record router { index_table = (97 ∷ [], host 98) ∷ [] } }

stored-stays_example :
    lookup_name
      (97 ∷ [])
      (process_message world (plexus (plexus_put put_a)) with_a).router.index_table
    ≡ some (host 98)
unfolding lookup_name
stored-stays_example =
    stored-stays world (plexus (plexus_put put_a)) with_a (97 ∷ []) (host 98) refl refl

cache_me-Copies_example :
    (new : List Message) × ((process_message world (cache_me (base 51)) peer).outgoing
      ≡ peer.outgoing ++ new)
    × Copies (record (base 51) { overlay_ttl = 10 - 1 }) router.routing_table new
cache_me-Copies_example = cache_me-Copies world (base 51) peer refl tt (omega arith) (omega arith)

abbrev asked : PeerInitiateGet
asked = record { base = base 5; device_name = 120 ∷ 46 ∷ 121 ∷ [] }

abbrev answer : MessageRetrieveReply
answer = record {
  base = base 54;
  resolution_status = 0;
  resolution_hops = 0;
  resolution_ip_hops = 0;
  resolution_latency = 0;
  origin_seq_no = 7;
  host_address = host 55;
  device_name = 122 ∷ [];
}
