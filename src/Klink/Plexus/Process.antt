-- ===== src/Klink/Plexus/Process.antt =====
-- `PlexusMessageProcessor::processMessage`, dnsgw_test_ha/klink/plnode/protocol/plexus/
-- plexus_message_processor.h, for the messages that are routed.
use pweb.Prelude.{ℕ, suc, Bool, true, false, ◌&&◌, none, some, if◌then◌else◌}
use pweb.Klink.OverlayId.{OverlayId, HostAddress}
use pweb.Klink.Message.{AbsMessage, decrement_overlay_ttl}
use pweb.Klink.Message.Put.{MessagePut}
use pweb.Klink.Message.PutReply.{MessagePutReply}
use pweb.Klink.Message.Get.{MessageGet}
use pweb.Klink.Message.GetReply.{MessageGetReply}
use pweb.Klink.Message.Init.{no_address}
use pweb.Klink.NextHop.{
  PlexusMessage, plexus_get, plexus_get_reply, plexus_put, plexus_put_reply, other, base_of,
  is_reply, Decision, set_next_hop,
}
use pweb.Klink.Cache.{copy_key}
use pweb.Klink.Cache.Adds.{with_entry, with_room}
use pweb.Klink.Plexus.{
  plexus, log_get, log_put, Plexus, Unset, add_to_outgoing_queue, add_to_log_queue, lookup_name,
  add_name, new_base, count_message,
}

unfoldable pub with_base : AbsMessage → PlexusMessage → PlexusMessage
with_base b (plexus_get m) = plexus_get (record m { base = b })
with_base b (plexus_get_reply m) = plexus_get_reply (record m { base = b })
with_base b (plexus_put m) = plexus_put (record m { base = b })
with_base b (plexus_put_reply m) = plexus_put_reply (record m { base = b })
with_base b (other m) = other b

-- `cache->add`, on the list of the entries.
unfoldable pub cache_add : OverlayId → HostAddress → Plexus → Plexus
cache_add key value s =
    let r = s.router in
    record s {
      router = record r {
        cache =
            with_entry
              (record {
                routing_table = r.routing_table;
                proactive_cache = r.proactive_cache;
                overlay_id = r.overlay_id;
              })
              key value (with_room s.capacity key r.cache);
      };
    }

-- The sender of a message goes into the cache.
unfoldable pub cache_source : AbsMessage → Plexus → Plexus
cache_source b s =
    cache_add (copy_key b.src_oid) (record { host_name = b.source_host; host_port = b.source_port })
      s

unfoldable pub cache_passing : PlexusMessage → Plexus → Plexus
cache_passing m s = if s.path && is_reply m then cache_source (base_of m) s else s

-- A reply is queued, routed first where the cache is on the path.
unfoldable pub queue_reply : Unset → PlexusMessage → Plexus → Plexus
queue_reply u m s =
    let d = set_next_hop u.oid s.router m in
    if s.path
    then add_to_outgoing_queue (plexus (with_base d.base m)) (record s { router = d.router })
    else add_to_outgoing_queue (plexus m) s

unfoldable pub new_put_reply : Unset → MessagePut → Plexus → MessagePutReply
new_put_reply u m s = record {
  base = new_base 44 (m.base).source_host (m.base).source_port u.oid s;
  resolution_status = 0;
  resolution_hops = (m.base).overlay_hops;
  resolution_ip_hops = (m.base).ip_hops;
  resolution_latency = (m.base).latency;
  origin_seq_no = (m.base).sequence_no;
  target_oid = (m.base).src_oid;
  device_name = m.device_name;
}

-- The name is added to the index table.
unfoldable pub store_name : MessagePut → Plexus → Plexus
store_name m s = record s {
  put_processed = suc s.put_processed;
  router = record (s.router) {
    index_table = add_name m.device_name m.host_address (s.router).index_table;
  };
}

unfoldable pub handle_put : Unset → MessagePut → Plexus → Plexus
handle_put u m s =
    let s1 = store_name m s in
    queue_reply u (plexus_put_reply (new_put_reply u m s1)) (count_message s1)

unfoldable pub new_get_reply : Unset → ℕ → HostAddress → MessageGet → Plexus → MessageGetReply
new_get_reply u status address m s = record {
  base = new_base 43 (m.base).source_host (m.base).source_port u.oid s;
  resolution_status = status;
  resolution_hops = (m.base).overlay_hops;
  resolution_ip_hops = (m.base).ip_hops;
  resolution_latency = (m.base).latency;
  origin_seq_no = (m.base).sequence_no;
  target_oid = (m.base).src_oid;
  host_address = address;
  device_name = m.device_name;
}

unfoldable pub handle_get : Unset → MessageGet → Plexus → Plexus
handle_get u m s =
    let s1 = record s { get_processed = suc s.get_processed } in
    elim (lookup_name m.device_name (s.router).index_table) [
      | some address ↦
          queue_reply u (plexus_get_reply (new_get_reply u 0 address m s1)) (count_message s1)
      | none ↦
          add_to_outgoing_queue
            (plexus (plexus_get_reply (new_get_reply u 4294967188 no_address m s1)))
            (count_message s1)
    ]

-- A message that is not forwarded. A type that is not known does nothing.
unfoldable pub handle_plexus : Unset → PlexusMessage → Plexus → Plexus
handle_plexus u (plexus_put m) s = handle_put u m s
handle_plexus u (plexus_get m) s = handle_get u m s
handle_plexus u (plexus_get_reply m) s = add_to_log_queue (log_get m) (cache_source m.base s)
handle_plexus u (plexus_put_reply m) s = add_to_log_queue (log_put m) s
handle_plexus u (other m) s = s

-- The state and the message after the call, and whether the message is to be sent on.
pub record Processed : Type 0 where
  pub state : Plexus
  pub message : PlexusMessage
  pub forward : Bool

-- What follows `setNextHop`.
unfoldable pub finish : Unset → PlexusMessage → Decision → Plexus → Processed
finish u m d s =
    let s1 = record s { router = d.router } in
    let m1 = with_base d.base m in
    if d.forwarded
    then record { state = cache_passing m1 s1; message = m1; forward = true }
    else record { state = handle_plexus u m1 s1; message = m1; forward = false }

unfoldable pub process_plexus : Unset → PlexusMessage → Plexus → Processed
process_plexus u m s =
    let m1 = with_base (decrement_overlay_ttl (base_of m)) m in
    finish u m1 (set_next_hop u.oid s.router m1) s
