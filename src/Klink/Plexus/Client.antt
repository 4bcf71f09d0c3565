-- ===== src/Klink/Plexus/Client.antt =====
-- `put` and `get_for_client` of `PlexusProtocol`, and `processMessage` for all types of messages.
use pweb.Prelude.{
  ℕ, suc, ◌%◌, Bool, true, false, ◌||◌, Option, none, some, [], ◌∷◌, Bytes, ◌==◌, if◌then◌else◌,
}
use pweb.Klink.OverlayId.{OverlayId, HostAddress}
use pweb.Klink.LookupTable.{add}
use pweb.Klink.Message.{decrement_overlay_ttl}
use pweb.Klink.Message.Put.{MessagePut}
use pweb.Klink.Message.Get.{MessageGet}
use pweb.Klink.Message.InitiateGet.{PeerInitiateGet}
use pweb.Klink.NextHop.{plexus_get, plexus_put}
use pweb.Klink.Plexus.{
  Message, plexus, retrieve, retrieve_reply, cache_me, peer_init, peer_config, initiate_get,
  initiate_put, peer_start, change_status, start_generate_name, start_lookup_name,
  dyn_change_status, force_log, MessageStateIndex, place, log_flush, Plexus, Settings, Unset,
  add_to_outgoing_queue, add_to_log_queue, get_incoming_queue_front, new_base, count_message,
}
use pweb.Klink.Plexus.Process.{Processed, process_plexus}
use pweb.Klink.Plexus.Control.{handle_retrieve, handle_retrieve_reply, handle_cache_me, handle_init}

abbrev pub has_dot : Bytes → Bool
has_dot [] = false
has_dot (c ∷ cs) = c == 46 || has_dot cs

-- `str.substr(last_dot + 1)`, all of a name without a dot.
unfoldable pub ha_name : Bytes → Bytes
ha_name [] = []
ha_name (c ∷ cs) =
    let rest = ha_name cs in if has_dot cs then rest else if c == 46 then cs else c ∷ cs

-- `str.substr(0, last_dot)`: for a name without a dot the length is -1, and that is all of it.
unfoldable pub d_name : Bytes → Bytes
d_name [] = []
d_name (c ∷ cs) =
    let rest = d_name cs in if has_dot cs then c ∷ rest else if c == 46 then [] else c ∷ cs

-- What the code uses of others: what a new object holds, `urlHash`, `atoi`, the identifier that
-- the code makes of a number, and the time.
pub record World : Type 0 where
  pub unset : Unset
  pub url_hash : Bytes → ℕ
  pub atoi : Bytes → ℕ
  pub oid_of : ℕ → OverlayId
  pub timestamp : ℕ

-- `if (msgProcessor->processMessage(msg)) addToOutgoingQueue(msg);`
unfoldable pub send_if_forwarded : Processed → Plexus
send_if_forwarded p =
    if p.forward then add_to_outgoing_queue (plexus p.message) p.state else p.state

unfoldable pub put : World → Bytes → HostAddress → Plexus → Plexus
put w name address s =
    let hash = w.atoi name in
    let index : MessageStateIndex = record {
      name_hash = hash;
      message_seq_no = s.sequence_no_generator;
    } in
    let m : MessagePut = record {
      base = new_base 41 [] 4294967295 (w.unset).oid s;
      target_oid = w.oid_of hash;
      device_name = name;
      host_address = address;
    } in
    let s1 =
      count_message
        (record s { unresolved_put = (add place index w.timestamp s.unresolved_put).0 }) in
    let s2 = send_if_forwarded (process_plexus w.unset (plexus_put m) s1) in
    record s2 { put_generated = suc s2.put_generated }

unfoldable pub get : World → Bytes → Plexus → Plexus
get w name s =
    let m : MessageGet = record {
      base = new_base 42 [] 4294967295 (w.unset).oid s;
      target_oid = w.oid_of (w.atoi name);
      device_name = name;
    } in
    let s1 = send_if_forwarded (process_plexus w.unset (plexus_get m) (count_message s)) in
    record s1 { get_generated = suc s1.get_generated }

-- Who asks, and for what, by the hash of the home agent's name and the number of the message.
unfoldable pub remember : World → PeerInitiateGet → Plexus → Plexus
remember w m s =
    let b = m.base in
    let index : MessageStateIndex = record {
      name_hash = w.url_hash (ha_name m.device_name) % 4194304;
      message_seq_no = b.sequence_no;
    } in
    let requester : HostAddress = record { host_name = b.source_host; host_port = b.source_port } in
    record s {
      unresolved_get = (add place index (requester, d_name m.device_name) s.unresolved_get).0;
    }

unfoldable pub get_for_client : World → PeerInitiateGet → Plexus → Plexus
get_for_client w m s =
    let name = ha_name m.device_name in
    let request : MessageGet = record {
      base = record (new_base 42 [] 4294967295 (w.unset).oid s) {
        sequence_no = (m.base).sequence_no;
      };
      target_oid = w.oid_of (w.url_hash name % 4194304);
      device_name = name;
    } in
    let s1 = remember w m (count_message s) in
    let s2 = send_if_forwarded (process_plexus w.unset (plexus_get request) s1) in
    record s2 { get_generated = suc s2.get_generated }

unfoldable pub set_settings : (Settings → Settings) → Plexus → Plexus
set_settings f s = record s { settings = f s.settings }

-- The state after the call. Only a message that is routed can be sent on; it is queued by the
-- thread that processes it.
unfoldable pub process_message : World → Message → Plexus → Plexus
process_message w (plexus m) s = send_if_forwarded (process_plexus w.unset m s)
process_message w (retrieve m) s = handle_retrieve w.unset m s
process_message w (retrieve_reply m) s = handle_retrieve_reply w.unset w.url_hash m s
process_message w (cache_me m) s = handle_cache_me (decrement_overlay_ttl m) s
process_message w (peer_init m) s = handle_init m s
process_message w (peer_config m) s =
    set_settings (λ t. record t { alpha = m.parameter_alpha; k = m.parameter_k }) s
process_message w (initiate_get m) s = get_for_client w m s
process_message w (initiate_put m) s = put w m.device_name m.host_address s
process_message w (peer_start m) s = set_settings (λ t. record t { status = 1 }) s
process_message w (change_status m) s = set_settings (λ t. record t { status = m.peer_status }) s
process_message w (start_generate_name m) s =
    set_settings (λ t. record t { start_gen_name_rcvd = true }) s
process_message w (start_lookup_name m) s =
    set_settings (λ t. record t { start_lookup_name_rcvd = true }) s
process_message w (dyn_change_status m) s =
    set_settings (λ t. record t { dyn_status = m.dyn_status }) s
process_message w (force_log m) s = add_to_log_queue log_flush s

-- One round of the processing thread.
unfoldable pub process_next : World → Plexus → Option Plexus
process_next w s = elim (get_incoming_queue_front s) [
  | none ↦ none
  | some (m, s1) ↦ some (process_message w m s1)
]
