-- ===== src/Klink/Plexus/Kept.antt =====
-- A name that the index table has keeps its address, whatever is processed.
use pweb.Prelude.{
  ℕ, ◌%◌, ◌≡◌, refl, ◌∙◌, inl, inr, Bool, true, false, some, List, [], ◌∷◌, Bytes, ◌==◌, Bool-cases,
  Option-cases, if◌then◌else◌, arith,
}
use pweb.Klink.OverlayId.{OverlayId, HostAddress}
use pweb.Klink.LookupTable.{find}
use pweb.Klink.LookupTable.Iterate.{Iterator}
use pweb.Klink.Message.{AbsMessage, decrement_overlay_ttl}
use pweb.Klink.Message.Put.{MessagePut}
use pweb.Klink.Message.Get.{MessageGet}
use pweb.Klink.Message.Retrieve.{RetrieveMessage}
use pweb.Klink.Message.RetrieveReply.{MessageRetrieveReply}
use pweb.Klink.NextHop.{
  PlexusMessage, plexus_get, plexus_get_reply, plexus_put, plexus_put_reply, other, Decision,
}
use pweb.Klink.Plexus.{
  Message, plexus, retrieve, retrieve_reply, cache_me, peer_init, peer_config, initiate_get,
  initiate_put, peer_start, change_status, start_generate_name, start_lookup_name,
  dyn_change_status, force_log, place, Plexus, Unset, lookup_name, add_name, add_to_outgoing_queue,
  add_to_log_queue, count_message,
}
use pweb.Klink.Plexus.Index.{index, set_next_hop-index, queue_reply-index, add_name-keeps}
use pweb.Klink.Plexus.Process.{
  with_base, cache_add, cache_source, cache_passing, store_name, handle_put, handle_get,
  handle_plexus, finish, process_plexus, Processed,
}
use pweb.Klink.Plexus.Control.{
  handle_retrieve, handle_retrieve_reply, flood, learn, handle_cache_me,
}
use pweb.Klink.Plexus.Client.{
  World, send_if_forwarded, put, remember, get_for_client, set_settings, process_message,
}

-- Each name of the table keeps its address.
abbrev pub Keeps : Plexus → Plexus → Type 0
Keeps s t =
    (name : Bytes) (a : HostAddress)
    → lookup_name name (index s) ≡ some a
    → lookup_name name (index t) ≡ some a

same_index-Keeps : (s t : Plexus) → index t ≡ index s → Keeps s t
same_index-Keeps s t e name a h = rw e h

handle_get-index : (u : Unset) (m : MessageGet) (s : Plexus) → index (handle_get u m s) ≡ index s
unfolding handle_get count_message add_to_outgoing_queue
handle_get-index u m s = elim (Option-cases (lookup_name m.device_name (index s))) [
  | inl out ↦ rw (out, handle_get) refl
  | inr (a, here) ↦ rw (here, handle_get) (queue_reply-index u _ _)
]

pub handle_put-index :
    (u : Unset) (m : MessagePut) (s : Plexus)
    → index (handle_put u m s) ≡ add_name m.device_name m.host_address (index s)
unfolding handle_put count_message store_name
handle_put-index u m s = queue_reply-index u _ _

handle_plexus-Keeps : (u : Unset) (m : PlexusMessage) (s : Plexus) → Keeps s (handle_plexus u m s)
unfolding handle_plexus add_to_log_queue cache_source cache_add
handle_plexus-Keeps u (plexus_put m) s name a h =
    rw (handle_put-index u m s) (add_name-keeps name m.device_name m.host_address a (index s) h)
handle_plexus-Keeps u (plexus_get m) s name a h = rw (handle_get-index u m s) h
handle_plexus-Keeps u (plexus_get_reply m) s name a h = h
handle_plexus-Keeps u (plexus_put_reply m) s name a h = h
handle_plexus-Keeps u (other m) s name a h = h

cache_passing-index : (m : PlexusMessage) (s : Plexus) → index (cache_passing m s) ≡ index s
unfolding cache_passing cache_source cache_add
cache_passing-index m s = ground arith

finish-Keeps :
    (u : Unset) (m : PlexusMessage) (d : Decision) (s : Plexus)
    → (d.router).index_table ≡ index s
    → Keeps s (finish u m d s).state
unfolding finish
finish-Keeps u m d s e name a h = elim (Bool-cases d.forwarded) [
  | inl go ↦
      rw go
        (rw (cache_passing-index (with_base d.base m) (record s { router = d.router })) (rw e h))
  | inr stay ↦
      rw stay (
        handle_plexus-Keeps u (with_base d.base m) (record s { router = d.router }) name a (rw e h))
]

process_plexus-Keeps :
    (u : Unset) (m : PlexusMessage) (s : Plexus) → Keeps s (process_plexus u m s).state
unfolding process_plexus
process_plexus-Keeps u m s = finish-Keeps u _ _ s (set_next_hop-index u.oid s.router _)

pub send_if_forwarded-index : (p : Processed) → index (send_if_forwarded p) ≡ index p.state
unfolding send_if_forwarded add_to_outgoing_queue
send_if_forwarded-index p = ground arith

routed-Keeps :
    (u : Unset) (m : PlexusMessage) (s : Plexus)
    → Keeps s (send_if_forwarded (process_plexus u m s))
routed-Keeps u m s name a h =
    rw (send_if_forwarded-index (process_plexus u m s)) (process_plexus-Keeps u m s name a h)

flood-index :
    (m : AbsMessage) (l : Iterator OverlayId HostAddress) (s : Plexus)
    → index (flood m l s) ≡ index s
unfolding flood add_to_outgoing_queue count_message
flood-index m [] s = refl
flood-index m ((k, v) ∷ l) s = flood-index m l _

if-index :
    (b : Bool) (x y s : Plexus)
    → index x ≡ index s
    → index y ≡ index s
    → index (if b then x else y) ≡ index s
if-index true x y s e f = e
if-index false x y s e f = f

learn-index : (m : AbsMessage) (s : Plexus) → index (learn m s) ≡ index s
unfolding learn
learn-index m s = ground arith

handle_cache_me-index : (m : AbsMessage) (s : Plexus) → index (handle_cache_me m s) ≡ index s
unfolding handle_cache_me
handle_cache_me-index m s =
    if-index s.proactive _ s s
      (if-index (m.overlay_ttl == 0) (learn m s) _ s (learn-index m s)
        (flood-index m _ (learn m s) ∙ learn-index m s))
      refl

retrieve_reply-index :
    (u : Unset) (url_hash : Bytes → ℕ) (m : MessageRetrieveReply) (s : Plexus)
    → index (handle_retrieve_reply u url_hash m s) ≡ index s
unfolding handle_retrieve_reply add_to_outgoing_queue count_message
retrieve_reply-index u url_hash m s =
    elim (Option-cases (
      find place
        (record { name_hash = url_hash m.device_name % 4194304; message_seq_no = m.origin_seq_no })
        s.unresolved_get)) [
          | inl out ↦ rw (out, handle_retrieve_reply) refl
          | inr (r, here) ↦ rw (here, handle_retrieve_reply) refl
        ]

retrieve-index :
    (u : Unset) (m : RetrieveMessage) (s : Plexus) → index (handle_retrieve u m s) ≡ index s
unfolding handle_retrieve add_to_outgoing_queue count_message
retrieve-index u m s = refl

-- Whether a message sets the peer up anew.
abbrev pub is_init : Message → Bool
is_init (peer_init m) = true
is_init _ = false

pub process_message-Keeps :
    (w : World) (m : Message) (s : Plexus) → is_init m ≡ false → Keeps s (process_message w m s)
unfolding process_message put get_for_client remember set_settings add_to_log_queue count_message
process_message-Keeps w (plexus m) s e name a h = routed-Keeps w.unset m s name a h
process_message-Keeps w (retrieve m) s e name a h = rw (retrieve-index w.unset m s) h
process_message-Keeps w (retrieve_reply m) s e name a h =
    rw (retrieve_reply-index w.unset w.url_hash m s) h
process_message-Keeps w (cache_me m) s e name a h =
    rw (handle_cache_me-index (decrement_overlay_ttl m) s) h
process_message-Keeps w (peer_init m) s e name a h = absurd (cc e)
process_message-Keeps w (peer_config m) s e name a h = h
process_message-Keeps w (initiate_get m) s e name a h = routed-Keeps w.unset _ _ name a h
process_message-Keeps w (initiate_put m) s e name a h = routed-Keeps w.unset _ _ name a h
process_message-Keeps w (peer_start m) s e name a h = h
process_message-Keeps w (change_status m) s e name a h = h
process_message-Keeps w (start_generate_name m) s e name a h = h
process_message-Keeps w (start_lookup_name m) s e name a h = h
process_message-Keeps w (dyn_change_status m) s e name a h = h
process_message-Keeps w (force_log m) s e name a h = h

-- A name of the index table keeps its address under every message but one that sets the peer up
-- anew, also under a PUT of the name.
pub stored-stays :
    (w : World) (m : Message) (s : Plexus) (name : Bytes) (a : HostAddress)
    → is_init m ≡ false
    → lookup_name name (s.router).index_table ≡ some a
    → lookup_name name ((process_message w m s).router).index_table ≡ some a
stored-stays w m s name a e h = process_message-Keeps w m s e name a h

unfoldable pub process_all : World → List Message → Plexus → Plexus
process_all w [] s = s
process_all w (m ∷ ms) s = process_all w ms (process_message w m s)

-- No message of these sets the peer up anew.
abbrev pub NoInit : List Message → Type 0
NoInit [] = Unit {0}
NoInit (m ∷ ms) = (is_init m ≡ false) × NoInit ms

pub process_all-Keeps :
    (w : World) (ms : List Message) (s : Plexus) → NoInit ms → Keeps s (process_all w ms s)
unfolding process_all
process_all-Keeps w [] s none_there name a h = h
process_all-Keeps w (m ∷ ms) s (e, rest) name a h =
    process_all-Keeps w ms (process_message w m s) rest name a
      (process_message-Keeps w m s e name a h)
