-- ===== src/Klink/Plexus/Answers.antt =====
-- What a peer answers to a GET.
use pweb.Prelude.{
  suc, ◌≡◌, refl, inl, inr, true, false, none, some, List, [], ◌∷◌, ◌++◌, Bytes, if◌then◌else◌,
  Bool-cases, same_bytes, arith,
}
use pweb.Klink.OverlayId.{OverlayId, HostAddress}
use pweb.Klink.Message.{AbsMessage, decrement_overlay_ttl, new_message}
use pweb.Klink.Message.Put.{MessagePut}
use pweb.Klink.Message.Get.{MessageGet}
use pweb.Klink.Message.GetReply.{MessageGetReply}
use pweb.Klink.NextHop.{
  plexus_get, plexus_get_reply, plexus_put, base_of, Router, Decision, set_next_hop, is_stopped,
  is_never_routed, is_reply, is_resolved_here, is_indexed,
}
use pweb.Klink.Plexus.{
  Message, plexus, Plexus, Unset, lookup_name, add_to_outgoing_queue, count_message, new_base,
}
use pweb.Klink.Plexus.Index.{index, set_next_hop-index, add_name-new}
use pweb.Klink.Plexus.Kept.{
  NoInit, process_all, process_all-Keeps, handle_put-index, send_if_forwarded-index,
}
use pweb.Klink.Plexus.Process.{
  with_base, queue_reply, new_get_reply, handle_get, handle_plexus, finish, process_plexus,
}
use pweb.Klink.Plexus.Client.{World, send_if_forwarded, process_message}

indexed-lookup :
    (name : Bytes) (a : HostAddress) (t : List (Bytes × HostAddress))
    → lookup_name name t ≡ some a
    → is_indexed name t ≡ true
unfolding lookup_name is_indexed
indexed-lookup name a [] e = absurd (cc e)
indexed-lookup name a ((n, v) ∷ t) e = elim (Bool-cases (same_bytes n name)) [
  | inl this ↦ rw this refl
  | inr that ↦ rw that (indexed-lookup name a t (rw that at e))
]

-- A GET for a name that the peer has is not sent on.
get-stays :
    (created : OverlayId) (r : Router) (m : MessageGet) (a : HostAddress)
    → lookup_name m.device_name r.index_table ≡ some a
    → set_next_hop created r (plexus_get m)
      ≡ record { router = r; base = m.base; forwarded = false }
unfolding set_next_hop is_stopped is_never_routed is_reply is_resolved_here base_of
get-stays created r m a e =
    let here = indexed-lookup m.device_name a r.index_table e in
    let stop : is_stopped r (plexus_get m) ≡ true = ground (arith, here) in rw stop refl

-- The reply comes from the peer and goes to the sender of the GET, at its address and with its
-- identifier as the target. Where the cache is on the path, that message is routed to a next hop.
abbrev pub IsAddressed : Unset → Plexus → MessageGet → MessageGetReply → Type 0
IsAddressed u s m reply =
    (sent : AbsMessage) × (sent.message_type ≡ 43)
    × (sent.dest_host ≡ (m.base).source_host)
    × (sent.dest_port ≡ (m.base).source_port)
    × (sent.source_host ≡ s.host_name)
    × (sent.source_port ≡ s.listen_port)
    × (sent.src_oid ≡ (s.router).overlay_id)
    × (reply.target_oid ≡ (m.base).src_oid)
    × (reply.base ≡ (
        let routed =
          set_next_hop u.oid s.router (plexus_get_reply (record reply { base = sent })) in
        if s.path then routed.base else sent))

-- The queue has one more message, a GET reply with these fields.
abbrev pub Answers : Unset → Plexus → Plexus → MessageGet → HostAddress → Type 0
Answers u s t m a =
    (reply : MessageGetReply) × (t.outgoing ≡ s.outgoing ++ plexus (plexus_get_reply reply) ∷ [])
    × (reply.resolution_status ≡ 0)
    × (reply.host_address ≡ a)
    × (reply.device_name ≡ m.device_name)
    × (reply.origin_seq_no ≡ (m.base).sequence_no)
    × IsAddressed u s m reply

-- A GET reply is queued as it is, but for its common part, which routing sets.
queue_reply-outgoing :
    (u : Unset) (r : MessageGetReply) (s : Plexus)
    → (b : AbsMessage) × ((queue_reply u (plexus_get_reply r) s).outgoing
        ≡ s.outgoing ++ plexus (plexus_get_reply (record r { base = b })) ∷ [])
      × (b ≡ (
          let routed = set_next_hop u.oid s.router (plexus_get_reply r) in
          if s.path then routed.base else r.base))
unfolding queue_reply add_to_outgoing_queue with_base
queue_reply-outgoing u r s = elim (Bool-cases s.path) [
  | inl path ↦ ((set_next_hop u.oid s.router (plexus_get_reply r)).base, rw path refl, rw path refl)
  | inr endpoint ↦ (r.base, rw endpoint refl, rw endpoint refl)
]

handle_get-Answers :
    (u : Unset) (m : MessageGet) (s : Plexus) (a : HostAddress)
    → lookup_name m.device_name (index s) ≡ some a
    → Answers u s (handle_get u m s) m a
unfolding handle_get count_message new_get_reply new_base new_message
handle_get-Answers u m s a e =
    let s1 : Plexus = record s { get_processed = suc s.get_processed } in
    let (b, queued, routed) =
      queue_reply-outgoing u (new_get_reply u 0 a m s1) (count_message s1) in
    (
      record (new_get_reply u 0 a m s1) { base = b },
      rw (e, handle_get) queued,
      refl,
      refl,
      refl,
      refl,
      ((new_get_reply u 0 a m s1).base, refl, refl, refl, refl, refl, refl, refl, routed),
    )

-- A GET for a name of the index table is answered with its address.
pub get-Answers :
    (w : World) (m : MessageGet) (s : Plexus) (a : HostAddress)
    → lookup_name m.device_name (index s) ≡ some a
    → Answers w.unset s (process_message w (plexus (plexus_get m)) s) m a
unfolding process_message process_plexus finish handle_plexus with_base base_of
    decrement_overlay_ttl send_if_forwarded
get-Answers w m s a e =
    let m1 : MessageGet = record m { base = decrement_overlay_ttl m.base } in
    rw (get-stays (w.unset).oid s.router m1 a e) (handle_get-Answers w.unset m1 s a e)

finish-stored :
    (u : Unset) (p : MessagePut) (d : Decision) (s : Plexus)
    → (d.router).index_table ≡ index s
    → (finish u (plexus_put p) d s).forward ≡ false
    → lookup_name p.device_name (index s) ≡ none
    → lookup_name p.device_name (index (finish u (plexus_put p) d s).state) ≡ some p.host_address
unfolding finish handle_plexus with_base
finish-stored u p d s e stays out = elim (Bool-cases d.forwarded) [
  | inl go ↦ absurd (cc (rw go at stays))
  | inr stay ↦ rw stay (
      rw (handle_put-index u (record p { base = d.base }) (record s { router = d.router }), e)
        (add_name-new p.device_name p.host_address (index s) out))
]

put-stored :
    (u : Unset) (p : MessagePut) (s : Plexus)
    → (process_plexus u (plexus_put p) s).forward ≡ false
    → lookup_name p.device_name (index s) ≡ none
    → lookup_name p.device_name (index (process_plexus u (plexus_put p) s).state)
      ≡ some p.host_address
unfolding process_plexus with_base base_of
put-stored u p s stays out =
    let p1 : MessagePut = record p { base = decrement_overlay_ttl p.base } in
    finish-stored u p1 (set_next_hop u.oid s.router (plexus_put p1)) s
      (set_next_hop-index u.oid s.router (plexus_put p1)) stays out

-- A name that a peer did not have and has stored for a PUT is answered with that address to each
-- later GET, whatever messages the peer processes between them, unless one sets it up anew: a reply
-- with status 0 is queued, with the name and the number of the GET, from the peer to the address
-- that the GET names as its source and with the identifier of its source as the target. Where the
-- cache is on the path, routing sets its next hop.
pub put-Answers :
    (w : World) (p : MessagePut) (ms : List Message) (m : MessageGet) (s : Plexus)
    → (process_plexus w.unset (plexus_put p) s).forward ≡ false
    → lookup_name p.device_name (index s) ≡ none
    → NoInit ms
    → m.device_name ≡ p.device_name
    → let t = process_all w (plexus (plexus_put p) ∷ ms) s in
      Answers w.unset t (process_message w (plexus (plexus_get m)) t) m p.host_address
unfolding process_all process_message
put-Answers w p ms m s stays out none_there same =
    let s1 = process_message w (plexus (plexus_put p)) s in
    let stored : lookup_name p.device_name (index s1) ≡ some p.host_address =
      rw (send_if_forwarded-index (process_plexus w.unset (plexus_put p) s))
        (put-stored w.unset p s stays out) in
    get-Answers w m (process_all w ms s1) p.host_address
      (rw same (process_all-Keeps w ms s1 none_there p.device_name p.host_address stored))
