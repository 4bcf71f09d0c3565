-- ===== src/Dns/HaRequest/Interop.antt =====
-- What the gateway sends is what a peer reads: the request is the serialized form of a
-- `PeerInitiateGET`, dnsgw_test_ha/klink/plnode/message/control/peer_initiate_get.h.
use pweb.Prelude.{
  ℕ, ◌+◌, ◌-◌, ◌<◌, ◌≤◌, ◌≡◌, refl, sym, ◌∙◌, some, Bytes, List, [], ◌∷◌, ◌++◌, length,
  length-append, replicate, arith,
}
use pweb.Dns.Wire.{ok, err, Out, emit, unexpected_end}
use pweb.Dns.Wire.Laws.{write_step, emit_fits, emit_full}
use pweb.Dns.Record.{DnsQuestion}
use pweb.Dns.Query.{DnsQuery}
use pweb.Dns.HaRequest.{
  remove_suffix, write_abs_int, write_abs_string, write_abs_zero, Endpoints, write_abs_header,
  write_abs_get, compose_request,
}
use pweb.Klink.Codec.{put_int, put_char, put_double, put_string, length-put_string}
use pweb.Klink.OverlayId.{OverlayId, put_oid, IsWireOid, sign_extend}
use pweb.Klink.Message.{AbsMessage, put_base, get_base_size, Survives}
use pweb.Klink.Message.RoundTrip.{length-put_base, fill_exact}
use pweb.Klink.Message.InitiateGet.{PeerInitiateGet, IsPeerInitiateGet, PeerInitiateGet-Survives}
use pweb.Klink.Message.InitiateGet

abbrev pub zero_oid : OverlayId
zero_oid = record { overlay_id = 0; prefix_length = 0; max_length = 0 }

-- The message that a peer sees.
abbrev pub as_message : Endpoints → ℕ → Bytes → PeerInitiateGet
as_message e sequence devicename = record {
  base = record {
    message_type = 5;
    sequence_no = sequence;
    dest_host = e.hahostname;
    dest_port = e.haport;
    source_host = e.nshostname;
    source_port = e.nsport;
    overlay_hops = 0;
    overlay_ttl = 0;
    ip_hops = 0;
    latency = 0;
    dst_oid = zero_oid;
    src_oid = zero_oid;
  };
  device_name = devicename;
}

-- What it is made of, in order.
message_bytes : Endpoints → ℕ → Bytes → Bytes
message_bytes e sequence devicename =
    put_base (as_message e sequence devicename).base ++ put_string devicename

header_bytes : Endpoints → ℕ → Bytes
header_bytes e sequence =
    (5 ∷ [])
    ++ (put_int sequence
        ++ (put_string e.hahostname
            ++ (put_int e.haport
                ++ (put_string e.nshostname ++ (put_int e.nsport ++ replicate 38 0)))))

put_base-header_bytes :
    (e : Endpoints) (sequence : ℕ) (devicename : Bytes)
    → put_base (as_message e sequence devicename).base ≡ header_bytes e sequence
unfolding header_bytes put_base put_char put_double put_oid put_int
    pweb.Klink.OverlayId.get_overlay_id
put_base-header_bytes e sequence devicename = refl

write_abs_string-emit : (s : Bytes) (o : Out) → write_abs_string s o ≡ emit (put_string s) o
unfolding write_abs_string write_abs_int put_string
write_abs_string-emit s o =
    write_step (write_abs_int (length s)) (emit s) (put_int (length s)) s o (λ p. refl) (λ p. refl)

write_abs_header-emit :
    (e : Endpoints) (sequence : ℕ) (o : Out)
    → write_abs_header 5 sequence e o ≡ emit (header_bytes e sequence) o
unfolding write_abs_header header_bytes write_abs_int write_abs_zero
write_abs_header-emit e sequence o =
    write_step (emit (5 ∷ [])) _ (5 ∷ []) _ o (λ p. refl)
      λ p.
        write_step (write_abs_int sequence) _ (put_int sequence) _ p (λ r. refl)
          λ q.
            write_step (write_abs_string e.hahostname) _ _ _ q (write_abs_string-emit e.hahostname)
              λ r.
                write_step (write_abs_int e.haport) _ _ _ r (λ s. refl)
                  λ s.
                    write_step (write_abs_string e.nshostname) _ _ _ s
                      (write_abs_string-emit e.nshostname)
                      λ u.
                        write_step (write_abs_int e.nsport) (write_abs_zero 38) _ _ u (λ v. refl)
                          λ v. refl

compose_request-emit :
    (e : Endpoints) (suffixes : List Bytes) (query : DnsQuery) (question : DnsQuestion)
    (rest : List DnsQuestion) (devicename : Bytes)
    → query.questions ≡ question ∷ rest
    → remove_suffix question.name suffixes ≡ ok devicename
    → compose_request e suffixes query
      ≡ emit (message_bytes e query.id devicename) (record { written = []; room = 256 })
unfolding compose_request message_bytes write_abs_get
compose_request-emit e suffixes query question rest devicename first found =
    rw (put_base-header_bytes e query.id devicename) (
      write_step (write_abs_header 5 query.id e) (write_abs_get query suffixes)
        (header_bytes e query.id) (put_string devicename) _ (write_abs_header-emit e query.id)
        (λ p. rw (first, write_abs_get) (rw (found) (write_abs_string-emit devicename p))))

-- What a gateway is configured with, and what it looks up: ports and identifiers of 16 bits.
pub record IsRequest (e : Endpoints) (sequence : ℕ) (devicename : Bytes) : Type 0 where
  pub haport_short : e.haport < 65536
  pub nsport_short : e.nsport < 65536
  pub sequence_short : sequence < 65536
  pub fits : 63 + length e.hahostname + length e.nshostname + length devicename ≤ 256

zero_oid-IsWireOid : IsWireOid zero_oid
unfolding sign_extend
zero_oid-IsWireOid = record { extended = refl; prefix_int = omega arith; max_int = omega arith }

as_message-IsPeerInitiateGet :
    (e : Endpoints) (sequence : ℕ) (devicename : Bytes)
    → IsRequest e sequence devicename
    → IsPeerInitiateGet (as_message e sequence devicename)
as_message-IsPeerInitiateGet e sequence devicename w = record {
  base_wire = record {
    type_char = omega arith;
    sequence_int = omega (arith, w.sequence_short);
    dest_short = omega (arith, w.fits);
    dest_int = omega (arith, w.haport_short);
    source_short = omega (arith, w.fits);
    source_int = omega (arith, w.nsport_short);
    hops_char = omega arith;
    ttl_char = omega arith;
    ip_int = omega arith;
    latency_double = omega arith;
    dst_wire = zero_oid-IsWireOid;
    src_wire = zero_oid-IsWireOid;
  };
  device_name_short = omega (arith, w.fits);
}

length-message_bytes :
    (e : Endpoints) (sequence : ℕ) (devicename : Bytes)
    → length (message_bytes e sequence devicename)
      ≡ 63 + length e.hahostname + length e.nshostname + length devicename
unfolding message_bytes get_base_size
length-message_bytes e sequence devicename =
    let m = (as_message e sequence devicename).base in
    omega (
      arith,
      length-append (put_base m) (put_string devicename),
      length-put_base m,
      length-put_string devicename,
    )

serialize-message_bytes :
    (e : Endpoints) (sequence : ℕ) (devicename : Bytes)
    → pweb.Klink.Message.InitiateGet.serialize (as_message e sequence devicename)
      ≡ some (message_bytes e sequence devicename)
unfolding pweb.Klink.Message.InitiateGet.serialize pweb.Klink.Message.InitiateGet.get_size
    pweb.Klink.Message.InitiateGet.put_own get_base_size message_bytes
serialize-message_bytes e sequence devicename =
    fill_exact _ _ (omega (arith, length-message_bytes e sequence devicename))

-- A query whose first name has a known suffix is sent to a home agent as exactly the bytes that
-- `PeerInitiateGET::serialize` makes of the message with the gateway's addresses and the device's
-- name, if these take at most 193 bytes together, and a peer reads that message from them.
pub compose_request-serialize :
    (e : Endpoints) (suffixes : List Bytes) (query : DnsQuery) (question : DnsQuestion)
    (rest : List DnsQuestion) (devicename : Bytes)
    → query.questions ≡ question ∷ rest
    → remove_suffix question.name suffixes ≡ ok devicename
    → IsRequest e query.id devicename
    → let m = as_message e query.id devicename in
      (o : Out) × (compose_request e suffixes query ≡ ok o)
      × (pweb.Klink.Message.InitiateGet.serialize m ≡ some o.written)
      × (pweb.Klink.Message.InitiateGet.deserialize o.written ≡ some m)
compose_request-serialize e suffixes query question rest devicename first found w =
    let bytes = message_bytes e query.id devicename in
    let (b, made, size, read) =
      PeerInitiateGet-Survives (as_message e query.id devicename)
        (as_message-IsPeerInitiateGet e query.id devicename w) in
    let serialized = serialize-message_bytes e query.id devicename in
    let same : b ≡ bytes = cc (sym made ∙ serialized) in
    (
      record { written = bytes; room = 256 - length bytes },
      compose_request-emit e suffixes query question rest devicename first found
          ∙ emit_fits bytes _ (omega (arith, length-message_bytes e query.id devicename, w.fits)),
      serialized,
      rw same at read,
    )

-- A request whose strings take more than 193 bytes together is never composed.
pub compose_request_long :
    (e : Endpoints) (suffixes : List Bytes) (query : DnsQuery) (question : DnsQuestion)
    (rest : List DnsQuestion) (devicename : Bytes)
    → query.questions ≡ question ∷ rest
    → remove_suffix question.name suffixes ≡ ok devicename
    → 193 < length e.hahostname + length e.nshostname + length devicename
    → compose_request e suffixes query ≡ err unexpected_end
compose_request_long e suffixes query question rest devicename first found long =
    compose_request-emit e suffixes query question rest devicename first found
    ∙ emit_full (message_bytes e query.id devicename) _
        (omega (arith, length-message_bytes e query.id devicename, long))
