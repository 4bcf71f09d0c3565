-- ===== src/Klink/Message/GetReply.antt =====
-- `MessageGET_REPLY`, dnsgw_test_ha/klink/plnode/message/p2p/message_get_reply.h.
use pweb.Prelude.{
  ℕ, ◌+◌, ◌*◌, ◌<◌, ◌≡◌, refl, Option, ◌++◌, append_assoc, arith, Bytes, length, [], ◌∷◌,
}
use pweb.Klink.Codec.{
  Reader, ◌>>=◌, pure, bind_some, put_int, get_int, get_int-put_int, put_double, get_double,
  get_double-put_double, put_string, get_string, get_string-put_string, get_string_overrun,
  get_string_overrun-put_string_nil, get_string_overrun-put_string_cons, bind_none,
}
use pweb.Klink.OverlayId.{OverlayId, IsWireOid, put_oid, get_oid, get_oid-put_oid, HostAddress}
use pweb.Klink.Message.{AbsMessage, get_base_size, put_base, fill, deserialize_with, Survives}
use pweb.Klink.Message.RoundTrip.{IsWire, put_lengths, extend-Survives, Faults, extend-Faults}

pub record MessageGetReply : Type 0 where
  pub base : AbsMessage
  pub resolution_status : ℕ
  pub resolution_hops : ℕ
  pub resolution_ip_hops : ℕ
  pub resolution_latency : ℕ
  pub origin_seq_no : ℕ
  pub target_oid : OverlayId
  pub host_address : HostAddress
  pub device_name : Bytes

unfoldable pub get_size : MessageGetReply → ℕ
get_size m =
    get_base_size m.base
    + (4 * 10 + 1 * length m.host_address.host_name + 1 * length m.device_name + 8)

-- What `serialize` writes behind the base part.
unfoldable pub put_own : MessageGetReply → Bytes
put_own m =
    put_int m.resolution_status
    ++ (put_int m.resolution_hops
        ++ (put_int m.resolution_ip_hops
            ++ (put_double m.resolution_latency
                ++ (put_int m.origin_seq_no
                    ++ (put_oid m.target_oid
                        ++ (put_string m.host_address.host_name
                            ++ (put_int m.host_address.host_port
                                ++ (put_string m.device_name))))))))

unfoldable pub serialize : MessageGetReply → Option Bytes
serialize m = fill (get_size m) (put_base m.base ++ put_own m)

unfoldable pub get_own : AbsMessage → Reader MessageGetReply
get_own base = do
  resolution_status ← get_int
  resolution_hops ← get_int
  resolution_ip_hops ← get_int
  resolution_latency ← get_double
  origin_seq_no ← get_int
  target_oid ← get_oid
  host_name ← get_string_overrun
  host_port ← get_int
  device_name ← get_string
  pure (record {
    base = base;
    resolution_status = resolution_status;
    resolution_hops = resolution_hops;
    resolution_ip_hops = resolution_ip_hops;
    resolution_latency = resolution_latency;
    origin_seq_no = origin_seq_no;
    target_oid = target_oid;
    host_address = record { host_name = host_name; host_port = host_port };
    device_name = device_name;
  })

unfoldable pub deserialize : Bytes → Option MessageGetReply
deserialize = deserialize_with get_own

pub record IsMessageGetReply (m : MessageGetReply) : Type 0 where
  pub base_wire : IsWire m.base
  pub resolution_status_int : m.resolution_status < 4294967296
  pub resolution_hops_int : m.resolution_hops < 4294967296
  pub resolution_ip_hops_int : m.resolution_ip_hops < 4294967296
  pub resolution_latency_double : m.resolution_latency < 18446744073709551616
  pub origin_seq_no_int : m.origin_seq_no < 4294967296
  pub target_oid_wire : IsWireOid m.target_oid
  pub host_address_short : length m.host_address.host_name < 2147483648
  pub host_address_port_int : m.host_address.host_port < 4294967296
  pub device_name_short : length m.device_name < 2147483648

-- A GET_REPLY message that carries no host name, as a failed lookup does, and whose fields are
-- within their C types fills exactly its buffer and is read back unchanged.
pub MessageGetReply-Survives :
    (m : MessageGetReply)
    → IsMessageGetReply m
    → m.host_address.host_name ≡ []
    → Survives get_size serialize deserialize m
unfolding serialize deserialize get_size put_own get_own
MessageGetReply-Survives m w none_host =
    extend-Survives get_size get_own serialize m.base (put_own m) m refl
      (simp put_lengths (omega arith)) w.base_wire
      (simp append_assoc (
        bind_some _ _ (get_int-put_int _ _ w.resolution_status_int) (
          bind_some _ _ (get_int-put_int _ _ w.resolution_hops_int) (
            bind_some _ _ (get_int-put_int _ _ w.resolution_ip_hops_int) (
              bind_some _ _ (get_double-put_double _ _ w.resolution_latency_double) (
                bind_some _ _ (get_int-put_int _ _ w.origin_seq_no_int) (
                  bind_some _ _ (get_oid-put_oid _ _ w.target_oid_wire) (
                    bind_some _ _ (get_string_overrun-put_string_nil _ _ none_host) (
                      bind_some _ _ (get_int-put_int _ _ w.host_address_port_int) (
                        bind_some _ _ (get_string-put_string _ [] w.device_name_short)
                          refl))))))))))

-- A GET_REPLY that carries a host name and whose fields are within their C types fills its buffer,
-- but the object that reads it back overruns a local variable: `deserialize` faults.
pub MessageGetReply-Faults :
    (m : MessageGetReply) (c : ℕ) (s : Bytes)
    → IsMessageGetReply m
    → m.host_address.host_name ≡ c ∷ s
    → Faults serialize deserialize m
unfolding serialize deserialize get_size put_own get_own
MessageGetReply-Faults m c s w host =
    let short : length (c ∷ s) < 2147483648 = rw host at w.host_address_short in
    extend-Faults get_size get_own serialize m.base (put_own m) m refl
      (simp put_lengths (omega arith)) w.base_wire
      (rw host (
        simp append_assoc (
          bind_some _ _ (get_int-put_int _ _ w.resolution_status_int) (
            bind_some _ _ (get_int-put_int _ _ w.resolution_hops_int) (
              bind_some _ _ (get_int-put_int _ _ w.resolution_ip_hops_int) (
                bind_some _ _ (get_double-put_double _ _ w.resolution_latency_double) (
                  bind_some _ _ (get_int-put_int _ _ w.origin_seq_no_int) (
                    bind_some _ _ (get_oid-put_oid _ _ w.target_oid_wire) (
                      bind_none _ _
                        (get_string_overrun-put_string_cons c s _ (omega arith)))))))))))
