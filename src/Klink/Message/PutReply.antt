-- ===== src/Klink/Message/PutReply.antt =====
-- `MessagePUT_REPLY`, dnsgw_test_ha/klink/plnode/message/p2p/message_put_reply.h.
use pweb.Prelude.{ℕ, ◌+◌, ◌*◌, ◌<◌, refl, Option, ◌++◌, append_assoc, arith, Bytes, length, []}
use pweb.Klink.Codec.{
  Reader, ◌>>=◌, pure, bind_some, put_int, get_int, get_int-put_int, put_double, get_double,
  get_double-put_double, put_string, get_string, get_string-put_string,
}
use pweb.Klink.OverlayId.{OverlayId, IsWireOid, put_oid, get_oid, get_oid-put_oid}
use pweb.Klink.Message.{AbsMessage, get_base_size, put_base, fill, deserialize_with, Survives}
use pweb.Klink.Message.RoundTrip.{IsWire, put_lengths, extend-Survives}

pub record MessagePutReply : Type 0 where
  pub base : AbsMessage
  pub resolution_status : ℕ
  pub resolution_hops : ℕ
  pub resolution_ip_hops : ℕ
  pub resolution_latency : ℕ
  pub origin_seq_no : ℕ
  pub target_oid : OverlayId
  pub device_name : Bytes

unfoldable pub get_size : MessagePutReply → ℕ
get_size m = get_base_size m.base + (4 * 8 + 1 * length m.device_name + 8)

-- What `serialize` writes behind the base part.
unfoldable pub put_own : MessagePutReply → Bytes
put_own m =
    put_int m.resolution_status
    ++ (put_int m.resolution_hops
        ++ (put_int m.resolution_ip_hops
            ++ (put_double m.resolution_latency
                ++ (put_int m.origin_seq_no
                    ++ (put_oid m.target_oid ++ (put_string m.device_name))))))

unfoldable pub serialize : MessagePutReply → Option Bytes
serialize m = fill (get_size m) (put_base m.base ++ put_own m)

unfoldable pub get_own : AbsMessage → Reader MessagePutReply
get_own base = do
  resolution_status ← get_int
  resolution_hops ← get_int
  resolution_ip_hops ← get_int
  resolution_latency ← get_double
  origin_seq_no ← get_int
  target_oid ← get_oid
  device_name ← get_string
  pure (record {
    base = base;
    resolution_status = resolution_status;
    resolution_hops = resolution_hops;
    resolution_ip_hops = resolution_ip_hops;
    resolution_latency = resolution_latency;
    origin_seq_no = origin_seq_no;
    target_oid = target_oid;
    device_name = device_name;
  })

unfoldable pub deserialize : Bytes → Option MessagePutReply
deserialize = deserialize_with get_own

pub record IsMessagePutReply (m : MessagePutReply) : Type 0 where
  pub base_wire : IsWire m.base
  pub resolution_status_int : m.resolution_status < 4294967296
  pub resolution_hops_int : m.resolution_hops < 4294967296
  pub resolution_ip_hops_int : m.resolution_ip_hops < 4294967296
  pub resolution_latency_double : m.resolution_latency < 18446744073709551616
  pub origin_seq_no_int : m.origin_seq_no < 4294967296
  pub target_oid_wire : IsWireOid m.target_oid
  pub device_name_short : length m.device_name < 2147483648

-- A PUT_REPLY message whose fields are within their C types fills exactly the buffer that it
-- allocates, and is read back unchanged.
pub MessagePutReply-Survives :
    (m : MessagePutReply) → IsMessagePutReply m → Survives get_size serialize deserialize m
unfolding serialize deserialize get_size put_own get_own
MessagePutReply-Survives m w =
    extend-Survives get_size get_own serialize m.base (put_own m) m refl
      (simp put_lengths (omega arith)) w.base_wire
      (simp append_assoc (
        bind_some _ _ (get_int-put_int _ _ w.resolution_status_int) (
          bind_some _ _ (get_int-put_int _ _ w.resolution_hops_int) (
            bind_some _ _ (get_int-put_int _ _ w.resolution_ip_hops_int) (
              bind_some _ _ (get_double-put_double _ _ w.resolution_latency_double) (
                bind_some _ _ (get_int-put_int _ _ w.origin_seq_no_int) (
                  bind_some _ _ (get_oid-put_oid _ _ w.target_oid_wire)
                    (bind_some _ _ (get_string-put_string _ [] w.device_name_short) refl))))))))
