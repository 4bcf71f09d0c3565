-- ===== src/Klink/Samples.antt =====
-- A name, an identifier and a base message for the tests.
use pweb.Prelude.{refl, Bytes, [], ◌∷◌, arith}
use pweb.Klink.OverlayId.{OverlayId, IsWireOid, sign_extend}
use pweb.Klink.Message.{AbsMessage}
use pweb.Klink.Message.RoundTrip.{IsWire}

-- A name of five letters, and an identifier with its sign bit set.
abbrev pub name : Bytes
name = b'p' ∷ b'h' ∷ b'o' ∷ b'n' ∷ b'e' ∷ []

abbrev pub oid : OverlayId
oid = record { overlay_id = 18446744073709551611; prefix_length = 8; max_length = 24 }

pub oid-IsWireOid : IsWireOid oid
unfolding sign_extend
oid-IsWireOid = record { extended = refl; prefix_int = omega arith; max_int = omega arith }

abbrev pub base : AbsMessage
base = record {
  message_type = 21;
  sequence_no = 4294967295;
  dest_host = name;
  dest_port = 80;
  source_host = [];
  source_port = 65535;
  overlay_hops = 0;
  overlay_ttl = 10;
  ip_hops = 3;
  latency = 4607182418800017408;
  dst_oid = oid;
  src_oid = oid;
}

pub base-IsWire : IsWire base
base-IsWire = record {
  type_char = omega arith;
  sequence_int = omega arith;
  dest_short = omega arith;
  dest_int = omega arith;
  source_short = omega arith;
  source_int = omega arith;
  hops_char = omega arith;
  ttl_char = omega arith;
  ip_int = omega arith;
  latency_double = omega arith;
  dst_wire = oid-IsWireOid;
  src_wire = oid-IsWireOid;
}
