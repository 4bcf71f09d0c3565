-- ===== src/Klink/Message/InitiatePut.antt =====
-- `PeerInitiatePUT`, dnsgw_test_ha/klink/plnode/message/control/peer_initiate_put.h.
use pweb.Prelude.{ℕ, ◌+◌, ◌*◌, ◌<◌, refl, Option, ◌++◌, append_assoc, arith, Bytes, length, []}
use pweb.Klink.Codec.{
  Reader, ◌>>=◌, pure, bind_some, put_int, get_int, get_int-put_int, put_string, get_string,
  get_string-put_string,
}
use pweb.Klink.OverlayId.{HostAddress}
use pweb.Klink.Message.{AbsMessage, get_base_size, put_base, fill, deserialize_with, Survives}
use pweb.Klink.Message.RoundTrip.{IsWire, put_lengths, extend-Survives}

pub record PeerInitiatePut : Type 0 where
  pub base : AbsMessage
  pub device_name : Bytes
  pub host_address : HostAddress

unfoldable pub get_size : PeerInitiatePut → ℕ
get_size m =
    get_base_size m.base
    + (4 + 1 * length m.device_name)
    + (4 + 1 * length m.host_address.host_name)
    + 4

-- What `serialize` writes behind the base part.
unfoldable pub put_own : PeerInitiatePut → Bytes
put_own m =
    put_string m.device_name
    ++ (put_string m.host_address.host_name ++ (put_int m.host_address.host_port))

unfoldable pub serialize : PeerInitiatePut → Option Bytes
serialize m = fill (get_size m) (put_base m.base ++ put_own m)

unfoldable pub get_own : AbsMessage → Reader PeerInitiatePut
get_own base = do
  device_name ← get_string
  host_name ← get_string
  host_port ← get_int
  pure (record {
    base = base;
    device_name = device_name;
    host_address = record { host_name = host_name; host_port = host_port };
  })

unfoldable pub deserialize : Bytes → Option PeerInitiatePut
deserialize = deserialize_with get_own

pub record IsPeerInitiatePut (m : PeerInitiatePut) : Type 0 where
  pub base_wire : IsWire m.base
  pub device_name_short : length m.device_name < 2147483648
  pub host_address_short : length m.host_address.host_name < 2147483648
  pub host_address_port_int : m.host_address.host_port < 4294967296

-- A PEER_INITIATE_PUT message whose fields are within their C types fills exactly the buffer that it
-- allocates, and is read back unchanged.
pub PeerInitiatePut-Survives :
    (m : PeerInitiatePut) → IsPeerInitiatePut m → Survives get_size serialize deserialize m
unfolding serialize deserialize get_size put_own get_own
PeerInitiatePut-Survives m w =
    extend-Survives get_size get_own serialize m.base (put_own m) m refl
      (simp put_lengths (omega arith)) w.base_wire
      (simp append_assoc (
        bind_some _ _ (get_string-put_string _ _ w.device_name_short) (
          bind_some _ _ (get_string-put_string _ _ w.host_address_short)
            (bind_some _ _ (get_int-put_int _ [] w.host_address_port_int) refl))))
