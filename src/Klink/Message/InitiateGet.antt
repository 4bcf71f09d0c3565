-- ===== src/Klink/Message/InitiateGet.antt =====
-- `PeerInitiateGET`, dnsgw_test_ha/klink/plnode/message/control/peer_initiate_get.h.
use pweb.Prelude.{ℕ, ◌+◌, ◌*◌, ◌<◌, refl, Option, ◌++◌, arith, Bytes, length, []}
use pweb.Klink.Codec.{Reader, ◌>>=◌, pure, bind_some, put_string, get_string, get_string-put_string}
use pweb.Klink.Message.{AbsMessage, get_base_size, put_base, fill, deserialize_with, Survives}
use pweb.Klink.Message.RoundTrip.{IsWire, put_lengths, extend-Survives}

pub record PeerInitiateGet : Type 0 where
  pub base : AbsMessage
  pub device_name : Bytes

unfoldable pub get_size : PeerInitiateGet → ℕ
get_size m = get_base_size m.base + 4 + 1 * length m.device_name

-- What `serialize` writes behind the base part.
unfoldable pub put_own : PeerInitiateGet → Bytes
put_own m = put_string m.device_name

unfoldable pub serialize : PeerInitiateGet → Option Bytes
serialize m = fill (get_size m) (put_base m.base ++ put_own m)

unfoldable pub get_own : AbsMessage → Reader PeerInitiateGet
get_own base = do device_name ← get_string; pure (record { base = base; device_name = device_name })

unfoldable pub deserialize : Bytes → Option PeerInitiateGet
deserialize = deserialize_with get_own

pub record IsPeerInitiateGet (m : PeerInitiateGet) : Type 0 where
  pub base_wire : IsWire m.base
  pub device_name_short : length m.device_name < 2147483648

-- A PEER_INITIATE_GET message whose fields are within their C types fills exactly the buffer that it
-- allocates, and is read back unchanged.
pub PeerInitiateGet-Survives :
    (m : PeerInitiateGet) → IsPeerInitiateGet m → Survives get_size serialize deserialize m
unfolding serialize deserialize get_size put_own get_own
PeerInitiateGet-Survives m w =
    extend-Survives get_size get_own serialize m.base (put_own m) m refl
      (simp put_lengths (omega arith)) w.base_wire
      (bind_some _ _ (get_string-put_string _ [] w.device_name_short) refl)
