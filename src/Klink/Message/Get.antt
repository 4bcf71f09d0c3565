-- ===== src/Klink/Message/Get.antt =====
-- `MessageGET`, dnsgw_test_ha/klink/plnode/message/p2p/message_get.h.
use pweb.Prelude.{ℕ, ◌+◌, ◌*◌, ◌<◌, ◌≡◌, refl, Option, ◌++◌, append_assoc, arith, Bytes, length, []}
use pweb.Klink.Codec.{Reader, ◌>>=◌, pure, bind_some, put_string, get_string, get_string-put_string}
use pweb.Klink.OverlayId.{OverlayId, IsWireOid, put_oid, get_oid, get_oid-put_oid}
use pweb.Klink.Message.{AbsMessage, get_base_size, put_base, fill, deserialize_with, Survives}
use pweb.Klink.Message.RoundTrip.{IsWire, put_lengths, extend-Survives}

pub record MessageGet : Type 0 where
  pub base : AbsMessage
  pub target_oid : OverlayId
  pub device_name : Bytes

-- What `getSize` adds up. The function has no `return` statement, so what a call of it yields is
-- undefined: `serialize` takes that number as an argument.
unfoldable pub get_size : MessageGet → ℕ
get_size m = get_base_size m.base + 4 * 4 + 1 * length m.device_name

-- What `serialize` writes behind the base part.
unfoldable pub put_own : MessageGet → Bytes
put_own m = put_oid m.target_oid ++ (put_string m.device_name)

unfoldable pub serialize : ℕ → MessageGet → Option Bytes
serialize returned m = fill returned (put_base m.base ++ put_own m)

unfoldable pub get_own : AbsMessage → Reader MessageGet
get_own base = do
  target_oid ← get_oid
  device_name ← get_string
  pure (record { base = base; target_oid = target_oid; device_name = device_name })

unfoldable pub deserialize : Bytes → Option MessageGet
deserialize = deserialize_with get_own

pub record IsMessageGet (m : MessageGet) : Type 0 where
  pub base_wire : IsWire m.base
  pub target_oid_wire : IsWireOid m.target_oid
  pub device_name_short : length m.device_name < 2147483648

-- If the call of `getSize` yields the number that it adds up, a GET message whose fields are
-- within their C types fills exactly the buffer that it allocates and is read back unchanged.
pub MessageGet-Survives :
    (m : MessageGet) (returned : ℕ)
    → IsMessageGet m
    → returned ≡ get_size m
    → Survives get_size (serialize returned) deserialize m
unfolding serialize deserialize get_size put_own get_own
MessageGet-Survives m returned w e =
    extend-Survives get_size get_own (serialize returned) m.base (put_own m) m (rw e)
      (simp put_lengths (omega arith)) w.base_wire
      (simp append_assoc (
        bind_some _ _ (get_oid-put_oid _ _ w.target_oid_wire)
          (bind_some _ _ (get_string-put_string _ [] w.device_name_short) refl)))
