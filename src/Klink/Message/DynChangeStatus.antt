-- ===== src/Klink/Message/DynChangeStatus.antt =====
-- `PeerDynChangeStatusMessage`, dnsgw_test_ha/klink/plnode/message/control/peer_dyn_change_status_message.h. `getSize` counts the base part alone.
use pweb.Prelude.{
  ℕ, ◌+◌, ◌<◌, ◌≡◌, Option, none, some, ◌++◌, arith, Bytes, length, [], append-nil, refl,
}
use pweb.Klink.Codec.{Reader, ◌>>=◌, pure, put_int, get_int, get_int-put_int, bind_some}
use pweb.Klink.Message.{AbsMessage, get_base_size, put_base, fill, deserialize_with}
use pweb.Klink.Message.RoundTrip.{
  IsWire, put_lengths, length-put_base, fill_more, deserialize_with-put_base,
}

pub record PeerDynChangeStatusMessage : Type 0 where
  pub base : AbsMessage
  pub dyn_status : ℕ

unfoldable pub get_size : PeerDynChangeStatusMessage → ℕ
get_size m = get_base_size m.base

-- What `serialize` writes.
unfoldable pub put_all : PeerDynChangeStatusMessage → Bytes
put_all m = put_base m.base ++ put_int m.dyn_status

unfoldable pub serialize : PeerDynChangeStatusMessage → Option Bytes
serialize m = fill (get_size m) (put_all m)

unfoldable pub get_own : AbsMessage → Reader PeerDynChangeStatusMessage
get_own base = do dyn_status ← get_int; pure (record { base = base; dyn_status = dyn_status })

unfoldable pub deserialize : Bytes → Option PeerDynChangeStatusMessage
deserialize = deserialize_with get_own

-- What `serialize` writes for a DYN_CHANGE_STATUS message is four bytes longer than the buffer that it
-- allocates, so it always writes past the end; the bytes themselves would be read back right, for
-- fields within their C types.
pub PeerDynChangeStatusMessage-Overflows :
    (m : PeerDynChangeStatusMessage)
    → IsWire m.base
    → m.dyn_status < 4294967296
    → (length (put_all m) ≡ get_size m + 4)
      × (serialize m ≡ none)
      × (deserialize (put_all m) ≡ some m)
unfolding serialize get_size put_all deserialize get_own
PeerDynChangeStatusMessage-Overflows m w h =
    let long : length (put_all m) ≡ get_size m + 4 = simp (put_lengths, length-put_base) in
    let read : get_int (put_int m.dyn_status) ≡ some (m.dyn_status, []) =
      rw append-nil at (get_int-put_int m.dyn_status [] h) in
    (
      long,
      fill_more (get_size m) 3 (put_all m) (omega arith),
      deserialize_with-put_base get_own m.base (put_int m.dyn_status) [] m w
          (bind_some _ _ read refl),
    )
