-- ===== src/Klink/Message/Config.antt =====
-- `PeerConfigMessage`, dnsgw_test_ha/klink/plnode/message/control/peer_config_msg.h.
use pweb.Prelude.{ℕ, ◌+◌, ◌<◌, refl, Option, ◌++◌, append_assoc, arith, Bytes, []}
use pweb.Klink.Codec.{
  Reader, ◌>>=◌, pure, bind_some, put_int, get_int, get_int-put_int, put_double, get_double,
  get_double-put_double,
}
use pweb.Klink.Message.{AbsMessage, get_base_size, put_base, fill, deserialize_with, Survives}
use pweb.Klink.Message.RoundTrip.{IsWire, put_lengths, extend-Survives}

pub record PeerConfigMessage : Type 0 where
  pub base : AbsMessage
  pub parameter_k : ℕ
  pub parameter_alpha : ℕ

unfoldable pub get_size : PeerConfigMessage → ℕ
get_size m = get_base_size m.base + 4 + 8

-- What `serialize` writes behind the base part.
unfoldable pub put_own : PeerConfigMessage → Bytes
put_own m = put_int m.parameter_k ++ (put_double m.parameter_alpha)

unfoldable pub serialize : PeerConfigMessage → Option Bytes
serialize m = fill (get_size m) (put_base m.base ++ put_own m)

unfoldable pub get_own : AbsMessage → Reader PeerConfigMessage
get_own base = do
  parameter_k ← get_int
  parameter_alpha ← get_double
  pure (record { base = base; parameter_k = parameter_k; parameter_alpha = parameter_alpha })

unfoldable pub deserialize : Bytes → Option PeerConfigMessage
deserialize = deserialize_with get_own

pub record IsPeerConfigMessage (m : PeerConfigMessage) : Type 0 where
  pub base_wire : IsWire m.base
  pub parameter_k_int : m.parameter_k < 4294967296
  pub parameter_alpha_double : m.parameter_alpha < 18446744073709551616

-- A PEER_CONFIG message whose fields are within their C types fills exactly the buffer that it
-- allocates, and is read back unchanged.
pub PeerConfigMessage-Survives :
    (m : PeerConfigMessage) → IsPeerConfigMessage m → Survives get_size serialize deserialize m
unfolding serialize deserialize get_size put_own get_own
PeerConfigMessage-Survives m w =
    extend-Survives get_size get_own serialize m.base (put_own m) m refl
      (simp put_lengths (omega arith)) w.base_wire
      (simp append_assoc (
        bind_some _ _ (get_int-put_int _ _ w.parameter_k_int)
          (bind_some _ _ (get_double-put_double _ [] w.parameter_alpha_double) refl)))
