-- ===== src/Klink/OverlayId.antt =====
-- dnsgw_test_ha/klink/plnode/ds/overlay_id.h and host_address.h as far as messages carry them.
pub mod Prefix
mod Tests
use pweb.Prelude.{
  ℕ, ◌+◌, ◌%◌, ◌<◌, ◌≡◌, refl, some, ◌++◌, append_assoc, arith, Bytes, length, ltb, if◌then◌else◌,
}
use pweb.Klink.Codec.{Reader, ◌>>=◌, pure, put_int, get_int, bind_some, get_int-put_int}

-- `overlay_id` is a 64-bit `long`, the other two are `int`s; all as bit patterns.
pub record OverlayId : Type 0 where
  pub overlay_id : ℕ
  pub prefix_length : ℕ
  pub max_length : ℕ

-- `GetOverlay_id` returns an `int`.
unfoldable pub get_overlay_id : OverlayId → ℕ
get_overlay_id o = o.overlay_id % 4294967296

-- An `int` stored in a `long`: the sign is extended.
unfoldable pub sign_extend : ℕ → ℕ
sign_extend n = if ltb n 2147483648 then n else n + 18446744069414584320

unfoldable pub set_overlay_id : OverlayId → ℕ → OverlayId
set_overlay_id o n = record o { overlay_id = sign_extend n }

-- `operator<` compares the signed `overlay_id`s and nothing else; this is their place in that order.
unfoldable pub rank : OverlayId → ℕ
rank o = (o.overlay_id + 9223372036854775808) % 18446744073709551616

-- What the messages write for an identifier: three `int`s.
unfoldable pub put_oid : OverlayId → Bytes
put_oid o = put_int (get_overlay_id o) ++ (put_int o.prefix_length ++ put_int o.max_length)

unfoldable pub get_oid : Reader OverlayId
get_oid = do
  o_id ← get_int
  p_len ← get_int
  m_len ← get_int
  pure (record { overlay_id = sign_extend o_id; prefix_length = p_len; max_length = m_len })

-- The identifier survives the passage through `int`.
pub record IsWireOid (o : OverlayId) : Type 0 where
  pub extended : sign_extend (o.overlay_id % 4294967296) ≡ o.overlay_id
  pub prefix_int : o.prefix_length < 4294967296
  pub max_int : o.max_length < 4294967296

pub get_oid-put_oid :
    (o : OverlayId) (rest : Bytes) → IsWireOid o → get_oid (put_oid o ++ rest) ≡ some (o, rest)
unfolding get_oid put_oid get_overlay_id
get_oid-put_oid o rest w = simp append_assoc (
    bind_some _ _ (get_int-put_int _ _ (omega arith)) (
      bind_some _ _ (get_int-put_int _ _ w.prefix_int)
        (bind_some _ _ (get_int-put_int _ rest w.max_int) (rw w.extended))))

pub length-put_oid : (o : OverlayId) → length (put_oid o) ≡ 12
unfolding put_oid put_int
length-put_oid o = refl

pub record HostAddress : Type 0 where
  pub host_name : Bytes
  pub host_port : ℕ
