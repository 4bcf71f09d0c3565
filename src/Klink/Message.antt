-- ===== src/Klink/Message.antt =====
-- `ABSMessage`, dnsgw_test_ha/klink/plnode/message/message.h: the fields that every message has,
-- their layout in a buffer, and what the subclasses share when they extend that layout.
pub mod RoundTrip
pub mod Put
pub mod PutReply
pub mod Retrieve
pub mod InitiateGet
pub mod InitiatePut
pub mod Config
pub mod Get
pub mod Init
pub mod ChangeStatus
pub mod DynChangeStatus
pub mod GetReply
pub mod RetrieveReply
use mathlib.Core.Option
use pweb.Prelude.{
  ℕ, ◌+◌, ◌*◌, ◌%◌, ◌≡◌, Option, none, some, ◌++◌, Bytes, length, drop, ◌==◌, if◌then◌else◌,
}
use pweb.Klink.Codec.{
  Reader, ◌>>=◌, pure, put_int, put_char, put_double, put_string, get_int, get_char, get_double,
  get_string,
}
use pweb.Klink.OverlayId.{OverlayId, put_oid, get_oid}

pub record AbsMessage : Type 0 where
  pub message_type : ℕ
  pub sequence_no : ℕ
  pub dest_host : Bytes
  pub dest_port : ℕ
  pub source_host : Bytes
  pub source_port : ℕ
  pub overlay_hops : ℕ
  pub overlay_ttl : ℕ
  pub ip_hops : ℕ
  pub latency : ℕ
  pub dst_oid : OverlayId
  pub src_oid : OverlayId

-- The constructor with all addresses. `sequence_no_generator` is the static counter, an unsigned
-- 32-bit word here; the result is the message and the next counter.
unfoldable pub new_message : ℕ → ℕ → Bytes → ℕ → Bytes → ℕ → OverlayId → OverlayId → AbsMessage × ℕ
new_message generator message_type source_host source_port dest_host dest_port src_oid dst_oid = (
  record {
    message_type = message_type;
    sequence_no = generator;
    dest_host = dest_host;
    dest_port = dest_port;
    source_host = source_host;
    source_port = source_port;
    overlay_hops = 0;
    overlay_ttl = 10;
    ip_hops = 0;
    latency = 0;
    dst_oid = dst_oid;
    src_oid = src_oid;
  },
  (generator + 1) % 4294967296,
)

-- `overlay_ttl--` on an `unsigned char`.
unfoldable pub decrement_overlay_ttl : AbsMessage → AbsMessage
decrement_overlay_ttl m = record m { overlay_ttl = (m.overlay_ttl + 255) % 256 }

unfoldable pub increment_overlay_hops : AbsMessage → AbsMessage
increment_overlay_hops m = record m { overlay_hops = (m.overlay_hops + 1) % 256 }

unfoldable pub get_base_size : AbsMessage → ℕ
get_base_size m = 1 * 3 + 4 * 12 + 1 * (length m.dest_host + length m.source_host) + 8

-- The bytes that `serialize` copies, in order.
unfoldable pub put_base : AbsMessage → Bytes
put_base m =
    put_char m.message_type
    ++ (put_int m.sequence_no
        ++ (put_string m.dest_host
            ++ (put_int m.dest_port
                ++ (put_string m.source_host
                    ++ (put_int m.source_port
                        ++ (put_char m.overlay_hops
                            ++ (put_char m.overlay_ttl
                                ++ (put_int m.ip_hops
                                    ++ (put_double m.latency
                                        ++ (put_oid m.dst_oid ++ put_oid m.src_oid))))))))))

-- `new char[size]` filled with these bytes. `none` where they run past the end of the buffer, or
-- leave a part of it as it was allocated.
unfoldable pub fill : ℕ → Bytes → Option Bytes
fill size bytes = if length bytes == size then some bytes else none

unfoldable pub serialize : AbsMessage → Option Bytes
serialize m = fill (get_base_size m) (put_base m)

-- `deserialize` assigns every field, so the object's earlier state does not matter.
unfoldable pub get_base : Reader AbsMessage
get_base = do
  message_type ← get_char
  sequence_no ← get_int
  dest_host ← get_string
  dest_port ← get_int
  source_host ← get_string
  source_port ← get_int
  overlay_hops ← get_char
  overlay_ttl ← get_char
  ip_hops ← get_int
  latency ← get_double
  dst_oid ← get_oid
  src_oid ← get_oid
  pure (record {
    message_type = message_type;
    sequence_no = sequence_no;
    dest_host = dest_host;
    dest_port = dest_port;
    source_host = source_host;
    source_port = source_port;
    overlay_hops = overlay_hops;
    overlay_ttl = overlay_ttl;
    ip_hops = ip_hops;
    latency = latency;
    dst_oid = dst_oid;
    src_oid = src_oid;
  })

unfoldable pub deserialize : Bytes → Option AbsMessage
deserialize buffer = Option.map (λ p. p.0) (get_base buffer)

-- A subclass: the base part is read first, then `body` from `getBaseSize()` on.
unfoldable pub deserialize_with : {M : Type 0} → (AbsMessage → Reader M) → Bytes → Option M
deserialize_with body buffer = elim (deserialize buffer) [
  | none ↦ none
  | some base ↦ Option.map (λ p. p.0) (body base (drop (get_base_size base) buffer))
]

-- What it means that a message gets through: `serialize` fills exactly the buffer that it
-- allocates, and `deserialize` makes the same message of it.
abbrev pub Survives : {M : Type 0} → (M → ℕ) → (M → Option Bytes) → (Bytes → Option M) → M → Type 0
Survives size ser de m = (b : Bytes) × (ser m ≡ some b) × (length b ≡ size m) × (de b ≡ some m)
