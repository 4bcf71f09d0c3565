-- ===== src/Klink/Message/RoundTrip.antt =====
-- Messages get through `serialize` and `deserialize`.
use pweb.Prelude.{
  ℕ, suc, ◌+◌, ◌<◌, ◌≡◌, refl, ◌∙◌, Option, none, some, [], ◌++◌, append_assoc, append-nil, arith,
  Bytes, length, length-append, drop-append, drop, ◌==◌, ==_iff, if◌then◌else◌,
}
use pweb.Klink.Codec.{
  Reader, ◌>>=◌, put_int, put_char, put_double, put_string, bind_some, get_int-put_int,
  get_char-put_char, get_double-put_double, get_string-put_string, length-put_int, length-put_char,
  length-put_double, length-put_string,
}
use pweb.Klink.OverlayId.{OverlayId, IsWireOid, put_oid, get_oid-put_oid, length-put_oid}
use pweb.Klink.Message.{
  AbsMessage, get_base_size, put_base, fill, get_base, deserialize, deserialize_with, Survives,
}

-- Every field is within its C type, and the host names have lengths that an `int` holds.
pub record IsWire (m : AbsMessage) : Type 0 where
  pub type_char : m.message_type < 256
  pub sequence_int : m.sequence_no < 4294967296
  pub dest_short : length m.dest_host < 2147483648
  pub dest_int : m.dest_port < 4294967296
  pub source_short : length m.source_host < 2147483648
  pub source_int : m.source_port < 4294967296
  pub hops_char : m.overlay_hops < 256
  pub ttl_char : m.overlay_ttl < 256
  pub ip_int : m.ip_hops < 4294967296
  pub latency_double : m.latency < 18446744073709551616
  pub dst_wire : IsWireOid m.dst_oid
  pub src_wire : IsWireOid m.src_oid

get_base-put_base :
    (m : AbsMessage) (rest : Bytes) → IsWire m → get_base (put_base m ++ rest) ≡ some (m, rest)
unfolding get_base put_base
get_base-put_base m rest w = simp append_assoc (
    bind_some _ _ (get_char-put_char _ _ w.type_char) (
      bind_some _ _ (get_int-put_int _ _ w.sequence_int) (
        bind_some _ _ (get_string-put_string _ _ w.dest_short) (
          bind_some _ _ (get_int-put_int _ _ w.dest_int) (
            bind_some _ _ (get_string-put_string _ _ w.source_short) (
              bind_some _ _ (get_int-put_int _ _ w.source_int) (
                bind_some _ _ (get_char-put_char _ _ w.hops_char) (
                  bind_some _ _ (get_char-put_char _ _ w.ttl_char) (
                    bind_some _ _ (get_int-put_int _ _ w.ip_int) (
                      bind_some _ _ (get_double-put_double _ _ w.latency_double) (
                        bind_some _ _ (get_oid-put_oid _ _ w.dst_wire)
                          (bind_some _ _ (get_oid-put_oid _ rest w.src_wire) refl))))))))))))

pub ruleset put_lengths = (
  length-append, length-put_int, length-put_char, length-put_double, length-put_string,
  length-put_oid,
)

pub length-put_base : (m : AbsMessage) → length (put_base m) ≡ get_base_size m
unfolding put_base get_base_size
length-put_base m = simp put_lengths (omega arith)

pub fill_exact : (n : ℕ) (b : Bytes) → length b ≡ n → fill n b ≡ some b
unfolding fill
fill_exact n b h = rw ((==_iff (length b) n).1 h)

-- Bytes that are more than the buffer holds.
pub fill_more : (n k : ℕ) (b : Bytes) → length b ≡ n + suc k → fill n b ≡ none
unfolding fill
fill_more n k b h = rw h (ground arith)

deserialize-put_base :
    (m : AbsMessage) (tail : Bytes) → IsWire m → deserialize (put_base m ++ tail) ≡ some m
unfolding deserialize
deserialize-put_base m tail w = rw (get_base-put_base m tail w)

pub deserialize_with-put_base :
    {M : Type 0} (body : AbsMessage → Reader M) (base : AbsMessage) (tail rest : Bytes) (m : M)
    → IsWire base
    → body base tail ≡ some (m, rest)
    → deserialize_with body (put_base base ++ tail) ≡ some m
unfolding deserialize_with
deserialize_with-put_base body base tail rest m w h =
    let behind : drop (get_base_size base) (put_base base ++ tail) ≡ tail =
      rw (← length-put_base base) (drop-append (put_base base) tail) in
    rw (deserialize-put_base base tail w, deserialize_with) (rw (behind, h))

-- A subclass gets through if its own bytes fill its buffer and its body reads them.
pub extend-Survives :
    {M : Type 0} (size : M → ℕ) (body : AbsMessage → Reader M) (ser : M → Option Bytes)
    (base : AbsMessage) (tail : Bytes) (m : M)
    → ser m ≡ fill (size m) (put_base base ++ tail)
    → get_base_size base + length tail ≡ size m
    → IsWire base
    → body base (tail ++ []) ≡ some (m, [])
    → Survives size ser (deserialize_with body) m
extend-Survives size body ser base tail m e exact w h =
    let fits : length (put_base base ++ tail) ≡ size m =
      simp (length-append, length-put_base) exact in
    (
      put_base base ++ tail,
      e ∙ fill_exact _ _ fits,
      fits,
      deserialize_with-put_base body base tail [] m w (rw append-nil at h),
    )

-- The buffer is filled, and reading it back is a fault.
abbrev pub Faults : {M : Type 0} → (M → Option Bytes) → (Bytes → Option M) → M → Type 0
Faults ser de m = (b : Bytes) × (ser m ≡ some b) × (de b ≡ none)

pub extend-Faults :
    {M : Type 0} (size : M → ℕ) (body : AbsMessage → Reader M) (ser : M → Option Bytes)
    (base : AbsMessage) (tail : Bytes) (m : M)
    → ser m ≡ fill (size m) (put_base base ++ tail)
    → get_base_size base + length tail ≡ size m
    → IsWire base
    → body base (tail ++ []) ≡ none
    → Faults ser (deserialize_with body) m
unfolding deserialize_with
extend-Faults size body ser base tail m e exact w h =
    let fits : length (put_base base ++ tail) ≡ size m =
      simp (length-append, length-put_base) exact in
    let behind : drop (get_base_size base) (put_base base ++ tail) ≡ tail =
      rw (← length-put_base base) (drop-append (put_base base) tail) in
    let stops : body base tail ≡ none = rw append-nil at h in
    (
      put_base base ++ tail,
      e ∙ fill_exact _ _ fits,
      rw (deserialize-put_base base tail w, deserialize_with) (rw (behind, stops)),
    )
