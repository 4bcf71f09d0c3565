-- ===== src/Dns/Wire/Laws.antt =====
-- Numbers that are written are read back; writers compose.
use native.Mathlib.Decide.{dec_le}
use pweb.Prelude.{suc, ◌∷◌, drop, get_or, leb, true, until_zero, NoZero, until_zero-NoZero}
use pweb.Dns.Wire.{parse_string, write_string}
use pweb.Prelude.{
  ℕ, ◌-◌, ◌<◌, ◌≤◌, ◌≡◌, refl, sym, ◌∙◌, ◌⊎◌, inl, inr, Bytes, [], ◌++◌, append_assoc, append-nil,
  length, length-append, take-append, drop-append, le→leb, arith,
}
use pweb.Dns.Wire.{
  Result, ok, err, Parser, ◌>>=◌, parse_short, parse_ulong, parse_bytes, Out, emit, Writer,
  ◌then_write◌, short_bytes, ulong_bytes, ParseError, unexpected_end,
}

pub bind_ok :
    {A B : Type 0} (m : Parser A) (f : A → Parser B) {buf rest : Bytes} {a : A}
    {r : Result (B × Bytes)}
    → m buf ≡ ok (a, rest)
    → f a rest ≡ r
    → (m >>= f) buf ≡ r
unfolding ◌>>=◌
bind_ok m f e k = rw (e, ◌>>=◌) k

pub bind_err :
    {A B : Type 0} (m : Parser A) (f : A → Parser B) {buf : Bytes} {e : ParseError}
    → m buf ≡ err e
    → (m >>= f) buf ≡ err e
unfolding ◌>>=◌
bind_err m f e = rw (e, ◌>>=◌)

pub parse_short-short_bytes :
    (v : ℕ) (rest : Bytes) → v < 65536 → parse_short (short_bytes v ++ rest) ≡ ok (v, rest)
unfolding parse_short
parse_short-short_bytes v rest h = ground arith

pub parse_ulong-ulong_bytes :
    (v : ℕ) (rest : Bytes) → v < 4294967296 → parse_ulong (ulong_bytes v ++ rest) ≡ ok (v, rest)
unfolding parse_ulong
parse_ulong-ulong_bytes v rest h = ground arith

pub parse_bytes-append : (s rest : Bytes) → parse_bytes (length s) (s ++ rest) ≡ ok (s, rest)
unfolding parse_bytes
parse_bytes-append s rest = rw (
  le→leb (length s) (length (s ++ rest)) (omega (arith, length-append s rest)),
  take-append s rest,
  drop-append s rest,
)

-- A write that fits.
pub emit_fits :
    (a : Bytes) (o : Out)
    → length a ≤ o.room
    → emit a o ≡ ok (record { written = o.written ++ a; room = o.room - length a })
unfolding emit
emit_fits a o h = rw (le→leb (length a) o.room h)

pub emit_full : (a : Bytes) (o : Out) → o.room < length a → emit a o ≡ err unexpected_end
unfolding emit
emit_full a o h = ground arith

pub then_write_ok : (v w : Writer) {o o' : Out} → v o ≡ ok o' → (v then_write w) o ≡ w o'
unfolding ◌then_write◌
then_write_ok v w e = rw (e, ◌then_write◌)

pub then_write_err :
    (v w : Writer) {o : Out} {e : ParseError} → v o ≡ err e → (v then_write w) o ≡ err e
unfolding ◌then_write◌
then_write_err v w e = rw (e, ◌then_write◌)

emit_twice :
    (a b : Bytes) (o : Out)
    → emit b (record { written = o.written ++ a; room = o.room - length a }) ≡ emit (a ++ b) o
      ⊎ (o.room < length a)
unfolding emit
emit_twice a b o = ground (arith, length-append a b, append_assoc o.written a b)

-- Two writes in a row are one write of both, on success and on failure.
pub emit-emit : (a b : Bytes) (o : Out) → (emit a then_write emit b) o ≡ emit (a ++ b) o
emit-emit a b o = elim (emit_twice a b o) [
  | inl same ↦ elim (dec_le (length a) o.room) [
    | yes fits ↦ then_write_ok (emit a) (emit b) (emit_fits a o fits) ∙ same
    | no full ↦
        then_write_err (emit a) (emit b) (emit_full a o (omega arith))
        ∙ sym (emit_full (a ++ b) o (omega (arith, length-append a b)))
  ]
  | inr full ↦
      then_write_err (emit a) (emit b) (emit_full a o full)
      ∙ sym (emit_full (a ++ b) o (omega (arith, length-append a b)))
]

pub Result-cases :
    {A : Type 0} (r : Result A) → ((a : A) × (r ≡ ok a)) ⊎ ((e : ParseError) × (r ≡ err e))
Result-cases (ok a) = inl (a, refl)
Result-cases (err e) = inr (e, refl)

pub write_step :
    (v w : Writer) (a b : Bytes) (o : Out)
    → ((p : Out) → v p ≡ emit a p)
    → ((p : Out) → w p ≡ emit b p)
    → (v then_write w) o ≡ emit (a ++ b) o
write_step v w a b o p q = elim (Result-cases (emit a o)) [
  | inl (o', e) ↦
      then_write_ok v w (p o ∙ e) ∙ q o' ∙ sym (then_write_ok (emit a) (emit b) e) ∙ emit-emit a b o
  | inr (e', e) ↦
      then_write_err v w (p o ∙ e) ∙ sym (then_write_err (emit a) (emit b) e) ∙ emit-emit a b o
]

pub emit-nil : (o : Out) → emit [] o ≡ ok o
unfolding emit
emit-nil o = ground (arith, append-nil o.written)

get_or-append : (s rest : Bytes) (c d : ℕ) → get_or (s ++ c ∷ rest) (length s) d ≡ c
get_or-append [] rest c d = refl
get_or-append (b ∷ bs) rest c d = get_or-append bs rest c d

until_zero-append : (s rest : Bytes) → until_zero (s ++ 0 ∷ rest) ≡ until_zero s
until_zero-append [] rest = refl
until_zero-append (b ∷ bs) rest = rw (until_zero-append bs rest)

-- What is in front of the zero that ends a string is read up to its first zero.
pub parse_string-zero :
    (s rest : Bytes) → parse_string (suc (length s)) (s ++ 0 ∷ rest) ≡ ok (until_zero s, rest)
unfolding parse_string
parse_string-zero s rest =
    let enough : leb (suc (length s)) (length (s ++ 0 ∷ rest)) ≡ true =
      le→leb _ _ (omega (arith, length-append s (0 ∷ rest))) in
    rw (enough, get_or-append s rest 0 1, until_zero-append s rest, drop-zero s rest)
  where
    drop-zero : (t u : Bytes) → drop (suc (length t)) (t ++ 0 ∷ u) ≡ u
    drop-zero [] u = refl
    drop-zero (b ∷ bs) u = drop-zero bs u

-- A string without a zero is written as what is read back as it.
pub parse_string-write_string :
    (s rest : Bytes) (o : Out)
    → NoZero s
    → (write_string s o ≡ emit (s ++ 0 ∷ []) o)
      × (parse_string (suc (length s)) ((s ++ 0 ∷ []) ++ rest) ≡ ok (s, rest))
unfolding write_string
parse_string-write_string s rest o w =
    (refl, rw append_assoc (parse_string-zero s rest ∙ rw (until_zero-NoZero s w)))
