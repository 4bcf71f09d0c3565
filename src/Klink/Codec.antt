-- ===== src/Klink/Codec.antt =====
-- The `memcpy` sequences by which the messages of dnsgw_test_ha/klink/plnode/message put their
-- fields into a `char` buffer and take them out. An `int` is its 32-bit pattern and a `double` its
-- 64-bit pattern, low byte first in memory. A read past the end of the buffer is a fault, `none`.
use pweb.Prelude.{
  ℕ, zero, suc, ◌+◌, ◌*◌, ◌/◌, ◌%◌, ◌<◌, ◌≡◌, refl, Option, none, some, [], ◌∷◌, ◌++◌, append_assoc,
  arith, Bytes, length, ltb, lt→ltb, if◌then◌else◌,
}

-- `memcpy(buffer + offset, &n, sizeof(int))`
unfoldable pub put_int : ℕ → Bytes
put_int n = n % 256 ∷ n / 256 % 256 ∷ n / 65536 % 256 ∷ n / 16777216 % 256 ∷ []

-- `memcpy(buffer + offset, &c, sizeof(char))`
unfoldable pub put_char : ℕ → Bytes
put_char c = c % 256 ∷ []

-- `memcpy(buffer + offset, &d, sizeof(double))`
unfoldable pub put_double : ℕ → Bytes
put_double d = put_int (d % 4294967296) ++ put_int (d / 4294967296)

-- The length as an `int`, and the loop over the characters.
unfoldable pub put_string : Bytes → Bytes
put_string s = put_int (length s) ++ s

-- A cursor over the rest of the buffer.
abbrev pub Reader : Type 0 → Type 0
Reader A = Bytes → Option (A × Bytes)

infixl 5 ◌>>=◌
unfoldable pub ◌>>=◌ : {A B : Type 0} → Reader A → (A → Reader B) → Reader B
◌>>=◌ m f b = elim (m b) [ none ↦ none | some (a, rest) ↦ f a rest ]

abbrev pub pure : {A : Type 0} → A → Reader A
pure a b = some (a, b)

unfoldable pub get_char : Reader ℕ
get_char [] = none
get_char (c ∷ rest) = some (c, rest)

unfoldable pub get_int : Reader ℕ
get_int (a ∷ b ∷ c ∷ d ∷ rest) = some (a + 256 * b + 65536 * c + 16777216 * d, rest)
get_int _ = none

unfoldable pub get_double : Reader ℕ
get_double = do lo ← get_int; hi ← get_int; pure (lo + 4294967296 * hi)

-- The loop that appends `n` characters.
unfoldable pub get_chars : ℕ → Reader Bytes
get_chars zero b = some ([], b)
get_chars (suc n) [] = none
get_chars (suc n) (c ∷ rest) = elim (get_chars n rest) [
  | none ↦ none
  | some (s, rest') ↦ some (c ∷ s, rest')
]

-- A length is an `int`: no round of the loop is made if it is negative.
unfoldable pub rounds : ℕ → ℕ
rounds n = if ltb n 2147483648 then n else 0

unfoldable pub get_string : Reader Bytes
get_string = do n ← get_int; get_chars (rounds n)

-- The loop of two messages that copies `sizeof(int)` bytes into one `char` in each round, which
-- writes past that variable: any round is a fault.
unfoldable pub get_chars_overrun : ℕ → Reader Bytes
get_chars_overrun zero b = some ([], b)
get_chars_overrun (suc n) b = none

unfoldable pub get_string_overrun : Reader Bytes
get_string_overrun = do n ← get_int; get_chars_overrun (rounds n)

pub get_int-put_int :
    (n : ℕ) (rest : Bytes) → n < 4294967296 → get_int (put_int n ++ rest) ≡ some (n, rest)
unfolding get_int put_int
get_int-put_int n rest h = ground arith

pub get_char-put_char :
    (c : ℕ) (rest : Bytes) → c < 256 → get_char (put_char c ++ rest) ≡ some (c, rest)
unfolding get_char put_char
get_char-put_char c rest h = ground arith

-- One step of a `do` block, when what it reads is known.
pub bind_some :
    {A B : Type 0} (m : Reader A) (f : A → Reader B) {b rest : Bytes} {a : A}
    {r : Option (B × Bytes)}
    → m b ≡ some (a, rest)
    → f a rest ≡ r
    → (m >>= f) b ≡ r
unfolding ◌>>=◌
bind_some m f e k = rw (e, ◌>>=◌) k

pub bind_none :
    {A B : Type 0} (m : Reader A) (f : A → Reader B) {b : Bytes} → m b ≡ none → (m >>= f) b ≡ none
unfolding ◌>>=◌
bind_none m f e = rw (e, ◌>>=◌)

pub get_double-put_double :
    (d : ℕ) (rest : Bytes)
    → d < 18446744073709551616
    → get_double (put_double d ++ rest) ≡ some (d, rest)
unfolding get_double put_double
get_double-put_double d rest h =
    let joined : d % 4294967296 + 4294967296 * (d / 4294967296) ≡ d = omega arith in
    rw append_assoc (
      bind_some _ _ (get_int-put_int (d % 4294967296) _ (omega arith))
        (bind_some _ _ (get_int-put_int (d / 4294967296) rest (omega arith)) (rw joined)))

pub get_chars-append : (s rest : Bytes) → get_chars (length s) (s ++ rest) ≡ some (s, rest)
unfolding get_chars
get_chars-append [] rest = refl
get_chars-append (c ∷ s) rest = rw (get_chars-append s rest)

pub get_string-put_string :
    (s rest : Bytes) → length s < 2147483648 → get_string (put_string s ++ rest) ≡ some (s, rest)
unfolding get_string put_string rounds
get_string-put_string s rest h = rw append_assoc (
    bind_some _ _ (get_int-put_int (length s) _ (omega arith))
      (rw (lt→ltb (length s) 2147483648 h) (get_chars-append s rest)))

pub get_string_overrun-put_string_nil :
    (s rest : Bytes) → s ≡ [] → get_string_overrun (put_string s ++ rest) ≡ some (s, rest)
unfolding get_string_overrun put_string rounds get_chars_overrun put_int
get_string_overrun-put_string_nil s rest e =
    rw e (bind_some _ _ (get_int-put_int 0 rest (omega arith)) refl)

pub get_string_overrun-put_string_cons :
    (c : ℕ) (s rest : Bytes)
    → length s < 2147483647
    → get_string_overrun (put_string (c ∷ s) ++ rest) ≡ none
unfolding get_string_overrun put_string rounds get_chars_overrun put_int
get_string_overrun-put_string_cons c s rest h = rw append_assoc (
    bind_some _ _ (get_int-put_int (suc (length s)) _ (omega arith))
      (rw (lt→ltb (suc (length s)) 2147483648 (omega arith))))

pub length-put_int : (n : ℕ) → length (put_int n) ≡ 4
unfolding put_int
length-put_int n = refl

pub length-put_char : (n : ℕ) → length (put_char n) ≡ 1
unfolding put_char
length-put_char n = refl

pub length-put_double : (d : ℕ) → length (put_double d) ≡ 8
unfolding put_double put_int
length-put_double d = refl

pub length-put_string : (s : Bytes) → length (put_string s) ≡ length s + 4
unfolding put_string put_int
length-put_string s = omega arith
