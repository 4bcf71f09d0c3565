-- ===== src/Dns/Wire.antt =====
-- shared/protocol_helper.hpp: numbers in network byte order at a cursor that knows its end. A
-- reading cursor is the list of the bytes from `buf` to `end`. A writing one is what has been
-- written and the room left; what a failed write leaves behind `buf` is never looked at.
pub mod Laws
use pweb.Prelude.{
  zero, suc, get_or, until_zero, ◌==◌, ℕ, ◌+◌, ◌*◌, ◌/◌, ◌%◌, ◌-◌, Bytes, List, [], ◌∷◌, ◌++◌,
  length, take, drop, leb, if◌then◌else◌,
}

-- What `parse_error` is thrown for, and two other exceptions of haproxy.cpp. `out_of_fuel` is
-- none of these: it marks a loop of the model that was given too few rounds.
pub data ParseError : Type 0 where
  unexpected_end invalid_string name_too_long rdlength_max rdlength_size : ParseError
  additional_data no_suffix out_of_range out_of_fuel : ParseError
  invalid_label_length invalid_name_length : ℕ → ParseError

pub data Result (A : Type 0) : Type 0 where
  ok : A → Result A
  err : ParseError → Result A

abbrev pub Parser : Type 0 → Type 0
Parser A = Bytes → Result (A × Bytes)

infixl 5 ◌>>=◌
unfoldable pub ◌>>=◌ : {A B : Type 0} → Parser A → (A → Parser B) → Parser B
◌>>=◌ m f buf = elim (m buf) [ ok (a, rest) ↦ f a rest | err e ↦ err e ]

abbrev pub pure : {A : Type 0} → A → Parser A
pure a buf = ok (a, buf)

abbrev pub throw : {A : Type 0} → ParseError → Parser A
throw e buf = err e

unfoldable pub parse_byte : Parser ℕ
parse_byte [] = err unexpected_end
parse_byte (b ∷ rest) = ok (b, rest)

unfoldable pub parse_short : Parser ℕ
parse_short (a ∷ b ∷ rest) = ok (a * 256 + b, rest)
parse_short _ = err unexpected_end

unfoldable pub parse_ulong : Parser ℕ
parse_ulong (a ∷ b ∷ c ∷ d ∷ rest) = ok (((a * 256 + b) * 256 + c) * 256 + d, rest)
parse_ulong _ = err unexpected_end

-- `check_end(len, buf, end)` and a copy of `len` bytes.
unfoldable pub parse_bytes : ℕ → Parser Bytes
parse_bytes n buf = if leb n (length buf) then ok (take n buf, drop n buf) else err unexpected_end

-- `len` counts the zero at the end; no caller asks for none, which would look in front of `buf`. The
-- string ends at its first zero.
unfoldable pub parse_string : ℕ → Parser Bytes
parse_string zero buf = err out_of_range
parse_string (suc n) buf =
    if leb (suc n) (length buf)
    then if get_or buf n 1 == 0 then ok (until_zero buf, drop (suc n) buf) else err invalid_string
    else err unexpected_end

pub record Out : Type 0 where
  pub written : Bytes
  pub room : ℕ

-- `check_end(bytes, buf, end)`, then the bytes are copied and `buf` moves on.
unfoldable pub emit : Bytes → Out → Result Out
emit bytes o =
    if leb (length bytes) o.room
    then ok (record { written = o.written ++ bytes; room = o.room - length bytes })
    else err unexpected_end

abbrev pub Writer : Type 0
Writer = Out → Result Out

infixl 6 ◌then_write◌
unfoldable pub ◌then_write◌ : Writer → Writer → Writer
◌then_write◌ v w o = elim (v o) [ ok o' ↦ w o' | err e ↦ err e ]

abbrev pub short_bytes : ℕ → Bytes
short_bytes v = v / 256 % 256 ∷ v % 256 ∷ []

abbrev pub ulong_bytes : ℕ → Bytes
ulong_bytes v = v / 16777216 % 256 ∷ v / 65536 % 256 ∷ v / 256 % 256 ∷ v % 256 ∷ []

unfoldable pub write_short : ℕ → Writer
write_short v = emit (short_bytes v)

unfoldable pub write_ulong : ℕ → Writer
write_ulong v = emit (ulong_bytes v)

unfoldable pub write_string : Bytes → Writer
write_string str = emit (str ++ 0 ∷ [])
