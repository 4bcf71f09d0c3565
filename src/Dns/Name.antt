-- ===== src/Dns/Name.antt =====
-- Names in dnsgw/dnsspeaker.cpp: a series of length-prefixed labels on the wire, a text with a dot
-- behind each label in the program.
pub mod RoundTrip
use pweb.Prelude.{ℕ, zero, suc, ◌+◌, Bytes, List, [], ◌∷◌, ◌++◌, length, ltb, ◌==◌, if◌then◌else◌}
use pweb.Dns.Wire.{
  Parser, ◌>>=◌, pure, throw, parse_byte, unexpected_end, name_too_long, out_of_fuel, err, ok,
  invalid_label_length, invalid_name_length, Writer, emit, ◌then_write◌,
}

unfoldable pub parse_label_len : Parser ℕ
parse_label_len = do
  len ← parse_byte
  if ltb 63 len then throw (invalid_label_length len) else pure len

-- The loop copies `len` bytes behind `name`; then comes the dot.
unfoldable pub parse_label : Bytes → ℕ → Parser Bytes
parse_label name zero buf = ok (name ++ b'.' ∷ [], buf)
parse_label name (suc len) [] = err unexpected_end
parse_label name (suc len) (c ∷ rest) = parse_label (name ++ c ∷ []) len rest

-- `while ( label_len )`, with the number of rounds that are left.
unfoldable pub parse_labels : ℕ → ℕ → ℕ → Bytes → Parser Bytes
parse_labels zero name_len label_len name = throw out_of_fuel
parse_labels (suc fuel) name_len label_len name =
    let round : Parser Bytes = do
      name' ← parse_label name label_len
      next_len ← parse_label_len
      parse_labels fuel (name_len + label_len) next_len name'
    in if label_len == 0
      then pure name
      else if ltb 255 (name_len + label_len)
      then throw name_too_long
      else round

unfoldable pub parse_name_within : ℕ → Parser Bytes
parse_name_within fuel = do label_len ← parse_label_len; parse_labels fuel 0 label_len []

-- Each round but the last takes a byte at least, so the length of the buffer bounds the rounds.
unfoldable pub parse_name : Parser Bytes
parse_name buf = parse_name_within (suc (length buf)) buf

unfoldable pub write_label_len : ℕ → Writer
write_label_len len o =
    if o.room == 0
    then err unexpected_end
    else if ltb 63 len
    then err (invalid_label_length len)
    else emit (len ∷ []) o

unfoldable pub write_label : Bytes → Writer
write_label label = write_label_len (length label) then_write emit label

-- The loop over the tokens.
unfoldable pub write_labels : List Bytes → Writer
write_labels [] o = ok o
write_labels (label ∷ labels) o = (write_label label then_write write_labels labels) o

-- `tokens` is what `boost::tokenizer` makes of a name, with "." for the separator.
unfoldable pub write_name : (Bytes → List Bytes) → Bytes → Writer
write_name tokens name o =
    if ltb 255 (length name)
    then err (invalid_name_length (length name))
    else (write_labels (tokens name) then_write emit (0 ∷ [])) o

-- The text of a series of labels, as `parse_name` makes it, and their form on the wire.
abbrev pub dotted : List Bytes → Bytes
dotted [] = []
dotted (label ∷ labels) = label ++ (b'.' ∷ dotted labels)

abbrev pub on_wire : List Bytes → Bytes
on_wire [] = 0 ∷ []
on_wire (label ∷ labels) = length label ∷ (label ++ on_wire labels)
