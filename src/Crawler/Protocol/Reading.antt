-- ===== src/Crawler/Protocol/Reading.antt =====
-- What a `bufread` makes of the bytes that a `bufwrite` sends.
use pweb.Prelude.{ℕ, zero, suc, take, sym, until_zero-NoZero, until_zero}
use pweb.Prelude.{
  gives, take_all-stops, take_all-gives, take_all-ends, ◌+◌, ◌*◌, ◌<◌, ◌≤◌, ◌≡◌, refl, ap, ◌∙◌, inl,
  inr, Bool, true, false, Bool-cases, some, Bytes, List, [], ◌∷◌, ◌++◌, append_assoc, length,
  length-append, length-drop, drop, take-append, drop-append, ltb, leb, le→leb, arith, All,
}
use pweb.Dns.Wire.{ok, parse_short, parse_string}
use pweb.Dns.Wire.Laws.{parse_short-short_bytes, parse_string-zero}
use pweb.Prelude.{NoZero}
use pweb.Crawler.Protocol.{
  MessageType, not_a_message, home_agent_discovered, home_agent_assignment, type_value, type_of,
  BufItem, bufs, ReadError, too_big, handle_body_read, handle_header_read, read_header, read,
}

type_of-type_value : (t : MessageType) → type_of (type_value t) ≡ t
unfolding type_of
type_of-type_value not_a_message = refl
type_of-type_value home_agent_discovered = refl
type_of-type_value home_agent_assignment = refl

length-take : (n : ℕ) (s : Bytes) → n ≤ length s → length (take n s) ≡ n
length-take zero s h = refl
length-take (suc n) [] h = absurd (omega (arith, h))
length-take (suc n) (c ∷ cs) h = ap suc (length-take n cs (omega (arith, h)))

-- The string of a body that is there is read.
parse_string-take :
    (n : ℕ) (stream : Bytes)
    → leb n (length stream) ≡ true
    → parse_string (suc n) (take n stream ++ 0 ∷ []) ≡ ok (until_zero (take n stream), [])
parse_string-take n stream h =
    let size = length-take n stream (ground (arith, h)) in
    ap (λ k. parse_string (suc k) (take n stream ++ 0 ∷ [])) (sym size)
    ∙ parse_string-zero (take n stream) []

-- The bytes of items one after the other.
abbrev pub stream_of : List BufItem → Bytes
stream_of [] = []
stream_of (item ∷ items) = bufs item ++ stream_of items

module _ (has_handler : MessageType → Bool) where
  -- An item that the reader takes: it has a handler for its type, and the string fits and is a C
  -- string.
  pub record IsReadable (item : BufItem) : Type 0 where
    pub handled : has_handler item.0 ≡ true
    pub fits : length item.1 ≤ 255
    pub no_zero : NoZero item.1

  handle_body_read-append :
      (type : MessageType) (str rest : Bytes)
      → NoZero str
      → handle_body_read has_handler type (length str) (str ++ rest) ≡ gives (type, str) rest
  unfolding handle_body_read
  handle_body_read-append type str rest w =
      let enough : leb (length str) (length (str ++ rest)) ≡ true =
        le→leb _ _ (omega (arith, length-append str rest)) in
      rw (enough, take-append str rest, handle_body_read)
        (rw (parse_string-zero str [], until_zero-NoZero str w, drop-append str rest))

  read_header-bufs :
      (item : BufItem) (rest : Bytes)
      → IsReadable item
      → read_header has_handler (bufs item ++ rest) ≡ gives item rest
  unfolding bufs read_header handle_header_read
  read_header-bufs (type, str) rest w =
      let n = length str in
      let announced = parse_short-short_bytes n (str ++ rest) (omega (arith, w.fits)) in
      let small : ltb 255 n ≡ false = ground (arith, w.fits) in
      let same = type_of-type_value type in
      rw (announced, read_header)
        (rw (small, same, w.handled, handle_header_read)
          (handle_body_read-append type str rest w.no_zero))

  read_header-shrinks :
      (stream : Bytes) (item : BufItem) (rest : Bytes)
      → read_header has_handler stream ≡ gives item rest
      → length rest < length stream
  unfolding read_header handle_header_read handle_body_read parse_short
  read_header-shrinks [] item rest e = absurd (cc e)
  read_header-shrinks (t ∷ []) item rest e = absurd (cc e)
  read_header-shrinks (t ∷ a ∷ []) item rest e = absurd (cc e)
  read_header-shrinks (t ∷ a ∷ b ∷ stream) item rest e =
      let n = a * 256 + b in
      elim (Bool-cases (ltb 255 n)) [
        | inl large ↦ absurd (cc (rw large at e))
        | inr small ↦ elim (Bool-cases (has_handler (type_of t))) [
          | inr unknown ↦ absurd (cc (rw (small, unknown) at e))
          | inl known ↦ elim (Bool-cases (leb n (length stream))) [
            | inr short ↦ absurd (cc (rw (small, known, short) at e))
            | inl enough ↦
                let done =
                  rw (parse_string-take n stream enough) at (rw (small, known, enough) at e) in
                let left : drop n stream ≡ rest = cc done in
                omega (arith, ap length left, length-drop n stream)
          ]
        ]
      ]

  -- Items that a `bufread` takes, in the bytes that a `bufwrite` writes for them, are handled in
  -- order, whatever follows, and what follows is read as if it stood alone.
  pub read-stream_of :
      (items : List BufItem) (rest : Bytes)
      → All IsReadable items
      → read has_handler (stream_of items ++ rest)
        ≡ (items ++ (read has_handler rest).0, (read has_handler rest).1)
  read-stream_of [] rest w = refl
  read-stream_of (item ∷ items) rest w = rw append_assoc (
      take_all-gives (read_header has_handler) _ item _ read_header-shrinks
        (read_header-bufs item (stream_of items ++ rest) w.0)
      ∙ rw (read-stream_of items rest w.1))

  -- Reading any stream ends with one of the errors for which the callback is called.
  pub read-ends : (stream : Bytes) → (e : ReadError) × ((read has_handler stream).1 ≡ some e)
  read-ends stream = take_all-ends (read_header has_handler) stream read_header-shrinks

  -- A string of 256 to 65535 bytes, which a `bufwrite` sends, ends the reading: neither it nor
  -- anything behind it is handled.
  pub read_long :
      (type : MessageType) (str rest : Bytes)
      → 255 < length str
      → length str < 65536
      → read has_handler (bufs (type, str) ++ rest) ≡ ([], some too_big)
  unfolding bufs read_header handle_header_read
  read_long type str rest h k =
      let n = length str in
      let announced = parse_short-short_bytes n (str ++ rest) k in
      let large : ltb 255 n ≡ true = ground (arith, h) in
      take_all-stops (read_header has_handler) _ _ (rw (announced, read_header) (rw large))
