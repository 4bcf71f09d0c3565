-- ===== src/Dns/DnsConnection/Receive.antt =====
-- What a TCP connection makes of the bytes that a client sends.
use pweb.Prelude.{
  gives, stops, take_all-stops, take_all-gives, ℕ, ◌+◌, ◌-◌, ◌*◌, ◌%◌, ◌<◌, ◌≤◌, ◌≡◌, refl, ap, ◌∙◌,
  inl, inr, true, false, Bool-cases, if◌then◌else◌, append-nil, some, Bytes, List, [], ◌∷◌, ◌++◌,
  append_assoc, length, length-append, take, drop, take-append, drop-append, length-drop, ltb, leb,
  le→leb, arith,
}
use pweb.Dns.Wire.{ok, parse_short, short_bytes}
use pweb.Dns.Wire.Laws.{parse_short-short_bytes, Result-cases}
use pweb.Dns.Query.{DnsQuery, parse_dns_query}
use pweb.Dns.ReplyQueue.{Message}
use pweb.Dns.UdpSpeaker.{is_query_header}
use pweb.Dns.DnsConnection.{
  send_buf_arr, Throws, processor_failed, incomplete, handle_query_read, body_size,
  handle_msg_len_read, read_query, receive,
}

-- A message that the connection reads as a query.
pub record IsMessage (m : Message) (q : DnsQuery) : Type 0 where
  pub header_whole : length m.0 ≡ 12
  pub body_fits : length m.1 ≤ 1024
  pub is_query : is_query_header m.0 ≡ true
  pub parsed : parse_dns_query m.0 m.1 ≡ ok q

abbrev pub stream_of : List Message → Bytes
stream_of [] = []
stream_of (m ∷ ms) = send_buf_arr m ++ stream_of ms

-- Messages and their queries, in order, with `rest` behind them: the processor throws at none.
abbrev pub AllMessages : Throws → List Message → List DnsQuery → Bytes → Type 0
AllMessages throws [] [] rest = Unit {0}
AllMessages throws [] (q ∷ qs) rest = ⊥
AllMessages throws (m ∷ ms) [] rest = ⊥
AllMessages throws (m ∷ ms) (q ∷ qs) rest =
    IsMessage m q × (throws q (stream_of ms ++ rest) ≡ false) × AllMessages throws ms qs rest

body_size_long : (n : ℕ) → 12 ≤ n → n ≤ 1036 → body_size n ≡ n - 12
unfolding body_size
body_size_long n h k =
    let small : (n + 18446744073709551604) % 18446744073709551616 ≡ n - 12 = omega (arith, h, k) in
    let fits : ltb 1024 (n - 12) ≡ false = ground (arith, h, k) in rw (small, fits)

body_size_short : (n : ℕ) → n < 12 → body_size n ≡ 1024
unfolding body_size
body_size_short n h =
    let same : (n + 18446744073709551604) % 18446744073709551616 ≡ n + 18446744073709551604 =
      omega (arith, h) in
    let huge : ltb 1024 (n + 18446744073709551604) ≡ true = ground (arith, h) in rw (same, huge)

parse_short-frame :
    (m : Message) (q : DnsQuery) (rest : Bytes)
    → IsMessage m q
    → parse_short (send_buf_arr m ++ rest) ≡ ok (length m.1 + length m.0, m.0 ++ (m.1 ++ rest))
unfolding send_buf_arr
parse_short-frame m q rest w =
    rw (append_assoc, append_assoc m.0)
      (parse_short-short_bytes (length m.1 + length m.0) (m.0 ++ (m.1 ++ rest))
        (omega (arith, w.header_whole, w.body_fits)))

handle_query_read-query :
    (throws : Throws) (m : Message) (q : DnsQuery) (rest : Bytes)
    → IsMessage m q
    → handle_query_read throws m.0 m.1 rest
      ≡ (if throws q rest then stops (processor_failed q) else gives q rest)
unfolding handle_query_read
handle_query_read-query throws m q rest w = rw (w.is_query, handle_query_read) (rw w.parsed)

handle_query_read_rest :
    (throws : Throws) (header body left : Bytes) (q : DnsQuery) (rest : Bytes)
    → handle_query_read throws header body left ≡ gives q rest
    → left ≡ rest
unfolding handle_query_read
handle_query_read_rest throws header body left q rest e =
    elim (Bool-cases (is_query_header header)) [
      | inr other ↦ absurd (cc (rw other at e))
      | inl query ↦ elim (Result-cases (parse_dns_query header body)) [
        | inr (x, wrong) ↦ absurd (cc (rw (query, wrong) at e))
        | inl (q', right) ↦ elim (Bool-cases (throws q' left)) [
          | inl thrown ↦ absurd (cc (rw (query, right, thrown) at e))
          | inr returned ↦
              let same : gives q' left ≡ gives q rest = rw (query, right, returned) at e in cc same
        ]
      ]
    ]

handle_msg_len_read-frame :
    (throws : Throws) (m : Message) (q : DnsQuery) (rest : Bytes)
    → IsMessage m q
    → handle_msg_len_read throws (length m.1 + length m.0) (m.0 ++ (m.1 ++ rest))
      ≡ (if throws q rest then stops (processor_failed q) else gives q rest)
unfolding handle_msg_len_read
handle_msg_len_read-frame throws m q rest w =
    let small : ltb 1036 (length m.1 + length m.0) ≡ false =
      ground (arith, w.header_whole, w.body_fits) in
    let size : body_size (length m.1 + length m.0) ≡ length m.1 =
      body_size_long _ (omega (arith, w.header_whole)) (omega (arith, w.header_whole, w.body_fits))
      ∙ omega (arith, w.header_whole) in
    let total = length-append m.0 (m.1 ++ rest) in
    let enough : leb (12 + length m.1) (length (m.0 ++ (m.1 ++ rest))) ≡ true =
      le→leb _ _ (omega (arith, total, length-append m.1 rest, w.header_whole)) in
    let header : take 12 (m.0 ++ (m.1 ++ rest)) ≡ m.0 =
      rw (← w.header_whole) (take-append m.0 (m.1 ++ rest)) in
    let behind : drop 12 (m.0 ++ (m.1 ++ rest)) ≡ m.1 ++ rest =
      rw (← w.header_whole) (drop-append m.0 (m.1 ++ rest)) in
    rw (small, size, enough, header, behind)
      (rw (take-append m.1 rest, drop-append m.1 rest) (handle_query_read-query throws m q rest w))

read_query-frame :
    (throws : Throws) (m : Message) (q : DnsQuery) (rest : Bytes)
    → IsMessage m q
    → read_query throws (send_buf_arr m ++ rest)
      ≡ (if throws q rest then stops (processor_failed q) else gives q rest)
unfolding read_query
read_query-frame throws m q rest w =
    rw (parse_short-frame m q rest w, read_query) (handle_msg_len_read-frame throws m q rest w)

-- A read that hands over a query takes bytes from the stream.
read_query-shrinks :
    (throws : Throws) (stream : Bytes) (q : DnsQuery) (rest : Bytes)
    → read_query throws stream ≡ gives q rest
    → length rest < length stream
unfolding read_query handle_msg_len_read parse_short
read_query-shrinks throws [] q rest e = absurd (cc e)
read_query-shrinks throws (a ∷ []) q rest e = absurd (cc e)
read_query-shrinks throws (a ∷ b ∷ stream) q rest e =
    let n = a * 256 + b in
    let size = body_size n in
    elim (Bool-cases (ltb 1036 n)) [
      | inl large ↦ absurd (cc (rw large at e))
      | inr small ↦ elim (Bool-cases (leb (12 + size) (length stream))) [
        | inr short ↦ absurd (cc (rw (small, short) at e))
        | inl enough ↦
            let left : drop size (drop 12 stream) ≡ rest =
              handle_query_read_rest throws _ _ _ q rest (rw (small, enough) at e) in
            omega (arith, ap length left, length-drop size (drop 12 stream), length-drop 12 stream)
      ]
    ]

-- Whatever the client sends behind queries that the gateway can read, these are handed to the
-- processor first, in order, and then what follows is read as if it stood alone, if the processor
-- throws a `parse_error` at none of them.
pub receive-stream_of :
    (throws : Throws) (ms : List Message) (qs : List DnsQuery) (rest : Bytes)
    → AllMessages throws ms qs rest
    → receive throws (stream_of ms ++ rest)
      ≡ (qs ++ (receive throws rest).0, (receive throws rest).1)
receive-stream_of throws [] [] rest w = refl
receive-stream_of throws [] (q ∷ qs) rest w = absurd w
receive-stream_of throws (m ∷ ms) [] rest w = absurd w
receive-stream_of throws (m ∷ ms) (q ∷ qs) rest w = rw (append_assoc) (
    take_all-gives (read_query throws) _ q (stream_of ms ++ rest) (read_query-shrinks throws)
      (read_query-frame throws m q (stream_of ms ++ rest) w.0 ∙ rw w.1)
    ∙ rw (receive-stream_of throws ms qs rest w.2))

-- When the processor throws a `parse_error` at a query, those before it are handed over, in order,
-- and nothing that the client sends behind it is read.
pub receive_failed :
    (throws : Throws) (ms : List Message) (qs : List DnsQuery) (m : Message) (q : DnsQuery)
    → (rest : Bytes) → AllMessages throws ms qs (send_buf_arr m ++ rest)
    → IsMessage m q
    → throws q rest ≡ true
    → receive throws (stream_of ms ++ (send_buf_arr m ++ rest)) ≡ (qs, some (processor_failed q))
receive_failed throws ms qs m q rest before w thrown =
    let last : receive throws (send_buf_arr m ++ rest) ≡ ([], some (processor_failed q)) =
      take_all-stops (read_query throws) _ _ (read_query-frame throws m q rest w ∙ rw thrown) in
    receive-stream_of throws ms qs (send_buf_arr m ++ rest) before ∙ rw last (rw append-nil)

read_query_short :
    (throws : Throws) (n : ℕ) (rest : Bytes)
    → n < 12
    → length rest < 1036
    → read_query throws (short_bytes n ++ rest) ≡ stops incomplete
unfolding read_query handle_msg_len_read
read_query_short throws n rest h k =
    let announced = parse_short-short_bytes n rest (omega (arith, h)) in
    let small : ltb 1036 n ≡ false = ground (arith, h) in
    let few : leb 1036 (length rest) ≡ false = ground (arith, k) in
    rw (announced, read_query) (rw (small, body_size_short n h, handle_msg_len_read) (rw few))

-- A length below that of a header makes the connection wait for 1036 bytes: if fewer follow before
-- the client stops it, nothing is handed to the processor, whatever queries they hold.
pub receive_short :
    (throws : Throws) (n : ℕ) (rest : Bytes)
    → n < 12
    → length rest < 1036
    → receive throws (short_bytes n ++ rest) ≡ ([], some incomplete)
receive_short throws n rest h k =
    take_all-stops (read_query throws) _ _ (read_query_short throws n rest h k)
