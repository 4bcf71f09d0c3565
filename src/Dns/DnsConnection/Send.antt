-- ===== src/Dns/DnsConnection/Send.antt =====
-- What a client finds on a TCP connection.
use pweb.Prelude.{
  ℕ, zero, suc, ◌+◌, ◌≤◌, ◌≡◌, refl, sym, ap, ◌∙◌, Bytes, List, [], ◌∷◌, ◌++◌, append_assoc, map,
  length, length-append, take, drop, take-append, drop-append, arith,
}
use native.Mathlib.Decide.{dec_le}
use pweb.Dns.Wire.{Result, ok, err, Out, parse_short}
use pweb.Dns.Wire.Laws.{parse_short-short_bytes, emit_fits, emit_full}
use pweb.Dns.Name.RoundTrip.{IsTokenizer}
use pweb.Dns.Header.{r_success}
use pweb.Dns.Query.{DnsQuery, parse_dns_query, compose_dns_header}
use pweb.Prelude.{All}
use pweb.Dns.Query.RoundTrip.{
  IsQuery, response_bytes, compose_dns_response-emit, length-compose_dns_header, parse-compose,
}
use pweb.Dns.ReplyQueue.{Message}
use pweb.Dns.ReplyQueue.Runs.{World, Reaches, Composed, Reaches-IsSound}
use pweb.Dns.UdpSpeaker.{compose_within}
use pweb.Dns.DnsConnection.{compose_reply, send_buf_arr}
use pweb.Dns.DnsConnection.Receive.{stream_of}

-- The first `n` messages on a connection, as RFC 1035 has a client find them: each has its length
-- in front of it.
abbrev pub messages : ℕ → Bytes → List Bytes
messages zero stream = []
messages (suc n) stream = elim (parse_short stream) [
  | err e ↦ []
  | ok (len, rest) ↦ take len rest ∷ messages n (drop len rest)
]

-- A message read by the parser of the gateway.
abbrev pub read_message : Bytes → Result DnsQuery
read_message message = parse_dns_query (take 12 message) (drop 12 message)

-- What a client reads of an answered query: the gateway's parser sets the code to success.
abbrev pub answer_to : DnsQuery → Result DnsQuery
answer_to q = ok (record q { rcode = r_success })

-- A composed message has a whole header and a body of at most 1024 bytes, and reads as its query.
record IsAnswer (m : Message) (q : DnsQuery) : Type 0 where
  header_whole : length m.0 ≡ 12
  body_fits : length m.1 ≤ 1024
  parsed : parse_dns_query m.0 m.1 ≡ ok (record q { rcode = r_success })

compose_reply-IsAnswer :
    (tokens : Bytes → List Bytes) (q : DnsQuery) (m : Message)
    → IsTokenizer tokens
    → IsQuery q
    → compose_reply tokens q ≡ ok m
    → IsAnswer m q
unfolding compose_within
compose_reply-IsAnswer tokens q m t w e =
    let start : Out = record { written = []; room = 1024 } in
    let body = response_bytes q w in
    let emitted = compose_dns_response-emit tokens q w start t in
    elim (dec_le (length body) 1024) [
      | yes fits ↦
          let (o, composed, parsed) = parse-compose tokens q w 1024 t fits in
          let same : o.written ≡ body =
            ap written_of (sym composed ∙ emitted ∙ emit_fits body start fits) in
          let made : ok (compose_dns_header q, o.written) ≡ ok m =
            rw (composed, compose_within) at e in
          let message : (compose_dns_header q, o.written) ≡ m = cc made in
          rw (← message) (record {
            header_whole = length-compose_dns_header q w;
            body_fits = rw same fits;
            parsed = parsed;
          })
      | no long ↦
          let full = emitted ∙ emit_full body start (omega (arith, long)) in
          absurd (cc (rw (full, compose_within) at e))
    ]
  where
    written_of : Result Out → Bytes
    written_of (ok o) = o.written
    written_of (err x) = []

messages-frame :
    (m : Message) (q : DnsQuery) (n : ℕ) (rest : Bytes)
    → IsAnswer m q
    → messages (suc n) (send_buf_arr m ++ rest) ≡ (m.0 ++ m.1) ∷ messages n rest
unfolding send_buf_arr
messages-frame m q n rest w =
    let both = m.0 ++ m.1 in
    let size : length m.1 + length m.0 ≡ length both = omega (arith, length-append m.0 m.1) in
    let announced =
      parse_short-short_bytes (length m.1 + length m.0) (both ++ rest)
        (omega (arith, w.header_whole, w.body_fits)) in
    rw append_assoc
      (rw (announced, messages) (rw (size, take-append both rest, drop-append both rest)))

read_message-IsAnswer :
    (m : Message) (q : DnsQuery) → IsAnswer m q → read_message (m.0 ++ m.1) ≡ answer_to q
read_message-IsAnswer m q w =
    let header : take 12 (m.0 ++ m.1) ≡ m.0 = rw (← w.header_whole) (take-append m.0 m.1) in
    let body : drop 12 (m.0 ++ m.1) ≡ m.1 = rw (← w.header_whole) (drop-append m.0 m.1) in
    rw (header, body) w.parsed

answers_read :
    (tokens : Bytes → List Bytes) (qs : List DnsQuery) (ms : List Message)
    → IsTokenizer tokens
    → All IsQuery qs
    → Composed (compose_reply tokens) qs ms
    → map read_message (messages (length qs) (stream_of ms)) ≡ map answer_to qs
answers_read tokens [] [] t all c = refl
answers_read tokens [] (m ∷ ms) t all c = absurd c
answers_read tokens (q ∷ qs) [] t all c = absurd c
answers_read tokens (q ∷ qs) (m ∷ ms) t all c =
    let w = compose_reply-IsAnswer tokens q m t all.0 c.0 in
    rw (messages-frame m q (length qs) (stream_of ms) w)
      (rw (read_message-IsAnswer m q w, answers_read tokens qs ms t all.1 c.1))

-- In every run of a connection whose sent queries are within their types, a client that cuts the
-- bytes written to the connection at the lengths in front of the messages, and reads each message
-- with the gateway's parser, finds the queries that were answered, in order and unchanged but for
-- the result code.
pub written-sent :
    (tokens : Bytes → List Bytes) (w : World)
    → IsTokenizer tokens
    → Reaches 5 (compose_reply tokens) w
    → All IsQuery w.sent
    → map read_message (messages (length w.sent) (stream_of w.written)) ≡ map answer_to w.sent
written-sent tokens w t r all =
    answers_read tokens w.sent w.written t all
      (Reaches-IsSound 5 (compose_reply tokens) w r).composed
