-- ===== src/Dns/Query/Bounds.antt =====
-- The 500 bytes of `send_buf_` in `udp_dnsspeaker` against the answers that the gateway composes.
use pweb.Prelude.{ℕ, ◌+◌, ◌<◌, ◌≤◌, ◌≡◌, ◌∙◌, Bytes, List, [], ◌∷◌, length, length-append, arith}
use pweb.Dns.Wire.{err, unexpected_end}
use pweb.Dns.Wire.Laws.{emit_full}
use pweb.Dns.Name.{dotted, on_wire}
use pweb.Dns.Name.RoundTrip.{IsTokenizer}
use pweb.Dns.Record.{DnsQuestion, DnsRr}
use pweb.Dns.Record.RoundTrip.{IsName, IsQuestion, IsRr, name_bytes, question_bytes, rr_bytes}
use pweb.Dns.Query.{DnsQuery, compose_dns_response}
use pweb.Prelude.{All}
use pweb.Dns.Query.RoundTrip.{IsQuery, response_bytes, compose_dns_response-emit, bytes_of}

length-on_wire-dotted : (ls : List Bytes) → length (on_wire ls) ≡ length (dotted ls) + 1
length-on_wire-dotted [] = omega arith
length-on_wire-dotted (l ∷ ls) = omega (
  arith,
  length-append l (on_wire ls),
  length-append l (b'.' ∷ dotted ls),
  length-on_wire-dotted ls,
)

length-name_bytes : {name : Bytes} (n : IsName name) → length (name_bytes n) ≡ length name + 1
unfolding name_bytes
length-name_bytes n = rw (← n.text) at (length-on_wire-dotted n.labels)

length-question_bytes :
    (q : DnsQuestion) (w : IsQuestion q) → length (question_bytes q w) ≡ length q.name + 5
unfolding question_bytes
length-question_bytes q w =
    omega (arith, length-name_bytes w.is_name, length-append (name_bytes w.is_name) _)

length-rr_bytes :
    (rr : DnsRr) (w : IsRr rr) → length (rr_bytes rr w) ≡ length rr.name + 11 + length rr.rdata
unfolding rr_bytes
length-rr_bytes rr w =
    omega (arith, length-name_bytes w.is_name, length-append (name_bytes w.is_name) _)

-- Sizes on the wire, from the names and the data.
unfoldable pub questions_size : List DnsQuestion → ℕ
questions_size [] = 0
questions_size (q ∷ qs) = length q.name + 5 + questions_size qs

unfoldable pub rrs_size : List DnsRr → ℕ
rrs_size [] = 0
rrs_size (rr ∷ rrs) = length rr.name + 11 + length rr.rdata + rrs_size rrs

length-questions :
    (qs : List DnsQuestion) (w : All IsQuestion qs)
    → length (bytes_of question_bytes qs w) ≡ questions_size qs
unfolding questions_size
length-questions [] w = omega arith
length-questions (q ∷ qs) w = omega (
  arith,
  length-append (question_bytes q w.0) (bytes_of question_bytes qs w.1),
  length-question_bytes q w.0,
  length-questions qs w.1,
)

length-rrs : (rrs : List DnsRr) (w : All IsRr rrs) → length (bytes_of rr_bytes rrs w) ≡ rrs_size rrs
unfolding rrs_size
length-rrs [] w = omega arith
length-rrs (rr ∷ rrs) w = omega (
  arith,
  length-append (rr_bytes rr w.0) (bytes_of rr_bytes rrs w.1),
  length-rr_bytes rr w.0,
  length-rrs rrs w.1,
)

abbrev pub response_size : DnsQuery → ℕ
response_size q = questions_size q.questions + rrs_size q.answers + rrs_size q.authorities

-- A response has 5 bytes for each question and 11 for each record beside the names and the data;
-- names are never compressed.
pub length-response_bytes :
    (q : DnsQuery) (w : IsQuery q) → length (response_bytes q w) ≡ response_size q
unfolding response_bytes
length-response_bytes q w = simp length-append (
    omega (
      arith,
      length-questions q.questions w.all_questions,
      length-rrs q.answers w.all_answers,
      length-rrs q.authorities w.all_authorities,
    ))

-- A response that needs more than the buffer has is never composed: the writer throws.
pub response_too_long :
    (tokens : Bytes → List Bytes) (q : DnsQuery) (room : ℕ)
    → IsTokenizer tokens
    → IsQuery q
    → room < response_size q
    → compose_dns_response tokens q (record { written = []; room = room }) ≡ err unexpected_end
response_too_long tokens q room t w h =
    compose_dns_response-emit tokens q w _ t
    ∙ emit_full (response_bytes q w) _ (omega (arith, length-response_bytes q w))

-- An address found for a name of 241 to 255 bytes cannot be sent over UDP: the question and its
-- answer repeat the name, and do not fit into the 500 bytes of the send buffer.
pub long_name_overflows :
    (tokens : Bytes → List Bytes) (q : DnsQuery) (question : DnsQuestion) (rr : DnsRr)
    → IsTokenizer tokens
    → IsQuery q
    → q.questions ≡ question ∷ []
    → q.answers ≡ rr ∷ []
    → rr.name ≡ question.name
    → length rr.rdata ≡ 4
    → 241 ≤ length question.name
    → compose_dns_response tokens q (record { written = []; room = 500 }) ≡ err unexpected_end
unfolding questions_size rrs_size
long_name_overflows tokens q question rr t w eq ea same four long =
    let size : questions_size q.questions ≡ length question.name + 5 + 0 = rw eq in
    let answer : rrs_size q.answers ≡ length question.name + 11 + 4 + 0 = rw (ea, same, four) in
    response_too_long tokens q 500 t w (omega (arith, size, answer))
