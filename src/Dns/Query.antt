-- ===== src/Dns/Query.antt =====
-- `dnsquery`, dnsgw/dnsquery.hpp, and how dnsgw/dnsspeaker.cpp reads one from a message and
-- composes the response. A query's sender, timer and metric are not part of it here.
pub mod RoundTrip
pub mod Bounds
use pweb.Prelude.{ℕ, zero, suc, ◌%◌, Bool, true, Bytes, List, [], ◌∷◌, ◌++◌, length}
use pweb.Dns.Wire.{Result, ok, err, additional_data, Parser, ◌>>=◌, pure, Writer, ◌then_write◌}
use pweb.Dns.Record.{DnsQuestion, DnsRr, parse_question, parse_rr, write_question, write_rr}
use pweb.Dns.Header.{
  DnsQueryHeader, Rcode, r_success, clear, id, rd, qdcount, ancount, nscount, arcount, write_short,
  set_bit, set_rcode,
}

pub record DnsQuery : Type 0 where
  pub id : ℕ
  pub rd : Bool
  pub rcode : Rcode
  pub questions : List DnsQuestion
  pub answers : List DnsRr
  pub authorities : List DnsRr
  pub additionals : List DnsRr

-- The loop that reads `n` parts.
unfoldable pub parse_times : {A : Type 0} → Parser A → ℕ → Parser (List A)
parse_times p zero = pure []
parse_times p (suc n) = do a ← p; as' ← parse_times p n; pure (a ∷ as')

-- The four loops. Records of the additional section are read and dropped.
unfoldable pub parse_sections : DnsQueryHeader → Parser DnsQuery
parse_sections header = do
  questions ← parse_times parse_question (qdcount header)
  answers ← parse_times parse_rr (ancount header)
  authorities ← parse_times parse_rr (nscount header)
  ignored ← parse_times parse_rr (arcount header)
  pure (record {
    id = id header;
    rd = rd header;
    rcode = r_success;
    questions = questions;
    answers = answers;
    authorities = authorities;
    additionals = [];
  })

-- `if ( buf != end )` after the last section.
unfoldable pub at_end : Result (DnsQuery × Bytes) → Result DnsQuery
at_end (ok (q, [])) = ok q
at_end (ok (q, b ∷ rest)) = err additional_data
at_end (err e) = err e

-- A new query, filled from a header and the bytes behind it.
unfoldable pub parse_dns_query : DnsQueryHeader → Bytes → Result DnsQuery
parse_dns_query header buf = at_end (parse_sections header buf)

-- The counts are cast to 16 bits.
unfoldable pub compose_dns_header : DnsQuery → DnsQueryHeader
compose_dns_header q =
    let h0 = write_short clear 0 q.id in
    let h1 = set_bit h0 2 0x80 true in
    let h2 = set_bit h1 2 0x04 true in
    let h3 = set_bit h2 2 0x01 q.rd in
    let h4 = set_rcode h3 q.rcode in
    let h5 = write_short h4 4 (length q.questions % 65536) in
    let h6 = write_short h5 6 (length q.answers % 65536) in
    let h7 = write_short h6 8 (length q.authorities % 65536) in
    write_short h7 10 (length q.additionals % 65536)

unfoldable pub write_all : {A : Type 0} → (A → Writer) → List A → Writer
write_all w [] o = ok o
write_all w (a ∷ as') o = (w a then_write write_all w as') o

unfoldable pub compose_dns_response : (Bytes → List Bytes) → DnsQuery → Writer
compose_dns_response tokens q =
    write_all (write_question tokens) q.questions
    then_write (write_all (write_rr tokens) q.answers
        then_write (write_all (write_rr tokens) q.authorities
            then_write write_all (write_rr tokens) q.additionals))
