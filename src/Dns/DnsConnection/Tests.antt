-- ===== src/Dns/DnsConnection/Tests.antt =====
-- A connection with two queries, and one with a reply in progress and one that waits.
use pweb.Prelude.{◌≡◌, refl, true, some, [], ◌∷◌, ◌++◌, map, length, ◌==◌, arith}
use pweb.Dns.Wire.{Result, ok, short_bytes}
use pweb.Dns.Header.{r_success}
use pweb.Dns.Query.{DnsQuery, parse_dns_query}
use pweb.Dns.ReplyQueue.{Message}
use pweb.Dns.ReplyQueue.Runs.{World, start, reply, Reaches, starts, replies}
use pweb.Dns.DnsConnection.{compose_reply, Throws, processor_failed, send_buf_arr, receive}
use pweb.Dns.DnsConnection.Receive.{IsMessage, stream_of, receive-stream_of, receive_failed}
use pweb.Dns.DnsConnection.Send.{messages, read_message, answer_to, written-sent}
use pweb.Dns.Samples.{split_dots, split_dots-IsTokenizer, labels, question, cam, cam-IsQuery}
use pweb.Dns.Name.{dotted}

-- A client's query for the address of the sample name.
abbrev asked : Message
asked = (
  0x12 ∷ 0x34 ∷ 1 ∷ 0 ∷ 0 ∷ 1 ∷ 0 ∷ 0 ∷ 0 ∷ 0 ∷ 0 ∷ 0 ∷ [],
  3 ∷ b'c' ∷ b'a' ∷ b'm' ∷ 2 ∷ b'u' ∷ b'w' ∷ 0 ∷ 0 ∷ 1 ∷ 0 ∷ 1 ∷ [],
)

abbrev asks : DnsQuery
asks = record {
  id = 4660;
  rd = true;
  rcode = r_success;
  questions = question (dotted labels) ∷ [];
  answers = [];
  authorities = [];
  additionals = [];
}

asked_parsed : parse_dns_query asked.0 asked.1 ≡ ok asks
unfolding parse_dns_query pweb.Dns.Query.at_end pweb.Dns.Query.parse_sections pweb.Dns.Wire.◌>>=◌
    pweb.Dns.Query.parse_times pweb.Dns.Record.parse_question pweb.Dns.Name.parse_name
    pweb.Dns.Name.parse_name_within pweb.Dns.Name.parse_labels pweb.Dns.Name.parse_label
    pweb.Dns.Name.parse_label_len pweb.Dns.Wire.parse_byte pweb.Dns.Wire.parse_bytes
    pweb.Dns.Wire.parse_short pweb.Dns.Header.qdcount pweb.Dns.Header.ancount
    pweb.Dns.Header.nscount pweb.Dns.Header.arcount pweb.Dns.Header.id pweb.Dns.Header.rd
    pweb.Dns.Header.get_bit pweb.Dns.Header.read_short pweb.Dns.Header.byte_at
asked_parsed = refl

asked-IsMessage : IsMessage asked asks
unfolding pweb.Dns.Header.qr pweb.Dns.Header.opcode pweb.Dns.Header.z
asked-IsMessage = record {
  header_whole = refl;
  body_fits = omega arith;
  is_query = refl;
  parsed = asked_parsed;
}

-- A processor that throws when two bytes are left.
abbrev throws_late : Throws
throws_late q rest = length rest == 2

receive-stream_of_example :
    receive throws_late (stream_of (asked ∷ asked ∷ []) ++ 0 ∷ [])
    ≡ (asks ∷ asks ∷ (receive throws_late (0 ∷ [])).0, (receive throws_late (0 ∷ [])).1)
unfolding send_buf_arr short_bytes
receive-stream_of_example =
    receive-stream_of throws_late (asked ∷ asked ∷ []) (asks ∷ asks ∷ []) (0 ∷ [])
      (asked-IsMessage, refl, (asked-IsMessage, refl, tt))

receive_failed_example :
    receive throws_late (stream_of (asked ∷ []) ++ (send_buf_arr asked ++ 0 ∷ 1 ∷ []))
    ≡ (asks ∷ [], some (processor_failed asks))
unfolding send_buf_arr short_bytes
receive_failed_example =
    receive_failed throws_late (asked ∷ []) (asks ∷ []) asked asks (0 ∷ 1 ∷ [])
      (asked-IsMessage, refl, tt) asked-IsMessage refl

abbrev one_reply : World
one_reply = reply 5 (compose_reply split_dots) cam start

one_reply_sent : one_reply.sent ≡ cam ∷ []
unfolding reply pweb.Dns.ReplyQueue.send_reply start pweb.Dns.UdpSpeaker.compose_within
    pweb.Dns.Query.compose_dns_response pweb.Dns.Wire.◌then_write◌ pweb.Dns.Query.write_all
    pweb.Dns.Record.write_question pweb.Dns.Name.write_name pweb.Dns.Name.write_labels
    pweb.Dns.Name.write_label pweb.Dns.Name.write_label_len pweb.Dns.Wire.emit
    pweb.Dns.Wire.write_short pweb.Dns.Record.write_rr pweb.Dns.Wire.write_ulong
    pweb.Dns.Record.write_rdata
one_reply_sent = refl

one_reply-Reaches : Reaches 5 (compose_reply split_dots) one_reply
one_reply-Reaches = replies cam starts

written-sent_example :
    map read_message (messages (length one_reply.sent) (stream_of one_reply.written))
    ≡ map answer_to one_reply.sent
written-sent_example =
    written-sent split_dots one_reply split_dots-IsTokenizer one_reply-Reaches
      (rw one_reply_sent (cam-IsQuery, tt))
