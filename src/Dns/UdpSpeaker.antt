-- ===== src/Dns/UdpSpeaker.antt =====
-- `udp_dnsspeaker`, dnsgw/dnsspeaker.cpp: what it does with a datagram, and its queue of replies.
pub mod Queue
pub mod Drain
use pweb.Prelude.{
  ℕ, ◌+◌, Bool, true, false, not, ◌&&◌, Option, none, some, Bytes, List, [], ◌∷◌, ◌++◌, length,
  take, drop, leb, ◌==◌, if◌then◌else◌,
}
use pweb.Dns.Wire.{Result, ok, err}
use pweb.Dns.Header.{DnsQueryHeader, Opcode, o_query, qr, opcode, z}
use pweb.Dns.ReplyQueue
use pweb.Dns.ReplyQueue.{ReplyQueue, new_queue, Effect}
use pweb.Dns.Query.{DnsQuery, parse_dns_query, compose_dns_header, compose_dns_response}

unfoldable pub new_udp_speaker : ReplyQueue
new_udp_speaker = new_queue

abbrev pub is_o_query : Opcode → Bool
is_o_query o_query = true
is_o_query _ = false

-- The check of a header that both speakers make.
abbrev pub is_query_header : DnsQueryHeader → Bool
is_query_header h = not (qr h) && (is_o_query (opcode h) && (z h == 0))

-- `recv_header_` and `recv_buf_` take 12 and 500 bytes of a datagram; the rest of it is lost. The
-- result is the query that is handed to the processor.
unfoldable pub handle_datagram_received : Bytes → Option DnsQuery
handle_datagram_received datagram =
    let recv_header = take 12 datagram in
    let recv_buf = take 500 (drop 12 datagram) in
    if leb 12 (length datagram) && is_query_header recv_header
    then elim (parse_dns_query recv_header recv_buf) [ ok query ↦ some query | err e ↦ none ]
    else none

-- The message that is sent, with `size` bytes in `send_buf_`.
unfoldable pub compose_within :
    ℕ → (Bytes → List Bytes) → DnsQuery → Result (DnsQueryHeader × Bytes)
compose_within size tokens query =
    elim (compose_dns_response tokens query (record { written = []; room = size })) [
      | ok out ↦ ok (compose_dns_header query, out.written)
      | err e ↦ err e
    ]

abbrev pub compose_reply : (Bytes → List Bytes) → DnsQuery → Result (DnsQueryHeader × Bytes)
compose_reply = compose_within 500

-- `reply_buf_` is a circular buffer of 50.
abbrev pub send_reply : (Bytes → List Bytes) → DnsQuery → ReplyQueue → ReplyQueue × Effect
send_reply tokens = pweb.Dns.ReplyQueue.send_reply 50 (compose_reply tokens)

abbrev pub handle_send_reply : (Bytes → List Bytes) → ReplyQueue → ReplyQueue × Effect
handle_send_reply tokens = pweb.Dns.ReplyQueue.handle_send_reply 50 (compose_reply tokens)
