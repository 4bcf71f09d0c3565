-- ===== src/Dns/DnsConnection.antt =====
-- `dns_connection`, dnsgw/dnsspeaker.cpp: queries and replies on a TCP connection, each behind two
-- bytes with its length.
pub mod Receive
pub mod Send
mod Tests
use pweb.Prelude.{
  Event, gives, stops, take_all, ℕ, zero, suc, ◌+◌, ◌%◌, Bool, Option, none, some, Bytes, List, [],
  ◌∷◌, ◌++◌, length, take, drop, ltb, leb, if◌then◌else◌,
}
use pweb.Dns.Wire.{Result, ok, err, parse_short, short_bytes}
use pweb.Dns.Header.{DnsQueryHeader}
use pweb.Dns.Query.{DnsQuery, parse_dns_query}
use pweb.Dns.ReplyQueue
use pweb.Dns.ReplyQueue.{ReplyQueue, Message, Effect}
use pweb.Dns.UdpSpeaker.{is_query_header, compose_within}

-- `send_buf_` has 1024 bytes.
abbrev pub compose_reply : (Bytes → List Bytes) → DnsQuery → Result Message
compose_reply = compose_within 1024

-- `reply_buf_` is a circular buffer of 5.
abbrev pub send_reply : (Bytes → List Bytes) → DnsQuery → ReplyQueue → ReplyQueue × Effect
send_reply tokens = pweb.Dns.ReplyQueue.send_reply 5 (compose_reply tokens)

abbrev pub handle_send_reply : (Bytes → List Bytes) → ReplyQueue → ReplyQueue × Effect
handle_send_reply tokens = pweb.Dns.ReplyQueue.handle_send_reply 5 (compose_reply tokens)

-- `send_buf_arr_`: the length as 16 bits, the header and the body.
unfoldable pub send_buf_arr : Message → Bytes
send_buf_arr (header, body) = short_bytes (length body + length header) ++ (header ++ body)

-- Why a connection reads no further: the client has closed it, a message has an announced length
-- over 1036, a header that is none of a query or a body that does not parse, the stream ends within
-- a message, or the processor has thrown a `parse_error` at the query that it was handed.
pub data Closing : Type 0 where
  ended too_large invalid_header invalid_query incomplete : Closing
  processor_failed : DnsQuery → Closing

-- A query that is handed to the processor, with what is left of the stream, or the end.
abbrev pub Received : Type 0
Received = Event DnsQuery Closing

-- Whether `processor_( query )` throws a `parse_error`, as it does where it replies inline and the
-- reply is sent at once and cannot be composed. What is left of the stream tells the calls apart.
abbrev pub Throws : Type 0
Throws = DnsQuery → Bytes → Bool

-- The `try` is around the processor as well as the parser: `start` is not reached when it throws.
unfoldable pub handle_query_read : Throws → DnsQueryHeader → Bytes → Bytes → Received
handle_query_read throws recv_header body rest =
    if is_query_header recv_header
    then elim (parse_dns_query recv_header body) [
      | ok query ↦ if throws query rest then stops (processor_failed query) else gives query rest
      | err e ↦ stops invalid_query
    ]
    else stops invalid_header

-- The size of `buffer(recv_buf_, recv_msg_len_ - recv_header_.length())`: the difference is a
-- `size_t`, and the buffer has at most the 1024 bytes of the array.
unfoldable pub body_size : ℕ → ℕ
body_size recv_msg_len =
    let size = (recv_msg_len + 18446744073709551604) % 18446744073709551616 in
    if ltb 1024 size then 1024 else size

unfoldable pub handle_msg_len_read : Throws → ℕ → Bytes → Received
handle_msg_len_read throws recv_msg_len stream =
    if ltb 1036 recv_msg_len
    then stops too_large
    else let size = body_size recv_msg_len in
      if leb (12 + size) (length stream)
      then handle_query_read throws (take 12 stream) (take size (drop 12 stream))
          (drop size (drop 12 stream))
      else stops incomplete

-- `start`, for all that the client sends from here on.
unfoldable pub read_query : Throws → Bytes → Received
read_query throws stream = elim (parse_short stream) [
  | err e ↦ stops ended
  | ok (recv_msg_len, rest) ↦ handle_msg_len_read throws recv_msg_len rest
]

-- `start` again after each query.
abbrev pub receive : Throws → Bytes → List DnsQuery × Option Closing
receive throws = take_all (read_query throws)
