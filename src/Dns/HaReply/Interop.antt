-- ===== src/Dns/HaReply/Interop.antt =====
-- The gateway reads what a peer serializes: a `MessageGET_REPLY`,
-- dnsgw_test_ha/klink/plnode/message/p2p/message_get_reply.h, answers the waiting query.
use pweb.Prelude.{ℕ, ◌+◌, ◌<◌, ◌≤◌, ◌≡◌, ap, ◌∙◌, Option, some, Bytes, ◌∷◌, ◌++◌, length, arith}
use pweb.Klink.Codec.{put_int, get_int-put_int}
use pweb.Klink.Message.GetReply.{MessageGetReply, IsMessageGetReply}
use pweb.Dns.Query.{DnsQuery}
use pweb.Dns.QueryMap.{remove}
use pweb.Dns.HaReply.{
  Address, answers, Queries, answer_query, handle_read_to_devicenamelen,
  handle_read_to_replyhostlen, handle_absheader_read, handle_read_to_srchostlen,
  handle_read_to_desthostlen, receive,
}
use pweb.Dns.HaReply.Chunks.{
  resolution, async_read-append, last_int-append, size_with_small, chunk1, chunk2, chunk3, chunk4,
  chunk5, stream, length-chunk1, length-chunk2, length-chunk3, length-chunk4, length-chunk5,
  sign_extend_small, sequence_of_short,
}

-- A reply that the handlers can follow: their buffer has 256 bytes.
pub record IsReply (m : MessageGetReply) (sequence : ℕ) : Type 0 where
  pub is_wire : IsMessageGetReply m
  pub type_reply : m.base.message_type ≡ 43
  pub sequence_same : m.base.sequence_no ≡ sequence
  pub sequence_short : sequence < 65536
  pub dest_fits : length m.base.dest_host ≤ 248
  pub source_fits : length m.base.source_host ≤ 214
  pub host_fits : length m.host_address.host_name ≤ 248

module _ (from_string : Bytes → Option Address) (ttl : ℕ) (m : MessageGetReply) (sequence : ℕ)
    (w : IsReply m sequence) (queries : Queries) where
  -- The last three reads.
  reply_steps :
      (rest : Bytes)
      → handle_read_to_replyhostlen from_string ttl sequence
          (some (chunk4 m, chunk5 m ++ rest))
          queries
        ≡ handle_read_to_devicenamelen from_string ttl sequence
            (length m.host_address.host_name)
            (some (chunk5 m, rest))
            queries
  unfolding handle_read_to_replyhostlen chunk4
  reply_steps rest =
      let n = length m.host_address.host_name in
      let host = last_int-append (resolution m) n (omega (arith, w.host_fits)) in
      let positive = sign_extend_small n (omega (arith, w.host_fits)) in
      let size = size_with_small n 8 (omega (arith, w.host_fits)) (omega arith) in
      let read =
        async_read-append (n + 8) (chunk5 m) rest (length-chunk5 m) (omega (arith, w.host_fits)) in
      rw (host, handle_read_to_replyhostlen) (rw (positive, size, read))

  source_steps :
      (rest : Bytes)
      → handle_read_to_srchostlen from_string ttl sequence
          (some (chunk2 m.base, chunk3 m.base ++ (chunk4 m ++ rest)))
          queries
        ≡ handle_read_to_replyhostlen from_string ttl sequence (some (chunk4 m, rest)) queries
  unfolding handle_read_to_srchostlen handle_absheader_read chunk2
  source_steps rest =
      let n = length m.base.source_host in
      let source =
        last_int-append (m.base.dest_host ++ put_int m.base.dest_port) n
          (omega (arith, w.source_fits)) in
      let size = size_with_small n 42 (omega (arith, w.source_fits)) (omega arith) in
      let read =
        async_read-append (n + 42) (chunk3 m.base) (chunk4 m ++ rest) (length-chunk3 m.base)
          (omega (arith, w.source_fits)) in
      let next = async_read-append 40 (chunk4 m) rest (length-chunk4 m) (omega arith) in
      rw (source, handle_read_to_srchostlen) (rw (size, read, handle_absheader_read) (rw next))

  chunk1-reply : chunk1 m.base ≡ 43 ∷ (put_int sequence ++ put_int (length m.base.dest_host))
  unfolding chunk1
  chunk1-reply = rw (w.type_reply, w.sequence_same)

  header_steps :
      (rest : Bytes)
      → handle_read_to_desthostlen from_string ttl
          (some (chunk1 m.base, chunk2 m.base ++ rest))
          queries
        ≡ handle_read_to_srchostlen from_string ttl sequence (some (chunk2 m.base, rest)) queries
  unfolding handle_read_to_desthostlen
  header_steps rest =
      let n = length m.base.dest_host in
      let numbers = get_int-put_int sequence (put_int n) (omega (arith, w.sequence_short)) in
      let dest = last_int-append (43 ∷ put_int sequence) n (omega (arith, w.dest_fits)) in
      let size = size_with_small n 8 (omega (arith, w.dest_fits)) (omega arith) in
      let read =
        async_read-append (n + 8) (chunk2 m.base) rest (length-chunk2 m.base)
          (omega (arith, w.dest_fits)) in
      rw (chunk1-reply, handle_read_to_desthostlen)
        (rw (numbers, dest) (rw (size, read, sequence_of_short sequence w.sequence_short)))

  -- All reads up to the device's name.
  receive-stream :
      receive from_string ttl (stream m) queries
      ≡ handle_read_to_devicenamelen from_string ttl sequence
          (length m.host_address.host_name)
          (some (chunk5 m, m.device_name))
          queries
  unfolding receive stream
  receive-stream =
      let rest3 = chunk5 m ++ m.device_name in
      let rest2 = chunk3 m.base ++ (chunk4 m ++ rest3) in
      let first =
        async_read-append 9 (chunk1 m.base) (chunk2 m.base ++ rest2) (length-chunk1 m.base)
          (omega arith) in
      rw (first, receive) (header_steps rest2 ∙ source_steps rest3 ∙ reply_steps m.device_name)

  pub answers_found :
      (queries' : Queries) (query : DnsQuery)
      → remove sequence queries ≡ (queries', some query)
      → receive from_string ttl (stream m) queries ≡ (
        queries',
        answers (answer_query from_string ttl (length m.host_address.host_name) (chunk5 m) query),
      )
  unfolding handle_read_to_devicenamelen chunk5
  answers_found queries' query found =
      let read =
        last_int-append (m.host_address.host_name ++ put_int m.host_address.host_port)
          (length m.device_name) (omega (arith, w.is_wire.device_name_short)) in
      let last =
        answers (answer_query from_string ttl (length m.host_address.host_name) (chunk5 m) query) in
      receive-stream
      ∙ rw (read, handle_read_to_devicenamelen) (rw found (ap (λ p. (p.0, last)) found))
