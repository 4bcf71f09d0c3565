-- ===== src/Dns/HaReply.antt =====
-- The reply of a home agent, class `harecvconnection` of dnsgw/haproxy.cpp: the chain of handlers
-- over the bytes that the home agent sends until it closes the connection.
pub mod Chunks
pub mod Interop
pub mod Answer
mod Tests
use pweb.Prelude.{until_zero}
use pweb.Prelude.{
  ℕ, ◌+◌, ◌-◌, ◌%◌, Bool, true, false, ◌||◌, Option, none, some, Bytes, List, [], ◌∷◌, ◌++◌, length,
  take, drop, ltb, leb, ◌==◌, if◌then◌else◌,
}
use pweb.Klink.Codec.{get_int}
use pweb.Klink.OverlayId.{sign_extend}
use pweb.Dns.Header.{Rcode, r_success, r_server_failure, r_name_error}
use pweb.Dns.Record.{DnsQuestion, DnsRr}
use pweb.Dns.Query.{DnsQuery}
use pweb.Dns.QueryMap.{QueryMap, remove}
use pweb.Dns.HaRequest.{complete, unused_abs_header_len}

-- What `ip::address::from_string` makes of a text: the bytes of an address, or an error.
pub data Address : Type 0 where
  v4 v6 : Bytes → Address

-- How a connection ends: a query is completed, no query has the sequence number, the connection is
-- given up, or the program reads in front of its buffer.
pub data Ending : Type 0 where
  answers : DnsQuery → Ending
  unmatched : Ending
  gives_up : Ending
  faults : Ending

abbrev pub Queries : Type 0
Queries = QueryMap DnsQuery

-- `async_read` of `n` bytes into `buf_`, which has 256 and clamps `n`: what is read and what is
-- left of the stream, or an error at the end of the stream.
unfoldable pub async_read : ℕ → Bytes → Option (Bytes × Bytes)
async_read n stream =
    let size = if ltb 256 n then 256 else n in
    if leb size (length stream) then some (take size stream, drop size stream) else none

-- `read_abs_int` of the last four of the bytes that were transferred.
unfoldable pub last_int : Bytes → Option ℕ
last_int buf =
    if ltb (length buf) 4
    then none
    else elim (get_int (drop (length buf - 4) buf)) [ none ↦ none | some (n, rest) ↦ some n ]

-- An `int` added to a `size_t`.
unfoldable pub size_with : ℕ → ℕ → ℕ
size_with n extra = (sign_extend n + extra) % 18446744073709551616

-- The record for an address.
unfoldable pub answer_record : ℕ → Bytes → Address → DnsRr
answer_record ttl name (v4 bytes) = record {
  name = name;
  rtype = 1;
  rclass = 1;
  ttl = ttl;
  rdlength = 4;
  rdata = bytes;
}
answer_record ttl name (v6 bytes) = record {
  name = name;
  rtype = 28;
  rclass = 1;
  ttl = ttl;
  rdlength = 16;
  rdata = bytes;
}

unfoldable pub add_answer : DnsQuery → DnsRr → DnsQuery
add_answer query rr = record query { answers = query.answers ++ rr ∷ [] }

-- The name of the first question; a query without one is never sent.
unfoldable pub first_name : DnsQuery → Bytes
first_name query = elim query.questions [ [] ↦ [] | question ∷ rest ↦ question.name ]

-- A signed comparison: a negative number passes it and is cut to 16 bits. A number that does not
-- pass leaves `sequence_` at 0.
unfoldable pub sequence_of : ℕ → ℕ
sequence_of sequence =
    if ltb 65535 sequence then if ltb sequence 2147483648 then 0 else sequence % 65536 else sequence

module _ (from_string : Bytes → Option Address) (ttl : ℕ) where
  -- The query, when it is found, and what the buffer holds.
  unfoldable pub answer_query : ℕ → Bytes → DnsQuery → DnsQuery
  answer_query hostlen buf query =
      if hostlen == 0
      then complete query r_name_error
      else if ltb hostlen 256
      then elim (from_string (until_zero (take hostlen buf))) [
        | none ↦ complete query r_server_failure
        | some address ↦
            complete (add_answer query (answer_record ttl (first_name query) address)) r_success
      ]
      else complete query r_server_failure

  unfoldable pub handle_read_to_devicenamelen :
      ℕ → ℕ → Option (Bytes × Bytes) → Queries → Queries × Ending
  handle_read_to_devicenamelen sequence hostlen read queries =
      let (queries', query) = remove sequence queries in
      elim read [
        | none ↦ elim query [
          | none ↦ (queries', gives_up)
          | some q ↦ (queries', answers (complete q r_server_failure))
        ]
        | some (buf, stream) ↦ elim (last_int buf) [
          | none ↦ (queries, faults)
          | some devicenamelen ↦ elim query [
            | none ↦ (queries', unmatched)
            | some q ↦ (queries', answers (answer_query hostlen buf q))
          ]
        ]
      ]

  unfoldable pub handle_read_to_replyhostlen :
      ℕ → Option (Bytes × Bytes) → Queries → Queries × Ending
  handle_read_to_replyhostlen sequence read queries = elim read [
    | none ↦ (queries, gives_up)
    | some (buf, stream) ↦ elim (last_int buf) [
      | none ↦ (queries, faults)
      | some hostlen ↦
          handle_read_to_devicenamelen sequence (sign_extend hostlen)
            (async_read (size_with hostlen 8) stream) queries
    ]
  ]

  unfoldable pub handle_absheader_read : ℕ → Option (Bytes × Bytes) → Queries → Queries × Ending
  handle_absheader_read sequence read queries = elim read [
    | none ↦ (queries, gives_up)
    | some (buf, stream) ↦ handle_read_to_replyhostlen sequence (async_read 40 stream) queries
  ]

  unfoldable pub handle_read_to_srchostlen : ℕ → Option (Bytes × Bytes) → Queries → Queries × Ending
  handle_read_to_srchostlen sequence read queries = elim read [
    | none ↦ (queries, gives_up)
    | some (buf, stream) ↦ elim (last_int buf) [
      | none ↦ (queries, faults)
      | some srchostlen ↦
          handle_absheader_read sequence
            (async_read (size_with srchostlen (4 + unused_abs_header_len)) stream) queries
    ]
  ]

  unfoldable pub handle_read_to_desthostlen : Option (Bytes × Bytes) → Queries → Queries × Ending
  handle_read_to_desthostlen none queries = (queries, gives_up)
  handle_read_to_desthostlen (some ([], stream)) queries = (queries, faults)
  handle_read_to_desthostlen (some (msgtype ∷ buf, stream)) queries =
      if msgtype == 43
      then elim (get_int buf) [
        | none ↦ (queries, faults)
        | some (sequence, behind) ↦ elim (last_int (msgtype ∷ buf)) [
          | none ↦ (queries, faults)
          | some desthostlen ↦
              handle_read_to_srchostlen (sequence_of sequence)
                (async_read (size_with desthostlen 8) stream) queries
        ]
      ]
      else (queries, gives_up)

  -- `start`, for all that the home agent sends.
  unfoldable pub receive : Bytes → Queries → Queries × Ending
  receive stream queries = handle_read_to_desthostlen (async_read 9 stream) queries
