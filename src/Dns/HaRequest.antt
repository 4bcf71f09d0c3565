-- ===== src/Dns/HaRequest.antt =====
-- The request that dnsgw/haproxy.cpp sends to a home agent: `remove_suffix`, the functions
-- `write_abs_*`, and class `hasendconnection`.
pub mod Interop
pub mod Suffix
mod Tests
use pweb.Prelude.{same_bytes}
use pweb.Prelude.{
  ℕ, ◌+◌, ◌-◌, ◌%◌, Bool, true, false, ◌&&◌, Option, none, some, Bytes, List, [], ◌∷◌, ◌++◌, length,
  take, drop, replicate, ltb, leb, ◌==◌, if◌then◌else◌,
}
use pweb.Dns.Wire.{Result, ok, err, no_suffix, out_of_range, Writer, Out, emit, ◌then_write◌}
use pweb.Dns.Header.{Rcode, r_server_failure, r_name_error}
use pweb.Dns.Query.{DnsQuery}
use pweb.Dns.QueryMap.{QueryMap, insert, remove}
use pweb.Klink.Codec.{put_int}

-- `::tolower` in the "C" locale.
abbrev pub to_lower : ℕ → ℕ
to_lower c = if leb 65 c && leb c 90 then c + 32 else c

abbrev pub lower : Bytes → Bytes
lower [] = []
lower (c ∷ cs) = to_lower c ∷ lower cs

-- `substr` throws if the suffix is longer than the name.
unfoldable pub remove_suffix : Bytes → List Bytes → Result Bytes
remove_suffix name [] = err no_suffix
remove_suffix name (suffix ∷ suffixes) =
    let rest = remove_suffix name suffixes in
    if ltb (length name) (length suffix)
    then err out_of_range
    else if same_bytes (lower (drop (length name - length suffix) name)) suffix
    then ok (take (length name - length suffix) name)
    else rest

-- A number of 32 bits as it lies in memory, low byte first.
unfoldable pub write_abs_int : ℕ → Writer
write_abs_int val = emit (put_int val)

unfoldable pub write_abs_string : Bytes → Writer
write_abs_string str = write_abs_int (length str) then_write emit str

unfoldable pub write_abs_zero : ℕ → Writer
write_abs_zero len = emit (replicate len 0)

-- The home agent and the name server, as a `hasendproxy` has them.
pub record Endpoints : Type 0 where
  pub hahostname : Bytes
  pub haport : ℕ
  pub nshostname : Bytes
  pub nsport : ℕ

abbrev pub unused_abs_header_len : ℕ
unused_abs_header_len = 38

unfoldable pub write_abs_header : ℕ → ℕ → Endpoints → Writer
write_abs_header msgid sequence e =
    emit (msgid ∷ [])
    then_write (write_abs_int sequence
        then_write (write_abs_string e.hahostname
            then_write (write_abs_int e.haport
                then_write (write_abs_string e.nshostname
                    then_write (write_abs_int e.nsport
                        then_write write_abs_zero unused_abs_header_len)))))

-- Only the name of the first question is looked up.
unfoldable pub write_abs_get : DnsQuery → List Bytes → Writer
write_abs_get query suffixes o = elim query.questions [
  | [] ↦ ok o
  | question ∷ rest ↦ elim (remove_suffix question.name suffixes) [
    | ok devicename ↦ write_abs_string devicename o
    | err e ↦ err e
  ]
]

-- The message in the constructor's buffer of 256 bytes; `ABS_GET` is 5.
unfoldable pub compose_request : Endpoints → List Bytes → DnsQuery → Result Out
compose_request e suffixes query =
    (write_abs_header 5 query.id e then_write write_abs_get query suffixes)
      (record { written = []; room = 256 })

-- What the constructor comes to: a connection is started with the message, or an exception leaves
-- it, with the query completed as a name error or, for a duplicate, without an answer.
pub data Started : Type 0 where
  connects : Bytes → Started
  rejects : DnsQuery → Started
  ignores : Started

unfoldable pub complete : DnsQuery → Rcode → DnsQuery
complete query rcode = record query { rcode = rcode }

abbrev pub query_id : DnsQuery → ℕ
query_id query = query.id

unfoldable pub process_query :
    Endpoints → List Bytes → DnsQuery → QueryMap DnsQuery → QueryMap DnsQuery × Started
process_query e suffixes query s = elim (compose_request e suffixes query) [
  | err x ↦ (s, rejects (complete query r_name_error))
  | ok o ↦
      let (s', inserted) = insert query_id query s in
      if inserted then (s', connects o.written) else (s', ignores)
]

-- `handle_connect` and `handle_query_sent` when they report an error: the query with the
-- identifier is removed, and this one is completed.
unfoldable pub connection_failed : DnsQuery → QueryMap DnsQuery → QueryMap DnsQuery × DnsQuery
connection_failed query s = ((remove query.id s).0, complete query r_server_failure)
