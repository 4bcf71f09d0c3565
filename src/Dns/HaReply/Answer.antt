-- ===== src/Dns/HaReply/Answer.antt =====
-- What becomes of a query when the reply of its home agent is in,
-- `handle_read_to_devicenamelen` of dnsgw/haproxy.cpp.
use pweb.Prelude.{ℕ, ◌≡◌, refl, ap, ◌∙◌, sym, Option, some, Bytes, [], length}
use pweb.Klink.Message.GetReply.{MessageGetReply}
use pweb.Dns.Header.{r_name_error}
use pweb.Dns.Query.{DnsQuery}
use pweb.Dns.QueryMap.{remove}
use pweb.Dns.HaRequest.{complete}
use pweb.Dns.HaReply.{Address, answers, Queries, answer_query, receive}
use pweb.Dns.HaReply.Interop.{IsReply, answers_found}
use pweb.Dns.HaReply.Chunks.{stream, chunk5, serialize-stream}

answer_query-empty :
    (from_string : Bytes → Option Address) (ttl : ℕ) (buf : Bytes) (query : DnsQuery)
    → answer_query from_string ttl 0 buf query ≡ complete query r_name_error
unfolding answer_query
answer_query-empty from_string ttl buf query = refl

-- From the bytes that `MessageGET_REPLY::serialize` makes for a device that the home agent does not
-- know, whose host name is empty, the waiting query is taken out of the map and completed as a name
-- error.
pub receive-unknown :
    (from_string : Bytes → Option Address) (ttl : ℕ) (m : MessageGetReply) (sequence : ℕ)
    (queries queries' : Queries) (query : DnsQuery) (b : Bytes)
    → IsReply m sequence
    → pweb.Klink.Message.GetReply.serialize m ≡ some b
    → remove sequence queries ≡ (queries', some query)
    → m.host_address.host_name ≡ []
    → receive from_string ttl b queries ≡ (queries', answers (complete query r_name_error))
receive-unknown from_string ttl m sequence queries queries' query b w made waiting unknown =
    let same : b ≡ stream m = cc (sym made ∙ serialize-stream m) in
    let none_sent : length m.host_address.host_name ≡ 0 = rw unknown in
    rw same (
      answers_found from_string ttl m sequence w queries queries' query waiting
      ∙ ap (λ q. (queries', answers q))
          (rw none_sent (answer_query-empty from_string ttl (chunk5 m) query)))
