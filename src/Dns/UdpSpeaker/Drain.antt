-- ===== src/Dns/UdpSpeaker/Drain.antt =====
-- What waits is sent, and the gateway does not answer its own responses.
use pweb.Prelude.{
  ℕ, suc, ◌≤◌, ◌≡◌, ◌∙◌, true, false, none, Bytes, List, [], ◌∷◌, ◌++◌, length, take, take-append,
  leb, le→leb, length-append, arith,
}
use pweb.Dns.Wire.{ok}
use pweb.Dns.Wire.Laws.{emit_fits}
use pweb.Dns.Name.RoundTrip.{IsTokenizer}
use pweb.Dns.Query.{DnsQuery, compose_dns_header}
use pweb.Prelude.{All}
use pweb.Dns.Query.RoundTrip.{
  IsQuery, response_bytes, compose_dns_response-emit, compose_dns_header-fields,
  length-compose_dns_header,
}
use pweb.Dns.Query.Bounds.{response_size, length-response_bytes}
use pweb.Dns.ReplyQueue.Runs.{World, Reaches}
use pweb.Dns.ReplyQueue.Drain.{drain, CanCompose, drain_whole}
use pweb.Dns.UdpSpeaker.{new_udp_speaker, handle_datagram_received, compose_within, compose_reply}

-- A query whose response fits into a send buffer.
pub record FitsIn (size : ℕ) (q : DnsQuery) : Type 0 where
  pub is_query : IsQuery q
  pub fits : response_size q ≤ size

pub compose_within-fits :
    (size : ℕ) (tokens : Bytes → List Bytes) (q : DnsQuery) (w : FitsIn size q)
    → IsTokenizer tokens
    → compose_within size tokens q ≡ ok (compose_dns_header q, response_bytes q w.is_query)
unfolding compose_within
compose_within-fits size tokens q w t =
    let short : length (response_bytes q w.is_query) ≤ size =
      omega (arith, length-response_bytes q w.is_query, w.fits) in
    let composed =
      compose_dns_response-emit tokens q w.is_query (record { written = []; room = size }) t
      ∙ emit_fits (response_bytes q w.is_query) _ short in
    rw (composed, compose_within)

pub fit_composed :
    (size capacity : ℕ) (tokens : Bytes → List Bytes) (qs : List DnsQuery)
    → IsTokenizer tokens
    → All (FitsIn size) qs
    → All (CanCompose capacity (compose_within size tokens)) qs
fit_composed size capacity tokens [] t all = tt
fit_composed size capacity tokens (q ∷ qs) t all =
    ((_, compose_within-fits size tokens q all.0 t), fit_composed size capacity tokens qs t all.1)

-- In a run in which no reply has thrown an exception, if every waiting query has a response of at
-- most 500 bytes, then as many reports of the socket as queries wait, and one more, send every query
-- that was accepted, in the order of their acceptance, and leave the speaker as a new one.
pub drain-sends-accepted :
    (tokens : Bytes → List Bytes) (w : World)
    → IsTokenizer tokens
    → Reaches 50 (compose_reply tokens) w
    → w.failed ≡ false
    → All (FitsIn 500) w.speaker.reply_buf
    → let after = drain 50 (compose_reply tokens) (suc (length w.speaker.reply_buf)) w in
      (after.sent ≡ w.accepted) × (after.speaker ≡ new_udp_speaker)
unfolding new_udp_speaker
drain-sends-accepted tokens w t r f all =
    drain_whole 50 (compose_reply tokens) w r f
      (fit_composed 500 50 tokens w.speaker.reply_buf t all)

-- A response of the gateway that comes back to it as a datagram is not handed to the processor,
-- whatever follows its header.
pub handle_datagram_received-response :
    (q : DnsQuery) (body : Bytes)
    → IsQuery q
    → handle_datagram_received (compose_dns_header q ++ body) ≡ none
unfolding handle_datagram_received
handle_datagram_received-response q body w =
    let header : take 12 (compose_dns_header q ++ body) ≡ compose_dns_header q =
      rw (← length-compose_dns_header q w) (take-append (compose_dns_header q) body) in
    let response = (compose_dns_header-fields q w).0.is_response in
    let long : leb 12 (length (compose_dns_header q ++ body)) ≡ true =
      le→leb 12 _
        (omega (arith, length-append (compose_dns_header q) body, length-compose_dns_header q w)) in
    rw (header, response, long)
