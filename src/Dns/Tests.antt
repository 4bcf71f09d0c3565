-- ===== src/Dns/Tests.antt =====
-- Runs of the models on concrete queries.
use pweb.Prelude.{◌≤◌, ◌≡◌, refl, true, false, [], ◌∷◌, ◌++◌, length, arith}
use pweb.Dns.Wire.{ok, err, Out, emit, out_of_fuel, unexpected_end, invalid_name_length}
use pweb.Dns.Name.{parse_name, write_name, dotted, on_wire}
use pweb.Dns.Name.RoundTrip.{parse_name-on_wire, write_name-dotted, unanswerable}
use pweb.Dns.Record.{DnsQuestion, DnsRr, parse_question, parse_rr, write_question, write_rr}
use pweb.Dns.Header.{r_success, r_name_error}
use pweb.Dns.Header.Laws.{IsResponse, HasNumbers}
use pweb.Dns.Query.{DnsQuery, parse_dns_query, compose_dns_header, compose_dns_response}
use pweb.Dns.Query.RoundTrip.{
  response_bytes, compose_dns_response-emit, compose_dns_header-fields, parse-compose,
}
use pweb.Dns.Query.Bounds.{
  questions_size, rrs_size, response_size, length-response_bytes, long_name_overflows,
}
use pweb.Dns.Samples.{
  split_dots, split_dots-IsTokenizer, labels, labels-AllLabels, too_many, too_many-AllLabels, long,
  long-IsName, question, answer, answered, answered-IsQuery, cam, cam-IsQuery, room_for,
}
use pweb.Dns.LoadBalancer.{sanity_check, dispatched, process_query}
use pweb.Dns.LoadBalancer.Rotation.{process_query-first_enabled}
use pweb.Prelude.{ℕ, Bool, false, if◌then◌else◌, ◌==◌}
use pweb.Klink.LookupTable.{find}
use pweb.Dns.QueryMap.{QueryMap, itself, insert, remove, run_handler}
use pweb.Dns.QueryMap.Timeout.{remove-remove, reused_id_times_out}
use pweb.Dns.UdpSpeaker.{new_udp_speaker, compose_within, compose_reply}
use pweb.Dns.ReplyQueue
use pweb.Dns.ReplyQueue.Runs.{World, start, reply, Reaches, starts, replies, IsSound}
use pweb.Dns.ReplyQueue.Drain.{drain}
use pweb.Dns.UdpSpeaker.Queue.{Reaches-IsSound}
use pweb.Dns.UdpSpeaker.Drain.{FitsIn, drain-sends-accepted}
use pweb.Prelude.{none, suc}
use pweb.Prelude.{All}

parse_name-on_wire_example :
    parse_name (on_wire labels ++ 0 ∷ 1 ∷ []) ≡ ok (dotted labels, 0 ∷ 1 ∷ [])
parse_name-on_wire_example = parse_name-on_wire labels (0 ∷ 1 ∷ []) labels-AllLabels (omega arith)

write_name-dotted_example :
    write_name split_dots (dotted labels) (room_for 500) ≡ emit (on_wire labels) (room_for 500)
write_name-dotted_example =
    write_name-dotted split_dots labels (room_for 500) split_dots-IsTokenizer labels-AllLabels
      (omega arith)

unanswerable_example :
    (parse_name (on_wire too_many ++ []) ≡ ok (dotted too_many, []))
    × (write_name split_dots (dotted too_many) (room_for 500)
        ≡ err (invalid_name_length (length (dotted too_many))))
unanswerable_example =
    unanswerable split_dots too_many [] (room_for 500) too_many-AllLabels (omega arith)
      (omega arith)

compose_dns_response-emit_example :
    compose_dns_response split_dots cam (room_for 500)
    ≡ emit (response_bytes cam cam-IsQuery) (room_for 500)
compose_dns_response-emit_example =
    compose_dns_response-emit split_dots cam cam-IsQuery (room_for 500) split_dots-IsTokenizer

compose_dns_header-fields_example :
    IsResponse (compose_dns_header cam) true r_success
    × HasNumbers (compose_dns_header cam) 4660 1 1 0 0
compose_dns_header-fields_example = compose_dns_header-fields cam cam-IsQuery

cam_size : response_size cam ≡ 34
unfolding questions_size rrs_size
cam_size = refl

cam_fits : length (response_bytes cam cam-IsQuery) ≤ 500
cam_fits = omega (arith, length-response_bytes cam cam-IsQuery, cam_size)

parse-compose_example :
    (o : Out) × (compose_dns_response split_dots cam (room_for 500) ≡ ok o)
    × (parse_dns_query (compose_dns_header cam) o.written ≡ ok (record cam { rcode = r_success }))
parse-compose_example = parse-compose split_dots cam cam-IsQuery 500 split_dots-IsTokenizer cam_fits

long_name_overflows_example :
    compose_dns_response split_dots (answered (dotted long)) (room_for 500) ≡ err unexpected_end
long_name_overflows_example =
    long_name_overflows split_dots (answered (dotted long)) (question (dotted long))
      (answer (dotted long)) split_dots-IsTokenizer (answered-IsQuery long-IsName) refl refl refl
      refl (omega arith)

-- Two replies: one is being sent, the other waits.
abbrev one_reply : World
one_reply = reply 50 (compose_reply split_dots) cam start

abbrev two_replies : World
two_replies = reply 50 (compose_reply split_dots) cam one_reply

two_replies_run : (two_replies.speaker.reply_buf ≡ cam ∷ []) × (two_replies.failed ≡ false)
unfolding reply pweb.Dns.ReplyQueue.send_reply start compose_within compose_dns_response
    pweb.Dns.Wire.◌then_write◌ pweb.Dns.Query.write_all write_question write_name
    pweb.Dns.Name.write_labels pweb.Dns.Name.write_label pweb.Dns.Name.write_label_len emit
    pweb.Dns.Wire.write_short write_rr pweb.Dns.Wire.write_ulong pweb.Dns.Record.write_rdata
two_replies_run = (refl, refl)

two_replies-Reaches : Reaches 50 (compose_reply split_dots) two_replies
two_replies-Reaches = replies cam (replies cam starts)

Reaches-IsSound_example : IsSound 50 (compose_reply split_dots) two_replies
Reaches-IsSound_example = Reaches-IsSound split_dots two_replies two_replies-Reaches

waiting-FitsIn : All (FitsIn 500) two_replies.speaker.reply_buf
waiting-FitsIn =
    rw two_replies_run.0 (record { is_query = cam-IsQuery; fits = omega (arith, cam_size) }, tt)

drain-sends-accepted_example :
    let after =
      drain 50
        (compose_reply split_dots)
        (suc (length two_replies.speaker.reply_buf))
        two_replies in
    (after.sent ≡ two_replies.accepted) × (after.speaker ≡ new_udp_speaker)
drain-sends-accepted_example =
    drain-sends-accepted split_dots two_replies split_dots-IsTokenizer two_replies-Reaches
      two_replies_run.1 waiting-FitsIn

-- Three home agents by their numbers, the second one disabled.
abbrev is_up : ℕ → Bool
is_up n = if n == 2 then false else true

sane : sanity_check cam ≡ none
unfolding sanity_check
sane = refl

process_query-first_enabled_example : process_query is_up 4 (1 ∷ 2 ∷ 3 ∷ []) cam ≡ (5, dispatched 3)
process_query-first_enabled_example =
    process_query-first_enabled is_up 4 (1 ∷ 2 ∷ 3 ∷ []) cam sane (omega arith) (omega arith)

-- A map of numbers, each a query with the identifier 7.
abbrev seven : ℕ → ℕ
seven n = 7

abbrev nothing : QueryMap ℕ
nothing = record { map = []; armed = []; due = []; timed_out = [] }

nothing_run : find itself 7 nothing.map ≡ none
unfolding find
nothing_run = refl

abbrev waiting : QueryMap ℕ
waiting = record { map = (7, 1) ∷ []; armed = 7 ∷ []; due = []; timed_out = [] }

remove-remove_example : (remove 7 (remove 7 waiting).0).1 ≡ none
remove-remove_example = remove-remove 7 waiting tt

reused_id_times_out_example :
    let answered = (remove 7 (insert seven 1 nothing).0).0 in
    let after = run_handler (insert seven 2 answered).0 in
    ((insert seven 2 answered).1 ≡ true)
    × (after.timed_out ≡ (2, r_name_error) ∷ [])
    × (find itself 7 after.map ≡ none)
reused_id_times_out_example = reused_id_times_out seven 1 2 nothing tt nothing_run refl refl
