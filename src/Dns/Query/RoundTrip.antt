-- ===== src/Dns/Query/RoundTrip.antt =====
-- A query that is composed is read back; the composed response is the sections' bytes in order.
use pweb.Prelude.{All}
use pweb.Prelude.{
  ℕ, ◌-◌, ◌<◌, ◌≤◌, ◌≡◌, refl, sym, ap, ◌∙◌, Bytes, List, [], ◌∷◌, ◌++◌, append_assoc, append-nil,
  length, arith,
}
use native.Mathlib.Nat.{mod-eq_of_lt}
use pweb.Dns.Wire.{ok, Parser, Out, emit, Writer}
use pweb.Dns.Wire.Laws.{bind_ok, write_step, emit-nil, emit_fits}
use pweb.Dns.Name.RoundTrip.{IsTokenizer}
use pweb.Dns.Record.{DnsRr, parse_question, parse_rr, write_question, write_rr}
use pweb.Dns.Record.RoundTrip.{
  IsQuestion, IsRr, question_bytes, rr_bytes, parse_question-question_bytes, parse_rr-rr_bytes,
  write_question-emit, write_rr-emit,
}
use pweb.Dns.Header.{r_success}
use pweb.Dns.Header.Laws.{
  layout, flags_form, counts_form, IsResponse, layout-IsResponse, HasNumbers, layout-HasNumbers,
}
use pweb.Dns.Query.{
  DnsQuery, parse_times, parse_sections, at_end, parse_dns_query, compose_dns_header, write_all,
  compose_dns_response,
}

abbrev pub bytes_of :
    {A : Type 0} {P : A → Type 0} → ((a : A) → P a → Bytes) → (as' : List A) → All P as' → Bytes
bytes_of b [] w = []
bytes_of b (a ∷ as') w = b a w.0 ++ bytes_of b as' w.1

-- A query as the gateway answers it.
pub record IsQuery (q : DnsQuery) : Type 0 where
  pub id_short : q.id < 65536
  pub questions_few : length q.questions < 65536
  pub answers_few : length q.answers < 65536
  pub authorities_few : length q.authorities < 65536
  pub all_questions : All IsQuestion q.questions
  pub all_answers : All IsRr q.answers
  pub all_authorities : All IsRr q.authorities
  pub no_additionals : q.additionals ≡ []

unfoldable pub response_bytes : (q : DnsQuery) → IsQuery q → Bytes
response_bytes q w =
    bytes_of question_bytes q.questions w.all_questions
    ++ (bytes_of rr_bytes q.answers w.all_answers
        ++ bytes_of rr_bytes q.authorities w.all_authorities)

module _ {A : Type 0} (P : A → Type 0) (b : (a : A) → P a → Bytes) where
  parse_times-bytes_of :
      (p : Parser A)
      → ((a : A) (w : P a) (rest : Bytes) → p (b a w ++ rest) ≡ ok (a, rest))
      → (as' : List A) (w : All P as') (rest : Bytes)
      → parse_times p (length as') (bytes_of b as' w ++ rest) ≡ ok (as', rest)
  unfolding parse_times
  parse_times-bytes_of p h [] w rest = refl
  parse_times-bytes_of p h (a ∷ as') w rest =
      rw append_assoc
        (bind_ok _ _ (h a w.0 _) (bind_ok _ _ (parse_times-bytes_of p h as' w.1 rest) refl))

  write_all-emit :
      (v : A → Writer)
      → ((a : A) (w : P a) (o : Out) → v a o ≡ emit (b a w) o)
      → (as' : List A) (w : All P as') (o : Out) → write_all v as' o ≡ emit (bytes_of b as' w) o
  unfolding write_all
  write_all-emit v h [] w o = sym (emit-nil o)
  write_all-emit v h (a ∷ as') w o =
      write_step (v a) (write_all v as') _ _ o (h a w.0) (write_all-emit v h as' w.1)

-- The response to a query that the gateway can answer is the bytes of its questions, answers and
-- authorities in order; composing it succeeds exactly if they fit into the buffer.
pub compose_dns_response-emit :
    (tokens : Bytes → List Bytes) (q : DnsQuery) (w : IsQuery q) (o : Out)
    → IsTokenizer tokens
    → compose_dns_response tokens q o ≡ emit (response_bytes q w) o
unfolding compose_dns_response response_bytes
compose_dns_response-emit tokens q w o t =
    write_step _ _ _ _ o
      (λ p.
        write_all-emit IsQuestion question_bytes (write_question tokens)
          (λ a v r. write_question-emit tokens a v r t) q.questions w.all_questions p)
      λ p. write_step _ _ _ _ p (rrs q.answers w.all_answers) λ r. rw (w.no_additionals) (
        write_step _ (write_all (write_rr tokens) []) _ [] r (rrs q.authorities w.all_authorities)
          none_left
        ∙ ap (λ bs. emit bs r) (append-nil _))
  where
    rrs :
        (as' : List DnsRr) (v : All IsRr as') (r : Out)
        → write_all (write_rr tokens) as' r ≡ emit (bytes_of rr_bytes as' v) r
    rrs as' v r =
        write_all-emit IsRr rr_bytes (write_rr tokens) (λ a u s. write_rr-emit tokens a u s t) as' v
          r

    none_left : (r : Out) → write_all (write_rr tokens) [] r ≡ emit [] r
    none_left r =
        write_all-emit IsRr rr_bytes (write_rr tokens) (λ a u s. write_rr-emit tokens a u s t) [] tt
          r

compose_dns_header-layout :
    (q : DnsQuery) (w : IsQuery q)
    → compose_dns_header q
      ≡ layout q.id q.rd q.rcode (length q.questions) (length q.answers) (length q.authorities) 0
unfolding compose_dns_header
compose_dns_header-layout q w =
    rw
      (
        mod-eq_of_lt w.questions_few,
        mod-eq_of_lt w.answers_few,
        mod-eq_of_lt w.authorities_few,
        w.no_additionals,
        flags_form q.id q.rd q.rcode,
      )
      (counts_form q.id q.rd q.rcode (length q.questions) (length q.answers) (length q.authorities)
        0)

pub length-compose_dns_header : (q : DnsQuery) → IsQuery q → length (compose_dns_header q) ≡ 12
length-compose_dns_header q w = rw (compose_dns_header-layout q w)

-- The header of a response: every flag that the source sets reads back as it was set, no other
-- is, and the identifier and the counts are those of the query.
pub compose_dns_header-fields :
    (q : DnsQuery)
    → IsQuery q
    → IsResponse (compose_dns_header q) q.rd q.rcode
      × HasNumbers
          (compose_dns_header q)
          q.id
          (length q.questions)
          (length q.answers)
          (length q.authorities)
          0
compose_dns_header-fields q w = rw (compose_dns_header-layout q w) (
  layout-IsResponse q.id q.rd q.rcode _ _ _ 0,
  layout-HasNumbers q.id q.rd q.rcode _ _ _ 0 w.id_short w.questions_few w.answers_few
      w.authorities_few (omega arith),
)

parse_sections-response_bytes :
    (q : DnsQuery) (w : IsQuery q)
    → parse_sections (compose_dns_header q) (response_bytes q w)
      ≡ ok (record q { rcode = r_success }, [])
unfolding parse_sections response_bytes
parse_sections-response_bytes q w =
    let (flags, numbers) = compose_dns_header-fields q w in
    rw
      (
        numbers.has_qdcount, numbers.has_ancount, numbers.has_nscount, numbers.has_arcount,
        numbers.has_id, flags.recursion_desired,
      )
      (bind_ok _ _
        (parse_times-bytes_of IsQuestion question_bytes parse_question parse_question-question_bytes
          q.questions w.all_questions _)
        (bind_ok _ _
          (parse_times-bytes_of IsRr rr_bytes parse_rr parse_rr-rr_bytes q.answers w.all_answers _)
          (bind_ok _ _
            (rw append-nil at (
              parse_times-bytes_of IsRr rr_bytes parse_rr parse_rr-rr_bytes q.authorities
                w.all_authorities []))
            (bind_ok _ _ nothing (rw w.no_additionals)))))
  where
    nothing : parse_times parse_rr 0 [] ≡ ok ([], [])
    nothing = unfold parse_times in refl

-- A query that the gateway can answer, composed into an empty buffer that holds it, is read back
-- by the gateway's own parser: all of it but the result code, which the parser does not look at.
pub parse-compose :
    (tokens : Bytes → List Bytes) (q : DnsQuery) (w : IsQuery q) (room : ℕ)
    → IsTokenizer tokens
    → length (response_bytes q w) ≤ room
    → (o : Out) × (compose_dns_response tokens q (record { written = []; room = room }) ≡ ok o)
      × (parse_dns_query (compose_dns_header q) o.written ≡ ok (record q { rcode = r_success }))
unfolding parse_dns_query at_end
parse-compose tokens q w room t h = (
  record { written = response_bytes q w; room = room - length (response_bytes q w) },
  compose_dns_response-emit tokens q w _ t ∙ emit_fits (response_bytes q w) _ h,
  rw (parse_sections-response_bytes q w, at_end),
)
