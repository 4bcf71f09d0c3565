-- ===== src/Dns/Record/RoundTrip.antt =====
-- Questions and records that are written are read back.
use pweb.Prelude.{
  ℕ, ◌<◌, ◌≤◌, ◌≡◌, refl, sym, ap, ◌∙◌, false, Bytes, List, [], ◌++◌, append_assoc, append-nil,
  length, take, take-append, ltb, arith,
}
use pweb.Dns.Wire.{ok, Out, emit, write_short, write_ulong, short_bytes, ulong_bytes}
use pweb.Dns.Wire.Laws.{
  bind_ok, write_step, parse_short-short_bytes, parse_ulong-ulong_bytes, parse_bytes-append,
}
use pweb.Dns.Name.{dotted, on_wire, write_name}
use pweb.Dns.Name.RoundTrip.{
  AllLabels, IsTokenizer, parse_name-on_wire, write_name-dotted, length-dotted,
}
use pweb.Dns.Record.{
  DnsQuestion, DnsRr, parse_question, parse_rdata, parse_rr, write_question, write_rdata, write_rr,
}

-- A name that both directions handle, as its labels.
pub record IsName (name : Bytes) : Type 0 where
  pub labels : List Bytes
  pub text : name ≡ dotted labels
  pub all_labels : AllLabels labels
  pub short : length name ≤ 255

unfoldable pub name_bytes : {name : Bytes} → IsName name → Bytes
name_bytes n = on_wire n.labels

pub record IsQuestion (q : DnsQuestion) : Type 0 where
  pub is_name : IsName q.name
  pub type_short : q.qtype < 65536
  pub class_short : q.qclass < 65536

-- A record as the gateway makes them: `rdlength` is the length of its data.
pub record IsRr (rr : DnsRr) : Type 0 where
  pub is_name : IsName rr.name
  pub type_short : rr.rtype < 65536
  pub class_short : rr.rclass < 65536
  pub ttl_word : rr.ttl < 4294967296
  pub data_length : rr.rdlength ≡ length rr.rdata
  pub data_short : length rr.rdata ≤ 1024

unfoldable pub question_bytes : (q : DnsQuestion) → IsQuestion q → Bytes
question_bytes q w = name_bytes w.is_name ++ (short_bytes q.qtype ++ short_bytes q.qclass)

unfoldable pub rr_bytes : (rr : DnsRr) → IsRr rr → Bytes
rr_bytes rr w =
    name_bytes w.is_name
    ++ (short_bytes rr.rtype
        ++ (short_bytes rr.rclass ++ (ulong_bytes rr.ttl ++ (short_bytes rr.rdlength ++ rr.rdata))))

parse_name-name_bytes :
    {name : Bytes} (n : IsName name) (rest : Bytes)
    → pweb.Dns.Name.parse_name (name_bytes n ++ rest) ≡ ok (name, rest)
unfolding name_bytes
parse_name-name_bytes n rest =
    parse_name-on_wire n.labels rest n.all_labels
      (omega (arith, length-dotted n.labels, rw n.text at n.short))
    ∙ rw n.text

write_name-name_bytes :
    (tokens : Bytes → List Bytes) {name : Bytes} (n : IsName name) (o : Out)
    → IsTokenizer tokens
    → write_name tokens name o ≡ emit (name_bytes n) o
unfolding name_bytes
write_name-name_bytes tokens n o t =
    rw n.text (write_name-dotted tokens n.labels o t n.all_labels (rw n.text at n.short))

-- A question whose name both directions handle, with a type and a class of 16 bits, is read back
-- from its bytes, and what follows them is left.
pub parse_question-question_bytes :
    (q : DnsQuestion) (w : IsQuestion q) (rest : Bytes)
    → parse_question (question_bytes q w ++ rest) ≡ ok (q, rest)
unfolding parse_question question_bytes
parse_question-question_bytes q w rest = rw append_assoc (
    bind_ok _ _ (parse_name-name_bytes w.is_name _) (
      bind_ok _ _ (parse_short-short_bytes q.qtype _ w.type_short)
        (bind_ok _ _ (parse_short-short_bytes q.qclass rest w.class_short) refl)))

-- Writing a question appends its bytes; it succeeds exactly if they fit into the room left.
pub write_question-emit :
    (tokens : Bytes → List Bytes) (q : DnsQuestion) (w : IsQuestion q) (o : Out)
    → IsTokenizer tokens
    → write_question tokens q o ≡ emit (question_bytes q w) o
unfolding write_question question_bytes write_short
write_question-emit tokens q w o t =
    write_step (write_name tokens q.name) _ (name_bytes w.is_name) _ o
      (λ p. write_name-name_bytes tokens w.is_name p t)
      (λ p.
        write_step (emit (short_bytes q.qtype)) (emit (short_bytes q.qclass)) _ _ p (λ r. refl)
          (λ r. refl))

parse_rdata-append :
    (rr : DnsRr) (rest : Bytes)
    → IsRr rr
    → parse_rdata rr.rdlength (rr.rdata ++ rest) ≡ ok (rr.rdata, rest)
unfolding parse_rdata
parse_rdata-append rr rest w =
    let short : ltb 1024 (length rr.rdata) ≡ false = ground (arith, w.data_short) in
    rw (w.data_length, short) (parse_bytes-append rr.rdata rest)

-- A record whose name both directions handle, whose fields are within their types and whose data
-- has the length that it states, at most 1024 bytes, is read back from its bytes, and what follows
-- them is left.
pub parse_rr-rr_bytes :
    (rr : DnsRr) (w : IsRr rr) (rest : Bytes) → parse_rr (rr_bytes rr w ++ rest) ≡ ok (rr, rest)
unfolding parse_rr rr_bytes
parse_rr-rr_bytes rr w rest = simp append_assoc (
    bind_ok _ _ (parse_name-name_bytes w.is_name _) (
      bind_ok _ _ (parse_short-short_bytes rr.rtype _ w.type_short) (
        bind_ok _ _ (parse_short-short_bytes rr.rclass _ w.class_short) (
          bind_ok _ _ (parse_ulong-ulong_bytes rr.ttl _ w.ttl_word) (
            bind_ok _ _ (parse_short-short_bytes rr.rdlength _ length_short)
              (bind_ok _ _ (parse_rdata-append rr rest w) refl))))))
  where
    length_short : rr.rdlength < 65536
    length_short = omega (arith, w.data_length, w.data_short)

take_all : (n : ℕ) (s : Bytes) → n ≡ length s → take n s ≡ s
take_all n s e = rw e (ap (take (length s)) (sym (append-nil s)) ∙ take-append s [])

write_rdata-emit : (rr : DnsRr) (o : Out) → IsRr rr → write_rdata rr o ≡ emit rr.rdata o
unfolding write_rdata
write_rdata-emit rr o w =
    let whole : ltb (length rr.rdata) rr.rdlength ≡ false = ground (arith, w.data_length) in
    rw (whole, take_all rr.rdlength rr.rdata w.data_length)

-- Writing such a record appends its bytes; it succeeds exactly if they fit into the room left.
pub write_rr-emit :
    (tokens : Bytes → List Bytes) (rr : DnsRr) (w : IsRr rr) (o : Out)
    → IsTokenizer tokens
    → write_rr tokens rr o ≡ emit (rr_bytes rr w) o
unfolding write_rr rr_bytes write_short write_ulong
write_rr-emit tokens rr w o t =
    write_step (write_name tokens rr.name) _ (name_bytes w.is_name) _ o
      (λ p. write_name-name_bytes tokens w.is_name p t)
      λ p.
        write_step (emit (short_bytes rr.rtype)) _ _ _ p (λ r. refl)
          λ q.
            write_step (emit (short_bytes rr.rclass)) _ _ _ q (λ r. refl)
              λ s.
                write_step (emit (ulong_bytes rr.ttl)) _ _ _ s (λ r. refl)
                  λ u.
                    write_step (emit (short_bytes rr.rdlength)) (write_rdata rr) _ _ u (λ r. refl)
                      λ v. write_rdata-emit rr v w
