-- ===== src/Dns/Samples.antt =====
-- Queries for the tests, and a tokenizer that cuts a text at its dots.
use Prim.Native.Char.{code}
use Prim.Native.String.{String}
use pweb.Prelude.{
  ℕ, ◌<◌, ◌≤◌, ◌≡◌, Bool, refl, ap, ◌∙◌, true, false, Bytes, List, [], ◌∷◌, ◌++◌, append_assoc,
  append-nil, length, ◌==◌, if◌then◌else◌, arith, inl, inr, Bool-cases, replicate,
}
use pweb.Dns.Wire.{Out}
use pweb.Dns.Name.{dotted}
use pweb.Dns.Name.RoundTrip.{IsLabel, AllLabels, NoDot, IsTokenizer}
use pweb.Dns.Record.{DnsQuestion, DnsRr}
use pweb.Dns.Record.RoundTrip.{IsName, IsQuestion, IsRr}
use pweb.Dns.Header.{r_success}
use pweb.Dns.Query.{DnsQuery}
use pweb.Dns.Query.RoundTrip.{IsQuery}

-- Code points; every literal below is ASCII.
abbrev pub codes : String → Bytes
codes String.[] = []
codes (String.◌∷◌ c s) = code c ∷ codes s

abbrev pub flush : Bytes → List Bytes → List Bytes
flush [] ls = ls
flush (c ∷ cs) ls = (c ∷ cs) ∷ ls

abbrev pub cut : Bytes → Bytes → List Bytes
cut token [] = flush token []
cut token (c ∷ cs) = if c == b'.' then flush token (cut [] cs) else cut (token ++ c ∷ []) cs

abbrev pub split_dots : Bytes → List Bytes
split_dots s = cut [] s

pub cut-label :
    (label token rest : Bytes)
    → NoDot label
    → cut token (label ++ (b'.' ∷ rest)) ≡ flush (token ++ label) (cut [] rest)
cut-label [] token rest w = rw append-nil
cut-label (c ∷ cs) token rest w =
    let other : (c == b'.') ≡ false = ground (arith, w.0) in
    rw other (cut-label cs (token ++ c ∷ []) rest w.1 ∙ rw append_assoc)

pub flush_nonempty :
    (token : Bytes) (ls : List Bytes) → 0 < length token → flush token ls ≡ token ∷ ls
flush_nonempty [] ls h = absurd (omega arith)
flush_nonempty (c ∷ cs) ls h = refl

pub split_dots-IsTokenizer : IsTokenizer split_dots
split_dots-IsTokenizer [] w = refl
split_dots-IsTokenizer (l ∷ ls) w =
    cut-label l [] (dotted ls) w.0.no_dot
    ∙ flush_nonempty l _ w.0.nonempty
    ∙ ap (◌∷◌ l) (split_dots-IsTokenizer ls w.1)

abbrev pub labels : List Bytes
labels = codes "cam" ∷ codes "uw" ∷ []

abbrev pub no_dot? : Bytes → Bool
no_dot? [] = true
no_dot? (c ∷ cs) = if c == b'.' then false else no_dot? cs

pub no_dot?-NoDot : (cs : Bytes) → no_dot? cs ≡ true → NoDot cs
no_dot?-NoDot [] e = tt
no_dot?-NoDot (c ∷ cs) e = elim (Bool-cases (c == b'.')) [
  | inl dot ↦ absurd (ground (arith, dot, e))
  | inr other ↦ (ground (arith, other), no_dot?-NoDot cs (rw other at e))
]

pub is_label : (l : Bytes) → 0 < length l → length l ≤ 63 → no_dot? l ≡ true → IsLabel l
is_label l h k e = record { nonempty = h; short = k; no_dot = no_dot?-NoDot l e }

pub labels-AllLabels : AllLabels labels
labels-AllLabels = (
  is_label (codes "cam") (omega arith) (omega arith) refl,
  (is_label (codes "uw") (omega arith) (omega arith) refl, tt),
)

-- Four labels of 63 bytes, and one byte less in the last of four.
abbrev pub a63 : Bytes
a63 = replicate 63 b'a'

abbrev pub a60 : Bytes
a60 = replicate 60 b'a'

pub a63-IsLabel : IsLabel a63
a63-IsLabel = is_label a63 (omega arith) (omega arith) refl

pub a60-IsLabel : IsLabel a60
a60-IsLabel = is_label a60 (omega arith) (omega arith) refl

abbrev pub too_many : List Bytes
too_many = a63 ∷ a63 ∷ a63 ∷ a63 ∷ []

pub too_many-AllLabels : AllLabels too_many
too_many-AllLabels = (a63-IsLabel, (a63-IsLabel, (a63-IsLabel, (a63-IsLabel, tt))))

abbrev pub long : List Bytes
long = a63 ∷ a63 ∷ a63 ∷ a60 ∷ []

pub long-AllLabels : AllLabels long
long-AllLabels = (a63-IsLabel, (a63-IsLabel, (a63-IsLabel, (a60-IsLabel, tt))))

pub cam-IsName : IsName (dotted labels)
cam-IsName = record {
  labels = labels;
  text = refl;
  all_labels = labels-AllLabels;
  short = omega arith;
}

pub long-IsName : IsName (dotted long)
long-IsName = record {
  labels = long;
  text = refl;
  all_labels = long-AllLabels;
  short = omega arith;
}

abbrev pub question : Bytes → DnsQuestion
question name = record { name = name; qtype = 1; qclass = 1 }

abbrev pub answer : Bytes → DnsRr
answer name = record {
  name = name;
  rtype = 1;
  rclass = 1;
  ttl = 60;
  rdlength = 4;
  rdata = 10 ∷ 0 ∷ 0 ∷ 7 ∷ [];
}

pub question-IsQuestion : {name : Bytes} → IsName name → IsQuestion (question name)
question-IsQuestion n = record { is_name = n; type_short = omega arith; class_short = omega arith }

pub answer-IsRr : {name : Bytes} → IsName name → IsRr (answer name)
answer-IsRr n = record {
  is_name = n;
  type_short = omega arith;
  class_short = omega arith;
  ttl_word = omega arith;
  data_length = refl;
  data_short = omega arith;
}

-- The query that the gateway sends back for an address that it found.
abbrev pub answered : Bytes → DnsQuery
answered name = record {
  id = 4660;
  rd = true;
  rcode = r_success;
  questions = question name ∷ [];
  answers = answer name ∷ [];
  authorities = [];
  additionals = [];
}

pub answered-IsQuery : {name : Bytes} → IsName name → IsQuery (answered name)
answered-IsQuery n = record {
  id_short = omega arith;
  questions_few = omega arith;
  answers_few = omega arith;
  authorities_few = omega arith;
  all_questions = (question-IsQuestion n, tt);
  all_answers = (answer-IsRr n, tt);
  all_authorities = tt;
  no_additionals = refl;
}

abbrev pub cam : DnsQuery
cam = answered (dotted labels)

abbrev pub cam-IsQuery : IsQuery cam
cam-IsQuery = answered-IsQuery cam-IsName

abbrev pub room_for : ℕ → Out
room_for room = record { written = []; room = room }
