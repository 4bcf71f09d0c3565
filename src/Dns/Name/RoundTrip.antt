-- ===== src/Dns/Name/RoundTrip.antt =====
-- Names that are written are read back, and reading a name always ends.
use pweb.Prelude.{
  ℕ, zero, suc, ◌+◌, ◌<◌, ◌≤◌, ◌≡◌, ◌≢◌, refl, sym, false, ◌∙◌, inl, inr, Bytes, List, [], ◌∷◌,
  ◌++◌, append_assoc, append-nil, length, length-append, ltb, lt→ltb, ap, ◌==◌, Bool-cases, arith,
}
use pweb.Dns.Wire.{
  Result, ok, err, Parser, ◌>>=◌, parse_byte, Out, emit, ParseError, out_of_fuel,
  invalid_name_length,
}
use pweb.Dns.Wire.Laws.{bind_ok, bind_err, Result-cases, write_step, emit-nil}
use pweb.Dns.Name.{
  parse_label_len, parse_label, parse_labels, parse_name_within, parse_name, write_label_len,
  write_label, write_labels, write_name, dotted, on_wire,
}

abbrev pub NoDot : Bytes → Type 0
NoDot [] = Unit {0}
NoDot (c ∷ cs) = (c ≢ b'.') × NoDot cs

-- A label that the protocol allows and that the text form can tell from its neighbours.
pub record IsLabel (label : Bytes) : Type 0 where
  pub nonempty : 0 < length label
  pub short : length label ≤ 63
  pub no_dot : NoDot label

abbrev pub AllLabels : List Bytes → Type 0
AllLabels [] = Unit {0}
AllLabels (l ∷ ls) = IsLabel l × AllLabels ls

abbrev pub total : List Bytes → ℕ
total [] = 0
total (l ∷ ls) = length l + total ls

-- What boost documents of the tokenizer: it cuts the text at the dots, and drops empty tokens.
abbrev pub IsTokenizer : (Bytes → List Bytes) → Type 0
IsTokenizer tokens = (ls : List Bytes) → AllLabels ls → tokens (dotted ls) ≡ ls

parse_label-append :
    (label name rest : Bytes)
    → parse_label name (length label) (label ++ rest) ≡ ok (name ++ (label ++ b'.' ∷ []), rest)
unfolding parse_label
parse_label-append [] name rest = refl
parse_label-append (c ∷ cs) name rest =
    parse_label-append cs (name ++ c ∷ []) rest ∙ rw append_assoc

parse_label_len-short :
    (len : ℕ) (rest : Bytes) → len ≤ 63 → parse_label_len (len ∷ rest) ≡ ok (len, rest)
unfolding parse_label_len parse_byte ◌>>=◌
parse_label_len-short len rest h = ground arith

-- The number of rounds that a series of labels needs.
rounds : List Bytes → ℕ
rounds [] = 1
rounds (l ∷ ls) = suc (rounds ls)

-- The first length byte has been read: `first` is it, and `tail` is what follows it.
first : List Bytes → ℕ
first [] = 0
first (l ∷ ls) = length l

tail : List Bytes → Bytes
tail [] = []
tail (l ∷ ls) = l ++ on_wire ls

on_wire-first : (ls : List Bytes) → on_wire ls ≡ first ls ∷ tail ls
unfolding first tail
on_wire-first [] = refl
on_wire-first (l ∷ ls) = refl

first_short : (ls : List Bytes) → AllLabels ls → first ls ≤ 63
unfolding first
first_short [] w = omega arith
first_short (l ∷ ls) w = w.0.short

parse_labels-on_wire :
    (ls : List Bytes) (fuel name_len : ℕ) (name rest : Bytes)
    → AllLabels ls
    → rounds ls ≤ fuel
    → name_len + total ls ≤ 255
    → parse_labels fuel name_len (first ls) name (tail ls ++ rest) ≡ ok (name ++ dotted ls, rest)
unfolding parse_labels first tail rounds
parse_labels-on_wire [] zero name_len name rest w f h = absurd (omega arith)
parse_labels-on_wire [] (suc fuel) name_len name rest w f h = rw append-nil
parse_labels-on_wire (l ∷ ls) zero name_len name rest w f h = absurd (omega arith)
parse_labels-on_wire (l ∷ ls) (suc fuel) name_len name rest w f h =
    let more : (length l == 0) ≡ false = ground (arith, w.0.nonempty) in
    let short : ltb 255 (name_len + length l) ≡ false = ground (arith, h) in
    let next : parse_label_len (on_wire ls ++ rest) ≡ ok (first ls, tail ls ++ rest) =
      rw (on_wire-first ls) (parse_label_len-short _ _ (first_short ls w.1)) in
    rw (more, short, append_assoc l (on_wire ls) rest)
      (bind_ok _ _ (parse_label-append l name (on_wire ls ++ rest)) (
        bind_ok _ _ next (
          parse_labels-on_wire ls fuel (name_len + length l) _ rest w.1 (omega arith) (omega arith)
          ∙ simp append_assoc)))

length-on_wire : (ls : List Bytes) → AllLabels ls → rounds ls ≤ length (on_wire ls)
unfolding rounds
length-on_wire [] w = omega arith
length-on_wire (l ∷ ls) w = omega (arith, length-append l (on_wire ls), length-on_wire ls w.1)

-- A name whose labels have 1 to 63 bytes without a dot, 255 together, is read off the wire as its
-- text, and what follows it is left.
pub parse_name-on_wire :
    (ls : List Bytes) (rest : Bytes)
    → AllLabels ls
    → total ls ≤ 255
    → parse_name (on_wire ls ++ rest) ≡ ok (dotted ls, rest)
unfolding parse_name parse_name_within
parse_name-on_wire ls rest w h =
    let fits : 0 + total ls ≤ 255 = omega arith in
    let len : parse_label_len (on_wire ls ++ rest) ≡ ok (first ls, tail ls ++ rest) =
      rw (on_wire-first ls) (parse_label_len-short _ _ (first_short ls w)) in
    bind_ok _ _ len (
      parse_labels-on_wire ls _ 0 [] rest w
        (omega (arith, length-append (on_wire ls) rest, length-on_wire ls w)) fits)

-- What a parser of the model gives without running out of rounds: at least `k` bytes fewer, or an
-- error of the source.
data Ends (A : Type 0) (k : ℕ) (buf : Bytes) : Result (A × Bytes) → Type 0 where
  given : {a : A} {rest : Bytes} → length rest + k ≤ length buf → Ends A k buf (ok (a, rest))
  failed : {e : ParseError} → e ≢ out_of_fuel → Ends A k buf (err e)

Ends-le :
    {A : Type 0} {k j : ℕ} {buf buf' : Bytes} {r : Result (A × Bytes)}
    → Ends A k buf r
    → length buf + j ≤ length buf' + k
    → Ends A j buf' r
Ends-le (given h) p = given (omega arith)
Ends-le (failed h) p = failed h

Ends-ok :
    {A : Type 0} {k : ℕ} {buf rest : Bytes} {a : A} {r : Result (A × Bytes)}
    → Ends A k buf r
    → r ≡ ok (a, rest)
    → length rest + k ≤ length buf
Ends-ok (given h) e = ground arith
Ends-ok (failed h) e = cc

Ends-err :
    {A : Type 0} {k : ℕ} {buf : Bytes} {e : ParseError} {r : Result (A × Bytes)}
    → Ends A k buf r
    → r ≡ err e
    → e ≢ out_of_fuel
Ends-err (given h) e = cc
Ends-err (failed h) e = λ p. h (cc)

Ends-bind :
    {A B : Type 0} {k j : ℕ} {buf : Bytes} (m : Parser A) (f : A → Parser B)
    → Ends A k buf (m buf)
    → ((a : A) (rest : Bytes) → length rest + k ≤ length buf → Ends B j buf (f a rest))
    → Ends B j buf ((m >>= f) buf)
Ends-bind {A} {B} {k} {j} {buf} m f e g = elim (Result-cases (m buf)) [
  | inl ((a, rest), r) ↦ rw (bind_ok m f r refl) (g a rest (Ends-ok e r))
  | inr (e', r) ↦ rw (bind_err m f r) (failed (Ends-err e r))
]

parse_label-Ends : (len : ℕ) (name buf : Bytes) → Ends Bytes len buf (parse_label name len buf)
unfolding parse_label
parse_label-Ends zero name buf = given (omega arith)
parse_label-Ends (suc len) name [] = failed (λ e. cc)
parse_label-Ends (suc len) name (c ∷ rest) =
    Ends-le (parse_label-Ends len (name ++ c ∷ []) rest) (omega arith)

parse_label_len-Ends : (buf : Bytes) → Ends ℕ 1 buf (parse_label_len buf)
unfolding parse_label_len parse_byte ◌>>=◌
parse_label_len-Ends [] = failed (λ e. cc)
parse_label_len-Ends (c ∷ rest) = elim (Bool-cases (ltb 63 c)) [
  | inl long ↦ rw long (failed (λ e. cc))
  | inr short ↦ rw short (given (omega arith))
]

parse_labels-Ends :
    (fuel name_len label_len : ℕ) (name buf : Bytes)
    → length buf < fuel
    → Ends Bytes 0 buf (parse_labels fuel name_len label_len name buf)
unfolding parse_labels
parse_labels-Ends zero name_len label_len name buf h = absurd (omega arith)
parse_labels-Ends (suc fuel) name_len label_len name buf h = elim (Bool-cases (label_len == 0)) [
  | inl done ↦ rw done (given (omega arith))
  | inr more ↦ rw more (elim (Bool-cases (ltb 255 (name_len + label_len))) [
    | inl long ↦ rw long (failed (λ e. cc))
    | inr short ↦ rw short (
        Ends-bind _ _ (parse_label-Ends label_len name buf) λ name' rest p.
          Ends-le
            (Ends-bind {j = 0} _ _ (parse_label_len-Ends rest) λ next rest' q.
              Ends-le (parse_labels-Ends fuel (name_len + label_len) next name' rest' (omega arith))
                (omega arith))
            (omega arith))
  ])
]

-- Reading a name ends within the rounds allowed, on every input.
pub parse_name-ends : (buf : Bytes) → parse_name buf ≢ err out_of_fuel
unfolding parse_name parse_name_within
parse_name-ends buf =
    let ends : Ends Bytes 0 buf (parse_name_within (suc (length buf)) buf) =
      Ends-bind _ _ (parse_label_len-Ends buf) λ len rest p.
        Ends-le (parse_labels-Ends (suc (length buf)) 0 len [] rest (omega arith)) (omega arith) in
    λ e. Ends-err ends e refl

write_label_len-emit : (len : ℕ) (o : Out) → len ≤ 63 → write_label_len len o ≡ emit (len ∷ []) o
unfolding write_label_len emit
write_label_len-emit len o h = ground arith

label_bytes : List Bytes → Bytes
label_bytes [] = []
label_bytes (l ∷ ls) = (length l ∷ l) ++ label_bytes ls

on_wire-label_bytes : (ls : List Bytes) → on_wire ls ≡ label_bytes ls ++ 0 ∷ []
unfolding label_bytes
on_wire-label_bytes [] = refl
on_wire-label_bytes (l ∷ ls) =
    ap (◌∷◌ (length l))
      (rw (on_wire-label_bytes ls) (sym (append_assoc l (label_bytes ls) (0 ∷ []))))

write_labels-emit :
    (ls : List Bytes) (o : Out) → AllLabels ls → write_labels ls o ≡ emit (label_bytes ls) o
unfolding write_labels label_bytes write_label
write_labels-emit [] o w = sym (emit-nil o)
write_labels-emit (l ∷ ls) o w =
    write_step (write_label l) (write_labels ls) (length l ∷ l) (label_bytes ls) o
      (λ p.
        write_step (write_label_len (length l)) (emit l) (length l ∷ []) l p
          (λ q. write_label_len-emit (length l) q w.0.short) (λ q. refl))
      (λ p. write_labels-emit ls p w.1)

-- A text of at most 255 bytes made of such labels is written as their series on the wire: the
-- write succeeds exactly if that series fits into the room left.
pub write_name-dotted :
    (tokens : Bytes → List Bytes) (ls : List Bytes) (o : Out)
    → IsTokenizer tokens
    → AllLabels ls
    → length (dotted ls) ≤ 255
    → write_name tokens (dotted ls) o ≡ emit (on_wire ls) o
unfolding write_name
write_name-dotted tokens ls o t w h =
    let short : ltb 255 (length (dotted ls)) ≡ false = ground (arith, h) in
    rw (short, t ls w, on_wire-label_bytes ls)
      (write_step (write_labels ls) (emit (0 ∷ [])) (label_bytes ls) (0 ∷ []) o
        (λ p. write_labels-emit ls p w) (λ p. refl))

-- The two limits differ: the wire form may hold 255 bytes of labels, and the text has a dot more
-- for each label. A name between the limits is accepted from a client, and cannot be written into
-- any buffer.
pub unanswerable :
    (tokens : Bytes → List Bytes) (ls : List Bytes) (rest : Bytes) (o : Out)
    → AllLabels ls
    → total ls ≤ 255
    → 255 < length (dotted ls)
    → (parse_name (on_wire ls ++ rest) ≡ ok (dotted ls, rest))
      × (write_name tokens (dotted ls) o ≡ err (invalid_name_length (length (dotted ls))))
unfolding write_name
unanswerable tokens ls rest o w h long =
    (parse_name-on_wire ls rest w h, rw (lt→ltb 255 (length (dotted ls)) long))

pub length-dotted : (ls : List Bytes) → total ls ≤ length (dotted ls)
length-dotted [] = omega arith
length-dotted (l ∷ ls) = omega (arith, length-append l (b'.' ∷ dotted ls), length-dotted ls)
