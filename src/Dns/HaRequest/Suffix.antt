-- ===== src/Dns/HaRequest/Suffix.antt =====
-- The device's name is the queried name without one of the suffixes, in either case of letters.
use pweb.Prelude.{
  ℕ, zero, suc, ◌-◌, ◌≡◌, ◌⊎◌, refl, sym, ap, ◌∙◌, inl, inr, false, Bytes, List, [], ◌∷◌, ◌++◌,
  length, length-append, take, drop, take-append, drop-append, ltb, Bool-cases, arith,
}
use pweb.Dns.Wire.{ok}
use pweb.Prelude.{same_bytes, same_bytes_sound, same_bytes_refl}
use pweb.Dns.HaRequest.{lower, remove_suffix}

take++drop : (n : ℕ) (s : Bytes) → take n s ++ drop n s ≡ s
take++drop zero s = refl
take++drop (suc n) [] = refl
take++drop (suc n) (c ∷ cs) = ap (◌∷◌ c) (take++drop n cs)

abbrev pub IsOneOf : Bytes → List Bytes → Type 0
IsOneOf s [] = ⊥
IsOneOf s (t ∷ ts) = (s ≡ t) ⊎ IsOneOf s ts

-- Whatever name is looked up at a home agent, the query's name is that name and an ending which is
-- one of the suffixes once its letters are lower case.
pub remove_suffix-IsOneOf :
    (name : Bytes) (suffixes : List Bytes) (devicename : Bytes)
    → remove_suffix name suffixes ≡ ok devicename
    → (ending : Bytes) × (name ≡ devicename ++ ending) × IsOneOf (lower ending) suffixes
unfolding remove_suffix
remove_suffix-IsOneOf name [] devicename e = absurd (cc e)
remove_suffix-IsOneOf name (s ∷ ss) devicename e =
    elim (Bool-cases (ltb (length name) (length s))) [
      | inl long ↦ absurd (cc (rw long at e))
      | inr short ↦
          let n = length name - length s in
          elim (Bool-cases (same_bytes (lower (drop n name)) s)) [
            | inl hit ↦
                let found : ok (take n name) ≡ ok devicename = rw (short, hit) at e in
                let same : take n name ≡ devicename = cc found in
                (
                  drop n name,
                  sym (take++drop n name) ∙ ap (λ d. d ++ drop n name) same,
                  inl (same_bytes_sound _ s hit),
                )
            | inr miss ↦
                let (ending, parts, one) =
                  remove_suffix-IsOneOf name ss devicename (rw (short, miss) at e) in
                (ending, parts, inr one)
          ]
    ]

-- With one suffix, a name that has it, in any case of letters, is looked up without it.
pub remove_suffix-append :
    (devicename ending : Bytes)
    → remove_suffix (devicename ++ ending) (lower ending ∷ []) ≡ ok devicename
unfolding remove_suffix
remove_suffix-append devicename ending =
    let total = length-append devicename ending in
    let n : length (devicename ++ ending) - length (lower ending) ≡ length devicename =
      omega (arith, total, length-lower ending) in
    let short : ltb (length (devicename ++ ending)) (length (lower ending)) ≡ false =
      ground (arith, total, length-lower ending) in
    rw (
      short,
      n,
      drop-append devicename ending,
      same_bytes_refl (lower ending),
      take-append devicename ending,
    )
  where
    length-lower : (s : Bytes) → length (lower s) ≡ length s
    length-lower [] = refl
    length-lower (c ∷ cs) = ap suc (length-lower cs)
