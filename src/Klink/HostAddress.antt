-- ===== src/Klink/HostAddress.antt =====
-- The comparisons of addresses, dnsgw_test_ha/klink/plnode/ds/host_address.h.
mod Tests
use pweb.Prelude.{
  ℕ, zero, suc, ◌+◌, ◌%◌, ◌<◌, ◌≤◌, ◌≡◌, refl, sym, ap, ◌∙◌, inl, inr, Bool, true, false, ◌&&◌,
  Bool-cases, Bytes, List, [], ◌∷◌, ◌++◌, length, length-append, ltb, ◌==◌, if◌then◌else◌, arith,
}
use pweb.Klink.OverlayId.{HostAddress}

-- The sign of what `strncmp` returns.
pub data Sign : Type 0 where
  below same above : Sign

abbrev pub sign_of : ℕ → ℕ → Sign → Sign
sign_of a b rest =
    if ltb a b then below else if ltb b a then above else if a == 0 then same else rest

-- At most `n` characters, up to a zero; a `c_str` has one behind its characters.
abbrev pub strncmp : ℕ → Bytes → Bytes → Sign
strncmp zero s t = same
strncmp (suc n) [] [] = same
strncmp (suc n) [] (b ∷ bs) = sign_of 0 b same
strncmp (suc n) (a ∷ as') [] = sign_of a 0 same
strncmp (suc n) (a ∷ as') (b ∷ bs) = let rest = strncmp n as' bs in sign_of a b rest

abbrev pub min_length : HostAddress → HostAddress → ℕ
min_length a b =
    let n = length a.host_name in if ltb (length b.host_name) n then length b.host_name else n

-- An `int` with its sign.
abbrev pub signed_ltb : ℕ → ℕ → Bool
signed_ltb a b = ltb ((a + 2147483648) % 4294967296) ((b + 2147483648) % 4294967296)

-- `operator <`
unfoldable pub less : HostAddress → HostAddress → Bool
less a b = elim (strncmp (min_length a b) a.host_name b.host_name) [
  | below ↦ true
  | same ↦ signed_ltb a.host_port b.host_port
  | above ↦ signed_ltb a.host_port b.host_port
]

-- `operator ==`
unfoldable pub same_address : HostAddress → HostAddress → Bool
same_address a b = elim (strncmp (min_length a b) a.host_name b.host_name) [
  | below ↦ false
  | same ↦ a.host_port == b.host_port
  | above ↦ false
]

strncmp-prefix : (s t : Bytes) → strncmp (length s) s (s ++ t) ≡ same
strncmp-prefix [] t = refl
strncmp-prefix (c ∷ cs) t =
    let not_below : ltb c c ≡ false = ground arith in
    elim (Bool-cases (c == 0)) [
      | inl ends ↦ rw (not_below, ends)
      | inr more ↦ rw (not_below, more) (strncmp-prefix cs t)
    ]

-- An address is the same as every address with its port and a longer host name that begins with
-- its host name.
pub same_address-prefix :
    (s t : Bytes) (port : ℕ)
    → same_address
        (record { host_name = s; host_port = port })
        (record { host_name = s ++ t; host_port = port })
      ≡ true
unfolding same_address
same_address-prefix s t port =
    let short : ltb (length (s ++ t)) (length s) ≡ false = ground (arith, length-append s t) in
    let same_port : (port == port) ≡ true = ground arith in
    rw (short, same_address) (rw (strncmp-prefix s t) same_port)

sign_of-flip :
    (a b : ℕ) (r r' : Sign)
    → (r ≡ below → r' ≡ above)
    → sign_of a b r ≡ below
    → sign_of b a r' ≡ above
sign_of-flip a b r r' f e = elim (Bool-cases (ltb a b)) [
  | inl less_than ↦
      let not_more : ltb b a ≡ false = ground (arith, less_than) in rw (not_more, less_than)
  | inr not_less ↦ elim (Bool-cases (ltb b a)) [
    | inl more ↦ absurd (cc (rw (not_less, more) at e))
    | inr not_more ↦
        let equal : a ≡ b = ground (arith, not_less, not_more) in
        elim (Bool-cases (a == 0)) [
          | inl ends ↦ absurd (cc (rw (not_less, not_more, ends) at e))
          | inr goes_on ↦
              let behind = rw (not_less, not_more, goes_on) at e in
              let goes_on' : (b == 0) ≡ false = rw equal at goes_on in
              rw (not_more, not_less, goes_on') (f behind)
        ]
  ]
]

strncmp-flip : (n : ℕ) (s t : Bytes) → strncmp n s t ≡ below → strncmp n t s ≡ above
strncmp-flip zero s t e = absurd (cc e)
strncmp-flip (suc n) [] [] e = absurd (cc e)
strncmp-flip (suc n) [] (b ∷ bs) e = sign_of-flip 0 b same same (λ h. absurd (cc h)) e
strncmp-flip (suc n) (a ∷ as') [] e = sign_of-flip a 0 same same (λ h. absurd (cc h)) e
strncmp-flip (suc n) (a ∷ as') (b ∷ bs) e =
    sign_of-flip a b (strncmp n as' bs) (strncmp n bs as') (strncmp-flip n as' bs) e

min_length_flip : (a b : HostAddress) → min_length b a ≡ min_length a b
min_length_flip a b = ground arith

-- The order of addresses is none: of two addresses, one with the smaller host name, up to the
-- shorter one's end, and the other with the smaller port, each is less than the other.
pub less_both_ways :
    (a b : HostAddress)
    → strncmp (min_length a b) a.host_name b.host_name ≡ below
    → signed_ltb b.host_port a.host_port ≡ true
    → (less a b ≡ true) × (less b a ≡ true)
unfolding less
less_both_ways a b names ports =
    let back = strncmp-flip (min_length a b) a.host_name b.host_name names in
    (rw (names, less), rw (min_length_flip a b, less) (rw back ports))
