-- ===== src/Dns/Header/Laws.antt =====
-- What a header that was written field by field reads back as.
use Prim.Native.Nat.{bit_or}
use pweb.Prelude.{ℕ, ◌/◌, ◌%◌, ◌<◌, ◌≡◌, refl, Bool, true, false, [], ◌∷◌, if◌then◌else◌, arith}
use pweb.Dns.Header.{
  DnsQueryHeader, o_query, Rcode, r_success, rcode_value, clear, set_bit, write_short, set_rcode,
  id, qr, opcode, aa, tc, rd, ra, z, ad_cd, rcode, qdcount, ancount, nscount, arcount,
}

-- A header laid out: identifier, the two flag bytes, the four counts.
abbrev pub layout : ℕ → Bool → Rcode → ℕ → ℕ → ℕ → ℕ → DnsQueryHeader
layout i r c qd an ns ar =
    i / 256 % 256
    ∷ i % 256
    ∷ (if r then 0x85 else 0x84)
    ∷ rcode_value c
    ∷ qd / 256 % 256
    ∷ qd % 256
    ∷ an / 256 % 256
    ∷ an % 256
    ∷ ns / 256 % 256
    ∷ ns % 256
    ∷ ar / 256 % 256
    ∷ ar % 256
    ∷ []

or_zero : (c : Rcode) → bit_or 0 (rcode_value c) ≡ rcode_value c
or_zero r_success = refl
or_zero _ = refl

-- The first five writes of `compose_dns_header`.
pub flags_form :
    (i : ℕ) (r : Bool) (c : Rcode)
    → set_rcode
        (set_bit (set_bit (set_bit (write_short clear 0 i) 2 0x80 true) 2 0x04 true) 2 0x01 r)
        c
      ≡ layout i r c 0 0 0 0
unfolding set_rcode set_bit write_short clear
flags_form i true c = rw or_zero
flags_form i false c = rw or_zero

pub counts_form :
    (i : ℕ) (r : Bool) (c : Rcode) (qd an ns ar : ℕ)
    → write_short
        (write_short (write_short (write_short (layout i r c 0 0 0 0) 4 qd) 6 an) 8 ns)
        10
        ar
      ≡ layout i r c qd an ns ar
unfolding write_short
counts_form i r c qd an ns ar = refl

rcode-layout :
    (i : ℕ) (r : Bool) (c : Rcode) (qd an ns ar : ℕ) → rcode (layout i r c qd an ns ar) ≡ c
unfolding rcode
rcode-layout i r r_success qd an ns ar = refl
rcode-layout i r _ qd an ns ar = refl

z-layout :
    (i : ℕ) (r : Bool) (c : Rcode) (qd an ns ar : ℕ)
    → (z (layout i r c qd an ns ar) ≡ 0) × (ra (layout i r c qd an ns ar) ≡ false)
unfolding z ra
z-layout i r r_success qd an ns ar = (refl, refl)
z-layout i r _ qd an ns ar = (refl, refl)

ad_cd-layout :
    (i : ℕ) (r : Bool) (c : Rcode) (qd an ns ar : ℕ) → ad_cd (layout i r c qd an ns ar) ≡ 0
unfolding ad_cd
ad_cd-layout i r r_success qd an ns ar = refl
ad_cd-layout i r _ qd an ns ar = refl

-- The flags of a response.
pub record IsResponse (h : DnsQueryHeader) (r : Bool) (c : Rcode) : Type 0 where
  pub is_response : qr h ≡ true
  pub is_query : opcode h ≡ o_query
  pub authoritative : aa h ≡ true
  pub whole : tc h ≡ false
  pub recursion_desired : rd h ≡ r
  pub no_recursion : ra h ≡ false
  pub zero : z h ≡ 0
  pub no_security : ad_cd h ≡ 0
  pub result : rcode h ≡ c

pub layout-IsResponse :
    (i : ℕ) (r : Bool) (c : Rcode) (qd an ns ar : ℕ) → IsResponse (layout i r c qd an ns ar) r c
unfolding qr opcode aa tc rd
layout-IsResponse i true c qd an ns ar = record {
  is_response = refl;
  is_query = refl;
  authoritative = refl;
  whole = refl;
  recursion_desired = refl;
  no_recursion = (z-layout i true c qd an ns ar).1;
  zero = (z-layout i true c qd an ns ar).0;
  no_security = ad_cd-layout i true c qd an ns ar;
  result = rcode-layout i true c qd an ns ar;
}
layout-IsResponse i false c qd an ns ar = record {
  is_response = refl;
  is_query = refl;
  authoritative = refl;
  whole = refl;
  recursion_desired = refl;
  no_recursion = (z-layout i false c qd an ns ar).1;
  zero = (z-layout i false c qd an ns ar).0;
  no_security = ad_cd-layout i false c qd an ns ar;
  result = rcode-layout i false c qd an ns ar;
}

-- The numbers of a header.
pub record HasNumbers (h : DnsQueryHeader) (i qd an ns ar : ℕ) : Type 0 where
  pub has_id : id h ≡ i
  pub has_qdcount : qdcount h ≡ qd
  pub has_ancount : ancount h ≡ an
  pub has_nscount : nscount h ≡ ns
  pub has_arcount : arcount h ≡ ar

pub layout-HasNumbers :
    (i : ℕ) (r : Bool) (c : Rcode) (qd an ns ar : ℕ)
    → i < 65536
    → qd < 65536
    → an < 65536
    → ns < 65536
    → ar < 65536
    → HasNumbers (layout i r c qd an ns ar) i qd an ns ar
unfolding id qdcount ancount nscount arcount
layout-HasNumbers i r c qd an ns ar h1 h2 h3 h4 h5 = record {
  has_id = omega arith;
  has_qdcount = omega arith;
  has_ancount = omega arith;
  has_nscount = omega arith;
  has_arcount = omega arith;
}
