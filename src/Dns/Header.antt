-- ===== src/Dns/Header.antt =====
-- `dns_query_header`, dnsgw/dnsspeaker.hpp: twelve bytes with bit fields, and
-- `compose_dns_header`, dnsgw/dnsspeaker.cpp. Masks are those of the source.
pub mod Laws
use Prim.Native.Nat.{bit_and, bit_or}
use pweb.Prelude.{
  ℕ, ◌+◌, ◌*◌, ◌/◌, ◌%◌, ◌-◌, Bool, true, false, not, Bytes, get_or, set, replicate, ◌==◌,
  if◌then◌else◌,
}

pub data Opcode : Type 0 where
  o_query o_iquery o_status o_reserved : Opcode

pub data Rcode : Type 0 where
  r_success r_format_error r_server_failure r_name_error r_not_implemented r_refused : Rcode
  r_reserved : Rcode

-- The value of an `rcode_t`.
abbrev pub rcode_value : Rcode → ℕ
rcode_value r_success = 0
rcode_value r_format_error = 1
rcode_value r_server_failure = 2
rcode_value r_name_error = 3
rcode_value r_not_implemented = 4
rcode_value r_refused = 5
rcode_value r_reserved = 6

-- `buf_`, twelve bytes.
abbrev pub DnsQueryHeader : Type 0
DnsQueryHeader = Bytes

unfoldable pub clear : DnsQueryHeader
clear = replicate 12 0

unfoldable pub byte_at : DnsQueryHeader → ℕ → ℕ
byte_at h i = get_or h i 0

unfoldable pub get_bit : DnsQueryHeader → ℕ → ℕ → Bool
unfolding byte_at
get_bit h i mask = not (bit_and (byte_at h i) mask == 0)

unfoldable pub set_bit : DnsQueryHeader → ℕ → ℕ → Bool → DnsQueryHeader
unfolding byte_at
set_bit h i mask val =
    if val
    then set h i (bit_or (byte_at h i) mask)
    else set h i (bit_and (byte_at h i) (255 - mask))

unfoldable pub read_short : DnsQueryHeader → ℕ → ℕ
unfolding byte_at
read_short h i = byte_at h i * 256 + byte_at h (i + 1)

unfoldable pub write_short : DnsQueryHeader → ℕ → ℕ → DnsQueryHeader
write_short h i val = set (set h i (val / 256 % 256)) (i + 1) (val % 256)

unfoldable pub id : DnsQueryHeader → ℕ
unfolding read_short
id h = read_short h 0

unfoldable pub qr : DnsQueryHeader → Bool
unfolding get_bit
qr h = get_bit h 2 0x80

unfoldable pub opcode : DnsQueryHeader → Opcode
unfolding byte_at
opcode h =
    let val = bit_and (byte_at h 2) 0x78 / 8 in
    if val == 0
    then o_query
    else if val == 1
    then o_iquery
    else if val == 2
    then o_status
    else o_reserved

unfoldable pub aa : DnsQueryHeader → Bool
unfolding get_bit
aa h = get_bit h 2 0x04

unfoldable pub tc : DnsQueryHeader → Bool
unfolding get_bit
tc h = get_bit h 2 0x02

unfoldable pub rd : DnsQueryHeader → Bool
unfolding get_bit
rd h = get_bit h 2 0x01

unfoldable pub ra : DnsQueryHeader → Bool
unfolding get_bit
ra h = get_bit h 3 0x80

unfoldable pub z : DnsQueryHeader → ℕ
unfolding byte_at
z h = bit_and (byte_at h 3) 0x40 / 64

-- The bits of the security extensions.
unfoldable pub ad_cd : DnsQueryHeader → ℕ
unfolding byte_at
ad_cd h = bit_and (byte_at h 3) 0x30 / 16

unfoldable pub rcode : DnsQueryHeader → Rcode
unfolding byte_at
rcode h =
    let val = bit_and (byte_at h 3) 0x0f in
    if val == 0
    then r_success
    else if val == 1
    then r_format_error
    else if val == 2
    then r_server_failure
    else if val == 3
    then r_name_error
    else if val == 4
    then r_not_implemented
    else if val == 5
    then r_refused
    else r_reserved

-- `rcode( code )`: the bits are or-ed in.
unfoldable pub set_rcode : DnsQueryHeader → Rcode → DnsQueryHeader
unfolding byte_at
set_rcode h code = set h 3 (bit_or (byte_at h 3) (rcode_value code))

unfoldable pub qdcount : DnsQueryHeader → ℕ
unfolding read_short
qdcount h = read_short h 4

unfoldable pub ancount : DnsQueryHeader → ℕ
unfolding read_short
ancount h = read_short h 6

unfoldable pub nscount : DnsQueryHeader → ℕ
unfolding read_short
nscount h = read_short h 8

unfoldable pub arcount : DnsQueryHeader → ℕ
unfolding read_short
arcount h = read_short h 10
