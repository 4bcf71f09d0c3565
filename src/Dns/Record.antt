-- ===== src/Dns/Record.antt =====
-- Questions and resource records, dnsgw/dnsquery.hpp and dnsgw/dnsspeaker.cpp.
pub mod RoundTrip
use pweb.Prelude.{ℕ, zero, suc, ◌+◌, Bytes, List, [], ◌∷◌, ◌++◌, length, take, ltb, if◌then◌else◌}
use pweb.Dns.Wire.{
  Parser, ◌>>=◌, pure, throw, parse_short, parse_ulong, parse_bytes, rdlength_max, rdlength_size,
  err, Writer, emit, ◌then_write◌, write_short, write_ulong,
}
use pweb.Dns.Name.{parse_name, write_name}

-- `qtype_t` and `qclass_t` hold any 16-bit value: the parser casts without a check.
pub record DnsQuestion : Type 0 where
  pub name : Bytes
  pub qtype : ℕ
  pub qclass : ℕ

pub record DnsRr : Type 0 where
  pub name : Bytes
  pub rtype : ℕ
  pub rclass : ℕ
  pub ttl : ℕ
  pub rdlength : ℕ
  pub rdata : Bytes

unfoldable pub parse_question : Parser DnsQuestion
parse_question = do
  name ← parse_name
  qtype ← parse_short
  qclass ← parse_short
  pure (record { name = name; qtype = qtype; qclass = qclass })

unfoldable pub parse_rdata : ℕ → Parser Bytes
parse_rdata rdlength buf = if ltb 1024 rdlength then err rdlength_max else parse_bytes rdlength buf

unfoldable pub parse_rr : Parser DnsRr
parse_rr = do
  name ← parse_name
  rtype ← parse_short
  rclass ← parse_short
  ttl ← parse_ulong
  rdlength ← parse_short
  rdata ← parse_rdata rdlength
  pure (record {
    name = name;
    rtype = rtype;
    rclass = rclass;
    ttl = ttl;
    rdlength = rdlength;
    rdata = rdata;
  })

unfoldable pub write_question : (Bytes → List Bytes) → DnsQuestion → Writer
write_question tokens q =
    write_name tokens q.name then_write (write_short q.qtype then_write write_short q.qclass)

unfoldable pub write_rdata : DnsRr → Writer
write_rdata rr o =
    if ltb (length rr.rdata) rr.rdlength
    then err rdlength_size
    else emit (take rr.rdlength rr.rdata) o

unfoldable pub write_rr : (Bytes → List Bytes) → DnsRr → Writer
write_rr tokens rr =
    write_name tokens rr.name
    then_write (write_short rr.rtype
        then_write (write_short rr.rclass
            then_write (write_ulong rr.ttl
                then_write (write_short rr.rdlength then_write write_rdata rr))))
