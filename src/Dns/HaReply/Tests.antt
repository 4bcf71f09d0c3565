-- ===== src/Dns/HaReply/Tests.antt =====
-- A reply with the address 10.0.0.7 for the sample query, and one without an address.
use pweb.Prelude.{Option, none, some, Bytes, [], ◌∷◌}
use pweb.Klink.Message.GetReply.{MessageGetReply}
use pweb.Klink.Samples.{base, oid, name}
use pweb.Dns.QueryMap.{insert, remove}
use pweb.Dns.HaRequest.{query_id}
use pweb.Klink.LookupTable
use pweb.Dns.HaReply.{Address, v4, Queries}
use pweb.Dns.Samples.{codes, cam}

abbrev replied : Bytes → MessageGetReply
replied host = record {
  base = record base { message_type = 43; sequence_no = 4660 };
  resolution_status = 0;
  resolution_hops = 1;
  resolution_ip_hops = 1;
  resolution_latency = 0;
  origin_seq_no = 4660;
  target_oid = oid;
  host_address = record { host_name = host; host_port = 80 };
  device_name = name;
}

abbrev host : Bytes
host = codes "10.0.0.7"

-- Knows one address.
abbrev from_string : Bytes → Option Address
from_string [] = none
from_string (c ∷ cs) = some (v4 (10 ∷ 0 ∷ 0 ∷ 7 ∷ []))

abbrev waiting : Queries
waiting = (insert query_id cam (record { map = []; armed = []; due = []; timed_out = [] })).0

abbrev taken : Queries
taken = (remove 4660 waiting).0
