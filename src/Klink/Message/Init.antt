-- ===== src/Klink/Message/Init.antt =====
-- `PeerInitMessage`, dnsgw_test_ha/klink/plnode/message/control/peer_init_message.h: the start of a
-- peer, with its routing table.
pub mod RoundTrip
mod Tests
use mathlib.Core.Option
use pweb.Prelude.{
  ℕ, zero, suc, ◌+◌, ◌*◌, Option, none, some, [], ◌∷◌, ◌++◌, Bytes, length, ltb, ◌==◌,
  if◌then◌else◌,
}
use pweb.Klink.Codec.{
  Reader, ◌>>=◌, pure, put_int, get_int, put_double, get_double, put_string, get_string, get_chars,
  rounds,
}
use pweb.Klink.OverlayId.{OverlayId, rank, put_oid, get_oid, HostAddress}
use pweb.Klink.LookupTable.{Table, size, clear, lookup, add}
use pweb.Klink.LookupTable.Iterate.{Iterator, reset_iterator}
use pweb.Klink.Message.{AbsMessage, get_base_size, put_base, fill, deserialize_with}

abbrev pub RoutingTable : Type 0
RoutingTable = Table OverlayId HostAddress

pub record PeerInitMessage : Type 0 where
  pub base : AbsMessage
  pub routing_table : RoutingTable
  pub n_peers : ℕ
  pub k : ℕ
  pub alpha : ℕ
  pub publish_name_range_start : ℕ
  pub publish_name_range_end : ℕ
  pub lookup_name_range_start : ℕ
  pub lookup_name_range_end : ℕ
  pub webserver_port : ℕ
  pub run_sequence_no : ℕ
  pub log_server_name : Bytes
  pub log_server_user : Bytes
  pub peer_name : Bytes

-- A `HostAddress` as its constructor leaves it.
abbrev pub no_address : HostAddress
no_address = record { host_name = []; host_port = 4294967295 }

-- The loop of `getSize`, over what is left of the iterator.
unfoldable pub entries_size : RoutingTable → Iterator OverlayId HostAddress → ℕ
entries_size table [] = 0
entries_size table ((key, v) ∷ iterator) =
    4 * 5
    + 1 * length ((lookup rank key no_address table).0).host_name
    + entries_size table iterator

unfoldable pub get_size : PeerInitMessage → ℕ
get_size m =
    get_base_size m.base
    + 4 * 5
    + 8
    + 4 * 4
    + 4 * 3
    + 1 * (length m.log_server_name + length m.log_server_user + length m.peer_name)
    + entries_size m.routing_table (reset_iterator m.routing_table)

-- The loop of `serialize`; `value` keeps what the round before found.
unfoldable pub put_entries : RoutingTable → Iterator OverlayId HostAddress → HostAddress → Bytes
put_entries table [] value = []
put_entries table ((key, v) ∷ iterator) value =
    let value' = (lookup rank key value table).0 in
    put_oid key
    ++ (put_string value'.host_name
        ++ (put_int value'.host_port ++ put_entries table iterator value'))

unfoldable pub put_own : PeerInitMessage → Bytes
put_own m =
    put_int m.n_peers
    ++ (put_int m.k
        ++ (put_double m.alpha
            ++ (put_int m.publish_name_range_start
                ++ (put_int m.publish_name_range_end
                    ++ (put_int m.lookup_name_range_start
                        ++ (put_int m.lookup_name_range_end
                            ++ (put_int m.webserver_port
                                ++ (put_int m.run_sequence_no
                                    ++ (put_string m.peer_name
                                        ++ (put_string m.log_server_name
                                            ++ (put_string m.log_server_user
                                                ++ (put_int (size rank m.routing_table)
                                                    ++ put_entries m.routing_table
                                                        (reset_iterator m.routing_table)
                                                        no_address))))))))))))

unfoldable pub serialize : PeerInitMessage → Option Bytes
serialize m = fill (get_size m) (put_base m.base ++ put_own m)

-- `string(s)` for an array of the given bytes and one more: it ends at the first zero, and a read
-- past the array is a fault.
unfoldable pub c_string : ℕ → Bytes → Option Bytes
c_string last [] = if last == 0 then some [] else none
c_string last (c ∷ cs) =
    let rest = c_string last cs in if c == 0 then some [] else Option.map (◌∷◌ c) rest

unfoldable pub return : {A : Type 0} → Option A → Reader A
return none b = none
return (some a) b = some (a, b)

-- `new char[n + 1]` and `memcpy` of `n` bytes into it. A length that is negative as an `int`, or
-- has no successor there, is a fault.
unfoldable pub get_sized : ℕ → Reader Bytes
get_sized n b = if ltb n 2147483647 then get_chars n b else none

-- A length, such an array, and the string of it. `last` is the byte at the array's end.
unfoldable pub get_array : ℕ → Reader Bytes
get_array last = do n ← get_int; bytes ← get_sized n; return (c_string last bytes)

-- The loop of `deserialize`, `n` rounds.
unfoldable pub get_entries : ℕ → RoutingTable → Reader RoutingTable
get_entries zero table = pure table
get_entries (suc n) table = do
  key ← get_oid
  hostname ← get_string
  hostport ← get_int
  get_entries n (add rank key (record { host_name = hostname; host_port = hostport }) table).0

-- `name_end` and `user_end` are what the two arrays for the log server hold at their ends as they
-- are allocated: the source ends only the array for the peer's name with a zero.
unfoldable pub get_own : ℕ → ℕ → AbsMessage → Reader PeerInitMessage
get_own name_end user_end base = do
  n_peers ← get_int
  k ← get_int
  alpha ← get_double
  publish_start ← get_int
  publish_end ← get_int
  lookup_start ← get_int
  lookup_end ← get_int
  webserver_port ← get_int
  run_sequence_no ← get_int
  peer_name ← get_array 0
  log_server_name ← get_array name_end
  log_server_user ← get_array user_end
  table_size ← get_int
  routing_table ← get_entries (rounds table_size) []
  pure (record {
    base = base;
    routing_table = routing_table;
    n_peers = n_peers;
    k = k;
    alpha = alpha;
    publish_name_range_start = publish_start;
    publish_name_range_end = publish_end;
    lookup_name_range_start = lookup_start;
    lookup_name_range_end = lookup_end;
    webserver_port = webserver_port;
    run_sequence_no = run_sequence_no;
    log_server_name = log_server_name;
    log_server_user = log_server_user;
    peer_name = peer_name;
  })

unfoldable pub deserialize : ℕ → ℕ → Bytes → Option PeerInitMessage
deserialize name_end user_end = deserialize_with (get_own name_end user_end)
