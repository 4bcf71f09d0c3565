-- ===== src/Klink/Message/Init/RoundTrip.antt =====
-- The start of a peer gets through if the arrays for the log server happen to end with a zero.
use pweb.Prelude.{NoZero}
use pweb.Prelude.{
  ℕ, ◌+◌, ◌<◌, ◌≡◌, ◌≢◌, refl, false, none, some, [], ◌∷◌, ◌++◌, append_assoc, arith, Bytes, length,
  lt→ltb, ◌==◌,
}
use pweb.Klink.Codec.{
  bind_some, bind_none, get_int-put_int, get_double-put_double, put_string, get_chars-append,
}
use pweb.Klink.OverlayId.{OverlayId, IsWireOid, rank, HostAddress}
use pweb.Klink.LookupTable.{lookup}
use pweb.Klink.LookupTable.Laws.{IsOrdered}
use pweb.Klink.LookupTable.Iterate.{reset_iterator, find-middle}
use pweb.Klink.Message.{get_base_size}
use pweb.Klink.Message.RoundTrip.{IsWire, put_lengths, Faults, extend-Faults}
use pweb.Klink.Message.Init.{
  PeerInitMessage, RoutingTable, no_address, entries_size, get_size, put_entries, put_own,
  serialize, c_string, return, get_sized, get_array, get_own, deserialize,
}

-- A name that an `int` counts, with the byte behind it, and that has no zero.
pub record IsName (s : Bytes) : Type 0 where
  pub short : length s < 2147483647
  pub no_zero : NoZero s

c_string-NoZero : (s : Bytes) → NoZero s → c_string 0 s ≡ some s
unfolding c_string
c_string-NoZero [] w = refl
c_string-NoZero (c ∷ cs) w =
    let more : (c == 0) ≡ false = ground (arith, w.0) in rw (more, c_string-NoZero cs w.1)

c_string_open : (last : ℕ) (s : Bytes) → last ≢ 0 → NoZero s → c_string last s ≡ none
unfolding c_string
c_string_open last [] h w = let more : (last == 0) ≡ false = ground (arith, h) in rw more
c_string_open last (c ∷ cs) h w =
    let more : (c == 0) ≡ false = ground (arith, w.0) in rw (more, c_string_open last cs h w.1)

get_sized-append :
    (s rest : Bytes) → length s < 2147483647 → get_sized (length s) (s ++ rest) ≡ some (s, rest)
unfolding get_sized
get_sized-append s rest h = rw (lt→ltb (length s) 2147483647 h) (get_chars-append s rest)

get_array-put_string :
    (s rest : Bytes) → IsName s → get_array 0 (put_string s ++ rest) ≡ some (s, rest)
unfolding get_array put_string return
get_array-put_string s rest w = rw append_assoc (
    bind_some _ _ (get_int-put_int (length s) _ (omega (arith, w.short)))
      (bind_some _ _ (get_sized-append s rest w.short) (rw (c_string-NoZero s w.no_zero))))

get_array_open :
    (last : ℕ) (s rest : Bytes) → last ≢ 0 → IsName s → get_array last (put_string s ++ rest) ≡ none
unfolding get_array put_string return
get_array_open last s rest h w = rw append_assoc (
    bind_some _ _ (get_int-put_int (length s) _ (omega (arith, w.short)))
      (bind_some _ _ (get_sized-append s rest w.short) (rw (c_string_open last s h w.no_zero))))

pub record IsEntry (key : OverlayId) (address : HostAddress) : Type 0 where
  pub key_wire : IsWireOid key
  pub name_short : length address.host_name < 2147483648
  pub port_int : address.host_port < 4294967296

abbrev pub AllEntries : RoutingTable → Type 0
AllEntries [] = Unit {0}
AllEntries ((key, address) ∷ table) = IsEntry key address × AllEntries table

lookup-middle :
    (front : RoutingTable) (key : OverlayId) (address value : HostAddress) (rest : RoutingTable)
    → IsOrdered rank (front ++ (key, address) ∷ rest)
    → (lookup rank key value (front ++ (key, address) ∷ rest)).0 ≡ address
unfolding lookup
lookup-middle front key address value rest w =
    rw (find-middle rank front key address rest w, lookup)

length-put_entries :
    (front it : RoutingTable) (value : HostAddress)
    → IsOrdered rank (front ++ it)
    → length (put_entries (front ++ it) it value) ≡ entries_size (front ++ it) it
unfolding put_entries entries_size
length-put_entries front [] value w = refl
length-put_entries front ((key, address) ∷ it) value w =
    let next : length (put_entries (front ++ (key, address) ∷ it) it address)
        ≡ entries_size (front ++ (key, address) ∷ it) it =
      rw append_assoc at
        (length-put_entries (front ++ (key, address) ∷ []) it address (rw append_assoc w)) in
    rw (lookup-middle front key address value it w, lookup-middle front key address no_address it w)
      (simp put_lengths (omega (arith, next)))

-- Every field is within its C type, the names have no zero, and the table is in order.
pub record IsPeerInitMessage (m : PeerInitMessage) : Type 0 where
  pub base_wire : IsWire m.base
  pub n_peers_int : m.n_peers < 4294967296
  pub k_int : m.k < 4294967296
  pub alpha_double : m.alpha < 18446744073709551616
  pub publish_start_int : m.publish_name_range_start < 4294967296
  pub publish_end_int : m.publish_name_range_end < 4294967296
  pub lookup_start_int : m.lookup_name_range_start < 4294967296
  pub lookup_end_int : m.lookup_name_range_end < 4294967296
  pub webserver_int : m.webserver_port < 4294967296
  pub run_int : m.run_sequence_no < 4294967296
  pub peer_name_ok : IsName m.peer_name
  pub log_server_name_ok : IsName m.log_server_name
  pub log_server_user_ok : IsName m.log_server_user
  pub table_ordered : IsOrdered rank m.routing_table
  pub table_entries : AllEntries m.routing_table
  pub table_short : length m.routing_table < 2147483648

length-put_own :
    (m : PeerInitMessage)
    → IsPeerInitMessage m
    → get_base_size m.base + length (put_own m) ≡ get_size m
unfolding put_own get_size reset_iterator
length-put_own m w =
    let table : length (put_entries m.routing_table m.routing_table no_address)
        ≡ entries_size m.routing_table m.routing_table =
      length-put_entries [] m.routing_table no_address w.table_ordered in
    simp put_lengths (omega (arith, table))

-- The array for the log server's name is not ended by the source: a PEER_INIT message as above
-- fills its buffer, and if the byte behind that name in the fresh array is not zero, `deserialize`
-- reads past the array.
pub PeerInitMessage-Faults :
    (m : PeerInitMessage) (name_end user_end : ℕ)
    → IsPeerInitMessage m
    → name_end ≢ 0
    → Faults serialize (deserialize name_end user_end) m
unfolding serialize deserialize put_own get_own
PeerInitMessage-Faults m name_end user_end w h =
    extend-Faults get_size (get_own name_end user_end) serialize m.base (put_own m) m refl
      (length-put_own m w) w.base_wire
      (simp append_assoc (
        bind_some _ _ (get_int-put_int _ _ w.n_peers_int) (
          bind_some _ _ (get_int-put_int _ _ w.k_int) (
            bind_some _ _ (get_double-put_double _ _ w.alpha_double) (
              bind_some _ _ (get_int-put_int _ _ w.publish_start_int) (
                bind_some _ _ (get_int-put_int _ _ w.publish_end_int) (
                  bind_some _ _ (get_int-put_int _ _ w.lookup_start_int) (
                    bind_some _ _ (get_int-put_int _ _ w.lookup_end_int) (
                      bind_some _ _ (get_int-put_int _ _ w.webserver_int) (
                        bind_some _ _ (get_int-put_int _ _ w.run_int) (
                          bind_some _ _ (get_array-put_string _ _ w.peer_name_ok) (
                            bind_none _ _
                              (get_array_open name_end _ _ h w.log_server_name_ok)))))))))))))
