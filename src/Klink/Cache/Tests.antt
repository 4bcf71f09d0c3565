-- ===== src/Klink/Cache/Tests.antt =====
-- Small caches.
use pweb.Prelude.{ℕ, ◌≡◌, refl, none, some, [], ◌∷◌, arith, ◌==◌, if◌then◌else◌}
use pweb.Klink.OverlayId.{OverlayId, HostAddress, rank, get_overlay_id}
use pweb.Klink.LookupTable.{Table, find, lookup}
use pweb.Klink.Message.Init.{no_address}
use pweb.Klink.Dll.{Ptr, null, Heap, ◌>>=◌}
use pweb.Klink.Dll.Links.{Cell, Cells, node_at}
use pweb.Klink.Dll.Steps.{dll}
use pweb.Klink.Cache.{Peer, add_entry, lookup_entry, copy_key, copy_address}
use pweb.Klink.Cache.View.{entries, touch}
use pweb.Klink.Cache.Lru.{cache, IsLru}
use pweb.Klink.Cache.Hits.{lookup_entry-touch}
use pweb.Klink.Cache.Adds.{with_entry, with_room}
use pweb.Klink.Cache.Faults.{add_entry-Faults}
use pweb.Klink.Cache.Iterator.{reset_iterator, collect, collect-entries}

abbrev oid : ℕ → OverlayId
oid n = record { overlay_id = n; prefix_length = 8; max_length = 8 }

abbrev host : ℕ → HostAddress
host n = record { host_name = 104 ∷ n ∷ []; host_port = 4000 }

abbrev first : Cell
first = record { address = 16; key = oid 5; value = host 53 }

abbrev second : Cell
second = record { address = 32; key = oid 9; value = host 57 }

abbrev two : Cells
two = first ∷ second ∷ []

abbrev heap_of_two : Heap
heap_of_two p =
    if p == 16
    then some (node_at first null 32)
    else if p == 32
    then some (node_at second 16 null)
    else none

abbrev table_of_two : Table OverlayId Ptr
table_of_two = (oid 5, 16) ∷ (oid 9, 32) ∷ []

abbrev peer : Peer
peer = record { routing_table = (oid 7, host 55) ∷ []; proactive_cache = []; overlay_id = oid 1 }

two-IsLru : IsLru heap_of_two two table_of_two 2
unfolding rank
two-IsLru = record {
  list = record { links = (refl, (refl, tt)); once = λ a. ground arith; null_out = refl };
  ordered = omega arith;
  agree = λ i. refl;
  apart = λ i. ground arith;
  fits = omega arith;
  small = omega arith;
}

after_add :
    with_entry peer (oid 11) (host 59) (with_room 2 (oid 11) (entries two))
    ≡ (copy_key (oid 11), copy_address (host 59)) ∷ (oid 5, host 53) ∷ []
unfolding lookup find rank get_overlay_id
after_add = refl

lookup_entry-touch_example :
    (h' : Heap) × (cells' : Cells) × (lookup_entry
        (oid 9)
        no_address
        (cache heap_of_two two table_of_two 2)
      ≡ some (lookup rank (oid 9) no_address (entries two), cache h' cells' table_of_two 2))
    × IsLru h' cells' table_of_two 2
    × (entries cells' ≡ touch (oid 9) (entries two))
lookup_entry-touch_example =
    lookup_entry-touch heap_of_two two table_of_two 2 (oid 9) no_address two-IsLru

collect-entries_example :
    (reset_iterator >>= collect 3) (dll heap_of_two two) ≡ some (entries two, dll heap_of_two two)
collect-entries_example = collect-entries heap_of_two two 3 two-IsLru.list (omega arith)

abbrev only : Cells
only = first ∷ []

abbrev heap_of_one : Heap
heap_of_one p = if p == 16 then some (node_at first null null) else none

one-IsLru : IsLru heap_of_one only ((oid 5, 16) ∷ []) 1
unfolding rank
one-IsLru = record {
  list = record { links = (refl, tt); once = λ a. ground arith; null_out = refl };
  ordered = tt;
  agree = λ i. refl;
  apart = λ i. ground arith;
  fits = omega arith;
  small = omega arith;
}

add_entry-Faults_example :
    add_entry 48 peer (oid 11) (host 59) (cache heap_of_one only ((oid 5, 16) ∷ []) 1) ≡ none
unfolding rank
add_entry-Faults_example =
    add_entry-Faults heap_of_one first ((oid 5, 16) ∷ []) 48 peer (oid 11) (host 59) one-IsLru refl
