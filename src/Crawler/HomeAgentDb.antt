-- ===== src/Crawler/HomeAgentDb.antt =====
-- `homeagentdb`, crawler_manager/homeagentdb.cpp: which poller has which home agents.
pub mod Laws
pub mod Shortest
pub mod Placing
pub mod Settling
pub mod Present
pub mod Runs
pub mod Calls
mod Tests
use pweb.Prelude.{
  ℕ, zero, suc, ◌+◌, Bool, true, false, Option, none, some, Bytes, List, [], ◌∷◌, ◌++◌, length, ltb,
  ◌==◌, if◌then◌else◌, same_bytes,
}
use pweb.Klink.LookupTable.{Table, find, insert, erase}

-- The pollers are keys of a `std::map`, by a number each; `pollerdb` has the list of each. `hadb`
-- is a `std::set`: the lists point to its strings, which are written out here. `told` are the calls
-- of `assign_home_agent` on the pollers, in order.
pub record HomeAgentDb : Type 0 where
  pub pollerq : List Bytes
  pub hadb : List Bytes
  pub pollerdb : Table ℕ (List Bytes)
  pub told : List (ℕ × Bytes)

unfoldable pub new_homeagentdb : HomeAgentDb
new_homeagentdb = record { pollerq = []; hadb = []; pollerdb = []; told = [] }

abbrev pub pointer : ℕ → ℕ
pointer p = p

-- How often a string is in a list; a set has it or has it not.
abbrev pub count : Bytes → List Bytes → ℕ
count x [] = 0
count x (y ∷ ys) = let rest = count x ys in if same_bytes x y then suc rest else rest

-- `set::erase`
abbrev pub erase_all : Bytes → List Bytes → List Bytes
erase_all x [] = []
erase_all x (y ∷ ys) = let rest = erase_all x ys in if same_bytes x y then rest else y ∷ rest

-- The loop that looks for the shortest list, from the iterator at position `i`, where the list at
-- `min` has `size` strings.
abbrev pub shortest_from : Table ℕ (List Bytes) → ℕ → ℕ → ℕ → ℕ
shortest_from [] i min size = min
shortest_from ((p, l) ∷ t) i min size =
    let less = ltb (length l) size in
    shortest_from t (i + 1) (if less then i else min) (if less then length l else size)

abbrev pub shortest : Table ℕ (List Bytes) → ℕ
shortest [] = 0
shortest ((p, l) ∷ t) = shortest_from ((p, l) ∷ t) 0 0 (length l)

-- `min->second.push_back`
abbrev pub push_at : ℕ → Bytes → Table ℕ (List Bytes) → Table ℕ (List Bytes)
push_at i ha [] = []
push_at zero ha ((p, l) ∷ t) = (p, l ++ ha ∷ []) ∷ t
push_at (suc i) ha ((p, l) ∷ t) = (p, l) ∷ push_at i ha t

-- `min->first`
abbrev pub poller_at : ℕ → Table ℕ (List Bytes) → Option ℕ
poller_at i [] = none
poller_at zero ((p, l) ∷ t) = some p
poller_at (suc i) ((p, l) ∷ t) = poller_at i t

-- Without a poller, `min` is the end of the map, which the program then reads.
unfoldable pub assign_home_agent : Bytes → HomeAgentDb → Option HomeAgentDb
assign_home_agent ha s =
    let min = shortest s.pollerdb in
    if count ha s.hadb == 0
    then elim (poller_at min s.pollerdb) [
      | none ↦ none
      | some p ↦ some (record s {
        hadb = ha ∷ s.hadb;
        pollerdb = push_at min ha s.pollerdb;
        told = s.told ++ (p, ha) ∷ [];
      })
    ]
    else some s

abbrev pub is_empty : Table ℕ (List Bytes) → Bool
is_empty [] = true
is_empty (e ∷ t) = false

-- The loop takes the strings off the queue.
unfoldable pub process : List Bytes → HomeAgentDb → Option HomeAgentDb
process [] s = some (record s { pollerq = [] })
process (ha ∷ q) s =
    if is_empty s.pollerdb
    then some (record s { pollerq = ha ∷ q })
    else elim (assign_home_agent ha s) [ none ↦ none | some s' ↦ process q s' ]

unfoldable pub process_queue : HomeAgentDb → Option HomeAgentDb
process_queue s = process s.pollerq s

-- A poller that is there already keeps its list.
unfoldable pub poller_connected : ℕ → HomeAgentDb → Option HomeAgentDb
poller_connected p s = process_queue (record s { pollerdb = insert pointer p [] s.pollerdb })

abbrev pub take_back : List Bytes → HomeAgentDb → HomeAgentDb
take_back [] s = s
take_back (ha ∷ l) s =
    take_back l (record s { pollerq = s.pollerq ++ ha ∷ []; hadb = erase_all ha s.hadb })

-- An unknown poller fails the assertion.
unfoldable pub poller_disconnected : ℕ → HomeAgentDb → Option HomeAgentDb
poller_disconnected p s = elim (find pointer p s.pollerdb) [
  | none ↦ none
  | some halist ↦
      let s' = take_back halist s in
      process_queue (record s' { pollerdb = erase pointer p s'.pollerdb })
]

unfoldable pub add_home_agent : Bytes → HomeAgentDb → Option HomeAgentDb
add_home_agent ha s =
    if is_empty s.pollerdb
    then some (record s { pollerq = s.pollerq ++ ha ∷ [] })
    else assign_home_agent ha s
