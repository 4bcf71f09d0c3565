-- ===== src/Crawler/HomeAgentDb/Tests.antt =====
-- A database with two pollers, one of which disconnects.
use pweb.Prelude.{ℕ, ◌≡◌, refl, some, Bytes, List, [], ◌∷◌, ◌++◌, arith}
use pweb.Klink.LookupTable
use pweb.Klink.LookupTable.{Table, find}
use pweb.Crawler.HomeAgentDb.{
  HomeAgentDb, new_homeagentdb, push_at, poller_at, assign_home_agent, process, process_queue,
  poller_connected, poller_disconnected, add_home_agent,
}
use pweb.Crawler.HomeAgentDb.Laws.{held}
use pweb.Crawler.HomeAgentDb.Placing.{IsSettled}
use pweb.Crawler.HomeAgentDb.Settling.{of}
use pweb.Crawler.HomeAgentDb.Shortest.{load_at, AtLeast, assign_home_agent-AtLeast}
use pweb.Crawler.HomeAgentDb.Runs.{
  Reaches, starts, connects, disconnects, adds, Reaches-IsSettled, Reaches-polled,
}
use pweb.Crawler.HomeAgentDb.Calls.{
  Call, connect_poller, disconnect_poller, add_agent, run, agents, run-IsSettled,
}

-- Two names, the pollers 4 and 9, and the state when the poller 4 has left.
abbrev ada : Bytes
ada = b'a' ∷ []

abbrev bob : Bytes
bob = b'b' ∷ []

abbrev last : HomeAgentDb
last = record {
  pollerq = [];
  hadb = ada ∷ bob ∷ [];
  pollerdb = (9, bob ∷ ada ∷ []) ∷ [];
  told = (4, ada) ∷ (9, bob) ∷ (9, ada) ∷ [];
}

abbrev both : HomeAgentDb
both = record {
  pollerq = [];
  hadb = bob ∷ ada ∷ [];
  pollerdb = (4, ada ∷ []) ∷ (9, bob ∷ []) ∷ [];
  told = (4, ada) ∷ (9, bob) ∷ [];
}

abbrev waiting : HomeAgentDb
waiting = record { pollerq = ada ∷ []; hadb = []; pollerdb = []; told = [] }

abbrev first : HomeAgentDb
first = record {
  pollerq = [];
  hadb = ada ∷ [];
  pollerdb = (4, ada ∷ []) ∷ [];
  told = (4, ada) ∷ [];
}

abbrev second : HomeAgentDb
second = record first { pollerdb = (4, ada ∷ []) ∷ (9, []) ∷ [] }

step1 : add_home_agent ada new_homeagentdb ≡ some waiting
unfolding add_home_agent new_homeagentdb
step1 = refl

step2 : poller_connected 4 waiting ≡ some first
unfolding poller_connected process_queue process assign_home_agent pweb.Klink.LookupTable.insert
step2 = refl

step3 : poller_connected 9 first ≡ some second
unfolding poller_connected process_queue process assign_home_agent pweb.Klink.LookupTable.insert
step3 = refl

step4 : add_home_agent bob second ≡ some both
unfolding add_home_agent assign_home_agent
step4 = refl

step5 : poller_disconnected 4 both ≡ some last
unfolding poller_disconnected process_queue process assign_home_agent pweb.Klink.LookupTable.erase
    pweb.Klink.LookupTable.find
step5 = refl

last-Reaches : Reaches last (ada ∷ bob ∷ [])
last-Reaches =
    disconnects 4 (adds bob (connects 9 (connects 4 (adds ada starts step1) step2) step3) step4)
      step5

Reaches-IsSettled_example : IsSettled (of (ada ∷ bob ∷ [])) last
Reaches-IsSettled_example = Reaches-IsSettled last (ada ∷ bob ∷ []) last-Reaches

Reaches-polled_example : held ada last.pollerdb ≡ 1
Reaches-polled_example = Reaches-polled last (ada ∷ bob ∷ []) ada last-Reaches refl (omega arith)

-- The poller 9 goes and comes back.
abbrev calls : List Call
calls =
    add_agent ada
    ∷ connect_poller 4
    ∷ connect_poller 9
    ∷ add_agent bob
    ∷ disconnect_poller 9
    ∷ connect_poller 9
    ∷ []

run-IsSettled_example :
    (s : HomeAgentDb) × (run calls new_homeagentdb ≡ some s) × IsSettled (of (agents calls)) s
run-IsSettled_example = run-IsSettled calls refl

assign_home_agent-AtLeast_example :
    (i p : ℕ) × (s' : HomeAgentDb) × (assign_home_agent bob second ≡ some s')
    × (poller_at i second.pollerdb ≡ some p)
    × AtLeast (load_at i second.pollerdb) second.pollerdb
    × (s'.pollerdb ≡ push_at i bob second.pollerdb)
    × (s'.told ≡ second.told ++ (p, bob) ∷ [])
assign_home_agent-AtLeast_example =
    assign_home_agent-AtLeast bob second (4, ada ∷ []) ((9, []) ∷ []) refl refl
