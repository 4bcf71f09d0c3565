-- ===== src/Crawler/HomeAgentDb/Calls.antt =====
-- Sequences of calls of `homeagentdb` in which a poller disconnects only while it is connected.
use pweb.Prelude.{
  ℕ, ◌≡◌, refl, sym, inl, inr, Bool, true, false, ◌&&◌, Bool-cases, Option, none, some, Bytes, List,
  [], ◌∷◌, ◌++◌, append-nil, append_assoc, ◌==◌, if◌then◌else◌,
}
use mathlib.Core.Path.{subst}
use pweb.Crawler.HomeAgentDb.{
  HomeAgentDb, new_homeagentdb, poller_connected, poller_disconnected, add_home_agent,
}
use pweb.Crawler.HomeAgentDb.Placing.{IsSettled}
use pweb.Crawler.HomeAgentDb.Settling.{
  of, new_homeagentdb-IsSettled, poller_connected-IsSettled, poller_disconnected-IsSettled,
  add_home_agent-IsSettled,
}
use pweb.Crawler.HomeAgentDb.Present.{
  IsPresent, poller_connected-IsPresent, poller_disconnected-IsPresent, add_home_agent-IsPresent,
}

pub data Call : Type 0 where
  connect_poller : ℕ → Call
  disconnect_poller : ℕ → Call
  add_agent : Bytes → Call

abbrev pub perform : Call → HomeAgentDb → Option HomeAgentDb
perform (connect_poller p) s = poller_connected p s
perform (disconnect_poller p) s = poller_disconnected p s
perform (add_agent ha) s = add_home_agent ha s

-- The calls one after the other; `none` if one of them fails.
abbrev pub run : List Call → HomeAgentDb → Option HomeAgentDb
run [] s = some s
run (c ∷ calls) s = elim (perform c s) [ none ↦ none | some s' ↦ run calls s' ]

abbrev pub agents_of : Call → List Bytes
agents_of (add_agent ha) = ha ∷ []
agents_of _ = []

-- The home agents that the calls add, in order.
abbrev pub agents : List Call → List Bytes
agents [] = []
agents (c ∷ calls) = agents_of c ++ agents calls

-- Which pollers have connected and not disconnected since.
abbrev pub Connected : Type 0
Connected = ℕ → Bool

abbrev pub nobody : Connected
nobody p = false

abbrev pub after : Call → Connected → Connected
after (connect_poller p) is_connected q = if q == p then true else is_connected q
after (disconnect_poller p) is_connected q = if q == p then false else is_connected q
after (add_agent ha) is_connected q = is_connected q

abbrev pub is_permitted : Call → Connected → Bool
is_permitted (disconnect_poller p) is_connected = is_connected p
is_permitted _ is_connected = true

-- Whether each poller that disconnects is connected then.
abbrev pub in_order : List Call → Connected → Bool
in_order [] is_connected = true
in_order (c ∷ calls) is_connected =
    is_permitted c is_connected && in_order calls (after c is_connected)

abbrev AllPresent : Connected → HomeAgentDb → Type 0
AllPresent is_connected s = (p : ℕ) → is_connected p ≡ true → IsPresent p s.pollerdb

-- What a call comes to.
abbrev Performed : Call → Connected → List Bytes → HomeAgentDb → Type 0
Performed c is_connected added s =
    (s' : HomeAgentDb) × (perform c s ≡ some s')
    × IsSettled (of (added ++ agents_of c)) s'
    × AllPresent (after c is_connected) s'

perform-Performed :
    (c : Call) (is_connected : Connected) (added : List Bytes) (s : HomeAgentDb)
    → IsSettled (of added) s
    → AllPresent is_connected s
    → is_permitted c is_connected ≡ true
    → Performed c is_connected added s
perform-Performed (connect_poller q) is_connected added s w present ok =
    let (s', made, w') = poller_connected-IsSettled (of added) q s w in
    (
      s',
      made,
      subst (λ (l : List Bytes). IsSettled (of l) s') (sym (append-nil added)) w',
      λ p h. elim (Bool-cases (p == q)) [
        | inl this ↦ poller_connected-IsPresent p q s s' made (inl this)
        | inr other ↦ poller_connected-IsPresent p q s s' made (inr (present p (rw other at h)))
      ],
    )
perform-Performed (disconnect_poller q) is_connected added s w present ok =
    let (l, there) = present q ok in
    let (s', made, w') = poller_disconnected-IsSettled (of added) q s l w there in
    (
      s',
      made,
      subst (λ (l : List Bytes). IsSettled (of l) s') (sym (append-nil added)) w',
      λ p h. elim (Bool-cases (p == q)) [
        | inl this ↦ absurd (cc (rw this at h))
        | inr other ↦ poller_disconnected-IsPresent p q s s' made other (present p (rw other at h))
      ],
    )
perform-Performed (add_agent ha) is_connected added s w present ok =
    let (s', made, w') = add_home_agent-IsSettled added ha s w in
    (s', made, w', λ p h. add_home_agent-IsPresent p ha s s' made (present p h))

and_cases : (a b : Bool) → (a && b) ≡ true → (a ≡ true) × (b ≡ true)
and_cases true b e = (refl, e)
and_cases false b e = absurd (cc e)

run-Settles :
    (calls : List Call) (is_connected : Connected) (added : List Bytes) (s : HomeAgentDb)
    → IsSettled (of added) s
    → AllPresent is_connected s
    → in_order calls is_connected ≡ true
    → (s' : HomeAgentDb) × (run calls s ≡ some s') × IsSettled (of (added ++ agents calls)) s'
run-Settles [] is_connected added s w present ok =
    (s, refl, subst (λ (l : List Bytes). IsSettled (of l) s) (sym (append-nil added)) w)
run-Settles (c ∷ calls) is_connected added s w present ok =
    let (ok_now, ok_then) =
      and_cases (is_permitted c is_connected) (in_order calls (after c is_connected)) ok in
    let (t, made, w', present') = perform-Performed c is_connected added s w present ok_now in
    let (s', rest, settled) =
      run-Settles calls (after c is_connected) (added ++ agents_of c) t w' present' ok_then in
    (
      s',
      rw (made, run) rest,
      subst (λ (l : List Bytes). IsSettled (of l) s') (append_assoc added (agents_of c) _) settled,
    )

-- Calls of `homeagentdb` from its start, in which a poller disconnects only if it has connected and
-- has not disconnected since, are all defined: none reads the end of the map and none fails the
-- assertion. They lead to a state where exactly the home agents that they add are with a poller or
-- in the queue, each in the set is once in one list, and none waits while there is a poller.
pub run-IsSettled :
    (calls : List Call)
    → in_order calls nobody ≡ true
    → (s : HomeAgentDb) × (run calls new_homeagentdb ≡ some s) × IsSettled (of (agents calls)) s
run-IsSettled calls ok =
    run-Settles calls nobody [] new_homeagentdb new_homeagentdb-IsSettled (λ p h. absurd (cc h)) ok
