-- ===== src/Crawler/HomeAgentDb/Runs.antt =====
-- Runs of `homeagentdb`: no home agent is lost, and each is with one poller.
use pweb.Prelude.{
  ℕ, ◌<◌, sym, Option-cases, ◌≡◌, ap, ◌∙◌, inl, inr, false, some, Bytes, List, [], ◌∷◌, ◌++◌, arith,
}
use pweb.Klink.LookupTable.{find}
use pweb.Crawler.HomeAgentDb.{
  HomeAgentDb, new_homeagentdb, pointer, count, is_empty, poller_connected, poller_disconnected,
  add_home_agent,
}
use pweb.Crawler.HomeAgentDb.Laws.{held}
use pweb.Crawler.HomeAgentDb.Placing.{IsSettled}
use pweb.Crawler.HomeAgentDb.Settling.{
  of, new_homeagentdb-IsSettled, poller_connected-IsSettled, poller_disconnected-IsSettled,
  poller_disconnected-none, add_home_agent-IsSettled, no_queue,
}

-- The states that a run leads to, with the home agents that were added, in order.
pub data Reaches : HomeAgentDb → List Bytes → Type 0 where
  starts : Reaches new_homeagentdb []
  connects :
      {s s' : HomeAgentDb} {added : List Bytes} (p : ℕ)
      → Reaches s added
      → poller_connected p s ≡ some s'
      → Reaches s' added
  disconnects :
      {s s' : HomeAgentDb} {added : List Bytes} (p : ℕ)
      → Reaches s added
      → poller_disconnected p s ≡ some s'
      → Reaches s' added
  adds :
      {s s' : HomeAgentDb} {added : List Bytes} (ha : Bytes)
      → Reaches s added
      → add_home_agent ha s ≡ some s'
      → Reaches s' (added ++ ha ∷ [])

-- In every run of `homeagentdb`: exactly the home agents that were added are with a poller or in the
-- queue; each that is in the set is once in the list of one poller, and nothing else is in a list;
-- and the queue is empty while there is a poller.
pub Reaches-IsSettled :
    (s : HomeAgentDb) (added : List Bytes) → Reaches s added → IsSettled (of added) s
Reaches-IsSettled _ _ starts = new_homeagentdb-IsSettled
Reaches-IsSettled _ _ (connects {s} {s'} {added} p r e) =
    let (t, made, w) = poller_connected-IsSettled (of added) p s (Reaches-IsSettled s added r) in
    let same : t ≡ s' = cc (sym made ∙ e) in rw (← same) w
Reaches-IsSettled _ _ (disconnects {s} {s'} {added} p r e) =
    elim (Option-cases (find pointer p s.pollerdb)) [
      | inl unknown ↦ absurd (cc (sym (poller_disconnected-none p s unknown) ∙ e))
      | inr (l, there) ↦
          let (t, made, w) =
            poller_disconnected-IsSettled (of added) p s l (Reaches-IsSettled s added r) there in
          let same : t ≡ s' = cc (sym made ∙ e) in rw (← same) w
    ]
Reaches-IsSettled _ _ (adds {s} {s'} {added} ha r e) =
    let (t, made, w) = add_home_agent-IsSettled added ha s (Reaches-IsSettled s added r) in
    let same : t ≡ s' = cc (sym made ∙ e) in rw (← same) w

-- In every run of `homeagentdb`, while there is a poller, every home agent that was added is once in
-- the list of one poller, also after other pollers have disconnected.
pub Reaches-polled :
    (s : HomeAgentDb) (added : List Bytes) (x : Bytes)
    → Reaches s added
    → is_empty s.pollerdb ≡ false
    → 0 < count x added
    → held x s.pollerdb ≡ 1
Reaches-polled s added x r some_there h =
    let w = Reaches-IsSettled s added r in
    let nobody_waits = ap (count x) (no_queue s w.waits some_there) in
    omega (arith, w.kept x h, nobody_waits, w.is_placed.once x, w.is_placed.placed x)
