-- ===== src/Crawler/HomeAgentDb/Settling.antt =====
-- What the operations of `homeagentdb` leave behind.
use pweb.Prelude.{
  ℕ, zero, suc, ◌+◌, ◌<◌, ◌⊎◌, ◌≡◌, refl, ap, ◌∙◌, inl, inr, false, Bool-cases, none, some, Bytes,
  List, [], ◌∷◌, ◌++◌, arith,
}
use pweb.Klink.LookupTable.{find, insert, erase}
use pweb.Crawler.HomeAgentDb.{
  HomeAgentDb, new_homeagentdb, pointer, count, is_empty, process_queue, poller_connected,
  take_back, poller_disconnected, add_home_agent,
}
use pweb.Crawler.HomeAgentDb.Laws.{hit, count-snoc, held, held-insert, held-erase, take_back-counts}
use pweb.Crawler.HomeAgentDb.Placing.{
  IsSettled, is_empty_nil, assign_home_agent-IsAssigned, process-IsSettled,
}

-- The strings of a list.
abbrev pub of : List Bytes → Bytes → ℕ
of added x = count x added

pub new_homeagentdb-IsSettled : IsSettled (of []) new_homeagentdb
unfolding new_homeagentdb
new_homeagentdb-IsSettled = record {
  is_placed = record { once = λ x. omega arith; placed = λ x. refl };
  kept = λ x h. absurd (omega (arith, h));
  only = λ x h. absurd (omega (arith, h));
  waits = inl refl;
}

-- A poller can always connect.
pub poller_connected-IsSettled :
    (known : Bytes → ℕ) (p : ℕ) (s : HomeAgentDb)
    → IsSettled known s
    → (s' : HomeAgentDb) × (poller_connected p s ≡ some s') × IsSettled known s'
unfolding poller_connected process_queue
poller_connected-IsSettled known p s w =
    process-IsSettled known s.pollerq (record s { pollerdb = insert pointer p [] s.pollerdb })
      (record {
        once = w.is_placed.once;
        placed = λ x. held-insert x p s.pollerdb ∙ w.is_placed.placed x;
      })
      w.kept w.only

-- A poller that the map has can always disconnect.
pub poller_disconnected-IsSettled :
    (known : Bytes → ℕ) (p : ℕ) (s : HomeAgentDb) (l : List Bytes)
    → IsSettled known s
    → find pointer p s.pollerdb ≡ some l
    → (s' : HomeAgentDb) × (poller_disconnected p s ≡ some s') × IsSettled known s'
unfolding poller_disconnected process_queue
poller_disconnected-IsSettled known p s l w there =
    let back = take_back l s in
    let counts = λ (x : Bytes). take_back-counts x l s (w.is_placed.once x) in
    let parts = λ (x : Bytes). held-erase x p s.pollerdb l there in
    let same = λ (x : Bytes). ap (λ t. held x (erase pointer p t)) (counts x).2 in
    let (settled, made, good) =
      process-IsSettled known back.pollerq
        (record back { pollerdb = erase pointer p back.pollerdb })
        (record {
          once = λ x. omega (arith, (counts x).0, w.is_placed.once x);
          placed = λ x. omega (arith, same x, (counts x).0, parts x, w.is_placed.placed x);
        })
        (λ x h.
          omega (arith, (counts x).0, (counts x).1, parts x, w.is_placed.placed x, w.kept x h))
        (λ x h.
          w.only x (omega (arith, h, (counts x).0, (counts x).1, parts x, w.is_placed.placed x))) in
    (settled, rw (there, poller_disconnected) made, good)

pub poller_disconnected-none :
    (p : ℕ) (s : HomeAgentDb) → find pointer p s.pollerdb ≡ none → poller_disconnected p s ≡ none
unfolding poller_disconnected
poller_disconnected-none p s e = rw (e, poller_disconnected)

pub no_queue :
    (s : HomeAgentDb)
    → (s.pollerdb ≡ []) ⊎ (s.pollerq ≡ [])
    → is_empty s.pollerdb ≡ false
    → s.pollerq ≡ []
no_queue s (inl empty) h = absurd (cc (rw empty at h))
no_queue s (inr done) h = done

pos_add : (a b h : ℕ) → (0 < a → 0 < b) → 0 < a + h → 0 < b + h
pos_add zero b h f k = omega (arith, k)
pos_add (suc a) b h f k = let more = f (omega arith) in omega (arith, more)

pos_split : (a b q h : ℕ) → (0 < a + h → 0 < b) → 0 < (a + q) + h → 0 < b + q
pos_split a b zero h f k = let more = f (omega (arith, k)) in omega (arith, more)
pos_split a b (suc q) h f k = omega arith

pos_join : (a b q h : ℕ) → (0 < b → 0 < a + h) → 0 < b + q → 0 < (a + q) + h
pos_join a b zero h f k = let more = f (omega (arith, k)) in omega (arith, more)
pos_join a b (suc q) h f k = omega arith

-- A home agent can always be added.
pub add_home_agent-IsSettled :
    (added : List Bytes) (ha : Bytes) (s : HomeAgentDb)
    → IsSettled (of added) s
    → (s' : HomeAgentDb) × (add_home_agent ha s ≡ some s') × IsSettled (of (added ++ ha ∷ [])) s'
unfolding add_home_agent
add_home_agent-IsSettled added ha s w =
    let queued = λ (x : Bytes). count-snoc x ha s.pollerq in
    let all = λ (x : Bytes). count-snoc x ha added in
    elim (Bool-cases (is_empty s.pollerdb)) [
      | inl none_there ↦ (
        record s { pollerq = s.pollerq ++ ha ∷ [] },
        rw (none_there, add_home_agent),
        record {
          is_placed = record { once = w.is_placed.once; placed = w.is_placed.placed };
          kept = λ x h.
              let k = pos_add _ _ (hit x ha) (w.kept x) (omega (arith, h, all x)) in
              omega (arith, k, queued x);
          only = λ x h.
              let k = pos_add _ _ (hit x ha) (w.only x) (omega (arith, h, queued x)) in
              omega (arith, k, all x);
          waits = inl (is_empty_nil s.pollerdb none_there);
        },
      )
      | inr some_there ↦
          let (s', made, a) = assign_home_agent-IsAssigned ha s w.is_placed some_there in
          let same = λ (x : Bytes). ap (count x) a.queue in
          (
            s',
            rw (some_there, add_home_agent) made,
            record {
              is_placed = a.is_placed;
              kept = λ x h.
                  let k = pos_add _ _ (hit x ha) (w.kept x) (omega (arith, h, all x)) in
                  let j = pos_split _ _ (count x s.pollerq) (hit x ha) (a.kept x) k in
                  omega (arith, j, same x);
              only = λ x h.
                  let k =
                    pos_join (count x s.hadb) (count x s'.hadb) (count x s.pollerq) (hit x ha)
                      (a.only x) (omega (arith, h, same x)) in
                  let j = pos_add _ _ (hit x ha) (w.only x) k in omega (arith, j, all x);
              waits = inr (a.queue ∙ no_queue s w.waits some_there);
            },
          )
    ]
