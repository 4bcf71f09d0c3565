-- ===== src/Crawler/HomeAgentDb/Placing.antt =====
-- Home agents are placed with pollers: `assign_home_agent` and `process_queue`.
use pweb.Prelude.{
  ℕ, zero, suc, ◌+◌, ◌<◌, ◌≤◌, ◌≡◌, refl, ◌∙◌, ◌⊎◌, inl, inr, true, false, Bool-cases, some, Bytes,
  List, [], ◌∷◌, ◌++◌, ◌==◌, arith,
}
use pweb.Klink.LookupTable.{Table}
use pweb.Crawler.HomeAgentDb.{
  HomeAgentDb, count, shortest, push_at, poller_at, assign_home_agent, is_empty, process,
}
use pweb.Crawler.HomeAgentDb.Laws.{hit, hit_bool, hit_sound, count-cons, held, held-push_at}
use pweb.Crawler.HomeAgentDb.Shortest.{shortest-AtLeast}

-- The set has each of its strings once, and they are those of the pollers' lists, where each is
-- once as well.
pub record IsPlaced (s : HomeAgentDb) : Type 0 where
  pub once : (x : Bytes) → count x s.hadb ≤ 1
  pub placed : (x : Bytes) → held x s.pollerdb ≡ count x s.hadb

-- A state in which exactly the strings that `known` counts are placed or wait, and none waits
-- while there is a poller.
pub record IsSettled (known : Bytes → ℕ) (s : HomeAgentDb) : Type 0 where
  pub is_placed : IsPlaced s
  pub kept : (x : Bytes) → 0 < known x → 0 < count x s.hadb + count x s.pollerq
  pub only : (x : Bytes) → 0 < count x s.hadb + count x s.pollerq → 0 < known x
  pub waits : (s.pollerdb ≡ []) ⊎ (s.pollerq ≡ [])

-- The state after a home agent has been assigned.
pub record IsAssigned (ha : Bytes) (s s' : HomeAgentDb) : Type 0 where
  pub is_placed : IsPlaced s'
  pub kept : (x : Bytes) → 0 < count x s.hadb + hit x ha → 0 < count x s'.hadb
  pub only : (x : Bytes) → 0 < count x s'.hadb → 0 < count x s.hadb + hit x ha
  pub pollers : is_empty s'.pollerdb ≡ false
  pub queue : s'.pollerq ≡ s.pollerq

is_empty-push_at :
    (i : ℕ) (ha : Bytes) (t : Table ℕ (List Bytes)) → is_empty (push_at i ha t) ≡ is_empty t
is_empty-push_at i ha [] = refl
is_empty-push_at zero ha ((p, l) ∷ t) = refl
is_empty-push_at (suc i) ha ((p, l) ∷ t) = refl

is_empty-cases :
    (t : Table ℕ (List Bytes))
    → is_empty t ≡ false
    → (e : ℕ × List Bytes) × (u : Table ℕ (List Bytes)) × (t ≡ e ∷ u)
is_empty-cases [] h = absurd (cc h)
is_empty-cases (e ∷ u) h = (e, u, refl)

poller_at-shortest :
    (t : Table ℕ (List Bytes)) → is_empty t ≡ false → (p : ℕ) × (poller_at (shortest t) t ≡ some p)
poller_at-shortest [] h = absurd (cc h)
poller_at-shortest (e ∷ t) h = let (p, found, all) = shortest-AtLeast e t in (p, found)

-- Whatever is assigned while there is a poller is placed.
pub assign_home_agent-IsAssigned :
    (ha : Bytes) (s : HomeAgentDb)
    → IsPlaced s
    → is_empty s.pollerdb ≡ false
    → (s' : HomeAgentDb) × (assign_home_agent ha s ≡ some s') × IsAssigned ha s s'
unfolding assign_home_agent
assign_home_agent-IsAssigned ha s w h = elim (Bool-cases (count ha s.hadb == 0)) [
  | inr there ↦
      let old : 0 < count ha s.hadb = ground (arith, there) in
      (
        s,
        rw (there, assign_home_agent),
        record {
          is_placed = w;
          kept = λ x k. elim (hit_bool x ha) [
            | inr missed ↦ omega (arith, k, missed)
            | inl met ↦ let e = hit_sound x ha met in rw e old
          ];
          only = λ x k. omega (arith, k);
          pollers = h;
          queue = refl;
        },
      )
  | inl new ↦
      let (p, found) = poller_at-shortest s.pollerdb h in
      let absent : count ha s.hadb ≡ 0 = ground (arith, new) in
      (
        record s {
          hadb = ha ∷ s.hadb;
          pollerdb = push_at (shortest s.pollerdb) ha s.pollerdb;
          told = s.told ++ (p, ha) ∷ [];
        },
        rw (new, assign_home_agent) (rw found),
        record {
          is_placed = record {
            once = λ x. elim (hit_bool x ha) [
              | inr missed ↦ omega (arith, count-cons x ha s.hadb, missed, w.once x)
              | inl met ↦
                  let e = hit_sound x ha met in
                  let gone : count x s.hadb ≡ 0 = rw e absent in
                  omega (arith, count-cons x ha s.hadb, met, gone)
            ];
            placed = λ x. omega (
              arith,
              held-push_at x (shortest s.pollerdb) ha s.pollerdb p found,
              w.placed x,
              count-cons x ha s.hadb,
            );
          };
          kept = λ x k. omega (arith, k, count-cons x ha s.hadb);
          only = λ x k. omega (arith, k, count-cons x ha s.hadb);
          pollers = is_empty-push_at (shortest s.pollerdb) ha s.pollerdb ∙ h;
          queue = refl;
        },
      )
]

pub is_empty_nil : (t : Table ℕ (List Bytes)) → is_empty t ≡ true → t ≡ []
is_empty_nil [] e = refl
is_empty_nil (x ∷ t) e = absurd (cc e)

-- Taking the queue leaves a settled state, in which every string of the queue is known.
pub process-IsSettled :
    (known : Bytes → ℕ) (q : List Bytes) (s : HomeAgentDb)
    → IsPlaced s
    → ((x : Bytes) → 0 < known x → 0 < count x s.hadb + count x q)
    → ((x : Bytes) → 0 < count x s.hadb + count x q → 0 < known x)
    → (s' : HomeAgentDb) × (process q s ≡ some s') × IsSettled known s'
unfolding process
process-IsSettled known [] s w k o = (
  record s { pollerq = [] },
  refl,
  record {
    is_placed = record { once = w.once; placed = w.placed };
    kept = k;
    only = o;
    waits = inr refl;
  },
)
process-IsSettled known (ha ∷ q) s w k o = elim (Bool-cases (is_empty s.pollerdb)) [
  | inl none_there ↦ (
    record s { pollerq = ha ∷ q },
    rw (none_there, process),
    record {
      is_placed = record { once = w.once; placed = w.placed };
      kept = k;
      only = o;
      waits = inl (is_empty_nil s.pollerdb none_there);
    },
  )
  | inr some_there ↦
      let (s1, e1, a) = assign_home_agent-IsAssigned ha s w some_there in
      let (s', e', settled) =
        process-IsSettled known q s1 a.is_placed
          (λ x h. elim (Bool-cases (count x q == 0)) [
            | inr more ↦
                let some_left : 0 < count x q = ground (arith, more) in omega (arith, some_left)
            | inl last ↦
                let none_left : count x q ≡ 0 = ground (arith, last) in
                let before = k x h in
                let now = a.kept x (omega (arith, before, count-cons x ha q, none_left)) in
                omega (arith, now)
          ])
          (λ x h. elim (Bool-cases (count x q == 0)) [
            | inr more ↦
                let some_left : 0 < count x q = ground (arith, more) in
                o x (omega (arith, some_left, count-cons x ha q))
            | inl last ↦
                let none_left : count x q ≡ 0 = ground (arith, last) in
                let now = a.only x (omega (arith, h, none_left)) in
                o x (omega (arith, now, count-cons x ha q))
          ]) in
      (s', rw (some_there, e1, process) e', settled)
]
