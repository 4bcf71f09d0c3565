-- ===== src/Dns/QueryMap.antt =====
-- `querymap`, dnsgw/haproxy.cpp: the queries that wait for a home agent, by their identifiers, with
-- a timer each. The map is the `std::map` of Klink/LookupTable. Of the timers, which boost
-- implements, the model has those that run and the handlers that are due: a timer that is
-- cancelled while it runs calls its handler as one that ends does, as boost documents, and the
-- handler here does not look at the error code that tells them apart.
pub mod Timeout
use pweb.Prelude.{
  ℕ, Bool, true, false, Option, none, some, List, [], ◌∷◌, ◌++◌, ◌==◌, if◌then◌else◌,
}
use pweb.Klink.LookupTable.{Table, find, erase}
use pweb.Klink.LookupTable
use pweb.Dns.Header.{Rcode, r_name_error}

abbrev pub itself : ℕ → ℕ
itself n = n

abbrev pub contains : List ℕ → ℕ → Bool
contains [] n = false
contains (m ∷ ms) n = if m == n then true else contains ms n

abbrev pub delete : List ℕ → ℕ → List ℕ
delete [] n = []
delete (m ∷ ms) n = let rest = delete ms n in if m == n then ms else m ∷ rest

-- `timed_out` are the queries that `expire` completes, each with its result code, in order.
pub record QueryMap (Q : Type 0) : Type 0 where
  pub map : Table ℕ Q
  pub armed : List ℕ
  pub due : List ℕ
  pub timed_out : List (Q × Rcode)

module _ {Q : Type 0} where
  -- The timer of the query with this identifier is cancelled, or ends.
  unfoldable pub stop_timer : ℕ → QueryMap Q → QueryMap Q
  stop_timer sequence s =
      if contains s.armed sequence
      then record s { armed = delete s.armed sequence; due = s.due ++ sequence ∷ [] }
      else s

  unfoldable pub insert : (Q → ℕ) → Q → QueryMap Q → QueryMap Q × Bool
  insert id query s = elim (find itself (id query) s.map) [
    | none ↦ (
      record s {
        map = pweb.Klink.LookupTable.insert itself (id query) query s.map;
        armed = id query ∷ s.armed;
      },
      true,
    )
    | some other ↦ (s, false)
  ]

  unfoldable pub remove : ℕ → QueryMap Q → QueryMap Q × Option Q
  remove sequence s = elim (find itself sequence s.map) [
    | none ↦ (s, none)
    | some query ↦
        (stop_timer sequence (record s { map = erase itself sequence s.map }), some query)
  ]

  -- A query that `expire` still finds is completed as a name error.
  unfoldable pub expire : ℕ → QueryMap Q → QueryMap Q
  expire sequence s =
      let (s', query) = remove sequence s in
      elim query [
        | none ↦ s'
        | some q ↦ record s' { timed_out = s'.timed_out ++ (q, r_name_error) ∷ [] }
      ]

  -- The handler that is due first is called.
  unfoldable pub run_handler : QueryMap Q → QueryMap Q
  run_handler s = elim s.due [
    | [] ↦ s
    | sequence ∷ rest ↦ expire sequence (record s { due = rest })
  ]
