-- ===== src/Dns/LoadBalancer.antt =====
-- `ha_load_balancer`, dnsgw/haloadbalancer.cpp: queries go round the home agents that are enabled.
pub mod Rotation
use pweb.Prelude.{
  ℕ, zero, suc, ◌+◌, ◌-◌, ◌%◌, Bool, true, false, ◌&&◌, Option, none, some, List, [], ◌∷◌, length,
  drop, ltb, ◌==◌, if◌then◌else◌,
}
use pweb.Dns.Header.{Rcode, r_server_failure, r_not_implemented}
use pweb.Dns.Record.{DnsQuestion}
use pweb.Dns.Query.{DnsQuery}

-- The result code of a query that `sanity_check` completes; `none` for a query that passes.
unfoldable pub sanity_check : DnsQuery → Option Rcode
sanity_check query = elim query.questions [
  | [] ↦ some r_server_failure
  | question ∷ rest ↦
      if question.qtype == 1 && question.qclass == 1 then none else some r_not_implemented
]

-- What becomes of a query. `faults` stands for the remainder by 0 without any home agent, and for
-- an iterator in front of the first, for a negative offset whose remainder is not 0.
pub data Outcome (S : Type 0) : Type 0 where
  dispatched : S → Outcome S
  completed : Rcode → Outcome S
  faults : Outcome S

module _ {S : Type 0} (enabled : S → Bool) where
  -- The loop, with the rounds that are left and what is behind the iterator `hs`, which goes back
  -- to `begin` at the end.
  unfoldable pub pick : ℕ → List S → List S → Option S
  pick zero hs begin = none
  pick (suc n) [] begin = none
  pick (suc n) (s ∷ []) begin =
      let others = pick n begin begin in if enabled s then some s else others
  pick (suc n) (s ∷ s' ∷ rest) begin =
      let others = pick n (s' ∷ rest) begin in if enabled s then some s else others

  -- The offset is signed: from 2 ^ 63 on the pattern is that of a negative number, and its remainder
  -- is 0 or negative.
  unfoldable pub dispatch : ℕ → List S → Outcome S
  dispatch my_offset speakers =
      if length speakers == 0
      then faults
      else if ltb my_offset 9223372036854775808
      then elim (pick (length speakers) (drop (my_offset % length speakers) speakers) speakers) [
        | none ↦ completed r_server_failure
        | some s ↦ dispatched s
      ]
      else if (18446744073709551616 - my_offset) % length speakers == 0
      then elim (pick (length speakers) speakers speakers) [
        | none ↦ completed r_server_failure
        | some s ↦ dispatched s
      ]
      else faults

  -- `offset_` after the call, a signed 64-bit word as its pattern, and the outcome.
  unfoldable pub process_query : ℕ → List S → DnsQuery → ℕ × Outcome S
  process_query offset speakers query = elim (sanity_check query) [
    | some rcode ↦ (offset, completed rcode)
    | none ↦ ((offset + 1) % 18446744073709551616, dispatch offset speakers)
  ]
