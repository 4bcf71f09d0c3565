-- ===== src/Klink/Plexus/Flood.antt =====
-- CACHE_ME messages go to each neighbour while their time to live lasts.
use pweb.Prelude.{
  ◌+◌, ◌-◌, ◌%◌, ◌<◌, ◌≡◌, refl, sym, ap, ◌∙◌, inl, inr, Bool, true, false, some, List, [], ◌∷◌,
  ◌++◌, append-nil, append_assoc, ◌==◌, Bool-cases, if◌then◌else◌, arith,
}
use mathlib.Core.Path.{subst}
use pweb.Klink.OverlayId.{OverlayId, HostAddress, rank}
use pweb.Klink.LookupTable.{find, lookup}
use pweb.Klink.LookupTable.Laws.{IsOrdered}
use pweb.Klink.LookupTable.Iterate.{reset_iterator, find-middle}
use pweb.Klink.Message.{AbsMessage, decrement_overlay_ttl, new_message}
use pweb.Klink.Message.Init.{RoutingTable, no_address}
use pweb.Klink.Plexus.{Message, cache_me, Plexus, add_to_outgoing_queue, count_message}
use pweb.Klink.Plexus.Control.{cache_me_to, flood, learn, handle_cache_me}
use pweb.Klink.Plexus.Client.{World, process_message}

-- A CACHE_ME message in the name of the same peer, with the same time to live, to a neighbour at
-- its address.
abbrev pub IsCopy : AbsMessage → OverlayId → HostAddress → Message → Type 0
IsCopy m dst_oid dst (cache_me b) =
    (b.dest_host ≡ dst.host_name)
    × (b.dest_port ≡ dst.host_port)
    × (b.overlay_ttl ≡ m.overlay_ttl)
    × (b.src_oid ≡ m.src_oid)
    × (b.source_host ≡ m.source_host)
    × (b.source_port ≡ m.source_port)
    × (b.dst_oid ≡ dst_oid)
IsCopy m dst_oid dst _ = ⊥

-- One for each neighbour, in the order of the table.
abbrev pub Copies : AbsMessage → RoutingTable → List Message → Type 0
Copies m [] [] = Unit {0}
Copies m [] (x ∷ xs) = ⊥
Copies m ((dst_oid, dst) ∷ table) [] = ⊥
Copies m ((dst_oid, dst) ∷ table) (x ∷ xs) = IsCopy m dst_oid dst x × Copies m table xs

-- The table finds the address of each of the pairs.
abbrev FoundIn : RoutingTable → RoutingTable → Type 0
FoundIn table [] = Unit {0}
FoundIn table ((k, v) ∷ pairs) = (find rank k table ≡ some v) × FoundIn table pairs

-- The pairs of an ordered table from some point on.
IsOrdered-FoundIn :
    (front pairs : RoutingTable) → IsOrdered rank (front ++ pairs) → FoundIn (front ++ pairs) pairs
IsOrdered-FoundIn front [] w = tt
IsOrdered-FoundIn front ((k, v) ∷ pairs) w =
    let next = append_assoc front ((k, v) ∷ []) pairs in
    (
      find-middle rank front k v pairs w,
      subst (λ (t : RoutingTable). FoundIn t pairs) next
          (IsOrdered-FoundIn (front ++ (k, v) ∷ []) pairs
            (subst (λ (t : RoutingTable). IsOrdered rank t) (sym next) w)),
    )

found_address :
    (k : OverlayId) (v : HostAddress) (table : RoutingTable)
    → find rank k table ≡ some v
    → (lookup rank k no_address table).0 ≡ v
unfolding lookup
found_address k v table e = rw (e, lookup)

flood-Copies :
    (m : AbsMessage) (l : RoutingTable) (s : Plexus)
    → FoundIn (s.router).routing_table l
    → (new : List Message) × ((flood m l s).outgoing ≡ s.outgoing ++ new) × Copies m l new
unfolding flood add_to_outgoing_queue count_message cache_me_to new_message
flood-Copies m [] s w = ([], sym (append-nil s.outgoing), tt)
flood-Copies m ((k, v) ∷ l) s w =
    let (new, e, c) = flood-Copies m l _ w.1 in
    let found = found_address k v (s.router).routing_table w.0 in
    let host = ap (λ (a : HostAddress). a.host_name) found in
    let port = ap (λ (a : HostAddress). a.host_port) found in
    (_ ∷ new, e ∙ append_assoc s.outgoing _ new, ((host, port, refl, refl, refl, refl, refl), c))

learn-outgoing : (m : AbsMessage) (s : Plexus) → (learn m s).outgoing ≡ s.outgoing
unfolding learn
learn-outgoing m s = ground arith

learn-routing_table :
    (m : AbsMessage) (s : Plexus) → ((learn m s).router).routing_table ≡ (s.router).routing_table
unfolding learn
learn-routing_table m s = ground arith

if_true : (b : Bool) (x y : Plexus) → b ≡ true → (if b then x else y) ≡ x
if_true b x y e = rw e refl

if_false : (b : Bool) (x y : Plexus) → b ≡ false → (if b then x else y) ≡ y
if_false b x y e = rw e refl

queue : {s t : Plexus} → s ≡ t → s.outgoing ≡ t.outgoing
queue e = ap (λ (x : Plexus). x.outgoing) e

-- In a proactive peer whose routing table is in the order of its keys, a CACHE_ME message with a
-- time to live of at least 1 and below 256 is sent on to each neighbour once, to the address that
-- the routing table has for it, with a time to live of one less; one with a time to live of 1 is
-- not sent on.
pub cache_me-Copies :
    (w : World) (m : AbsMessage) (s : Plexus)
    → s.proactive ≡ true
    → IsOrdered rank (s.router).routing_table
    → 0 < m.overlay_ttl
    → m.overlay_ttl < 256
    → (new : List Message) × ((process_message w (cache_me m) s).outgoing ≡ s.outgoing ++ new)
      × Copies
          (record m { overlay_ttl = m.overlay_ttl - 1 })
          (if m.overlay_ttl == 1 then [] else (s.router).routing_table)
          new
unfolding process_message handle_cache_me decrement_overlay_ttl reset_iterator
cache_me-Copies w m s on ordered some_time byte =
    let less : (m.overlay_ttl + 255) % 256 ≡ m.overlay_ttl - 1 = omega arith in
    let m1 : AbsMessage = record m { overlay_ttl = m.overlay_ttl - 1 } in
    let zero_or_more = (m.overlay_ttl - 1) == 0 in
    rw less (elim (Bool-cases (m.overlay_ttl == 1)) [
      | inl one ↦
          let done : ((m.overlay_ttl - 1) == 0) ≡ true = ground (arith, one) in
          let t = if_true s.proactive _ s on ∙ if_true zero_or_more (learn m1 s) _ done in
          (
            [],
            queue t ∙ learn-outgoing m1 s ∙ sym (append-nil s.outgoing),
            subst (λ (b : Bool). Copies m1 (if b then [] else (s.router).routing_table) [])
                (sym one) tt,
          )
      | inr many ↦
          let more : ((m.overlay_ttl - 1) == 0) ≡ false = ground (arith, many, some_time) in
          let known : FoundIn ((learn m1 s).router).routing_table
              ((learn m1 s).router).routing_table =
            IsOrdered-FoundIn [] _ (
              subst (λ (t : RoutingTable). IsOrdered rank t) (sym (learn-routing_table m1 s))
                ordered) in
          let (new, e, c) =
            flood-Copies m1 ((learn m1 s).router).routing_table (learn m1 s) known in
          let t = if_true s.proactive _ s on ∙ if_false zero_or_more (learn m1 s) _ more in
          (
            new,
            queue t ∙ e ∙ ap (λ (q : List Message). q ++ new) (learn-outgoing m1 s),
            subst (λ (b : Bool). Copies m1 (if b then [] else (s.router).routing_table) new)
                (sym many)
                (subst (λ (t : RoutingTable). Copies m1 t new) (learn-routing_table m1 s) c),
          )
    ])
