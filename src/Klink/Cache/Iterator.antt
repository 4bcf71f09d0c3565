-- ===== src/Klink/Cache/Iterator.antt =====
-- `CacheIterator`, dnsgw_test_ha/klink/plnode/ds/cache_iterator.h, and a loop that takes what it
-- gives until it has no more.
use pweb.Prelude.{
  ℕ, zero, suc, ◌<◌, ◌≡◌, refl, ap, ◌∙◌, Bool, false, not, none, some, [], ◌∷◌, arith, length, ◌==◌,
  if◌then◌else◌,
}
use pweb.Klink.Message.Init.{RoutingTable}
use pweb.Klink.Dll.{Ptr, null, Node, Heap, Dll, Cmd, ◌>>=◌, pure, load, get_head}
use pweb.Klink.Dll.Links.{Cells, times, first_or, node_at, Links}
use pweb.Klink.Dll.Steps.{IsDll, dll, then_lem, load_lem}
use pweb.Klink.Cache.View.{entries}

unfoldable pub reset_iterator : Cmd Ptr
reset_iterator = get_head

unfoldable pub has_more : Ptr → Bool
has_more current = not (current == null)

-- The node that is returned, and where the iterator is after it.
unfoldable pub get_next : Ptr → Cmd (Ptr × Ptr)
get_next current =
    if current == null then pure (null, null) else (load current >>= λ n. pure (current, n.next))

-- The keys and values that the loop meets, `none` when the fuel is used up.
unfoldable pub collect : ℕ → Ptr → Cmd RoutingTable
collect zero current d = none
collect (suc n) current d =
    let rest = λ (step : Ptr × Ptr).
      (load step.0 >>= λ node. collect n step.1 >>= λ l. pure ((node.key, node.value) ∷ l)) in
    if has_more current then (get_next current >>= rest) d else some ([], d)

get_next_lem :
    (p : Ptr) (n : Node) (d : Dll)
    → (p == null) ≡ false
    → load p d ≡ some (n, d)
    → get_next p d ≡ some ((p, n.next), d)
unfolding get_next
get_next_lem p n d not_null here = rw not_null (then_lem _ _ here refl)

collect-links :
    (h : Heap) (d : Dll) (before : Ptr) (cells : Cells) (fuel : ℕ)
    → d.heap ≡ h
    → Links h before cells null
    → times null cells ≡ 0
    → length cells < fuel
    → collect fuel (first_or null cells) d ≡ some (entries cells, d)
unfolding collect has_more
collect-links h d before cells zero same l nulls enough = absurd (omega (arith, enough))
collect-links h d before [] (suc n) same l nulls enough = refl
collect-links h d before (c ∷ cs) (suc n) same (at, l) nulls enough =
    let not_null : (c.address == null) ≡ false = ground (arith, nulls) in
    let here = load_lem c.address _ d not_null (ap (λ (g : Heap). g c.address) same ∙ at) in
    let ih =
      collect-links h d c.address cs n same l (ground (arith, nulls)) (omega (arith, enough)) in
    let next = get_next_lem c.address (node_at c before (first_or null cs)) d not_null here in
    rw not_null (then_lem _ _ next (then_lem _ _ here (then_lem _ _ ih refl)))

-- From its reset, the iterator meets each entry of the list once, in order, and comes to an end.
pub collect-entries :
    (h : Heap) (cells : Cells) (fuel : ℕ)
    → IsDll h cells
    → length cells < fuel
    → (reset_iterator >>= collect fuel) (dll h cells) ≡ some (entries cells, dll h cells)
unfolding reset_iterator
collect-entries h cells fuel w enough =
    then_lem _ _ refl (collect-links h (dll h cells) null cells fuel refl w.links w.null_out enough)
