-- ===== src/Klink/Cache/Adds.antt =====
-- `add`: the cache as the list of its entries.
use pweb.Prelude.{
  ℕ, suc, ◌+◌, ◌%◌, ◌<◌, ◌≤◌, ◌≡◌, refl, sym, ◌∙◌, Bool, false, inl, inr, ◌||◌, none, some, ◌∷◌,
  arith, length, ◌==◌, Bool-cases, if◌then◌else◌,
}
use pweb.Klink.OverlayId.{OverlayId, HostAddress, rank, get_overlay_id}
use pweb.Klink.LookupTable.{Table, find, lookup, add}
use pweb.Klink.LookupTable
use pweb.Klink.LookupTable.Laws.{put, contents, find-contents, insert-IsOrdered, insert-contents}
use pweb.Klink.Message.Init.{RoutingTable, no_address}
use pweb.Klink.Dll.{Ptr, null, Heap, write, new_node, append_to_head}
use pweb.Klink.Dll.Links.{Cell, Cells, times, node_at}
use pweb.Klink.Dll.Steps.{frame-IsDll, write_same}
use pweb.Klink.Dll.Moves.{append_to_head-IsDll}
use pweb.Klink.Cache.{Peer, add_key, insert_node, copy_key, copy_address}
use pweb.Klink.Cache.View.{
  entries, holder, ranked, ranked-same, touch, without_last, locate, holder-here, holder-none,
  find-here, find-none,
}
use pweb.Klink.Cache.Lru.{cache, IsLru, then_op, on_list_lem, lookup-some, lookup-none}

add_lem :
    {V : Type 0} (key : OverlayId) (v : V) (t : Table OverlayId V)
    → find rank key t ≡ none
    → (add rank key v t).0 ≡ LookupTable.insert rank key v t
unfolding add
add_lem key v t e = rw (e, add) refl

put-holder :
    (cells : Cells) (hm : Table OverlayId Ptr) (c : Cell) (i : ℕ)
    → contents rank hm i ≡ holder i cells
    → put (rank c.key) (some c.address) (contents rank hm) i ≡ holder i (c ∷ cells)
put-holder cells hm c i same = elim (Bool-cases (rank c.key == i)) [
  | inl this ↦ rw this refl
  | inr that ↦ rw that same
]

ranked-cons :
    (cells : Cells) (c : Cell) (i : ℕ)
    → ranked (rank c.key) cells ≡ 0
    → ranked i cells ≤ 1
    → ranked i (c ∷ cells) ≤ 1
ranked-cons cells c i out apart = elim (Bool-cases (rank c.key == i)) [
  | inl this ↦
      let same = ranked-same (rank c.key) i cells this in rw this (omega (arith, same, out))
  | inr that ↦ rw that apart
]

-- A node at an address that the list does not have becomes the first.
pub insert_node-IsLru :
    (h : Heap) (cells : Cells) (hm : Table OverlayId Ptr) (capacity : ℕ) (c : Cell)
    → IsLru h cells hm capacity
    → length cells < capacity
    → (c.address == null) ≡ false
    → times c.address cells ≡ 0
    → ranked (rank c.key) cells ≡ 0
    → (h' : Heap) × (insert_node c.address c.key c.value (cache h cells hm capacity)
        ≡ some (tt, cache h' (c ∷ cells) (LookupTable.insert rank c.key c.address hm) capacity))
      × IsLru h' (c ∷ cells) (LookupTable.insert rank c.key c.address hm) capacity
unfolding insert_node new_node add_key
insert_node-IsLru h cells hm capacity c w room not_null fresh out =
    let h1 : Heap = write h c.address (some (node_at c null null)) in
    let w1 = frame-IsDll h c.address (some (node_at c null null)) cells fresh w.list in
    let (h2, run, w2) =
      append_to_head-IsDll h1 c cells null null w1 (write_same h c.address _) not_null fresh in
    let missing : find rank c.key hm ≡ none =
      find-contents rank c.key hm ∙ w.agree (rank c.key) ∙ holder-none (rank c.key) cells out in
    let counted : (length cells + 1) % 4294967296 ≡ suc (length cells) =
      omega (arith, room, w.small) in
    (
      h2,
      then_op _ _ (on_list_lem (new_node c.address c.key c.value) _ _ _ refl) (
          then_op _ _ (on_list_lem (append_to_head c.address) _ _ _ run)
            (then_op _ _ refl (rw (add_lem c.key c.address hm missing, counted) refl))),
      record {
        list = w2;
        ordered = insert-IsOrdered rank c.key c.address hm w.ordered;
        agree = λ i.
            insert-contents rank c.key c.address hm i (sym (find-contents rank c.key hm) ∙ missing)
            ∙ put-holder cells hm c i (w.agree i);
        apart = λ i. ranked-cons cells c i out (w.apart i);
        fits = omega (arith, room);
        small = w.small;
      },
    )

-- What the list of entries does when an entry is added to it.
abbrev pub is_refused : Peer → OverlayId → RoutingTable → Bool
is_refused peer key l =
    (lookup rank key no_address peer.proactive_cache).1
    || (lookup rank key no_address l).1
    || (lookup rank key no_address peer.routing_table).1
    || get_overlay_id key == get_overlay_id peer.overlay_id

abbrev pub with_room : ℕ → OverlayId → RoutingTable → RoutingTable
with_room capacity key l =
    if length l == capacity
    then (if (lookup rank key no_address l).1 then touch key l else without_last l)
    else l

abbrev pub with_entry : Peer → OverlayId → HostAddress → RoutingTable → RoutingTable
with_entry peer key value l =
    if is_refused peer key l then l else (copy_key key, copy_address value) ∷ l

-- The table and the list of entries agree on whether a key is there.
pub lookup-entries :
    (h : Heap) (cells : Cells) (hm : Table OverlayId Ptr) (capacity : ℕ) (key : OverlayId)
    → IsLru h cells hm capacity
    → (lookup rank key null hm).1 ≡ (lookup rank key no_address (entries cells)).1
lookup-entries h cells hm capacity key w = elim (locate (rank key) cells) [
  | inl out ↦
      let missing : find rank key hm ≡ none =
        find-contents rank key hm ∙ w.agree (rank key) ∙ holder-none (rank key) cells out in
      rw
        (
          lookup-none key null hm missing,
          lookup-none key no_address (entries cells) (find-none key cells out),
        )
        refl
  | inr (fs, c, ys, e, this, out) ↦
      let here : holder (rank key) cells ≡ some c.address =
        rw e (holder-here (rank key) fs c ys this out) in
      let there : find rank key hm ≡ some c.address =
        find-contents rank key hm ∙ w.agree (rank key) ∙ here in
      let value : find rank key (entries cells) ≡ some c.value =
        rw e (find-here key fs c ys this out) in
      rw
        (
          lookup-some key null c.address hm there,
          lookup-some key no_address c.value (entries cells) value,
        )
        refl
]

-- A key that is not in the list of entries is not in the list of nodes.
pub ranked-absent :
    (cells : Cells) (key : OverlayId)
    → (lookup rank key no_address (entries cells)).1 ≡ false
    → ranked (rank key) cells ≡ 0
ranked-absent cells key e = elim (locate (rank key) cells) [
  | inl out ↦ out
  | inr (fs, c, ys, same, this, out) ↦
      let value : find rank key (entries cells) ≡ some c.value =
        rw same (find-here key fs c ys this out) in
      absurd (cc (rw (lookup-some key no_address c.value (entries cells) value) at e))
]
