-- ===== src/Klink/Cache/Hits.antt =====
-- A hit makes its entry the first, and a lookup finds what the list of entries has.
use pweb.Prelude.{
  ℕ, ◌≡◌, refl, sym, ◌∙◌, true, false, inl, inr, none, some, ◌∷◌, ◌++◌, arith, ◌==◌, Bool-cases,
}
use pweb.Klink.OverlayId.{OverlayId, HostAddress, rank}
use pweb.Klink.LookupTable.{Table, find, lookup}
use pweb.Klink.LookupTable.Laws.{find-contents}
use pweb.Klink.Dll.{Ptr, null, Heap, load, move_to_head}
use pweb.Klink.Dll.Links.{Cell, Cells, node_at, first_or}
use pweb.Klink.Dll.Steps.{IsDll, dll, load_lem}
use pweb.Klink.Dll.Moves.{move_to_head-IsDll}
use pweb.Klink.Cache.{process_hit, lookup_entry, hit_value}
use pweb.Klink.Cache.View.{
  entries, holder, ranked, ranked-same, ranked-move, length-move, touch, locate, holder-here,
  holder-none, holder-skip, entry_of-here, without-here, find-here, entry_of-none, find-none,
}
use pweb.Klink.Cache.Lru.{cache, IsLru, then_op, on_list_lem, lookup-some, lookup-none}

holder-first :
    (i : ℕ) (fs : Cells) (c : Cell) (ys : Cells)
    → ranked (rank c.key) fs ≡ 0
    → holder i (fs ++ (c ∷ ys)) ≡ holder i (c ∷ fs ++ ys)
holder-first i fs c ys out = elim (Bool-cases (rank c.key == i)) [
  | inl this ↦
      let same : rank c.key ≡ i = ground (arith, this) in
      rw this (holder-here i fs c ys this (sym (ranked-same (rank c.key) i fs this) ∙ out))
  | inr that ↦ rw that (holder-skip i fs c ys that)
]

-- The state after a hit.
pub hit-IsLru :
    (h : Heap) (fs : Cells) (c : Cell) (ys : Cells) (hm : Table OverlayId Ptr) (capacity : ℕ)
    (h' : Heap)
    → IsLru h (fs ++ (c ∷ ys)) hm capacity
    → IsDll h' (c ∷ fs ++ ys)
    → ranked (rank c.key) fs ≡ 0
    → IsLru h' (c ∷ fs ++ ys) hm capacity
hit-IsLru h fs c ys hm capacity h' w list out = record {
  list = list;
  ordered = w.ordered;
  agree = λ i. w.agree i ∙ holder-first i fs c ys out;
  apart = λ i. omega (arith, w.apart i, ranked-move i fs c ys);
  fits = omega (arith, w.fits, length-move fs c ys);
  small = w.small;
}

pub process_hit-present :
    (h : Heap) (fs : Cells) (c : Cell) (ys : Cells) (hm : Table OverlayId Ptr) (capacity : ℕ)
    (key : OverlayId)
    → IsLru h (fs ++ (c ∷ ys)) hm capacity
    → (rank c.key == rank key) ≡ true
    → ranked (rank key) fs ≡ 0
    → (h' : Heap) × (process_hit key (cache h (fs ++ (c ∷ ys)) hm capacity)
        ≡ some (true, cache h' (c ∷ fs ++ ys) hm capacity))
      × IsLru h' (c ∷ fs ++ ys) hm capacity
unfolding process_hit
process_hit-present h fs c ys hm capacity key w this out =
    let (h1, run, w1) = move_to_head-IsDll h fs c ys w.list in
    let there : find rank key hm ≡ some c.address =
      find-contents rank key hm ∙ w.agree (rank key) ∙ holder-here (rank key) fs c ys this out in
    (
      h1,
      rw (lookup-some key null c.address hm there, process_hit)
          (then_op _ _ (on_list_lem (move_to_head c.address) tt _ _ run)
            (rw (length-move fs c ys) refl)),
      hit-IsLru h fs c ys hm capacity h1 w w1 (ranked-same (rank c.key) (rank key) fs this ∙ out),
    )

-- A key that no node has is missed.
pub process_hit-absent :
    (h : Heap) (cells : Cells) (hm : Table OverlayId Ptr) (capacity : ℕ) (key : OverlayId)
    → IsLru h cells hm capacity
    → ranked (rank key) cells ≡ 0
    → process_hit key (cache h cells hm capacity) ≡ some (false, cache h cells hm capacity)
unfolding process_hit
process_hit-absent h cells hm capacity key w out =
    let missing : find rank key hm ≡ none =
      find-contents rank key hm ∙ w.agree (rank key) ∙ holder-none (rank key) cells out in
    rw (lookup-none key null hm missing, process_hit) refl

-- What `lookup` does to the entries, and what it returns.
Looked : Heap → Cells → Table OverlayId Ptr → ℕ → OverlayId → HostAddress → Type 0
Looked h cells hm capacity key address =
    (h' : Heap) × (cells' : Cells) × (lookup_entry key address (cache h cells hm capacity)
      ≡ some (lookup rank key address (entries cells), cache h' cells' hm capacity))
    × IsLru h' cells' hm capacity
    × (entries cells' ≡ touch key (entries cells))

lookup-present :
    (h : Heap) (fs : Cells) (c : Cell) (ys : Cells) (hm : Table OverlayId Ptr) (capacity : ℕ)
    (key : OverlayId) (address : HostAddress)
    → IsLru h (fs ++ (c ∷ ys)) hm capacity
    → (rank c.key == rank key) ≡ true
    → ranked (rank key) fs ≡ 0
    → Looked h (fs ++ (c ∷ ys)) hm capacity key address
unfolding Looked lookup_entry hit_value
lookup-present h fs c ys hm capacity key address w this out =
    let (h1, run, w1) = process_hit-present h fs c ys hm capacity key w this out in
    let there : find rank key hm ≡ some c.address =
      find-contents rank key hm ∙ w.agree (rank key) ∙ holder-here (rank key) fs c ys this out in
    let c_null : (c.address == null) ≡ false = ground (arith, w1.list.null_out) in
    let at =
      load_lem c.address (node_at c null (first_or null (fs ++ ys))) (dll h1 (c ∷ fs ++ ys)) c_null
        (w1.list.links).0 in
    (
      h1,
      c ∷ fs ++ ys,
      rw
          (
            lookup-some key null c.address hm there,
            lookup-some key address c.value _ (find-here key fs c ys this out),
            lookup_entry,
          )
          (then_op _ _ run (then_op _ _ (on_list_lem (load c.address) _ _ _ at) refl)),
      w1,
      rw (entry_of-here key fs c ys this out, without-here key fs c ys this out, touch) refl,
    )

-- The lookup answers as the list of entries does, and what it finds becomes the first.
pub lookup_entry-touch :
    (h : Heap) (cells : Cells) (hm : Table OverlayId Ptr) (capacity : ℕ) (key : OverlayId)
    (address : HostAddress)
    → IsLru h cells hm capacity
    → (h' : Heap) × (cells' : Cells) × (lookup_entry key address (cache h cells hm capacity)
        ≡ some (lookup rank key address (entries cells), cache h' cells' hm capacity))
      × IsLru h' cells' hm capacity
      × (entries cells' ≡ touch key (entries cells))
unfolding Looked lookup_entry
lookup_entry-touch h cells hm capacity key address = elim (locate (rank key) cells) [
  | inl out ↦ λ (w : IsLru h cells hm capacity).
      let missing : find rank key hm ≡ none =
        find-contents rank key hm ∙ w.agree (rank key) ∙ holder-none (rank key) cells out in
      (
        h,
        cells,
        rw
            (
              lookup-none key null hm missing,
              lookup-none key address (entries cells) (find-none key cells out),
              lookup_entry,
            )
            refl,
        w,
        rw (entry_of-none key cells out, touch) refl,
      )
  | inr (fs, c, ys, e, this, out) ↦ rw e (λ (w : IsLru h (fs ++ (c ∷ ys)) hm capacity).
      lookup-present h fs c ys hm capacity key address w this out)
]
