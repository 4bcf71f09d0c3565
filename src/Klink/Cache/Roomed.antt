-- ===== src/Klink/Cache/Roomed.antt =====
-- Making room in a full cache, as an operation on the list of entries.
use pweb.Prelude.{
  ℕ, ◌<◌, ◌≤◌, ◌≡◌, refl, sym, ap, ◌∙◌, true, false, inl, inr, some, [], ◌∷◌, ◌++◌, arith, length,
  length-append, ◌==◌, if◌then◌else◌,
}
use pweb.Klink.OverlayId.{OverlayId, rank}
use pweb.Klink.LookupTable.{Table, lookup, erase}
use pweb.Klink.Message.Init.{no_address}
use pweb.Klink.Dll.{Ptr, Heap}
use pweb.Klink.Dll.Links.{Cell, Cells, times, snoc-append, times-append, times-without}
use pweb.Klink.Cache.{make_room}
use pweb.Klink.Cache.View.{
  entries, ranked, touch, entry_of-here, without-here, without_last-append, without_last, locate,
  find-here, find-none,
}
use pweb.Klink.Cache.Hits.{process_hit-present}
use pweb.Klink.Cache.Room.{make_room-absent}
use pweb.Klink.Cache.Lru.{cache, IsLru, then_op, lookup-some, lookup-none}

-- What making room comes to: the list of entries, and that the address is still free.
abbrev pub Roomed : Heap → Cells → Table OverlayId Ptr → ℕ → OverlayId → Ptr → Type 0
Roomed h cells hm capacity key p =
    (h' : Heap) × (cells' : Cells) × (hm' : Table OverlayId Ptr) × (make_room key
        (cache h cells hm capacity)
      ≡ some (tt, cache h' cells' hm' capacity))
    × IsLru h' cells' hm' capacity
    × (entries cells' ≡ (
        if (lookup rank key no_address (entries cells)).1
        then touch key (entries cells)
        else without_last (entries cells)))
    × (times p cells' ≡ 0)
    × ((lookup rank key no_address (entries cells')).1 ≡ false → length cells' < capacity)

make_room-hit :
    (h : Heap) (fs : Cells) (c : Cell) (ys : Cells) (hm : Table OverlayId Ptr) (capacity : ℕ)
    (key : OverlayId) (p : Ptr)
    → IsLru h (fs ++ (c ∷ ys)) hm capacity
    → (rank c.key == rank key) ≡ true
    → ranked (rank key) fs ≡ 0
    → times p (fs ++ (c ∷ ys)) ≡ 0
    → Roomed h (fs ++ (c ∷ ys)) hm capacity key p
unfolding make_room
make_room-hit h fs c ys hm capacity key p w this out free =
    let (h1, run, w1) = process_hit-present h fs c ys hm capacity key w this out in
    let found = lookup-some key no_address c.value _ (find-here key fs c ys this out) in
    let first =
      lookup-some key no_address c.value (entries (c ∷ fs ++ ys))
        (find-here key [] c (fs ++ ys) this refl) in
    (
      h1,
      c ∷ fs ++ ys,
      hm,
      then_op _ _ run refl,
      w1,
      rw (found, entry_of-here key fs c ys this out, without-here key fs c ys this out, touch) refl,
      ground (arith, free, times-append p fs ys, times-append p fs (c ∷ ys)),
      λ e. absurd (cc (rw first at e)),
    )

make_room-evict :
    (h : Heap) (fs : Cells) (x c : Cell) (hm : Table OverlayId Ptr) (capacity : ℕ) (key : OverlayId)
    (p : Ptr)
    → IsLru h (fs ++ (x ∷ c ∷ [])) hm capacity
    → ranked (rank key) (fs ++ (x ∷ c ∷ [])) ≡ 0
    → times p (fs ++ (x ∷ c ∷ [])) ≡ 0
    → Roomed h (fs ++ (x ∷ c ∷ [])) hm capacity key p
make_room-evict h fs x c hm capacity key p w out free =
    let (h1, run, w1) = make_room-absent h fs x c hm capacity key w out in
    let missing = lookup-none key no_address _ (find-none key (fs ++ (x ∷ c ∷ [])) out) in
    let more = length-append fs (x ∷ c ∷ []) in
    let less = length-append fs (x ∷ []) in
    (
      h1,
      fs ++ (x ∷ []),
      erase rank c.key hm,
      run,
      w1,
      rw (missing, sym (snoc-append fs x (c ∷ []))) (sym (without_last-append (fs ++ (x ∷ [])) c)),
      omega (arith, free, times-without p fs x c []),
      λ e. omega (arith, w.fits, more, less),
    )

-- Two or more nodes end with two.
two_last :
    (cells : Cells)
    → 2 ≤ length cells
    → (fs : Cells) × (x : Cell) × (c : Cell) × (cells ≡ fs ++ (x ∷ c ∷ []))
two_last [] two = absurd (omega (arith, two))
two_last (x ∷ []) two = absurd (omega (arith, two))
two_last (x ∷ c ∷ []) two = ([], x, c, refl)
two_last (f ∷ x ∷ c ∷ cs) two =
    let (fs, y, z, e) = two_last (x ∷ c ∷ cs) (omega arith) in (f ∷ fs, y, z, ap (◌∷◌ f) e)

pub make_room-Roomed :
    (h : Heap) (cells : Cells) (hm : Table OverlayId Ptr) (capacity : ℕ) (key : OverlayId) (p : Ptr)
    → 2 ≤ length cells
    → IsLru h cells hm capacity
    → times p cells ≡ 0
    → Roomed h cells hm capacity key p
make_room-Roomed h cells hm capacity key p two = elim (locate (rank key) cells) [
  | inr (fs, c, ys, e, this, out) ↦ rw e (λ (w : IsLru h (fs ++ (c ∷ ys)) hm capacity).
      make_room-hit h fs c ys hm capacity key p w this out)
  | inl out ↦
      let (fs, x, c, e) = two_last cells two in
      let gone : ranked (rank key) (fs ++ (x ∷ c ∷ [])) ≡ 0 =
        ap (λ (l : Cells). ranked (rank key) l) (sym e) ∙ out in
      rw e (λ (w : IsLru h (fs ++ (x ∷ c ∷ [])) hm capacity).
        make_room-evict h fs x c hm capacity key p w gone)
]
