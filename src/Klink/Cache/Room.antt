-- ===== src/Klink/Cache/Room.antt =====
-- Making room: the last entry is evicted.
use pweb.Prelude.{
  ℕ, suc, ◌+◌, ◌%◌, ◌≤◌, ◌≡◌, refl, sym, ◌∙◌, true, false, inl, inr, none, some, [], ◌∷◌, ◌++◌,
  arith, length, length-append, ◌==◌, Bool-cases, if◌then◌else◌,
}
use pweb.Klink.OverlayId.{OverlayId, rank}
use pweb.Klink.LookupTable.{Table, find, erase, remove}
use pweb.Klink.LookupTable.Laws.{put, contents, find-contents, erase-IsOrdered, erase-contents}
use pweb.Klink.Dll.{Ptr, null, Heap, load, get_tail, remove_tail}
use pweb.Klink.Dll.Links.{Cell, Cells, snoc-append, last_or-append}
use pweb.Klink.Dll.Steps.{IsDll, load_lem}
use pweb.Klink.Dll.Guards.{address-not_null}
use pweb.Klink.Dll.Removes.{remove_tail-after}
use pweb.Klink.Cache.{Cache, pure, remove_key, evict_node, evict, make_room}
use pweb.Klink.Cache.View.{holder, ranked, ranked-same, ranked-append, holder-here, holder-none}
use pweb.Klink.Cache.Lru.{cache, IsLru, then_op, on_list_lem}
use pweb.Klink.Cache.Hits.{process_hit-absent}

remove_lem :
    {V : Type 0} (key : OverlayId) (v : V) (t : Table OverlayId V)
    → find rank key t ≡ some v
    → (remove rank key t).0 ≡ erase rank key t
unfolding remove
remove_lem key v t e = rw (e, remove) refl

evict_node-at :
    (tail p : Ptr) (c c' : Cache)
    → tail ≡ p
    → (p == null) ≡ false
    → evict_node p c ≡ some (tt, c')
    → (if tail == null then pure tt else evict_node tail) c ≡ some (tt, c')
evict_node-at tail p c c' e not_null run = rw (e, not_null) run

apart-last :
    (fs : Cells) (x c : Cell)
    → ((i : ℕ) → ranked i (fs ++ (x ∷ c ∷ [])) ≤ 1)
    → ranked (rank c.key) (fs ++ (x ∷ [])) ≡ 0
apart-last fs x c apart =
    let this : (rank c.key == rank c.key) ≡ true = ground arith in
    let i : ℕ = rank c.key in
    let whole = ranked-append i fs (x ∷ c ∷ []) in
    let part = ranked-append i fs (x ∷ []) in
    let grow : ranked i (x ∷ c ∷ []) ≡ suc (ranked i (x ∷ [])) = ground (arith, this) in
    omega (arith, apart i, whole, part, grow)

-- The cache with the last node out of the list and of the table, before it is counted out.
abbrev pub evicted : Heap → Cells → Cell → Cells → Table OverlayId Ptr → ℕ → Cache
evicted h fs c cells hm capacity = record (cache h fs (erase rank c.key hm) capacity) {
  size = length cells;
}

evict-evicted :
    (h : Heap) (fs : Cells) (x c : Cell) (hm : Table OverlayId Ptr) (capacity : ℕ)
    → IsLru h (fs ++ (x ∷ c ∷ [])) hm capacity
    → (h' : Heap) × (evict (cache h (fs ++ (x ∷ c ∷ [])) hm capacity)
        ≡ some (tt, evicted h' (fs ++ (x ∷ [])) c (fs ++ (x ∷ c ∷ [])) hm capacity))
      × IsDll h' (fs ++ (x ∷ []))
unfolding evict evict_node remove_key
evict-evicted h fs x c hm capacity w =
    let (h1, run, w1, at) = remove_tail-after h fs x c w.list in
    let not_null = address-not_null fs x c [] w.list.null_out in
    let out = apart-last fs x c w.apart in
    let this : (rank c.key == rank c.key) ≡ true = ground arith in
    let found : holder (rank c.key) (fs ++ (x ∷ c ∷ [])) ≡ some c.address =
      rw (sym (snoc-append fs x (c ∷ [])))
        (holder-here (rank c.key) (fs ++ (x ∷ [])) c [] this out) in
    let there : find rank c.key hm ≡ some c.address =
      find-contents rank c.key hm ∙ w.agree (rank c.key) ∙ found in
    (
      h1,
      then_op _ _ (on_list_lem get_tail _ _ _ refl) (
          evict_node-at _ c.address _ _ (last_or-append null fs (x ∷ c ∷ [])) not_null (
            then_op _ _ (on_list_lem remove_tail _ _ _ run) (
              then_op _ _ (on_list_lem (load c.address) _ _ _ (load_lem c.address _ _ not_null at))
                (rw (remove_lem c.key c.address hm there) refl)))),
      w1,
    )

ranked-evicted :
    (i : ℕ) (fs : Cells) (x c : Cell)
    → ranked i (fs ++ (x ∷ c ∷ [])) ≤ 1
    → ranked i (fs ++ (x ∷ [])) ≤ 1
ranked-evicted i fs x c apart =
    ground (arith, apart, ranked-append i fs (x ∷ c ∷ []), ranked-append i fs (x ∷ []))

holder-kept :
    (fs : Cells) (x c : Cell) (i : ℕ)
    → (rank c.key == i) ≡ false
    → holder i (fs ++ (x ∷ c ∷ [])) ≡ holder i (fs ++ (x ∷ []))
holder-kept [] x c i that = rw that refl
holder-kept (f ∷ fs) x c i that = rw (holder-kept fs x c i that) refl

holder-evicted :
    (h : Heap) (fs : Cells) (x c : Cell) (hm : Table OverlayId Ptr) (capacity : ℕ)
    → IsLru h (fs ++ (x ∷ c ∷ [])) hm capacity
    → (i : ℕ) → put (rank c.key) none (contents rank hm) i ≡ holder i (fs ++ (x ∷ []))
holder-evicted h fs x c hm capacity w i =
    let out = apart-last fs x c w.apart in
    elim (Bool-cases (rank c.key == i)) [
      | inl this ↦ rw this (
          sym (
            holder-none i (fs ++ (x ∷ []))
              (sym (ranked-same (rank c.key) i (fs ++ (x ∷ [])) this) ∙ out)))
      | inr that ↦ rw that (w.agree i ∙ holder-kept fs x c i that)
    ]

-- What remains is a cache of one entry less.
evicted-IsLru :
    (h h' : Heap) (fs : Cells) (x c : Cell) (hm : Table OverlayId Ptr) (capacity : ℕ)
    → IsLru h (fs ++ (x ∷ c ∷ [])) hm capacity
    → IsDll h' (fs ++ (x ∷ []))
    → IsLru h' (fs ++ (x ∷ [])) (erase rank c.key hm) capacity
evicted-IsLru h h' fs x c hm capacity w list =
    let longer = length-append fs (x ∷ c ∷ []) in
    record {
      list = list;
      ordered = erase-IsOrdered rank c.key hm w.ordered;
      agree =
          λ i. erase-contents rank c.key hm i w.ordered ∙ holder-evicted h fs x c hm capacity w i;
      apart = λ i. ranked-evicted i fs x c (w.apart i);
      fits = omega (arith, w.fits, longer, length-append fs (x ∷ []));
      small = w.small;
    }

-- A key that is missed in a full cache costs the last entry.
pub make_room-absent :
    (h : Heap) (fs : Cells) (x c : Cell) (hm : Table OverlayId Ptr) (capacity : ℕ) (key : OverlayId)
    → IsLru h (fs ++ (x ∷ c ∷ [])) hm capacity
    → ranked (rank key) (fs ++ (x ∷ c ∷ [])) ≡ 0
    → (h' : Heap) × (make_room key (cache h (fs ++ (x ∷ c ∷ [])) hm capacity)
        ≡ some (tt, cache h' (fs ++ (x ∷ [])) (erase rank c.key hm) capacity))
      × IsLru h' (fs ++ (x ∷ [])) (erase rank c.key hm) capacity
unfolding make_room
make_room-absent h fs x c hm capacity key w out =
    let (h1, run, list) = evict-evicted h fs x c hm capacity w in
    let cells : Cells = fs ++ (x ∷ c ∷ []) in
    let more = length-append fs (x ∷ c ∷ []) in
    let less = length-append fs (x ∷ []) in
    let counted : (length (fs ++ (x ∷ c ∷ [])) + 4294967295) % 4294967296
        ≡ length (fs ++ (x ∷ [])) =
      omega (arith, more, less, w.fits, w.small) in
    (
      h1,
      then_op _ _ (process_hit-absent h cells hm capacity key w out)
          (then_op _ _ run (rw counted refl)),
      evicted-IsLru h h1 fs x c hm capacity w list,
    )
