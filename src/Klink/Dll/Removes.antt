-- ===== src/Klink/Dll/Removes.antt =====
-- The commands that take a node out of a doubly linked list.
use pweb.Prelude.{◌≤◌, ◌≡◌, refl, true, false, none, some, [], ◌∷◌, ◌++◌, arith, ◌==◌}
use pweb.Klink.Dll.{Ptr, null, Node, Heap, write, Dll, free, set_empty, remove_tail}
use pweb.Klink.Dll.Links.{
  Cell, Cells, node_at, times, first_or, last_or, first-without, once-out, last_or-append,
}
use pweb.Klink.Dll.Ends.{unlink_tail-IsDll}
use pweb.Klink.Dll.Steps.{
  dll, IsDll, frame-IsDll, with_heap, load_lem, then_lem, set_prev_lem, write_same,
}
use pweb.Klink.Dll.Guards.{first_or-apart, address-not_null}

free_lem :
    (p : Ptr) (n : Node) (d : Dll)
    → (p == null) ≡ false
    → d.heap p ≡ some n
    → free p d ≡ some (tt, with_heap d (write d.heap p none))
unfolding free
free_lem p n d e at = rw e (then_lem _ _ (load_lem p n d e at) refl)

first_is_last : (c : Cell) → (c.address == c.address) ≡ true
first_is_last c = ground arith

first_is_not_last :
    (fs : Cells) (x c : Cell)
    → ((a : Ptr) → times a (fs ++ (x ∷ c ∷ [])) ≤ 1)
    → (last_or null (fs ++ (x ∷ c ∷ [])) == first_or null (fs ++ (x ∷ c ∷ []))) ≡ false
first_is_not_last fs x c once =
    let first : (first_or null (fs ++ (x ∷ c ∷ [])) == c.address) ≡ false =
      rw (first-without fs x c []) (first_or-apart c.address fs x [] (once-out fs x c [] once)) in
    rw (last_or-append null fs (x ∷ c ∷ [])) (ground (arith, first))

-- The last of several nodes goes, and stays in the heap.
pub remove_tail-after :
    (h : Heap) (fs : Cells) (x c : Cell)
    → IsDll h (fs ++ (x ∷ c ∷ []))
    → (h' : Heap) × (remove_tail (dll h (fs ++ (x ∷ c ∷ []))) ≡ some (tt, dll h' (fs ++ (x ∷ []))))
      × IsDll h' (fs ++ (x ∷ []))
      × (h' c.address ≡ some (node_at c null null))
unfolding remove_tail
remove_tail-after h fs x c w =
    let (h1, run, w1, at) = unlink_tail-IsDll h fs x c w in
    let not_null = address-not_null fs x c [] w.null_out in
    (
      write h1 c.address (some (node_at c null null)),
      then_lem _ _ refl (
          then_lem _ _ refl (
            rw (first_is_not_last fs x c w.once) (
              then_lem _ _ run (
                rw (last_or-append null fs (x ∷ c ∷ []))
                  (set_prev_lem c.address null _ _ not_null at))))),
      frame-IsDll h1 c.address _ (fs ++ (x ∷ [])) (once-out fs x c [] w.once) w1,
      write_same h1 c.address _,
    )

-- The only node is deleted.
pub remove_tail-only :
    (h : Heap) (c : Cell)
    → IsDll h (c ∷ [])
    → remove_tail (dll h (c ∷ [])) ≡ some (tt, dll (write h c.address none) [])
unfolding remove_tail set_empty
remove_tail-only h c w = then_lem _ _ refl (
    then_lem _ _ refl (
      rw (first_is_last c) (
        then_lem _ _ (free_lem c.address _ _ (ground (arith, w.null_out)) (w.links).0)
          (then_lem _ _ refl refl))))
