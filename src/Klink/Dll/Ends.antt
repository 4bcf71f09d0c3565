-- ===== src/Klink/Dll/Ends.antt =====
-- The commands at the ends of a doubly linked list.
use pweb.Prelude.{◌≤◌, ◌≡◌, refl, ◌∙◌, false, some, [], ◌∷◌, ◌++◌, arith, ◌==◌}
use pweb.Klink.Dll.{Ptr, null, Heap, write, link_only, unlink_tail}
use pweb.Klink.Dll.Links.{
  Cell, Cells, node_at, times, last_or, once-split, once-right, once-before, times-without,
  times-append, first_or-append, last_or-append, once_cons, left, right, join, frame,
}
use pweb.Klink.Dll.Steps.{
  dll, IsDll, load_lem, then_lem, set_next_lem, set_prev_lem, write_same, write_other,
}

-- The last node of several is left out.
pub unlink_tail-IsDll :
    (h : Heap) (fs : Cells) (x c : Cell)
    → IsDll h (fs ++ (x ∷ c ∷ []))
    → (h' : Heap) × (unlink_tail (dll h (fs ++ (x ∷ c ∷ []))) ≡ some (tt, dll h' (fs ++ (x ∷ []))))
      × IsDll h' (fs ++ (x ∷ []))
      × (h' c.address ≡ some (node_at c x.address null))
unfolding unlink_tail
unlink_tail-IsDll h fs x c w =
    let before : Ptr = last_or null fs in
    let l = right h null null fs (x ∷ c ∷ []) w.links in
    let h1 : Heap = write h x.address (some (node_at x before null)) in
    let from_x : (a : Ptr) → times a (x ∷ c ∷ []) ≤ 1 = once-right fs (x ∷ c ∷ []) w.once in
    let x_c : (c.address == x.address) ≡ false =
      ground (arith, (once-split [] x (c ∷ []) from_x).1) in
    let nulls : times null (x ∷ c ∷ []) ≡ 0 =
      omega (arith, w.null_out, times-append null fs (x ∷ c ∷ [])) in
    let x_null : (x.address == null) ≡ false = ground (arith, nulls) in
    let c_null : (c.address == null) ≡ false = ground (arith, nulls) in
    (
      h1,
      rw
          (
            last_or-append null fs (x ∷ c ∷ []),
            last_or-append null fs (x ∷ []),
            first_or-append null fs (x ∷ c ∷ []),
            first_or-append null fs (x ∷ []),
          )
          (then_lem _ _ refl (
            then_lem _ _ (load_lem c.address _ _ c_null (l.1).0)
              (then_lem _ _ refl (set_next_lem x.address null _ _ x_null l.0)))),
      record {
        links =
            join h1 null null fs (x ∷ [])
              (frame h x.address _ null x.address fs (once-before fs x [] (c ∷ []) w.once)
                (left h null null fs (x ∷ c ∷ []) w.links))
              (write_same h x.address _, tt);
        once = λ a. omega (arith, w.once a, times-without a fs x c []);
        null_out = omega (arith, w.null_out, times-without null fs x c []);
      },
      write_other h x.address c.address _ x_c ∙ (l.1).0,
    )

-- The first node of a list.
pub link_only-IsDll :
    (h : Heap) (c : Cell) (p q : Ptr)
    → h c.address ≡ some (node_at c p q)
    → (c.address == null) ≡ false
    → (h' : Heap) × (link_only c.address (dll h []) ≡ some (tt, dll h' (c ∷ [])))
      × IsDll h' (c ∷ [])
unfolding link_only
link_only-IsDll h c p q at there =
    let h1 : Heap = write h c.address (some (node_at c p null)) in
    (
      write h1 c.address (some (node_at c null null)),
      then_lem _ _ refl (
          then_lem _ _ refl (
            then_lem _ _ (set_next_lem c.address null _ _ there at)
              (set_prev_lem c.address null _ _ there (write_same h c.address _)))),
      record {
        links = (write_same h1 c.address _, tt);
        once = once_cons c [] refl (λ a. omega arith);
        null_out = rw there refl;
      },
    )
