-- ===== src/Klink/Dll/Relink.antt =====
-- A node is linked in front of a list, or taken out of the middle of it.
use pweb.Prelude.{◌≤◌, ◌≡◌, refl, ap, ◌∙◌, false, Option, some, [], ◌∷◌, ◌++◌, arith, ◌==◌}
use pweb.Klink.Dll.{Ptr, null, Heap, write, Dll, Void, link_head, unlink}
use pweb.Klink.Dll.Links.{
  Cell, Cells, node_at, times, first_or, last_or, first-without, last-without, once-split,
  once-right, once-before, times-without, times-append, once_cons, left, right, join, frame,
}
use pweb.Klink.Dll.Steps.{
  dll, IsDll, with_heap, load_lem, then_lem, set_next_lem, set_prev_lem, write_same, write_other,
}

-- Linked in front of the nodes, a node that is not among them becomes the first.
pub link_head-IsDll :
    (h : Heap) (c x : Cell) (xs : Cells) (p q : Ptr)
    → IsDll h (x ∷ xs)
    → h c.address ≡ some (node_at c p q)
    → (c.address == null) ≡ false
    → times c.address (x ∷ xs) ≡ 0
    → (h' : Heap) × (link_head c.address (dll h (x ∷ xs)) ≡ some (tt, dll h' (c ∷ x ∷ xs)))
      × IsDll h' (c ∷ x ∷ xs)
unfolding link_head
link_head-IsDll h c x xs p q w at there out =
    let not_null : (x.address == null) ≡ false = ground (arith, w.null_out) in
    let apart : (x.address == c.address) ≡ false = ground (arith, out) in
    let apart' : (c.address == x.address) ≡ false = ground (arith, out) in
    let rest : times x.address xs ≡ 0 = ground (arith, w.once x.address) in
    let out_xs : times c.address xs ≡ 0 = ground (arith, out) in
    let h1 : Heap = write h c.address (some (node_at c p x.address)) in
    let h2 : Heap = write h1 x.address (some (node_at x c.address (first_or null xs))) in
    let h3 : Heap = write h2 c.address (some (node_at c null x.address)) in
    let at_x : h1 x.address ≡ some (node_at x null (first_or null xs)) =
      write_other h c.address x.address _ apart ∙ (w.links).0 in
    let at_c : h2 c.address ≡ some (node_at c p x.address) =
      write_other h1 x.address c.address _ apart' ∙ write_same h c.address _ in
    (
      h3,
      then_lem _ _ refl (
          then_lem _ _ (set_next_lem c.address x.address _ _ there at) (
            then_lem _ _ (set_prev_lem x.address c.address _ _ not_null at_x)
              (then_lem _ _ refl (set_prev_lem c.address null _ _ there at_c)))),
      record {
        links = (
          write_same h2 c.address _,
          (
            write_other h2 c.address x.address _ apart ∙ write_same h1 x.address _,
            frame h2 c.address _ x.address null xs out_xs (
                frame h1 x.address _ x.address null xs rest
                  (frame h c.address _ x.address null xs out_xs (w.links).1)),
          ),
        );
        once = once_cons c (x ∷ xs) out w.once;
        null_out = rw there (w.null_out);
      },
    )

-- The list goes on without a node that is neither its first nor its last.
pub unlink-IsDll :
    (h : Heap) (fs : Cells) (x c y : Cell) (ys : Cells)
    → IsDll h (fs ++ (x ∷ c ∷ y ∷ ys))
    → (h' : Heap) × (unlink c.address (dll h (fs ++ (x ∷ c ∷ y ∷ ys)))
        ≡ some (tt, dll h' (fs ++ (x ∷ y ∷ ys))))
      × IsDll h' (fs ++ (x ∷ y ∷ ys))
      × (h' c.address ≡ some (node_at c x.address y.address))
unfolding unlink
unlink-IsDll h fs x c y ys w =
    let d : Dll = dll h (fs ++ (x ∷ c ∷ y ∷ ys)) in
    let before : Ptr = last_or null fs in
    let fl = left h null null fs (x ∷ c ∷ y ∷ ys) w.links in
    let l = right h null null fs (x ∷ c ∷ y ∷ ys) w.links in
    let h1 : Heap = write h x.address (some (node_at x before y.address)) in
    let h2 : Heap = write h1 y.address (some (node_at y x.address (first_or null ys))) in
    let from_x : (a : Ptr) → times a (x ∷ c ∷ y ∷ ys) ≤ 1 = once-right fs (x ∷ c ∷ y ∷ ys) w.once in
    let from_c : (a : Ptr) → times a (c ∷ y ∷ ys) ≤ 1 = once-right (x ∷ []) (c ∷ y ∷ ys) from_x in
    let from_y : (a : Ptr) → times a (y ∷ ys) ≤ 1 = once-right (c ∷ []) (y ∷ ys) from_c in
    let x_later : times x.address (c ∷ y ∷ ys) ≡ 0 = (once-split [] x (c ∷ y ∷ ys) from_x).1 in
    let c_later : times c.address (y ∷ ys) ≡ 0 = (once-split [] c (y ∷ ys) from_c).1 in
    let x_fs = once-before fs x [] (c ∷ y ∷ ys) w.once in
    let y_fs = once-before fs y (x ∷ c ∷ []) ys w.once in
    let x_c : (c.address == x.address) ≡ false = ground (arith, x_later) in
    let y_c : (c.address == y.address) ≡ false = ground (arith, c_later) in
    let y_x : (y.address == x.address) ≡ false = ground (arith, x_later) in
    let x_y : (x.address == y.address) ≡ false = ground (arith, x_later) in
    let x_ys : times x.address ys ≡ 0 = ground (arith, x_later) in
    let y_ys : times y.address ys ≡ 0 = (once-split [] y ys from_y).1 in
    let nulls : times null (x ∷ c ∷ y ∷ ys) ≡ 0 =
      omega (arith, w.null_out, times-append null fs (x ∷ c ∷ y ∷ ys)) in
    let x_null : (x.address == null) ≡ false = ground (arith, nulls) in
    let y_null : (y.address == null) ≡ false = ground (arith, nulls) in
    let c_null : (c.address == null) ≡ false = ground (arith, nulls) in
    let at_c1 : h1 c.address ≡ some (node_at c x.address y.address) =
      write_other h x.address c.address _ x_c ∙ (l.1).0 in
    let at_y1 : h1 y.address ≡ some (node_at y c.address (first_or null ys)) =
      write_other h x.address y.address _ y_x ∙ ((l.1).1).0 in
    let returned : Dll → Option (Void × Dll) = λ (e : Dll). some (tt, e) in
    let same : with_heap d h2 ≡ dll h2 (fs ++ (x ∷ y ∷ ys)) =
      rw (first-without fs x c (y ∷ ys), last-without fs x c y ys) refl in
    (
      h2,
      then_lem _ _ (load_lem c.address _ d c_null (l.1).0) (
            then_lem _ _ (set_next_lem x.address y.address _ d x_null l.0) (
              then_lem _ _ (load_lem c.address _ (with_heap d h1) c_null at_c1)
                (set_prev_lem y.address x.address _ (with_heap d h1) y_null at_y1)))
          ∙ ap returned same,
      record {
        links =
            join h2 null null fs (x ∷ y ∷ ys)
              (frame h1 y.address _ null x.address fs y_fs
                (frame h x.address _ null x.address fs x_fs fl))
              (
                write_other h1 y.address x.address _ x_y ∙ write_same h x.address _,
                (
                  write_same h1 y.address _,
                  frame h1 y.address _ y.address null ys y_ys
                      (frame h x.address _ y.address null ys x_ys (((l.1).1).1)),
                ),
              );
        once = λ a. omega (arith, w.once a, times-without a fs x c (y ∷ ys));
        null_out = omega (arith, w.null_out, times-without null fs x c (y ∷ ys));
      },
      write_other h1 y.address c.address _ y_c ∙ at_c1,
    )
