-- ===== src/Klink/Dll/Moves.antt =====
-- What the commands of a doubly linked list do to the nodes that it goes through.
use pweb.Prelude.{◌≡◌, refl, false, inl, inr, some, [], ◌∷◌, ◌++◌, arith, ◌==◌}
use pweb.Klink.Dll.{Ptr, null, Heap, link_head, append_to_head, move_to_head}
use pweb.Klink.Dll.Links.{Cell, Cells, node_at, times, snoc-cases, snoc-append, once-out}
use pweb.Klink.Dll.Relink.{link_head-IsDll, unlink-IsDll}
use pweb.Klink.Dll.Ends.{unlink_tail-IsDll, link_only-IsDll}
use pweb.Klink.Dll.Steps.{dll, IsDll, then_lem}
use pweb.Klink.Dll.Guards.{address-not_null, is_first_or_empty, is_last, is_not_last, is_first}

-- `link_head` in front of a list that is not empty.
link_head-after :
    (h : Heap) (c : Cell) (fs : Cells) (x : Cell) (xs : Cells) (p q : Ptr)
    → IsDll h (fs ++ (x ∷ xs))
    → h c.address ≡ some (node_at c p q)
    → (c.address == null) ≡ false
    → times c.address (fs ++ (x ∷ xs)) ≡ 0
    → (h' : Heap) × (link_head c.address (dll h (fs ++ (x ∷ xs)))
        ≡ some (tt, dll h' (c ∷ fs ++ (x ∷ xs))))
      × IsDll h' (c ∷ fs ++ (x ∷ xs))
link_head-after h c [] x xs p q w at there out = link_head-IsDll h c x xs p q w at there out
link_head-after h c (f ∷ fs) x xs p q w at there out =
    link_head-IsDll h c f (fs ++ (x ∷ xs)) p q w at there out

-- A node that is not in the list becomes its first.
pub append_to_head-IsDll :
    (h : Heap) (c : Cell) (xs : Cells) (p q : Ptr)
    → IsDll h xs
    → h c.address ≡ some (node_at c p q)
    → (c.address == null) ≡ false
    → times c.address xs ≡ 0
    → (h' : Heap) × (append_to_head c.address (dll h xs) ≡ some (tt, dll h' (c ∷ xs)))
      × IsDll h' (c ∷ xs)
unfolding append_to_head
append_to_head-IsDll h c [] p q w at there out =
    let (h', run, w') = link_only-IsDll h c p q at there in (h', then_lem _ _ refl run, w')
append_to_head-IsDll h c (x ∷ xs) p q w at there out =
    let (h', run, w') = link_head-IsDll h c x xs p q w at there out in
    let not_null : (x.address == null) ≡ false = ground (arith, w.null_out) in
    (h', then_lem _ _ refl (rw not_null run), w')

-- A node with others before it becomes the first.
move_to_head-after :
    (h : Heap) (fs : Cells) (x c : Cell) (ys : Cells)
    → IsDll h (fs ++ (x ∷ c ∷ ys))
    → (h' : Heap) × (move_to_head c.address (dll h (fs ++ (x ∷ c ∷ ys)))
        ≡ some (tt, dll h' (c ∷ fs ++ (x ∷ ys))))
      × IsDll h' (c ∷ fs ++ (x ∷ ys))
unfolding move_to_head
move_to_head-after h fs x c [] w =
    let (h1, run, w1, at) = unlink_tail-IsDll h fs x c w in
    let (h2, run', w2) =
      link_head-after h1 c fs x [] x.address null w1 at (address-not_null fs x c [] w.null_out)
        (once-out fs x c [] w.once) in
    (
      h2,
      then_lem _ _ refl (
          then_lem _ _ refl (
            rw (is_first_or_empty fs x c [] w.once w.null_out, is_last fs x c)
              (then_lem _ _ run run'))),
      w2,
    )
move_to_head-after h fs x c (y ∷ ys) w =
    let (h1, run, w1, at) = unlink-IsDll h fs x c y ys w in
    let (h2, run', w2) =
      link_head-after h1 c fs x (y ∷ ys) x.address y.address w1 at
        (address-not_null fs x c (y ∷ ys) w.null_out) (once-out fs x c (y ∷ ys) w.once) in
    (
      h2,
      then_lem _ _ refl (
          then_lem _ _ refl (
            rw (is_first_or_empty fs x c (y ∷ ys) w.once w.null_out, is_not_last fs x c y ys w.once)
              (then_lem _ _ run run'))),
      w2,
    )

-- The node becomes the first; the rest keep their order.
pub move_to_head-IsDll :
    (h : Heap) (fs : Cells) (c : Cell) (ys : Cells)
    → IsDll h (fs ++ (c ∷ ys))
    → (h' : Heap) × (move_to_head c.address (dll h (fs ++ (c ∷ ys)))
        ≡ some (tt, dll h' (c ∷ fs ++ ys)))
      × IsDll h' (c ∷ fs ++ ys)
unfolding move_to_head
move_to_head-IsDll h fs c ys = elim (snoc-cases fs) [
  | inl e ↦ rw e (λ (w : IsDll h (c ∷ ys)).
      (h, then_lem _ _ refl (then_lem _ _ refl (rw (is_first c ys w.null_out) refl)), w))
  | inr (gs, x, e) ↦
      rw (e, snoc-append gs x (c ∷ ys), snoc-append gs x ys) (move_to_head-after h gs x c ys)
]
