-- ===== src/Klink/Dll/Steps.antt =====
-- The steps that the commands of a doubly linked list are made of.
use pweb.Prelude.{◌≤◌, ◌≡◌, refl, false, Option, some, arith, ◌==◌}
use pweb.Klink.Dll.{Ptr, null, Node, Heap, write, Dll, Cmd, ◌>>=◌, load, set_next, set_prev}
use pweb.Klink.Dll.Links.{Cells, times, first_or, last_or, Links, frame}

-- The list that goes through the nodes.
abbrev pub dll : Heap → Cells → Dll
dll h cells = record { heap = h; head = first_or null cells; tail = last_or null cells }

pub record IsDll (h : Heap) (cells : Cells) : Type 0 where
  pub links : Links h null cells null
  pub once : (a : Ptr) → times a cells ≤ 1
  pub null_out : times null cells ≡ 0

abbrev pub with_heap : Dll → Heap → Dll
with_heap d h = record d { heap = h }

pub load_lem :
    (p : Ptr) (n : Node) (d : Dll)
    → (p == null) ≡ false
    → d.heap p ≡ some n
    → load p d ≡ some (n, d)
unfolding load
load_lem p n d e at = rw (e, at) refl

-- A command that returns, and what the next one does from there.
pub then_lem :
    {A B : Type 0} {a : A} {d d' : Dll} {r : Option (B × Dll)} (m : Cmd A) (f : A → Cmd B)
    → m d ≡ some (a, d')
    → f a d' ≡ r
    → (m >>= f) d ≡ r
unfolding ◌>>=◌
then_lem m f e g = rw (e, ◌>>=◌) g

pub set_next_lem :
    (p q : Ptr) (n : Node) (d : Dll)
    → (p == null) ≡ false
    → d.heap p ≡ some n
    → set_next p q d ≡ some (tt, with_heap d (write d.heap p (some (record n { next = q }))))
unfolding set_next
set_next_lem p q n d e at = then_lem (load p) _ (load_lem p n d e at) refl

pub set_prev_lem :
    (p q : Ptr) (n : Node) (d : Dll)
    → (p == null) ≡ false
    → d.heap p ≡ some n
    → set_prev p q d ≡ some (tt, with_heap d (write d.heap p (some (record n { prev = q }))))
unfolding set_prev
set_prev_lem p q n d e at = then_lem (load p) _ (load_lem p n d e at) refl

pub write_same : (h : Heap) (p : Ptr) (n : Option Node) → write h p n p ≡ n
unfolding write
write_same h p n = ground arith

pub write_other : (h : Heap) (p a : Ptr) (n : Option Node) → (a == p) ≡ false → write h p n a ≡ h a
unfolding write
write_other h p a n e = rw e refl

-- A write to a node that is not in the list leaves the list.
pub frame-IsDll :
    (h : Heap) (p : Ptr) (n : Option Node) (cells : Cells)
    → times p cells ≡ 0
    → IsDll h cells
    → IsDll (write h p n) cells
frame-IsDll h p n cells out w = record {
  links = frame h p n null null cells out w.links;
  once = w.once;
  null_out = w.null_out;
}
