-- ===== src/Klink/Dll/Guards.antt =====
-- What the tests of the commands of a doubly linked list come to.
use pweb.Prelude.{◌≤◌, ◌≡◌, refl, true, false, [], ◌∷◌, ◌++◌, arith, ◌||◌, ◌==◌}
use pweb.Klink.Dll.{Ptr, null}
use pweb.Klink.Dll.Links.{
  Cell, Cells, times, first_or, last_or, first-without, once-out, once-split, once-right,
  times-append, last_or-append,
}

pub first_or-apart :
    (a : Ptr) (fs : Cells) (x : Cell) (xs : Cells)
    → times a (fs ++ (x ∷ xs)) ≡ 0
    → (first_or null (fs ++ (x ∷ xs)) == a) ≡ false
first_or-apart a [] x xs out = ground (arith, out)
first_or-apart a (f ∷ fs) x xs out = ground (arith, out)

pub last_or-apart :
    (a : Ptr) (x : Cell) (xs : Cells) → times a (x ∷ xs) ≡ 0 → (last_or x.address xs == a) ≡ false
last_or-apart a x [] out = ground (arith, out)
last_or-apart a x (y ∷ ys) out = last_or-apart a y ys (ground (arith, out))

pub last_or-not_null :
    (fs : Cells) (x : Cell) (xs : Cells)
    → times null (fs ++ (x ∷ xs)) ≡ 0
    → (last_or null (fs ++ (x ∷ xs)) == null) ≡ false
last_or-not_null fs x xs out =
    rw (last_or-append null fs (x ∷ xs))
      (last_or-apart null x xs (omega (arith, out, times-append null fs (x ∷ xs))))

pub address-not_null :
    (fs : Cells) (x c : Cell) (ys : Cells)
    → times null (fs ++ (x ∷ c ∷ ys)) ≡ 0
    → (c.address == null) ≡ false
address-not_null fs x c ys nulls =
    let rest : times null (x ∷ c ∷ ys) ≡ 0 =
      omega (arith, nulls, times-append null fs (x ∷ c ∷ ys)) in
    ground (arith, rest)

-- The tests of a list that has other nodes before this one.
pub is_first_or_empty :
    (fs : Cells) (x c : Cell) (ys : Cells)
    → ((a : Ptr) → times a (fs ++ (x ∷ c ∷ ys)) ≤ 1)
    → times null (fs ++ (x ∷ c ∷ ys)) ≡ 0
    → (first_or null (fs ++ (x ∷ c ∷ ys)) == null
        || last_or null (fs ++ (x ∷ c ∷ ys)) == null
        || first_or null (fs ++ (x ∷ c ∷ ys)) == c.address)
      ≡ false
is_first_or_empty fs x c ys once nulls =
    let not_c : (first_or null (fs ++ (x ∷ c ∷ ys)) == c.address) ≡ false =
      rw (first-without fs x c ys) (first_or-apart c.address fs x ys (once-out fs x c ys once)) in
    rw (first_or-apart null fs x (c ∷ ys) nulls, last_or-not_null fs x (c ∷ ys) nulls, not_c) refl

-- Whether a node is the last one.
pub is_last : (fs : Cells) (x c : Cell) → (last_or null (fs ++ (x ∷ c ∷ [])) == c.address) ≡ true
is_last fs x c = rw (last_or-append null fs (x ∷ c ∷ [])) (ground arith)

pub is_not_last :
    (fs : Cells) (x c y : Cell) (ys : Cells)
    → ((a : Ptr) → times a (fs ++ (x ∷ c ∷ y ∷ ys)) ≤ 1)
    → (last_or null (fs ++ (x ∷ c ∷ y ∷ ys)) == c.address) ≡ false
is_not_last fs x c y ys once =
    let from_x = once-right fs (x ∷ c ∷ y ∷ ys) once in
    let from_c = once-right (x ∷ []) (c ∷ y ∷ ys) from_x in
    rw (last_or-append null fs (x ∷ c ∷ y ∷ ys))
      (last_or-apart c.address y ys (once-split [] c (y ∷ ys) from_c).1)

pub is_first :
    (c : Cell) (ys : Cells)
    → times null (c ∷ ys) ≡ 0
    → (c.address == null || last_or c.address ys == null || c.address == c.address) ≡ true
is_first c ys nulls =
    let same : (c.address == c.address) ≡ true = ground arith in
    let not_null : (c.address == null) ≡ false = ground (arith, nulls) in
    rw (not_null, last_or-apart null c ys nulls, same) refl
