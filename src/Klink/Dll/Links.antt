-- ===== src/Klink/Dll/Links.antt =====
-- The nodes of a heap that a doubly linked list goes through.
use pweb.Prelude.{
  ℕ, suc, ◌+◌, ◌≤◌, ◌≡◌, refl, sym, ap, ◌∙◌, true, false, Option, some, List, [], ◌∷◌, ◌++◌, arith,
  ◌==◌, Bool-cases, ◌⊎◌, inl, inr, if◌then◌else◌,
}
use pweb.Klink.OverlayId.{OverlayId, HostAddress}
use pweb.Klink.Dll.{Ptr, null, Node, Heap, write}

pub record Cell : Type 0 where
  pub address : Ptr
  pub key : OverlayId
  pub value : HostAddress

abbrev pub Cells : Type 0
Cells = List Cell

abbrev pub node_at : Cell → Ptr → Ptr → Node
node_at c p q = record { key = c.key; value = c.value; prev = p; next = q }

abbrev pub times : Ptr → Cells → ℕ
times a [] = 0
times a (c ∷ cs) = let rest = times a cs in if c.address == a then suc rest else rest

abbrev pub first_or : Ptr → Cells → Ptr
first_or stop [] = stop
first_or stop (c ∷ cs) = c.address

abbrev pub last_or : Ptr → Cells → Ptr
last_or before [] = before
last_or before (c ∷ cs) = last_or c.address cs

-- The nodes stand in the heap, linked both ways, after `before` and before `stop`.
abbrev pub Links : Heap → Ptr → Cells → Ptr → Type 0
Links h before [] stop = Unit {0}
Links h before (c ∷ cs) stop =
    (h c.address ≡ some (node_at c before (first_or stop cs))) × Links h c.address cs stop

pub times-append : (a : Ptr) (xs ys : Cells) → times a (xs ++ ys) ≡ times a xs + times a ys
times-append a [] ys = omega arith
times-append a (x ∷ xs) ys = ground (arith, times-append a xs ys)

pub first_or-append :
    (stop : Ptr) (xs ys : Cells) → first_or stop (xs ++ ys) ≡ first_or (first_or stop ys) xs
first_or-append stop [] ys = refl
first_or-append stop (x ∷ xs) ys = refl

pub last_or-append :
    (before : Ptr) (xs ys : Cells) → last_or before (xs ++ ys) ≡ last_or (last_or before xs) ys
last_or-append before [] ys = refl
last_or-append before (x ∷ xs) ys = last_or-append x.address xs ys

pub times-same : (a b : Ptr) (xs : Cells) → (a == b) ≡ true → times a xs ≡ times b xs
times-same a b xs e = let same : a ≡ b = ground (arith, e) in ap (λ (p : Ptr). times p xs) same

-- A node that is not among them may join.
pub once_cons :
    (c : Cell) (cs : Cells)
    → times c.address cs ≡ 0
    → ((a : Ptr) → times a cs ≤ 1)
    → (a : Ptr) → times a (c ∷ cs) ≤ 1
once_cons c cs out once a = elim (Bool-cases (c.address == a)) [
  | inl e ↦ let same = times-same c.address a cs e in rw e (omega (arith, same, out))
  | inr e ↦ rw e (once a)
]

-- Nodes that are met once, before and after two that follow each other.
pub once-split :
    (fs : Cells) (c : Cell) (cs : Cells)
    → ((a : Ptr) → times a (fs ++ (c ∷ cs)) ≤ 1)
    → (times c.address fs ≡ 0) × (times c.address cs ≡ 0)
once-split fs c cs once =
    let same : (c.address == c.address) ≡ true = ground arith in
    let total = times-append c.address fs (c ∷ cs) in
    let here : times c.address (c ∷ cs) ≡ suc (times c.address cs) = rw same refl in
    (omega (arith, once c.address, total, here), omega (arith, once c.address, total, here))

pub once-right : (fs cs : Cells) → ((a : Ptr) → times a (fs ++ cs) ≤ 1) → (a : Ptr) → times a cs ≤ 1
once-right fs cs once a = omega (arith, once a, times-append a fs cs)

pub times-without :
    (a : Ptr) (fs : Cells) (x c : Cell) (ys : Cells)
    → times a (fs ++ (x ∷ ys)) ≤ times a (fs ++ (x ∷ c ∷ ys))
times-without a [] x c ys = ground arith
times-without a (f ∷ fs) x c ys = ground (arith, times-without a fs x c ys)

-- Without a node, the others do not have its address.
pub once-out :
    (fs : Cells) (x c : Cell) (ys : Cells)
    → ((a : Ptr) → times a (fs ++ (x ∷ c ∷ ys)) ≤ 1)
    → times c.address (fs ++ (x ∷ ys)) ≡ 0
once-out fs x c ys once =
    let same : (c.address == c.address) ≡ true = ground arith in
    let a : Ptr = c.address in
    let whole = times-append a fs (x ∷ c ∷ ys) in
    let part = times-append a fs (x ∷ ys) in
    let here : times a (c ∷ ys) ≡ suc (times a ys) = rw same refl in
    let grow : times a (x ∷ c ∷ ys) ≡ suc (times a (x ∷ ys)) = ground (arith, here) in
    omega (arith, once a, whole, part, grow)

-- A node after others is not among them.
pub once-before :
    (fs : Cells) (c : Cell) (cs ds : Cells)
    → ((a : Ptr) → times a (fs ++ (cs ++ (c ∷ ds))) ≤ 1)
    → times c.address fs ≡ 0
once-before fs c cs ds once =
    let same : (c.address == c.address) ≡ true = ground arith in
    let here : times c.address (c ∷ ds) ≡ suc (times c.address ds) = rw same refl in
    omega (
      arith,
      once c.address,
      times-append c.address fs (cs ++ (c ∷ ds)),
      times-append c.address cs (c ∷ ds),
      here,
    )

pub first-without :
    (fs : Cells) (x c : Cell) (ys : Cells)
    → first_or null (fs ++ (x ∷ c ∷ ys)) ≡ first_or null (fs ++ (x ∷ ys))
first-without fs x c ys =
    first_or-append null fs (x ∷ c ∷ ys) ∙ sym (first_or-append null fs (x ∷ ys))

pub last-without :
    (fs : Cells) (x c y : Cell) (ys : Cells)
    → last_or null (fs ++ (x ∷ c ∷ y ∷ ys)) ≡ last_or null (fs ++ (x ∷ y ∷ ys))
last-without fs x c y ys =
    last_or-append null fs (x ∷ c ∷ y ∷ ys) ∙ sym (last_or-append null fs (x ∷ y ∷ ys))

pub snoc-cases : (fs : Cells) → (fs ≡ []) ⊎ ((gs : Cells) × (x : Cell) × (fs ≡ gs ++ (x ∷ [])))
snoc-cases [] = inl refl
snoc-cases (f ∷ fs) = elim (snoc-cases fs) [
  | inl e ↦ inr ([], f, ap (◌∷◌ f) e)
  | inr (gs, x, e) ↦ inr (f ∷ gs, x, ap (◌∷◌ f) e)
]

pub snoc-append : (gs : Cells) (x : Cell) (ys : Cells) → (gs ++ (x ∷ [])) ++ ys ≡ gs ++ (x ∷ ys)
snoc-append [] x ys = refl
snoc-append (g ∷ gs) x ys = ap (◌∷◌ g) (snoc-append gs x ys)

module _ (h : Heap) where
  pub left :
      (before stop : Ptr) (xs ys : Cells)
      → Links h before (xs ++ ys) stop
      → Links h before xs (first_or stop ys)
  left before stop [] ys l = tt
  left before stop (x ∷ xs) ys (e, l) =
      (rw (sym (first_or-append stop xs ys)) e, left x.address stop xs ys l)

  pub right :
      (before stop : Ptr) (xs ys : Cells)
      → Links h before (xs ++ ys) stop
      → Links h (last_or before xs) ys stop
  right before stop [] ys l = l
  right before stop (x ∷ xs) ys (e, l) = right x.address stop xs ys l

  pub join :
      (before stop : Ptr) (xs ys : Cells)
      → Links h before xs (first_or stop ys)
      → Links h (last_or before xs) ys stop
      → Links h before (xs ++ ys) stop
  join before stop [] ys l r = r
  join before stop (x ∷ xs) ys (e, l) r =
      (rw (first_or-append stop xs ys) e, join x.address stop xs ys l r)

  -- A write elsewhere is not seen.
  pub frame :
      (p : Ptr) (n : Option Node) (before stop : Ptr) (xs : Cells)
      → times p xs ≡ 0
      → Links h before xs stop
      → Links (write h p n) before xs stop
  unfolding write
  frame p n before stop [] out l = tt
  frame p n before stop (x ∷ xs) out (e, l) =
      let apart : (x.address == p) ≡ false = ground (arith, out) in
      (rw apart e, frame p n x.address stop xs (ground (arith, out)) l)
