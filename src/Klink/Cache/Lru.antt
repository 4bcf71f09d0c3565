-- ===== src/Klink/Cache/Lru.antt =====
-- What holds of a cache between its operations, and how its commands are run.
use pweb.Prelude.{ℕ, ◌<◌, ◌≤◌, ◌≡◌, refl, true, false, Option, none, some, length}
use pweb.Klink.OverlayId.{OverlayId, rank}
use pweb.Klink.LookupTable.{Table, find, lookup}
use pweb.Klink.LookupTable.Laws.{IsOrdered, contents}
use pweb.Klink.Dll.{Ptr, Heap, Dll, Cmd}
use pweb.Klink.Dll.Links.{Cells}
use pweb.Klink.Dll.Steps.{IsDll, dll}
use pweb.Klink.Cache.{Cache, Op, ◌>>=◌, on_list}
use pweb.Klink.Cache.View.{holder, ranked}

-- The cache whose list goes through the nodes.
abbrev pub cache : Heap → Cells → Table OverlayId Ptr → ℕ → Cache
cache h cells hm capacity = record {
  dll = dll h cells;
  hm = hm;
  capacity = capacity;
  size = length cells;
}

-- The table leads from each key of the list, and from no other, to its node; no key is twice in
-- the list; and the list fits.
pub record IsLru (h : Heap) (cells : Cells) (hm : Table OverlayId Ptr) (capacity : ℕ) : Type 0 where
  pub list : IsDll h cells
  pub ordered : IsOrdered rank hm
  pub agree : (i : ℕ) → contents rank hm i ≡ holder i cells
  pub apart : (i : ℕ) → ranked i cells ≤ 1
  pub fits : length cells ≤ capacity
  pub small : capacity < 4294967296

pub then_op :
    {A B : Type 0} {a : A} {c c' : Cache} {r : Option (B × Cache)} (m : Op A) (f : A → Op B)
    → m c ≡ some (a, c')
    → f a c' ≡ r
    → (m >>= f) c ≡ r
unfolding ◌>>=◌
then_op m f e g = rw (e, ◌>>=◌) g

pub on_list_lem :
    {A : Type 0} (m : Cmd A) (a : A) (d' : Dll) (c : Cache)
    → m c.dll ≡ some (a, d')
    → on_list m c ≡ some (a, record c { dll = d' })
unfolding on_list
on_list_lem m a d' c e = rw (e, on_list) refl

pub lookup-some :
    {V : Type 0} (key : OverlayId) (d v : V) (t : Table OverlayId V)
    → find rank key t ≡ some v
    → lookup rank key d t ≡ (v, true)
unfolding lookup
lookup-some key d v t e = rw (e, lookup) refl

pub lookup-none :
    {V : Type 0} (key : OverlayId) (d : V) (t : Table OverlayId V)
    → find rank key t ≡ none
    → lookup rank key d t ≡ (d, false)
unfolding lookup
lookup-none key d t e = rw (e, lookup) refl
