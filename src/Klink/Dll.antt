-- ===== src/Klink/Dll.antt =====
-- `DoublyLinkedList`, dnsgw_test_ha/klink/plnode/ds/double_linked_list.h: nodes at addresses, and
-- the functions of the list as commands that read and write them.
pub mod Links
pub mod Steps
pub mod Guards
pub mod Relink
pub mod Ends
pub mod Moves
pub mod Removes
use pweb.Prelude.{ℕ, Bool, true, false, ◌||◌, ◌&&◌, Option, none, some, ◌==◌, if◌then◌else◌}
use pweb.Klink.OverlayId.{OverlayId, HostAddress}

abbrev pub Ptr : Type 0
Ptr = ℕ

abbrev pub null : Ptr
null = 0

pub record Node : Type 0 where
  pub key : OverlayId
  pub value : HostAddress
  pub prev : Ptr
  pub next : Ptr

abbrev pub Heap : Type 0
Heap = Ptr → Option Node

unfoldable pub write : Heap → Ptr → Option Node → Heap
write h p c a = if a == p then c else h a

pub record Dll : Type 0 where
  pub heap : Heap
  pub head : Ptr
  pub tail : Ptr

-- A command faults, with `none`, when it uses a null pointer or a node that is not there.
abbrev pub Cmd : Type 0 → Type 0
Cmd A = Dll → Option (A × Dll)

abbrev pub Void : Type 0
Void = Unit {0}

infixl 5 ◌>>=◌ ◌>>◌
unfoldable pub ◌>>=◌ : {A B : Type 0} → Cmd A → (A → Cmd B) → Cmd B
◌>>=◌ m f d = elim (m d) [ none ↦ none | some (a, d') ↦ f a d' ]

abbrev pub ◌>>◌ : {A B : Type 0} → Cmd A → Cmd B → Cmd B
m >> n = m >>= λ _. n

abbrev pub pure : {A : Type 0} → A → Cmd A
pure a d = some (a, d)

unfoldable pub load : Ptr → Cmd Node
load p d = if p == null then none else elim (d.heap p) [ none ↦ none | some n ↦ some (n, d) ]

abbrev pub store : Ptr → Option Node → Cmd Void
store p c d = some (tt, record d { heap = write d.heap p c })

-- `p->next = q` and `p->prev = q`
unfoldable pub set_next : Ptr → Ptr → Cmd Void
set_next p q = do n ← load p; store p (some (record n { next = q }))

unfoldable pub set_prev : Ptr → Ptr → Cmd Void
set_prev p q = do n ← load p; store p (some (record n { prev = q }))

abbrev pub get_head : Cmd Ptr
get_head d = some (d.head, d)

abbrev pub get_tail : Cmd Ptr
get_tail d = some (d.tail, d)

abbrev pub set_head : Ptr → Cmd Void
set_head p d = some (tt, record d { head = p })

abbrev pub set_tail : Ptr → Cmd Void
set_tail p d = some (tt, record d { tail = p })

-- `new DLLNode(key, value)`, at the address that it returns.
unfoldable pub new_node : Ptr → OverlayId → HostAddress → Cmd Void
new_node p key value =
    store p (some (record { key = key; value = value; prev = null; next = null }))

-- `delete p`
unfoldable pub free : Ptr → Cmd Void
free p = if p == null then pure tt else (load p >> store p none)

-- `node->next = head; head->prev = node; head = node; head->prev = NULL`
unfoldable pub link_head : Ptr → Cmd Void
link_head node = do
  head ← get_head
  set_next node head
  set_prev head node
  set_head node
  set_prev node null

-- `head = tail = node; head->prev = tail->next = NULL`
unfoldable pub link_only : Ptr → Cmd Void
link_only node = do set_head node; set_tail node; set_next node null; set_prev node null

unfoldable pub append_to_head : Ptr → Cmd Void
append_to_head node = do head ← get_head; if head == null then link_only node else link_head node

-- `node->prev = tail; tail->next = node; tail = node; tail->next = NULL`
unfoldable pub link_tail : Ptr → Cmd Void
link_tail node = do
  tail ← get_tail
  set_prev node tail
  set_next tail node
  set_tail node
  set_next node null

unfoldable pub append_to_tail : Ptr → Cmd Void
append_to_tail node = do tail ← get_tail; if tail == null then link_only node else link_tail node

-- `head = tail = NULL`
unfoldable pub set_empty : Cmd Void
set_empty = do set_head null; set_tail null

-- `tail = tail->prev; tail->next = NULL`
unfoldable pub unlink_tail : Cmd Void
unlink_tail = do tail ← get_tail; n ← load tail; set_tail n.prev; set_next n.prev null

unfoldable pub remove_tail : Cmd Void
remove_tail = do
  head ← get_head
  temp ← get_tail
  if temp == head then (free temp >> set_empty) else (unlink_tail >> set_prev temp null)

-- The pointers around a node that is neither head nor tail are joined.
unfoldable pub unlink : Ptr → Cmd Void
unlink node = do n ← load node; set_next n.prev n.next; m ← load node; set_prev m.next m.prev

unfoldable pub move_to_head : Ptr → Cmd Void
move_to_head node = do
  head ← get_head
  tail ← get_tail
  if head == null || tail == null || head == node
      then pure tt
      else ((if tail == node then unlink_tail else unlink node) >> link_head node)

-- `head = node->next; head->prev = NULL`
unfoldable pub unlink_head : Ptr → Cmd Void
unlink_head node = do n ← load node; set_head n.next; set_prev n.next null

unfoldable pub extract_links : Ptr → Ptr → Ptr → Cmd Void
extract_links node head tail =
    if head == node && tail == node
    then set_empty
    else if head == node
    then unlink_head node
    else if tail == node
    then unlink_tail
    else unlink node

unfoldable pub detach : Ptr → Ptr → Ptr → Cmd Ptr
detach node head tail = do
  extract_links node head tail
  set_prev node null
  set_next node null
  pure node

-- What `extract` returns is null when the list is empty.
unfoldable pub extract : Ptr → Cmd Ptr
extract node = do
  head ← get_head
  tail ← get_tail
  if head == null || tail == null then pure null else detach node head tail

unfoldable pub remove : Ptr → Cmd Void
remove node = do p ← extract node; free p
