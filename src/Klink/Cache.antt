-- ===== src/Klink/Cache.antt =====
-- `Cache` and its policies, dnsgw_test_ha/klink/plnode/ds/cache.h, cache_replace_LRU.h and
-- cache_insert_endpoint.h: a table from keys to nodes, and the list that orders the nodes by use.
pub mod View
pub mod Lru
pub mod Hits
pub mod Room
pub mod Adds
pub mod Roomed
pub mod Refinement
pub mod Faults
pub mod Iterator
mod Tests
use pweb.Prelude.{
  ℕ, suc, ◌+◌, ◌%◌, Bool, true, false, ◌&&◌, ◌||◌, Option, none, some, [], ◌==◌, until_zero,
  if◌then◌else◌,
}
use pweb.Klink.OverlayId.{OverlayId, HostAddress, rank, get_overlay_id, sign_extend}
use pweb.Klink.LookupTable.{Table, lookup, add, remove}
use pweb.Klink.Dll.{
  Ptr, null, Node, Dll, Cmd, Void, get_tail, load, new_node, append_to_head, remove_tail,
  move_to_head,
}
use pweb.Klink.Message.Init.{RoutingTable, no_address}

-- `size` is an `int`, as its bit pattern.
pub record Cache : Type 0 where
  pub dll : Dll
  pub hm : Table OverlayId Ptr
  pub capacity : ℕ
  pub size : ℕ

pub record Peer : Type 0 where
  pub routing_table : RoutingTable
  pub proactive_cache : RoutingTable
  pub overlay_id : OverlayId

-- The constructor
unfoldable pub new_cache : ℕ → Cache
new_cache capacity = record {
  dll = record { heap = λ p. none; head = null; tail = null };
  hm = [];
  capacity = capacity;
  size = 0;
}

-- A command of the cache; it faults with `none`.
abbrev pub Op : Type 0 → Type 0
Op A = Cache → Option (A × Cache)

infixl 5 ◌>>=◌ ◌>>◌
unfoldable pub ◌>>=◌ : {A B : Type 0} → Op A → (A → Op B) → Op B
◌>>=◌ m f c = elim (m c) [ none ↦ none | some (a, c') ↦ f a c' ]

abbrev pub ◌>>◌ : {A B : Type 0} → Op A → Op B → Op B
m >> n = m >>= λ _. n

abbrev pub pure : {A : Type 0} → A → Op A
pure a c = some (a, c)

-- A command of the list, run in the cache.
unfoldable pub on_list : {A : Type 0} → Cmd A → Op A
on_list m c = elim (m c.dll) [ none ↦ none | some (a, d) ↦ some (a, record c { dll = d }) ]

unfoldable pub remove_key : OverlayId → Op Void
remove_key key c = some (tt, record c { hm = (remove rank key c.hm).0 })

unfoldable pub add_key : OverlayId → Ptr → Op Void
add_key key p c = some (tt, record c { hm = (add rank key p c.hm).0 })

-- `size++` and `size--`
abbrev pub grow : Op Void
grow c = some (tt, record c { size = (c.size + 1) % 4294967296 })

abbrev pub shrink : Op Void
shrink c = some (tt, record c { size = (c.size + 4294967295) % 4294967296 })

-- `CacheReplaceLRU::processHit`
unfoldable pub process_hit : OverlayId → Op Bool
process_hit key c =
    let (node, found) = lookup rank key null c.hm in
    if found then (on_list (move_to_head node) >> pure true) c else some (false, c)

-- `CacheReplaceLRU::evict` once the list has a last node: its key is read after it is taken out.
unfoldable pub evict_node : Ptr → Op Void
evict_node tail = do on_list remove_tail; n ← on_list (load tail); remove_key n.key

unfoldable pub evict : Op Void
evict = do tail ← on_list get_tail; if tail == null then pure tt else evict_node tail

-- `OverlayID(key.GetOverlay_id(), ...)`, which takes the identifier through an `int`.
unfoldable pub copy_key : OverlayId → OverlayId
copy_key key = record key { overlay_id = sign_extend (get_overlay_id key) }

-- `HostAddress(string(value.GetHostName().c_str()), ...)`
unfoldable pub copy_address : HostAddress → HostAddress
copy_address value = record value { host_name = until_zero value.host_name }

-- `CacheInsertEndpoint::insert`: what it leaves out, and the new node at an address.
unfoldable pub is_rejected : Peer → OverlayId → Cache → Bool
is_rejected peer key c =
    (lookup rank key no_address peer.proactive_cache).1
    || (lookup rank key null c.hm).1
    || (lookup rank key no_address peer.routing_table).1
    || get_overlay_id key == get_overlay_id peer.overlay_id

unfoldable pub insert_node : Ptr → OverlayId → HostAddress → Op Void
insert_node p key value = do
  on_list (new_node p key value)
  on_list (append_to_head p)
  add_key key p
  grow

unfoldable pub insert : Ptr → Peer → OverlayId → HostAddress → Op Void
insert p peer key value c =
    if is_rejected peer key c
    then some (tt, c)
    else insert_node p (copy_key key) (copy_address value) c

-- `Cache::add`, which makes room in a full cache that does not have the key.
unfoldable pub make_room : OverlayId → Op Void
make_room key = do hit ← process_hit key; if hit then pure tt else (evict >> shrink)

unfoldable pub add_entry : Ptr → Peer → OverlayId → HostAddress → Op Void
add_entry p peer key value c =
    if c.size == c.capacity
    then (make_room key >> insert p peer key value) c
    else insert p peer key value c

unfoldable pub hit_value : OverlayId → Ptr → Op (HostAddress × Bool)
hit_value key node = do process_hit key; n ← on_list (load node); pure (n.value, true)

-- What the address given by reference holds after the call, and what the call returns.
unfoldable pub lookup_entry : OverlayId → HostAddress → Op (HostAddress × Bool)
lookup_entry key address c =
    let (node, found) = lookup rank key null c.hm in
    if found then hit_value key node c else some ((address, false), c)
