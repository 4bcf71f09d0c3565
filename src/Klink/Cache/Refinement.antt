-- ===== src/Klink/Cache/Refinement.antt =====
-- `add` as an operation on the list of entries.
use pweb.Prelude.{ℕ, ◌≡◌, some}
use pweb.Klink.OverlayId.{OverlayId, HostAddress}
use pweb.Klink.LookupTable.{Table, find, erase}
use pweb.Klink.LookupTable
use pweb.Klink.Dll.{Ptr, Heap}
use pweb.Klink.Dll.Links.{Cells}
use pweb.Klink.Cache.{Peer, insert}
use pweb.Klink.Cache.View.{entries}
use pweb.Klink.Cache.Adds.{with_entry}
use pweb.Klink.Cache.Lru.{cache, IsLru}

-- The cache after `insert`.
abbrev Inserted :
    Heap → Cells → Table OverlayId Ptr → ℕ → Ptr → Peer → OverlayId → HostAddress → Type 0
Inserted h cells hm capacity p peer key value =
    (h' : Heap) × (cells' : Cells) × (hm' : Table OverlayId Ptr) × (insert p peer key value
        (cache h cells hm capacity)
      ≡ some (tt, cache h' cells' hm' capacity))
    × IsLru h' cells' hm' capacity
    × (entries cells' ≡ with_entry peer key value (entries cells))
