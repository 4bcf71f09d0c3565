-- ===== src/Klink/Cache/Faults.antt =====
-- A cache of one entry reads a node that it has deleted.
use pweb.Prelude.{◌≡◌, refl, false, none, [], ◌∷◌, arith, ◌==◌}
use pweb.Klink.OverlayId.{OverlayId, HostAddress, rank}
use pweb.Klink.LookupTable.{Table}
use pweb.Klink.Dll.{Ptr, null, Heap, Cmd, Dll, load, get_tail, remove_tail}
use pweb.Klink.Dll.Links.{Cell}
use pweb.Klink.Dll.Steps.{write_same}
use pweb.Klink.Dll.Removes.{remove_tail-only}
use pweb.Klink.Cache.{Cache, Peer, Op, ◌>>=◌, on_list, evict_node, evict, make_room, add_entry}
use pweb.Klink.Cache.View.{ranked}
use pweb.Klink.Cache.Lru.{cache, IsLru, then_op, on_list_lem}
use pweb.Klink.Cache.Hits.{process_hit-absent}

fault_op : {A B : Type 0} (m : Op A) (f : A → Op B) (c : Cache) → m c ≡ none → (m >>= f) c ≡ none
unfolding ◌>>=◌
fault_op m f c e = rw (e, ◌>>=◌) refl

on_list-fault : {A : Type 0} (m : Cmd A) (c : Cache) → m c.dll ≡ none → on_list m c ≡ none
unfolding on_list
on_list-fault m c e = rw (e, on_list) refl

load-fault : (p : Ptr) (d : Dll) → (p == null) ≡ false → d.heap p ≡ none → load p d ≡ none
unfolding load
load-fault p d e at = rw (e, at) refl

-- Adding to a full cache of capacity one a key that it does not have uses the node that
-- `removeTail` has deleted.
pub add_entry-Faults :
    (h : Heap) (c : Cell) (hm : Table OverlayId Ptr) (p : Ptr) (peer : Peer) (key : OverlayId)
    (value : HostAddress)
    → IsLru h (c ∷ []) hm 1
    → ranked (rank key) (c ∷ []) ≡ 0
    → add_entry p peer key value (cache h (c ∷ []) hm 1) ≡ none
unfolding add_entry make_room evict evict_node
add_entry-Faults h c hm p peer key value w out =
    let not_null : (c.address == null) ≡ false = ground (arith, w.list.null_out) in
    let run = remove_tail-only h c w.list in
    fault_op (make_room key) _ _ (
      then_op _ _ (process_hit-absent h (c ∷ []) hm 1 key w out) (
        fault_op evict _ _ (
          then_op _ _ (on_list_lem get_tail _ _ _ refl) (
            rw not_null (
              then_op _ _ (on_list_lem remove_tail _ _ _ run) (
                fault_op _ _ _ (
                  on_list-fault (load c.address) _
                    (load-fault c.address _ not_null (write_same h c.address none)))))))))
