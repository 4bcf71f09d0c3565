-- ===== src/Crawler/Protocol/Sending.antt =====
-- Runs of a `bufwrite`: every message is sent in order, or given to the callback for errors.
use pweb.Prelude.{◌≡◌, Bool, true, false, List, [], ◌∷◌, ◌++◌}
use pweb.Crawler.Protocol.{
  BufItem, BufWrite, new_bufwrite, send_bufitem, connect, handle_bufitem_sent,
}
use pweb.Crawler.Protocol.Sound.{
  IsSound, new_bufwrite-IsSound, send_bufitem-IsSound, connect-IsSound, handle_bufitem_sent-IsSound,
}

-- The states that a run leads to, with the items that were sent by `sendmsg`, in order. The socket
-- is connected once, as the owners of a `bufwrite` do.
pub data Reaches : BufWrite → List BufItem → Type 0 where
  starts : Reaches new_bufwrite []
  sends :
      {s : BufWrite} {accepted : List BufItem} (item : BufItem)
      → Reaches s accepted
      → Reaches (send_bufitem item s) (accepted ++ item ∷ [])
  connects :
      {s : BufWrite} {accepted : List BufItem}
      → Reaches s accepted
      → s.connected ≡ false
      → Reaches (connect s) accepted
  reports :
      {s : BufWrite} {accepted : List BufItem} (good : Bool)
      → Reaches s accepted
      → s.send_in_progress ≡ true
      → Reaches (handle_bufitem_sent good s) accepted

-- In every run of a `bufwrite`: while no send has failed, the messages accepted are those that
-- succeeded, then the one in flight, then the queue, in order, and those given to the socket are the
-- first two; in any run each message is counted as often by the callbacks, the socket and the queue
-- together as it was accepted; one message is in flight while a send is in progress, and else none;
-- and nothing waits for a socket that is connected and idle.
pub bufwrite-IsSound :
    (s : BufWrite) (accepted : List BufItem) → Reaches s accepted → IsSound s accepted
bufwrite-IsSound _ _ starts = new_bufwrite-IsSound
bufwrite-IsSound _ _ (sends {s} {accepted} item r) =
    send_bufitem-IsSound item s accepted (bufwrite-IsSound s accepted r)
bufwrite-IsSound _ _ (connects {s} {accepted} r down) =
    connect-IsSound s accepted (bufwrite-IsSound s accepted r) down
bufwrite-IsSound _ _ (reports {s} {accepted} good r busy) =
    handle_bufitem_sent-IsSound good s accepted (bufwrite-IsSound s accepted r) busy
