-- ===== src/Crawler/Protocol/Tests.antt =====
-- Two home agents that are sent and read.
use pweb.Prelude.{◌≡◌, refl, Bool, true, false, [], ◌∷◌, ◌++◌, arith}
use pweb.Crawler.Protocol.{
  MessageType, not_a_message, home_agent_discovered, home_agent_assignment, BufItem, bufs, BufWrite,
  new_bufwrite, send_bufitem, connect, handle_bufitem_sent, ReadError, too_big, read,
}
use pweb.Crawler.Protocol.Sending.{Reaches, starts, sends, connects, bufwrite-IsSound}
use pweb.Crawler.Protocol.Sound.{IsSound}
use pweb.Crawler.Protocol.Reading.{stream_of, IsReadable}
use pweb.Crawler.Protocol.Delivery.{written-read}

abbrev ada : BufItem
ada = (home_agent_discovered, b'a' ∷ [])

abbrev bob : BufItem
bob = (home_agent_discovered, b'b' ∷ [])

abbrev manager : MessageType → Bool
manager home_agent_discovered = true
manager _ = false

ada-IsReadable : IsReadable manager ada
ada-IsReadable = record { handled = refl; fits = omega arith; no_zero = (omega arith, tt) }

bob-IsReadable : IsReadable manager bob
bob-IsReadable = record { handled = refl; fits = omega arith; no_zero = (omega arith, tt) }

-- One item before the connection is there, and one after.
abbrev two_sent : BufWrite
two_sent = send_bufitem bob (connect (send_bufitem ada new_bufwrite))

down_run : (send_bufitem ada new_bufwrite).connected ≡ false
unfolding send_bufitem new_bufwrite
down_run = refl

two_sent-Reaches : Reaches two_sent (ada ∷ bob ∷ [])
two_sent-Reaches = sends bob (connects (sends ada starts) down_run)

none_failed : two_sent.failed ≡ []
unfolding send_bufitem new_bufwrite connect pweb.Crawler.Protocol.send_next_bufitem
none_failed = refl

bufwrite-IsSound_example : IsSound two_sent (ada ∷ bob ∷ [])
bufwrite-IsSound_example = bufwrite-IsSound two_sent (ada ∷ bob ∷ []) two_sent-Reaches

written-read_example :
    (read manager (stream_of two_sent.written)).0 ++ two_sent.send_queue ≡ ada ∷ bob ∷ []
written-read_example =
    written-read manager two_sent (ada ∷ bob ∷ []) two_sent-Reaches none_failed
      (ada-IsReadable, (bob-IsReadable, tt))
