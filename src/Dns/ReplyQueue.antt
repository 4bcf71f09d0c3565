-- ===== src/Dns/ReplyQueue.antt =====
-- The queue of replies in front of a socket that sends one at a time, which `udp_dnsspeaker` and
-- `dns_connection` of dnsgw/dnsspeaker.cpp both have: `send_reply_` and `handle_send_reply`. They
-- differ in the capacity of the queue and in the size of the buffer that a reply is composed in.
pub mod Runs
pub mod Drain
use pweb.Prelude.{ℕ, Bool, true, false, Bytes, List, [], ◌∷◌, ◌++◌, length, leb, if◌then◌else◌}
use pweb.Dns.Wire.{Result, ok, err, ParseError}
use pweb.Dns.Header.{DnsQueryHeader}
use pweb.Dns.Query.{DnsQuery}

-- The socket's part of the state is the send that is in progress.
pub record ReplyQueue : Type 0 where
  pub send_in_progress : Bool
  pub reply_buf : List DnsQuery

abbrev pub new_queue : ReplyQueue
new_queue = record { send_in_progress = false; reply_buf = [] }

abbrev pub Message : Type 0
Message = DnsQueryHeader × Bytes

-- What a call does to the outside.
pub data Effect : Type 0 where
  sends : DnsQuery → Message → Effect
  queues drops : DnsQuery → Effect
  throws : ParseError → Effect
  rests : Effect

module _ (capacity : ℕ) (compose : DnsQuery → Result Message) where
  unfoldable pub send_reply : DnsQuery → ReplyQueue → ReplyQueue × Effect
  send_reply query s =
      if s.send_in_progress
      then if leb capacity (length s.reply_buf)
        then (s, drops query)
        else (record s { reply_buf = s.reply_buf ++ query ∷ [] }, queues query)
      else elim (compose query) [
        | ok message ↦ (record s { send_in_progress = true }, sends query message)
        | err e ↦ (record s { send_in_progress = true }, throws e)
      ]

  -- A send that failed is only logged.
  unfoldable pub handle_send_reply : ReplyQueue → ReplyQueue × Effect
  handle_send_reply s = elim s.reply_buf [
    | [] ↦ (record s { send_in_progress = false }, rests)
    | query ∷ rest ↦ send_reply query (record { send_in_progress = false; reply_buf = rest })
  ]
