-- ===== src/Crawler/Protocol.antt =====
-- The messages between the parts of the crawler, crawler_protocol: a header with a type and a length
-- and a string, class `bufwrite` that sends them one at a time, and class `bufread` that reads them.
pub mod Sound
pub mod Sending
pub mod Reading
pub mod Delivery
mod Tests
use pweb.Prelude.{until_zero}
use pweb.Prelude.{
  Event, gives, stops, take_all, ℕ, zero, suc, ◌+◌, Bool, true, false, not, ◌&&◌, Option, none,
  some, Bytes, List, [], ◌∷◌, ◌++◌, length, take, drop, ltb, leb, ◌==◌, if◌then◌else◌,
}
use pweb.Prelude.{suc}
use pweb.Dns.Wire.{Result, ok, err, parse_short, parse_string, short_bytes}

pub data MessageType : Type 0 where
  not_a_message home_agent_discovered home_agent_assignment : MessageType

-- `static_cast< boost::uint8_t >`
abbrev pub type_value : MessageType → ℕ
type_value not_a_message = 0
type_value home_agent_discovered = 1
type_value home_agent_assignment = 2

-- `header::type`
unfoldable pub type_of : ℕ → MessageType
type_of b =
    if b == 1
    then home_agent_discovered
    else if b == 2
    then home_agent_assignment
    else not_a_message

abbrev pub BufItem : Type 0
BufItem = MessageType × Bytes

-- The two buffers that are written: the header, with the length as 16 bits, and the string.
unfoldable pub bufs : BufItem → Bytes
bufs (type, str) = (type_value type ∷ short_bytes (length str)) ++ str

-- The state of a `bufwrite`. Of the socket it has the items whose handler is due; of the outside,
-- the items that the socket was given and those that the callbacks got, in order.
pub record BufWrite : Type 0 where
  pub connected : Bool
  pub send_in_progress : Bool
  pub send_queue : List BufItem
  pub in_flight : List BufItem
  pub written : List BufItem
  pub succeeded : List BufItem
  pub failed : List BufItem

unfoldable pub new_bufwrite : BufWrite
new_bufwrite = record {
  connected = false;
  send_in_progress = false;
  send_queue = [];
  in_flight = [];
  written = [];
  succeeded = [];
  failed = [];
}

-- `sendmsg` makes the item and calls this on the strand.
unfoldable pub send_bufitem : BufItem → BufWrite → BufWrite
send_bufitem item s =
    if s.connected && not s.send_in_progress
    then record s {
      send_in_progress = true;
      in_flight = s.in_flight ++ item ∷ [];
      written = s.written ++ item ∷ [];
    }
    else record s { send_queue = s.send_queue ++ item ∷ [] }

unfoldable pub send_next_bufitem : BufWrite → BufWrite
send_next_bufitem s = elim s.send_queue [
  | [] ↦ s
  | item ∷ rest ↦ send_bufitem item (record s { send_queue = rest })
]

unfoldable pub connect : BufWrite → BufWrite
connect s = send_next_bufitem (record s { connected = true })

-- The handler of the first send that is due, without an error and with one.
unfoldable pub handle_bufitem_sent : Bool → BufWrite → BufWrite
handle_bufitem_sent good s = elim s.in_flight [
  | [] ↦ s
  | item ∷ rest ↦
      if good
      then send_next_bufitem (record s {
        send_in_progress = false;
        in_flight = rest;
        succeeded = s.succeeded ++ item ∷ [];
      })
      else record s {
        send_in_progress = false;
        in_flight = rest;
        failed = s.failed ++ item ∷ s.send_queue;
        send_queue = [];
      }
]

-- Why a `bufread` calls its error callback: the peer closes the connection, announces a string that
-- does not fit, sends a type without a handler, or closes within a message. `unreadable` is none of these: it marks a
-- `parse_error` of a string, which would leave the program and never comes.
pub data ReadError : Type 0 where
  closed too_big unknown_type cut_off unreadable : ReadError

-- A message for its handler, with what is left of the stream, or the error callback.
abbrev pub ReadEvent : Type 0
ReadEvent = Event BufItem ReadError

module _ (has_handler : MessageType → Bool) where
  -- A zero is put behind the string in the buffer.
  unfoldable pub handle_body_read : MessageType → ℕ → Bytes → ReadEvent
  handle_body_read type len stream =
      if leb len (length stream)
      then elim (parse_string (suc len) (take len stream ++ 0 ∷ [])) [
        | ok (str, end) ↦ gives (type, str) (drop len stream)
        | err e ↦ stops unreadable
      ]
      else stops cut_off

  unfoldable pub handle_header_read : ℕ → ℕ → Bytes → ReadEvent
  handle_header_read type_byte len stream =
      if ltb 255 len
      then stops too_big
      else if has_handler (type_of type_byte)
      then handle_body_read (type_of type_byte) len stream
      else stops unknown_type

  unfoldable pub read_header : Bytes → ReadEvent
  read_header [] = stops closed
  read_header (type_byte ∷ rest) = elim (parse_short rest) [
    | err e ↦ stops closed
    | ok (len, stream) ↦ handle_header_read type_byte len stream
  ]

  -- The messages that are handled, and the error that ends the reading.
  abbrev pub read : Bytes → List BufItem × Option ReadError
  read = take_all read_header
