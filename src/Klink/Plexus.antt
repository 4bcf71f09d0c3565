-- ===== src/Klink/Plexus.antt =====
-- The state of a peer and of its `PlexusProtocol`, dnsgw_test_ha/klink/plnode/protocol/plexus/
-- plexus_protocol.h, with the queue of outgoing messages, and the messages that it creates.
pub mod Process
pub mod Control
pub mod Client
pub mod Index
pub mod Kept
pub mod Answers
pub mod Flood
pub mod Requesters
mod Tests
use pweb.Prelude.{
  ℕ, suc, ◌+◌, ◌*◌, ◌%◌, Bool, true, false, ◌||◌, Option, none, some, List, [], ◌∷◌, ◌++◌, Bytes,
  ◌==◌, if◌then◌else◌, same_bytes,
}
use pweb.Klink.OverlayId.{OverlayId, HostAddress}
use pweb.Klink.LookupTable.{Table}
use pweb.Klink.Message.{AbsMessage, new_message}
use pweb.Klink.Message.PutReply.{MessagePutReply}
use pweb.Klink.Message.GetReply.{MessageGetReply}
use pweb.Klink.Message.Retrieve.{RetrieveMessage}
use pweb.Klink.Message.RetrieveReply.{MessageRetrieveReply}
use pweb.Klink.Message.Init.{PeerInitMessage}
use pweb.Klink.Message.Config.{PeerConfigMessage}
use pweb.Klink.Message.InitiateGet.{PeerInitiateGet}
use pweb.Klink.Message.InitiatePut.{PeerInitiatePut}
use pweb.Klink.Message.ChangeStatus.{PeerChangeStatusMessage}
use pweb.Klink.Message.DynChangeStatus.{PeerDynChangeStatusMessage}
use pweb.Klink.NextHop.{PlexusMessage, plexus_get_reply, Router}

-- A message with the object that its type says it is; those of the first constructor are the ones
-- for which `setNextHop` looks for a neighbour.
pub data Message : Type 0 where
  plexus : PlexusMessage → Message
  retrieve : RetrieveMessage → Message
  retrieve_reply : MessageRetrieveReply → Message
  cache_me : AbsMessage → Message
  peer_init : PeerInitMessage → Message
  peer_config : PeerConfigMessage → Message
  initiate_get : PeerInitiateGet → Message
  initiate_put : PeerInitiatePut → Message
  peer_start : AbsMessage → Message
  change_status : PeerChangeStatusMessage → Message
  start_generate_name : AbsMessage → Message
  start_lookup_name : AbsMessage → Message
  dyn_change_status : PeerDynChangeStatusMessage → Message
  force_log : AbsMessage → Message

-- `MessageStateIndex`: two `int`s as bit patterns.
pub record MessageStateIndex : Type 0 where
  pub name_hash : ℕ
  pub message_seq_no : ℕ

abbrev signed_place : ℕ → ℕ
signed_place n = (n + 2147483648) % 4294967296

-- The place of an index in the order of `operator<`: by the hash, then by the number.
unfoldable pub place : MessageStateIndex → ℕ
place index = signed_place index.name_hash * 4294967296 + signed_place index.message_seq_no

-- A log entry by the message that it is made of.
pub data LogEntry : Type 0 where
  log_get : MessageGetReply → LogEntry
  log_put : MessagePutReply → LogEntry
  log_flush : LogEntry

-- What the control messages set in the peer.
pub record Settings : Type 0 where
  pub n_peers : ℕ
  pub k : ℕ
  pub alpha : ℕ
  pub peer_name : Bytes
  pub publish_name_range_start : ℕ
  pub publish_name_range_end : ℕ
  pub lookup_name_range_start : ℕ
  pub lookup_name_range_end : ℕ
  pub webserver_port : ℕ
  pub run_sequence_no : ℕ
  pub log_server_name : Bytes
  pub log_server_user : Bytes
  pub status : ℕ
  pub dyn_status : ℕ
  pub init_rcvd : Bool
  pub start_gen_name_rcvd : Bool
  pub start_lookup_name_rcvd : Bool

-- The router has the tables and the cache, the cache as the list of its entries. The index table
-- is the list of its pairs, in the order they were added. `path` and `proactive` are whether the
-- configuration has these words for the storage and the type of the cache.
pub record Plexus : Type 0 where
  pub router : Router
  pub host_name : Bytes
  pub listen_port : ℕ
  pub path : Bool
  pub proactive : Bool
  pub capacity : ℕ
  pub sequence_no_generator : ℕ
  pub unresolved_get : Table MessageStateIndex (HostAddress × Bytes)
  pub unresolved_put : Table MessageStateIndex ℕ
  pub name_db : List (Bytes × HostAddress)
  pub incoming : List Message
  pub incoming_queue_pushed : ℕ
  pub incoming_queue_popped : ℕ
  pub outgoing : List Message
  pub outgoing_queue_pushed : ℕ
  pub outgoing_queue_popped : ℕ
  pub logging : List LogEntry
  pub logging_queue_pushed : ℕ
  pub logging_queue_popped : ℕ
  pub put_processed : ℕ
  pub get_processed : ℕ
  pub get_generated : ℕ
  pub put_generated : ℕ
  pub settings : Settings

-- What objects hold that their constructors leave as they were allocated.
pub record Unset : Type 0 where
  pub oid : OverlayId
  pub hops : ℕ
  pub ip_hops : ℕ
  pub latency : ℕ
  pub seq_no : ℕ

unfoldable pub add_to_outgoing_queue : Message → Plexus → Plexus
add_to_outgoing_queue m s = record s {
  outgoing = s.outgoing ++ m ∷ [];
  outgoing_queue_pushed = suc s.outgoing_queue_pushed;
}

-- `getOutgoingQueueFront`, which waits while the queue is empty: `none`.
unfoldable pub get_outgoing_queue_front : Plexus → Option (Message × Plexus)
get_outgoing_queue_front s = elim s.outgoing [
  | [] ↦ none
  | m ∷ rest ↦
      some (m, record s { outgoing = rest; outgoing_queue_popped = suc s.outgoing_queue_popped })
]

unfoldable pub add_to_log_queue : LogEntry → Plexus → Plexus
add_to_log_queue e s = record s {
  logging = s.logging ++ e ∷ [];
  logging_queue_pushed = suc s.logging_queue_pushed;
}

unfoldable pub get_logging_queue_front : Plexus → Option (LogEntry × Plexus)
get_logging_queue_front s = elim s.logging [
  | [] ↦ none
  | e ∷ rest ↦
      some (e, record s { logging = rest; logging_queue_popped = suc s.logging_queue_popped })
]

unfoldable pub add_to_incoming_queue : Message → Plexus → Plexus
add_to_incoming_queue m s = record s {
  incoming = s.incoming ++ m ∷ [];
  incoming_queue_pushed = suc s.incoming_queue_pushed;
}

unfoldable pub get_incoming_queue_front : Plexus → Option (Message × Plexus)
get_incoming_queue_front s = elim s.incoming [
  | [] ↦ none
  | m ∷ rest ↦
      some (m, record s { incoming = rest; incoming_queue_popped = suc s.incoming_queue_popped })
]

-- The string tables
unfoldable pub lookup_name : {V : Type 0} → Bytes → List (Bytes × V) → Option V
lookup_name name [] = none
lookup_name name ((n, v) ∷ table) =
    let rest = lookup_name name table in if same_bytes n name then some v else rest

-- `add` leaves a name that is there as it is.
unfoldable pub add_name : {V : Type 0} → Bytes → V → List (Bytes × V) → List (Bytes × V)
add_name name v table = elim (lookup_name name table) [
  | none ↦ table ++ (name, v) ∷ []
  | some w ↦ table
]

-- The base part of a message that the peer sends.
unfoldable pub new_base : ℕ → Bytes → ℕ → OverlayId → Plexus → AbsMessage
new_base message_type dest_host dest_port dst_oid s =
    (new_message s.sequence_no_generator message_type s.host_name s.listen_port dest_host dest_port
      (s.router).overlay_id dst_oid).0

unfoldable pub count_message : Plexus → Plexus
count_message s = record s { sequence_no_generator = (s.sequence_no_generator + 1) % 4294967296 }
