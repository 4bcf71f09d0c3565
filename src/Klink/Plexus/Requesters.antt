-- ===== src/Klink/Plexus/Requesters.antt =====
-- The clients whose GET a peer has taken up.
use pweb.Prelude.{ℕ, ◌%◌, Bytes}
use pweb.Klink.OverlayId.{HostAddress}
use pweb.Klink.LookupTable.{Table}
use pweb.Klink.Plexus.{Plexus}
use pweb.Klink.LookupTable
use pweb.Klink.Message.InitiateGet.{PeerInitiateGet}
use pweb.Klink.Plexus.{MessageStateIndex}
use pweb.Klink.Plexus.Client.{World}

abbrev Waiting : Type 0
Waiting = Table MessageStateIndex (HostAddress × Bytes)

-- The key of the table for a name of a home agent and a number.
abbrev pub key_of : World → Bytes → ℕ → MessageStateIndex
key_of w name seq_no = record { name_hash = w.url_hash name % 4194304; message_seq_no = seq_no }

abbrev requester_of : PeerInitiateGet → HostAddress
requester_of g = record { host_name = (g.base).source_host; host_port = (g.base).source_port }
