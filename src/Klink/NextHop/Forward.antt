-- ===== src/Klink/NextHop/Forward.antt =====
-- Where a message is sent that is forwarded.
use pweb.Klink.OverlayId.{OverlayId, HostAddress}
use pweb.Klink.Message.{AbsMessage}

-- The address that a message is to be sent to.
abbrev pub next_address : AbsMessage → HostAddress
next_address b = record { host_name = b.dest_host; host_port = b.dest_port }
