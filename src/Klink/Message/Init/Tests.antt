-- ===== src/Klink/Message/Init/Tests.antt =====
-- Runs of PEER_INIT on a message with two neighbours.
use pweb.Prelude.{[], ◌∷◌}
use pweb.Klink.OverlayId.{OverlayId, HostAddress}
use pweb.Klink.Message.Init.{PeerInitMessage, RoutingTable}
use pweb.Klink.Samples.{name, oid, base}

abbrev neighbour : OverlayId
neighbour = record { overlay_id = 6; prefix_length = 8; max_length = 24 }

abbrev address : HostAddress
address = record { host_name = name; host_port = 8080 }

-- The negative identifier comes first.
abbrev table : RoutingTable
table = (oid, address) ∷ (neighbour, address) ∷ []

abbrev init : PeerInitMessage
init = record {
  base = base;
  routing_table = table;
  n_peers = 3;
  k = 2;
  alpha = 4607182418800017408;
  publish_name_range_start = 0;
  publish_name_range_end = 99;
  lookup_name_range_start = 100;
  lookup_name_range_end = 199;
  webserver_port = 8081;
  run_sequence_no = 1;
  log_server_name = name;
  log_server_user = name;
  peer_name = name;
}
