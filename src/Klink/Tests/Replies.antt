-- ===== src/Klink/Tests/Replies.antt =====
-- Runs of the models on replies and changes of status.
use pweb.Prelude.{[], arith}
use pweb.Klink.Message.GetReply.{MessageGetReply, IsMessageGetReply}
use pweb.Klink.Message.RetrieveReply.{MessageRetrieveReply, IsMessageRetrieveReply}
use pweb.Klink.Message.ChangeStatus.{PeerChangeStatusMessage}
use pweb.Klink.Message.DynChangeStatus.{PeerDynChangeStatusMessage}
use pweb.Klink.Samples.{name, oid, oid-IsWireOid, base, base-IsWire}

abbrev get_reply : MessageGetReply
get_reply = record {
  base = base;
  resolution_status = 2;
  resolution_hops = 2;
  resolution_ip_hops = 2;
  resolution_latency = 4607182418800017408;
  origin_seq_no = 2;
  target_oid = oid;
  host_address = record { host_name = []; host_port = 8080 };
  device_name = name;
}

get_reply-IsMessageGetReply : IsMessageGetReply get_reply
get_reply-IsMessageGetReply = record {
  base_wire = base-IsWire;
  resolution_status_int = omega arith;
  resolution_hops_int = omega arith;
  resolution_ip_hops_int = omega arith;
  resolution_latency_double = omega arith;
  origin_seq_no_int = omega arith;
  target_oid_wire = oid-IsWireOid;
  host_address_short = omega arith;
  host_address_port_int = omega arith;
  device_name_short = omega arith;
}

abbrev found_get_reply : MessageGetReply
found_get_reply = record {
  base = base;
  resolution_status = 2;
  resolution_hops = 2;
  resolution_ip_hops = 2;
  resolution_latency = 4607182418800017408;
  origin_seq_no = 2;
  target_oid = oid;
  host_address = record { host_name = name; host_port = 8080 };
  device_name = name;
}

found_get_reply-IsMessageGetReply : IsMessageGetReply found_get_reply
found_get_reply-IsMessageGetReply = record {
  base_wire = base-IsWire;
  resolution_status_int = omega arith;
  resolution_hops_int = omega arith;
  resolution_ip_hops_int = omega arith;
  resolution_latency_double = omega arith;
  origin_seq_no_int = omega arith;
  target_oid_wire = oid-IsWireOid;
  host_address_short = omega arith;
  host_address_port_int = omega arith;
  device_name_short = omega arith;
}

abbrev retrieve_reply : MessageRetrieveReply
retrieve_reply = record {
  base = base;
  resolution_status = 2;
  resolution_hops = 2;
  resolution_ip_hops = 2;
  resolution_latency = 4607182418800017408;
  origin_seq_no = 2;
  host_address = record { host_name = []; host_port = 8080 };
  device_name = name;
}

retrieve_reply-IsMessageRetrieveReply : IsMessageRetrieveReply retrieve_reply
retrieve_reply-IsMessageRetrieveReply = record {
  base_wire = base-IsWire;
  resolution_status_int = omega arith;
  resolution_hops_int = omega arith;
  resolution_ip_hops_int = omega arith;
  resolution_latency_double = omega arith;
  origin_seq_no_int = omega arith;
  host_address_short = omega arith;
  host_address_port_int = omega arith;
  device_name_short = omega arith;
}

abbrev found_retrieve_reply : MessageRetrieveReply
found_retrieve_reply = record {
  base = base;
  resolution_status = 2;
  resolution_hops = 2;
  resolution_ip_hops = 2;
  resolution_latency = 4607182418800017408;
  origin_seq_no = 2;
  host_address = record { host_name = name; host_port = 8080 };
  device_name = name;
}

found_retrieve_reply-IsMessageRetrieveReply : IsMessageRetrieveReply found_retrieve_reply
found_retrieve_reply-IsMessageRetrieveReply = record {
  base_wire = base-IsWire;
  resolution_status_int = omega arith;
  resolution_hops_int = omega arith;
  resolution_ip_hops_int = omega arith;
  resolution_latency_double = omega arith;
  origin_seq_no_int = omega arith;
  host_address_short = omega arith;
  host_address_port_int = omega arith;
  device_name_short = omega arith;
}

abbrev change_status : PeerChangeStatusMessage
change_status = record { base = base; peer_status = 2 }

abbrev dyn_change_status : PeerDynChangeStatusMessage
dyn_change_status = record { base = base; dyn_status = 2 }
