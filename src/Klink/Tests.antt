-- ===== src/Klink/Tests.antt =====
-- Runs of the models on concrete messages.
mod Replies
use pweb.Prelude.{◌+◌, ◌≡◌, refl, none, some, Bytes, ◌++◌, length, [], ◌∷◌, arith}
use pweb.Klink.OverlayId.{OverlayId, IsWireOid, sign_extend, put_oid, get_oid, get_oid-put_oid}
use pweb.Klink.Message.{AbsMessage}
use pweb.Klink.Message
use pweb.Klink.Message.RoundTrip.{IsWire, Faults}
use pweb.Klink.Message.Put
use pweb.Klink.Message.Put.{MessagePut, IsMessagePut, MessagePut-Survives}
use pweb.Klink.Message.PutReply
use pweb.Klink.Message.PutReply.{MessagePutReply, IsMessagePutReply, MessagePutReply-Survives}
use pweb.Klink.Message.Retrieve
use pweb.Klink.Message.Retrieve.{RetrieveMessage, IsRetrieveMessage, RetrieveMessage-Survives}
use pweb.Klink.Message.InitiateGet
use pweb.Klink.Message.InitiateGet.{PeerInitiateGet, IsPeerInitiateGet, PeerInitiateGet-Survives}
use pweb.Klink.Message.InitiatePut
use pweb.Klink.Message.InitiatePut.{PeerInitiatePut, IsPeerInitiatePut, PeerInitiatePut-Survives}
use pweb.Klink.Message.Config
use pweb.Klink.Message.Config.{PeerConfigMessage, IsPeerConfigMessage, PeerConfigMessage-Survives}
use pweb.Klink.Message.Get
use pweb.Klink.Message.Get.{MessageGet, IsMessageGet, MessageGet-Survives}
use pweb.Klink.Message.GetReply
use pweb.Klink.Message.GetReply.{
  MessageGetReply, IsMessageGetReply, MessageGetReply-Survives, MessageGetReply-Faults,
}
use pweb.Klink.Message.RetrieveReply
use pweb.Klink.Message.RetrieveReply.{
  MessageRetrieveReply, IsMessageRetrieveReply, MessageRetrieveReply-Survives,
  MessageRetrieveReply-Faults,
}
use pweb.Klink.Message.ChangeStatus
use pweb.Klink.Message.ChangeStatus.{PeerChangeStatusMessage, PeerChangeStatusMessage-Overflows}
use pweb.Klink.Message.DynChangeStatus
use pweb.Klink.Message.DynChangeStatus.{
  PeerDynChangeStatusMessage, PeerDynChangeStatusMessage-Overflows,
}
use pweb.Klink.Samples.{name, oid, oid-IsWireOid, base, base-IsWire}

abbrev put : MessagePut
put = record {
  base = base;
  target_oid = oid;
  device_name = name;
  host_address = record { host_name = name; host_port = 8080 };
}

put-IsMessagePut : IsMessagePut put
put-IsMessagePut = record {
  base_wire = base-IsWire;
  target_oid_wire = oid-IsWireOid;
  device_name_short = omega arith;
  host_address_short = omega arith;
  host_address_port_int = omega arith;
}

abbrev put_reply : MessagePutReply
put_reply = record {
  base = base;
  resolution_status = 2;
  resolution_hops = 2;
  resolution_ip_hops = 2;
  resolution_latency = 4607182418800017408;
  origin_seq_no = 2;
  target_oid = oid;
  device_name = name;
}

put_reply-IsMessagePutReply : IsMessagePutReply put_reply
put_reply-IsMessagePutReply = record {
  base_wire = base-IsWire;
  resolution_status_int = omega arith;
  resolution_hops_int = omega arith;
  resolution_ip_hops_int = omega arith;
  resolution_latency_double = omega arith;
  origin_seq_no_int = omega arith;
  target_oid_wire = oid-IsWireOid;
  device_name_short = omega arith;
}

abbrev retrieve : RetrieveMessage
retrieve = record { base = base; device_name = name }

retrieve-IsRetrieveMessage : IsRetrieveMessage retrieve
retrieve-IsRetrieveMessage = record { base_wire = base-IsWire; device_name_short = omega arith }

abbrev initiate_get : PeerInitiateGet
initiate_get = record { base = base; device_name = name }

initiate_get-IsPeerInitiateGet : IsPeerInitiateGet initiate_get
initiate_get-IsPeerInitiateGet = record { base_wire = base-IsWire; device_name_short = omega arith }

abbrev initiate_put : PeerInitiatePut
initiate_put = record {
  base = base;
  device_name = name;
  host_address = record { host_name = name; host_port = 8080 };
}

initiate_put-IsPeerInitiatePut : IsPeerInitiatePut initiate_put
initiate_put-IsPeerInitiatePut = record {
  base_wire = base-IsWire;
  device_name_short = omega arith;
  host_address_short = omega arith;
  host_address_port_int = omega arith;
}

abbrev config : PeerConfigMessage
config = record { base = base; parameter_k = 2; parameter_alpha = 4607182418800017408 }

config-IsPeerConfigMessage : IsPeerConfigMessage config
config-IsPeerConfigMessage = record {
  base_wire = base-IsWire;
  parameter_k_int = omega arith;
  parameter_alpha_double = omega arith;
}

abbrev get : MessageGet
get = record { base = base; target_oid = oid; device_name = name }

get-IsMessageGet : IsMessageGet get
get-IsMessageGet = record {
  base_wire = base-IsWire;
  target_oid_wire = oid-IsWireOid;
  device_name_short = omega arith;
}
