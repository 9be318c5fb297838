-- ===== src/Tests/Messages.antt =====
-- Examples for the encoders: a response to a connection request, an advertisement that was seen, bytes and
-- an address.
use blehostd.Prelude.{◌≡◌, refl, false, Option, some, [], ◌∷◌, Bytes, codes, arith}
use blehostd.Prelude.Int.{pos, negsuc}
use blehostd.Status.{ok}
use blehostd.Json.{json_string, json_hex_string, json_addr}
use blehostd.Proto.Maps.{op_rev_parse, type_rev_parse, op_parse, type_parse}
use blehostd.Proto.Numbers.{op_rsp, op_evt, type_connect, type_scan_evt}
use blehostd.Req.Outcome.{accepted}
use blehostd.Req.Run.{msg_hdr_dec}
use blehostd.Req.Dispatch.{rsp_dispatch_find, dispatch_find}
use blehostd.Writer.Plain.{Node, node, nil, node_json, node_writer, node_writer-IsFaithful}
use blehostd.Cjson.{other_type}
use blehostd.Enc.{HostText, add_int, add_bytes, add_addr, msg_hdr_enc}
use blehostd.Enc.Rsp.{status_rsp, status_of, encoded, rsp_cb, connect_rsp_enc}
use blehostd.Enc.Evt.{scan_evt}
use blehostd.Enc.Evt.Scan.{ScanEvt}
use blehostd.Enc.Evt.Kept.{type_number}
use blehostd.Enc.Header.{rsp_enc-hdr}
use blehostd.Enc.Values.{json_hex_string-add_bytes, json_addr-add_addr}
use blehostd.Enc.Names.{evt_enc-names}
use blehostd.Enc.Send.{Rsp, rsp_enc, Evt, evt_enc}
use blehostd.Tests.Data.{consts}
use blehostd.Tests.Requests.{sizes}

abbrev pub host_text : HostText
host_text = record {
  uuid_to_str = λ _. codes "0x1234";
  conn_handle_none = 0xffff;
  is_addr_any = λ _. false;
}

abbrev connected : Rsp
connected = record {
  hdr = record { op = op_rsp; type = type_connect; seq = 5 };
  body = status_rsp (pos 0);
}

abbrev connected_object : Option Node
connected_object =
    add_int node_writer (msg_hdr_enc node_writer node_writer.create_object connected.hdr) "status"
      (pos 0)

connected_runs : rsp_enc node_writer host_text consts connected ≡ encoded connected_object
unfolding rsp_enc rsp_dispatch_find dispatch_find rsp_cb connect_rsp_enc status_of
connected_runs = refl

named_op : op_rev_parse op_rsp ≡ some (codes "response")
unfolding op_rev_parse
named_op = refl

named_type : type_rev_parse type_connect ≡ some (codes "connect")
unfolding type_rev_parse
named_type = refl

rsp_enc-hdr_example :
    (root : Node) × (connected_object ≡ some root)
    × (msg_hdr_dec node_json sizes consts root ≡ accepted connected.hdr)
rsp_enc-hdr_example =
    rsp_enc-hdr node_writer-IsFaithful host_text sizes consts connected (codes "response")
      (codes "connect") connected_object named_op named_type (ground arith) connected_runs

abbrev pub seen : ScanEvt
seen = record {
  event_type = 0;
  addr = record { type = 0; val = 1 ∷ 2 ∷ 3 ∷ 4 ∷ 5 ∷ 6 ∷ [] };
  rssi = negsuc 59;
  bytes = 2 ∷ 1 ∷ 6 ∷ [];
  direct_addr = record { type = 0; val = 0 ∷ 0 ∷ 0 ∷ 0 ∷ 0 ∷ 0 ∷ [] };
  data_flags = 6;
  data_uuids16 = 0x180f ∷ [];
  data_uuids16_is_complete = 1;
  data_uuids32 = [];
  data_uuids32_is_complete = 0;
  data_uuids128 = [];
  data_uuids128_is_complete = 0;
  data_name = codes "lamp";
  data_name_is_complete = 1;
  data_tx_pwr_lvl = pos 0;
  data_tx_pwr_lvl_is_present = 0;
  data_slave_itvl_min = 0;
  data_slave_itvl_max = 0;
  data_slave_itvl_range_is_present = 0;
  data_svc_data_uuid16 = [];
  data_public_tgt_addrs = [];
  data_appearance = 0;
  data_appearance_is_present = 0;
  data_adv_itvl = 0;
  data_adv_itvl_is_present = 0;
  data_svc_data_uuid32 = [];
  data_svc_data_uuid128 = [];
  data_uri = [];
  data_mfg_data = [];
}

abbrev pub seen_evt : Evt
seen_evt = record {
  hdr = record { op = op_evt; type = type_scan_evt; seq = 0xfffffff1 };
  body = scan_evt seen;
}

seen_type : seen_evt.hdr.type ≡ type_number seen_evt.body
unfolding type_number
seen_type = refl

evt_enc-names_example :
    (root : Node) × (op_text : Bytes) × (type_text : Bytes) × (evt_enc node_writer host_text consts
        sizes seen_evt
      ≡ encoded (some root))
    × (json_string node_json root "op" ≡ ok op_text)
    × (op_parse op_text ≡ op_evt)
    × (json_string node_json root "type" ≡ ok type_text)
    × (type_parse type_text ≡ type_scan_evt)
evt_enc-names_example =
    evt_enc-names node_writer-IsFaithful host_text consts sizes seen_evt refl seen_type

abbrev no_members : Node
no_members = node other_type (pos 0) [] nil

json_hex_string-add_bytes_example :
    (object : Node) × (add_bytes node_writer (some no_members) "data" (1 ∷ 255 ∷ []) ≡ some object)
    × (json_hex_string node_json object "data" 31 ≡ ok (1 ∷ 255 ∷ []))
json_hex_string-add_bytes_example =
    json_hex_string-add_bytes node_writer-IsFaithful no_members "data" (1 ∷ 255 ∷ []) 31 refl
      (ground arith) (ground arith)

json_addr-add_addr_example :
    (object : Node) × (add_addr node_writer (some no_members) "addr" (1 ∷ 2 ∷ 3 ∷ 4 ∷ 5 ∷ 6 ∷ [])
      ≡ some object)
    × (json_addr node_json object "addr" ≡ ok (1 ∷ 2 ∷ 3 ∷ 4 ∷ 5 ∷ 6 ∷ []))
json_addr-add_addr_example =
    json_addr-add_addr node_writer-IsFaithful no_members "addr" (1 ∷ 2 ∷ 3 ∷ 4 ∷ 5 ∷ 6 ∷ []) refl
      refl (ground arith)
