-- ===== src/Tests/Requests.antt =====
-- Examples for requests.
use blehostd.Prelude.{◌≡◌, refl, ap, some, []}
use blehostd.Json.{json_string, json_int_bounds}
use blehostd.Proto.Maps.{op_parse, type_parse}
use blehostd.Req.Gap.{terminate_req_run}
use blehostd.Cjson.{Cjson}
use blehostd.Proto.Numbers.{op_req, op_rsp, type_terminate}
use blehostd.Req.Outcome.{accepted, HostSizes}
use blehostd.Req.Types.{Call, gap_terminate}
use blehostd.Req.Run.{MsgHdr, call_rsp, msg_hdr_dec, req_dec}
use blehostd.Req.Answers.{IsEncodable, answer_hdr, req_dec-IsEncodable}
use blehostd.Req.Keys.{call_type}
use blehostd.Req.CallTypes.{req_dec-call}
use blehostd.Req.Bounds.{IsInRange}
use blehostd.Req.Bounds.Calls.{req_dec-IsInRange}
use blehostd.Tests.Data.{Tree, nothing, num, text, obj, tree_json, consts}

abbrev pub sizes : HostSizes
sizes = record {
  att_attr_max_len = 512;
  hci_max_adv_data_len = 31;
  adv_max_field_sz = 29;
  uuid_str_len = 37;
}

abbrev root : Tree
root = obj (
    text "op" "request"
      (text "type" "terminate" (num "seq" 5 (num "conn_handle" 1 (num "hci_reason" 19 nothing)))))

abbrev J : Cjson
J = tree_json root

abbrev answer : MsgHdr
answer = record { op = op_rsp; type = type_terminate; seq = 5 }

abbrev call : Call
call = gap_terminate (record { conn_handle = 1; hci_reason = 19 })

runs : req_dec J sizes consts [] ≡ call_rsp answer call
unfolding req_dec json_string op_parse type_parse json_int_bounds terminate_req_run
runs = refl

decodes :
    msg_hdr_dec J sizes consts root
    ≡ accepted (record { op = op_req; type = type_terminate; seq = 5 })
unfolding msg_hdr_dec json_string op_parse type_parse json_int_bounds
decodes = refl

req_dec-IsEncodable_example : IsEncodable answer
req_dec-IsEncodable_example = req_dec-IsEncodable J sizes consts [] answer (ap answer_hdr runs)

req_dec-call_example :
    (call_type call ≡ answer.type)
    × (item : Tree) × (J.parse [] ≡ some item)
    × (msg_hdr_dec J sizes consts item
        ≡ accepted (record { op = op_req; type = answer.type; seq = answer.seq }))
req_dec-call_example = req_dec-call J sizes consts [] answer call runs

req_dec-IsInRange_example : (item : Tree) × (J.parse [] ≡ some item) × IsInRange J sizes item call
req_dec-IsInRange_example = req_dec-IsInRange J sizes consts [] answer call runs
