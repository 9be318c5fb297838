-- ===== src/Tests/Daemon.antt =====
-- Examples for requests from their text to the response: a request that ends a connection.
use blehostd.Prelude.{◌≡◌, ◌≢◌, ◌⊎◌, refl, ℕ, String, some, [], ◌∷◌, codes, arith, length, map}
use blehostd.Prelude.Int.{pos}
use blehostd.Status.{Error}
use blehostd.Cjson.{Cjson, other_type, cjson_number, cjson_string}
use blehostd.Json.{json_string, json_int_bounds}
use blehostd.Proto.Maps.{op_parse, type_parse}
use blehostd.Proto.Numbers.{op_req, op_rsp, type_terminate, type_err}
use blehostd.Writer.{Writer, IsFaithful}
use blehostd.Writer.Plain.{
  Node, node, Members, nil, cons, node_json, node_writer, node_writer-IsFaithful,
}
use blehostd.Req.Gap.{terminate_req_run}
use blehostd.Req.Outcome.{accepted}
use blehostd.Req.Run.{msg_hdr_dec, req_dec}
use blehostd.Enc.Rsp.{garbled, failed_enc, encoded, status_rsp}
use blehostd.Enc.Send.{Rsp, rsp_enc}
use blehostd.Gap.Calls
use blehostd.Gap.Calls.{CallHost}
use blehostd.Gatts.Access.{initial}
use blehostd.Gatts.Bounds.{IsWithin}
use blehostd.Daemon.{Hosts, State, executed, respond, respond_all}
use blehostd.Daemon.Tables.{respond_all-IsWithin}
use blehostd.Daemon.Whole.{req_dec-reads, req_dec-response}
use blehostd.Tests.Data.{consts, empty_tables}
use blehostd.Tests.Requests.{sizes}
use blehostd.Tests.Messages.{host_text}
use blehostd.Tests.Discovery.{accepting}
use blehostd.Tests.Commit.{willing, put_be16}
use blehostd.Tests.Stream.{at_rest, chunks, packets, rest, feed}
use blehostd.Os.Plain.{plain, plain-IsLawful, plain-IsAmple}
use blehostd.Framing.{ran, ◌>>=◌, Rx, reads}
use blehostd.Framing.Step.{Holds}
use blehostd.Framing.Serve.{process_req_mq, answer, reads-answers}

abbrev string_member : String → String → Members → Members
string_member name value = cons name (node cjson_string (pos 0) (codes value) nil)

abbrev number_member : String → ℕ → Members → Members
number_member name n = cons name (node cjson_number (pos n) [] nil)

abbrev root : Node
root = node other_type (pos 0) [] (
    string_member "op" "request" (
      string_member "type" "terminate" (
        number_member "seq" 5 (number_member "conn_handle" 1 (number_member "hci_reason" 19 nil)))))

-- Every text is this request.
abbrev J : Cjson
J = record node_json { parse = λ _. some root }

abbrev W : Writer J
W = record {
  create_object = node_writer.create_object;
  create_array = node_writer.create_array;
  create_number = node_writer.create_number;
  create_bool = node_writer.create_bool;
  create_string = node_writer.create_string;
  add_item_to_object = node_writer.add_item_to_object;
  add_item_to_array = node_writer.add_item_to_array;
  add_string_to_object = node_writer.add_string_to_object;
  add_bool_to_object = node_writer.add_bool_to_object;
  print = node_writer.print;
}

W-IsFaithful : IsFaithful W
W-IsFaithful = record {
  create_object-some = node_writer-IsFaithful.create_object-some;
  create_object-empty = node_writer-IsFaithful.create_object-empty;
  create_number-some = node_writer-IsFaithful.create_number-some;
  create_number-int = node_writer-IsFaithful.create_number-int;
  create_string-some = node_writer-IsFaithful.create_string-some;
  add_item-some = node_writer-IsFaithful.add_item-some;
  add_item-new = node_writer-IsFaithful.add_item-new;
  add_item-old = node_writer-IsFaithful.add_item-old;
  add_item-other = node_writer-IsFaithful.add_item-other;
  add_string-item = node_writer-IsFaithful.add_string-item;
  add_bool-item = node_writer-IsFaithful.add_bool-item;
}

abbrev no_desc : Calls.FullDesc
no_desc = record {
  conn_itvl = 0;
  conn_latency = 0;
  supervision_timeout = 0;
  role = 0;
  master_clock_accuracy = 0;
  our_id_addr = Calls.zero_addr;
  peer_id_addr = Calls.zero_addr;
  our_ota_addr = Calls.zero_addr;
  peer_ota_addr = Calls.zero_addr;
  encrypted = 0;
  authenticated = 0;
  bonded = 0;
  key_size = 0;
}

abbrev calls : CallHost
calls = record {
  gap_connect = λ _ _ _ _ _. pos 0;
  gap_terminate = λ _ _. pos 0;
  gap_conn_cancel = pos 0;
  gap_disc = λ _ _ _ _. pos 0;
  gap_disc_cancel = pos 0;
  gap_security_initiate = λ _. pos 0;
  gap_conn_find = λ _. (pos 0, no_desc);
  gap_adv_start = λ _ _ _ _ _. pos 0;
  gap_adv_stop = pos 0;
  gap_adv_set_data = λ _. pos 0;
  gap_adv_rsp_set_data = λ _. pos 0;
  hs_id_gen_rnd = λ _. (pos 0, []);
  hs_id_set_rnd = λ _. pos 0;
  hs_synced = pos 1;
  sm_inject_io = λ _ _. pos 0;
  hs_einval = pos 3;
}

abbrev hosts : Hosts
hosts = record {
  calls = calls;
  adv_fields = record {
    adv_set_fields = λ _. (pos 0, []);
    hs_einval = pos 3;
    adv_max_field_sz = 29;
    put_be16 = put_be16;
  };
  gatt = accepting;
  gatts = willing;
  consts = consts;
  code = λ _. pos 9;
  att_attr_max_len = 512;
}

abbrev start : State
start = record { tables = empty_tables; access = initial; heap = [] }

abbrev ended : Rsp
ended = record {
  hdr = record { op = op_rsp; type = type_terminate; seq = 5 };
  body = status_rsp (pos 0);
}

decodes :
    msg_hdr_dec J sizes consts root
    ≡ accepted (record { op = op_req; type = type_terminate; seq = 5 })
unfolding msg_hdr_dec json_string op_parse type_parse json_int_bounds
decodes = refl

runs : respond hosts (req_dec J sizes consts []) start ≡ executed ended start
unfolding respond req_dec json_string op_parse type_parse json_int_bounds terminate_req_run
    Calls.gap_terminate
runs = refl

req_dec-reads_example : rsp_enc W host_text consts ended ≢ garbled
req_dec-reads_example =
    req_dec-reads W host_text sizes consts hosts (λ e. refl) [] start start ended runs

req_dec-response_example :
    (ended.hdr.op ≡ op_rsp)
    × (ended.hdr.seq ≡ 5)
    × ((ended.hdr.type ≡ type_terminate) ⊎ (ended.hdr.type ≡ type_err))
    × (((e : Error) × (rsp_enc W host_text consts ended ≡ failed_enc e))
        ⊎ ((out : Node) × (rsp_enc W host_text consts ended ≡ encoded (some out))
            × (msg_hdr_dec J sizes consts out ≡ accepted ended.hdr)))
req_dec-response_example =
    req_dec-response W-IsFaithful host_text sizes consts hosts (λ e. refl) [] root
      (record { op = op_req; type = type_terminate; seq = 5 }) start start ended refl decodes
      (ground arith) (ground arith) runs

one : respond_all hosts (req_dec J sizes consts [] ∷ []) start ≡ some (ended ∷ [], start)
unfolding respond_all req_dec json_string op_parse type_parse json_int_bounds terminate_req_run
    Calls.gap_terminate
one = refl

respond_all-IsWithin_example :
    IsWithin empty_tables × (length (ended ∷ []) ≡ length (req_dec J sizes consts [] ∷ []))
respond_all-IsWithin_example =
    respond_all-IsWithin hosts (req_dec J sizes consts [] ∷ []) start start (ended ∷ [])
      (ground arith) one

-- The daemon gets the same request in two packets.
served :
    respond_all hosts (map (answer plain J sizes hosts) packets) start
    ≡ some (ended ∷ ended ∷ [], start)
unfolding respond_all req_dec json_string op_parse type_parse json_int_bounds terminate_req_run
    Calls.gap_terminate
served = refl

reads-answers_example :
    (rx' : Rx plain) × ((reads plain 3 chunks at_rest >>= λ read.
    process_req_mq plain J sizes hosts 3 read start)
      ≡ ran (ended ∷ ended ∷ [], rx', start))
    × (length (ended ∷ ended ∷ []) ≡ length packets)
    × (rx'.req_mq ≡ [])
    × Holds plain-IsLawful rx' rest
unfolding plain-IsLawful
reads-answers_example =
    reads-answers plain-IsLawful J sizes hosts plain-IsAmple 3 at_rest chunks packets rest start
      start (ended ∷ ended ∷ []) refl refl refl feed (ground arith) served
