-- ===== src/Req/Gatt.antt =====
-- The handlers of apps/blehostd/src/bhd_proto.c for GATT, as a client and as a server, and for the
-- security manager.
use blehostd.Prelude.{
  [], String, ◌||◌, ℕ, ◌+◌, if◌then◌else◌, Option, none, some, List, Bytes, length, ◌==◌,
}
use blehostd.Prelude.Int.{pos, eqz}
use blehostd.Status.{sys_enoent, hs_einval, Result, ok, err}
use blehostd.Cjson.{Cjson}
use blehostd.Json.{json_int_bounds, json_bool, json_arr, json_kv, json_hex_string}
use blehostd.Uuid.{json_uuid}
use blehostd.Svc.{Svc, json_svc}
use blehostd.Svc.Blocks
use blehostd.Svc.Blocks.{Decoded}
use blehostd.Proto.Maps.{HostConsts, sm_passkey_action_parse}
use blehostd.Req.Outcome.{
  Form, build, fill, fill_returned, status_only, Outcome, accepted, rejected, undefined, ◌>>=◌,
  or_reject, u8, u16, u32, HostSizes,
}
use blehostd.Req.Types.{
  Call, gattc_disc_all_svcs, gattc_disc_svc_uuid, gattc_disc_all_chrs, gattc_disc_chr_uuid,
  gattc_disc_all_dscs, gattc_write, gattc_write_no_rsp, gattc_exchange_mtu, gattc_set_preferred_mtu,
  gatts_add_svcs, gatts_access_status, gattc_notify, gatts_find_chr, sm_inject_io, WriteReq,
  SmInput, oob_data, passkey, numcmp_accept,
}

-- What `json_svc` gives a handler, which writes the code to the status and leaves the message.
abbrev of_decoded {ℓ} : {A : Type ℓ} → Decoded A → Outcome A
of_decoded (Blocks.done a) = accepted a
of_decoded (Blocks.bad e msg) = rejected status_only e msg
of_decoded Blocks.undefined = undefined

module _ (J : Cjson) (sizes : HostSizes) (c : HostConsts) where
  open J use {Item, children}

  unfoldable pub handle_at : Form → Item → String → String → Outcome ℕ
  handle_at form parent name msg = do
    handle ← or_reject form (json_int_bounds J parent name (pos 0) (pos 0xffff)) msg
    accepted (u16 handle)

  unfoldable pub disc_all_svcs_req_run : Item → Outcome Call
  unfolding handle_at
  disc_all_svcs_req_run parent = do
    conn_handle ← handle_at fill parent "conn_handle" "invalid conn_handle"
    accepted (gattc_disc_all_svcs conn_handle)

  unfoldable pub disc_svc_uuid_req_run : Item → Outcome Call
  unfolding handle_at
  disc_svc_uuid_req_run parent = do
    conn_handle ← handle_at fill parent "conn_handle" "invalid conn_handle"
    svc_uuid ← or_reject fill (json_uuid J sizes.uuid_str_len parent "svc_uuid") "invalid svc_uuid"
    accepted (gattc_disc_svc_uuid (record { conn_handle = conn_handle; svc_uuid = svc_uuid }))

  unfoldable pub disc_all_chrs_req_run : Item → Outcome Call
  unfolding handle_at
  disc_all_chrs_req_run parent = do
    conn_handle ← handle_at fill parent "conn_handle" "invalid conn_handle"
    start ← handle_at fill parent "start_handle" "invalid start_attr_handle"
    end ← handle_at fill parent "end_handle" "invalid end_attr_handle"
    accepted (
        gattc_disc_all_chrs
          (record { conn_handle = conn_handle; start_attr_handle = start; end_attr_handle = end }))

  -- The connection handle is written to `req->disc_svc_uuid`, where it stands in the same bytes.
  unfoldable pub disc_chr_uuid_req_run : Item → Outcome Call
  unfolding handle_at
  disc_chr_uuid_req_run parent = do
    conn_handle ← handle_at fill parent "conn_handle" "invalid conn_handle"
    start ← handle_at fill parent "start_handle" "invalid start_attr_handle"
    end ← handle_at fill parent "end_handle" "invalid end_attr_handle"
    chr_uuid ← or_reject fill (json_uuid J sizes.uuid_str_len parent "chr_uuid") "invalid chr_uuid"
    accepted (
        gattc_disc_chr_uuid (record {
          conn_handle = conn_handle;
          start_handle = start;
          end_handle = end;
          chr_uuid = chr_uuid;
        }))

  unfoldable pub disc_all_dscs_req_run : Item → Outcome Call
  unfolding handle_at
  disc_all_dscs_req_run parent = do
    conn_handle ← handle_at fill parent "conn_handle" "invalid conn_handle"
    start ← handle_at fill parent "start_handle" "invalid start_attr_handle"
    end ← handle_at fill parent "end_handle" "invalid end_attr_handle"
    accepted (
        gattc_disc_all_dscs
          (record { conn_handle = conn_handle; start_attr_handle = start; end_attr_handle = end }))

  unfoldable pub write_req_dec : Item → ℕ → Outcome WriteReq
  unfolding handle_at
  write_req_dec parent attr_buf_sz = do
    conn_handle ← handle_at fill parent "conn_handle" "invalid conn_handle"
    attr_handle ← handle_at fill parent "attr_handle" "invalid attr_handle"
    bytes ← or_reject fill (json_hex_string J parent "data" attr_buf_sz) "invalid data"
    accepted (record { conn_handle = conn_handle; attr_handle = attr_handle; bytes = bytes })

  unfoldable pub write_req_run : Item → Outcome Call
  unfolding write_req_dec
  write_req_run parent = do
    req ← write_req_dec parent (sizes.att_attr_max_len + 3)
    accepted (gattc_write req)

  unfoldable pub write_cmd_req_run : Item → Outcome Call
  unfolding write_req_dec
  write_cmd_req_run parent = do
    req ← write_req_dec parent (sizes.att_attr_max_len + 3)
    accepted (gattc_write_no_rsp req)

  unfoldable pub exchange_mtu_req_run : Item → Outcome Call
  unfolding handle_at
  exchange_mtu_req_run parent = do
    conn_handle ← handle_at fill_returned parent "conn_handle" "invalid conn_handle"
    accepted (gattc_exchange_mtu conn_handle)

  unfoldable pub set_preferred_mtu_req_run : Item → Outcome Call
  set_preferred_mtu_req_run parent = do
    mtu ← or_reject build (json_int_bounds J parent "mtu" (pos 0) (pos 0xffff)) "invalid mtu"
    accepted (gattc_set_preferred_mtu (u16 mtu))

  -- The services that are decoded, in a block with one element for each item of the array.
  unfoldable pub add_svcs_dec : Item → Outcome (List Svc)
  add_svcs_dec arr = of_decoded (Blocks.fill_block (json_svc J sizes.uuid_str_len c) (children arr))

  unfoldable pub add_svcs_req_run : Item → Outcome Call
  unfolding add_svcs_dec
  add_svcs_req_run parent = do
    arr ← or_reject status_only (json_arr J parent "services") ""
    svcs ← add_svcs_dec arr
    accepted (gatts_add_svcs svcs)

  -- With no member `data`, the request keeps the buffer and `data_len`, which are not initialised.
  unfoldable pub access_data : Result Bytes → Outcome (Option Bytes)
  access_data (ok bytes) = accepted (some bytes)
  access_data (err sys_enoent) = accepted none
  access_data (err e) = rejected status_only e ""

  unfoldable pub access_status_req_run : Item → Outcome Call
  unfolding access_data
  access_status_req_run parent = do
    att_status ← or_reject status_only (json_int_bounds J parent "att_status" (pos 0) (pos 0xff)) ""
    bytes ← access_data (json_hex_string J parent "data" sizes.att_attr_max_len)
    accepted (gatts_access_status (record { att_status = u8 att_status; bytes = bytes }))

  -- The code of the data is not looked at; `data_len` is then the 0 of `bhd_req_dec`.
  unfoldable pub notify_data : Result Bytes → Bytes
  notify_data (ok bytes) = bytes
  notify_data (err _) = []

  unfoldable pub notify_req_run : Item → Outcome Call
  unfolding handle_at notify_data
  notify_req_run parent = do
    conn_handle ← handle_at status_only parent "conn_handle" ""
    attr_handle ← handle_at status_only parent "attr_handle" ""
    accepted (
        gattc_notify (record {
          conn_handle = conn_handle;
          attr_handle = attr_handle;
          bytes = notify_data (json_hex_string J parent "data" (sizes.att_attr_max_len + 3));
        }))

  unfoldable pub find_chr_req_run : Item → Outcome Call
  find_chr_req_run parent = do
    svc_uuid ← or_reject status_only (json_uuid J sizes.uuid_str_len parent "svc_uuid") ""
    chr_uuid ← or_reject status_only (json_uuid J sizes.uuid_str_len parent "chr_uuid") ""
    accepted (gatts_find_chr (record { svc_uuid = svc_uuid; chr_uuid = chr_uuid }))

  -- The `switch` on the action, which is stored in a byte.
  unfoldable pub sm_input : Item → ℕ → Outcome SmInput
  sm_input parent action =
      if eqz (pos action) c.sm_ioact_oob
      then (do
        bytes ← or_reject status_only (json_hex_string J parent "oob_data" 16) ""
        if length bytes == 16 then accepted (oob_data bytes) else rejected status_only hs_einval "")
      else if eqz (pos action) c.sm_ioact_input || eqz (pos action) c.sm_ioact_disp
      then (do
        key ←
            or_reject status_only (json_int_bounds J parent "passkey" (pos 0) (pos 0xffff_ffff)) ""
        accepted (passkey (u32 key)))
      else if eqz (pos action) c.sm_ioact_numcmp
      then (do
        accept ← or_reject status_only (json_bool J parent "numcmp_accept") ""
        accepted (numcmp_accept accept))
      else rejected status_only hs_einval ""

  unfoldable pub sm_inject_io_req_run : Item → Outcome Call
  unfolding handle_at sm_input
  sm_inject_io_req_run parent = do
    conn_handle ← handle_at status_only parent "conn_handle" ""
    action ← or_reject status_only (json_kv J (sm_passkey_action_parse c) parent "action") ""
    input ← sm_input parent (u8 action)
    accepted
        (sm_inject_io (record { conn_handle = conn_handle; action = u8 action; input = input }))
