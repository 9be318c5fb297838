-- ===== src/Req/Run.antt =====
-- `bhd_msg_hdr_dec` and `bhd_req_dec` of apps/blehostd/src/bhd_proto.c.
use blehostd.Prelude.{ℕ, not, if◌then◌else◌, Option, none, some, String, Bytes}
use blehostd.Prelude.Int.{ℤ, pos, negsuc, eqz}
use blehostd.Status.{Error, sys_erange, Result, ok, err}
use blehostd.Cjson.{Cjson}
use blehostd.Json.{json_int_bounds, json_string}
use blehostd.Proto.Maps.{HostConsts, op_parse, type_parse}
use blehostd.Proto.Numbers.{op_req, op_rsp, type_err, seq_max}
use blehostd.Req.Outcome.{
  build, build_returned, fill, fill_returned, status_only, Outcome, accepted, rejected, undefined,
  ◌>>=◌, or_reject, u32, HostSizes,
}
use blehostd.Req.Types.{
  Call, hs_synced, gap_conn_cancel, gap_scan_cancel, hs_sched_reset, gap_adv_stop, gatts_clear_svcs,
  gatts_commit_svcs,
}
use blehostd.Req.Gap
use blehostd.Req.Gatt
use blehostd.Req.AdvFields
use blehostd.Req.Dispatch
use blehostd.Req.Dispatch.{ReqRun, req_dispatch_find}

-- `struct bhd_msg_hdr`
pub record MsgHdr : Type 0 where
  pub op : ℤ
  pub type : ℤ
  pub seq : ℕ

-- The response behind `bhd_req_dec`. `error_rsp` has the code and the message, if one is written, in the
-- body. In `call_rsp` the body is what the call leaves there; the calls do not write the header.
pub data Answer : Type 0 where
  error_rsp : MsgHdr → Error → Option String → Answer
  call_rsp : MsgHdr → Call → Answer
  undefined_rsp : Answer

-- How an error of a handler changes the response with the header `hdr`.
unfoldable pub finish : MsgHdr → Outcome Call → Answer
finish hdr (accepted call) = call_rsp hdr call
finish hdr (rejected build e msg) =
    error_rsp (record hdr { op = op_rsp; type = type_err }) e (some msg)
finish hdr (rejected build_returned e msg) =
    error_rsp (record hdr { op = op_rsp; type = type_err }) e (some msg)
finish hdr (rejected fill e msg) = error_rsp hdr e (some msg)
finish hdr (rejected fill_returned e msg) = error_rsp hdr e (some msg)
finish hdr (rejected status_only e msg) = error_rsp hdr e none
finish hdr undefined = undefined_rsp

-- `valstr = bhd_json_string(...)`, the search, and the test for -1.
abbrev parsed : (Bytes → ℤ) → Result Bytes → String → Outcome ℤ
parsed parse (ok valstr) msg =
    if eqz (parse valstr) (negsuc 0) then rejected fill sys_erange msg else accepted (parse valstr)
parsed parse (err e) msg = rejected fill e msg

module _ (J : Cjson) (sizes : HostSizes) (c : HostConsts) where
  open J use {Item, parse}

  unfoldable pub msg_hdr_dec : Item → Outcome MsgHdr
  msg_hdr_dec parent = do
    op ← parsed op_parse (json_string J parent "op") "invalid op"
    type ← parsed type_parse (json_string J parent "type") "invalid type"
    seq ← or_reject fill (json_int_bounds J parent "seq" (pos 0) (pos seq_max)) "invalid seq"
    accepted (record { op = op; type = type; seq = u32 seq })

  -- The call `req_cb(root, &req, out_rsp)`.
  unfoldable pub req_cb : ReqRun → Item → Outcome Call
  req_cb Dispatch.sync_run parent = accepted hs_synced
  req_cb Dispatch.connect_run parent = Gap.connect_req_run J sizes c parent
  req_cb Dispatch.terminate_run parent = Gap.terminate_req_run J sizes c parent
  req_cb Dispatch.disc_all_svcs_run parent = Gatt.disc_all_svcs_req_run J sizes c parent
  req_cb Dispatch.disc_svc_uuid_run parent = Gatt.disc_svc_uuid_req_run J sizes c parent
  req_cb Dispatch.disc_all_chrs_run parent = Gatt.disc_all_chrs_req_run J sizes c parent
  req_cb Dispatch.disc_chr_uuid_run parent = Gatt.disc_chr_uuid_req_run J sizes c parent
  req_cb Dispatch.disc_all_dscs_run parent = Gatt.disc_all_dscs_req_run J sizes c parent
  req_cb Dispatch.write_run parent = Gatt.write_req_run J sizes c parent
  req_cb Dispatch.write_cmd_run parent = Gatt.write_cmd_req_run J sizes c parent
  req_cb Dispatch.exchange_mtu_run parent = Gatt.exchange_mtu_req_run J sizes c parent
  req_cb Dispatch.gen_rand_addr_run parent = Gap.gen_rand_addr_req_run J sizes c parent
  req_cb Dispatch.set_rand_addr_run parent = Gap.set_rand_addr_req_run J sizes c parent
  req_cb Dispatch.conn_cancel_run parent = accepted gap_conn_cancel
  req_cb Dispatch.scan_run parent = Gap.scan_req_run J sizes c parent
  req_cb Dispatch.scan_cancel_run parent = accepted gap_scan_cancel
  req_cb Dispatch.set_preferred_mtu_run parent = Gatt.set_preferred_mtu_req_run J sizes c parent
  req_cb Dispatch.security_initiate_run parent = Gap.security_initiate_req_run J sizes c parent
  req_cb Dispatch.conn_find_run parent = Gap.conn_find_req_run J sizes c parent
  req_cb Dispatch.reset_run parent = accepted hs_sched_reset
  req_cb Dispatch.adv_start_run parent = Gap.adv_start_req_run J sizes c parent
  req_cb Dispatch.adv_stop_run parent = accepted gap_adv_stop
  req_cb Dispatch.adv_set_data_run parent = Gap.adv_set_data_req_run J sizes c parent
  req_cb Dispatch.adv_rsp_set_data_run parent = Gap.adv_rsp_set_data_req_run J sizes c parent
  req_cb Dispatch.adv_fields_run parent = AdvFields.adv_fields_req_run J sizes parent
  req_cb Dispatch.clear_svcs_run parent = accepted gatts_clear_svcs
  req_cb Dispatch.add_svcs_run parent = Gatt.add_svcs_req_run J sizes c parent
  req_cb Dispatch.commit_svcs_run parent = accepted gatts_commit_svcs
  req_cb Dispatch.access_status_run parent = Gatt.access_status_req_run J sizes c parent
  req_cb Dispatch.notify_run parent = Gatt.notify_req_run J sizes c parent
  req_cb Dispatch.find_chr_run parent = Gatt.find_chr_req_run J sizes c parent
  req_cb Dispatch.sm_inject_io_run parent = Gatt.sm_inject_io_req_run J sizes c parent

  -- `bhd_req_dec` from the test of `req.hdr.op` on.
  unfoldable pub req_dispatched : Item → MsgHdr → Answer
  unfolding req_cb req_dispatch_find finish
  req_dispatched root hdr =
      if not (eqz hdr.op op_req)
      then error_rsp (record { op = op_rsp; type = type_err; seq = hdr.seq }) sys_erange
          (some "invalid op")
      else elim (req_dispatch_find hdr.type) [
        | none ↦
            error_rsp (record { op = op_rsp; type = type_err; seq = hdr.seq }) sys_erange
              (some "invalid type")
        | some cb ↦ finish (record { op = op_rsp; type = hdr.type; seq = hdr.seq }) (req_cb cb root)
      ]

  unfoldable pub req_dec : Bytes → Answer
  unfolding req_dispatched msg_hdr_dec
  req_dec json = elim (parse json) [
    | none ↦
        error_rsp (record { op = op_rsp; type = type_err; seq = 0 }) sys_erange
          (some "invalid json")
    | some root ↦ elim (msg_hdr_dec root) [
      | rejected form e msg ↦
          error_rsp (record { op = op_rsp; type = type_err; seq = 0 }) e (some msg)
      | undefined ↦ undefined_rsp
      | accepted hdr ↦ req_dispatched root hdr
    ]
  ]
