-- ===== src/Req/CallTypes.antt =====
-- That a request makes the call of its own type.
use blehostd.Prelude.{◌≡◌, inl, inr, Bool-cases, Option-cases, some, Bytes, arith}
use blehostd.Prelude.Int.{eqz, eqz_sound}
use blehostd.Cjson.{Cjson}
use blehostd.Proto.Maps.{HostConsts}
use blehostd.Proto.Numbers.{op_req, op_rsp}
use blehostd.Req.Answers.{Outcome-cases}
use blehostd.Req.Outcome.{
  build, build_returned, fill, fill_returned, status_only, Outcome, accepted, rejected, undefined,
  HostSizes,
}
use blehostd.Req.Types.{Call}
use blehostd.Req.Gap
use blehostd.Req.Gatt
use blehostd.Req.AdvFields
use blehostd.Req.Dispatch
use blehostd.Req.Dispatch.{ReqRun, req_dispatch, dispatch_find, req_dispatch_find}
use blehostd.Req.Run.{MsgHdr, call_rsp, finish, msg_hdr_dec, req_cb, req_dispatched, req_dec}
use blehostd.Req.Keys.{call_type, cb_type, found_type}

module _ (J : Cjson) (sizes : HostSizes) (c : HostConsts) where
  open J use {Item, parse}

  pub req_cb-call_type :
      (cb : ReqRun) (root : Item) (call : Call)
      → req_cb J sizes c cb root ≡ accepted call
      → call_type call ≡ cb_type cb
  unfolding req_cb call_type cb_type
  req_cb-call_type Dispatch.sync_run root call h = ground arith
  req_cb-call_type Dispatch.connect_run root call h = unfold Gap.connect_req_run in ground arith
  req_cb-call_type Dispatch.terminate_run root call h = unfold Gap.terminate_req_run in ground arith
  req_cb-call_type Dispatch.disc_all_svcs_run root call h =
      unfold Gatt.disc_all_svcs_req_run in ground arith
  req_cb-call_type Dispatch.disc_svc_uuid_run root call h =
      unfold Gatt.disc_svc_uuid_req_run in ground arith
  req_cb-call_type Dispatch.disc_all_chrs_run root call h =
      unfold Gatt.disc_all_chrs_req_run in ground arith
  req_cb-call_type Dispatch.disc_chr_uuid_run root call h =
      unfold Gatt.disc_chr_uuid_req_run in ground arith
  req_cb-call_type Dispatch.disc_all_dscs_run root call h =
      unfold Gatt.disc_all_dscs_req_run in ground arith
  req_cb-call_type Dispatch.write_run root call h = unfold Gatt.write_req_run in ground arith
  req_cb-call_type Dispatch.write_cmd_run root call h =
      unfold Gatt.write_cmd_req_run in ground arith
  req_cb-call_type Dispatch.exchange_mtu_run root call h =
      unfold Gatt.exchange_mtu_req_run in ground arith
  req_cb-call_type Dispatch.gen_rand_addr_run root call h =
      unfold Gap.gen_rand_addr_req_run in ground arith
  req_cb-call_type Dispatch.set_rand_addr_run root call h =
      unfold Gap.set_rand_addr_req_run in ground arith
  req_cb-call_type Dispatch.conn_cancel_run root call h = ground arith
  req_cb-call_type Dispatch.scan_run root call h = unfold Gap.scan_req_run in ground arith
  req_cb-call_type Dispatch.scan_cancel_run root call h = ground arith
  req_cb-call_type Dispatch.set_preferred_mtu_run root call h =
      unfold Gatt.set_preferred_mtu_req_run in ground arith
  req_cb-call_type Dispatch.security_initiate_run root call h =
      unfold Gap.security_initiate_req_run in ground arith
  req_cb-call_type Dispatch.conn_find_run root call h = unfold Gap.conn_find_req_run in ground arith
  req_cb-call_type Dispatch.reset_run root call h = ground arith
  req_cb-call_type Dispatch.adv_start_run root call h = unfold Gap.adv_start_req_run in ground arith
  req_cb-call_type Dispatch.adv_stop_run root call h = ground arith
  req_cb-call_type Dispatch.adv_set_data_run root call h =
      unfold Gap.adv_set_data_req_run in ground arith
  req_cb-call_type Dispatch.adv_rsp_set_data_run root call h =
      unfold Gap.adv_rsp_set_data_req_run in ground arith
  req_cb-call_type Dispatch.adv_fields_run root call h =
      unfold AdvFields.adv_fields_req_run in ground arith
  req_cb-call_type Dispatch.clear_svcs_run root call h = ground arith
  req_cb-call_type Dispatch.add_svcs_run root call h = unfold Gatt.add_svcs_req_run in ground arith
  req_cb-call_type Dispatch.commit_svcs_run root call h = ground arith
  req_cb-call_type Dispatch.access_status_run root call h =
      unfold Gatt.access_status_req_run in ground arith
  req_cb-call_type Dispatch.notify_run root call h = unfold Gatt.notify_req_run in ground arith
  req_cb-call_type Dispatch.find_chr_run root call h = unfold Gatt.find_chr_req_run in ground arith
  req_cb-call_type Dispatch.sm_inject_io_run root call h =
      unfold Gatt.sm_inject_io_req_run in ground arith

  finish-call :
      (hdr : MsgHdr) (d : Outcome Call) (out : MsgHdr) (call : Call)
      → finish hdr d ≡ call_rsp out call
      → (d ≡ accepted call) × (hdr ≡ out)
  unfolding finish
  finish-call hdr (accepted a) out call h = ground arith
  finish-call hdr (rejected build e msg) out call h = cc
  finish-call hdr (rejected build_returned e msg) out call h = cc
  finish-call hdr (rejected fill e msg) out call h = cc
  finish-call hdr (rejected fill_returned e msg) out call h = cc
  finish-call hdr (rejected status_only e msg) out call h = cc
  finish-call hdr undefined out call h = cc

  req_dispatched-call :
      (root : Item) (hdr out : MsgHdr) (call : Call)
      → req_dispatched J sizes c root hdr ≡ call_rsp out call
      → (call_type call ≡ out.type)
        × (hdr.op ≡ op_req)
        × (hdr.type ≡ out.type)
        × (hdr.seq ≡ out.seq)
        × (cb : ReqRun) × (req_cb J sizes c cb root ≡ accepted call)
  unfolding req_dispatched
  req_dispatched-call root hdr out call h = elim (Bool-cases (eqz hdr.op op_req)) [
    | inr other ↦ absurd (ground arith)
    | inl same ↦ elim (Option-cases (req_dispatch_find hdr.type)) [
      | inl missing ↦ absurd (ground arith)
      | inr (cb, found) ↦
          let (run, e) =
            finish-call (record { op = op_rsp; type = hdr.type; seq = hdr.seq })
              (req_cb J sizes c cb root) out call (ground arith) in
          let t = req_cb-call_type cb root call run in
          let f = found_type hdr.type cb found in
          let o = eqz_sound hdr.op op_req same in
          (ground (arith, e, t, f), o, ground (arith, e), ground (arith, e), cb, run)
    ]
  ]

  -- Where `bhd_req_dec` makes a call, the text is JSON, its header is the header of a request with the
  -- type and the sequence number of the response, and the call is the one that the protocol has for
  -- this type.
  pub req_dec-call :
      (json : Bytes) (out : MsgHdr) (call : Call)
      → req_dec J sizes c json ≡ call_rsp out call
      → (call_type call ≡ out.type)
        × (root : Item) × (parse json ≡ some root)
        × (msg_hdr_dec J sizes c root
            ≡ accepted (record { op = op_req; type = out.type; seq = out.seq }))
  unfolding req_dec
  req_dec-call json out call h = elim (Option-cases (parse json)) [
    | inl bad_json ↦ absurd (ground arith)
    | inr (root, parsed) ↦ elim (Outcome-cases (msg_hdr_dec J sizes c root)) [
      | inl (hdr, decoded) ↦
          let (t, o, ty, seq, cb, run) = req_dispatched-call root hdr out call (ground arith) in
          (t, root, parsed, ground (arith, decoded, o, ty, seq))
      | inr failed ↦ absurd (ground arith)
    ]
  ]

  -- The handler that made the call.
  pub req_dec-req_cb :
      (json : Bytes) (out : MsgHdr) (call : Call)
      → req_dec J sizes c json ≡ call_rsp out call
      → (cb : ReqRun) × (root : Item) × (req_cb J sizes c cb root ≡ accepted call)
        × (parse json ≡ some root)
  unfolding req_dec
  req_dec-req_cb json out call h = elim (Option-cases (parse json)) [
    | inl bad_json ↦ absurd (ground arith)
    | inr (root, parsed) ↦ elim (Outcome-cases (msg_hdr_dec J sizes c root)) [
      | inl (hdr, decoded) ↦
          let (t, o, ty, seq, cb, run) = req_dispatched-call root hdr out call (ground arith) in
          (cb, root, run, parsed)
      | inr failed ↦ absurd (ground arith)
    ]
  ]
