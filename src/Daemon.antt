-- ===== src/Daemon.antt =====
-- What a request does, from the answer of `bhd_req_dec` to the response: the calls of the handlers in
-- apps/blehostd/src/bhd_proto.c, with the functions of bhd_gap.c, bhd_gattc.c, bhd_gatts.c, bhd_id.c and bhd_sm.c that
-- they reach, on the state that these keep.
pub mod Members
pub mod Encoded
pub mod Forms
pub mod Errors
pub mod Whole
pub mod Tables
use blehostd.Prelude.{ℕ, Option, none, some, List, [], ◌∷◌, codes, String, if◌then◌else◌}
use blehostd.Prelude.Int.{ℤ, pos, eqz}
use blehostd.Status.{Error, overread, Rc, success, fail}
use blehostd.Proto.Maps.{HostConsts}
use blehostd.Proto.Numbers.{op_rsp, type_err, type_find_chr}
use blehostd.Req.Types
use blehostd.Req.Types.{Call, AccessStatusReq}
use blehostd.Req.Run.{MsgHdr, Answer, error_rsp, call_rsp, undefined_rsp}
use blehostd.Svc.{Svc}
use blehostd.Enc.Rsp.{RspBody, err_rsp, sync_rsp, status_rsp, find_chr_rsp}
use blehostd.Enc.Send.{Rsp}
use blehostd.Gap.Calls
use blehostd.Gap.Calls.{CallHost}
use blehostd.Gap.Fields
use blehostd.Gap.Fields.{FieldsHost}
use blehostd.Gattc
use blehostd.Gattc.{GattHost, Heap, Reply, status_reply, err_reply}
use blehostd.Gatts.{Gatts, add_svcs, clear_svcs}
use blehostd.Gatts.Access.{Access, set_access_result}
use blehostd.Gatts.Commit
use blehostd.Gatts.Commit.{GattsHost, Filled, filled, no_memory, undefined}

-- What the functions reach outside the repository: the host, its constants, the numbers of the codes, and
-- BLE_ATT_ATTR_MAX_LEN.
pub record Hosts : Type 1 where
  pub calls : CallHost
  pub adv_fields : FieldsHost
  pub gatt : GattHost
  pub gatts : GattsHost
  pub consts : HostConsts
  pub code : Error → ℤ
  pub att_attr_max_len : ℕ

-- The static variables of bhd_gatts.c, and the blocks of bhd_gattc.c.
pub record State : Type 0 where
  pub tables : Gatts
  pub access : Access
  pub heap : Heap

-- The response and the state behind a request. `lost` stands for undefined behaviour on the way, or a failed `assert`.
pub data Executed : Type 0 where
  executed : Rsp → State → Executed
  lost : Executed

-- `bhd_err_build`
unfoldable pub err_build : (Error → ℤ) → MsgHdr → Error → String → Rsp
err_build code hdr e msg = record {
  hdr = record hdr { op = op_rsp; type = type_err };
  body = err_rsp (code e) (some (codes msg));
}

-- A response with this body.
abbrev pub give : MsgHdr → RspBody → State → Executed
give hdr body s = executed (record { hdr = hdr; body = body }) s

abbrev pub give_some : MsgHdr → Option RspBody → State → Executed
give_some hdr none s = lost
give_some hdr (some body) s = give hdr body s

abbrev pub rc_code : (Error → ℤ) → Rc → ℤ
rc_code code success = pos 0
rc_code code (fail e) = code e

unfoldable pub give_reply : (Error → ℤ) → MsgHdr → Reply → State → Executed
unfolding err_build
give_reply code hdr (status_reply status) s = give hdr (status_rsp status) s
give_reply code hdr (err_reply e msg) s = executed (err_build code hdr e msg) s

-- The status that `bhd_gatts_add_svcs` writes, or the 0 that the response begins with.
unfoldable pub give_added : (Error → ℤ) → MsgHdr → Option (Option Rc × Gatts) → State → Executed
give_added code hdr none s = lost
give_added code hdr (some (none, g)) s = give hdr (status_rsp (pos 0)) (record s { tables = g })
give_added code hdr (some (some rc, g)) s =
    give hdr (status_rsp (rc_code code rc)) (record s { tables = g })

unfoldable pub give_filled : MsgHdr → Filled RspBody → State → Executed
give_filled hdr (filled body) s = give hdr body s
give_filled hdr no_memory s = lost
give_filled hdr undefined s = lost

unfoldable pub give_heap : MsgHdr → ℤ × Heap → State → Executed
give_heap hdr (rc, heap) s = give hdr (status_rsp rc) (record s { heap = heap })

module _ (hosts : Hosts) where
  open hosts use {calls, adv_fields, gatt, gatts, consts, code, att_attr_max_len}

  -- `bhd_gatts_access_status`; the copy of a buffer that was not written is undefined.
  unfoldable pub gatts_access_status : MsgHdr → AccessStatusReq → State → Executed
  unfolding set_access_result
  gatts_access_status hdr req s = elim req.bytes [
    | none ↦ lost
    | some bytes ↦
        let (rc, access) =
          set_access_result att_attr_max_len req.att_status (some bytes) s.access in
        give hdr (status_rsp (rc_code code rc)) (record s { access = access })
  ]

  -- The call of a handler, with `req->hdr.seq` and the response `rsp` of which the header is written. The functions
  -- with no result leave the zeroes that the response begins with.
  unfoldable pub execute : MsgHdr → Call → State → Executed
  unfolding give_reply give_added give_filled give_heap gatts_access_status
  execute hdr Types.hs_synced s = give hdr (sync_rsp calls.hs_synced) s
  execute hdr Types.gap_conn_cancel s = give hdr (Calls.gap_conn_cancel calls) s
  execute hdr Types.gap_scan_cancel s = give hdr (Calls.gap_scan_cancel calls) s
  execute hdr Types.hs_sched_reset s = give hdr (status_rsp (pos 0)) s
  execute hdr Types.gap_adv_stop s = give hdr (Calls.gap_adv_stop calls) s
  execute hdr Types.gatts_clear_svcs s =
      give hdr (status_rsp (pos 0)) (record s { tables = clear_svcs s.tables })
  execute hdr Types.gatts_commit_svcs s = give_filled hdr (Commit.commit_svcs gatts s.tables) s
  execute hdr (Types.gap_connect req) s = give hdr (Calls.gap_connect calls hdr.seq req) s
  execute hdr (Types.gap_terminate req) s = give hdr (Calls.gap_terminate calls req) s
  execute hdr (Types.gattc_disc_all_svcs conn_handle) s =
      give_reply code hdr (Gattc.gattc_disc_all_svcs gatt hdr.seq conn_handle) s
  execute hdr (Types.gattc_disc_svc_uuid req) s =
      give_reply code hdr (Gattc.gattc_disc_svc_uuid gatt hdr.seq req) s
  execute hdr (Types.gattc_disc_all_chrs req) s =
      give_heap hdr (Gattc.gattc_disc_all_chrs gatt hdr.seq req s.heap) s
  execute hdr (Types.gattc_disc_chr_uuid req) s =
      give_heap hdr (Gattc.gattc_disc_chr_uuid gatt hdr.seq req s.heap) s
  execute hdr (Types.gattc_disc_all_dscs req) s =
      give_heap hdr (Gattc.gattc_disc_all_dscs gatt hdr.seq req s.heap) s
  execute hdr (Types.gattc_write req) s = give_reply code hdr (Gattc.gattc_write gatt hdr.seq req) s
  execute hdr (Types.gattc_write_no_rsp req) s =
      give_reply code hdr (Gattc.gattc_write_no_rsp gatt req) s
  execute hdr (Types.gattc_exchange_mtu conn_handle) s =
      give_reply code hdr (Gattc.gattc_exchange_mtu gatt hdr.seq conn_handle) s
  execute hdr (Types.id_gen_rand_addr nrpa) s = give hdr (Calls.id_gen_rand_addr calls nrpa) s
  execute hdr (Types.id_set_rand_addr addr) s = give hdr (Calls.id_set_rand_addr calls addr) s
  execute hdr (Types.gap_scan req) s = give hdr (Calls.gap_scan calls hdr.seq req) s
  execute hdr (Types.gattc_set_preferred_mtu mtu) s =
      give_reply code hdr (Gattc.gattc_set_preferred_mtu gatt mtu) s
  execute hdr (Types.gap_security_initiate conn_handle) s =
      give hdr (Calls.gap_security_initiate calls conn_handle) s
  execute hdr (Types.gap_conn_find conn_handle) s =
      give hdr (Calls.gap_conn_find calls conn_handle) s
  execute hdr (Types.gap_adv_start req) s = give hdr (Calls.gap_adv_start calls hdr.seq req) s
  execute hdr (Types.gap_adv_set_data bytes) s = give hdr (Calls.gap_adv_set_data calls bytes) s
  execute hdr (Types.gap_adv_rsp_set_data bytes) s =
      give hdr (Calls.gap_adv_rsp_set_data calls bytes) s
  execute hdr (Types.gap_adv_fields req) s = give_some hdr (Fields.gap_adv_fields adv_fields req) s
  execute hdr (Types.gatts_add_svcs svcs) s = give_added code hdr (add_svcs svcs s.tables) s
  execute hdr (Types.gatts_access_status req) s = gatts_access_status hdr req s
  execute hdr (Types.gattc_notify req) s = give_reply code hdr (Gattc.gattc_notify gatt req) s
  execute hdr (Types.gatts_find_chr req) s = give hdr (Commit.find_chr gatts req) s
  execute hdr (Types.sm_inject_io req) s = give_some hdr (Calls.sm_inject_io calls consts req) s

  -- What the handlers write on an error. With no message only the status is written, on the zeroes that the response
  -- begins with.
  unfoldable pub error_body : MsgHdr → Error → Option String → RspBody
  error_body hdr e (some msg) = err_rsp (code e) (some (codes msg))
  error_body hdr e none =
      if eqz hdr.type type_find_chr then find_chr_rsp (code e) 0 0 else status_rsp (code e)

  -- The response that `bhd_req_dec` leaves, and the state behind it. `overread` is no code.
  unfoldable pub respond : Answer → State → Executed
  unfolding execute error_body
  respond (error_rsp hdr e msg) s = elim e [
    | overread ↦ lost
    | code' ↦ give hdr (error_body hdr code' msg) s
  ]
  respond (call_rsp hdr call) s = execute hdr call s
  respond undefined_rsp s = lost

  -- The requests of the queue, one behind the other; `none` where one is lost.
  unfoldable pub respond_all : List Answer → State → Option (List Rsp × State)
  unfolding respond
  respond_all [] s = some ([], s)
  respond_all (answer ∷ answers) s = elim (respond answer s) [
    | lost ↦ none
    | executed rsp s' ↦ elim (respond_all answers s') [
      | none ↦ none
      | some (rsps, s'') ↦ some (rsp ∷ rsps, s'')
    ]
  ]
