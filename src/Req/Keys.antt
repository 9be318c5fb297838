-- ===== src/Req/Keys.antt =====
-- The message type of each handler and of each call.
use blehostd.Prelude.{◌≡◌, refl, inl, inr, Bool, true, Bool-cases, ◌&&◌, some, List, [], ◌∷◌, arith}
use blehostd.Prelude.Int.{ℤ, eqz, eqz_sound}
use blehostd.Proto.Numbers
use blehostd.Proto.Numbers.{op_req, op_rsp}
use blehostd.Req.Types
use blehostd.Req.Types.{Call}
use blehostd.Req.Dispatch
use blehostd.Req.Dispatch.{ReqRun, req_dispatch, dispatch_find, req_dispatch_find}

-- The message type that the protocol has for a call.
unfoldable pub call_type : Call → ℤ
call_type Types.hs_synced = Numbers.type_sync
call_type (Types.gap_connect _) = Numbers.type_connect
call_type (Types.gap_terminate _) = Numbers.type_terminate
call_type (Types.gattc_disc_all_svcs _) = Numbers.type_disc_all_svcs
call_type (Types.gattc_disc_svc_uuid _) = Numbers.type_disc_svc_uuid
call_type (Types.gattc_disc_all_chrs _) = Numbers.type_disc_all_chrs
call_type (Types.gattc_disc_chr_uuid _) = Numbers.type_disc_chr_uuid
call_type (Types.gattc_disc_all_dscs _) = Numbers.type_disc_all_dscs
call_type (Types.gattc_write _) = Numbers.type_write
call_type (Types.gattc_write_no_rsp _) = Numbers.type_write_cmd
call_type (Types.gattc_exchange_mtu _) = Numbers.type_exchange_mtu
call_type (Types.id_gen_rand_addr _) = Numbers.type_gen_rand_addr
call_type (Types.id_set_rand_addr _) = Numbers.type_set_rand_addr
call_type Types.gap_conn_cancel = Numbers.type_conn_cancel
call_type (Types.gap_scan _) = Numbers.type_scan
call_type Types.gap_scan_cancel = Numbers.type_scan_cancel
call_type (Types.gattc_set_preferred_mtu _) = Numbers.type_set_preferred_mtu
call_type (Types.gap_security_initiate _) = Numbers.type_enc_initiate
call_type (Types.gap_conn_find _) = Numbers.type_conn_find
call_type Types.hs_sched_reset = Numbers.type_reset
call_type (Types.gap_adv_start _) = Numbers.type_adv_start
call_type Types.gap_adv_stop = Numbers.type_adv_stop
call_type (Types.gap_adv_set_data _) = Numbers.type_adv_set_data
call_type (Types.gap_adv_rsp_set_data _) = Numbers.type_adv_rsp_set_data
call_type (Types.gap_adv_fields _) = Numbers.type_adv_fields
call_type Types.gatts_clear_svcs = Numbers.type_clear_svcs
call_type (Types.gatts_add_svcs _) = Numbers.type_add_svcs
call_type Types.gatts_commit_svcs = Numbers.type_commit_svcs
call_type (Types.gatts_access_status _) = Numbers.type_access_status
call_type (Types.gattc_notify _) = Numbers.type_notify
call_type (Types.gatts_find_chr _) = Numbers.type_find_chr
call_type (Types.sm_inject_io _) = Numbers.type_sm_inject_io

-- The type of the element that has a handler.
unfoldable pub cb_type : ReqRun → ℤ
cb_type Dispatch.sync_run = Numbers.type_sync
cb_type Dispatch.connect_run = Numbers.type_connect
cb_type Dispatch.terminate_run = Numbers.type_terminate
cb_type Dispatch.disc_all_svcs_run = Numbers.type_disc_all_svcs
cb_type Dispatch.disc_svc_uuid_run = Numbers.type_disc_svc_uuid
cb_type Dispatch.disc_all_chrs_run = Numbers.type_disc_all_chrs
cb_type Dispatch.disc_chr_uuid_run = Numbers.type_disc_chr_uuid
cb_type Dispatch.disc_all_dscs_run = Numbers.type_disc_all_dscs
cb_type Dispatch.write_run = Numbers.type_write
cb_type Dispatch.write_cmd_run = Numbers.type_write_cmd
cb_type Dispatch.exchange_mtu_run = Numbers.type_exchange_mtu
cb_type Dispatch.gen_rand_addr_run = Numbers.type_gen_rand_addr
cb_type Dispatch.set_rand_addr_run = Numbers.type_set_rand_addr
cb_type Dispatch.conn_cancel_run = Numbers.type_conn_cancel
cb_type Dispatch.scan_run = Numbers.type_scan
cb_type Dispatch.scan_cancel_run = Numbers.type_scan_cancel
cb_type Dispatch.set_preferred_mtu_run = Numbers.type_set_preferred_mtu
cb_type Dispatch.security_initiate_run = Numbers.type_enc_initiate
cb_type Dispatch.conn_find_run = Numbers.type_conn_find
cb_type Dispatch.reset_run = Numbers.type_reset
cb_type Dispatch.adv_start_run = Numbers.type_adv_start
cb_type Dispatch.adv_stop_run = Numbers.type_adv_stop
cb_type Dispatch.adv_set_data_run = Numbers.type_adv_set_data
cb_type Dispatch.adv_rsp_set_data_run = Numbers.type_adv_rsp_set_data
cb_type Dispatch.adv_fields_run = Numbers.type_adv_fields
cb_type Dispatch.clear_svcs_run = Numbers.type_clear_svcs
cb_type Dispatch.add_svcs_run = Numbers.type_add_svcs
cb_type Dispatch.commit_svcs_run = Numbers.type_commit_svcs
cb_type Dispatch.access_status_run = Numbers.type_access_status
cb_type Dispatch.notify_run = Numbers.type_notify
cb_type Dispatch.find_chr_run = Numbers.type_find_chr
cb_type Dispatch.sm_inject_io_run = Numbers.type_sm_inject_io

keyed : List (ℤ × ReqRun) → Bool
keyed [] = true
keyed ((type, cb) ∷ entries) = eqz type (cb_type cb) && keyed entries

keyed_sound :
    (entries : List (ℤ × ReqRun)) (type : ℤ) (cb : ReqRun)
    → keyed entries ≡ true
    → dispatch_find entries type ≡ some cb
    → type ≡ cb_type cb
unfolding keyed dispatch_find
keyed_sound [] type cb h found = cc
keyed_sound ((t, f) ∷ entries) type cb h found = elim (Bool-cases (eqz t type)) [
  | inl same ↦
      let e = eqz_sound t type same in
      let k = eqz_sound t (cb_type f) (ground arith) in ground (arith, e, k)
  | inr other ↦ keyed_sound entries type cb (ground arith) (ground arith)
]

pub found_type : (type : ℤ) (cb : ReqRun) → req_dispatch_find type ≡ some cb → type ≡ cb_type cb
unfolding req_dispatch_find
found_type type cb found = keyed_sound req_dispatch type cb (unfold keyed cb_type in refl) found
