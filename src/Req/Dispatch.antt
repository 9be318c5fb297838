-- ===== src/Req/Dispatch.antt =====
-- The dispatch tables of apps/blehostd/src/bhd_proto.c. An element's function is a constructor with the
-- function's name; the element with the type -1 is the end of the list.
use blehostd.Prelude.{if◌then◌else◌, Option, none, some, List, [], ◌∷◌}
use blehostd.Prelude.Int.{ℤ, eqz}
use blehostd.Proto.Numbers

-- The handlers of requests, of type `bhd_req_run_fn`.
pub data ReqRun : Type 0 where
  sync_run connect_run terminate_run disc_all_svcs_run disc_svc_uuid_run disc_all_chrs_run
        disc_chr_uuid_run disc_all_dscs_run write_run write_cmd_run exchange_mtu_run
        gen_rand_addr_run set_rand_addr_run conn_cancel_run scan_run scan_cancel_run
        set_preferred_mtu_run security_initiate_run conn_find_run reset_run adv_start_run
        adv_stop_run adv_set_data_run adv_rsp_set_data_run adv_fields_run clear_svcs_run
        add_svcs_run commit_svcs_run access_status_run notify_run find_chr_run sm_inject_io_run :
      ReqRun

-- The encoders of responses, of type `bhd_subrsp_enc_fn`.
pub data SubrspEnc : Type 0 where
  err_rsp_enc sync_rsp_enc connect_rsp_enc terminate_rsp_enc disc_all_svcs_rsp_enc
        disc_svc_uuid_rsp_enc disc_all_chrs_rsp_enc disc_chr_uuid_rsp_enc disc_all_dscs_rsp_enc
        write_rsp_enc exchange_mtu_rsp_enc gen_rand_addr_rsp_enc set_rand_addr_rsp_enc
        conn_cancel_rsp_enc scan_rsp_enc scan_cancel_rsp_enc set_preferred_mtu_rsp_enc
        security_initiate_rsp_enc conn_find_rsp_enc reset_rsp_enc adv_start_rsp_enc adv_stop_rsp_enc
        adv_set_data_rsp_enc adv_rsp_set_data_rsp_enc adv_fields_rsp_enc add_svcs_rsp_enc
        clear_svcs_rsp_enc commit_svcs_rsp_enc access_status_rsp_enc notify_rsp_enc find_chr_rsp_enc
        sm_inject_io_rsp_enc :
      SubrspEnc

-- The encoders of events, of type `bhd_evt_enc_fn`.
pub data EvtEnc : Type 0 where
  sync_evt_enc connect_evt_enc disconnect_evt_enc disc_svc_evt_enc disc_chr_evt_enc disc_dsc_evt_enc
        write_ack_evt_enc notify_rx_evt_enc mtu_change_evt_enc scan_evt_enc scan_tmo_evt_enc
        adv_complete_evt_enc enc_change_evt_enc reset_evt_enc access_evt_enc passkey_evt_enc :
      EvtEnc

abbrev pub req_dispatch : List (ℤ × ReqRun)
req_dispatch =
    (Numbers.type_sync, sync_run)
    ∷ (Numbers.type_connect, connect_run)
    ∷ (Numbers.type_terminate, terminate_run)
    ∷ (Numbers.type_disc_all_svcs, disc_all_svcs_run)
    ∷ (Numbers.type_disc_svc_uuid, disc_svc_uuid_run)
    ∷ (Numbers.type_disc_all_chrs, disc_all_chrs_run)
    ∷ (Numbers.type_disc_chr_uuid, disc_chr_uuid_run)
    ∷ (Numbers.type_disc_all_dscs, disc_all_dscs_run)
    ∷ (Numbers.type_write, write_run)
    ∷ (Numbers.type_write_cmd, write_cmd_run)
    ∷ (Numbers.type_exchange_mtu, exchange_mtu_run)
    ∷ (Numbers.type_gen_rand_addr, gen_rand_addr_run)
    ∷ (Numbers.type_set_rand_addr, set_rand_addr_run)
    ∷ (Numbers.type_conn_cancel, conn_cancel_run)
    ∷ (Numbers.type_scan, scan_run)
    ∷ (Numbers.type_scan_cancel, scan_cancel_run)
    ∷ (Numbers.type_set_preferred_mtu, set_preferred_mtu_run)
    ∷ (Numbers.type_enc_initiate, security_initiate_run)
    ∷ (Numbers.type_conn_find, conn_find_run)
    ∷ (Numbers.type_reset, reset_run)
    ∷ (Numbers.type_adv_start, adv_start_run)
    ∷ (Numbers.type_adv_stop, adv_stop_run)
    ∷ (Numbers.type_adv_set_data, adv_set_data_run)
    ∷ (Numbers.type_adv_rsp_set_data, adv_rsp_set_data_run)
    ∷ (Numbers.type_adv_fields, adv_fields_run)
    ∷ (Numbers.type_clear_svcs, clear_svcs_run)
    ∷ (Numbers.type_add_svcs, add_svcs_run)
    ∷ (Numbers.type_commit_svcs, commit_svcs_run)
    ∷ (Numbers.type_access_status, access_status_run)
    ∷ (Numbers.type_notify, notify_run)
    ∷ (Numbers.type_find_chr, find_chr_run)
    ∷ (Numbers.type_sm_inject_io, sm_inject_io_run)
    ∷ []

abbrev pub rsp_dispatch : List (ℤ × SubrspEnc)
rsp_dispatch =
    (Numbers.type_err, err_rsp_enc)
    ∷ (Numbers.type_sync, sync_rsp_enc)
    ∷ (Numbers.type_connect, connect_rsp_enc)
    ∷ (Numbers.type_terminate, terminate_rsp_enc)
    ∷ (Numbers.type_disc_all_svcs, disc_all_svcs_rsp_enc)
    ∷ (Numbers.type_disc_svc_uuid, disc_svc_uuid_rsp_enc)
    ∷ (Numbers.type_disc_all_chrs, disc_all_chrs_rsp_enc)
    ∷ (Numbers.type_disc_chr_uuid, disc_chr_uuid_rsp_enc)
    ∷ (Numbers.type_disc_all_dscs, disc_all_dscs_rsp_enc)
    ∷ (Numbers.type_write, write_rsp_enc)
    ∷ (Numbers.type_write_cmd, write_rsp_enc)
    ∷ (Numbers.type_exchange_mtu, exchange_mtu_rsp_enc)
    ∷ (Numbers.type_gen_rand_addr, gen_rand_addr_rsp_enc)
    ∷ (Numbers.type_set_rand_addr, set_rand_addr_rsp_enc)
    ∷ (Numbers.type_conn_cancel, conn_cancel_rsp_enc)
    ∷ (Numbers.type_scan, scan_rsp_enc)
    ∷ (Numbers.type_scan_cancel, scan_cancel_rsp_enc)
    ∷ (Numbers.type_set_preferred_mtu, set_preferred_mtu_rsp_enc)
    ∷ (Numbers.type_enc_initiate, security_initiate_rsp_enc)
    ∷ (Numbers.type_conn_find, conn_find_rsp_enc)
    ∷ (Numbers.type_reset, reset_rsp_enc)
    ∷ (Numbers.type_adv_start, adv_start_rsp_enc)
    ∷ (Numbers.type_adv_stop, adv_stop_rsp_enc)
    ∷ (Numbers.type_adv_set_data, adv_set_data_rsp_enc)
    ∷ (Numbers.type_adv_rsp_set_data, adv_rsp_set_data_rsp_enc)
    ∷ (Numbers.type_adv_fields, adv_fields_rsp_enc)
    ∷ (Numbers.type_add_svcs, add_svcs_rsp_enc)
    ∷ (Numbers.type_clear_svcs, clear_svcs_rsp_enc)
    ∷ (Numbers.type_commit_svcs, commit_svcs_rsp_enc)
    ∷ (Numbers.type_access_status, access_status_rsp_enc)
    ∷ (Numbers.type_notify, notify_rsp_enc)
    ∷ (Numbers.type_find_chr, find_chr_rsp_enc)
    ∷ (Numbers.type_sm_inject_io, sm_inject_io_rsp_enc)
    ∷ []

abbrev pub evt_dispatch : List (ℤ × EvtEnc)
evt_dispatch =
    (Numbers.type_sync_evt, sync_evt_enc)
    ∷ (Numbers.type_connect_evt, connect_evt_enc)
    ∷ (Numbers.type_disconnect_evt, disconnect_evt_enc)
    ∷ (Numbers.type_disc_svc_evt, disc_svc_evt_enc)
    ∷ (Numbers.type_disc_chr_evt, disc_chr_evt_enc)
    ∷ (Numbers.type_disc_dsc_evt, disc_dsc_evt_enc)
    ∷ (Numbers.type_write_ack_evt, write_ack_evt_enc)
    ∷ (Numbers.type_notify_rx_evt, notify_rx_evt_enc)
    ∷ (Numbers.type_mtu_change_evt, mtu_change_evt_enc)
    ∷ (Numbers.type_scan_evt, scan_evt_enc)
    ∷ (Numbers.type_scan_tmo_evt, scan_tmo_evt_enc)
    ∷ (Numbers.type_adv_complete_evt, adv_complete_evt_enc)
    ∷ (Numbers.type_enc_change_evt, enc_change_evt_enc)
    ∷ (Numbers.type_reset_evt, reset_evt_enc)
    ∷ (Numbers.type_access_evt, access_evt_enc)
    ∷ (Numbers.type_passkey_evt, passkey_evt_enc)
    ∷ []

unfoldable pub dispatch_find : {A : Type 0} → List (ℤ × A) → ℤ → Option A
dispatch_find [] type = none
dispatch_find ((entry_type, cb) ∷ entries) type =
    if eqz entry_type type then some cb else dispatch_find entries type

unfoldable pub req_dispatch_find : ℤ → Option ReqRun
unfolding dispatch_find
req_dispatch_find req_type = dispatch_find req_dispatch req_type

-- `none` is the failed `assert(0)`, here and for events.
unfoldable pub rsp_dispatch_find : ℤ → Option SubrspEnc
unfolding dispatch_find
rsp_dispatch_find rsp_type = dispatch_find rsp_dispatch rsp_type

unfoldable pub evt_dispatch_find : ℤ → Option EvtEnc
unfolding dispatch_find
evt_dispatch_find evt_type = dispatch_find evt_dispatch evt_type
