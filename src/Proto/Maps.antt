-- ===== src/Proto/Maps.antt =====
-- The maps of apps/blehostd/src/bhd_util.c and the `*_parse` and `*_rev_parse` functions over them.
use blehostd.Prelude.{Option, List, [], ◌∷◌, Bytes, codes}
use blehostd.Prelude.Int.{ℤ}
use blehostd.KvMap.{KvStrInt, find, rev_find}
use blehostd.Proto.Numbers.{
  op_req, op_rsp, op_evt, type_err, type_sync, type_connect, type_terminate, type_disc_all_svcs,
  type_disc_svc_uuid, type_disc_all_chrs, type_disc_chr_uuid, type_disc_all_dscs, type_write,
  type_write_cmd, type_exchange_mtu, type_gen_rand_addr, type_set_rand_addr, type_conn_cancel,
  type_scan, type_scan_cancel, type_set_preferred_mtu, type_enc_initiate, type_conn_find,
  type_reset, type_adv_start, type_adv_stop, type_adv_set_data, type_adv_rsp_set_data,
  type_adv_fields, type_clear_svcs, type_add_svcs, type_commit_svcs, type_access_status,
  type_notify, type_find_chr, type_sm_inject_io, type_sync_evt, type_connect_evt,
  type_disconnect_evt, type_disc_svc_evt, type_disc_chr_evt, type_disc_dsc_evt, type_write_ack_evt,
  type_notify_rx_evt, type_mtu_change_evt, type_scan_evt, type_scan_tmo_evt, type_enc_change_evt,
  type_reset_evt, type_access_evt, type_adv_complete_evt, type_passkey_evt,
}

-- The macros of the host's headers that the maps name. Their numbers are not in the repository.
pub record HostConsts : Type 0 where
  pub addr_public : ℤ
  pub addr_random : ℤ
  pub addr_public_id : ℤ
  pub addr_random_id : ℤ
  pub scan_filt_no_wl : ℤ
  pub scan_filt_use_wl : ℤ
  pub scan_filt_no_wl_inita : ℤ
  pub scan_filt_use_wl_inita : ℤ
  pub adv_type_adv_ind : ℤ
  pub adv_type_adv_direct_ind_hd : ℤ
  pub adv_type_adv_scan_ind : ℤ
  pub adv_type_adv_nonconn_ind : ℤ
  pub adv_type_adv_direct_ind_ld : ℤ
  pub conn_mode_non : ℤ
  pub conn_mode_dir : ℤ
  pub conn_mode_und : ℤ
  pub disc_mode_non : ℤ
  pub disc_mode_ltd : ℤ
  pub disc_mode_gen : ℤ
  pub adv_filt_none : ℤ
  pub adv_filt_scan : ℤ
  pub adv_filt_conn : ℤ
  pub adv_filt_both : ℤ
  pub svc_type_primary : ℤ
  pub svc_type_secondary : ℤ
  pub access_op_read_chr : ℤ
  pub access_op_write_chr : ℤ
  pub access_op_read_dsc : ℤ
  pub access_op_write_dsc : ℤ
  pub sm_ioact_oob : ℤ
  pub sm_ioact_input : ℤ
  pub sm_ioact_disp : ℤ
  pub sm_ioact_numcmp : ℤ

abbrev pub op_map : List KvStrInt
op_map = (codes "request", op_req) ∷ (codes "response", op_rsp) ∷ (codes "event", op_evt) ∷ []

abbrev pub type_map : List KvStrInt
type_map =
    (codes "error", type_err)
    ∷ (codes "sync", type_sync)
    ∷ (codes "connect", type_connect)
    ∷ (codes "terminate", type_terminate)
    ∷ (codes "disc_all_svcs", type_disc_all_svcs)
    ∷ (codes "disc_svc_uuid", type_disc_svc_uuid)
    ∷ (codes "disc_all_chrs", type_disc_all_chrs)
    ∷ (codes "disc_chr_uuid", type_disc_chr_uuid)
    ∷ (codes "disc_all_dscs", type_disc_all_dscs)
    ∷ (codes "write", type_write)
    ∷ (codes "write_cmd", type_write_cmd)
    ∷ (codes "exchange_mtu", type_exchange_mtu)
    ∷ (codes "gen_rand_addr", type_gen_rand_addr)
    ∷ (codes "set_rand_addr", type_set_rand_addr)
    ∷ (codes "conn_cancel", type_conn_cancel)
    ∷ (codes "scan", type_scan)
    ∷ (codes "scan_cancel", type_scan_cancel)
    ∷ (codes "set_preferred_mtu", type_set_preferred_mtu)
    ∷ (codes "security_initiate", type_enc_initiate)
    ∷ (codes "conn_find", type_conn_find)
    ∷ (codes "reset", type_reset)
    ∷ (codes "adv_start", type_adv_start)
    ∷ (codes "adv_stop", type_adv_stop)
    ∷ (codes "adv_set_data", type_adv_set_data)
    ∷ (codes "adv_rsp_set_data", type_adv_rsp_set_data)
    ∷ (codes "adv_fields", type_adv_fields)
    ∷ (codes "clear_svcs", type_clear_svcs)
    ∷ (codes "add_svcs", type_add_svcs)
    ∷ (codes "commit_svcs", type_commit_svcs)
    ∷ (codes "access_status", type_access_status)
    ∷ (codes "notify", type_notify)
    ∷ (codes "find_chr", type_find_chr)
    ∷ (codes "sm_inject_io", type_sm_inject_io)
    ∷ (codes "sync_evt", type_sync_evt)
    ∷ (codes "connect_evt", type_connect_evt)
    ∷ (codes "disconnect_evt", type_disconnect_evt)
    ∷ (codes "disc_svc_evt", type_disc_svc_evt)
    ∷ (codes "disc_chr_evt", type_disc_chr_evt)
    ∷ (codes "disc_dsc_evt", type_disc_dsc_evt)
    ∷ (codes "write_ack_evt", type_write_ack_evt)
    ∷ (codes "notify_rx_evt", type_notify_rx_evt)
    ∷ (codes "mtu_change_evt", type_mtu_change_evt)
    ∷ (codes "scan_evt", type_scan_evt)
    ∷ (codes "scan_tmo_evt", type_scan_tmo_evt)
    ∷ (codes "enc_change_evt", type_enc_change_evt)
    ∷ (codes "reset_evt", type_reset_evt)
    ∷ (codes "access_evt", type_access_evt)
    ∷ (codes "adv_complete_evt", type_adv_complete_evt)
    ∷ (codes "passkey_evt", type_passkey_evt)
    ∷ []

abbrev pub addr_type_map : HostConsts → List KvStrInt
addr_type_map c =
    (codes "public", c.addr_public)
    ∷ (codes "random", c.addr_random)
    ∷ (codes "rpa_pub", c.addr_public_id)
    ∷ (codes "rpa_rnd", c.addr_random_id)
    ∷ []

abbrev pub scan_filter_policy_map : HostConsts → List KvStrInt
scan_filter_policy_map c =
    (codes "no_wl", c.scan_filt_no_wl)
    ∷ (codes "use_wl", c.scan_filt_use_wl)
    ∷ (codes "no_wl_inita", c.scan_filt_no_wl_inita)
    ∷ (codes "use_wl_inita", c.scan_filt_use_wl_inita)
    ∷ []

abbrev pub adv_event_type_map : HostConsts → List KvStrInt
adv_event_type_map c =
    (codes "ind", c.adv_type_adv_ind)
    ∷ (codes "direct_ind_hd", c.adv_type_adv_direct_ind_hd)
    ∷ (codes "scan_ind", c.adv_type_adv_scan_ind)
    ∷ (codes "nonconn_ind", c.adv_type_adv_nonconn_ind)
    ∷ (codes "direct_ind_ld", c.adv_type_adv_direct_ind_ld)
    ∷ []

abbrev pub adv_conn_mode_map : HostConsts → List KvStrInt
adv_conn_mode_map c =
    (codes "non", c.conn_mode_non)
    ∷ (codes "dir", c.conn_mode_dir)
    ∷ (codes "und", c.conn_mode_und)
    ∷ []

abbrev pub adv_disc_mode_map : HostConsts → List KvStrInt
adv_disc_mode_map c =
    (codes "non", c.disc_mode_non)
    ∷ (codes "ltd", c.disc_mode_ltd)
    ∷ (codes "gen", c.disc_mode_gen)
    ∷ []

abbrev pub adv_filter_policy_map : HostConsts → List KvStrInt
adv_filter_policy_map c =
    (codes "none", c.adv_filt_none)
    ∷ (codes "scan", c.adv_filt_scan)
    ∷ (codes "conn", c.adv_filt_conn)
    ∷ (codes "both", c.adv_filt_both)
    ∷ []

abbrev pub svc_type_map : HostConsts → List KvStrInt
svc_type_map c =
    (codes "primary", c.svc_type_primary) ∷ (codes "secondary", c.svc_type_secondary) ∷ []

abbrev pub gatt_access_op_map : HostConsts → List KvStrInt
gatt_access_op_map c =
    (codes "read_chr", c.access_op_read_chr)
    ∷ (codes "write_chr", c.access_op_write_chr)
    ∷ (codes "read_dsc", c.access_op_read_dsc)
    ∷ (codes "write_dsc", c.access_op_write_dsc)
    ∷ []

abbrev pub sm_passkey_action_map : HostConsts → List KvStrInt
sm_passkey_action_map c =
    (codes "oob", c.sm_ioact_oob)
    ∷ (codes "input", c.sm_ioact_input)
    ∷ (codes "disp", c.sm_ioact_disp)
    ∷ (codes "numcmp", c.sm_ioact_numcmp)
    ∷ []

unfoldable pub op_parse : Bytes → ℤ
unfolding find
op_parse str = find op_map str

unfoldable pub op_rev_parse : ℤ → Option Bytes
unfolding rev_find
op_rev_parse val = rev_find op_map val

unfoldable pub type_parse : Bytes → ℤ
unfolding find
type_parse str = find type_map str

unfoldable pub type_rev_parse : ℤ → Option Bytes
unfolding rev_find
type_rev_parse val = rev_find type_map val

unfoldable pub addr_type_parse : HostConsts → Bytes → ℤ
unfolding find
addr_type_parse c str = find (addr_type_map c) str

unfoldable pub addr_type_rev_parse : HostConsts → ℤ → Option Bytes
unfolding rev_find
addr_type_rev_parse c val = rev_find (addr_type_map c) val

unfoldable pub scan_filter_policy_parse : HostConsts → Bytes → ℤ
unfolding find
scan_filter_policy_parse c str = find (scan_filter_policy_map c) str

unfoldable pub scan_filter_policy_rev_parse : HostConsts → ℤ → Option Bytes
unfolding rev_find
scan_filter_policy_rev_parse c val = rev_find (scan_filter_policy_map c) val

unfoldable pub adv_event_type_parse : HostConsts → Bytes → ℤ
unfolding find
adv_event_type_parse c str = find (adv_event_type_map c) str

unfoldable pub adv_event_type_rev_parse : HostConsts → ℤ → Option Bytes
unfolding rev_find
adv_event_type_rev_parse c val = rev_find (adv_event_type_map c) val

unfoldable pub adv_conn_mode_parse : HostConsts → Bytes → ℤ
unfolding find
adv_conn_mode_parse c str = find (adv_conn_mode_map c) str

unfoldable pub adv_conn_mode_rev_parse : HostConsts → ℤ → Option Bytes
unfolding rev_find
adv_conn_mode_rev_parse c val = rev_find (adv_conn_mode_map c) val

unfoldable pub adv_disc_mode_parse : HostConsts → Bytes → ℤ
unfolding find
adv_disc_mode_parse c str = find (adv_disc_mode_map c) str

unfoldable pub adv_disc_mode_rev_parse : HostConsts → ℤ → Option Bytes
unfolding rev_find
adv_disc_mode_rev_parse c val = rev_find (adv_disc_mode_map c) val

unfoldable pub adv_filter_policy_parse : HostConsts → Bytes → ℤ
unfolding find
adv_filter_policy_parse c str = find (adv_filter_policy_map c) str

unfoldable pub adv_filter_policy_rev_parse : HostConsts → ℤ → Option Bytes
unfolding rev_find
adv_filter_policy_rev_parse c val = rev_find (adv_filter_policy_map c) val

unfoldable pub svc_type_parse : HostConsts → Bytes → ℤ
unfolding find
svc_type_parse c str = find (svc_type_map c) str

unfoldable pub svc_type_rev_parse : HostConsts → ℤ → Option Bytes
unfolding rev_find
svc_type_rev_parse c val = rev_find (svc_type_map c) val

unfoldable pub gatt_access_op_parse : HostConsts → Bytes → ℤ
unfolding find
gatt_access_op_parse c str = find (gatt_access_op_map c) str

unfoldable pub gatt_access_op_rev_parse : HostConsts → ℤ → Option Bytes
unfolding rev_find
gatt_access_op_rev_parse c val = rev_find (gatt_access_op_map c) val

unfoldable pub sm_passkey_action_parse : HostConsts → Bytes → ℤ
unfolding find
sm_passkey_action_parse c str = find (sm_passkey_action_map c) str

unfoldable pub sm_passkey_action_rev_parse : HostConsts → ℤ → Option Bytes
unfolding rev_find
sm_passkey_action_rev_parse c val = rev_find (sm_passkey_action_map c) val
