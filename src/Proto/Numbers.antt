-- ===== src/Proto/Numbers.antt =====
-- The numbers of the protocol, apps/blehostd/src/bhd_proto.h: operations, message types and the
-- bounds of sequence numbers.
use blehostd.Prelude.{ℕ}
use blehostd.Prelude.Int.{ℤ, pos}

abbrev pub op_req : ℤ
op_req = pos 1

abbrev pub op_rsp : ℤ
op_rsp = pos 2

abbrev pub op_evt : ℤ
op_evt = pos 3

abbrev pub type_err : ℤ
type_err = pos 1

abbrev pub type_sync : ℤ
type_sync = pos 2

abbrev pub type_connect : ℤ
type_connect = pos 3

abbrev pub type_terminate : ℤ
type_terminate = pos 4

abbrev pub type_disc_all_svcs : ℤ
type_disc_all_svcs = pos 5

abbrev pub type_disc_svc_uuid : ℤ
type_disc_svc_uuid = pos 6

abbrev pub type_disc_all_chrs : ℤ
type_disc_all_chrs = pos 7

abbrev pub type_disc_chr_uuid : ℤ
type_disc_chr_uuid = pos 8

abbrev pub type_disc_all_dscs : ℤ
type_disc_all_dscs = pos 9

abbrev pub type_write : ℤ
type_write = pos 10

abbrev pub type_write_cmd : ℤ
type_write_cmd = pos 11

abbrev pub type_exchange_mtu : ℤ
type_exchange_mtu = pos 12

abbrev pub type_gen_rand_addr : ℤ
type_gen_rand_addr = pos 13

abbrev pub type_set_rand_addr : ℤ
type_set_rand_addr = pos 14

abbrev pub type_conn_cancel : ℤ
type_conn_cancel = pos 15

abbrev pub type_scan : ℤ
type_scan = pos 16

abbrev pub type_scan_cancel : ℤ
type_scan_cancel = pos 17

abbrev pub type_set_preferred_mtu : ℤ
type_set_preferred_mtu = pos 18

abbrev pub type_enc_initiate : ℤ
type_enc_initiate = pos 19

abbrev pub type_conn_find : ℤ
type_conn_find = pos 20

abbrev pub type_reset : ℤ
type_reset = pos 21

abbrev pub type_adv_start : ℤ
type_adv_start = pos 22

abbrev pub type_adv_stop : ℤ
type_adv_stop = pos 23

abbrev pub type_adv_set_data : ℤ
type_adv_set_data = pos 24

abbrev pub type_adv_rsp_set_data : ℤ
type_adv_rsp_set_data = pos 25

abbrev pub type_adv_fields : ℤ
type_adv_fields = pos 26

abbrev pub type_clear_svcs : ℤ
type_clear_svcs = pos 27

abbrev pub type_add_svcs : ℤ
type_add_svcs = pos 28

abbrev pub type_commit_svcs : ℤ
type_commit_svcs = pos 29

abbrev pub type_access_status : ℤ
type_access_status = pos 30

abbrev pub type_notify : ℤ
type_notify = pos 31

abbrev pub type_find_chr : ℤ
type_find_chr = pos 32

abbrev pub type_sm_inject_io : ℤ
type_sm_inject_io = pos 33

abbrev pub type_sync_evt : ℤ
type_sync_evt = pos 2049

abbrev pub type_connect_evt : ℤ
type_connect_evt = pos 2050

abbrev pub type_disconnect_evt : ℤ
type_disconnect_evt = pos 2052

abbrev pub type_disc_svc_evt : ℤ
type_disc_svc_evt = pos 2053

abbrev pub type_disc_chr_evt : ℤ
type_disc_chr_evt = pos 2054

abbrev pub type_disc_dsc_evt : ℤ
type_disc_dsc_evt = pos 2055

abbrev pub type_write_ack_evt : ℤ
type_write_ack_evt = pos 2056

abbrev pub type_notify_rx_evt : ℤ
type_notify_rx_evt = pos 2057

abbrev pub type_mtu_change_evt : ℤ
type_mtu_change_evt = pos 2058

abbrev pub type_scan_evt : ℤ
type_scan_evt = pos 2059

abbrev pub type_scan_tmo_evt : ℤ
type_scan_tmo_evt = pos 2060

abbrev pub type_adv_complete_evt : ℤ
type_adv_complete_evt = pos 2061

abbrev pub type_enc_change_evt : ℤ
type_enc_change_evt = pos 2062

abbrev pub type_reset_evt : ℤ
type_reset_evt = pos 2063

abbrev pub type_access_evt : ℤ
type_access_evt = pos 2064

abbrev pub type_passkey_evt : ℤ
type_passkey_evt = pos 2065

abbrev pub addr_type_none : ℕ
addr_type_none = 255

abbrev pub seq_evt_min : ℕ
seq_evt_min = 0xffffff00

abbrev pub seq_max : ℕ
seq_max = 0xfffffff0
