-- ===== src/Req/Types.antt =====
-- The request structs of apps/blehostd/src/bhd_proto.h, and the calls that the handlers of bhd_proto.c
-- make with them.
use blehostd.Prelude.{ℕ, Bool, Option, List, Bytes}
use blehostd.Prelude.Int.{ℤ}
use blehostd.Uuid.{Uuid}
use blehostd.Svc.{Svc}

-- `ble_addr_t`
pub record Addr : Type 0 where
  pub type : ℕ
  pub val : Bytes

pub record ConnectReq : Type 0 where
  pub own_addr_type : ℤ
  pub peer_addr : Addr
  pub duration_ms : ℤ
  pub scan_itvl : ℕ
  pub scan_window : ℕ
  pub itvl_min : ℕ
  pub itvl_max : ℕ
  pub latency : ℕ
  pub supervision_timeout : ℕ
  pub min_ce_len : ℕ
  pub max_ce_len : ℕ

pub record TerminateReq : Type 0 where
  pub conn_handle : ℕ
  pub hci_reason : ℕ

pub record DiscSvcUuidReq : Type 0 where
  pub conn_handle : ℕ
  pub svc_uuid : Uuid

-- `bhd_disc_all_chrs_req` and `bhd_disc_all_dscs_req` have the same fields.
pub record DiscAllReq : Type 0 where
  pub conn_handle : ℕ
  pub start_attr_handle : ℕ
  pub end_attr_handle : ℕ

pub record DiscChrUuidReq : Type 0 where
  pub conn_handle : ℕ
  pub start_handle : ℕ
  pub end_handle : ℕ
  pub chr_uuid : Uuid

-- `bytes` stands for `data` and `data_len`; also `bhd_notify_req`.
pub record WriteReq : Type 0 where
  pub conn_handle : ℕ
  pub attr_handle : ℕ
  pub bytes : Bytes

pub record ScanReq : Type 0 where
  pub own_addr_type : ℕ
  pub duration_ms : ℤ
  pub itvl : ℕ
  pub window : ℕ
  pub filter_policy : ℕ
  pub limited : Bool
  pub passive : Bool
  pub filter_duplicates : Bool

pub record AdvStartReq : Type 0 where
  pub own_addr_type : ℕ
  pub peer_addr : Addr
  pub duration_ms : ℤ
  pub conn_mode : ℕ
  pub disc_mode : ℕ
  pub itvl_min : ℕ
  pub itvl_max : ℕ
  pub channel_map : ℕ
  pub filter_policy : ℕ
  pub high_duty_cycle : Bool

-- An array with its count is a list, and a field with its `is_present` flag is an Option. A `uuids128`
-- element is `none` where the copied bytes were never written. The 1-bit flags are numbers.
pub record AdvFieldsReq : Type 0 where
  pub flags : ℕ
  pub uuids16 : List ℕ
  pub uuids16_is_complete : ℕ
  pub uuids32 : List ℕ
  pub uuids32_is_complete : ℕ
  pub uuids128 : List (Option Bytes)
  pub uuids128_is_complete : ℕ
  pub name : Bytes
  pub name_is_complete : ℕ
  pub tx_pwr_lvl : Option ℤ
  pub slave_itvl_range : Option (ℕ × ℕ)
  pub svc_data_uuid16 : Bytes
  pub public_tgt_addrs : List Bytes
  pub appearance : Option ℕ
  pub adv_itvl : Option ℕ
  pub svc_data_uuid32 : Bytes
  pub svc_data_uuid128 : Bytes
  pub uri : Bytes
  pub mfg_data : Bytes

-- `bytes` is `none` where the pointer and the length are not initialised.
pub record AccessStatusReq : Type 0 where
  pub att_status : ℕ
  pub bytes : Option Bytes

pub record FindChrReq : Type 0 where
  pub svc_uuid : Uuid
  pub chr_uuid : Uuid

-- The member that the action selects.
pub data SmInput : Type 0 where
  oob_data : Bytes → SmInput
  passkey : ℕ → SmInput
  numcmp_accept : Bool → SmInput

pub record SmInjectIoReq : Type 0 where
  pub conn_handle : ℕ
  pub action : ℕ
  pub input : SmInput

-- The calls, by the name of the called function.
pub data Call : Type 0 where
  hs_synced gap_conn_cancel gap_scan_cancel hs_sched_reset gap_adv_stop gatts_clear_svcs
        gatts_commit_svcs :
      Call
  gap_connect : ConnectReq → Call
  gap_terminate : TerminateReq → Call
  gattc_disc_all_svcs : ℕ → Call
  gattc_disc_svc_uuid : DiscSvcUuidReq → Call
  gattc_disc_all_chrs : DiscAllReq → Call
  gattc_disc_chr_uuid : DiscChrUuidReq → Call
  gattc_disc_all_dscs : DiscAllReq → Call
  gattc_write : WriteReq → Call
  gattc_write_no_rsp : WriteReq → Call
  gattc_exchange_mtu : ℕ → Call
  id_gen_rand_addr : Bool → Call
  id_set_rand_addr : Bytes → Call
  gap_scan : ScanReq → Call
  gattc_set_preferred_mtu : ℕ → Call
  gap_security_initiate : ℕ → Call
  gap_conn_find : ℕ → Call
  gap_adv_start : AdvStartReq → Call
  gap_adv_set_data : Bytes → Call
  gap_adv_rsp_set_data : Bytes → Call
  gap_adv_fields : AdvFieldsReq → Call
  gatts_add_svcs : List Svc → Call
  gatts_access_status : AccessStatusReq → Call
  gattc_notify : WriteReq → Call
  gatts_find_chr : FindChrReq → Call
  sm_inject_io : SmInjectIoReq → Call
