-- ===== src/Enc/Evt/Types.antt =====
-- The events of apps/blehostd/src/bhd_proto.h.
use blehostd.Prelude.{ℕ, Bytes}
use blehostd.Prelude.Int.{ℤ}
use blehostd.Uuid.{Uuid}
use blehostd.Enc.{BleAddr}
use blehostd.Enc.Evt.Scan.{ScanEvt}

-- The fields of `struct ble_gap_conn_desc` of the host that are encoded.
pub record ConnDesc : Type 0 where
  pub conn_handle : ℕ
  pub our_id_addr : BleAddr
  pub our_ota_addr : BleAddr
  pub peer_id_addr : BleAddr
  pub peer_ota_addr : BleAddr

-- `struct bhd_disc_svc_evt`, with the fields of its service
pub record DiscSvcEvt : Type 0 where
  pub conn_handle : ℕ
  pub status : ℤ
  pub start_handle : ℕ
  pub end_handle : ℕ
  pub uuid : Uuid

-- `struct bhd_disc_chr_evt`, with the fields of its characteristic
pub record DiscChrEvt : Type 0 where
  pub conn_handle : ℕ
  pub status : ℤ
  pub def_handle : ℕ
  pub val_handle : ℕ
  pub properties : ℕ
  pub uuid : Uuid

-- `struct bhd_disc_dsc_evt`, with the fields of its descriptor
pub record DiscDscEvt : Type 0 where
  pub conn_handle : ℕ
  pub status : ℤ
  pub chr_def_handle : ℕ
  pub handle : ℕ
  pub uuid : Uuid

-- `struct bhd_notify_rx_evt`; `bytes` is `data`, of `data_len` bytes
pub record NotifyRxEvt : Type 0 where
  pub conn_handle : ℕ
  pub attr_handle : ℕ
  pub indication : ℕ
  pub bytes : Bytes

-- `struct bhd_access_evt`
pub record AccessEvt : Type 0 where
  pub access_op : ℕ
  pub conn_handle : ℕ
  pub att_handle : ℕ
  pub bytes : Bytes

-- The union of `struct bhd_evt`; the arguments are the fields of each member.
pub data EvtBody : Type 0 where
  sync_evt : ℤ → EvtBody
  -- status, conn_handle
  connect_evt : ℤ → ℕ → EvtBody
  -- desc, reason
  disconnect_evt : ConnDesc → ℤ → EvtBody
  disc_svc_evt : DiscSvcEvt → EvtBody
  disc_chr_evt : DiscChrEvt → EvtBody
  disc_dsc_evt : DiscDscEvt → EvtBody
  -- conn_handle, attr_handle, status
  write_ack_evt : ℕ → ℕ → ℤ → EvtBody
  notify_rx_evt : NotifyRxEvt → EvtBody
  -- conn_handle, mtu, status
  mtu_change_evt : ℕ → ℕ → ℤ → EvtBody
  scan_evt : ScanEvt → EvtBody
  -- conn_handle, status
  enc_change_evt : ℕ → ℤ → EvtBody
  reset_evt : ℤ → EvtBody
  access_evt : AccessEvt → EvtBody
  adv_complete_evt : ℤ → EvtBody
  -- conn_handle, action, numcmp
  passkey_evt : ℕ → ℕ → ℕ → EvtBody
