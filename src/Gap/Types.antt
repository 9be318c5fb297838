-- ===== src/Gap/Types.antt =====
-- What the host reports to bhd_gap_event of apps/blehostd/src/bhd_gap.c.
use blehostd.Prelude.{ℕ, Option, List, Bytes}
use blehostd.Prelude.Int.{ℤ}
use blehostd.Enc.{BleAddr}
use blehostd.Enc.Evt.{ConnDesc}

-- `struct ble_gap_disc_desc` of the host; `bytes` is `data`, of `length_data` bytes.
pub record DiscDesc : Type 0 where
  pub event_type : ℕ
  pub bytes : Bytes
  pub addr : BleAddr
  pub rssi : ℤ
  pub direct_addr : BleAddr

-- `struct ble_hs_adv_fields` of the host: a pointer that is NULL is `none`, another one the bytes that stand
-- there, and its length is a field of its own. An array is a list, with the count beside it.
pub record AdvFields : Type 0 where
  pub flags : ℕ
  pub uuids16 : List ℕ
  pub num_uuids16 : ℕ
  pub uuids16_is_complete : ℕ
  pub uuids32 : List ℕ
  pub num_uuids32 : ℕ
  pub uuids32_is_complete : ℕ
  pub uuids128 : List Bytes
  pub num_uuids128 : ℕ
  pub uuids128_is_complete : ℕ
  pub name : Option Bytes
  pub name_len : ℕ
  pub name_is_complete : ℕ
  pub tx_pwr_lvl : ℤ
  pub tx_pwr_lvl_is_present : ℕ
  pub slave_itvl_range : Option Bytes
  pub svc_data_uuid16 : Option Bytes
  pub svc_data_uuid16_len : ℕ
  pub public_tgt_addrs : List Bytes
  pub num_public_tgt_addrs : ℕ
  pub appearance : ℕ
  pub appearance_is_present : ℕ
  pub adv_itvl : ℕ
  pub adv_itvl_is_present : ℕ
  pub svc_data_uuid32 : Option Bytes
  pub svc_data_uuid32_len : ℕ
  pub svc_data_uuid128 : Option Bytes
  pub svc_data_uuid128_len : ℕ
  pub uri : Option Bytes
  pub uri_len : ℕ
  pub mfg_data : Option Bytes
  pub mfg_data_len : ℕ

-- `struct ble_gap_event` of the host, by its type.
pub data GapEvent (Mbuf : Type 0) : Type 0 where
  disc : DiscDesc → GapEvent Mbuf
  disc_complete : GapEvent Mbuf
  -- status, conn_handle
  connect : ℤ → ℕ → GapEvent Mbuf
  -- reason, conn
  disconnect : ℤ → ConnDesc → GapEvent Mbuf
  -- channel_id, conn_handle, value
  mtu : ℕ → ℕ → ℕ → GapEvent Mbuf
  -- conn_handle, attr_handle, indication, om
  notify_rx : ℕ → ℕ → ℕ → Mbuf → GapEvent Mbuf
  adv_complete : GapEvent Mbuf
  -- status, conn_handle
  enc_change : ℤ → ℕ → GapEvent Mbuf
  -- conn_handle, action, numcmp
  passkey_action : ℕ → ℕ → ℕ → GapEvent Mbuf
  repeat_pairing : ℕ → GapEvent Mbuf
  other_event : GapEvent Mbuf

-- The functions and constants of the host. A copy or a search that fails is `none`; `mbuf_to_flat` has the
-- size of the buffer first. `adv_parse_fields` is ble_hs_adv_parse_fields, `adv_max_sz` BLE_HS_ADV_MAX_SZ and
-- `adv_max_field_sz` BLE_HS_ADV_MAX_FIELD_SZ; `get_be16` of Mynewt has the block and the offset.
pub record GapHost : Type 1 where
  pub Mbuf : Type 0
  pub mbuf_to_flat : ℕ → Mbuf → Option Bytes
  pub adv_parse_fields : Bytes → Option AdvFields
  pub conn_find : ℕ → Option BleAddr
  pub get_be16 : Bytes → ℕ → ℕ
  pub adv_max_sz : ℕ
  pub adv_max_field_sz : ℕ
  pub cid_att : ℕ
  pub repeat_pairing_retry : ℤ
