-- ===== src/Gap.antt =====
-- The events of apps/blehostd/src/bhd_gap.c: bhd_gap_event turns what the host reports into the events of the
-- client. `sequence` is the state of bhd_next_evt_seq.
pub mod Types
pub mod Sent
pub mod Calls
pub mod Fields
unfoldable pub use Types.*
use blehostd.Prelude.{
  ◌/◌, Bool, true, not, ◌&&◌, ltb, take, length, ℕ, Option, none, some, List, [], ◌∷◌, map, Bytes,
  if◌then◌else◌, ◌==◌,
}
use blehostd.Prelude.Int.{ℤ, pos}
use blehostd.Status.{Error, sys_erange}
use blehostd.Seq.{next_evt_seq}
use blehostd.Proto.Numbers.{
  op_evt, type_connect_evt, type_disconnect_evt, type_notify_rx_evt, type_scan_evt,
  type_scan_tmo_evt, type_adv_complete_evt, type_enc_change_evt, type_passkey_evt,
}
use blehostd.Req.Run.{MsgHdr}
use blehostd.Enc.{BleAddr}
use blehostd.Enc.Evt.{
  ConnDesc, EvtBody, connect_evt, disconnect_evt, NotifyRxEvt, notify_rx_evt, scan_evt,
  adv_complete_evt, enc_change_evt, passkey_evt,
}
use blehostd.Enc.Evt.Scan.{ScanEvt}
use blehostd.Enc.Send.{Evt}
use blehostd.Gattc.{send_mtu_changed}

abbrev event_hdr : ℤ → ℕ → MsgHdr
event_hdr type seq = record { op = op_evt; type = type; seq = seq }

unfoldable pub send_connect_evt : ℤ → ℕ → ℕ → Evt
send_connect_evt status conn_handle seq = record {
  hdr = event_hdr type_connect_evt seq;
  body = connect_evt status conn_handle;
}

unfoldable pub send_disconnect_evt : ℤ → ConnDesc → ℕ → Evt
send_disconnect_evt reason desc seq = record {
  hdr = event_hdr type_disconnect_evt seq;
  body = disconnect_evt desc reason;
}

-- The event, and the state of the sequence numbers behind it.
unfoldable pub send_notify_rx_evt : ℕ → ℕ → ℕ → Bytes → ℕ → Evt × ℕ
unfolding next_evt_seq
send_notify_rx_evt conn_handle attr_handle indication attr_val sequence =
    let (seq, sequence') = next_evt_seq sequence in
    (
      record {
        hdr = event_hdr type_notify_rx_evt seq;
        body = notify_rx_evt (record {
          conn_handle = conn_handle;
          attr_handle = attr_handle;
          indication = indication;
          bytes = attr_val;
        });
      },
      sequence',
    )

-- A field of `len` bytes that is copied where the pointer is not NULL.
abbrev pub copied : Option Bytes → ℕ → Bytes
copied none len = []
copied (some bytes) len = take len bytes

-- The bounds of the range, and the flag.
abbrev pub range_at : (Bytes → ℕ → ℕ) → Option Bytes → ℕ × ℕ × ℕ
range_at get_be16 none = (0, 0, 0)
range_at get_be16 (some range) = (get_be16 range 0, get_be16 range 2, 1)

-- The event before the fields are parsed: what `memset` leaves in them is 0.
abbrev pub bare_scan : DiscDesc → ScanEvt
bare_scan desc = record {
  event_type = desc.event_type;
  addr = desc.addr;
  rssi = desc.rssi;
  bytes = desc.bytes;
  direct_addr = desc.direct_addr;
  data_flags = 0;
  data_uuids16 = [];
  data_uuids16_is_complete = 0;
  data_uuids32 = [];
  data_uuids32_is_complete = 0;
  data_uuids128 = [];
  data_uuids128_is_complete = 0;
  data_name = [];
  data_name_is_complete = 0;
  data_tx_pwr_lvl = pos 0;
  data_tx_pwr_lvl_is_present = 0;
  data_slave_itvl_min = 0;
  data_slave_itvl_max = 0;
  data_slave_itvl_range_is_present = 0;
  data_svc_data_uuid16 = [];
  data_public_tgt_addrs = [];
  data_appearance = 0;
  data_appearance_is_present = 0;
  data_adv_itvl = 0;
  data_adv_itvl_is_present = 0;
  data_svc_data_uuid32 = [];
  data_svc_data_uuid128 = [];
  data_uri = [];
  data_mfg_data = [];
}

-- The fields of the advertisement, copied to the event.
unfoldable pub copy_fields : (Bytes → ℕ → ℕ) → AdvFields → ScanEvt → ScanEvt
copy_fields get_be16 fields evt =
    let (min, max, has_range) = range_at get_be16 fields.slave_itvl_range in
    record evt {
      data_flags = fields.flags;
      data_uuids16 = take fields.num_uuids16 fields.uuids16;
      data_uuids16_is_complete = fields.uuids16_is_complete;
      data_uuids32 = take fields.num_uuids32 fields.uuids32;
      data_uuids32_is_complete = fields.uuids32_is_complete;
      data_uuids128 = take fields.num_uuids128 fields.uuids128;
      data_uuids128_is_complete = fields.uuids128_is_complete;
      data_name = copied fields.name fields.name_len;
      data_name_is_complete = elim fields.name [ none ↦ 0 | some _ ↦ fields.name_is_complete ];
      data_tx_pwr_lvl = fields.tx_pwr_lvl;
      data_tx_pwr_lvl_is_present = fields.tx_pwr_lvl_is_present;
      data_slave_itvl_min = min;
      data_slave_itvl_max = max;
      data_slave_itvl_range_is_present = has_range;
      data_svc_data_uuid16 = copied fields.svc_data_uuid16 fields.svc_data_uuid16_len;
      data_public_tgt_addrs = take fields.num_public_tgt_addrs fields.public_tgt_addrs;
      data_appearance = fields.appearance;
      data_appearance_is_present = fields.appearance_is_present;
      data_adv_itvl = fields.adv_itvl;
      data_adv_itvl_is_present = fields.adv_itvl_is_present;
      data_svc_data_uuid32 = copied fields.svc_data_uuid32 fields.svc_data_uuid32_len;
      data_svc_data_uuid128 = copied fields.svc_data_uuid128 fields.svc_data_uuid128_len;
      data_uri = copied fields.uri fields.uri_len;
      data_mfg_data = copied fields.mfg_data fields.mfg_data_len;
    }

-- A field that is copied, with the size of its array in the event.
abbrev fits_at : ℕ → Option Bytes → ℕ → Bool
fits_at size none len = true
fits_at size (some bytes) len = not (ltb size len)

-- Whether every copy stays in its array of `struct bhd_scan_evt`; the code does not test it.
unfoldable pub fits_event : ℕ → AdvFields → Bool
fits_event max_field_sz fields =
    not (ltb (max_field_sz / 2) fields.num_uuids16)
    && not (ltb (max_field_sz / 4) fields.num_uuids32)
    && not (ltb (max_field_sz / 16) fields.num_uuids128)
    && fits_at max_field_sz fields.name fields.name_len
    && fits_at max_field_sz fields.svc_data_uuid16 fields.svc_data_uuid16_len
    && not (ltb (max_field_sz / 6) fields.num_public_tgt_addrs)
    && fits_at max_field_sz fields.svc_data_uuid32 fields.svc_data_uuid32_len
    && fits_at max_field_sz fields.svc_data_uuid128 fields.svc_data_uuid128_len
    && fits_at max_field_sz fields.uri fields.uri_len
    && fits_at max_field_sz fields.mfg_data fields.mfg_data_len

-- The body stands for the union after `memset`, which no encoder of this type reads.
unfoldable pub send_scan_tmo_evt : ℕ → Evt
send_scan_tmo_evt seq = record {
  hdr = event_hdr type_scan_tmo_evt seq;
  body = adv_complete_evt (pos 0);
}

unfoldable pub send_adv_complete_evt : ℤ → ℕ → Evt
send_adv_complete_evt reason seq = record {
  hdr = event_hdr type_adv_complete_evt seq;
  body = adv_complete_evt reason;
}

unfoldable pub send_enc_change_evt : ℤ → ℕ → ℕ → Evt
send_enc_change_evt status conn_handle seq = record {
  hdr = event_hdr type_enc_change_evt seq;
  body = enc_change_evt conn_handle status;
}

unfoldable pub send_passkey_action_evt : ℕ → ℕ → ℕ → ℕ → Evt
send_passkey_action_evt conn_handle action numcmp seq = record {
  hdr = event_hdr type_passkey_evt seq;
  body = passkey_evt conn_handle action numcmp;
}

-- What bhd_gap_event does: it returns a number of the host or a code, with the event that it gave to
-- bhd_evt_send, if any; or it deletes the bond with a peer; or its assertion fails; or it writes behind an array.
pub data Handled : Type 0 where
  returned : Option Evt → Handled
  refused : Error → Handled
  bond_deleted : BleAddr → ℤ → Handled
  assert_failed : Handled
  overrun : Handled

abbrev pub scanned : ScanEvt → ℕ → Evt
scanned evt seq = record { hdr = event_hdr type_scan_evt seq; body = scan_evt evt }

module _ (host : GapHost) where
  open host use {
    Mbuf, mbuf_to_flat, adv_parse_fields, conn_find, get_be16, adv_max_sz, adv_max_field_sz,
    cid_att, repeat_pairing_retry,
  }

  -- `none` stands for a write behind an array of the event.
  unfoldable pub send_scan_evt : DiscDesc → ℕ → Option Evt
  unfolding copy_fields fits_event
  send_scan_evt desc seq =
      let bare = bare_scan desc in
      if ltb adv_max_sz (length desc.bytes) then none else elim (adv_parse_fields desc.bytes) [
        | none ↦ some (scanned bare seq)
        | some fields ↦
            if fits_event adv_max_field_sz fields
            then some (scanned (copy_fields get_be16 fields bare) seq)
            else none
      ]

  -- The result has the state of the sequence numbers; `buf_size` is BLE_ATT_ATTR_MAX_LEN.
  unfoldable pub gap_event : ℕ → GapEvent Mbuf → ℕ → ℕ → Handled × ℕ
  unfolding send_scan_evt send_scan_tmo_evt send_connect_evt send_disconnect_evt send_mtu_changed
      send_notify_rx_evt send_adv_complete_evt send_enc_change_evt send_passkey_action_evt
  gap_event buf_size (disc desc) seq sequence = elim (send_scan_evt desc seq) [
    | none ↦ (overrun, sequence)
    | some evt ↦ (returned (some evt), sequence)
  ]
  gap_event buf_size disc_complete seq sequence =
      (returned (some (send_scan_tmo_evt seq)), sequence)
  gap_event buf_size (connect status conn_handle) seq sequence =
      (returned (some (send_connect_evt status conn_handle seq)), sequence)
  gap_event buf_size (disconnect reason conn) seq sequence =
      (returned (some (send_disconnect_evt reason conn seq)), sequence)
  gap_event buf_size (mtu channel_id conn_handle value) seq sequence =
      if channel_id == cid_att
      then (returned (some (send_mtu_changed seq conn_handle (pos 0) value)), sequence)
      else (returned none, sequence)
  gap_event buf_size (notify_rx conn_handle attr_handle indication om) seq sequence =
      elim (mbuf_to_flat buf_size om) [
        | none ↦ (refused sys_erange, sequence)
        | some buf ↦
            let (evt, sequence') =
              send_notify_rx_evt conn_handle attr_handle indication buf sequence in
            (returned (some evt), sequence')
      ]
  gap_event buf_size adv_complete seq sequence =
      (returned (some (send_adv_complete_evt (pos 0) seq)), sequence)
  gap_event buf_size (enc_change status conn_handle) seq sequence =
      (returned (some (send_enc_change_evt status conn_handle seq)), sequence)
  gap_event buf_size (passkey_action conn_handle action numcmp) seq sequence =
      (returned (some (send_passkey_action_evt conn_handle action numcmp seq)), sequence)
  gap_event buf_size (repeat_pairing conn_handle) seq sequence = elim (conn_find conn_handle) [
    | none ↦ (assert_failed, sequence)
    | some peer_id_addr ↦ (bond_deleted peer_id_addr repeat_pairing_retry, sequence)
  ]
  gap_event buf_size other_event seq sequence = (returned none, sequence)
