-- ===== src/Enc/Evt/ScanKeep.antt =====
-- `bhd_scan_evt_enc` keeps the members of the object.
use blehostd.Prelude.{ℕ, ◌==◌, Option, List, String, Bytes}
use blehostd.Prelude.Int.{ℤ, pos}
use blehostd.Cjson.{Cjson}
use blehostd.Writer.{Writer, IsFaithful}
use blehostd.Proto.Maps.{HostConsts}
use blehostd.Enc.{
  HostText, add_gen_arr, add_addr_type, add_adv_event_type, create_addr, create_uuid128_bytes,
  fill_arr,
}
use blehostd.Enc.Evt.Scan.{
  ScanEvt, is_empty, add_some_bytes, add_some_text, add_present, add_uuids, scan_report, scan_uuids,
  scan_fields, scan_members,
}
use blehostd.Enc.Keep.{
  Extends, keep_item, keep_if, keep_int, keep_bool, keep_addr, keep_bytes, keep_string, keep_name,
}

module _ {J : Cjson} {W : Writer J} (faithful : IsFaithful W) (host : HostText)
    (c : HostConsts) where
  open J use {Item}

  abbrev ExtendsHere : Option Item → Option Item → Type 0
  ExtendsHere = Extends faithful host c

  keep_some_bytes :
      {p q : Option Item} (name : String) (bytes : Bytes)
      → ExtendsHere p q
      → ExtendsHere p (add_some_bytes W host c q name bytes)
  unfolding add_some_bytes
  keep_some_bytes name bytes k =
      keep_if faithful host c (is_empty bytes) k (keep_bytes faithful host c name bytes k)

  keep_some_text :
      {p q : Option Item} (name : String) (bytes : Bytes)
      → ExtendsHere p q
      → ExtendsHere p (add_some_text W host c q name bytes)
  unfolding add_some_text
  keep_some_text name bytes k =
      keep_if faithful host c (is_empty bytes) k (keep_string faithful host c name _ k)

  keep_present :
      {p q : Option Item} (is_present : ℕ) (name : String) (val : ℤ)
      → ExtendsHere p q
      → ExtendsHere p (add_present W host c q is_present name val)
  unfolding add_present
  keep_present is_present name val k =
      keep_if faithful host c (is_present == 0) k (keep_int faithful host c name val k)

  keep_uuids :
      {A : Type 0} {p q : Option Item} (name : String) (vals : List A) (create : A → Option Item)
      (flag : String) (is_complete : ℕ)
      → ExtendsHere p q
      → ExtendsHere p (add_uuids W host c q name vals create flag is_complete)
  unfolding add_uuids add_gen_arr
  keep_uuids name vals create flag is_complete k =
      keep_if faithful host c (is_empty vals) k
        (keep_bool faithful host c flag (pos is_complete) (keep_item faithful host c name _ k))

  scan_report-Extends :
      {p q : Option Item} (evt : ScanEvt)
      → ExtendsHere p q
      → ExtendsHere p (scan_report W host c q evt)
  unfolding scan_report add_adv_event_type add_addr_type
  scan_report-Extends evt k =
      let report = keep_some_bytes "data" evt.bytes (
        keep_int faithful host c "rssi" evt.rssi (
          keep_addr faithful host c "addr" evt.addr.val (
            keep_name faithful host c "addr_type" _
              (keep_name faithful host c "event_type" _ k)))) in
      keep_if faithful host c (host.is_addr_any evt.direct_addr) report (
        keep_addr faithful host c "direct_addr" evt.direct_addr.val
          (keep_name faithful host c "direct_addr_type" _ report))

  scan_uuids-Extends :
      {p q : Option Item} (evt : ScanEvt)
      → ExtendsHere p q
      → ExtendsHere p (scan_uuids W host c q evt)
  unfolding scan_uuids
  scan_uuids-Extends evt k =
      let number = λ (n : ℕ). W.create_number (pos n) in
      let name = keep_some_text "data_name" evt.data_name (
        keep_uuids "data_uuids128" evt.data_uuids128 (create_uuid128_bytes W host)
          "data_uuids128_is_complete" evt.data_uuids128_is_complete
          (keep_uuids "data_uuids32" evt.data_uuids32 number "data_uuids32_is_complete"
            evt.data_uuids32_is_complete
            (keep_uuids "data_uuids16" evt.data_uuids16 number "data_uuids16_is_complete"
              evt.data_uuids16_is_complete
              (keep_present evt.data_flags "data_flags" (pos evt.data_flags) k)))) in
      keep_if faithful host c (is_empty evt.data_name) name
        (keep_bool faithful host c "data_name_is_complete" (pos evt.data_name_is_complete) name)

  scan_fields-Extends :
      {p q : Option Item} (evt : ScanEvt)
      → ExtendsHere p q
      → ExtendsHere p (scan_fields W host c q evt)
  unfolding scan_fields add_gen_arr
  scan_fields-Extends evt k =
      let has_range = evt.data_slave_itvl_range_is_present in
      let svc16 = keep_some_bytes "data_svc_data_uuid16" evt.data_svc_data_uuid16 (
        keep_present has_range "data_slave_itvl_max" (pos evt.data_slave_itvl_max) (
          keep_present has_range "data_slave_itvl_min" (pos evt.data_slave_itvl_min) (
            keep_present evt.data_tx_pwr_lvl_is_present "data_tx_pwr_lvl" evt.data_tx_pwr_lvl
              k))) in
      let tgt = keep_if faithful host c (is_empty evt.data_public_tgt_addrs) svc16 (
        keep_item faithful host c "data_public_tgt_addrs"
          (fill_arr W (create_addr W) W.create_array evt.data_public_tgt_addrs) svc16) in
      keep_some_bytes "data_mfg_data" evt.data_mfg_data (
        keep_some_text "data_uri" evt.data_uri (
          keep_some_bytes "data_svc_data_uuid128" evt.data_svc_data_uuid128 (
            keep_some_bytes "data_svc_data_uuid32" evt.data_svc_data_uuid32 (
              keep_present evt.data_adv_itvl_is_present "data_adv_itvl" (pos evt.data_adv_itvl) (
                keep_present evt.data_appearance_is_present "data_appearance"
                  (pos evt.data_appearance) tgt)))))

  pub scan_members-Extends :
      {p q : Option Item} (evt : ScanEvt)
      → ExtendsHere p q
      → ExtendsHere p (scan_members W host c q evt)
  unfolding scan_members
  scan_members-Extends evt k =
      scan_fields-Extends evt (scan_uuids-Extends evt (scan_report-Extends evt k))
