-- ===== src/Enc/Evt/Scan.antt =====
-- The event of an advertisement: its structure and `bhd_scan_evt_enc` of apps/blehostd/src/bhd_proto.c.
use blehostd.Prelude.{
  ℕ, Bool, true, false, Option, some, List, [], ◌∷◌, String, Bytes, if◌then◌else◌, ◌==◌,
}
use blehostd.Prelude.Int.{ℤ, pos}
use blehostd.Cjson.{Cjson}
use blehostd.Libc.{c_string}
use blehostd.Writer.{Writer}
use blehostd.Proto.Maps.{HostConsts}
use blehostd.Enc.{
  BleAddr, HostText, add_bytes, add_addr, add_int, add_bool, add_addr_type, add_adv_event_type,
  add_gen_arr, create_addr, create_uuid128_bytes,
}

-- `struct bhd_scan_evt`. An array and the field with its length are one list; `bytes` is `data`.
pub record ScanEvt : Type 0 where
  pub event_type : ℕ
  pub addr : BleAddr
  pub rssi : ℤ
  pub bytes : Bytes
  pub direct_addr : BleAddr
  pub data_flags : ℕ
  pub data_uuids16 : List ℕ
  pub data_uuids16_is_complete : ℕ
  pub data_uuids32 : List ℕ
  pub data_uuids32_is_complete : ℕ
  pub data_uuids128 : List Bytes
  pub data_uuids128_is_complete : ℕ
  pub data_name : Bytes
  pub data_name_is_complete : ℕ
  pub data_tx_pwr_lvl : ℤ
  pub data_tx_pwr_lvl_is_present : ℕ
  pub data_slave_itvl_min : ℕ
  pub data_slave_itvl_max : ℕ
  pub data_slave_itvl_range_is_present : ℕ
  pub data_svc_data_uuid16 : Bytes
  pub data_public_tgt_addrs : List Bytes
  pub data_appearance : ℕ
  pub data_appearance_is_present : ℕ
  pub data_adv_itvl : ℕ
  pub data_adv_itvl_is_present : ℕ
  pub data_svc_data_uuid32 : Bytes
  pub data_svc_data_uuid128 : Bytes
  pub data_uri : Bytes
  pub data_mfg_data : Bytes

abbrev pub is_empty {ℓ} : {A : Type ℓ} → List A → Bool
is_empty [] = true
is_empty (x ∷ xs) = false

module _ {J : Cjson} (W : Writer J) (host : HostText) (c : HostConsts) where
  open J use {Item}
  open W use {create_number, add_string_to_object}

  -- A byte array that is not empty.
  unfoldable pub add_some_bytes : Option Item → String → Bytes → Option Item
  unfolding add_bytes
  add_some_bytes parent name bytes =
      if is_empty bytes then parent else add_bytes W parent name bytes

  -- A text that is not empty, up to its first NUL.
  unfoldable pub add_some_text : Option Item → String → Bytes → Option Item
  unfolding c_string
  add_some_text parent name bytes =
      if is_empty bytes then parent else add_string_to_object parent name (some (c_string bytes))

  -- A number that is present.
  unfoldable pub add_present : Option Item → ℕ → String → ℤ → Option Item
  unfolding add_int
  add_present parent is_present name val =
      if is_present == 0 then parent else add_int W parent name val

  -- An array of UUIDs that is not empty, and whether it is complete.
  unfoldable pub add_uuids :
      {A : Type 0} → Option Item → String → List A → (A → Option Item) → String → ℕ → Option Item
  unfolding add_gen_arr add_bool
  add_uuids parent name vals create_cb flag_name is_complete =
      if is_empty vals
      then parent
      else add_bool W (add_gen_arr W parent name vals create_cb) flag_name (pos is_complete)

  -- The members before the fields of the advertisement.
  unfoldable pub scan_report : Option Item → ScanEvt → Option Item
  unfolding add_adv_event_type add_addr_type add_addr add_int add_some_bytes
  scan_report parent evt =
      let with_event = (add_adv_event_type W c parent "event_type" evt.event_type).1 in
      let with_type = (add_addr_type W c with_event "addr_type" evt.addr.type).1 in
      let with_addr = add_addr W with_type "addr" evt.addr.val in
      let with_rssi = add_int W with_addr "rssi" evt.rssi in
      let with_data = add_some_bytes with_rssi "data" evt.bytes in
      if host.is_addr_any evt.direct_addr
      then with_data
      else add_addr W (add_addr_type W c with_data "direct_addr_type" evt.direct_addr.type).1
          "direct_addr" evt.direct_addr.val

  -- The flags, the UUIDs and the name.
  unfoldable pub scan_uuids : Option Item → ScanEvt → Option Item
  unfolding add_present add_uuids add_some_text add_bool create_uuid128_bytes
  scan_uuids parent evt =
      let with_flags = add_present parent evt.data_flags "data_flags" (pos evt.data_flags) in
      let number = λ (n : ℕ). create_number (pos n) in
      let with_16 =
        add_uuids with_flags "data_uuids16" evt.data_uuids16 number "data_uuids16_is_complete"
          evt.data_uuids16_is_complete in
      let with_32 =
        add_uuids with_16 "data_uuids32" evt.data_uuids32 number "data_uuids32_is_complete"
          evt.data_uuids32_is_complete in
      let with_128 =
        add_uuids with_32 "data_uuids128" evt.data_uuids128 (create_uuid128_bytes W host)
          "data_uuids128_is_complete" evt.data_uuids128_is_complete in
      let with_name = add_some_text with_128 "data_name" evt.data_name in
      if is_empty evt.data_name
      then with_name
      else add_bool W with_name "data_name_is_complete" (pos evt.data_name_is_complete)

  -- The other fields.
  unfoldable pub scan_fields : Option Item → ScanEvt → Option Item
  unfolding add_present add_some_bytes add_some_text add_gen_arr add_int create_addr
  scan_fields parent evt =
      let with_pwr =
        add_present parent evt.data_tx_pwr_lvl_is_present "data_tx_pwr_lvl" evt.data_tx_pwr_lvl in
      let has_range = evt.data_slave_itvl_range_is_present in
      let with_min =
        add_present with_pwr has_range "data_slave_itvl_min" (pos evt.data_slave_itvl_min) in
      let with_max =
        add_present with_min has_range "data_slave_itvl_max" (pos evt.data_slave_itvl_max) in
      let with_16 = add_some_bytes with_max "data_svc_data_uuid16" evt.data_svc_data_uuid16 in
      let with_tgt =
        if is_empty evt.data_public_tgt_addrs
        then with_16
        else add_gen_arr W with_16 "data_public_tgt_addrs" evt.data_public_tgt_addrs
            (create_addr W) in
      let with_app =
        add_present with_tgt evt.data_appearance_is_present "data_appearance"
          (pos evt.data_appearance) in
      let with_itvl =
        add_present with_app evt.data_adv_itvl_is_present "data_adv_itvl" (pos evt.data_adv_itvl) in
      let with_32 = add_some_bytes with_itvl "data_svc_data_uuid32" evt.data_svc_data_uuid32 in
      let with_128 = add_some_bytes with_32 "data_svc_data_uuid128" evt.data_svc_data_uuid128 in
      let with_uri = add_some_text with_128 "data_uri" evt.data_uri in
      add_some_bytes with_uri "data_mfg_data" evt.data_mfg_data

  -- `bhd_scan_evt_enc`, which returns 0.
  unfoldable pub scan_members : Option Item → ScanEvt → Option Item
  unfolding scan_report scan_uuids scan_fields
  scan_members parent evt = scan_fields (scan_uuids (scan_report parent evt) evt) evt
