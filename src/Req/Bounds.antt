-- ===== src/Req/Bounds.antt =====
-- That what a request carries fits the fields and the buffers of the structs.
pub mod GapCalls
pub mod GattCalls
pub mod AdvCalls
pub mod Calls
use blehostd.Prelude.{
  ℕ, ◌+◌, ◌^◌, ◌≤◌, ◌≡◌, refl, ◌⊎◌, inl, inr, Option, none, some, String, Bytes, arith, length, All,
  IsByte, Option-cases, Bool-cases, ◌==◌, ==_iff, ap, sym, ◌∙◌,
}
use blehostd.Prelude.Int.{ℤ, pos, ◌≤ℤ◌, to_unsigned}
use blehostd.Status.{Result, ok, err, Result-cases}
use blehostd.Cjson.{Cjson}
use blehostd.Json.{
  json_kv, json_int_bounds, json_addr, json_hex_string, process_json_hex_string, process_json_addr,
}
use blehostd.Json.Bounds.{json_int_bounds_iff}
use blehostd.Parse.{
  parse_arg_mac, parse_arg_byte_stream, parse_arg_byte_stream_exact_length, parse_reverse_bytes,
}
use blehostd.Parse.Reverse.{parse_reverse_bytes_lem}
use blehostd.Parse.Bounds.{parse_arg_byte_stream_bounds}
use blehostd.Proto.Maps.{HostConsts, addr_type_parse}
use blehostd.Req.Answers.{Outcome-cases}
use blehostd.Req.Outcome.{Outcome, accepted, u8, u16, HostSizes}
use blehostd.Req.Types
use blehostd.Req.Types.{Call}
use blehostd.Req.Gap
use blehostd.Req.Gatt

-- What holds of the value, if there is one.
abbrev pub Holds {ℓ κ} : {A : Type ℓ} → (A → Type κ) → Result A → Type κ
Holds P (ok a) = P a
Holds P (err e) = Unit

holds {ℓ κ} : {A : Type ℓ} (P : A → Type κ) (r : Result A) → ((a : A) → r ≡ ok a → P a) → Holds P r
holds P (ok a) h = h a refl
holds P (err e) h = tt

unfoldable pub AtMost : ℕ → Option Bytes → Type 0
AtMost max_len (some bytes) = length bytes ≤ max_len
AtMost max_len none = Unit

-- Out-of-band data fill their 16 bytes.
unfoldable pub IsWhole : Types.SmInput → Type 0
IsWhole (Types.oob_data bytes) = length bytes ≡ 16
IsWhole _ = Unit

-- The number that an object has under a name.
unfoldable pub number_at : (J : Cjson) → J.Item → String → ℤ
number_at J parent name = elim (J.get_object_item parent name) [
  | none ↦ ℤ.negsuc 0
  | some item ↦ J.value_int item
]

-- The limits of the structs' fields and of the handlers' buffers, by the called function, with the object of the request.
-- A number that fills its field is the number of the object.
unfoldable pub IsInRange : (J : Cjson) → HostSizes → J.Item → Call → Type 0
IsInRange J sizes root (Types.gap_connect r) =
    (length r.peer_addr.val ≡ 6)
    × (pos 0 ≤ℤ r.duration_ms)
    × (r.duration_ms ≤ℤ pos 0x7fff_ffff)
    × (r.scan_itvl ≤ 0x7fff)
    × (r.scan_window ≤ 0x7fff)
    × (r.itvl_min ≤ 0x7fff)
    × (r.itvl_max ≤ 0x7fff)
    × (r.latency ≤ 0x7fff)
    × (r.supervision_timeout ≤ 0x7fff)
    × (r.min_ce_len ≤ 0x7fff)
    × (r.max_ce_len ≤ 0x7fff)
IsInRange J sizes root (Types.gap_terminate r) =
    (r.conn_handle ≤ 0xffff)
    × (number_at J root "conn_handle" ≡ pos r.conn_handle)
    × (r.hci_reason ≤ 0xff)
    × (number_at J root "hci_reason" ≡ pos r.hci_reason)
IsInRange J sizes root (Types.gattc_write r) =
    (r.conn_handle ≤ 0xffff)
    × (number_at J root "conn_handle" ≡ pos r.conn_handle)
    × (r.attr_handle ≤ 0xffff)
    × (number_at J root "attr_handle" ≡ pos r.attr_handle)
    × (length r.bytes ≤ sizes.att_attr_max_len + 3)
IsInRange J sizes root (Types.gattc_write_no_rsp r) =
    (r.conn_handle ≤ 0xffff)
    × (number_at J root "conn_handle" ≡ pos r.conn_handle)
    × (r.attr_handle ≤ 0xffff)
    × (number_at J root "attr_handle" ≡ pos r.attr_handle)
    × (length r.bytes ≤ sizes.att_attr_max_len + 3)
IsInRange J sizes root (Types.gattc_notify r) =
    (r.conn_handle ≤ 0xffff)
    × (number_at J root "conn_handle" ≡ pos r.conn_handle)
    × (r.attr_handle ≤ 0xffff)
    × (number_at J root "attr_handle" ≡ pos r.attr_handle)
    × (length r.bytes ≤ sizes.att_attr_max_len + 3)
IsInRange J sizes root (Types.id_set_rand_addr addr) = length addr ≡ 6
IsInRange J sizes root (Types.gap_scan r) =
    (pos 0 ≤ℤ r.duration_ms)
    × (r.duration_ms ≤ℤ pos 0x7fff_ffff)
    × (r.itvl ≤ 0xffff)
    × (number_at J root "itvl" ≡ pos r.itvl)
    × (r.window ≤ 0xffff)
    × (number_at J root "window" ≡ pos r.window)
IsInRange J sizes root (Types.gap_adv_start r) =
    (length r.peer_addr.val ≡ 6)
    × (pos 0 ≤ℤ r.duration_ms)
    × (r.duration_ms ≤ℤ pos 0x7fff_ffff)
    × (r.itvl_min ≤ 0x7fff)
    × (r.itvl_max ≤ 0x7fff)
    × (r.channel_map ≤ 0x7f)
IsInRange J sizes root (Types.gap_adv_set_data bytes) = length bytes ≤ sizes.hci_max_adv_data_len
IsInRange J sizes root (Types.gap_adv_rsp_set_data bytes) =
    length bytes ≤ sizes.hci_max_adv_data_len
IsInRange J sizes root (Types.gatts_access_status r) =
    (r.att_status ≤ 0xff)
    × (number_at J root "att_status" ≡ pos r.att_status)
    × AtMost sizes.att_attr_max_len r.bytes
IsInRange J sizes root (Types.sm_inject_io r) =
    (r.conn_handle ≤ 0xffff)
    × (number_at J root "conn_handle" ≡ pos r.conn_handle)
    × IsWhole r.input
IsInRange J sizes root (Types.gap_adv_fields r) =
    (length r.name ≤ sizes.adv_max_field_sz)
    × (length r.svc_data_uuid16 ≤ sizes.adv_max_field_sz)
    × (length r.svc_data_uuid32 ≤ sizes.adv_max_field_sz)
    × (length r.svc_data_uuid128 ≤ sizes.adv_max_field_sz)
    × (length r.uri ≤ sizes.adv_max_field_sz)
    × (length r.mfg_data ≤ sizes.adv_max_field_sz)
IsInRange J sizes root _ = Unit

module _ (J : Cjson) where
  open J use {Item}

  pub u16_below :
      (parent : Item) (name : String) (hi : ℕ)
      → hi ≤ 0xffff
      → Holds (λ v. u16 v ≤ hi) (json_int_bounds J parent name (pos 0) (pos hi))
  u16_below parent name hi h = holds _ _ λ v e.
      let (item, _, _, _, lo, up) = (json_int_bounds_iff J parent name (pos 0) (pos hi) v).0 e in
      u16_of v lo up
    where
      u16_of : (v : ℤ) → pos 0 ≤ℤ v → v ≤ℤ pos hi → u16 v ≤ hi
      u16_of (pos n) lo up = ground arith
      u16_of (ℤ.negsuc n) lo up = ground arith

  pub u8_below :
      (parent : Item) (name : String) (hi : ℕ)
      → hi ≤ 0xff
      → Holds (λ v. u8 v ≤ hi) (json_int_bounds J parent name (pos 0) (pos hi))
  u8_below parent name hi h = holds _ _ λ v e.
      let (item, _, _, _, lo, up) = (json_int_bounds_iff J parent name (pos 0) (pos hi) v).0 e in
      u8_of v lo up
    where
      u8_of : (v : ℤ) → pos 0 ≤ℤ v → v ≤ℤ pos hi → u8 v ≤ hi
      u8_of (pos n) lo up = ground arith
      u8_of (ℤ.negsuc n) lo up = ground arith

  pub u16_is :
      (parent : Item) (name : String)
      → Holds
          (λ v. number_at J parent name ≡ pos (u16 v))
          (json_int_bounds J parent name (pos 0) (pos 0xffff))
  unfolding number_at
  u16_is parent name = holds _ _ λ v e.
      let (item, found, _, is, lo, up) =
        (json_int_bounds_iff J parent name (pos 0) (pos 0xffff) v).0 e in
      rw (number_at, found, is) (u16_of v lo up)
    where
      u16_of : (v : ℤ) → pos 0 ≤ℤ v → v ≤ℤ pos 0xffff → v ≡ pos (u16 v)
      u16_of (pos n) lo up = ground arith
      u16_of (ℤ.negsuc n) lo up = ground arith

  pub u8_is :
      (parent : Item) (name : String)
      → Holds
          (λ v. number_at J parent name ≡ pos (u8 v))
          (json_int_bounds J parent name (pos 0) (pos 0xff))
  unfolding number_at
  u8_is parent name = holds _ _ λ v e.
      let (item, found, _, is, lo, up) =
        (json_int_bounds_iff J parent name (pos 0) (pos 0xff) v).0 e in
      rw (number_at, found, is) (u8_of v lo up)
    where
      u8_of : (v : ℤ) → pos 0 ≤ℤ v → v ≤ℤ pos 0xff → v ≡ pos (u8 v)
      u8_of (pos n) lo up = ground arith
      u8_of (ℤ.negsuc n) lo up = ground arith

  pub between :
      (parent : Item) (name : String) (lo hi : ℤ)
      → Holds (λ v. (lo ≤ℤ v) × (v ≤ℤ hi)) (json_int_bounds J parent name lo hi)
  between parent name lo hi =
      holds _ _
        λ v e. let (item, _, _, _, l, u) = (json_int_bounds_iff J parent name lo hi v).0 e in (l, u)

  stream_below :
      (val : Bytes) (max_len : ℕ)
      → Holds (λ bytes. length bytes ≤ max_len) (parse_arg_byte_stream val max_len)
  stream_below val max_len =
      holds _ _ λ bytes e. (parse_arg_byte_stream_bounds val max_len bytes e).0

  pub hex_below :
      (parent : Item) (name : String) (max_len : ℕ)
      → Holds (λ bytes. length bytes ≤ max_len) (json_hex_string J parent name max_len)
  unfolding json_hex_string process_json_hex_string
  hex_below parent name max_len = elim (Option-cases (J.get_object_item parent name)) [
    | inl missing ↦ ground arith
    | inr (item, found) ↦
        let b = stream_below (J.value_string item) max_len in ground (arith, found, b)
  ]

  reversed_six : (bytes : Bytes) → length bytes ≡ 6 → length (parse_reverse_bytes bytes 6) ≡ 6
  reversed_six bytes six =
      let (kept, _) = parse_reverse_bytes_lem bytes 0 (omega arith) in
      ap (λ n. length (parse_reverse_bytes bytes n)) (sym six) ∙ kept ∙ six

  six_bytes : (val : Bytes) → Holds (λ addr. length addr ≡ 6) (parse_arg_mac val)
  unfolding parse_arg_mac parse_arg_byte_stream_exact_length
  six_bytes val = elim (Result-cases (parse_arg_byte_stream val 6)) [
    | inl (code, failed) ↦ ground arith
    | inr (bytes, read) ↦ elim (Bool-cases (length bytes == 6)) [
      | inr other ↦ ground arith
      | inl six ↦ let l = reversed_six bytes ((==_iff _ _).0 six) in ground (arith, read, six, l)
    ]
  ]

  pub addr_six :
      (parent : Item) (name : String) → Holds (λ addr. length addr ≡ 6) (json_addr J parent name)
  unfolding json_addr process_json_addr
  addr_six parent name = elim (Option-cases (J.get_object_item parent name)) [
    | inl missing ↦ ground arith
    | inr (item, found) ↦ let b = six_bytes (J.value_string item) in ground (arith, found, b)
  ]
