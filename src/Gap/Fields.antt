-- ===== src/Gap/Fields.antt =====
-- `bhd_gap_adv_fields` of apps/blehostd/src/bhd_gap.c: the fields of a request, copied to the struct of the host, which
-- makes advertising data of them.
pub mod Scanned
use blehostd.Prelude.{
  ℕ, ◌+◌, ◌/◌, ◌≤◌, ◌≡◌, ◌⊎◌, refl, inl, inr, Bool, true, false, Option, none, some, List, [], ◌∷◌,
  Bytes, arith, length, ltb, ◌||◌, if◌then◌else◌, Bool-cases, Option-cases,
}
use blehostd.Prelude.Int.{ℤ, pos, eqz}
use blehostd.Req.Types.{AdvFieldsReq}
use blehostd.Enc.Rsp.{RspBody, adv_fields_rsp}
use blehostd.Enc.Evt.Scan.{ScanEvt}
use blehostd.Gap.{AdvFields, copy_fields}

-- `ble_hs_adv_set_fields`: the code, and the bytes up to the length that it writes; and BLE_HS_EINVAL and
-- BLE_HS_ADV_MAX_FIELD_SZ; `put_be16` of Mynewt has the block, the offset and the number.
pub record FieldsHost : Type 0 where
  pub adv_set_fields : AdvFields → ℤ × Bytes
  pub hs_einval : ℤ
  pub adv_max_field_sz : ℕ
  pub put_be16 : Bytes → ℕ → ℕ → Bytes

-- A pointer that is set where the length is not 0.
unfoldable pub if_any : Bytes → Option Bytes
if_any [] = none
if_any (b ∷ bytes) = some (b ∷ bytes)

-- A flag that is set where there are elements.
unfoldable pub flag_if_any {ℓ} : {A : Type ℓ} → List A → ℕ → ℕ
flag_if_any [] flag = 0
flag_if_any (x ∷ xs) flag = flag

-- The loop that copies the 128-bit UUIDs; `none` where one of them was not written.
unfoldable pub copy_uuids128 : List (Option Bytes) → Option (List Bytes)
copy_uuids128 [] = some []
copy_uuids128 (none ∷ uuids) = none
copy_uuids128 (some value ∷ uuids) = elim (copy_uuids128 uuids) [
  | none ↦ none
  | some values ↦ some (value ∷ values)
]

-- A field and its flag; `bhd_json_int_bounds` left 0 where it is not present.
abbrev pub or_zero : Option ℕ → ℕ
or_zero none = 0
or_zero (some v) = v

abbrev pub or_pos_zero : Option ℤ → ℤ
or_pos_zero none = pos 0
or_pos_zero (some v) = v

abbrev pub is_present {ℓ} : {A : Type ℓ} → Option A → ℕ
is_present none = 0
is_present (some v) = 1

-- The local array for the range; all of it is written.
unfoldable pub put_range : (Bytes → ℕ → ℕ → Bytes) → Option (ℕ × ℕ) → Option Bytes
put_range put_be16 none = none
put_range put_be16 (some (min, max)) = some (put_be16 (put_be16 (0 ∷ 0 ∷ 0 ∷ 0 ∷ []) 0 min) 2 max)

-- The fields of the host behind the guards.
unfoldable pub fill_fields : (Bytes → ℕ → ℕ → Bytes) → AdvFieldsReq → List Bytes → AdvFields
unfolding if_any flag_if_any put_range
fill_fields put_be16 r uuids128 = record {
  flags = r.flags;
  uuids16 = r.uuids16;
  num_uuids16 = length r.uuids16;
  uuids16_is_complete = flag_if_any r.uuids16 r.uuids16_is_complete;
  uuids32 = r.uuids32;
  num_uuids32 = length r.uuids32;
  uuids32_is_complete = flag_if_any r.uuids32 r.uuids32_is_complete;
  uuids128 = uuids128;
  num_uuids128 = length r.uuids128;
  uuids128_is_complete = flag_if_any r.uuids128 r.uuids128_is_complete;
  name = if_any r.name;
  name_len = length r.name;
  name_is_complete = flag_if_any r.name r.name_is_complete;
  tx_pwr_lvl = or_pos_zero r.tx_pwr_lvl;
  tx_pwr_lvl_is_present = is_present r.tx_pwr_lvl;
  slave_itvl_range = put_range put_be16 r.slave_itvl_range;
  svc_data_uuid16 = if_any r.svc_data_uuid16;
  svc_data_uuid16_len = length r.svc_data_uuid16;
  public_tgt_addrs = r.public_tgt_addrs;
  num_public_tgt_addrs = length r.public_tgt_addrs;
  appearance = or_zero r.appearance;
  appearance_is_present = is_present r.appearance;
  adv_itvl = or_zero r.adv_itvl;
  adv_itvl_is_present = is_present r.adv_itvl;
  svc_data_uuid32 = if_any r.svc_data_uuid32;
  svc_data_uuid32_len = length r.svc_data_uuid32;
  svc_data_uuid128 = if_any r.svc_data_uuid128;
  svc_data_uuid128_len = length r.svc_data_uuid128;
  uri = if_any r.uri;
  uri_len = length r.uri;
  mfg_data = if_any r.mfg_data;
  mfg_data_len = length r.mfg_data;
}

-- What is given to the host: the fields, or nothing where a count is greater than its array. `undefined` stands for a
-- copy of a UUID that was not written.
pub data Copy : Type 0 where
  fields : AdvFields → Copy
  too_many : Copy
  undefined : Copy

pub Copy-cases : (m : Copy) → ((f : AdvFields) × (m ≡ fields f)) ⊎ (m ≡ too_many) ⊎ (m ≡ undefined)
Copy-cases (fields f) = inl (f, refl)
Copy-cases too_many = inr (inl refl)
Copy-cases undefined = inr (inr refl)

-- The guards stop a loop before it copies.
unfoldable pub adv_fields_copy : (Bytes → ℕ → ℕ → Bytes) → ℕ → AdvFieldsReq → Copy
unfolding copy_uuids128 fill_fields
adv_fields_copy put_be16 max_field_sz r =
    if ltb (max_field_sz / 2) (length r.uuids16)
    then too_many
    else if ltb (max_field_sz / 4) (length r.uuids32)
    then too_many
    else if ltb (max_field_sz / 16) (length r.uuids128)
    then too_many
    else elim (copy_uuids128 r.uuids128) [
      | none ↦ undefined
      | some uuids128 ↦ fields (fill_fields put_be16 r uuids128)
    ]

module _ (host : FieldsHost) where
  open host use {adv_set_fields, hs_einval, adv_max_field_sz, put_be16}

  -- `none` stands for the undefined copy. The length stays 0 where the host refuses the fields.
  unfoldable pub gap_adv_fields : AdvFieldsReq → Option RspBody
  unfolding adv_fields_copy
  gap_adv_fields r = elim (adv_fields_copy put_be16 adv_max_field_sz r) [
    | undefined ↦ none
    | too_many ↦ some (adv_fields_rsp hs_einval [])
    | fields f ↦
        let (status, bytes) = adv_set_fields f in
        some (adv_fields_rsp status (if eqz status (pos 0) then bytes else []))
  ]
