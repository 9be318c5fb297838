-- ===== src/Gap/Fields/Scanned.antt =====
-- The fields that `bhd_gap_adv_fields` of apps/blehostd/src/bhd_gap.c gives to the host, against the fields that
-- `bhd_gap_send_scan_evt` takes from the host.
use blehostd.Prelude.{
  ◌%◌, ◌+◌, ap, ◌∙◌, take, Option-cases, ℕ, ◌/◌, ◌≤◌, ◌<◌, ◌≡◌, ◌⊎◌, refl, inl, inr, Option, none,
  some, List, [], ◌∷◌, Bytes, arith, length, ltb, ltb→lt, Bool-cases,
}
use blehostd.Req.Types.{AdvFieldsReq}
use blehostd.Enc.Evt.Scan.{ScanEvt}
use blehostd.Gap.{AdvFields, copied, range_at, copy_fields}
use blehostd.Gap.Fields.{
  if_any, flag_if_any, or_zero, or_pos_zero, is_present, put_range, fill_fields, copy_uuids128,
  fields, too_many, adv_fields_copy,
}

-- The bounds of the range as 16-bit numbers; 0 where it is not present.
abbrev pub bounds : Option (ℕ × ℕ) → ℕ × ℕ
bounds none = (0, 0)
bounds (some (min, max)) = (min % 0x1_0000, max % 0x1_0000)

-- What the two functions of Mynewt do: `put_be16` writes two bytes, and `get_be16` reads the number in them.
pub record AreInverse (put_be16 : Bytes → ℕ → ℕ → Bytes) (get_be16 : Bytes → ℕ → ℕ) : Type 0 where
  pub length-put : (buf : Bytes) (off v : ℕ) → length (put_be16 buf off v) ≡ length buf
  pub get-put :
      (buf : Bytes) (off v : ℕ)
      → off + 2 ≤ length buf
      → get_be16 (put_be16 buf off v) off ≡ v % 0x1_0000
  pub get-put_behind :
      (buf : Bytes) (off off' v : ℕ)
      → off + 2 ≤ off'
      → off' + 2 ≤ length buf
      → get_be16 (put_be16 buf off' v) off ≡ get_be16 buf off

-- The event has the fields of the request; a flag of a list or a name only where that is not empty.
pub record Reports (r : AdvFieldsReq) (uuids128 : List Bytes) (evt : ScanEvt) : Type 0 where
  pub flags : evt.data_flags ≡ r.flags
  pub uuids16 : evt.data_uuids16 ≡ r.uuids16
  pub uuids16_is_complete :
      evt.data_uuids16_is_complete ≡ flag_if_any r.uuids16 r.uuids16_is_complete
  pub uuids32 : evt.data_uuids32 ≡ r.uuids32
  pub uuids32_is_complete :
      evt.data_uuids32_is_complete ≡ flag_if_any r.uuids32 r.uuids32_is_complete
  pub uuids128-eq : evt.data_uuids128 ≡ uuids128
  pub uuids128_is_complete :
      evt.data_uuids128_is_complete ≡ flag_if_any r.uuids128 r.uuids128_is_complete
  pub name : evt.data_name ≡ r.name
  pub name_is_complete : evt.data_name_is_complete ≡ flag_if_any r.name r.name_is_complete
  pub tx_pwr_lvl : evt.data_tx_pwr_lvl ≡ or_pos_zero r.tx_pwr_lvl
  pub tx_pwr_lvl_is_present : evt.data_tx_pwr_lvl_is_present ≡ is_present r.tx_pwr_lvl
  pub slave_itvl_min : evt.data_slave_itvl_min ≡ (bounds r.slave_itvl_range).0
  pub slave_itvl_max : evt.data_slave_itvl_max ≡ (bounds r.slave_itvl_range).1
  pub slave_itvl_range_is_present :
      evt.data_slave_itvl_range_is_present ≡ is_present r.slave_itvl_range
  pub svc_data_uuid16 : evt.data_svc_data_uuid16 ≡ r.svc_data_uuid16
  pub public_tgt_addrs : evt.data_public_tgt_addrs ≡ r.public_tgt_addrs
  pub appearance : evt.data_appearance ≡ or_zero r.appearance
  pub appearance_is_present : evt.data_appearance_is_present ≡ is_present r.appearance
  pub adv_itvl : evt.data_adv_itvl ≡ or_zero r.adv_itvl
  pub adv_itvl_is_present : evt.data_adv_itvl_is_present ≡ is_present r.adv_itvl
  pub svc_data_uuid32 : evt.data_svc_data_uuid32 ≡ r.svc_data_uuid32
  pub svc_data_uuid128 : evt.data_svc_data_uuid128 ≡ r.svc_data_uuid128
  pub uri : evt.data_uri ≡ r.uri
  pub mfg_data : evt.data_mfg_data ≡ r.mfg_data

take-length {ℓ} : {A : Type ℓ} (xs : List A) → take (length xs) xs ≡ xs
take-length [] = refl
take-length (x ∷ xs) = ap (λ l. x ∷ l) (take-length xs)

copied-if_any : (bytes : Bytes) → copied (if_any bytes) (length bytes) ≡ bytes
unfolding if_any
copied-if_any [] = refl
copied-if_any (b ∷ bytes) = take-length (b ∷ bytes)

-- What the pointer of the name does to its flag.
name_flag :
    (name : Bytes) (flag : ℕ)
    → (elim (if_any name) [ none ↦ 0 | some _ ↦ flag_if_any name flag ]) ≡ flag_if_any name flag
unfolding if_any flag_if_any
name_flag [] flag = refl
name_flag (b ∷ name) flag = refl

copy_uuids128-length :
    (uuids : List (Option Bytes)) (values : List Bytes)
    → copy_uuids128 uuids ≡ some values
    → length uuids ≡ length values
unfolding copy_uuids128
copy_uuids128-length [] values e = ground arith
copy_uuids128-length (none ∷ uuids) values e = absurd (ground arith)
copy_uuids128-length (some value ∷ uuids) values e = elim (Option-cases (copy_uuids128 uuids)) [
  | inl bad ↦ absurd (ground arith)
  | inr (more, good) ↦ ground (arith, copy_uuids128-length uuids more good)
]

range_at-put_range :
    {put_be16 : Bytes → ℕ → ℕ → Bytes} {get_be16 : Bytes → ℕ → ℕ}
    (law : AreInverse put_be16 get_be16) (range : Option (ℕ × ℕ))
    → range_at get_be16 (put_range put_be16 range)
      ≡ ((bounds range).0, (bounds range).1, is_present range)
unfolding put_range
range_at-put_range law none = refl
range_at-put_range {put_be16} {get_be16} law (some (min, max)) =
    let zeroes : Bytes = 0 ∷ 0 ∷ 0 ∷ 0 ∷ [] in
    let first = put_be16 zeroes 0 min in
    let room : 2 + 2 ≤ length first = rw (law.length-put zeroes 0 min) (omega arith) in
    let low =
      law.get-put_behind first 0 2 max (omega arith) room
      ∙ law.get-put zeroes 0 min (omega arith) in
    rw (law.get-put first 2 max room, low) refl

fill_fields-Reports :
    {put_be16 : Bytes → ℕ → ℕ → Bytes} {get_be16 : Bytes → ℕ → ℕ}
    (law : AreInverse put_be16 get_be16) (r : AdvFieldsReq) (uuids128 : List Bytes) (evt : ScanEvt)
    → length r.uuids128 ≡ length uuids128
    → Reports r uuids128 (copy_fields get_be16 (fill_fields put_be16 r uuids128) evt)
unfolding copy_fields fill_fields
fill_fields-Reports law r uuids128 evt same = record {
  flags = refl;
  uuids16 = take-length r.uuids16;
  uuids16_is_complete = refl;
  uuids32 = take-length r.uuids32;
  uuids32_is_complete = refl;
  uuids128-eq = ap (λ n. take n uuids128) same ∙ take-length uuids128;
  uuids128_is_complete = refl;
  name = copied-if_any r.name;
  name_is_complete = name_flag r.name r.name_is_complete;
  tx_pwr_lvl = refl;
  tx_pwr_lvl_is_present = refl;
  slave_itvl_min = ap (λ b. b.0) (range_at-put_range law r.slave_itvl_range);
  slave_itvl_max = ap (λ b. b.1) (range_at-put_range law r.slave_itvl_range);
  slave_itvl_range_is_present = ap (λ b. b.2) (range_at-put_range law r.slave_itvl_range);
  svc_data_uuid16 = copied-if_any r.svc_data_uuid16;
  public_tgt_addrs = take-length r.public_tgt_addrs;
  appearance = refl;
  appearance_is_present = refl;
  adv_itvl = refl;
  adv_itvl_is_present = refl;
  svc_data_uuid32 = copied-if_any r.svc_data_uuid32;
  svc_data_uuid128 = copied-if_any r.svc_data_uuid128;
  uri = copied-if_any r.uri;
  mfg_data = copied-if_any r.mfg_data;
}

-- A request whose 128-bit UUIDs were all written: `bhd_gap_adv_fields` either gives the host fields that
-- `bhd_gap_send_scan_evt`, where the host reads them back, reports with every value and presence of the request, the
-- bounds of the range as 16-bit numbers, and
-- then no list of UUIDs is longer than its array; or one is, and it gives the host nothing.
pub adv_fields_copy-Reports :
    (put_be16 : Bytes → ℕ → ℕ → Bytes) (get_be16 : Bytes → ℕ → ℕ)
    (law : AreInverse put_be16 get_be16) (max_field_sz : ℕ) (r : AdvFieldsReq)
    (uuids128 : List Bytes) (evt : ScanEvt)
    → copy_uuids128 r.uuids128 ≡ some uuids128
    → ((f : AdvFields) × (adv_fields_copy put_be16 max_field_sz r ≡ fields f)
        × Reports r uuids128 (copy_fields get_be16 f evt)
        × (length r.uuids16 ≤ max_field_sz / 2)
        × (length r.uuids32 ≤ max_field_sz / 4)
        × (length r.uuids128 ≤ max_field_sz / 16))
      ⊎ ((adv_fields_copy put_be16 max_field_sz r ≡ too_many)
          × ((max_field_sz / 2 < length r.uuids16)
              ⊎ (max_field_sz / 4 < length r.uuids32)
              ⊎ (max_field_sz / 16 < length r.uuids128)))
unfolding adv_fields_copy
adv_fields_copy-Reports put_be16 get_be16 law n r uuids128 evt e =
    elim (Bool-cases (ltb (n / 2) (length r.uuids16))) [
      | inl a ↦ inr (rw (adv_fields_copy, a) refl, inl (ltb→lt _ _ a))
      | inr a ↦ elim (Bool-cases (ltb (n / 4) (length r.uuids32))) [
        | inl b ↦ inr (rw (adv_fields_copy, a, b) refl, inr (inl (ltb→lt _ _ b)))
        | inr b ↦ elim (Bool-cases (ltb (n / 16) (length r.uuids128))) [
          | inl d ↦ inr (rw (adv_fields_copy, a, b, d) refl, inr (inr (ltb→lt _ _ d)))
          | inr d ↦ inl (
            fill_fields put_be16 r uuids128,
            rw (adv_fields_copy, a, b, d, e) refl,
            fill_fields-Reports law r uuids128 evt (copy_uuids128-length r.uuids128 uuids128 e),
            ground arith,
            ground arith,
            ground arith,
          )
        ]
      ]
    ]
