-- ===== src/Req/AdvFields.antt =====
-- `bhd_adv_fields_req_run` of apps/blehostd/src/bhd_proto.c: the fields of an advertisement, each of
-- which may be missing.
use blehostd.Prelude.{
  ℕ, ◌/◌, Bool, if◌then◌else◌, Option, none, some, [], Bytes, String, map, length, ltb, ◌==◌,
}
use blehostd.Prelude.Int.{ℤ, pos, negsuc, to_unsigned}
use blehostd.Status.{sys_enoent, sys_erange, sys_einval, Result, ok, err}
use blehostd.Cjson.{Cjson}
use blehostd.Json.{json_int_bounds, json_bool, json_bool_value, json_string, json_hex_string}
use blehostd.JsonArr.{json_arr_uint16, json_arr_uint32, json_arr_uuid, json_arr_addr}
use blehostd.Uuid.{Uuid, uuid128}
use blehostd.Req.Outcome.{
  Form, build, build_returned, Outcome, accepted, rejected, ◌>>=◌, or_reject, u8, u16, HostSizes,
}
use blehostd.Req.Types.{Call, AdvFieldsReq, gap_adv_fields}

-- `if (rc == 0) { store } else if (rc != SYS_ENOENT) { error }`, with what the field is otherwise.
abbrev pub or_default {ℓ} : {A : Type ℓ} → A → Result A → String → Outcome A
or_default default (ok a) msg = accepted a
or_default default (err sys_enoent) msg = accepted default
or_default default (err e) msg = rejected build e msg

-- The same for a field with an `is_present` flag.
abbrev pub or_absent {ℓ κ} :
    {A : Type ℓ} {B : Type κ} → (A → B) → Result A → String → Outcome (Option B)
or_absent store (ok a) msg = accepted (some (store a))
or_absent store (err sys_enoent) msg = accepted none
or_absent store (err e) msg = rejected build e msg

-- `flags` must not be 0 where it is present.
unfoldable pub adv_flags : Result ℤ → Outcome ℕ
adv_flags (ok flags) =
    if u8 flags == 0 then rejected build sys_einval "invalid flags" else accepted (u8 flags)
adv_flags (err sys_enoent) = accepted 0
adv_flags (err e) = rejected build e "invalid flags"

-- What `bhd_json_bool` returns is stored in a 1-bit field, the -1 of a missing member too.
unfoldable pub is_complete : Form → Result Bool → String → Outcome ℕ
unfolding json_bool_value
is_complete form (ok b) msg = accepted (to_unsigned 2 (json_bool_value (ok b)))
is_complete form (err sys_enoent) msg = accepted (to_unsigned 2 (json_bool_value (err sys_enoent)))
is_complete form (err e) msg = rejected form e msg

-- `memcpy(req->adv_fields.uuids128[i], uuids[i].u128.value, 16)`
unfoldable pub uuid128_value : Uuid → Option Bytes
uuid128_value (uuid128 value) = some value
uuid128_value _ = none

-- A text of at most `size` bytes.
unfoldable pub adv_text : ℕ → Result Bytes → String → Outcome Bytes
adv_text size (ok s) msg = if ltb size (length s) then rejected build sys_erange msg else accepted s
adv_text size (err sys_enoent) msg = accepted []
adv_text size (err e) msg = rejected build e msg

-- `(struct bhd_adv_fields_req){ 0 }`
abbrev pub no_fields : AdvFieldsReq
no_fields = record {
  flags = 0;
  uuids16 = [];
  uuids16_is_complete = 0;
  uuids32 = [];
  uuids32_is_complete = 0;
  uuids128 = [];
  uuids128_is_complete = 0;
  name = [];
  name_is_complete = 0;
  tx_pwr_lvl = none;
  slave_itvl_range = none;
  svc_data_uuid16 = [];
  public_tgt_addrs = [];
  appearance = none;
  adv_itvl = none;
  svc_data_uuid32 = [];
  svc_data_uuid128 = [];
  uri = [];
  mfg_data = [];
}

module _ (J : Cjson) (sizes : HostSizes) where
  open J use {Item}

  -- `slave_itvl_max` is looked at only where `slave_itvl_min` is present.
  unfoldable pub adv_slave_itvl : Item → Result ℤ → Outcome (Option (ℕ × ℕ))
  adv_slave_itvl parent (ok min) = do
    max ←
        or_reject build (json_int_bounds J parent "slave_itvl_max" (pos 0) (pos 0xffff))
          "invalid slave_itvl_max"
    accepted (some (u16 min, u16 max))
  adv_slave_itvl parent (err sys_enoent) = accepted none
  adv_slave_itvl parent (err e) = rejected build e "invalid slave_itvl_min"

  unfoldable pub adv_bytes : Item → String → String → Outcome Bytes
  adv_bytes parent name msg =
      or_default [] (json_hex_string J parent name sizes.adv_max_field_sz) msg

  -- The fields in the order of the code, in three parts: each part updates the request that
  -- `(struct bhd_adv_fields_req){ 0 }` begins.
  unfoldable pub adv_uuid_fields : Item → AdvFieldsReq → Outcome AdvFieldsReq
  unfolding adv_flags is_complete
  adv_uuid_fields parent req = do
    flags ← adv_flags (json_int_bounds J parent "flags" (pos 0) (pos 0xff))
    uuids16 ←
        or_default [] (json_arr_uint16 J parent "uuids16" (sizes.adv_max_field_sz / 2) 0 0xffff)
          "invalid uuids16"
    uuids16_is_complete ←
        is_complete build (json_bool J parent "uuids16_is_complete")
          "invalid uuids16_is_complete value"
    uuids32 ←
        or_default [] (json_arr_uint32 J parent "uuids32" (sizes.adv_max_field_sz / 4) 0 0xffff)
          "invalid uuids32"
    uuids32_is_complete ←
        is_complete build (json_bool J parent "uuids32_is_complete")
          "invalid uuids32_is_complete value"
    uuids ←
        or_default []
          (json_arr_uuid J sizes.uuid_str_len parent "uuids128" (sizes.adv_max_field_sz / 16))
          "invalid uuids128"
    uuids128_is_complete ←
        is_complete build (json_bool J parent "uuids128_is_complete")
          "invalid uuids128_is_complete value"
    accepted (record req {
      flags = flags;
      uuids16 = uuids16;
      uuids16_is_complete = uuids16_is_complete;
      uuids32 = uuids32;
      uuids32_is_complete = uuids32_is_complete;
      uuids128 = map uuid128_value uuids;
      uuids128_is_complete = uuids128_is_complete;
    })

  unfoldable pub adv_name_fields : Item → AdvFieldsReq → Outcome AdvFieldsReq
  unfolding is_complete adv_text adv_slave_itvl
  adv_name_fields parent req = do
    name ← adv_text sizes.adv_max_field_sz (json_string J parent "name") "invalid name"
    name_is_complete ←
        is_complete build_returned (json_bool J parent "name_is_complete")
          "invalid name_is_complete value"
    tx_pwr_lvl ←
        or_absent (λ v. v) (json_int_bounds J parent "tx_pwr_lvl" (negsuc 127) (pos 127))
          "invalid tx_pwr_lvl"
    range ← adv_slave_itvl parent (json_int_bounds J parent "slave_itvl_min" (pos 0) (pos 0xffff))
    accepted (record req {
      name = name;
      name_is_complete = name_is_complete;
      tx_pwr_lvl = tx_pwr_lvl;
      slave_itvl_range = range;
    })

  unfoldable pub adv_data_fields : Item → AdvFieldsReq → Outcome AdvFieldsReq
  adv_data_fields parent req = do
    svc_data_uuid16 ← adv_bytes parent "svc_data_uuid16" "invalid svc_data_uuid16"
    public_tgt_addrs ←
        or_default [] (json_arr_addr J parent "public_tgt_addrs" (sizes.adv_max_field_sz / 6))
          "invalid public_target_addrs"
    appearance ←
        or_absent u16 (json_int_bounds J parent "appearance" (pos 0) (pos 0xffff))
          "invalid appearance"
    adv_itvl ←
        or_absent u16 (json_int_bounds J parent "adv_itvl" (pos 0) (pos 0xffff)) "invalid adv_itvl"
    svc_data_uuid32 ← adv_bytes parent "svc_data_uuid32" "invalid svc_data_uuid32"
    svc_data_uuid128 ← adv_bytes parent "svc_data_uuid128" "invalid svc_data_uuid128"
    uri ← adv_text sizes.adv_max_field_sz (json_string J parent "uri") "invalid uri"
    mfg_data ← adv_bytes parent "mfg_data" "invalid mfg_data"
    accepted (record req {
      svc_data_uuid16 = svc_data_uuid16;
      public_tgt_addrs = public_tgt_addrs;
      appearance = appearance;
      adv_itvl = adv_itvl;
      svc_data_uuid32 = svc_data_uuid32;
      svc_data_uuid128 = svc_data_uuid128;
      uri = uri;
      mfg_data = mfg_data;
    })

  unfoldable pub adv_fields_req_run : Item → Outcome Call
  adv_fields_req_run parent = do
    with_uuids ← adv_uuid_fields parent no_fields
    with_names ← adv_name_fields parent with_uuids
    req ← adv_data_fields parent with_names
    accepted (gap_adv_fields req)
