-- ===== src/Json.antt =====
-- The readers of JSON values in apps/blehostd/src/bhd_util.c. A reader returns the value, or the code
-- that it leaves in `*rc`; what it returns beside an error is not kept, but for `json_bool_value`.
pub mod Bounds
use blehostd.Prelude.{Bool, true, false, ◌||◌, Option, none, some, ℕ, String, Bytes, if◌then◌else◌}
use blehostd.Prelude.Int.{ℤ, pos, negsuc, ltb_ℤ, eqz}
use blehostd.Status.{Error, sys_enoent, sys_erange, Result, ok, err, ◌>>=◌}
use blehostd.Cjson.{Kind, cjson_false, cjson_true, cjson_number, cjson_string, cjson_array, Cjson}
use blehostd.Parse.{parse_arg_byte_stream, parse_arg_mac}

module _ (J : Cjson) where
  open J use {Item, type_of, value_int, value_string, get_object_item}

  unfoldable pub process_json_int : Item → Result ℤ
  process_json_int item = elim (type_of item) [
    | cjson_number ↦ ok (value_int item)
    | _ ↦ err sys_erange
  ]

  unfoldable pub process_json_int_bounds : Item → ℤ → ℤ → Result ℤ
  unfolding process_json_int
  process_json_int_bounds item minval maxval = process_json_int item >>= λ val.
      if ltb_ℤ val minval || ltb_ℤ maxval val then err sys_erange else ok val

  unfoldable pub process_json_string : Item → Result Bytes
  process_json_string item = elim (type_of item) [
    | cjson_string ↦ ok (value_string item)
    | _ ↦ err sys_erange
  ]

  -- The `switch (*rc)`: a missing entry becomes a range error.
  unfoldable pub process_json_hex_string : Item → ℕ → Result Bytes
  unfolding process_json_string parse_arg_byte_stream
  process_json_hex_string item max_len = elim (process_json_string item) [
    | ok valstr ↦ parse_arg_byte_stream valstr max_len
    | err sys_enoent ↦ err sys_erange
    | err e ↦ err e
  ]

  unfoldable pub process_json_addr : Item → Result Bytes
  unfolding process_json_string parse_arg_mac
  process_json_addr item = process_json_string item >>= parse_arg_mac

  -- `item = cJSON_GetObjectItem(parent, name); if (item == NULL) *rc = SYS_ENOENT`, with which
  -- every reader below begins.
  unfoldable pub json_item : Item → String → Result Item
  json_item parent name = elim (get_object_item parent name) [
    | none ↦ err sys_enoent
    | some item ↦ ok item
  ]

  unfoldable pub json_int : Item → String → Result ℤ
  unfolding json_item process_json_int
  json_int parent name = json_item parent name >>= process_json_int

  unfoldable pub json_bool : Item → String → Result Bool
  unfolding json_item
  json_bool parent name = json_item parent name >>= λ item. elim (type_of item) [
    | cjson_false ↦ ok false
    | cjson_true ↦ ok true
    | _ ↦ err sys_erange
  ]

  unfoldable pub json_int_bounds : Item → String → ℤ → ℤ → Result ℤ
  unfolding json_item process_json_int_bounds
  json_int_bounds parent name minval maxval =
      json_item parent name >>= λ item. process_json_int_bounds item minval maxval

  unfoldable pub json_string : Item → String → Result Bytes
  unfolding json_item process_json_string
  json_string parent name = json_item parent name >>= process_json_string

  unfoldable pub json_hex_string : Item → String → ℕ → Result Bytes
  unfolding json_item process_json_hex_string
  json_hex_string parent name max_len =
      json_item parent name >>= λ item. process_json_hex_string item max_len

  unfoldable pub json_arr : Item → String → Result Item
  unfolding json_item
  json_arr parent name = json_item parent name >>= λ item. elim (type_of item) [
    | cjson_array ↦ ok item
    | _ ↦ err sys_erange
  ]

  unfoldable pub json_addr : Item → String → Result Bytes
  unfolding json_item process_json_addr
  json_addr parent name = json_item parent name >>= process_json_addr

  -- `bhd_json_kv`: the number of a name, by one of the `*_parse` functions.
  unfoldable pub json_kv : (Bytes → ℤ) → Item → String → Result ℤ
  unfolding json_string
  json_kv parse_cb parent name = json_string parent name >>= λ valstr.
      if eqz (parse_cb valstr) (negsuc 0) then err sys_erange else ok (parse_cb valstr)

-- What `bhd_json_bool` returns beside `*rc`.
unfoldable pub json_bool_value : Result Bool → ℤ
json_bool_value (ok false) = pos 0
json_bool_value (ok true) = pos 1
json_bool_value (err sys_enoent) = negsuc 0
json_bool_value (err _) = pos 0
