-- ===== src/Enc.antt =====
-- The JSON values of messages, from apps/blehostd/src/bhd_util.c and bhd_util.h, and the header of a message,
-- from bhd_proto.c.
pub mod Rsp
pub mod Evt
pub mod Send
pub mod Keep
pub mod Header
pub mod Values
pub mod Names
use blehostd.Prelude.{ℕ, ◌+◌, ◌*◌, Bool, Option, none, some, List, [], ◌∷◌, String, Bytes, length}
use blehostd.Prelude.Int.{ℤ, pos}
use blehostd.Status.{Error, sys_einval, Rc, success, fail}
use blehostd.Cjson.{Cjson}
use blehostd.Writer.{Writer}
use blehostd.Hex.{hex_str, addr_str}
use blehostd.Uuid.{Uuid, uuid16, uuid32, uuid128}
use blehostd.Proto.Maps.{
  HostConsts, op_rev_parse, type_rev_parse, addr_type_rev_parse, adv_event_type_rev_parse,
  gatt_access_op_rev_parse, sm_passkey_action_rev_parse,
}
use blehostd.Req.Run.{MsgHdr}

-- `ble_addr_t`
pub record BleAddr : Type 0 where
  pub type : ℕ
  pub val : Bytes

-- The host's `ble_uuid_to_str`, BLE_HS_CONN_HANDLE_NONE, and `ble_addr_cmp` with BLE_ADDR_ANY: whether it
-- returns 0.
pub record HostText : Type 0 where
  pub uuid_to_str : Uuid → Bytes
  pub conn_handle_none : ℕ
  pub is_addr_any : BleAddr → Bool

module _ {J : Cjson} (W : Writer J) where
  open J use {Item}
  open W use {
    create_array, create_number, create_bool, create_string, add_item_to_object, add_item_to_array,
    add_string_to_object,
  }

  unfoldable pub create_byte_string : Bytes → Option Item
  unfolding hex_str
  create_byte_string bytes = create_string (some (hex_str (length bytes * 5 + 1) bytes).0)

  unfoldable pub add_bytes : Option Item → String → Bytes → Option Item
  unfolding create_byte_string
  add_bytes parent name bytes = add_item_to_object parent name (create_byte_string bytes)

  unfoldable pub create_addr : Bytes → Option Item
  unfolding addr_str
  create_addr addr = create_string (some (addr_str addr))

  unfoldable pub add_addr : Option Item → String → Bytes → Option Item
  unfolding create_addr
  add_addr parent name addr = add_item_to_object parent name (create_addr addr)

  unfoldable pub add_int : Option Item → String → ℤ → Option Item
  add_int parent name val = add_item_to_object parent name (create_number val)

  unfoldable pub add_bool : Option Item → String → ℤ → Option Item
  add_bool parent name val = add_item_to_object parent name (create_bool val)

  -- The body that the four functions for names share: a number with no name adds nothing.
  unfoldable pub add_name : Option Item → String → Option Bytes → Rc × Option Item
  add_name parent name none = (fail sys_einval, parent)
  add_name parent name (some valstr) = (success, add_string_to_object parent name (some valstr))

  unfoldable pub add_addr_type : HostConsts → Option Item → String → ℕ → Rc × Option Item
  unfolding add_name addr_type_rev_parse
  add_addr_type c parent name v = add_name parent name (addr_type_rev_parse c (pos v))

  unfoldable pub add_adv_event_type : HostConsts → Option Item → String → ℕ → Rc × Option Item
  unfolding add_name adv_event_type_rev_parse
  add_adv_event_type c parent name v = add_name parent name (adv_event_type_rev_parse c (pos v))

  unfoldable pub add_gatt_access_op : HostConsts → Option Item → String → ℕ → Rc × Option Item
  unfolding add_name gatt_access_op_rev_parse
  add_gatt_access_op c parent name v = add_name parent name (gatt_access_op_rev_parse c (pos v))

  unfoldable pub add_sm_passkey_action : HostConsts → Option Item → String → ℕ → Rc × Option Item
  unfolding add_name sm_passkey_action_rev_parse
  add_sm_passkey_action c parent name v =
      add_name parent name (sm_passkey_action_rev_parse c (pos v))

  -- The loop of `bhd_json_add_gen_arr`, with `arr` as far as it is filled.
  unfoldable pub fill_arr : {A : Type 0} → (A → Option Item) → Option Item → List A → Option Item
  fill_arr create_cb arr [] = arr
  fill_arr create_cb arr (v ∷ vals) = fill_arr create_cb (add_item_to_array arr (create_cb v)) vals

  unfoldable pub add_gen_arr :
      {A : Type 0} → Option Item → String → List A → (A → Option Item) → Option Item
  unfolding fill_arr
  add_gen_arr parent name vals create_cb =
      add_item_to_object parent name (fill_arr create_cb create_array vals)

  unfoldable pub create_uuid : HostText → Uuid → Option Item
  create_uuid host (uuid16 n) = create_number (pos n)
  create_uuid host (uuid32 n) = create_number (pos n)
  create_uuid host (uuid128 value) = create_string (some (host.uuid_to_str (uuid128 value)))

  unfoldable pub create_uuid128_bytes : HostText → Bytes → Option Item
  unfolding create_uuid
  create_uuid128_bytes host uuid128_bytes = create_uuid host (uuid128 uuid128_bytes)

  unfoldable pub add_uuid : HostText → Option Item → String → Uuid → Option Item
  unfolding create_uuid
  add_uuid host parent name uuid = add_item_to_object parent name (create_uuid host uuid)

  -- `bhd_msg_hdr_enc`, built without the counter of frames.
  unfoldable pub msg_hdr_enc : Option Item → MsgHdr → Option Item
  unfolding add_int op_rev_parse type_rev_parse
  msg_hdr_enc parent hdr =
      let with_op = add_string_to_object parent "op" (op_rev_parse hdr.op) in
      let with_type = add_string_to_object with_op "type" (type_rev_parse hdr.type) in
      add_int with_type "seq" (pos hdr.seq)
