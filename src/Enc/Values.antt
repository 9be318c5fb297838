-- ===== src/Enc/Values.antt =====
-- Bytes and addresses in messages are read back by the readers of requests.
use blehostd.Prelude.{ℕ, ◌+◌, ◌*◌, ◌≤◌, ◌≡◌, none, some, String, Bytes, All, IsByte, length, arith}
use blehostd.Cjson.{Cjson, cjson_string}
use blehostd.Writer.{Writer, IsFaithful}
use blehostd.Status.{ok}
use blehostd.Hex.{hex_str, addr_str}
use blehostd.Parse.RoundTrip.{parse_arg_byte_stream-hex_str, parse_arg_mac-addr_str}
use blehostd.Json.{
  json_hex_string, json_addr, json_item, process_json_hex_string, process_json_addr,
  process_json_string,
}
use blehostd.Enc.{create_byte_string, add_bytes, create_addr, add_addr}

module _ {J : Cjson} {W : Writer J} (faithful : IsFaithful W) where
  open J use {Item, get_object_item}

  -- A text that is added under a new name is found there.
  text_member :
      (object : Item) (name : String) (s : Bytes)
      → get_object_item object name ≡ none
      → (object' : Item) × (item : Item) × (W.add_item_to_object
            (some object)
            name
            (W.create_string (some s))
          ≡ some object')
        × (get_object_item object' name ≡ some item)
        × (J.type_of item ≡ cjson_string)
        × (J.value_string item ≡ s)
  text_member object name s absent =
      let (item, e, type, value) = faithful.create_string-some s in
      let (object', f) = faithful.add_item-some object name (some item) in
      (
        object',
        item,
        rw e f,
        ground (arith, f, faithful.add_item-new object item name absent),
        type,
        value,
      )

  -- A byte string that `bhd_json_add_bytes` adds to an object under a new name is the byte string that
  -- `bhd_json_hex_string` reads there, for any buffer that is long enough.
  pub json_hex_string-add_bytes :
      (object : Item) (name : String) (bytes : Bytes) (max_len : ℕ)
      → get_object_item object name ≡ none
      → length bytes ≤ max_len
      → All IsByte bytes
      → (object' : Item) × (add_bytes W (some object) name bytes ≡ some object')
        × (json_hex_string J object' name max_len ≡ ok bytes)
  unfolding add_bytes create_byte_string json_hex_string json_item process_json_hex_string
      process_json_string
  json_hex_string-add_bytes object name bytes max_len absent fits valid =
      let n = length bytes * 5 + 1 in
      let back = parse_arg_byte_stream-hex_str n max_len bytes (omega arith) fits valid in
      let (object', item, e, there, type, value) =
        text_member object name (hex_str n bytes).0 absent in
      (object', e, ground (arith, there, type, value, back))

  -- An address of six bytes that `bhd_json_add_addr` adds to an object under a new name is the address
  -- that `bhd_json_addr` reads there.
  pub json_addr-add_addr :
      (object : Item) (name : String) (addr : Bytes)
      → get_object_item object name ≡ none
      → length addr ≡ 6
      → All IsByte addr
      → (object' : Item) × (add_addr W (some object) name addr ≡ some object')
        × (json_addr J object' name ≡ ok addr)
  unfolding add_addr create_addr json_addr json_item process_json_addr process_json_string
  json_addr-add_addr object name addr absent six valid =
      let back = parse_arg_mac-addr_str addr six valid in
      let (object', item, e, there, type, value) = text_member object name (addr_str addr) absent in
      (object', e, ground (arith, there, type, value, back))
