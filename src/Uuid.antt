-- ===== src/Uuid.antt =====
-- `bhd_process_json_uuid` and `bhd_json_uuid` of apps/blehostd/src/bhd_util.c. The length that a text
-- must have at least, `BLE_UUID_STR_LEN`, is a macro of the host.
pub mod RoundTrip
pub mod InBounds
use blehostd.Prelude.{
  ℕ, ◌+◌, ◌-◌, ◌%◌, Bool, true, false, ◌||◌, not, Option, none, some, [], ◌∷◌, String, Bytes, ltb,
  leb, ◌==◌, if◌then◌else◌, streq, length,
}
use blehostd.Prelude.Int.{ℤ, pos, pos_part}
use blehostd.Status.{Error, sys_erange, overread, Result, ok, err, ◌>>=◌}
use blehostd.Libc.{strtoul}
use blehostd.Cjson.{Cjson}
use blehostd.Json.{process_json_int_bounds, process_json_string, json_item}

-- `ble_uuid_any_t`: a 128-bit UUID is 16 bytes, the least significant first.
pub data Uuid : Type 0 where
  uuid16 : ℕ → Uuid
  uuid32 : ℕ → Uuid
  uuid128 : Bytes → Uuid

-- The indices that must hold a dash.
unfoldable pub is_dash : ℕ → Bool
is_dash i = i == 8 || i == 13 || i == 18 || i == 23

-- The loop from the index `i` on. The text is `srcptr + i`, and `acc` is what was stored from
-- `dstptr + 1` on, since the destination is filled from its end. `overread` stands for a read past
-- the terminating NUL.
unfoldable pub uuid_loop : ℕ → Bytes → Bytes → Result Bytes
uuid_loop i [] acc = if leb 36 i then ok acc else err overread
uuid_loop i (c ∷ []) acc =
    if leb 36 i
    then ok acc
    else if is_dash i
    then (if not (c == b'-')
        then err sys_erange
        else if leb 36 (i + 1)
        then ok acc
        else err overread)
    else err overread
uuid_loop i (c ∷ d ∷ s) acc =
    let behind_dash = uuid_loop (i + 1) (d ∷ s) acc in
    let (ul, rest) = strtoul (c ∷ d ∷ []) in
    let behind_byte = uuid_loop (i + 2) s ((ul % 256) ∷ acc) in
    if leb 36 i
    then ok acc
    else if is_dash i
    then (if not (c == b'-') then err sys_erange else behind_dash)
    else (if not (streq rest []) then err sys_erange else behind_byte)

-- The second half of `bhd_process_json_uuid`, from `vallen = strlen(valstr)` on.
unfoldable pub process_uuid_string : ℕ → Bytes → Result Uuid
process_uuid_string uuid_str_len valstr =
    if ltb (length valstr) (uuid_str_len - 1)
    then err sys_erange
    else (uuid_loop 0 valstr [] >>= λ value. ok (uuid128 value))

module _ (J : Cjson) (uuid_str_len : ℕ) where
  open J use {Item}

  -- First a 16-bit UUID is tried, then a 128-bit one.
  unfoldable pub process_json_uuid : Item → Result Uuid
  unfolding process_json_int_bounds process_json_string
  process_json_uuid item = elim (process_json_int_bounds J item (pos 1) (pos 0xffff)) [
    | ok u16 ↦ ok (uuid16 (pos_part u16))
    | err _ ↦ process_json_string J item >>= process_uuid_string uuid_str_len
  ]

  unfoldable pub json_uuid : Item → String → Result Uuid
  unfolding json_item process_json_uuid
  json_uuid parent name = json_item J parent name >>= process_json_uuid
