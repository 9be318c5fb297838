-- ===== src/Req/Bounds/GattCalls.antt =====
-- That the handlers for GATT and the security manager make their calls with requests in range.
use blehostd.Prelude.{◌+◌, ◌≡◌, ◌≤◌, arith, inl, inr}
use blehostd.Prelude.Int.{pos}
use blehostd.Status.{Result-cases}
use blehostd.Json.{json_int_bounds}
use blehostd.Cjson.{Cjson}
use blehostd.Proto.Maps.{HostConsts}
use blehostd.Req.Outcome.{accepted, u16, HostSizes}
use blehostd.Req.Types.{Call}
use blehostd.Req.Gatt
use blehostd.Req.Bounds.{
  number_at, IsInRange, AtMost, IsWhole, u16_below, u8_below, u16_is, u8_is, hex_below,
}

module _ (J : Cjson) (sizes : HostSizes) (c : HostConsts) where
  open J use {Item, parse}

  pub write-IsInRange :
      (parent : Item) (call : Call)
      → Gatt.write_req_run J sizes c parent ≡ accepted call
      → IsInRange J sizes parent call
  unfolding Gatt.write_req_run IsInRange
  write-IsInRange parent call h = ground (
    arith,
    u16_below J parent "conn_handle" 0xffff (omega arith),
    u16_is J parent "conn_handle",
    u16_below J parent "attr_handle" 0xffff (omega arith),
    u16_is J parent "attr_handle",
    hex_below J parent "data" (sizes.att_attr_max_len + 3),
  )

  pub write_cmd-IsInRange :
      (parent : Item) (call : Call)
      → Gatt.write_cmd_req_run J sizes c parent ≡ accepted call
      → IsInRange J sizes parent call
  unfolding Gatt.write_cmd_req_run IsInRange
  write_cmd-IsInRange parent call h = ground (
    arith,
    u16_below J parent "conn_handle" 0xffff (omega arith),
    u16_is J parent "conn_handle",
    u16_below J parent "attr_handle" 0xffff (omega arith),
    u16_is J parent "attr_handle",
    hex_below J parent "data" (sizes.att_attr_max_len + 3),
  )

  pub notify-IsInRange :
      (parent : Item) (call : Call)
      → Gatt.notify_req_run J sizes c parent ≡ accepted call
      → IsInRange J sizes parent call
  unfolding Gatt.notify_req_run IsInRange
  notify-IsInRange parent call h = ground (
    arith,
    u16_below J parent "conn_handle" 0xffff (omega arith),
    u16_is J parent "conn_handle",
    u16_below J parent "attr_handle" 0xffff (omega arith),
    u16_is J parent "attr_handle",
    hex_below J parent "data" (sizes.att_attr_max_len + 3),
  )

  pub access_status-IsInRange :
      (parent : Item) (call : Call)
      → Gatt.access_status_req_run J sizes c parent ≡ accepted call
      → IsInRange J sizes parent call
  unfolding Gatt.access_status_req_run IsInRange AtMost
  access_status-IsInRange parent call h = ground (
    arith,
    u8_below J parent "att_status" 0xff (omega arith),
    u8_is J parent "att_status",
    hex_below J parent "data" sizes.att_attr_max_len,
  )

  pub sm_inject_io-IsInRange :
      (parent : Item) (call : Call)
      → Gatt.sm_inject_io_req_run J sizes c parent ≡ accepted call
      → IsInRange J sizes parent call
  unfolding Gatt.sm_inject_io_req_run IsInRange IsWhole
  sm_inject_io-IsInRange parent call h =
      elim (Result-cases (json_int_bounds J parent "conn_handle" (pos 0) (pos 0xffff))) [
        | inl failed ↦ absurd (ground arith)
        | inr (handle, read) ↦
            let same : number_at J parent "conn_handle" ≡ pos (u16 handle) =
              ground (arith, read, u16_is J parent "conn_handle") in
            let below : u16 handle ≤ 0xffff =
              ground (arith, read, u16_below J parent "conn_handle" 0xffff (omega arith)) in
            ground (arith, read, same, below)
      ]
