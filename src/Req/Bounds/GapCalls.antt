-- ===== src/Req/Bounds/GapCalls.antt =====
-- That the handlers for connections, scans and advertisements make their calls with requests in range.
use blehostd.Prelude.{◌≤◌, ◌≡◌, inl, inr, Bytes, arith}
use blehostd.Prelude.Int.{ℤ, pos}
use blehostd.Status.{Result-cases}
use blehostd.Cjson.{Cjson}
use blehostd.Json.{json_kv, json_int_bounds, json_addr}
use blehostd.Proto.Maps.{HostConsts, addr_type_parse}
use blehostd.Req.Answers.{Outcome-cases}
use blehostd.Req.Outcome.{accepted, u8, HostSizes}
use blehostd.Req.Types
use blehostd.Req.Types.{Call}
use blehostd.Req.Gap
use blehostd.Req.Bounds.{
  IsInRange, u16_below, u8_below, u16_is, u8_is, between, hex_below, addr_six,
}

module _ (J : Cjson) (sizes : HostSizes) (c : HostConsts) where
  open J use {Item, parse}

  -- The lemma of a handler lists a bound for each member that it reads.
  connect_intervals_below :
      (parent : Item) (req out : Types.ConnectReq)
      → Gap.connect_intervals J sizes c parent req ≡ accepted out
      → (out.peer_addr ≡ req.peer_addr)
        × (out.duration_ms ≡ req.duration_ms)
        × (out.scan_itvl ≤ 0x7fff)
        × (out.scan_window ≤ 0x7fff)
        × (out.itvl_min ≤ 0x7fff)
        × (out.itvl_max ≤ 0x7fff)
        × (out.latency ≤ 0x7fff)
        × (out.supervision_timeout ≤ 0x7fff)
        × (out.min_ce_len ≤ 0x7fff)
        × (out.max_ce_len ≤ 0x7fff)
  unfolding Gap.connect_intervals
  connect_intervals_below parent req out h = ground (
    arith,
    u16_below J parent "scan_itvl" 0x7fff (omega arith),
    u16_below J parent "scan_window" 0x7fff (omega arith),
    u16_below J parent "itvl_min" 0x7fff (omega arith),
    u16_below J parent "itvl_max" 0x7fff (omega arith),
    u16_below J parent "latency" 0x7fff (omega arith),
    u16_below J parent "supervision_timeout" 0x7fff (omega arith),
    u16_below J parent "min_ce_len" 0x7fff (omega arith),
    u16_below J parent "max_ce_len" 0x7fff (omega arith),
  )

  abbrev begun : ℤ → ℤ → Bytes → ℤ → Types.ConnectReq
  begun own type addr duration = record {
    own_addr_type = own;
    peer_addr = record { type = u8 type; val = addr };
    duration_ms = duration;
    scan_itvl = 0;
    scan_window = 0;
    itvl_min = 0;
    itvl_max = 0;
    latency = 0;
    supervision_timeout = 0;
    min_ce_len = 0;
    max_ce_len = 0;
  }

  pub connect-IsInRange :
      (parent : Item) (call : Call)
      → Gap.connect_req_run J sizes c parent ≡ accepted call
      → IsInRange J sizes parent call
  unfolding Gap.connect_req_run IsInRange
  connect-IsInRange parent call h =
      elim (Result-cases (json_kv J (addr_type_parse c) parent "own_addr_type")) [
        | inl failed ↦ absurd (ground arith)
        | inr (own, e1) ↦
            elim (Result-cases (json_kv J (addr_type_parse c) parent "peer_addr_type")) [
              | inl failed ↦ absurd (ground arith)
              | inr (type, e2) ↦ elim (Result-cases (json_addr J parent "peer_addr")) [
                | inl failed ↦ absurd (ground arith)
                | inr (addr, e3) ↦
                    elim (Result-cases
                      (json_int_bounds J parent "duration_ms" (pos 0) (pos 0x7fff_ffff))) [
                        | inl failed ↦ absurd (ground arith)
                        | inr (duration, e4) ↦
                            let b = connect_intervals_below parent (begun own type addr duration) in
                            let six = addr_six J parent "peer_addr" in
                            let dur = between J parent "duration_ms" (pos 0) (pos 0x7fff_ffff) in
                            elim (Outcome-cases (
                              Gap.connect_intervals J sizes c parent
                                (begun own type addr duration))) [
                                  | inl (out, e5) ↦
                                      let b5 = b out e5 in
                                      ground (arith, six, dur, b5, e1, e2, e3, e4, e5)
                                  | inr failed ↦ absurd (ground arith)
                                ]
                      ]
              ]
            ]
      ]

  pub terminate-IsInRange :
      (parent : Item) (call : Call)
      → Gap.terminate_req_run J sizes c parent ≡ accepted call
      → IsInRange J sizes parent call
  unfolding Gap.terminate_req_run IsInRange
  terminate-IsInRange parent call h = ground (
    arith,
    u16_below J parent "conn_handle" 0xffff (omega arith),
    u16_is J parent "conn_handle",
    u8_below J parent "hci_reason" 0xff (omega arith),
    u8_is J parent "hci_reason",
  )

  pub set_rand_addr-IsInRange :
      (parent : Item) (call : Call)
      → Gap.set_rand_addr_req_run J sizes c parent ≡ accepted call
      → IsInRange J sizes parent call
  unfolding Gap.set_rand_addr_req_run IsInRange
  set_rand_addr-IsInRange parent call h = ground (arith, addr_six J parent "addr")

  pub scan-IsInRange :
      (parent : Item) (call : Call)
      → Gap.scan_req_run J sizes c parent ≡ accepted call
      → IsInRange J sizes parent call
  unfolding Gap.scan_req_run IsInRange
  scan-IsInRange parent call h = ground (
    arith,
    between J parent "duration_ms" (pos 0) (pos 0x7fff_ffff),
    u16_below J parent "itvl" 0xffff (omega arith),
    u16_is J parent "itvl",
    u16_below J parent "window" 0xffff (omega arith),
    u16_is J parent "window",
  )

  pub adv_start-IsInRange :
      (parent : Item) (call : Call)
      → Gap.adv_start_req_run J sizes c parent ≡ accepted call
      → IsInRange J sizes parent call
  unfolding Gap.adv_start_req_run IsInRange
  adv_start-IsInRange parent call h = ground (
    arith,
    addr_six J parent "peer_addr",
    between J parent "duration_ms" (pos 0) (pos 0x7fff_ffff),
    u16_below J parent "itvl_min" 0x7fff (omega arith),
    u16_below J parent "itvl_max" 0x7fff (omega arith),
    u8_below J parent "channel_map" 0x7f (omega arith),
  )

  pub adv_set_data-IsInRange :
      (parent : Item) (call : Call)
      → Gap.adv_set_data_req_run J sizes c parent ≡ accepted call
      → IsInRange J sizes parent call
  unfolding Gap.adv_set_data_req_run IsInRange
  adv_set_data-IsInRange parent call h =
      ground (arith, hex_below J parent "data" sizes.hci_max_adv_data_len)

  pub adv_rsp_set_data-IsInRange :
      (parent : Item) (call : Call)
      → Gap.adv_rsp_set_data_req_run J sizes c parent ≡ accepted call
      → IsInRange J sizes parent call
  unfolding Gap.adv_rsp_set_data_req_run IsInRange
  adv_rsp_set_data-IsInRange parent call h =
      ground (arith, hex_below J parent "data" sizes.hci_max_adv_data_len)
