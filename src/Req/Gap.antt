-- ===== src/Req/Gap.antt =====
-- The handlers of apps/blehostd/src/bhd_proto.c for connections, scans and advertisements.
use blehostd.Prelude.{[], ◌∷◌}
use blehostd.Prelude.Int.{ℤ, pos}
use blehostd.Status.{sys_enoent, Result, ok, err}
use blehostd.Cjson.{Cjson}
use blehostd.Json.{json_int_bounds, json_bool, json_addr, json_kv, json_hex_string}
use blehostd.Proto.Maps.{
  HostConsts, addr_type_parse, scan_filter_policy_parse, adv_conn_mode_parse, adv_disc_mode_parse,
  adv_filter_policy_parse,
}
use blehostd.Req.Outcome.{
  build, fill, fill_returned, Outcome, accepted, rejected, ◌>>=◌, or_reject, u8, u16, HostSizes,
}
use blehostd.Req.Types.{
  Addr, ConnectReq, Call, gap_connect, gap_terminate, gap_scan, gap_security_initiate,
  gap_conn_find, gap_adv_start, gap_adv_set_data, gap_adv_rsp_set_data, id_gen_rand_addr,
  id_set_rand_addr,
}

abbrev int16_max : ℤ
int16_max = pos 0x7fff

abbrev uint16_max : ℤ
uint16_max = pos 0xffff

abbrev int32_max : ℤ
int32_max = pos 0x7fff_ffff

module _ (J : Cjson) (sizes : HostSizes) (c : HostConsts) where
  open J use {Item}

  -- The fields from `scan_itvl` on, written to the request.
  unfoldable pub connect_intervals : Item → ConnectReq → Outcome ConnectReq
  connect_intervals parent req = do
    scan_itvl ←
        or_reject build (json_int_bounds J parent "scan_itvl" (pos 0) int16_max) "invalid scan_itvl"
    scan_window ←
        or_reject build (json_int_bounds J parent "scan_window" (pos 0) int16_max)
          "invalid scan_window"
    itvl_min ←
        or_reject build (json_int_bounds J parent "itvl_min" (pos 0) int16_max) "invalid itvl_min"
    itvl_max ←
        or_reject build (json_int_bounds J parent "itvl_max" (pos 0) int16_max) "invalid itvl_max"
    latency ←
        or_reject build (json_int_bounds J parent "latency" (pos 0) int16_max) "invalid latency"
    supervision_timeout ←
        or_reject build (json_int_bounds J parent "supervision_timeout" (pos 0) int16_max)
          "invalid supervision_timeout"
    min_ce_len ←
        or_reject build (json_int_bounds J parent "min_ce_len" (pos 0) int16_max)
          "invalid min_ce_len"
    max_ce_len ←
        or_reject build (json_int_bounds J parent "max_ce_len" (pos 0) int16_max)
          "invalid max_ce_len"
    accepted (record req {
      scan_itvl = u16 scan_itvl;
      scan_window = u16 scan_window;
      itvl_min = u16 itvl_min;
      itvl_max = u16 itvl_max;
      latency = u16 latency;
      supervision_timeout = u16 supervision_timeout;
      min_ce_len = u16 min_ce_len;
      max_ce_len = u16 max_ce_len;
    })

  unfoldable pub connect_req_run : Item → Outcome Call
  connect_req_run parent = do
    own_addr_type ←
        or_reject build (json_kv J (addr_type_parse c) parent "own_addr_type")
          "invalid own_addr_type"
    peer_addr_type ←
        or_reject build (json_kv J (addr_type_parse c) parent "peer_addr_type")
          "invalid peer_addr_type"
    peer_addr ← or_reject build (json_addr J parent "peer_addr") "invalid peer_addr"
    duration_ms ←
        or_reject build (json_int_bounds J parent "duration_ms" (pos 0) int32_max)
          "invalid duration_ms"
    req ← connect_intervals parent (record {
      own_addr_type = own_addr_type;
      peer_addr = record { type = u8 peer_addr_type; val = peer_addr };
      duration_ms = duration_ms;
      scan_itvl = 0;
      scan_window = 0;
      itvl_min = 0;
      itvl_max = 0;
      latency = 0;
      supervision_timeout = 0;
      min_ce_len = 0;
      max_ce_len = 0;
    })
    accepted (gap_connect req)

  unfoldable pub terminate_req_run : Item → Outcome Call
  terminate_req_run parent = do
    conn_handle ←
        or_reject fill (json_int_bounds J parent "conn_handle" (pos 0) (pos 0xffff))
          "invalid conn_handle"
    hci_reason ←
        or_reject fill (json_int_bounds J parent "hci_reason" (pos 0) (pos 0xff))
          "invalid hci_reason"
    accepted (gap_terminate (record { conn_handle = u16 conn_handle; hci_reason = u8 hci_reason }))

  unfoldable pub gen_rand_addr_req_run : Item → Outcome Call
  gen_rand_addr_req_run parent = do
    nrpa ← or_reject fill_returned (json_bool J parent "nrpa") "invalid nrpa value"
    accepted (id_gen_rand_addr nrpa)

  unfoldable pub set_rand_addr_req_run : Item → Outcome Call
  set_rand_addr_req_run parent = do
    addr ← or_reject fill_returned (json_addr J parent "addr") "invalid address"
    accepted (id_set_rand_addr addr)

  unfoldable pub scan_req_run : Item → Outcome Call
  scan_req_run parent = do
    own_addr_type ←
        or_reject build (json_kv J (addr_type_parse c) parent "own_addr_type")
          "invalid own_addr_type"
    duration_ms ←
        or_reject build (json_int_bounds J parent "duration_ms" (pos 0) int32_max)
          "invalid duration_ms"
    itvl ← or_reject build (json_int_bounds J parent "itvl" (pos 0) uint16_max) "invalid itvl"
    window ← or_reject build (json_int_bounds J parent "window" (pos 0) uint16_max) "invalid window"
    filter_policy ←
        or_reject build (json_kv J (scan_filter_policy_parse c) parent "filter_policy")
          "invalid filter_policy"
    limited ← or_reject build (json_bool J parent "limited") "invalid limited"
    passive ← or_reject build (json_bool J parent "passive") "invalid passive"
    filter_duplicates ←
        or_reject build (json_bool J parent "filter_duplicates") "invalid filter_duplicates"
    accepted (
        gap_scan (record {
          own_addr_type = u8 own_addr_type;
          duration_ms = duration_ms;
          itvl = u16 itvl;
          window = u16 window;
          filter_policy = u8 filter_policy;
          limited = limited;
          passive = passive;
          filter_duplicates = filter_duplicates;
        }))

  unfoldable pub security_initiate_req_run : Item → Outcome Call
  security_initiate_req_run parent = do
    conn_handle ←
        or_reject build (json_int_bounds J parent "conn_handle" (pos 0) uint16_max)
          "invalid conn_handle"
    accepted (gap_security_initiate (u16 conn_handle))

  unfoldable pub conn_find_req_run : Item → Outcome Call
  conn_find_req_run parent = do
    conn_handle ←
        or_reject build (json_int_bounds J parent "conn_handle" (pos 0) uint16_max)
          "invalid conn_handle"
    accepted (gap_conn_find (u16 conn_handle))

  -- The `switch (rc)`: with no `peer_addr_type`, the address stays zero.
  unfoldable pub adv_peer_addr : Item → Result ℤ → Outcome Addr
  adv_peer_addr parent (ok addr_type) = do
    val ← or_reject build (json_addr J parent "peer_addr") "invalid peer_addr"
    accepted (record { type = u8 addr_type; val = val })
  adv_peer_addr parent (err sys_enoent) =
      accepted (record { type = 0; val = 0 ∷ 0 ∷ 0 ∷ 0 ∷ 0 ∷ 0 ∷ [] })
  adv_peer_addr parent (err e) = rejected build e "invalid peer_addr_type"

  unfoldable pub adv_start_req_run : Item → Outcome Call
  unfolding adv_peer_addr
  adv_start_req_run parent = do
    own_addr_type ←
        or_reject build (json_kv J (addr_type_parse c) parent "own_addr_type")
          "invalid own_addr_type"
    peer_addr ← adv_peer_addr parent (json_kv J (addr_type_parse c) parent "peer_addr_type")
    duration_ms ←
        or_reject build (json_int_bounds J parent "duration_ms" (pos 0) int32_max)
          "invalid duration_ms"
    conn_mode ←
        or_reject build (json_kv J (adv_conn_mode_parse c) parent "conn_mode") "invalid conn_mode"
    disc_mode ←
        or_reject build (json_kv J (adv_disc_mode_parse c) parent "disc_mode") "invalid disc_mode"
    itvl_min ←
        or_reject build (json_int_bounds J parent "itvl_min" (pos 0) int16_max) "invalid itvl_min"
    itvl_max ←
        or_reject build (json_int_bounds J parent "itvl_max" (pos 0) int16_max) "invalid itvl_max"
    channel_map ←
        or_reject build (json_int_bounds J parent "channel_map" (pos 0) (pos 0x7f))
          "invalid channel_map"
    filter_policy ←
        or_reject build (json_kv J (adv_filter_policy_parse c) parent "filter_policy")
          "invalid filter_policy"
    high_duty_cycle ←
        or_reject build (json_bool J parent "high_duty_cycle") "invalid high_duty_cycle"
    accepted (
        gap_adv_start (record {
          own_addr_type = u8 own_addr_type;
          peer_addr = peer_addr;
          duration_ms = duration_ms;
          conn_mode = u8 conn_mode;
          disc_mode = u8 disc_mode;
          itvl_min = u16 itvl_min;
          itvl_max = u16 itvl_max;
          channel_map = u8 channel_map;
          filter_policy = u8 filter_policy;
          high_duty_cycle = high_duty_cycle;
        }))

  unfoldable pub adv_set_data_req_run : Item → Outcome Call
  adv_set_data_req_run parent = do
    bytes ←
        or_reject fill_returned (json_hex_string J parent "data" sizes.hci_max_adv_data_len)
          "invalid data"
    accepted (gap_adv_set_data bytes)

  unfoldable pub adv_rsp_set_data_req_run : Item → Outcome Call
  adv_rsp_set_data_req_run parent = do
    bytes ←
        or_reject fill_returned (json_hex_string J parent "data" sizes.hci_max_adv_data_len)
          "invalid data"
    accepted (gap_adv_rsp_set_data bytes)
