-- ===== src/Gap/Calls.antt =====
-- The calls of the host in apps/blehostd/src/bhd_gap.c, bhd_id.c and bhd_sm.c, and the other events of
-- bhd_util.c. A status of the host is written to the response.
use blehostd.Prelude.{ℕ, Bool, Option, none, some, [], ◌∷◌, Bytes, if◌then◌else◌, ◌||◌}
use blehostd.Prelude.Int.{ℤ, pos, eqz}
use blehostd.Proto.Maps.{HostConsts}
use blehostd.Proto.Numbers.{op_evt, type_sync_evt, type_reset_evt, type_access_evt}
use blehostd.Req.Types.{
  Addr, ConnectReq, TerminateReq, ScanReq, AdvStartReq, SmInput, oob_data, passkey, numcmp_accept,
  SmInjectIoReq,
}
use blehostd.Enc.{BleAddr}
use blehostd.Enc.Rsp.{RspBody, status_rsp, conn_find_rsp, gen_rand_addr_rsp}
use blehostd.Enc.Evt.{sync_evt, reset_evt, AccessEvt, access_evt}
use blehostd.Enc.Send.{Evt}

-- `struct ble_gap_conn_params`, `struct ble_gap_disc_params` and `struct ble_gap_adv_params` of the host.
pub record ConnParams : Type 0 where
  pub scan_itvl : ℕ
  pub scan_window : ℕ
  pub itvl_min : ℕ
  pub itvl_max : ℕ
  pub latency : ℕ
  pub supervision_timeout : ℕ
  pub min_ce_len : ℕ
  pub max_ce_len : ℕ

pub record DiscParams : Type 0 where
  pub itvl : ℕ
  pub window : ℕ
  pub filter_policy : ℕ
  pub limited : Bool
  pub passive : Bool
  pub filter_duplicates : Bool

pub record AdvParams : Type 0 where
  pub conn_mode : ℕ
  pub disc_mode : ℕ
  pub itvl_min : ℕ
  pub itvl_max : ℕ
  pub channel_map : ℕ
  pub filter_policy : ℕ
  pub high_duty_cycle : Bool

-- `struct ble_gap_conn_desc` of the host, with the fields of `sec_state`.
pub record FullDesc : Type 0 where
  pub conn_itvl : ℕ
  pub conn_latency : ℕ
  pub supervision_timeout : ℕ
  pub role : ℕ
  pub master_clock_accuracy : ℕ
  pub our_id_addr : BleAddr
  pub peer_id_addr : BleAddr
  pub our_ota_addr : BleAddr
  pub peer_ota_addr : BleAddr
  pub encrypted : ℕ
  pub authenticated : ℕ
  pub bonded : ℕ
  pub key_size : ℕ

-- `struct ble_sm_io` of the host: the action and the member that was written.
pub record SmIo : Type 0 where
  pub action : ℕ
  pub input : SmInput

-- The functions of the host, by what they return; the last argument of three of them is the sequence number
-- that the callback gets. `hs_einval` is BLE_HS_EINVAL.
pub record CallHost : Type 0 where
  pub gap_connect : ℤ → Addr → ℤ → ConnParams → ℕ → ℤ
  pub gap_terminate : ℕ → ℕ → ℤ
  pub gap_conn_cancel : ℤ
  pub gap_disc : ℕ → ℤ → DiscParams → ℕ → ℤ
  pub gap_disc_cancel : ℤ
  pub gap_security_initiate : ℕ → ℤ
  -- the status and what is written to `desc`
  pub gap_conn_find : ℕ → ℤ × FullDesc
  pub gap_adv_start : ℕ → Addr → ℤ → AdvParams → ℕ → ℤ
  pub gap_adv_stop : ℤ
  pub gap_adv_set_data : Bytes → ℤ
  pub gap_adv_rsp_set_data : Bytes → ℤ
  pub hs_id_gen_rnd : Bool → ℤ × Bytes
  pub hs_id_set_rnd : Bytes → ℤ
  pub hs_synced : ℤ
  pub sm_inject_io : ℕ → SmIo → ℤ
  pub hs_einval : ℤ

abbrev pub zero_addr : BleAddr
zero_addr = record { type = 0; val = 0 ∷ 0 ∷ 0 ∷ 0 ∷ 0 ∷ 0 ∷ [] }

module _ (host : CallHost) where
  unfoldable pub gap_conn_initiate : ℕ → ConnectReq → ℤ
  gap_conn_initiate seq req =
      host.gap_connect req.own_addr_type req.peer_addr req.duration_ms
        (record {
          scan_itvl = req.scan_itvl;
          scan_window = req.scan_window;
          itvl_min = req.itvl_min;
          itvl_max = req.itvl_max;
          latency = req.latency;
          supervision_timeout = req.supervision_timeout;
          min_ce_len = req.min_ce_len;
          max_ce_len = req.max_ce_len;
        })
        seq

  unfoldable pub gap_connect : ℕ → ConnectReq → RspBody
  unfolding gap_conn_initiate
  gap_connect seq req = status_rsp (gap_conn_initiate seq req)

  unfoldable pub gap_terminate : TerminateReq → RspBody
  gap_terminate req = status_rsp (host.gap_terminate req.conn_handle req.hci_reason)

  unfoldable pub gap_conn_cancel : RspBody
  gap_conn_cancel = status_rsp host.gap_conn_cancel

  unfoldable pub gap_scan : ℕ → ScanReq → RspBody
  gap_scan seq req = status_rsp (
      host.gap_disc req.own_addr_type req.duration_ms
        (record {
          itvl = req.itvl;
          window = req.window;
          filter_policy = req.filter_policy;
          limited = req.limited;
          passive = req.passive;
          filter_duplicates = req.filter_duplicates;
        })
        seq)

  unfoldable pub gap_scan_cancel : RspBody
  gap_scan_cancel = status_rsp host.gap_disc_cancel

  unfoldable pub gap_security_initiate : ℕ → RspBody
  gap_security_initiate conn_handle = status_rsp (host.gap_security_initiate conn_handle)

  -- Where the host finds nothing, the response is as `blehostd_process_req` initialised it, but for the
  -- status.
  unfoldable pub gap_conn_find : ℕ → RspBody
  gap_conn_find conn_handle =
      let (status, desc) = host.gap_conn_find conn_handle in
      if eqz status (pos 0)
      then conn_find_rsp (record {
        status = status;
        conn_handle = conn_handle;
        conn_itvl = desc.conn_itvl;
        conn_latency = desc.conn_latency;
        supervision_timeout = desc.supervision_timeout;
        role = desc.role;
        master_clock_accuracy = desc.master_clock_accuracy;
        our_id_addr = desc.our_id_addr;
        peer_id_addr = desc.peer_id_addr;
        our_ota_addr = desc.our_ota_addr;
        peer_ota_addr = desc.peer_ota_addr;
        encrypted = desc.encrypted;
        authenticated = desc.authenticated;
        bonded = desc.bonded;
        key_size = desc.key_size;
      })
      else conn_find_rsp (record {
        status = status;
        conn_handle = 0;
        conn_itvl = 0;
        conn_latency = 0;
        supervision_timeout = 0;
        role = 0;
        master_clock_accuracy = 0;
        our_id_addr = zero_addr;
        peer_id_addr = zero_addr;
        our_ota_addr = zero_addr;
        peer_ota_addr = zero_addr;
        encrypted = 0;
        authenticated = 0;
        bonded = 0;
        key_size = 0;
      })

  unfoldable pub gap_adv_start : ℕ → AdvStartReq → RspBody
  gap_adv_start seq req = status_rsp (
      host.gap_adv_start req.own_addr_type req.peer_addr req.duration_ms
        (record {
          conn_mode = req.conn_mode;
          disc_mode = req.disc_mode;
          itvl_min = req.itvl_min;
          itvl_max = req.itvl_max;
          channel_map = req.channel_map;
          filter_policy = req.filter_policy;
          high_duty_cycle = req.high_duty_cycle;
        })
        seq)

  unfoldable pub gap_adv_stop : RspBody
  gap_adv_stop = status_rsp host.gap_adv_stop

  unfoldable pub gap_adv_set_data : Bytes → RspBody
  gap_adv_set_data bytes = status_rsp (host.gap_adv_set_data bytes)

  unfoldable pub gap_adv_rsp_set_data : Bytes → RspBody
  gap_adv_rsp_set_data bytes = status_rsp (host.gap_adv_rsp_set_data bytes)

  unfoldable pub id_gen_rand_addr : Bool → RspBody
  id_gen_rand_addr nrpa =
      let (rc, addr) = host.hs_id_gen_rnd nrpa in
      gen_rand_addr_rsp rc (if eqz rc (pos 0) then addr else zero_addr.val)

  unfoldable pub id_set_rand_addr : Bytes → RspBody
  id_set_rand_addr addr = status_rsp (host.hs_id_set_rnd addr)

  -- The member of the request that the action selects; `none` stands for a read of another one.
  unfoldable pub sm_io : HostConsts → SmInjectIoReq → Option SmIo
  sm_io c req = elim req.input [
    | oob_data bytes ↦
        if eqz (pos req.action) c.sm_ioact_oob
        then some (record { action = req.action; input = oob_data bytes })
        else none
    | passkey n ↦
        if eqz (pos req.action) c.sm_ioact_input || eqz (pos req.action) c.sm_ioact_disp
        then some (record { action = req.action; input = passkey n })
        else none
    | numcmp_accept b ↦
        if eqz (pos req.action) c.sm_ioact_numcmp
        then some (record { action = req.action; input = numcmp_accept b })
        else none
  ]

  unfoldable pub is_sm_action : HostConsts → ℕ → Bool
  is_sm_action c action =
      eqz (pos action) c.sm_ioact_oob
      || eqz (pos action) c.sm_ioact_input
      || eqz (pos action) c.sm_ioact_disp
      || eqz (pos action) c.sm_ioact_numcmp

  -- The result is `none` where `sm_io` is, with an action of the four.
  unfoldable pub sm_inject_io : HostConsts → SmInjectIoReq → Option RspBody
  unfolding sm_io is_sm_action
  sm_inject_io c req =
      if is_sm_action c req.action
      then elim (sm_io c req) [
        | none ↦ none
        | some io ↦ some (status_rsp (host.sm_inject_io req.conn_handle io))
      ]
      else some (status_rsp host.hs_einval)

  -- `bhd_send_sync_evt` and its siblings: the event that they give to `bhd_evt_send`.
  unfoldable pub send_sync_evt : ℕ → Evt
  send_sync_evt seq = record {
    hdr = record { op = op_evt; type = type_sync_evt; seq = seq };
    body = sync_evt host.hs_synced;
  }

unfoldable pub send_reset_evt : ℕ → ℤ → Evt
send_reset_evt seq reason = record {
  hdr = record { op = op_evt; type = type_reset_evt; seq = seq };
  body = reset_evt reason;
}

unfoldable pub send_access_evt : ℕ → AccessEvt → Evt
send_access_evt seq access = record {
  hdr = record { op = op_evt; type = type_access_evt; seq = seq };
  body = access_evt access;
}
