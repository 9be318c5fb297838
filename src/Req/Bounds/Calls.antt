-- ===== src/Req/Bounds/Calls.antt =====
-- That every call of `bhd_req_dec` has a request in range.
use blehostd.Prelude.{◌≡◌, Bytes, arith, some}
use blehostd.Cjson.{Cjson}
use blehostd.Proto.Maps.{HostConsts}
use blehostd.Req.Outcome.{accepted, HostSizes}
use blehostd.Req.Types.{Call}
use blehostd.Req.Gap
use blehostd.Req.Gatt
use blehostd.Req.Bounds.{IsInRange}
use blehostd.Req.Dispatch
use blehostd.Req.Dispatch.{ReqRun}
use blehostd.Req.Run.{MsgHdr, call_rsp, req_cb, req_dec}
use blehostd.Req.CallTypes.{req_dec-req_cb}
use blehostd.Req.Bounds.AdvCalls.{adv_fields-IsInRange}
use blehostd.Req.Bounds.GapCalls.{
  connect-IsInRange, terminate-IsInRange, set_rand_addr-IsInRange, scan-IsInRange,
  adv_start-IsInRange, adv_set_data-IsInRange, adv_rsp_set_data-IsInRange,
}
use blehostd.Req.Bounds.GattCalls.{
  write-IsInRange, write_cmd-IsInRange, notify-IsInRange, access_status-IsInRange,
  sm_inject_io-IsInRange,
}

module _ (J : Cjson) (sizes : HostSizes) (c : HostConsts) where
  open J use {Item, parse}

  req_cb-IsInRange :
      (cb : ReqRun) (root : Item) (call : Call)
      → req_cb J sizes c cb root ≡ accepted call
      → IsInRange J sizes root call
  unfolding req_cb
  req_cb-IsInRange Dispatch.sync_run root call h = unfold IsInRange in ground arith
  req_cb-IsInRange Dispatch.connect_run root call h = connect-IsInRange J sizes c root call h
  req_cb-IsInRange Dispatch.terminate_run root call h = terminate-IsInRange J sizes c root call h
  req_cb-IsInRange Dispatch.disc_all_svcs_run root call h =
      unfold Gatt.disc_all_svcs_req_run IsInRange in ground arith
  req_cb-IsInRange Dispatch.disc_svc_uuid_run root call h =
      unfold Gatt.disc_svc_uuid_req_run IsInRange in ground arith
  req_cb-IsInRange Dispatch.disc_all_chrs_run root call h =
      unfold Gatt.disc_all_chrs_req_run IsInRange in ground arith
  req_cb-IsInRange Dispatch.disc_chr_uuid_run root call h =
      unfold Gatt.disc_chr_uuid_req_run IsInRange in ground arith
  req_cb-IsInRange Dispatch.disc_all_dscs_run root call h =
      unfold Gatt.disc_all_dscs_req_run IsInRange in ground arith
  req_cb-IsInRange Dispatch.write_run root call h = write-IsInRange J sizes c root call h
  req_cb-IsInRange Dispatch.write_cmd_run root call h = write_cmd-IsInRange J sizes c root call h
  req_cb-IsInRange Dispatch.exchange_mtu_run root call h =
      unfold Gatt.exchange_mtu_req_run IsInRange in ground arith
  req_cb-IsInRange Dispatch.gen_rand_addr_run root call h =
      unfold Gap.gen_rand_addr_req_run IsInRange in ground arith
  req_cb-IsInRange Dispatch.set_rand_addr_run root call h =
      set_rand_addr-IsInRange J sizes c root call h
  req_cb-IsInRange Dispatch.conn_cancel_run root call h = unfold IsInRange in ground arith
  req_cb-IsInRange Dispatch.scan_run root call h = scan-IsInRange J sizes c root call h
  req_cb-IsInRange Dispatch.scan_cancel_run root call h = unfold IsInRange in ground arith
  req_cb-IsInRange Dispatch.set_preferred_mtu_run root call h =
      unfold Gatt.set_preferred_mtu_req_run IsInRange in ground arith
  req_cb-IsInRange Dispatch.security_initiate_run root call h =
      unfold Gap.security_initiate_req_run IsInRange in ground arith
  req_cb-IsInRange Dispatch.conn_find_run root call h =
      unfold Gap.conn_find_req_run IsInRange in ground arith
  req_cb-IsInRange Dispatch.reset_run root call h = unfold IsInRange in ground arith
  req_cb-IsInRange Dispatch.adv_start_run root call h = adv_start-IsInRange J sizes c root call h
  req_cb-IsInRange Dispatch.adv_stop_run root call h = unfold IsInRange in ground arith
  req_cb-IsInRange Dispatch.adv_set_data_run root call h =
      adv_set_data-IsInRange J sizes c root call h
  req_cb-IsInRange Dispatch.adv_rsp_set_data_run root call h =
      adv_rsp_set_data-IsInRange J sizes c root call h
  req_cb-IsInRange Dispatch.adv_fields_run root call h = adv_fields-IsInRange J sizes root call h
  req_cb-IsInRange Dispatch.clear_svcs_run root call h = unfold IsInRange in ground arith
  req_cb-IsInRange Dispatch.add_svcs_run root call h =
      unfold Gatt.add_svcs_req_run IsInRange in ground arith
  req_cb-IsInRange Dispatch.commit_svcs_run root call h = unfold IsInRange in ground arith
  req_cb-IsInRange Dispatch.access_status_run root call h =
      access_status-IsInRange J sizes c root call h
  req_cb-IsInRange Dispatch.notify_run root call h = notify-IsInRange J sizes c root call h
  req_cb-IsInRange Dispatch.find_chr_run root call h =
      unfold Gatt.find_chr_req_run IsInRange in ground arith
  req_cb-IsInRange Dispatch.sm_inject_io_run root call h =
      sm_inject_io-IsInRange J sizes c root call h

  -- Where `bhd_req_dec` makes a call, the text is JSON, and the request that it passes is in range. The address of
  -- connect, adv_start and set_rand_addr has six bytes. The duration of connect, scan and adv_start lies between 0
  -- and INT32_MAX. The intervals, windows, latency, timeout and lengths of connect and the intervals of adv_start are at most
  -- 0x7fff, and the channel map is at most 0x7f. In terminate, write, write_cmd, notify, scan, access_status and
  -- sm_inject_io, each handle, reason, status, interval and window is the number that the object has under its name, so
  -- that the conversion cuts nothing off. The data of write, write_cmd, notify, access_status, adv_set_data and
  -- adv_rsp_set_data, and the name, the service data, the URI and the manufacturer data of adv_fields, are not longer
  -- than the buffers or arrays that they are written to, and out-of-band data have 16 bytes. It says nothing of other
  -- fields and calls.
  pub req_dec-IsInRange :
      (json : Bytes) (out : MsgHdr) (call : Call)
      → req_dec J sizes c json ≡ call_rsp out call
      → (root : Item) × (parse json ≡ some root) × IsInRange J sizes root call
  req_dec-IsInRange json out call h =
      let (cb, root, run, parsed) = req_dec-req_cb J sizes c json out call h in
      (root, parsed, req_cb-IsInRange cb root call run)
