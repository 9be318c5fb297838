-- ===== src/Enc/Rsp/Status.antt =====
-- The encoders of the responses that have a status only, in apps/blehostd/src/bhd_proto.c.
use blehostd.Prelude.{Option}
use blehostd.Cjson.{Cjson}
use blehostd.Writer.{Writer}
use blehostd.Proto.Maps.{HostConsts}
use blehostd.Enc.{HostText, add_int}
use blehostd.Enc.Rsp.Types.{RspBody, Encoded, encoded, status_of}

module _ {J : Cjson} (W : Writer J) (host : HostText) (c : HostConsts) where
  open J use {Item}

  unfoldable pub connect_rsp_enc : Option Item → RspBody → Encoded Item
  unfolding add_int status_of
  connect_rsp_enc parent rsp = encoded (add_int W parent "status" (status_of rsp))

  unfoldable pub terminate_rsp_enc : Option Item → RspBody → Encoded Item
  unfolding add_int status_of
  terminate_rsp_enc parent rsp = encoded (add_int W parent "status" (status_of rsp))

  unfoldable pub disc_all_svcs_rsp_enc : Option Item → RspBody → Encoded Item
  unfolding add_int status_of
  disc_all_svcs_rsp_enc parent rsp = encoded (add_int W parent "status" (status_of rsp))

  unfoldable pub disc_svc_uuid_rsp_enc : Option Item → RspBody → Encoded Item
  unfolding add_int status_of
  disc_svc_uuid_rsp_enc parent rsp = encoded (add_int W parent "status" (status_of rsp))

  unfoldable pub disc_all_chrs_rsp_enc : Option Item → RspBody → Encoded Item
  unfolding add_int status_of
  disc_all_chrs_rsp_enc parent rsp = encoded (add_int W parent "status" (status_of rsp))

  unfoldable pub disc_chr_uuid_rsp_enc : Option Item → RspBody → Encoded Item
  unfolding add_int status_of
  disc_chr_uuid_rsp_enc parent rsp = encoded (add_int W parent "status" (status_of rsp))

  unfoldable pub disc_all_dscs_rsp_enc : Option Item → RspBody → Encoded Item
  unfolding add_int status_of
  disc_all_dscs_rsp_enc parent rsp = encoded (add_int W parent "status" (status_of rsp))

  unfoldable pub write_rsp_enc : Option Item → RspBody → Encoded Item
  unfolding add_int status_of
  write_rsp_enc parent rsp = encoded (add_int W parent "status" (status_of rsp))

  unfoldable pub exchange_mtu_rsp_enc : Option Item → RspBody → Encoded Item
  unfolding add_int status_of
  exchange_mtu_rsp_enc parent rsp = encoded (add_int W parent "status" (status_of rsp))

  unfoldable pub set_rand_addr_rsp_enc : Option Item → RspBody → Encoded Item
  unfolding add_int status_of
  set_rand_addr_rsp_enc parent rsp = encoded (add_int W parent "status" (status_of rsp))

  unfoldable pub conn_cancel_rsp_enc : Option Item → RspBody → Encoded Item
  unfolding add_int status_of
  conn_cancel_rsp_enc parent rsp = encoded (add_int W parent "status" (status_of rsp))

  unfoldable pub scan_rsp_enc : Option Item → RspBody → Encoded Item
  unfolding add_int status_of
  scan_rsp_enc parent rsp = encoded (add_int W parent "status" (status_of rsp))

  unfoldable pub scan_cancel_rsp_enc : Option Item → RspBody → Encoded Item
  unfolding add_int status_of
  scan_cancel_rsp_enc parent rsp = encoded (add_int W parent "status" (status_of rsp))

  unfoldable pub set_preferred_mtu_rsp_enc : Option Item → RspBody → Encoded Item
  unfolding add_int status_of
  set_preferred_mtu_rsp_enc parent rsp = encoded (add_int W parent "status" (status_of rsp))

  unfoldable pub security_initiate_rsp_enc : Option Item → RspBody → Encoded Item
  unfolding add_int status_of
  security_initiate_rsp_enc parent rsp = encoded (add_int W parent "status" (status_of rsp))

  unfoldable pub adv_start_rsp_enc : Option Item → RspBody → Encoded Item
  unfolding add_int status_of
  adv_start_rsp_enc parent rsp = encoded (add_int W parent "status" (status_of rsp))

  unfoldable pub adv_stop_rsp_enc : Option Item → RspBody → Encoded Item
  unfolding add_int status_of
  adv_stop_rsp_enc parent rsp = encoded (add_int W parent "status" (status_of rsp))

  unfoldable pub adv_set_data_rsp_enc : Option Item → RspBody → Encoded Item
  unfolding add_int status_of
  adv_set_data_rsp_enc parent rsp = encoded (add_int W parent "status" (status_of rsp))

  unfoldable pub adv_rsp_set_data_rsp_enc : Option Item → RspBody → Encoded Item
  unfolding add_int status_of
  adv_rsp_set_data_rsp_enc parent rsp = encoded (add_int W parent "status" (status_of rsp))

  unfoldable pub clear_svcs_rsp_enc : Option Item → RspBody → Encoded Item
  unfolding add_int status_of
  clear_svcs_rsp_enc parent rsp = encoded (add_int W parent "status" (status_of rsp))

  unfoldable pub add_svcs_rsp_enc : Option Item → RspBody → Encoded Item
  unfolding add_int status_of
  add_svcs_rsp_enc parent rsp = encoded (add_int W parent "status" (status_of rsp))

  unfoldable pub access_status_rsp_enc : Option Item → RspBody → Encoded Item
  unfolding add_int status_of
  access_status_rsp_enc parent rsp = encoded (add_int W parent "status" (status_of rsp))

  unfoldable pub notify_rsp_enc : Option Item → RspBody → Encoded Item
  unfolding add_int status_of
  notify_rsp_enc parent rsp = encoded (add_int W parent "status" (status_of rsp))

  unfoldable pub sm_inject_io_rsp_enc : Option Item → RspBody → Encoded Item
  unfolding add_int status_of
  sm_inject_io_rsp_enc parent rsp = encoded (add_int W parent "status" (status_of rsp))
