-- ===== src/Enc/Evt.antt =====
-- The encoders of the events, in apps/blehostd/src/bhd_proto.c.
pub mod Types
pub mod Scan
pub mod ScanKeep
pub mod Kept
unfoldable pub use Types.*
use blehostd.Prelude.{ℕ, ◌*◌, Option, none, some, String, Bytes, if◌then◌else◌, ◌==◌}
use blehostd.Prelude.Int.{ℤ, pos, eqz}
use blehostd.Status.{Error, sys_enomem}
use blehostd.Cjson.{Cjson}
use blehostd.Writer.{Writer}
use blehostd.Hex.{hex_str}
use blehostd.Uuid.{Uuid}
use blehostd.Proto.Maps.{HostConsts}
use blehostd.Req.Outcome.{HostSizes}
use blehostd.Enc.{BleAddr, HostText, add_bytes, add_int, add_gatt_access_op, add_sm_passkey_action}
use blehostd.Enc.Rsp.{Encoded, garbled, failed_enc, encoded, add_typed_addr}
use blehostd.Enc.Evt.Scan.{ScanEvt, scan_members}
use blehostd.Req.Dispatch

module _ {J : Cjson} (W : Writer J) (host : HostText) (sizes : HostSizes) (c : HostConsts) where
  open J use {Item}
  open W use {create_object, add_item_to_object, add_string_to_object, add_bool_to_object}

  -- `bhd_conn_desc_enc`, which returns 0.
  unfoldable pub conn_desc_enc : Option Item → ConnDesc → Option Item
  unfolding add_int add_typed_addr
  conn_desc_enc parent desc =
      let handle =
        if desc.conn_handle == host.conn_handle_none
        then parent
        else add_int W parent "conn_handle" (pos desc.conn_handle) in
      let typed = add_typed_addr W host c in
      let own_id = typed handle "own_id_addr_type" "own_id_addr" desc.our_id_addr in
      let own_ota = typed own_id "own_ota_addr_type" "own_ota_addr" desc.our_ota_addr in
      let peer_id = typed own_ota "peer_id_addr_type" "peer_id_addr" desc.peer_id_addr in
      typed peer_id "peer_ota_addr_type" "peer_ota_addr" desc.peer_ota_addr

  -- A member that is a new object, filled by `fill`; in the source it is filled when it is a member.
  unfoldable pub add_new_object :
      Option Item → String → (Option Item → Option Item) → Option Item → Encoded Item
  add_new_object parent name fill none = failed_enc sys_enomem
  add_new_object parent name fill (some object) =
      encoded (add_item_to_object parent name (fill (some object)))

  unfoldable pub sync_evt_enc : Option Item → EvtBody → Encoded Item
  sync_evt_enc parent (sync_evt synced) = encoded (add_bool_to_object parent "synced" synced)
  sync_evt_enc parent _ = garbled

  unfoldable pub connect_evt_enc : Option Item → EvtBody → Encoded Item
  unfolding add_int
  connect_evt_enc parent (connect_evt status conn_handle) =
      let with_status = add_int W parent "status" status in
      if conn_handle == host.conn_handle_none
      then encoded with_status
      else encoded (add_int W with_status "conn_handle" (pos conn_handle))
  connect_evt_enc parent _ = garbled

  unfoldable pub disconnect_evt_enc : Option Item → EvtBody → Encoded Item
  unfolding add_int conn_desc_enc
  disconnect_evt_enc parent (disconnect_evt desc reason) =
      encoded (conn_desc_enc (add_int W parent "reason" reason) desc)
  disconnect_evt_enc parent _ = garbled

  unfoldable pub fill_svc : DiscSvcEvt → Option Item → Option Item
  unfolding add_int
  fill_svc evt svc =
      let with_start = add_int W svc "start_handle" (pos evt.start_handle) in
      let with_end = add_int W with_start "end_handle" (pos evt.end_handle) in
      add_string_to_object with_end "uuid" (some (host.uuid_to_str evt.uuid))

  unfoldable pub disc_svc_evt_enc : Option Item → EvtBody → Encoded Item
  unfolding add_int fill_svc add_new_object
  disc_svc_evt_enc parent (disc_svc_evt evt) =
      let with_handle = add_int W parent "conn_handle" (pos evt.conn_handle) in
      let with_status = add_int W with_handle "status" evt.status in
      if eqz evt.status (pos 0)
      then add_new_object with_status "service" (fill_svc evt) create_object
      else encoded with_status
  disc_svc_evt_enc parent _ = garbled

  unfoldable pub fill_chr : DiscChrEvt → Option Item → Option Item
  unfolding add_int
  fill_chr evt chr =
      let with_def = add_int W chr "def_handle" (pos evt.def_handle) in
      let with_val = add_int W with_def "val_handle" (pos evt.val_handle) in
      let with_properties = add_int W with_val "properties" (pos evt.properties) in
      add_string_to_object with_properties "uuid" (some (host.uuid_to_str evt.uuid))

  unfoldable pub disc_chr_evt_enc : Option Item → EvtBody → Encoded Item
  unfolding add_int fill_chr add_new_object
  disc_chr_evt_enc parent (disc_chr_evt evt) =
      let with_handle = add_int W parent "conn_handle" (pos evt.conn_handle) in
      let with_status = add_int W with_handle "status" evt.status in
      if eqz evt.status (pos 0)
      then add_new_object with_status "characteristic" (fill_chr evt) create_object
      else encoded with_status
  disc_chr_evt_enc parent _ = garbled

  unfoldable pub fill_dsc : DiscDscEvt → Option Item → Option Item
  unfolding add_int
  fill_dsc evt dsc =
      let with_handle = add_int W dsc "handle" (pos evt.handle) in
      add_string_to_object with_handle "uuid" (some (host.uuid_to_str evt.uuid))

  unfoldable pub disc_dsc_evt_enc : Option Item → EvtBody → Encoded Item
  unfolding add_int fill_dsc add_new_object
  disc_dsc_evt_enc parent (disc_dsc_evt evt) =
      let with_handle = add_int W parent "conn_handle" (pos evt.conn_handle) in
      let with_status = add_int W with_handle "status" evt.status in
      let with_chr = add_int W with_status "chr_def_handle" (pos evt.chr_def_handle) in
      if eqz evt.status (pos 0)
      then add_new_object with_chr "descriptor" (fill_dsc evt) create_object
      else encoded with_chr
  disc_dsc_evt_enc parent _ = garbled

  unfoldable pub write_ack_evt_enc : Option Item → EvtBody → Encoded Item
  unfolding add_int
  write_ack_evt_enc parent (write_ack_evt conn_handle attr_handle status) =
      let with_conn = add_int W parent "conn_handle" (pos conn_handle) in
      let with_attr = add_int W with_conn "attr_handle" (pos attr_handle) in
      encoded (add_int W with_attr "status" status)
  write_ack_evt_enc parent _ = garbled

  unfoldable pub notify_rx_evt_enc : Option Item → EvtBody → Encoded Item
  unfolding add_int hex_str
  notify_rx_evt_enc parent (notify_rx_evt evt) =
      let with_conn = add_int W parent "conn_handle" (pos evt.conn_handle) in
      let with_attr = add_int W with_conn "attr_handle" (pos evt.attr_handle) in
      let with_flag = add_bool_to_object with_attr "indication" (pos evt.indication) in
      let text = (hex_str (sizes.att_attr_max_len * 5) evt.bytes).0 in
      encoded (add_string_to_object with_flag "data" (some text))
  notify_rx_evt_enc parent _ = garbled

  unfoldable pub mtu_change_evt_enc : Option Item → EvtBody → Encoded Item
  unfolding add_int
  mtu_change_evt_enc parent (mtu_change_evt conn_handle mtu status) =
      let with_conn = add_int W parent "conn_handle" (pos conn_handle) in
      let with_mtu = add_int W with_conn "mtu" (pos mtu) in
      encoded (add_int W with_mtu "status" status)
  mtu_change_evt_enc parent _ = garbled

  unfoldable pub scan_evt_enc : Option Item → EvtBody → Encoded Item
  unfolding scan_members
  scan_evt_enc parent (scan_evt evt) = encoded (scan_members W host c parent evt)
  scan_evt_enc parent _ = garbled

  unfoldable pub scan_tmo_evt_enc : Option Item → EvtBody → Encoded Item
  scan_tmo_evt_enc parent evt = encoded parent

  unfoldable pub adv_complete_evt_enc : Option Item → EvtBody → Encoded Item
  unfolding add_int
  adv_complete_evt_enc parent (adv_complete_evt reason) = encoded (add_int W parent "reason" reason)
  adv_complete_evt_enc parent _ = garbled

  unfoldable pub enc_change_evt_enc : Option Item → EvtBody → Encoded Item
  unfolding add_int
  enc_change_evt_enc parent (enc_change_evt conn_handle status) =
      let with_conn = add_int W parent "conn_handle" (pos conn_handle) in
      encoded (add_int W with_conn "status" status)
  enc_change_evt_enc parent _ = garbled

  unfoldable pub reset_evt_enc : Option Item → EvtBody → Encoded Item
  unfolding add_int
  reset_evt_enc parent (reset_evt reason) = encoded (add_int W parent "reason" reason)
  reset_evt_enc parent _ = garbled

  unfoldable pub access_evt_enc : Option Item → EvtBody → Encoded Item
  unfolding add_int add_gatt_access_op add_bytes
  access_evt_enc parent (access_evt evt) =
      let with_op = (add_gatt_access_op W c parent "access_op" evt.access_op).1 in
      let with_conn = add_int W with_op "conn_handle" (pos evt.conn_handle) in
      let with_att = add_int W with_conn "att_handle" (pos evt.att_handle) in
      encoded (add_bytes W with_att "data" evt.bytes)
  access_evt_enc parent _ = garbled

  unfoldable pub passkey_evt_enc : Option Item → EvtBody → Encoded Item
  unfolding add_int add_sm_passkey_action
  passkey_evt_enc parent (passkey_evt conn_handle action numcmp) =
      let with_conn = add_int W parent "conn_handle" (pos conn_handle) in
      let with_action = (add_sm_passkey_action W c with_conn "action" action).1 in
      if eqz (pos action) c.sm_ioact_numcmp
      then encoded (add_int W with_action "numcmp" (pos numcmp))
      else encoded with_action
  passkey_evt_enc parent _ = garbled

  -- The call `evt_cb(root, evt)`.
  unfoldable pub evt_cb : Dispatch.EvtEnc → Option Item → EvtBody → Encoded Item
  evt_cb Dispatch.sync_evt_enc parent evt = sync_evt_enc parent evt
  evt_cb Dispatch.connect_evt_enc parent evt = connect_evt_enc parent evt
  evt_cb Dispatch.disconnect_evt_enc parent evt = disconnect_evt_enc parent evt
  evt_cb Dispatch.disc_svc_evt_enc parent evt = disc_svc_evt_enc parent evt
  evt_cb Dispatch.disc_chr_evt_enc parent evt = disc_chr_evt_enc parent evt
  evt_cb Dispatch.disc_dsc_evt_enc parent evt = disc_dsc_evt_enc parent evt
  evt_cb Dispatch.write_ack_evt_enc parent evt = write_ack_evt_enc parent evt
  evt_cb Dispatch.notify_rx_evt_enc parent evt = notify_rx_evt_enc parent evt
  evt_cb Dispatch.mtu_change_evt_enc parent evt = mtu_change_evt_enc parent evt
  evt_cb Dispatch.scan_evt_enc parent evt = scan_evt_enc parent evt
  evt_cb Dispatch.scan_tmo_evt_enc parent evt = scan_tmo_evt_enc parent evt
  evt_cb Dispatch.adv_complete_evt_enc parent evt = adv_complete_evt_enc parent evt
  evt_cb Dispatch.enc_change_evt_enc parent evt = enc_change_evt_enc parent evt
  evt_cb Dispatch.reset_evt_enc parent evt = reset_evt_enc parent evt
  evt_cb Dispatch.access_evt_enc parent evt = access_evt_enc parent evt
  evt_cb Dispatch.passkey_evt_enc parent evt = passkey_evt_enc parent evt
