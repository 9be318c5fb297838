-- ===== src/Enc/Evt/Kept.antt =====
-- The encoders of events give an object, which keeps the members of the one they are called with.
use blehostd.Prelude.{
  Bool, true, false, ◌≡◌, refl, ◌==◌, Option, none, some, if◌then◌else◌, String, arith,
}
use blehostd.Prelude.Int.{ℤ, pos, eqz}
use blehostd.Cjson.{Cjson}
use blehostd.Writer.{Writer, IsFaithful}
use blehostd.Proto.Maps.{HostConsts}
use blehostd.Proto.Numbers
use blehostd.Req.Outcome.{HostSizes}
use blehostd.Req.Dispatch
use blehostd.Req.Dispatch.{EvtEnc, evt_dispatch_find}
use blehostd.Enc.{HostText, add_gatt_access_op, add_sm_passkey_action}
use blehostd.Enc.Rsp.{Encoded, encoded}
use blehostd.Enc.Evt
use blehostd.Enc.Evt.{EvtBody, ConnDesc, conn_desc_enc, add_new_object, evt_cb}
use blehostd.Enc.Evt.ScanKeep.{scan_members-Extends}
use blehostd.Enc.Keep.{
  Extends, keep_item, keep_if, keep_int, keep_bytes, keep_string, keep_flag, keep_name,
  keep_typed_addr, refl_keep,
}

-- The encoder of each event, and its type. An advertisement that times out has no member of the union.
unfoldable pub encoder : EvtBody → EvtEnc
encoder (Evt.sync_evt synced) = Dispatch.sync_evt_enc
encoder (Evt.connect_evt status conn_handle) = Dispatch.connect_evt_enc
encoder (Evt.disconnect_evt desc reason) = Dispatch.disconnect_evt_enc
encoder (Evt.disc_svc_evt evt) = Dispatch.disc_svc_evt_enc
encoder (Evt.disc_chr_evt evt) = Dispatch.disc_chr_evt_enc
encoder (Evt.disc_dsc_evt evt) = Dispatch.disc_dsc_evt_enc
encoder (Evt.write_ack_evt conn_handle attr_handle status) = Dispatch.write_ack_evt_enc
encoder (Evt.notify_rx_evt evt) = Dispatch.notify_rx_evt_enc
encoder (Evt.mtu_change_evt conn_handle mtu status) = Dispatch.mtu_change_evt_enc
encoder (Evt.scan_evt evt) = Dispatch.scan_evt_enc
encoder (Evt.adv_complete_evt reason) = Dispatch.adv_complete_evt_enc
encoder (Evt.enc_change_evt conn_handle status) = Dispatch.enc_change_evt_enc
encoder (Evt.reset_evt reason) = Dispatch.reset_evt_enc
encoder (Evt.access_evt evt) = Dispatch.access_evt_enc
encoder (Evt.passkey_evt conn_handle action numcmp) = Dispatch.passkey_evt_enc

unfoldable pub type_number : EvtBody → ℤ
type_number (Evt.sync_evt synced) = Numbers.type_sync_evt
type_number (Evt.connect_evt status conn_handle) = Numbers.type_connect_evt
type_number (Evt.disconnect_evt desc reason) = Numbers.type_disconnect_evt
type_number (Evt.disc_svc_evt evt) = Numbers.type_disc_svc_evt
type_number (Evt.disc_chr_evt evt) = Numbers.type_disc_chr_evt
type_number (Evt.disc_dsc_evt evt) = Numbers.type_disc_dsc_evt
type_number (Evt.write_ack_evt conn_handle attr_handle status) = Numbers.type_write_ack_evt
type_number (Evt.notify_rx_evt evt) = Numbers.type_notify_rx_evt
type_number (Evt.mtu_change_evt conn_handle mtu status) = Numbers.type_mtu_change_evt
type_number (Evt.scan_evt evt) = Numbers.type_scan_evt
type_number (Evt.adv_complete_evt reason) = Numbers.type_adv_complete_evt
type_number (Evt.enc_change_evt conn_handle status) = Numbers.type_enc_change_evt
type_number (Evt.reset_evt reason) = Numbers.type_reset_evt
type_number (Evt.access_evt evt) = Numbers.type_access_evt
type_number (Evt.passkey_evt conn_handle action numcmp) = Numbers.type_passkey_evt

pub type_number-encoder :
    (body : EvtBody) → evt_dispatch_find (type_number body) ≡ some (encoder body)
unfolding encoder type_number evt_dispatch_find Dispatch.dispatch_find
type_number-encoder (Evt.sync_evt synced) = refl
type_number-encoder (Evt.connect_evt status conn_handle) = refl
type_number-encoder (Evt.disconnect_evt desc reason) = refl
type_number-encoder (Evt.disc_svc_evt evt) = refl
type_number-encoder (Evt.disc_chr_evt evt) = refl
type_number-encoder (Evt.disc_dsc_evt evt) = refl
type_number-encoder (Evt.write_ack_evt conn_handle attr_handle status) = refl
type_number-encoder (Evt.notify_rx_evt evt) = refl
type_number-encoder (Evt.mtu_change_evt conn_handle mtu status) = refl
type_number-encoder (Evt.scan_evt evt) = refl
type_number-encoder (Evt.adv_complete_evt reason) = refl
type_number-encoder (Evt.enc_change_evt conn_handle status) = refl
type_number-encoder (Evt.reset_evt reason) = refl
type_number-encoder (Evt.access_evt evt) = refl
type_number-encoder (Evt.passkey_evt conn_handle action numcmp) = refl

module _ {J : Cjson} {W : Writer J} (faithful : IsFaithful W) (host : HostText) (c : HostConsts)
    (sizes : HostSizes) where
  open J use {Item}

  -- An encoder that returns 0, and keeps the members.
  pub data Gives (p : Option Item) : Encoded Item → Type 0 where
    gives : (q : Option Item) → Extends faithful host c p q → Gives p (encoded q)

  kept_if :
      {p q : Option Item} {r : Encoded Item} (b : Bool)
      → Gives p r
      → Extends faithful host c p q
      → Gives p (if b then r else encoded q)
  kept_if true k l = k
  kept_if false k l = gives _ l

  conn_desc_enc-Extends :
      {p q : Option Item} (desc : ConnDesc)
      → Extends faithful host c p q
      → Extends faithful host c p (conn_desc_enc W host sizes c q desc)
  unfolding conn_desc_enc
  conn_desc_enc-Extends desc k =
      keep_typed_addr faithful host c "peer_ota_addr_type" "peer_ota_addr" desc.peer_ota_addr (
        keep_typed_addr faithful host c "peer_id_addr_type" "peer_id_addr" desc.peer_id_addr (
          keep_typed_addr faithful host c "own_ota_addr_type" "own_ota_addr" desc.our_ota_addr (
            keep_typed_addr faithful host c "own_id_addr_type" "own_id_addr" desc.our_id_addr (
              keep_if faithful host c (desc.conn_handle == host.conn_handle_none) k
                (keep_int faithful host c "conn_handle" (pos desc.conn_handle) k)))))

  add_new_object-Gives :
      {p q : Option Item} (name : String) (fill : Option Item → Option Item) (object : Option Item)
      (o : Item)
      → object ≡ some o
      → Extends faithful host c p q
      → Gives p (add_new_object W host sizes c q name fill object)
  unfolding add_new_object
  add_new_object-Gives name fill none o e k = absurd (ground arith)
  add_new_object-Gives name fill (some o') o e k = gives _ (keep_item faithful host c name _ k)

  either :
      {p q r : Option Item} (b : Bool)
      → Extends faithful host c p q
      → Extends faithful host c p r
      → Gives p (if b then encoded q else encoded r)
  either true k l = gives _ k
  either false k l = gives _ l

  -- The encoder of an event keeps the members, and does not fail.
  pub encoder-Gives :
      (p : Option Item) (body : EvtBody) → Gives p (evt_cb W host sizes c (encoder body) p body)
  unfolding evt_cb encoder add_gatt_access_op add_sm_passkey_action Evt.sync_evt_enc
      Evt.connect_evt_enc Evt.disconnect_evt_enc Evt.disc_svc_evt_enc Evt.disc_chr_evt_enc
      Evt.disc_dsc_evt_enc Evt.write_ack_evt_enc Evt.notify_rx_evt_enc Evt.mtu_change_evt_enc
      Evt.scan_evt_enc Evt.adv_complete_evt_enc Evt.enc_change_evt_enc Evt.reset_evt_enc
      Evt.access_evt_enc Evt.passkey_evt_enc
  encoder-Gives p (Evt.sync_evt synced) =
      gives _ (keep_flag faithful host c "synced" synced (refl_keep faithful host c p))
  encoder-Gives p (Evt.connect_evt status conn_handle) =
      let start = (keep_int faithful host c "status" status (refl_keep faithful host c p)) in
      either (conn_handle == host.conn_handle_none) start
        (keep_int faithful host c "conn_handle" (pos conn_handle) start)
  encoder-Gives p (Evt.disconnect_evt desc reason) = gives _ (
      conn_desc_enc-Extends desc
        (keep_int faithful host c "reason" reason (refl_keep faithful host c p)))
  encoder-Gives p (Evt.disc_svc_evt evt) =
      let start =
        (keep_int faithful host c "status" evt.status (
          keep_int faithful host c "conn_handle" (pos evt.conn_handle)
            (refl_keep faithful host c p))) in
      let (o, e) = faithful.create_object-some in
      kept_if (eqz evt.status (pos 0))
        (add_new_object-Gives "service" (Evt.fill_svc W host sizes c evt) W.create_object o e start)
        start
  encoder-Gives p (Evt.disc_chr_evt evt) =
      let start =
        (keep_int faithful host c "status" evt.status (
          keep_int faithful host c "conn_handle" (pos evt.conn_handle)
            (refl_keep faithful host c p))) in
      let (o, e) = faithful.create_object-some in
      kept_if (eqz evt.status (pos 0))
        (add_new_object-Gives "characteristic" (Evt.fill_chr W host sizes c evt) W.create_object o e
          start)
        start
  encoder-Gives p (Evt.disc_dsc_evt evt) =
      let start =
        (keep_int faithful host c "chr_def_handle" (pos evt.chr_def_handle) (
          keep_int faithful host c "status" evt.status (
            keep_int faithful host c "conn_handle" (pos evt.conn_handle)
              (refl_keep faithful host c p)))) in
      let (o, e) = faithful.create_object-some in
      kept_if (eqz evt.status (pos 0))
        (add_new_object-Gives "descriptor" (Evt.fill_dsc W host sizes c evt) W.create_object o e
          start)
        start
  encoder-Gives p (Evt.write_ack_evt conn_handle attr_handle status) = gives _ (
      keep_int faithful host c "status" status (
        keep_int faithful host c "attr_handle" (pos attr_handle)
          (keep_int faithful host c "conn_handle" (pos conn_handle) (refl_keep faithful host c p))))
  encoder-Gives p (Evt.notify_rx_evt evt) = gives _ (
      keep_string faithful host c "data" _ (
        keep_flag faithful host c "indication" _ (
          keep_int faithful host c "attr_handle" (pos evt.attr_handle) (
            keep_int faithful host c "conn_handle" (pos evt.conn_handle)
              (refl_keep faithful host c p)))))
  encoder-Gives p (Evt.mtu_change_evt conn_handle mtu status) = gives _ (
      keep_int faithful host c "status" status (
        keep_int faithful host c "mtu" (pos mtu)
          (keep_int faithful host c "conn_handle" (pos conn_handle) (refl_keep faithful host c p))))
  encoder-Gives p (Evt.scan_evt evt) =
      gives _ (scan_members-Extends faithful host c evt (refl_keep faithful host c p))
  encoder-Gives p (Evt.adv_complete_evt reason) =
      gives _ (keep_int faithful host c "reason" reason (refl_keep faithful host c p))
  encoder-Gives p (Evt.enc_change_evt conn_handle status) = gives _ (
      keep_int faithful host c "status" status
        (keep_int faithful host c "conn_handle" (pos conn_handle) (refl_keep faithful host c p)))
  encoder-Gives p (Evt.reset_evt reason) =
      gives _ (keep_int faithful host c "reason" reason (refl_keep faithful host c p))
  encoder-Gives p (Evt.access_evt evt) = gives _ (
      keep_bytes faithful host c "data" evt.bytes (
        keep_int faithful host c "att_handle" (pos evt.att_handle) (
          keep_int faithful host c "conn_handle" (pos evt.conn_handle)
            (keep_name faithful host c "access_op" _ (refl_keep faithful host c p)))))
  encoder-Gives p (Evt.passkey_evt conn_handle action numcmp) =
      let start =
        keep_name faithful host c "action" _ (
          keep_int faithful host c "conn_handle" (pos conn_handle) (refl_keep faithful host c p)) in
      either (eqz (pos action) c.sm_ioact_numcmp)
        (keep_int faithful host c "numcmp" (pos numcmp) start) start
