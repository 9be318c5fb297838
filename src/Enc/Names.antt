-- ===== src/Enc/Names.antt =====
-- Every event is encoded, under its own name.
use blehostd.Prelude.{◌≡◌, refl, ◌∙◌, ap, none, some, Bytes, codes, arith}
use blehostd.Status.{ok}
use blehostd.Cjson.{Cjson}
use blehostd.Writer.{Writer, IsFaithful}
use blehostd.Json.{json_string}
use blehostd.Proto.Maps.{HostConsts, op_rev_parse, type_rev_parse, op_parse, type_parse}
use blehostd.Proto.Names.{op_names, type_parse-type_rev_parse}
use blehostd.Proto.Numbers.{op_evt, type_scan_tmo_evt}
use blehostd.Req.Outcome.{HostSizes}
use blehostd.Req.Dispatch.{evt_dispatch_find, dispatch_find}
use blehostd.Enc.{HostText}
use blehostd.Enc.Rsp.{Encoded, encoded}
use blehostd.Enc.Keep.{keep}
use blehostd.Enc.Evt
use blehostd.Enc.Evt.{EvtBody, evt_cb, scan_tmo_evt_enc}
use blehostd.Enc.Evt.Kept.{type_number, type_number-encoder, Gives, gives, encoder-Gives}
use blehostd.Enc.Header.{HasText, header_members, read_text}
use blehostd.Enc.Send.{Evt, evt_enc}

type_name : (body : EvtBody) → (s : Bytes) × (type_rev_parse (type_number body) ≡ some s)
unfolding type_rev_parse type_number
type_name (Evt.sync_evt synced) = (_, refl)
type_name (Evt.connect_evt status conn_handle) = (_, refl)
type_name (Evt.disconnect_evt desc reason) = (_, refl)
type_name (Evt.disc_svc_evt evt) = (_, refl)
type_name (Evt.disc_chr_evt evt) = (_, refl)
type_name (Evt.disc_dsc_evt evt) = (_, refl)
type_name (Evt.write_ack_evt conn_handle attr_handle status) = (_, refl)
type_name (Evt.notify_rx_evt evt) = (_, refl)
type_name (Evt.mtu_change_evt conn_handle mtu status) = (_, refl)
type_name (Evt.scan_evt evt) = (_, refl)
type_name (Evt.adv_complete_evt reason) = (_, refl)
type_name (Evt.enc_change_evt conn_handle status) = (_, refl)
type_name (Evt.reset_evt reason) = (_, refl)
type_name (Evt.access_evt evt) = (_, refl)
type_name (Evt.passkey_evt conn_handle action numcmp) = (_, refl)

op_evt_name : op_rev_parse op_evt ≡ some (codes "event")
unfolding op_rev_parse
op_evt_name = refl

scan_tmo_name : type_rev_parse type_scan_tmo_evt ≡ some (codes "scan_tmo_evt")
unfolding type_rev_parse
scan_tmo_name = refl

module _ {J : Cjson} {W : Writer J} (faithful : IsFaithful W) (host : HostText) (c : HostConsts)
    (sizes : HostSizes) where
  open J use {Item}

  names_stay :
      (object : Item) (r : Encoded Item) (op_name type_name : Bytes)
      → HasText faithful object "op" op_name
      → HasText faithful object "type" type_name
      → Gives faithful host c sizes (some object) r
      → (root : Item) × (r ≡ encoded (some root))
        × HasText faithful root "op" op_name
        × HasText faithful root "type" type_name
  names_stay object _ op_name type_name (op, op_in, op_type, op_value) ty (gives none (keep k)) =
      absurd (ground (arith, k "op" op op_in))
  names_stay object _ op_name type_name (op, op_in, op_type, op_value)
        (ty, ty_in, ty_type, ty_value) (gives (some root) (keep k)) =
      (
        root,
        refl,
        (op, k "op" op op_in, op_type, op_value),
        (ty, k "type" ty ty_in, ty_type, ty_value),
      )

  -- Every event that has the operation "event" and the type of its member of the union is encoded, whatever
  -- its fields: `bhd_evt_enc` returns 0, and the object has under "op" and "type" the texts that
  -- `bhd_op_parse` and `bhd_type_parse` turn into the operation and the type.
  pub evt_enc-names :
      (evt : Evt)
      → evt.hdr.op ≡ op_evt
      → evt.hdr.type ≡ type_number evt.body
      → (root : Item) × (op_text : Bytes) × (type_text : Bytes) × (evt_enc W host c sizes evt
          ≡ encoded (some root))
        × (json_string J root "op" ≡ ok op_text)
        × (op_parse op_text ≡ evt.hdr.op)
        × (json_string J root "type" ≡ ok type_text)
        × (type_parse type_text ≡ evt.hdr.type)
  unfolding evt_enc
  evt_enc-names evt o t =
      let (type_text, t_name) = type_name evt.body in
      let named : type_rev_parse evt.hdr.type ≡ some type_text = rw t t_name in
      let op_named : op_rev_parse evt.hdr.op ≡ some (codes "event") = rw o op_evt_name in
      let (start, s) = faithful.create_object-some in
      let (object, r, op, ty, _) =
        header_members faithful evt.hdr (codes "event") type_text op_named named in
      let (root, e, op', ty') =
        names_stay object _ (codes "event") type_text op ty
          (encoder-Gives faithful host c sizes (some object) evt.body) in
      (
        root,
        codes "event",
        type_text,
        ground (arith, s, r, e, ap evt_dispatch_find t ∙ type_number-encoder evt.body),
        read_text faithful root "op" (codes "event") op',
        (op_names (codes "event") evt.hdr.op (λ h. ground (arith, o, h))).1 op_named,
        read_text faithful root "type" type_text ty',
        type_parse-type_rev_parse evt.hdr.type type_text named,
      )

  -- A scan that ends has no fields to encode.
  pub evt_enc-scan_tmo :
      (evt : Evt)
      → evt.hdr.op ≡ op_evt
      → evt.hdr.type ≡ type_scan_tmo_evt
      → (root : Item) × (evt_enc W host c sizes evt ≡ encoded (some root))
  unfolding evt_enc evt_dispatch_find dispatch_find evt_cb scan_tmo_evt_enc
  evt_enc-scan_tmo evt o t =
      let named : type_rev_parse evt.hdr.type ≡ some (codes "scan_tmo_evt") = rw t scan_tmo_name in
      let op_named : op_rev_parse evt.hdr.op ≡ some (codes "event") = rw o op_evt_name in
      let (start, s) = faithful.create_object-some in
      let (object, r, _, _, _) =
        header_members faithful evt.hdr (codes "event") (codes "scan_tmo_evt") op_named named in
      (object, ground (arith, s, r, t))
