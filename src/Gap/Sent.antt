-- ===== src/Gap/Sent.antt =====
-- What `bhd_gap_event` gives to `bhd_evt_send` is encoded.
use blehostd.Prelude.{
  ℕ, ◌≡◌, refl, ◌⊎◌, inl, inr, Bool-cases, ◌==◌, some, Option-cases, arith, ltb, length,
}
use blehostd.Prelude.Int.{pos}
use blehostd.Seq.{next_evt_seq}
use blehostd.Cjson.{Cjson}
use blehostd.Writer.{Writer, IsFaithful}
use blehostd.Proto.Maps.{HostConsts}
use blehostd.Proto.Numbers.{op_evt, type_scan_tmo_evt}
use blehostd.Req.Outcome.{HostSizes}
use blehostd.Enc.{HostText}
use blehostd.Enc.Rsp.{encoded}
use blehostd.Enc.Evt.Kept.{type_number}
use blehostd.Enc.Names.{evt_enc-names, evt_enc-scan_tmo}
use blehostd.Enc.Send.{Evt, evt_enc}
use blehostd.Gattc.{send_mtu_changed}
use blehostd.Gap.{
  GapHost, GapEvent, DiscDesc, scanned, bare_scan, copy_fields, fits_event, disc, disc_complete,
  connect, disconnect, mtu, notify_rx, adv_complete, enc_change, passkey_action, repeat_pairing,
  other_event, returned, gap_event, send_scan_evt, send_scan_tmo_evt, send_connect_evt,
  send_disconnect_evt, send_notify_rx_evt, send_adv_complete_evt, send_enc_change_evt,
  send_passkey_action_evt,
}

-- An event with a header for its fields, and with the sequence number `seq`.
record IsWhole (evt : Evt) (seq : ℕ) : Type 0 where
  is_evt : evt.hdr.op ≡ op_evt
  is_type : (evt.hdr.type ≡ type_number evt.body) ⊎ (evt.hdr.type ≡ type_scan_tmo_evt)
  is_seq : evt.hdr.seq ≡ seq

returned_inj : (a b : Evt) → returned (some a) ≡ returned (some b) → b ≡ a
returned_inj a b e = cc

whole :
    (sent evt : Evt) (seq : ℕ)
    → returned (some sent) ≡ returned (some evt)
    → IsWhole sent seq
    → IsWhole evt seq
whole sent evt seq e w = rw (returned_inj sent evt e) w

send_scan_evt-IsWhole :
    (host : GapHost) (desc : DiscDesc) (seq : ℕ) (evt : Evt)
    → send_scan_evt host desc seq ≡ some evt
    → IsWhole evt seq
unfolding send_scan_evt type_number
send_scan_evt-IsWhole host desc seq evt e =
    elim (Bool-cases (ltb host.adv_max_sz (length desc.bytes))) [
      | inl long ↦ absurd (ground arith)
      | inr short ↦ elim (Option-cases (host.adv_parse_fields desc.bytes)) [
        | inl bare ↦
            whole (scanned (bare_scan desc) seq) evt seq (ground (arith, e, short, bare))
              (record { is_evt = refl; is_type = inl refl; is_seq = refl })
        | inr (fields, parsed) ↦ elim (Bool-cases (fits_event host.adv_max_field_sz fields)) [
          | inr wide ↦ absurd (ground (arith, parsed))
          | inl fits ↦
              whole (scanned (copy_fields host.get_be16 fields (bare_scan desc)) seq) evt seq
                (ground (arith, e, short, parsed, fits))
                (record { is_evt = refl; is_type = inl refl; is_seq = refl })
        ]
      ]
    ]

-- The sequence number that an event gets: the next one of the daemon's own for a notification, otherwise that of the
-- request that started the procedure.
abbrev pub own_seq : {Mbuf : Type 0} → GapEvent Mbuf → ℕ → ℕ → ℕ
own_seq (notify_rx conn attr indication om) seq sequence = sequence
own_seq _ seq sequence = seq

gap_event-IsWhole :
    (host : GapHost) (buf_size : ℕ) (event : GapEvent host.Mbuf) (seq sequence : ℕ) (evt : Evt)
    → (gap_event host buf_size event seq sequence).0 ≡ returned (some evt)
    → IsWhole evt (own_seq event seq sequence)
unfolding gap_event send_scan_tmo_evt send_connect_evt send_disconnect_evt send_mtu_changed
    send_notify_rx_evt send_adv_complete_evt send_enc_change_evt send_passkey_action_evt
    next_evt_seq type_number
gap_event-IsWhole host n (disc desc) seq sequence evt e =
    elim (Option-cases (send_scan_evt host desc seq)) [
      | inl over ↦ absurd (ground (arith, over))
      | inr (sent, s) ↦ send_scan_evt-IsWhole host desc seq evt (ground (arith, e, s))
    ]
gap_event-IsWhole host n disc_complete seq sequence evt e =
    whole _ evt seq e (record { is_evt = refl; is_type = inr refl; is_seq = refl })
gap_event-IsWhole host n (connect status conn) seq sequence evt e =
    whole _ evt seq e (record { is_evt = refl; is_type = inl refl; is_seq = refl })
gap_event-IsWhole host n (disconnect reason conn) seq sequence evt e =
    whole _ evt seq e (record { is_evt = refl; is_type = inl refl; is_seq = refl })
gap_event-IsWhole host n (mtu channel conn value) seq sequence evt e =
    elim (Bool-cases (channel == host.cid_att)) [
      | inl b ↦
          whole (send_mtu_changed seq conn (pos 0) value) evt seq (ground (arith, e, b))
            (record { is_evt = refl; is_type = inl refl; is_seq = refl })
      | inr b ↦ absurd (ground (arith, e, b))
    ]
gap_event-IsWhole host n (notify_rx conn attr indication om) seq sequence evt e =
    elim (Option-cases (host.mbuf_to_flat n om)) [
      | inl f ↦ absurd (ground (arith, e, f))
      | inr (buf, f) ↦
          whole (send_notify_rx_evt conn attr indication buf sequence).0 evt sequence
            (ground (arith, e, f)) (record { is_evt = refl; is_type = inl refl; is_seq = refl })
    ]
gap_event-IsWhole host n adv_complete seq sequence evt e =
    whole _ evt seq e (record { is_evt = refl; is_type = inl refl; is_seq = refl })
gap_event-IsWhole host n (enc_change status conn) seq sequence evt e =
    whole _ evt seq e (record { is_evt = refl; is_type = inl refl; is_seq = refl })
gap_event-IsWhole host n (passkey_action conn action numcmp) seq sequence evt e =
    whole _ evt seq e (record { is_evt = refl; is_type = inl refl; is_seq = refl })
gap_event-IsWhole host n (repeat_pairing conn) seq sequence evt e =
    elim (Option-cases (host.conn_find conn)) [
      | inl f ↦ absurd (ground (arith, e, f))
      | inr (peer, f) ↦ absurd (ground (arith, e, f))
    ]
gap_event-IsWhole host n other_event seq sequence evt e = absurd (ground arith)

module _ {J : Cjson} {W : Writer J} (faithful : IsFaithful W) (text : HostText) (c : HostConsts)
    (sizes : HostSizes) where
  whole-encoded :
      {evt : Evt} {seq : ℕ}
      → IsWhole evt seq
      → (root : J.Item) × (evt_enc W text c sizes evt ≡ encoded (some root))
  whole-encoded {evt} w = elim w.is_type [
    | inl t ↦
        let (root, _, _, e, _, _, _, _) = evt_enc-names faithful text c sizes evt w.is_evt t in
        (root, e)
    | inr t ↦ evt_enc-scan_tmo faithful text c sizes evt w.is_evt t
  ]

  -- Where `bhd_gap_event` handles a report of the host without a write behind an array of the event, the event that it
  -- sends, if any, is encoded: `bhd_evt_enc` returns 0 for it. Its sequence number is the next one of the daemon's own
  -- if the report is a notification, and otherwise that of the request that started the procedure.
  pub gap_event-encoded :
      (host : GapHost) (buf_size : ℕ) (event : GapEvent host.Mbuf) (seq sequence : ℕ) (evt : Evt)
      → (gap_event host buf_size event seq sequence).0 ≡ returned (some evt)
      → ((root : J.Item) × (evt_enc W text c sizes evt ≡ encoded (some root)))
        × (evt.hdr.seq ≡ own_seq event seq sequence)
  gap_event-encoded host buf_size event seq sequence evt e =
      let w = gap_event-IsWhole host buf_size event seq sequence evt e in
      (whole-encoded w, w.is_seq)
