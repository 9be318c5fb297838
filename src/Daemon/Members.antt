-- ===== src/Daemon/Members.antt =====
-- No encoder of a response reads a member of the union that was not written: what each call leaves is what the encoder
-- of the response's type reads.
use blehostd.Prelude.{
  ◌≡◌, ◌≢◌, refl, inl, inr, Bool, true, false, Option, some, arith, Option-cases, String,
}
use blehostd.Prelude.Int.{ℤ}
use blehostd.Status.{Error}
use blehostd.Cjson.{Cjson}
use blehostd.Writer.{Writer}
use blehostd.Proto.Maps.{HostConsts}
use blehostd.Req.Dispatch
use blehostd.Req.Dispatch.{SubrspEnc, rsp_dispatch_find, dispatch_find}
use blehostd.Req.Run.{MsgHdr}
use blehostd.Enc.{HostText, msg_hdr_enc}
use blehostd.Enc.Rsp
use blehostd.Enc.Rsp.{RspBody, Encoded, garbled, rsp_cb}
use blehostd.Enc.Send.{Rsp, rsp_enc}
use blehostd.Gattc.{Reply, status_reply, err_reply}
use blehostd.Daemon.{State, executed, give, give_reply, err_build}

-- The encoders that read only the status.
abbrev pub is_status : SubrspEnc → Bool
is_status Dispatch.connect_rsp_enc = true
is_status Dispatch.terminate_rsp_enc = true
is_status Dispatch.disc_all_svcs_rsp_enc = true
is_status Dispatch.disc_svc_uuid_rsp_enc = true
is_status Dispatch.disc_all_chrs_rsp_enc = true
is_status Dispatch.disc_chr_uuid_rsp_enc = true
is_status Dispatch.disc_all_dscs_rsp_enc = true
is_status Dispatch.write_rsp_enc = true
is_status Dispatch.exchange_mtu_rsp_enc = true
is_status Dispatch.set_rand_addr_rsp_enc = true
is_status Dispatch.conn_cancel_rsp_enc = true
is_status Dispatch.scan_rsp_enc = true
is_status Dispatch.scan_cancel_rsp_enc = true
is_status Dispatch.set_preferred_mtu_rsp_enc = true
is_status Dispatch.security_initiate_rsp_enc = true
is_status Dispatch.adv_start_rsp_enc = true
is_status Dispatch.adv_stop_rsp_enc = true
is_status Dispatch.adv_set_data_rsp_enc = true
is_status Dispatch.adv_rsp_set_data_rsp_enc = true
is_status Dispatch.add_svcs_rsp_enc = true
is_status Dispatch.clear_svcs_rsp_enc = true
is_status Dispatch.access_status_rsp_enc = true
is_status Dispatch.notify_rsp_enc = true
is_status Dispatch.sm_inject_io_rsp_enc = true
is_status _ = false

module _ {J : Cjson} (W : Writer J) (text : HostText) (c : HostConsts) where
  open J use {Item}

  pub status-reads :
      (cb : SubrspEnc) (p : Option Item) (body : RspBody)
      → is_status cb ≡ true
      → rsp_cb W text c cb p body ≢ garbled
  unfolding rsp_cb Rsp.connect_rsp_enc Rsp.terminate_rsp_enc Rsp.disc_all_svcs_rsp_enc
      Rsp.disc_svc_uuid_rsp_enc Rsp.disc_all_chrs_rsp_enc Rsp.disc_chr_uuid_rsp_enc
      Rsp.disc_all_dscs_rsp_enc Rsp.write_rsp_enc Rsp.exchange_mtu_rsp_enc Rsp.set_rand_addr_rsp_enc
      Rsp.conn_cancel_rsp_enc Rsp.scan_rsp_enc Rsp.scan_cancel_rsp_enc Rsp.set_preferred_mtu_rsp_enc
      Rsp.security_initiate_rsp_enc Rsp.adv_start_rsp_enc Rsp.adv_stop_rsp_enc
      Rsp.adv_set_data_rsp_enc Rsp.adv_rsp_set_data_rsp_enc Rsp.add_svcs_rsp_enc
      Rsp.clear_svcs_rsp_enc Rsp.access_status_rsp_enc Rsp.notify_rsp_enc Rsp.sm_inject_io_rsp_enc
  status-reads Dispatch.connect_rsp_enc p body h = λ g. cc
  status-reads Dispatch.terminate_rsp_enc p body h = λ g. cc
  status-reads Dispatch.disc_all_svcs_rsp_enc p body h = λ g. cc
  status-reads Dispatch.disc_svc_uuid_rsp_enc p body h = λ g. cc
  status-reads Dispatch.disc_all_chrs_rsp_enc p body h = λ g. cc
  status-reads Dispatch.disc_chr_uuid_rsp_enc p body h = λ g. cc
  status-reads Dispatch.disc_all_dscs_rsp_enc p body h = λ g. cc
  status-reads Dispatch.write_rsp_enc p body h = λ g. cc
  status-reads Dispatch.exchange_mtu_rsp_enc p body h = λ g. cc
  status-reads Dispatch.set_rand_addr_rsp_enc p body h = λ g. cc
  status-reads Dispatch.conn_cancel_rsp_enc p body h = λ g. cc
  status-reads Dispatch.scan_rsp_enc p body h = λ g. cc
  status-reads Dispatch.scan_cancel_rsp_enc p body h = λ g. cc
  status-reads Dispatch.set_preferred_mtu_rsp_enc p body h = λ g. cc
  status-reads Dispatch.security_initiate_rsp_enc p body h = λ g. cc
  status-reads Dispatch.adv_start_rsp_enc p body h = λ g. cc
  status-reads Dispatch.adv_stop_rsp_enc p body h = λ g. cc
  status-reads Dispatch.adv_set_data_rsp_enc p body h = λ g. cc
  status-reads Dispatch.adv_rsp_set_data_rsp_enc p body h = λ g. cc
  status-reads Dispatch.add_svcs_rsp_enc p body h = λ g. cc
  status-reads Dispatch.clear_svcs_rsp_enc p body h = λ g. cc
  status-reads Dispatch.access_status_rsp_enc p body h = λ g. cc
  status-reads Dispatch.notify_rsp_enc p body h = λ g. cc
  status-reads Dispatch.sm_inject_io_rsp_enc p body h = λ g. cc
  status-reads Dispatch.err_rsp_enc p body h = absurd (ground arith)
  status-reads Dispatch.sync_rsp_enc p body h = absurd (ground arith)
  status-reads Dispatch.gen_rand_addr_rsp_enc p body h = absurd (ground arith)
  status-reads Dispatch.conn_find_rsp_enc p body h = absurd (ground arith)
  status-reads Dispatch.reset_rsp_enc p body h = absurd (ground arith)
  status-reads Dispatch.adv_fields_rsp_enc p body h = absurd (ground arith)
  status-reads Dispatch.commit_svcs_rsp_enc p body h = absurd (ground arith)
  status-reads Dispatch.find_chr_rsp_enc p body h = absurd (ground arith)

  -- An encoder for the type that reads what was written.
  pub cb-reads :
      (cb : SubrspEnc) (hdr : MsgHdr) (body : RspBody)
      → rsp_dispatch_find hdr.type ≡ some cb
      → ((p : Option Item) → rsp_cb W text c cb p body ≢ garbled)
      → rsp_enc W text c (record { hdr = hdr; body = body }) ≢ garbled
  unfolding rsp_enc
  cb-reads cb hdr body found h e = elim (Option-cases (W.create_object)) [
    | inl missing ↦ absurd (ground arith)
    | inr (root, made) ↦ h (msg_hdr_enc W (some root) hdr) (ground arith)
  ]

  pub give-reads :
      (cb : SubrspEnc) (hdr : MsgHdr) (body : RspBody) (s s' : State) (rsp : Rsp)
      → rsp_dispatch_find hdr.type ≡ some cb
      → ((p : Option Item) → rsp_cb W text c cb p body ≢ garbled)
      → give hdr body s ≡ executed rsp s'
      → rsp_enc W text c rsp ≢ garbled
  give-reads cb hdr body s s' rsp found h e =
      let same : rsp ≡ record { hdr = hdr; body = body } = cc in
      rw same (cb-reads cb hdr body found h)

  -- A response that has a status only.
  pub gives-status :
      (cb : SubrspEnc) (hdr : MsgHdr) (body : RspBody) (s s' : State) (rsp : Rsp)
      → rsp_dispatch_find hdr.type ≡ some cb
      → is_status cb ≡ true
      → give hdr body s ≡ executed rsp s'
      → rsp_enc W text c rsp ≢ garbled
  gives-status cb hdr body s s' rsp found h e =
      give-reads cb hdr body s s' rsp found (λ p. status-reads cb p body h) e

  pub err_build-reads :
      (code : Error → ℤ) (hdr : MsgHdr) (e : Error) (msg : String)
      → rsp_enc W text c (err_build code hdr e msg) ≢ garbled
  unfolding err_build rsp_cb Rsp.err_rsp_enc rsp_dispatch_find dispatch_find
  err_build-reads code hdr e msg = cb-reads Dispatch.err_rsp_enc _ _ refl (λ p g. cc)

  pub reply-reads :
      (cb : SubrspEnc) (code : Error → ℤ) (hdr : MsgHdr) (reply : Reply) (s s' : State) (rsp : Rsp)
      → rsp_dispatch_find hdr.type ≡ some cb
      → is_status cb ≡ true
      → give_reply code hdr reply s ≡ executed rsp s'
      → rsp_enc W text c rsp ≢ garbled
  unfolding give_reply
  reply-reads cb code hdr (status_reply status) s s' rsp found h e =
      gives-status cb hdr _ s s' rsp found h e
  reply-reads cb code hdr (err_reply error msg) s s' rsp found h e =
      let same : rsp ≡ err_build code hdr error msg = cc in
      rw same (err_build-reads code hdr error msg)
