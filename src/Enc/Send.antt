-- ===== src/Enc/Send.antt =====
-- `bhd_rsp_enc`, `bhd_msg_send` and `bhd_rsp_send` of apps/blehostd/src/bhd_proto.c.
use blehostd.Prelude.{Option, none, some}
use blehostd.Status.{sys_enomem, sys_erange, Rc, fail}
use blehostd.Cjson.{Cjson}
use blehostd.Writer.{Writer}
use blehostd.Proto.Maps.{HostConsts}
use blehostd.Req.Run.{MsgHdr}
use blehostd.Req.Outcome.{HostSizes}
use blehostd.Req.Dispatch.{rsp_dispatch_find, evt_dispatch_find}
use blehostd.Os.{Os}
use blehostd.Framing.{Ran, ran, Tx}
use blehostd.Framing.Send.{enqueue_rsp}
use blehostd.Enc.{HostText, msg_hdr_enc}
use blehostd.Enc.Evt.{EvtBody, evt_cb}
use blehostd.Enc.Rsp.{RspBody, Encoded, garbled, failed_enc, encoded, rsp_cb}

-- `struct bhd_evt`
pub record Evt : Type 0 where
  pub hdr : MsgHdr
  pub body : EvtBody

-- `struct bhd_rsp`
pub record Rsp : Type 0 where
  pub hdr : MsgHdr
  pub body : RspBody

module _ {J : Cjson} (W : Writer J) (host : HostText) (c : HostConsts) where
  open J use {Item}
  open W use {create_object, print}

  unfoldable pub rsp_enc : Rsp → Encoded Item
  unfolding msg_hdr_enc rsp_dispatch_find rsp_cb
  rsp_enc rsp = elim create_object [
    | none ↦ failed_enc sys_enomem
    | some root ↦
        let with_hdr = msg_hdr_enc W (some root) rsp.hdr in
        elim (rsp_dispatch_find rsp.hdr.type) [
          | none ↦ failed_enc sys_erange
          | some cb ↦ rsp_cb W host c cb with_hdr rsp.body
        ]
  ]

  unfoldable pub msg_send : (os : Os) → Option Item → Tx os → Ran (Rc × Tx os)
  unfolding enqueue_rsp
  msg_send os root tx = elim (print root) [
    | none ↦ ran (fail sys_enomem, tx)
    | some json_str ↦ enqueue_rsp os json_str tx
  ]

  -- `none` where an encoder reads a member of the union that was not written.
  unfoldable pub rsp_send : (os : Os) → Rsp → Tx os → Option (Ran (Rc × Tx os))
  unfolding rsp_enc msg_send
  rsp_send os rsp tx = elim (rsp_enc rsp) [
    | garbled ↦ none
    | failed_enc e ↦ some (ran (fail e, tx))
    | encoded root ↦ some (msg_send os root tx)
  ]

  unfoldable pub evt_enc : HostSizes → Evt → Encoded Item
  unfolding msg_hdr_enc evt_dispatch_find evt_cb
  evt_enc sizes evt = elim create_object [
    | none ↦ failed_enc sys_enomem
    | some root ↦
        let with_hdr = msg_hdr_enc W (some root) evt.hdr in
        elim (evt_dispatch_find evt.hdr.type) [
          | none ↦ failed_enc sys_erange
          | some cb ↦ evt_cb W host sizes c cb with_hdr evt.body
        ]
  ]

  -- `none` where an encoder reads a member of the union that was not written.
  unfoldable pub evt_send : HostSizes → (os : Os) → Evt → Tx os → Option (Ran (Rc × Tx os))
  unfolding evt_enc msg_send
  evt_send sizes os evt tx = elim (evt_enc sizes evt) [
    | garbled ↦ none
    | failed_enc e ↦ some (ran (fail e, tx))
    | encoded root ↦ some (msg_send os root tx)
  ]
