-- ===== src/Framing/Send.antt =====
-- The sender of apps/blehostd/src/main.c: the queue of the responses and the socket.
pub mod Order
pub mod Framed
use blehostd.Prelude.{
  ℕ, zero, suc, ◌+◌, Bool, Option, none, some, List, [], ◌∷◌, Bytes, if◌then◌else◌, ltb, length,
}
use blehostd.Status.{Error, minus_one, sys_einval, sys_enomem, Rc, success, fail, Result, err, ok}
use blehostd.Os.{Os, Sent, sent, again, failed}
use blehostd.Framing.{max_msg_sz, Ran, aborted, unfinished, ran, Tx}

-- `struct mn_sockaddr_un` of the native sockets; the size of the structure and of `msun_path` are theirs.
pub record SockaddrUn : Type 0 where
  pub len : ℕ
  -- `MN_AF_LOCAL` is the only family that is set
  pub local_family : Bool
  pub path : Bytes

-- `blehostd_fill_addr`; `path` has the bytes before the NUL, which is copied with them.
unfoldable pub fill_addr : ℕ → ℕ → Bytes → Result SockaddrUn
fill_addr addr_size path_size filename =
    if ltb path_size (length filename + 1)
    then err minus_one
    else ok (record { len = addr_size; local_family = Bool.true; path = filename })

module _ (os : Os) where
  open os use {
    Mbuf, get_pkthdr, extend, append, free_chain, mqueue_put, mqueue_get, insert_head, store16,
    htons, sendto, Pool,
  }

  -- The label `err` of `blehostd_enqueue_rsp`.
  unfoldable pub enqueue_failed : Error → Option Mbuf → Pool → Tx os → Ran (Rc × Tx os)
  enqueue_failed e om pool tx = ran (fail e, record tx { pool = free_chain om pool })

  -- `blehostd_enqueue_rsp` from the call of `os_mbuf_extend` on.
  unfoldable pub enqueue_filled : Bytes → Mbuf → Pool → Tx os → Ran (Rc × Tx os)
  unfolding enqueue_failed
  enqueue_filled json_rsp om pool tx =
      let ext = extend om (store16 (htons (length json_rsp))) pool in
      if ext.0
      then (let app = append ext.1 json_rsp ext.2 in
          if app.0
          then (let put = mqueue_put tx.rsp_mq app.1 in
              if put.0 then ran (success, record tx { rsp_mq = put.1; pool = app.2 }) else aborted)
          else enqueue_failed sys_enomem (some app.1) app.2 tx)
      else enqueue_failed sys_enomem (some ext.1) ext.2 tx

  -- `blehostd_enqueue_rsp`
  unfoldable pub enqueue_rsp : Bytes → Tx os → Ran (Rc × Tx os)
  unfolding enqueue_filled enqueue_failed
  enqueue_rsp json_rsp tx =
      if ltb max_msg_sz (length json_rsp)
      then enqueue_failed sys_einval none tx.pool tx
      else let got = get_pkthdr (length json_rsp + 2) tx.pool in
        elim got.0 [
          | none ↦ enqueue_failed sys_enomem none got.1 tx
          | some om ↦ enqueue_filled json_rsp om got.1 tx
        ]

  -- `blehostd_process_rsp_mq`, with `blehostd_process_rsp`.
  unfoldable pub process_rsp_mq : ℕ → Tx os → Ran (Tx os)
  process_rsp_mq zero tx = unfinished
  process_rsp_mq (suc fuel) tx =
      let got = mqueue_get tx.rsp_mq in
      elim got.0 [
        | none ↦ ran (record tx { rsp_mq = got.1 })
        | some om ↦
            let put = sendto tx.socket om in
            elim put.0 [
              | sent ↦ process_rsp_mq fuel (record tx { rsp_mq = got.1; socket = put.1 })
              | again ↦ ran (record tx { rsp_mq = insert_head got.1 om; socket = put.1 })
              | failed ↦ aborted
            ]
      ]
