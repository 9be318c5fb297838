-- ===== src/Framing.antt =====
-- The messages on the socket, of apps/blehostd/src/main.c: the reader, which cuts the stream of requests
-- into packets, and the queue of the responses.
pub mod Stream
pub mod Step
pub mod Round
pub mod Deliver
pub mod Whole
pub mod Finish
pub mod Send
pub mod Serve
use blehostd.Prelude.{
  ℕ, zero, suc, ◌+◌, ◌%◌, Bool, true, false, Option, none, some, List, [], ◌∷◌, ◌++◌, Bytes,
  if◌then◌else◌, ltb, leb, ◌==◌, length, not,
}
use blehostd.Prelude.Int.{ℤ, pos, eqz}
use blehostd.Status.{Rc, success, fail, sys_einval, sys_enomem}
use blehostd.Os.{Os, Sent, sent, again, failed}

-- `BLEHOSTD_MAX_MSG_SZ`
abbrev pub max_msg_sz : ℕ
max_msg_sz = 10240

-- How a function ends: it reads through NULL, it stops at an `assert`, its loop runs out of fuel, or it
-- returns.
pub data Ran {ℓ} (A : Type ℓ) : Type ℓ where
  crashed : Ran A
  aborted : Ran A
  unfinished : Ran A
  ran : A → Ran A

infixl 5 ◌>>=◌
abbrev pub ◌>>=◌ {ℓ κ} : {A : Type ℓ} {B : Type κ} → Ran A → (A → Ran B) → Ran B
crashed >>= next = crashed
aborted >>= next = aborted
unfinished >>= next = unfinished
ran value >>= next = next value

-- The statics of the reader: `blehostd_packet`, `blehostd_packet_len` and `blehostd_req_mq`, with the
-- memory for mbufs.
pub record Rx (os : Os) : Type 0 where
  pub packet : Option os.Mbuf
  pub packet_len : ℕ
  pub req_mq : os.Mqueue
  pub pool : os.Pool

-- The statics of the sender: `blehostd_rsp_mq` and the socket.
pub record Tx (os : Os) : Type 0 where
  pub rsp_mq : os.Mqueue
  pub socket : os.Socket
  pub pool : os.Pool

module _ (os : Os) where
  open os use {
    Mbuf, Mqueue, pktlen, copydata, adj, concat, get_pkthdr, extend, append, appendfrom, free_chain,
    mqueue_put, mqueue_get, insert_head, load16, store16, ntohs, htons, sendto,
  }

  -- The length behind the copy of the header: the argument is what `os_mbuf_copydata` returns and
  -- leaves in `blehostd_packet_len`.
  unfoldable pub header_read : Rx os → Bool × Bytes → Ran (Rx os)
  header_read rx (false, dst) = ran (record rx { packet_len = load16 dst })
  header_read rx (true, dst) = elim rx.packet [
    | none ↦ crashed
    | some m ↦
        if ltb max_msg_sz (ntohs (load16 dst))
        then ran (record rx { packet_len = pktlen m % 65536 })
        else ran (record rx { packet = some (adj m 2); packet_len = ntohs (load16 dst) })
  ]

  unfoldable pub read_header : Rx os → Ran (Rx os)
  unfolding header_read
  read_header rx =
      if rx.packet_len == 0 then header_read rx (copydata rx.packet 0 2 (0 ∷ 0 ∷ [])) else ran rx

  -- `os_mqueue_put`, the assertion, and the result 1.
  unfoldable pub put_request : Rx os → Mbuf → Ran (Bool × Rx os)
  put_request rx m =
      let put = mqueue_put rx.req_mq m in
      if put.0 then ran (true, record rx { req_mq = put.1 }) else aborted

  -- More than the packet has been received: `m` is the packet of `rx`.
  unfoldable pub split_packet : Rx os → Mbuf → Ran (Bool × Rx os)
  unfolding put_request
  split_packet rx m =
      let got = get_pkthdr rx.packet_len rx.pool in
      elim got.0 [
        | none ↦ ran (false, record rx { pool = got.1 })
        | some om ↦
            let copied = appendfrom om m 0 rx.packet_len got.1 in
            if copied.0
            then put_request
                (record rx { packet = some (adj m rx.packet_len); packet_len = 0; pool = copied.2 })
                copied.1
            else ran (false, record rx { pool = copied.2 })
      ]

  unfoldable pub take_packet : Rx os → Ran (Bool × Rx os)
  unfolding split_packet put_request
  take_packet rx = if rx.packet_len == 0 then ran (false, rx) else elim rx.packet [
    | none ↦ crashed
    | some m ↦
        if ltb (pktlen m) rx.packet_len
        then ran (false, rx)
        else if pktlen m == rx.packet_len
        then put_request (record rx { packet = none; packet_len = 0 }) m
        else split_packet rx m
  ]

  -- `blehostd_enqueue_one`
  unfoldable pub enqueue_one : Rx os → Ran (Bool × Rx os)
  unfolding read_header take_packet
  enqueue_one rx = do read ← read_header rx; take_packet read

  -- The loop of `blehostd_socket_readable`.
  unfoldable pub enqueue_all : ℕ → Rx os → Ran (Rx os)
  unfolding enqueue_one
  enqueue_all zero rx = unfinished
  enqueue_all (suc fuel) rx = do
    one ← enqueue_one rx
    elim one.0 [ true ↦ enqueue_all fuel one.1 | false ↦ ran one.1 ]

  -- The received mbuf behind what is there.
  unfoldable pub receive : Mbuf → Rx os → Rx os
  receive om rx = elim rx.packet [
    | none ↦ record rx { packet = some om }
    | some m ↦ record rx { packet = some (concat m om) }
  ]

  -- `blehostd_socket_readable`; `none` stands for an error of `mn_recvfrom`.
  unfoldable pub socket_readable : ℕ → ℤ → Option Mbuf → Rx os → Ran (Rx os)
  unfolding enqueue_all receive
  socket_readable fuel err received rx =
      if not (eqz err (pos 0))
      then aborted
      else elim received [ none ↦ ran rx | some om ↦ enqueue_all fuel (receive om rx) ]

  -- The events in which the chunks arrive, one after the other.
  unfoldable pub reads : ℕ → List Mbuf → Rx os → Ran (Rx os)
  unfolding socket_readable
  reads fuel [] rx = ran rx
  reads fuel (om ∷ oms) rx = do rx' ← socket_readable fuel (pos 0) (some om) rx; reads fuel oms rx'
