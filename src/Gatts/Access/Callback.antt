-- ===== src/Gatts/Access/Callback.antt =====
-- `bhd_gatts_access` of apps/blehostd/src/bhd_gatts.c, the callback of the host for an access of a peer.
use blehostd.Prelude.{
  ℕ, ◌+◌, ◌≡◌, ◌≢◌, refl, Bool, true, Option, none, some, List, [], ◌∷◌, ◌++◌, take, Bytes, arith,
  if◌then◌else◌, ◌==◌, ◌||◌, ◌&&◌,
}
use blehostd.Enc.Send.{Evt}
use blehostd.Gap.Calls.{send_access_evt}
use blehostd.Gatts.Access.{
  Access, status_none, set_access_value, set_access_result, sem_pend, read_status, reset_status,
  wait_for_access_status,
}
use blehostd.Gatts.Access.Reach.{later, later-kept}

-- The functions and macros of the host, with BLE_ATT_ATTR_MAX_LEN. A function that fails is `none`;
-- `mbuf_to_flat` has the size of the buffer first.
pub record AccessHost : Type 1 where
  pub Mbuf : Type 0
  pub mbuf_to_flat : ℕ → Mbuf → Option Bytes
  pub mbuf_append : Mbuf → Bytes → Option Mbuf
  pub att_attr_max_len : ℕ
  pub op_read_chr : ℕ
  pub op_read_dsc : ℕ
  pub err_unlikely : ℕ
  pub err_insufficient_res : ℕ

-- `struct ble_gatt_access_ctxt`
pub record Ctxt (Mbuf : Type 0) : Type 0 where
  pub op : ℕ
  pub om : Option Mbuf

-- The code that the host gets and the chain behind the call, with the state. `undefined` stands for a copy of
-- fields that were not written.
pub data Accessed (Mbuf : Type 0) : Type 0 where
  returned : ℕ → Option Mbuf → Access → Accessed Mbuf
  undefined : Accessed Mbuf

module _ (host : AccessHost) where
  open host use {
    Mbuf, mbuf_to_flat, mbuf_append, att_attr_max_len, op_read_chr, op_read_dsc, err_unlikely,
    err_insufficient_res,
  }

  abbrev pub is_read : ℕ → Bool
  is_read op = op == op_read_chr || op == op_read_dsc

  -- From the test of `ctxt->op` on: the code and the chain.
  unfoldable pub append_value : ℕ → Mbuf → Bytes → ℕ × Option Mbuf
  append_value op om attr_val =
      if is_read op
      then elim (mbuf_append om attr_val) [
        | none ↦ (err_insufficient_res, some om)
        | some om' ↦ (0, some om')
      ]
      else (0, some om)

  -- From the wait on.
  unfoldable pub access_status : ℕ → Mbuf → Option ℕ × Bytes × Access → Accessed Mbuf
  unfolding append_value
  access_status op om (none, attr_val, a) = returned err_unlikely (some om) a
  access_status op om (some status, attr_val, a) =
      if status == 0
      then (let (rc, om') = append_value op om attr_val in returned rc om' a)
      else returned status (some om) a

  -- `send` tells whether `bhd_send_access_evt` returns 0; `meanwhile`, `window` and `window'` are what the requests of
  -- the client do to the state before the pend ends, from there to the read of the status, and from there to the
  -- reset. No request is handled between the reset and the copy of the value.
  unfoldable pub gatts_access :
      (Evt → Bool)
      → (Access → Access)
      → (Access → Access)
      → (Access → Access)
      → ℕ
      → ℕ
      → Ctxt Mbuf
      → ℕ
      → Access
      → Accessed Mbuf
  unfolding access_status wait_for_access_status send_access_evt
  gatts_access send meanwhile window window' conn_handle attr_handle ctxt arg a = elim ctxt.om [
    | none ↦ undefined
    | some om ↦ elim (mbuf_to_flat (att_attr_max_len + 3) om) [
      | none ↦ returned err_unlikely (some om) a
      | some buf ↦
          if send (
            send_access_evt arg (record {
              access_op = ctxt.op;
              conn_handle = conn_handle;
              att_handle = attr_handle;
              bytes = buf;
            }))
          then access_status ctxt.op om (wait_for_access_status window window' (meanwhile a))
          else returned err_unlikely (some om) a
    ]
  ]

-- No status is 255.
abbrev pub AreStatuses : List (ℕ × Option Bytes) → Type 0
AreStatuses [] = Unit {0}
AreStatuses ((status, bytes) ∷ more) = (status ≢ status_none) × AreStatuses more

-- The data of an answer, cut to the size of the array, or those of an earlier answer if it has none.
abbrev pub value_of : ℕ → Option Bytes → Bytes → Bytes
value_of max_len none old = old
value_of max_len (some bytes) old = take max_len bytes

-- The state with no status and the semaphore not released.
abbrev pub at_rest : Bytes → Access
at_rest value = record { att_status = status_none; access_value = value; sem = 0 }

-- How a wait ends to which the client gives `answers` before the pend ends, and `late` between that and the reset: the
-- first of the answers counts, and with none the wait fails. A late answer then leaves its data, and the semaphore
-- released with no status.
abbrev pub ended :
    ℕ → List (ℕ × Option Bytes) → List (ℕ × Option Bytes) → Bytes → Option ℕ × Bytes × Access
ended max_len ((status, bytes) ∷ more) late old =
    (some status, value_of max_len bytes old, at_rest (value_of max_len bytes old))
ended max_len [] ((status, bytes) ∷ more) old = (
  none,
  value_of max_len bytes old,
  record { att_status = status_none; access_value = value_of max_len bytes old; sem = 1 },
)
ended max_len [] [] old = (none, old, at_rest old)

wait-later :
    (max_len : ℕ) (answers late late' : List (ℕ × Option Bytes)) (old : Bytes)
    → AreStatuses answers
    → AreStatuses late
    → AreStatuses late'
    → wait_for_access_status
        (later max_len late)
        (later max_len late')
        (later max_len answers (at_rest old))
      ≡ ended max_len answers (late ++ late') old
unfolding wait_for_access_status sem_pend read_status reset_status later set_access_result
    set_access_value
wait-later max_len [] [] [] old s l l' = refl
wait-later max_len [] [] ((status, bytes) ∷ more) old s l (ne, l') =
    let kept =
      later-kept max_len more
        (record { att_status = status; access_value = set_access_value max_len bytes old; sem = 1 })
        ne in
    ground (arith, kept)
wait-later max_len [] ((status, bytes) ∷ more) late' old s (ne, l) l' =
    let next : Access = record {
      att_status = status;
      access_value = set_access_value max_len bytes old;
      sem = 1;
    } in
    ground (arith, later-kept max_len more next ne, later-kept max_len late' next ne)
wait-later max_len ((status, bytes) ∷ more) late late' old (ne, s) l l' =
    let next : Access = record {
      att_status = status;
      access_value = set_access_value max_len bytes old;
      sem = 1;
    } in
    let pended : Access = record next { sem = 0 } in
    ground (
      arith,
      later-kept max_len more next ne,
      later-kept max_len late pended ne,
      later-kept max_len late' pended ne,
    )

module _ (host : AccessHost) where
  open host use {
    Mbuf, mbuf_to_flat, mbuf_append, att_attr_max_len, op_read_chr, op_read_dsc, err_unlikely,
    err_insufficient_res,
  }

  abbrev appended : Mbuf → Option Mbuf → ℕ × Option Mbuf
  appended om none = (err_insufficient_res, some om)
  appended om (some longer) = (0, some longer)

  -- What the peer gets of a status and a value: the value where it reads and the status is 0.
  abbrev pub peer_gets : ℕ → Mbuf → Option ℕ × Bytes → ℕ × Option Mbuf
  peer_gets op om (none, value) = (err_unlikely, some om)
  peer_gets op om (some status, value) =
      if status == 0 && (op == op_read_chr || op == op_read_dsc)
      then appended om (mbuf_append om value)
      else (status, some om)

  access_status-gets :
      (op : ℕ) (om : Mbuf) (status : Option ℕ) (value : Bytes) (a : Access)
      → access_status host op om (status, value, a)
        ≡ returned (peer_gets op om (status, value)).0 (peer_gets op om (status, value)).1 a
  unfolding access_status append_value
  access_status-gets op om none value a = refl
  access_status-gets op om (some status) value a = ground arith

  -- An access that reaches the client in a state with no status stored and the semaphore not released, where no
  -- answer of the client has the status 255 and none is handled between the reset of the status and the copy of the
  -- value. The peer gets the status of the client's first answer before the pend ends, or the error
  -- BLE_ATT_ERR_UNLIKELY if there is none. Where the status is 0 and the operation a read, the chain gets the value: the
  -- data of that answer, cut to the size of the array, or if it has none those of an earlier answer; and the error
  -- BLE_ATT_ERR_INSUFFICIENT_RES is given if they do not fit. Behind the call no status is stored, and the
  -- semaphore is released exactly if the pend timed out and an answer came between that and the reset.
  pub gatts_access-first :
      (send : Evt → Bool) (answers late late' : List (ℕ × Option Bytes))
      (conn_handle attr_handle op : ℕ) (om : Mbuf) (buf : Bytes) (arg : ℕ) (old : Bytes)
      → AreStatuses answers
      → AreStatuses late
      → AreStatuses late'
      → mbuf_to_flat (att_attr_max_len + 3) om ≡ some buf
      → send (
          send_access_evt arg (record {
            access_op = op;
            conn_handle = conn_handle;
            att_handle = attr_handle;
            bytes = buf;
          }))
        ≡ true
      → gatts_access host send
          (later att_attr_max_len answers)
          (later att_attr_max_len late)
          (later att_attr_max_len late')
          conn_handle
          attr_handle
          (record { op = op; om = some om })
          arg
          (at_rest old)
        ≡ (let (status, value, behind) = ended att_attr_max_len answers (late ++ late') old in
            returned (peer_gets op om (status, value)).0 (peer_gets op om (status, value)).1 behind)
  unfolding gatts_access
  gatts_access-first send answers late late' conn_handle attr_handle op om buf arg old s l l' flat
        sent =
      let e = ended att_attr_max_len answers (late ++ late') old in
      rw
        (
          gatts_access,
          flat,
          sent,
          wait-later att_attr_max_len answers late late' old s l l',
          access_status-gets op om e.0 e.1 e.2,
        )
        refl
