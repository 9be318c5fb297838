-- ===== src/Gatts/Access.antt =====
-- The rendezvous of apps/blehostd/src/bhd_gatts.c between an access of a peer, which waits for a status,
-- and the client's access-status request, which gives it.
pub mod Reach
pub mod Callback
use blehostd.Prelude.{
  ℕ, ◌+◌, ◌-◌, Bool, true, false, Option, none, some, List, [], ◌∷◌, Bytes, if◌then◌else◌, take,
  ◌==◌,
}
use blehostd.Status.{Rc, success, fail, sys_enoent}

-- `BHD_GATTS_ACCESS_STATUS_NONE`
abbrev pub status_none : ℕ
status_none = 0xff

-- The static variables. `access_value` stands for the array up to `access_value_len`, and `sem` is the
-- count of the semaphore.
pub record Access : Type 0 where
  pub att_status : ℕ
  pub access_value : Bytes
  pub sem : ℕ

-- After `bhd_gatts_init`.
abbrev pub initial : Access
initial = record { att_status = status_none; access_value = []; sem = 0 }

unfoldable pub set_access_value : ℕ → Option Bytes → Bytes → Bytes
set_access_value max_len (some bytes) old = take max_len bytes
set_access_value max_len none old = old

-- `bhd_gatts_set_access_result`; `max_len` is the size of the array. The operating system's
-- `os_sem_release` adds one to the count and returns 0.
unfoldable pub set_access_result : ℕ → ℕ → Option Bytes → Access → Rc × Access
unfolding set_access_value
set_access_result max_len att_status bytes a =
    if a.att_status == status_none
    then (
      success,
      record {
        att_status = att_status;
        access_value = set_access_value max_len bytes a.access_value;
        sem = a.sem + 1;
      },
    )
    else (fail sys_enoent, a)

-- `os_sem_pend`: it takes one from the count where that is positive, and times out where it stays 0.
unfoldable pub sem_pend : Access → Bool × Access
sem_pend a = if a.sem == 0 then (false, a) else (true, record a { sem = a.sem - 1 })

-- The local variable `status` behind the pend: `none` stands for BLE_ATT_ERR_UNLIKELY after the timeout.
unfoldable pub read_status : Bool → Access → Option ℕ
read_status taken a = if taken then some a.att_status else none

-- Both ways the status is reset, outside the critical section that guards it elsewhere.
unfoldable pub reset_status : Access → Access
reset_status a = record a { att_status = status_none }

-- `bhd_gatts_wait_for_access_status`, with what requests do to the state between the pend and the read of the status,
-- and between that and the reset. The result has the value, and the state.
unfoldable pub wait_for_access_status :
    (Access → Access) → (Access → Access) → Access → Option ℕ × Bytes × Access
unfolding sem_pend read_status reset_status
wait_for_access_status window window' a =
    let (taken, pended) = sem_pend a in
    let seen = window pended in
    let behind = reset_status (window' seen) in
    (read_status taken seen, behind.access_value, behind)
