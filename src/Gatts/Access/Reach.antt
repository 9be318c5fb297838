-- ===== src/Gatts/Access/Reach.antt =====
-- Which states the rendezvous reaches, as long as no client sends the status 255. The steps of an access and those of
-- the client are interleaved in any way.
use blehostd.Prelude.{
  ℕ, suc, ◌+◌, ◌≤◌, ◌≡◌, ◌≢◌, refl, Bool, true, false, Option, List, [], ◌∷◌, Bytes, arith,
  if◌then◌else◌, ◌==◌,
}
use blehostd.Gatts.Access.{Access, initial, status_none, set_access_result, sem_pend, reset_status}

-- Where the access is: it does not wait or still pends, or the pend has ended one way or the other and the status is not
-- yet reset.
pub data Phase : Type 0 where
  quiet : Phase
  woken : Phase
  timed_out : Phase

abbrev pub pended : Bool → Phase
pended true = woken
pended false = timed_out

-- Whether a status is stored.
abbrev pub stored : Access → ℕ
stored a = if a.att_status == status_none then 0 else 1

-- A status that is accepted between a timeout and the reset.
abbrev pub late_set : Phase → Access → ℕ
late_set timed_out a = if a.att_status == status_none then 1 else 0
late_set _ a = 0

-- `Reachable max_len late phase a`: `late` such statuses have been accepted on the way.
pub data Reachable (max_len : ℕ) : ℕ → Phase → Access → Type 0 where
  begin : Reachable max_len 0 quiet initial
  set :
      {late : ℕ} {a : Access} (phase : Phase) (att_status : ℕ) (bytes : Option Bytes)
      → att_status ≢ status_none
      → Reachable max_len late phase a
      → Reachable max_len
          (late + late_set phase a)
          phase
          (set_access_result max_len att_status bytes a).1
  pend :
      {late : ℕ} {a : Access}
      → Reachable max_len late quiet a
      → Reachable max_len late (pended (sem_pend a).0) (sem_pend a).1
  reset :
      {late : ℕ} {a : Access} (taken : Bool)
      → Reachable max_len late (pended taken) a
      → Reachable max_len late quiet (reset_status a)

-- The count of the semaphore, with the one that the pend took.
abbrev pub released : Phase → Access → ℕ
released woken a = suc a.sem
released _ a = a.sem

-- What the semaphore may count beside the late statuses.
abbrev pub due : Phase → Access → ℕ
due timed_out a = 0
due _ a = stored a

pub record IsPaired (late : ℕ) (phase : Phase) (a : Access) : Type 0 where
  pub least : stored a ≤ released phase a
  pub most : released phase a ≤ late + due phase a

-- Statuses, of any number and with any data, one behind the other.
unfoldable pub later : ℕ → List (ℕ × Option Bytes) → Access → Access
unfolding set_access_result
later max_len [] a = a
later max_len ((status, bytes) ∷ more) a =
    later max_len more (set_access_result max_len status bytes a).1

pub later-kept :
    (max_len : ℕ) (more : List (ℕ × Option Bytes)) (a : Access)
    → a.att_status ≢ status_none
    → later max_len more a ≡ a
unfolding later set_access_result
later-kept max_len [] a ne = refl
later-kept max_len ((status, bytes) ∷ more) a ne = ground (arith, later-kept max_len more a ne)
