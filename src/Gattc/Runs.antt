-- ===== src/Gattc/Runs.antt =====
-- Runs of the discovery procedures of bhd_gattc.c, in any interleaving. The host reports results with status
-- 0 and ends a procedure with one report of another status; it reports nothing for a call that it refused.
use blehostd.Prelude.{
  ℕ, ◌≡◌, Option, none, some, List, [], ◌∷◌, ◌++◌, get_elem?, set, if◌then◌else◌,
}
use blehostd.Prelude.Int.{ℤ, pos, eqz}
use blehostd.Req.Types.{DiscAllReq, DiscChrUuidReq}
use blehostd.Enc.Send.{Evt}
use blehostd.Gattc.{
  Heap, GattHost, GattChr, GattDsc, disc_chr_cb, disc_dsc_cb, gattc_disc_all_chrs,
  gattc_disc_chr_uuid, gattc_disc_all_dscs,
}

-- A discovery that has not ended, with the sequence number of its request.
pub data Proc : Type 0 where
  chr_proc : ℕ → Proc
  dsc_proc : ℕ → Proc

-- The discovery of a call with the code `rc`.
abbrev pub started : ℤ → Proc → Option Proc
started rc proc = if eqz rc (pos 0) then some proc else none

-- `Runs host heap procs`: the heap behind some run, in which the discoveries `procs` were started; one that
-- was refused or has ended is `none`.
pub data Runs (host : GattHost) : Heap → List (Option Proc) → Type 0 where
  begin : Runs host [] []
  disc_all_chrs :
      {heap : Heap} {procs : List (Option Proc)} (seq : ℕ) (req : DiscAllReq)
      → Runs host heap procs
      → Runs host
          (gattc_disc_all_chrs host seq req heap).1
          (procs ++ (started (gattc_disc_all_chrs host seq req heap).0 (chr_proc seq) ∷ []))
  disc_chr_uuid :
      {heap : Heap} {procs : List (Option Proc)} (seq : ℕ) (req : DiscChrUuidReq)
      → Runs host heap procs
      → Runs host
          (gattc_disc_chr_uuid host seq req heap).1
          (procs ++ (started (gattc_disc_chr_uuid host seq req heap).0 (chr_proc seq) ∷ []))
  disc_all_dscs :
      {heap : Heap} {procs : List (Option Proc)} (seq : ℕ) (req : DiscAllReq)
      → Runs host heap procs
      → Runs host
          (gattc_disc_all_dscs host seq req heap).1
          (procs ++ (started (gattc_disc_all_dscs host seq req heap).0 (dsc_proc seq) ∷ []))
  chr_result :
      {heap heap' : Heap} {procs : List (Option Proc)} (seq conn_handle arg : ℕ) (status : ℤ)
      (chr : GattChr) (evt : Evt)
      → Runs host heap procs
      → get_elem? procs arg ≡ some (some (chr_proc seq))
      → disc_chr_cb conn_handle status chr arg heap ≡ some (evt, heap')
      → Runs host heap' (set procs arg (started status (chr_proc seq)))
  dsc_result :
      {heap heap' : Heap} {procs : List (Option Proc)} (seq conn_handle arg chr_def_handle : ℕ)
      (status : ℤ) (dsc : GattDsc) (evt : Evt)
      → Runs host heap procs
      → get_elem? procs arg ≡ some (some (dsc_proc seq))
      → disc_dsc_cb conn_handle status chr_def_handle dsc arg heap ≡ some (evt, heap')
      → Runs host heap' (set procs arg (started status (dsc_proc seq)))
