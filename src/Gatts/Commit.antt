-- ===== src/Gatts/Commit.antt =====
-- The rest of the request handlers of apps/blehostd/src/bhd_gatts.c: `bhd_gatts_commit_svcs`, which gives the
-- tables to the host and describes them to the client, and `bhd_gatts_find_chr`.
pub mod Saved
pub mod Layout
pub mod Described
pub mod Again
use blehostd.Prelude.{
  ℕ, zero, suc, ◌+◌, ◌-◌, ◌%◌, ◌^◌, Bool, true, false, not, Option, none, some, List, [], ◌∷◌, ltb,
  if◌then◌else◌, length,
}
use blehostd.Prelude.Int.{ℤ, pos, eqz}
use blehostd.Uuid.{Uuid}
use blehostd.Req.Types.{FindChrReq}
use blehostd.Enc.Rsp.{CommitChr, CommitSvc, RspBody, commit_svcs_rsp, find_chr_rsp}
use blehostd.Gatts.{Gatts, SvcDef, ChrDef, max_svcs, max_chrs}

-- What the host and the C library do: the codes of `ble_gatts_count_cfg` and `ble_gatts_add_svcs`, which get the
-- table of services, and of `ble_gatts_start`, with the value handles that it writes; whether `calloc` gives
-- the n-th block of so many elements; and `ble_gatts_find_chr`, with the two handles. `size_modulus` is one
-- more than SIZE_MAX.
pub record GattsHost : Type 0 where
  pub gatts_count_cfg : Gatts → ℤ
  pub gatts_add_svcs : Gatts → ℤ
  pub gatts_start : Gatts → ℤ × (ℕ → ℕ)
  pub calloc : ℕ → ℕ → Bool
  pub size_modulus : ℕ
  pub gatts_find_chr : Uuid → Uuid → ℤ × ℕ × ℕ

-- A value, a block that was not given, or a read through NULL, behind a block or a table, or of an element that
-- was never written.
pub data Filled {ℓ} (A : Type ℓ) : Type ℓ where
  filled : A → Filled A
  no_memory : Filled A
  undefined : Filled A

infixl 5 ◌>>=◌
abbrev pub ◌>>=◌ {ℓ κ} : {A : Type ℓ} {B : Type κ} → Filled A → (A → Filled B) → Filled B
filled a >>= f = f a
no_memory >>= f = no_memory
undefined >>= f = undefined

-- What a pointer, or an element that may not have been written, stands for.
abbrev pub deref {ℓ} : {A : Type ℓ} → Option A → Filled A
deref none = undefined
deref (some a) = filled a

-- `ble_uuid_copy` from a pointer into the table of UUIDs
unfoldable pub copy_uuid : Gatts → Option ℕ → Filled Uuid
copy_uuid g p = deref p >>= λ u. deref (g.uuids u)

-- The loop that counts the characteristics from an element of the table on; the fuel is the number of elements
-- to the end of the table.
unfoldable pub count_chrs : Gatts → ℕ → ℕ → ℕ → Filled ℕ
count_chrs g zero i num_chrs = undefined
count_chrs g (suc left) i num_chrs = elim (g.chrs i).uuid [
  | none ↦ filled num_chrs
  | some _ ↦ count_chrs g left (suc i) (suc num_chrs)
]

-- An element of `dst_svc->chrs`, in a block that `calloc` set to 0.
unfoldable pub commit_chr : Gatts → (ℕ → ℕ) → ChrDef → Filled CommitChr
unfolding copy_uuid
commit_chr g val_handles src_chr = copy_uuid g src_chr.uuid >>= λ uuid.
    deref src_chr.val_handle >>= λ p. filled (record {
      uuid = uuid;
      val_handle = val_handles p;
      def_handle = (val_handles p + 2 ^ 16 - 1) % 2 ^ 16;
      dscs = [];
    })

unfoldable pub commit_chrs : Gatts → (ℕ → ℕ) → ℕ → ℕ → Filled (List CommitChr)
unfolding commit_chr
commit_chrs g val_handles zero i = filled []
commit_chrs g val_handles (suc n) i = commit_chr g val_handles (g.chrs i) >>= λ chr.
    commit_chrs g val_handles n (suc i) >>= λ chrs. filled (chr ∷ chrs)

module _ (host : GattsHost) where
  open host use {gatts_count_cfg, gatts_add_svcs, gatts_start, calloc, size_modulus, gatts_find_chr}

  -- The blocks are numbered: 0 is that of the services, and `si + 1` that of the service `si`.
  unfoldable pub commit_svc : Gatts → (ℕ → ℕ) → ℕ → SvcDef → Filled CommitSvc
  unfolding copy_uuid count_chrs commit_chrs
  commit_svc g val_handles si src_svc = copy_uuid g src_svc.uuid >>= λ uuid.
      deref src_svc.characteristics >>= λ first.
      count_chrs g (max_chrs - first) first 0 >>= λ num_chrs.
      (if calloc (si + 1) num_chrs then commit_chrs g val_handles num_chrs first else no_memory)
      >>= λ chrs. filled (record { uuid = uuid; handle = 0; chrs = chrs })

  unfoldable pub commit_loop : Gatts → (ℕ → ℕ) → ℕ → ℕ → Filled (List CommitSvc)
  unfolding commit_svc
  commit_loop g val_handles zero si = filled []
  commit_loop g val_handles (suc n) si = commit_svc g val_handles si (g.svcs si) >>= λ svc.
      commit_loop g val_handles n (suc si) >>= λ svcs. filled (svc ∷ svcs)

  -- From the code of `ble_gatts_start` on. On the way out with no memory for the characteristics of a service the
  -- loop that frees the blocks reads one element behind the array.
  unfoldable pub describe_svcs : Gatts → (ℕ → ℕ) → Filled (List CommitSvc)
  unfolding commit_loop
  describe_svcs g val_handles = elim (commit_loop g val_handles (g.num_svcs - 1) 0) [
    | filled svcs ↦ filled svcs
    | no_memory ↦ undefined
    | undefined ↦ undefined
  ]

  -- The number of elements that the first `calloc` is called with, as a `size_t`.
  abbrev pub num_elements : Gatts → ℕ
  num_elements g = (g.num_svcs + size_modulus - 1) % size_modulus

  unfoldable pub start_svcs : Gatts → Filled RspBody
  unfolding describe_svcs
  start_svcs g =
      let (rc, val_handles) = gatts_start g in
      if not (eqz rc (pos 0))
      then filled (commit_svcs_rsp rc [])
      else if not (calloc 0 (num_elements g))
      then filled (commit_svcs_rsp rc [])
      else (describe_svcs g val_handles >>= λ svcs. filled (commit_svcs_rsp (pos 0) svcs))

  -- `bhd_gatts_commit_svcs`. The response begins as zeroes, and its status is written on an error only. Where there
  -- are no services and the first `calloc` succeeds, `num_svcs` is -1, which the encoder reads as no services.
  unfoldable pub commit_svcs : Gatts → Filled RspBody
  unfolding start_svcs
  commit_svcs g =
      if ltb 0 g.num_svcs
      then (if not (eqz (gatts_count_cfg g) (pos 0))
          then filled (commit_svcs_rsp (gatts_count_cfg g) [])
          else if not (eqz (gatts_add_svcs g) (pos 0))
          then filled (commit_svcs_rsp (gatts_add_svcs g) [])
          else start_svcs g)
      else start_svcs g

  unfoldable pub find_chr : FindChrReq → RspBody
  find_chr req =
      let (status, def_handle, val_handle) = gatts_find_chr req.svc_uuid req.chr_uuid in
      find_chr_rsp status def_handle val_handle
