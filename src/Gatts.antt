-- ===== src/Gatts.antt =====
-- The service registry of apps/blehostd/src/bhd_gatts.c: the static tables, and the functions that count
-- what a request needs and copy its services into them.
pub mod Room
pub mod Bounds
pub mod Access
pub mod Commit
use blehostd.Prelude.{
  ℕ, zero, suc, ◌+◌, Bool, true, false, Option, none, some, List, [], ◌∷◌, ltb, leb, ◌==◌,
  if◌then◌else◌, length,
}
use blehostd.Status.{Rc, success, fail, hs_enomem}
use blehostd.Uuid.{Uuid}
use blehostd.Svc.{Dsc, Chr, Svc}
use blehostd.Seq.{next_evt_seq}

abbrev pub max_svcs : ℕ
max_svcs = 32

abbrev pub max_chrs : ℕ
max_chrs = 512

abbrev pub max_dscs : ℕ
max_dscs = 2048

abbrev pub max_uuids : ℕ
max_uuids = max_svcs + max_chrs + max_dscs

abbrev pub max_val_handles : ℕ
max_val_handles = max_chrs

-- The elements of the tables, as far as they are written. A pointer into another table is an index, and
-- `none` is NULL, which static storage begins with. The access callback is always `bhd_gatts_access`.
pub record SvcDef : Type 0 where
  pub type : ℕ
  pub uuid : Option ℕ
  pub characteristics : Option ℕ

pub record ChrDef : Type 0 where
  pub uuid : Option ℕ
  pub flags : ℕ
  pub min_key_size : ℕ
  pub arg : ℕ
  pub val_handle : Option ℕ
  pub descriptors : Option ℕ

pub record DscDef : Type 0 where
  pub uuid : Option ℕ
  pub att_flags : ℕ
  pub min_key_size : ℕ
  pub arg : ℕ

-- The tables, how much of each is used, and the `next_seq` of `bhd_next_evt_seq`. The functions read and
-- write a table only below its size, or stop at an `assert`.
pub record Gatts : Type 0 where
  pub svcs : ℕ → SvcDef
  pub chrs : ℕ → ChrDef
  pub dscs : ℕ → DscDef
  pub uuids : ℕ → Option Uuid
  pub num_svcs : ℕ
  pub num_chrs : ℕ
  pub num_dscs : ℕ
  pub num_uuids : ℕ
  pub num_val_handles : ℕ
  pub next_seq : ℕ

abbrev pub update {ℓ} : {A : Type ℓ} → (ℕ → A) → ℕ → A → ℕ → A
update table i a j = if i == j then a else table j

-- What `bhd_gatts_cnt_resources` counts.
pub record Need : Type 0 where
  pub svcs : ℕ
  pub chrs : ℕ
  pub dscs : ℕ
  pub val_handles : ℕ

-- The inner loop over the characteristics of a service.
unfoldable pub cnt_dscs : List Chr → ℕ → ℕ
cnt_dscs [] out_num_dscs = out_num_dscs
cnt_dscs (chr ∷ chrs) out_num_dscs =
    let n = out_num_dscs + length chr.dscs in
    cnt_dscs chrs (if ltb 0 (length chr.dscs) then n + 1 else n)

unfoldable pub cnt_svcs : List Svc → Need → Need
unfolding cnt_dscs
cnt_svcs [] need = need
cnt_svcs (svc ∷ svcs) need =
    let chrs = need.chrs + length svc.chrs in
    cnt_svcs svcs (record need {
      chrs = if ltb 0 chrs then chrs + 1 else chrs;
      dscs = cnt_dscs svc.chrs need.dscs;
      val_handles = need.val_handles + length svc.chrs;
    })

unfoldable pub cnt_resources : List Svc → Need
unfolding cnt_svcs
cnt_resources svcs =
    cnt_svcs svcs (record { svcs = length svcs + 1; chrs = 0; dscs = 0; val_handles = 0 })

unfoldable pub verify_resource_cnt : Gatts → List Svc → Rc
verify_resource_cnt g svcs =
    let need = cnt_resources svcs in
    if ltb max_svcs (g.num_svcs + need.svcs)
    then fail hs_enomem
    else if ltb max_chrs (g.num_chrs + need.chrs)
    then fail hs_enomem
    else if ltb max_dscs (g.num_dscs + need.dscs)
    then fail hs_enomem
    else if ltb max_uuids (g.num_uuids + (need.svcs + need.chrs + need.dscs))
    then fail hs_enomem
    else if ltb max_val_handles (g.num_val_handles + need.val_handles)
    then fail hs_enomem
    else success

-- A step that may stop at an `assert`.
infixl 5 ◌>>=◌
abbrev pub ◌>>=◌ {ℓ κ} : {A : Type ℓ} {B : Type κ} → Option A → (A → Option B) → Option B
none >>= f = none
some a >>= f = f a

abbrev pub assert {ℓ} : {A : Type ℓ} → Bool → Option A → Option A
assert true m = m
assert false m = none

-- The index of the copy, and the new state.
unfoldable pub save_uuid : Uuid → Gatts → Option (ℕ × Gatts)
save_uuid src g = assert (ltb g.num_uuids max_uuids) (
    some (
      g.num_uuids,
      record g { uuids = update g.uuids g.num_uuids (some src); num_uuids = g.num_uuids + 1 },
    ))

unfoldable pub save_dsc : Dsc → Gatts → Option Gatts
unfolding save_uuid next_evt_seq
save_dsc dsc g = assert (ltb g.num_dscs max_dscs) (
    save_uuid dsc.uuid g >>= λ (dstu, g').
    (let (seq, next) = next_evt_seq g'.next_seq in
      some (record g' {
        dscs = update g'.dscs g'.num_dscs (record {
          uuid = some dstu;
          att_flags = dsc.att_flags;
          min_key_size = dsc.min_key_size;
          arg = seq;
        });
        num_dscs = g'.num_dscs + 1;
        next_seq = next;
      })))

unfoldable pub save_dscs : List Dsc → Gatts → Option Gatts
unfolding save_dsc
save_dscs [] g = some g
save_dscs (dsc ∷ dscs) g = save_dsc dsc g >>= save_dscs dscs

-- `descriptors` is written, and a null terminator is left behind them, only where there are any.
unfoldable pub save_chr_dscs : List Dsc → Gatts → Option Gatts
unfolding save_dscs
save_chr_dscs [] g = some g
save_chr_dscs (dsc ∷ dscs) g =
    let c = g.num_chrs in
    save_dscs (dsc ∷ dscs)
      (record g { chrs = update g.chrs c (record (g.chrs c) { descriptors = some g.num_dscs }) })
    >>= λ g'. some (record g' { num_dscs = g'.num_dscs + 1 })

-- The fields that `bhd_gatts_save_chr` writes before the descriptors.
unfoldable pub write_chr : Chr → ℕ → Gatts → Gatts
unfolding next_evt_seq
write_chr chr dstu g =
    let (seq, next) = next_evt_seq g.next_seq in
    record g {
      chrs = update g.chrs g.num_chrs (record (g.chrs g.num_chrs) {
        uuid = some dstu;
        flags = chr.flags;
        min_key_size = chr.min_key_size;
        arg = seq;
        val_handle = some g.num_val_handles;
      });
      num_val_handles = g.num_val_handles + 1;
      next_seq = next;
    }

unfoldable pub save_chr : Chr → Gatts → Option Gatts
unfolding save_uuid write_chr save_chr_dscs
save_chr chr g = assert (ltb g.num_chrs max_chrs) (
    save_uuid chr.uuid g >>= λ (dstu, g').
    (save_chr_dscs chr.dscs (write_chr chr dstu g') >>= λ g''.
    some (record g'' { num_chrs = g''.num_chrs + 1 })))

unfoldable pub save_chrs : List Chr → Gatts → Option Gatts
unfolding save_chr
save_chrs [] g = some g
save_chrs (chr ∷ chrs) g = save_chr chr g >>= save_chrs chrs

unfoldable pub save_svc_chrs : List Chr → Gatts → Option Gatts
unfolding save_chrs
save_svc_chrs [] g = some g
save_svc_chrs (chr ∷ chrs) g =
    let s = g.num_svcs in
    save_chrs (chr ∷ chrs) (record g {
      svcs = update g.svcs s (record (g.svcs s) { characteristics = some g.num_chrs });
    })
    >>= λ g'. some (record g' { num_chrs = g'.num_chrs + 1 })

-- The fields that `bhd_gatts_save_svc` writes before the characteristics.
unfoldable pub write_svc : Svc → ℕ → Gatts → Gatts
write_svc svc dstu g = record g {
  svcs =
      update g.svcs g.num_svcs (record (g.svcs g.num_svcs) { type = svc.type; uuid = some dstu });
}

unfoldable pub save_svc : Svc → Gatts → Option Gatts
unfolding save_uuid write_svc save_svc_chrs
save_svc svc g = assert (ltb g.num_svcs max_svcs) (
    save_uuid svc.uuid g >>= λ (dstu, g').
    (save_svc_chrs svc.chrs (write_svc svc dstu g') >>= λ g''.
    some (record g'' { num_svcs = g''.num_svcs + 1 })))

unfoldable pub save_svcs : List Svc → Gatts → Option Gatts
unfolding save_svc
save_svcs [] g = some g
save_svcs (svc ∷ svcs) g = save_svc svc g >>= save_svcs svcs

-- `bhd_gatts_add_svcs`: the status that is written to the response, if one is, and the new state, or
-- `none` where an `assert` fails.
unfoldable pub add_svcs : List Svc → Gatts → Option (Option Rc × Gatts)
unfolding save_svcs
add_svcs svcs g = elim (verify_resource_cnt g svcs) [
  | fail e ↦ some (some (fail e), g)
  | success ↦ save_svcs svcs g >>= λ g'. some (none, record g' { num_svcs = g'.num_svcs + 1 })
]

-- `bhd_gatts_clear_svcs`, but for the host's own `ble_gatts_reset`: the counts, not the tables.
unfoldable pub clear_svcs : Gatts → Gatts
clear_svcs g = record g {
  num_svcs = 0;
  num_chrs = 0;
  num_dscs = 0;
  num_uuids = 0;
  num_val_handles = 0;
}
