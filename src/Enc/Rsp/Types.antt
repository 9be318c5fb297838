-- ===== src/Enc/Rsp/Types.antt =====
-- The responses of apps/blehostd/src/bhd_proto.h.
use blehostd.Prelude.{ℕ, Option, List, Bytes}
use blehostd.Prelude.Int.{ℤ}
use blehostd.Status.{Error}
use blehostd.Uuid.{Uuid}
use blehostd.Enc.{BleAddr}

-- `struct bhd_commit_dsc`
pub record CommitDsc : Type 0 where
  pub uuid : Uuid
  pub handle : ℕ

-- `struct bhd_commit_chr`; the array of `num_dscs` descriptors is a list, as the arrays below.
pub record CommitChr : Type 0 where
  pub uuid : Uuid
  pub def_handle : ℕ
  pub val_handle : ℕ
  pub dscs : List CommitDsc

-- `struct bhd_commit_svc`
pub record CommitSvc : Type 0 where
  pub uuid : Uuid
  pub handle : ℕ
  pub chrs : List CommitChr

-- `struct bhd_conn_find_rsp`
pub record ConnFindRsp : Type 0 where
  pub status : ℤ
  pub conn_handle : ℕ
  pub conn_itvl : ℕ
  pub conn_latency : ℕ
  pub supervision_timeout : ℕ
  pub role : ℕ
  pub master_clock_accuracy : ℕ
  pub our_id_addr : BleAddr
  pub peer_id_addr : BleAddr
  pub our_ota_addr : BleAddr
  pub peer_ota_addr : BleAddr
  pub encrypted : ℕ
  pub authenticated : ℕ
  pub bonded : ℕ
  pub key_size : ℕ

-- The union of `struct bhd_rsp`. The members that have a status only have the same layout, and are
-- `status_rsp`.
pub data RspBody : Type 0 where
  err_rsp : ℤ → Option Bytes → RspBody
  sync_rsp : ℤ → RspBody
  status_rsp : ℤ → RspBody
  gen_rand_addr_rsp : ℤ → Bytes → RspBody
  conn_find_rsp : ConnFindRsp → RspBody
  adv_fields_rsp : ℤ → Bytes → RspBody
  commit_svcs_rsp : ℤ → List CommitSvc → RspBody
  find_chr_rsp : ℤ → ℕ → ℕ → RspBody

-- The `int` at the start of each member.
unfoldable pub status_of : RspBody → ℤ
status_of (err_rsp status msg) = status
status_of (sync_rsp synced) = synced
status_of (status_rsp status) = status
status_of (gen_rand_addr_rsp status addr) = status
status_of (conn_find_rsp rsp) = rsp.status
status_of (adv_fields_rsp status bytes) = status
status_of (commit_svcs_rsp status svcs) = status
status_of (find_chr_rsp status def_handle val_handle) = status

-- The object behind an encoder that returns 0, or the code that it returns. `garbled` stands for a read
-- of a member of the union that was not written.
pub data Encoded {ℓ} (A : Type ℓ) : Type ℓ where
  garbled : Encoded A
  failed_enc : Error → Encoded A
  encoded : Option A → Encoded A
