-- ===== src/Req/Outcome.antt =====
-- How a request handler of apps/blehostd/src/bhd_proto.c ends: with a call, or with an error that it
-- writes to the response.
use blehostd.Prelude.{ℕ, ◌^◌, String}
use blehostd.Prelude.Int.{ℤ, to_unsigned}
use blehostd.Status.{Error, Result, ok, err}

-- The statements that write an error: `bhd_err_build` or `bhd_err_fill` and `return 1`, the same with
-- `return bhd_err_build(...)`, whose value is the status, and `rsp->x.status = rc; return 1`. Each
-- returns a nonzero value.
pub data Form : Type 0 where
  build build_returned fill fill_returned status_only : Form

pub data Outcome {ℓ} (A : Type ℓ) : Type ℓ where
  accepted : A → Outcome A
  rejected : Form → Error → String → Outcome A
  -- undefined behaviour on the way
  undefined : Outcome A

infixl 5 ◌>>=◌
abbrev pub ◌>>=◌ {ℓ κ} : {A : Type ℓ} {B : Type κ} → Outcome A → (A → Outcome B) → Outcome B
accepted a >>= handler = handler a
rejected form e msg >>= handler = rejected form e msg
undefined >>= handler = undefined

-- `if (rc != 0)`, and the statement.
abbrev pub or_reject {ℓ} : {A : Type ℓ} → Form → Result A → String → Outcome A
or_reject form (ok a) msg = accepted a
or_reject form (err e) msg = rejected form e msg

abbrev pub u8 : ℤ → ℕ
u8 = to_unsigned (2 ^ 8)

abbrev pub u16 : ℤ → ℕ
u16 = to_unsigned (2 ^ 16)

abbrev pub u32 : ℤ → ℕ
u32 = to_unsigned (2 ^ 32)

-- Macros of the host: BLE_ATT_ATTR_MAX_LEN, BLE_HCI_MAX_ADV_DATA_LEN, BLE_HS_ADV_MAX_FIELD_SZ and
-- BLE_UUID_STR_LEN.
pub record HostSizes : Type 0 where
  pub att_attr_max_len : ℕ
  pub hci_max_adv_data_len : ℕ
  pub adv_max_field_sz : ℕ
  pub uuid_str_len : ℕ
