-- ===== src/Status.antt =====
-- The status codes that the functions return or write through `int *rc`, and results that carry
-- them. The codes are macros of defs/error.h and host/ble_hs.h, which are outside the repository:
-- each is a constructor of its own, and zero is `ok` or `success`.
use blehostd.Prelude.{ℕ, ◌≡◌, refl, ◌⊎◌, inl, inr}

-- A nonzero code.
pub data Error : Type 0 where
  -- the literal -1
  minus_one : Error
  sys_einval sys_enoent sys_erange sys_enomem : Error
  hs_einval hs_enomem : Error
  att_unlikely att_insufficient_res : Error
  -- no code: a read past the end of a text
  overread : Error
  -- any other nonzero code that the host returns
  host : ℕ → Error

pub data Rc : Type 0 where
  success : Rc
  fail : Error → Rc

-- A value, or the code that is left in `*rc`.
pub data Result {ℓ} (A : Type ℓ) : Type ℓ where
  err : Error → Result A
  ok : A → Result A

-- The next step runs only where the code of the last one is zero.
infixl 5 ◌>>=◌
abbrev pub ◌>>=◌ {ℓ κ} : {A : Type ℓ} {B : Type κ} → Result A → (A → Result B) → Result B
err code >>= next = err code
ok value >>= next = next value

-- A chain that succeeds has a first step that succeeds.
pub >>=-ok {ℓ κ} :
    {A : Type ℓ} {B : Type κ} {b : B} (next : A → Result B) (r : Result A)
    → (r >>= next) ≡ ok b
    → (value : A) × (next value ≡ ok b) × (r ≡ ok value)
>>=-ok next (err code) h = cc
>>=-ok next (ok value) h = (value, h, refl)

pub Result-cases {ℓ} :
    {A : Type ℓ} (r : Result A) → ((code : Error) × (r ≡ err code)) ⊎ ((value : A) × (r ≡ ok value))
Result-cases (err code) = inl (code, refl)
Result-cases (ok value) = inr (value, refl)
