-- ===== src/Prelude/Int.antt =====
-- Signed integers over the native numbers, under the library's names, for the C types int and
-- long long.
use Prim.Native.Nat.{ℕ, suc, ◌+◌, ◌-◌, ◌%◌, ◌≤◌}
use mathlib.Core.Path.{◌≡◌}
use mathlib.Core.Bool.{Bool, true, false}
use native.Mathlib.Omega.{arith}
use blehostd.Prelude.Tests.{ltb, ◌==◌}

-- `negsuc n` is -(n + 1).
pub data ℤ : Type 0 where
  pos : ℕ → ℤ
  negsuc : ℕ → ℤ

abbrev pub pos_part : ℤ → ℕ
pos_part (pos n) = n
pos_part (negsuc n) = 0

abbrev pub neg_part : ℤ → ℕ
neg_part (pos n) = 0
neg_part (negsuc n) = suc n

infix 50 ◌≤ℤ◌
abbrev pub ◌≤ℤ◌ : ℤ → ℤ → Type 0
a ≤ℤ b = pos_part a + neg_part b ≤ pos_part b + neg_part a

abbrev pub ltb_ℤ : ℤ → ℤ → Bool
ltb_ℤ a b = ltb (pos_part a + neg_part b) (pos_part b + neg_part a)

-- The conversion to an unsigned type of `m` values, m = 2 ^ w.
abbrev pub to_unsigned : ℕ → ℤ → ℕ
to_unsigned m (pos n) = n % m
to_unsigned m (negsuc n) = m - suc (n % m)

abbrev pub eqz : ℤ → ℤ → Bool
eqz (pos a) (pos b) = a == b
eqz (pos a) (negsuc b) = false
eqz (negsuc a) (pos b) = false
eqz (negsuc a) (negsuc b) = a == b

pub eqz_sound : (a b : ℤ) → eqz a b ≡ true → a ≡ b
eqz_sound (pos a) (pos b) h = ground arith
eqz_sound (pos a) (negsuc b) h = cc
eqz_sound (negsuc a) (pos b) h = cc
eqz_sound (negsuc a) (negsuc b) h = ground arith

pub eqz_refl : (a : ℤ) → eqz a a ≡ true
eqz_refl (pos a) = ground arith
eqz_refl (negsuc a) = ground arith
