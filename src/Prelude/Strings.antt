-- ===== src/Prelude/Strings.antt =====
-- C strings: the bytes before the terminating NUL, with `strcmp` as an equality test.
use Prim.Native.Nat.{ℕ, ◌<◌}
use Prim.Native.Char.{code}
use Prim.Native.String.{String}
use mathlib.Core.Path.{◌≡◌, refl}
use mathlib.Core.Bool.{Bool, true, false, ◌&&◌}
use mathlib.Core.List.{List, [], ◌∷◌, ◌++◌}
use native.Mathlib.Omega.{arith}
use blehostd.Prelude.Tests.{◌==◌}

abbrev pub Bytes : Type 0
Bytes = List ℕ

-- The bytes of an ASCII literal.
abbrev pub codes : String → Bytes
codes String.[] = []
codes (String.◌∷◌ c s) = code c ∷ codes s

-- `strcmp(a, b) == 0`
abbrev pub streq : Bytes → Bytes → Bool
streq [] [] = true
streq [] (_ ∷ _) = false
streq (_ ∷ _) [] = false
streq (x ∷ xs) (y ∷ ys) = x == y && streq xs ys

pub streq_sound : (a b : Bytes) → streq a b ≡ true → a ≡ b
streq_sound [] [] h = refl
streq_sound [] (y ∷ ys) h = ground arith
streq_sound (x ∷ xs) [] h = ground arith
streq_sound (x ∷ xs) (y ∷ ys) h = ground (arith, streq_sound xs ys)

pub streq_refl : (a : Bytes) → streq a a ≡ true
streq_refl [] = refl
streq_refl (x ∷ xs) = ground (arith, streq_refl xs)

module _ {ℓ κ} {A : Type ℓ} (P : A → Type κ) where
  abbrev pub All : List A → Type κ
  All [] = Unit
  All (x ∷ xs) = P x × All xs

  pub All-append : (xs ys : List A) → All xs → All ys → All (xs ++ ys)
  All-append [] ys _ hy = hy
  All-append (x ∷ xs) ys (px, hx) hy = (px, All-append xs ys hx hy)

-- A value of `uint8_t`.
abbrev pub IsByte : ℕ → Type 0
IsByte c = c < 256
