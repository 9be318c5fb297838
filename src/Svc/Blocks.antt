-- ===== src/Svc/Blocks.antt =====
-- Blocks from `malloc_success` that a loop fills, and results with the message in `*out_err`.
use blehostd.Prelude.{
  ℕ, suc, true, false, Option, none, some, List, [], ◌∷◌, String, ltb, length, set, replicate,
}
use blehostd.Status.{Error, Result, ok, err}

-- `undefined` is undefined behaviour: an access outside a block, or a block that is passed on while
-- an element was never written.
pub data Decoded {ℓ} (A : Type ℓ) : Type ℓ where
  done : A → Decoded A
  bad : Error → String → Decoded A
  undefined : Decoded A

infixl 5 ◌>>=◌
abbrev pub ◌>>=◌ {ℓ κ} : {A : Type ℓ} {B : Type κ} → Decoded A → (A → Decoded B) → Decoded B
done a >>= f = f a
bad e msg >>= f = bad e msg
undefined >>= f = undefined

-- `if (rc != 0) { *out_err = msg; return rc; }`
abbrev pub or_bad {ℓ} : {A : Type ℓ} → Result A → String → Decoded A
or_bad (ok a) msg = done a
or_bad (err e) msg = bad e msg

module _ {ℓ} {A : Type ℓ} where
  -- A new block of `n` elements, none of them written.
  unfoldable pub malloc : ℕ → List (Option A)
  malloc n = replicate n none

  unfoldable pub initialised : List (Option A) → Decoded (List A)
  initialised [] = done []
  initialised (none ∷ block) = undefined
  initialised (some a ∷ block) = initialised block >>= λ as'. done (a ∷ as')

-- `cJSON_ArrayForEach` with a decoder that writes to the element `ix i` of the block in round `i`. The
-- decoders clear their destination first, so a destination outside the block is undefined.
unfoldable pub fill {ℓ κ} :
    {I : Type ℓ} {A : Type κ}
    → (I → Decoded A)
    → (ℕ → ℕ)
    → List I
    → List (Option A)
    → ℕ
    → Decoded (List (Option A))
fill decode ix [] block i = done block
fill decode ix (item ∷ items) block i = elim (ltb (ix i) (length block)) [
  | true ↦ decode item >>= λ a. fill decode ix items (set block (ix i) (some a)) (suc i)
  | false ↦ undefined
]

-- The loop with a destination for each item of the array, in a block of that many elements.
unfoldable pub fill_block {ℓ κ} :
    {I : Type ℓ} {A : Type κ} → (I → Decoded A) → List I → Decoded (List A)
unfolding fill malloc
fill_block decode items = fill decode (λ i. i) items (malloc (length items)) 0 >>= initialised
