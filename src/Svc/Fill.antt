-- ===== src/Svc/Fill.antt =====
-- A block that is filled from its start holds all the decoded elements.
use blehostd.Prelude.{
  ℕ, suc, ◌+◌, ◌≡◌, refl, sym, ap, ◌∙◌, true, Option, none, some, List, [], ◌∷◌, ◌++◌, map, arith,
  ltb, lt→ltb, length, set, replicate, append-nil, append_assoc, length-append, length-replicate,
}
use blehostd.Svc.Blocks.{Decoded, done, bad, undefined, ◌>>=◌, malloc, fill, initialised}

-- What the loops are meant to compute: every element decoded in order, or the first error.
unfoldable pub traverse {ℓ κ} :
    {I : Type ℓ} {A : Type κ} → (I → Decoded A) → List I → Decoded (List A)
traverse decode [] = done []
traverse decode (item ∷ items) =
    decode item >>= λ a. traverse decode items >>= λ rest. done (a ∷ rest)

module _ {I A : Type 0} (decode : I → Decoded A) where
  -- A block whose first elements are written.
  abbrev partial : List A → ℕ → List (Option A)
  partial xs n = map some xs ++ replicate n none

  set-partial :
      (xs : List A) (n : ℕ) (a : A)
      → set (partial xs (suc n)) (length xs) (some a) ≡ partial (xs ++ a ∷ []) n
  set-partial [] n a = refl
  set-partial (x ∷ xs) n a = ap (λ l. some x ∷ l) (set-partial xs n a)

  length-partial : (xs : List A) (n : ℕ) → length (partial xs n) ≡ length xs + n
  length-partial [] n = length-replicate n none ∙ omega arith
  length-partial (x ∷ xs) n = omega (arith, length-partial xs n)

  initialised-partial : (xs : List A) → initialised (partial xs 0) ≡ done xs
  unfolding initialised
  initialised-partial [] = refl
  initialised-partial (x ∷ xs) = rw (initialised-partial xs)

  bind-append :
      (xs : List A) (a : A) (r : Decoded (List A))
      → (r >>= λ rest. done ((xs ++ a ∷ []) ++ rest))
        ≡ ((r >>= λ rest. done (a ∷ rest)) >>= λ rest. done (xs ++ rest))
  bind-append xs a (done ys) = ap done (append_assoc xs (a ∷ []) ys)
  bind-append xs a (bad e m) = refl
  bind-append xs a undefined = refl

  fill-partial :
      (items : List I) (xs : List A)
      → (fill decode (λ i. i) items (partial xs (length items)) (length xs) >>= initialised)
        ≡ (traverse decode items >>= λ rest. done (xs ++ rest))
  unfolding fill traverse
  fill-partial [] xs = initialised-partial xs ∙ ap done (sym (append-nil xs))
  fill-partial (item ∷ items) xs =
      let n = length items in
      let room : ltb (length xs) (length (partial xs (suc n))) ≡ true =
        lt→ltb _ _ (omega (arith, length-partial xs (suc n))) in
      rw (room, fill) (step (decode item) (fill-partial items))
    where
      step :
          (r : Decoded A)
          → ((ys : List A)
              → (fill decode (λ i. i) items (partial ys (length items)) (length ys) >>= initialised)
                ≡ (traverse decode items >>= λ rest. done (ys ++ rest)))
          → ((r >>= λ a.
                fill decode
                  (λ i. i)
                  items
                  (set (partial xs (suc (length items))) (length xs) (some a))
                  (suc (length xs)))
              >>= initialised)
            ≡ ((r >>= λ a. traverse decode items >>= λ rest. done (a ∷ rest)) >>= λ rest.
                done (xs ++ rest))
      step (done a) ih =
          let grown : length (xs ++ a ∷ []) ≡ suc (length xs) =
            omega (arith, length-append xs (a ∷ [])) in
          rw (set-partial xs (length items) a, ← grown)
            (ih (xs ++ a ∷ []) ∙ bind-append xs a (traverse decode items))
      step (bad e m) ih = refl
      step undefined ih = refl

  -- A loop that writes element `i` in round `i` to a block with as many elements as the array has stays
  -- inside the block, and gives the decoded elements in order or the first error.
  pub fill-traverse :
      (items : List I)
      → (fill decode (λ i. i) items (malloc (length items)) 0 >>= initialised)
        ≡ traverse decode items
  unfolding malloc
  fill-traverse items = fill-partial items [] ∙ bind_done (traverse decode items)
    where
      bind_done : (r : Decoded (List A)) → (r >>= λ rest. done ([] ++ rest)) ≡ r
      bind_done (done ys) = refl
      bind_done (bad e m) = refl
      bind_done undefined = refl
