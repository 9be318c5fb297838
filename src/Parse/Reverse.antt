-- ===== src/Parse/Reverse.antt =====
-- The in-place loop of `parse_reverse_bytes` reverses.
use blehostd.Prelude.{
  ℕ, zero, suc, ◌+◌, ◌-◌, ◌≤◌, ◌<◌, ◌≡◌, refl, [], ◌∷◌, arith, Bytes, length, get_or, set,
  length-set, ltb, leb, Bool-cases, ap, inl, inr, ◌==◌, if◌then◌else◌, Bool, true, false, ◌&&◌,
  ◌||◌, ◌/◌, ◌∙◌,
}
use blehostd.Parse.{swap_ends, reverse_rounds, parse_reverse_bytes}

get_or-set :
    (xs : Bytes) (i j v : ℕ)
    → i < length xs
    → get_or (set xs i v) j 0 ≡ (if i == j then v else get_or xs j 0)
get_or-set [] i j v h = absurd (omega arith)
get_or-set (x ∷ xs) zero zero v h = refl
get_or-set (x ∷ xs) zero (suc j) v h = ground arith
get_or-set (x ∷ xs) (suc i) zero v h = ground arith
get_or-set (x ∷ xs) (suc i) (suc j) v h = ground (arith, get_or-set xs i j v (omega arith))

length-swap_ends : (xs : Bytes) (len i : ℕ) → length (swap_ends xs len i) ≡ length xs
unfolding swap_ends
length-swap_ends xs len i =
    rw (length-set (set xs i (get_or xs (len - i - 1) 0)) (len - i - 1) (get_or xs i 0))
      (length-set xs i (get_or xs (len - i - 1) 0))

get_or-swap_ends :
    (xs : Bytes) (len i j : ℕ)
    → length xs ≡ len
    → i + 1 ≤ len / 2
    → get_or (swap_ends xs len i) j 0 ≡ (
        if i == j
        then get_or xs (len - i - 1) 0
        else if len - i - 1 == j
        then get_or xs i 0
        else get_or xs j 0)
unfolding swap_ends
get_or-swap_ends xs n i j e h =
    let v = get_or xs (n - i - 1) 0 in
    ground (
      arith,
      get_or-set xs i j v (omega arith),
      get_or-set (set xs i v) (n - i - 1) j (get_or xs i 0) (omega (arith, length-set xs i v)),
    )

-- The indices that the rounds from `i` to `i + n` exchange.
abbrev moved : ℕ → ℕ → ℕ → ℕ → Bool
moved n i len j = (leb i j && ltb j (i + n)) || (leb (len - i - n) j && ltb j (len - i))

first_moved :
    (n i len j : ℕ)
    → i + suc n ≤ len / 2
    → i ≡ j
    → (moved n (i + 1) len j ≡ false) × (moved (suc n) i len j ≡ true) × (len - i - 1 ≡ len - 1 - j)
first_moved n i len j h e = (ground arith, ground arith, omega arith)

last_moved :
    (n i len j : ℕ)
    → i + suc n ≤ len / 2
    → len - i - 1 ≡ j
    → (moved n (i + 1) len j ≡ false) × (moved (suc n) i len j ≡ true) × (i ≡ len - 1 - j)
last_moved n i len j h e = (ground arith, ground arith, omega arith)

-- Away from the two ends of a round, the rounds behind it move the same indices.
moved_inner :
    (n i len j : ℕ)
    → i + suc n ≤ len / 2
    → (i == j) ≡ false
    → (len - i - 1 == j) ≡ false
    → moved (suc n) i len j ≡ moved n (i + 1) len j
moved_inner n i len j h a b = ground arith

-- One round more, where `r` is the byte that the rounds behind it leave at `j`.
reverse_step :
    (n i len j r : ℕ) (xs : Bytes)
    → length xs ≡ len
    → i + suc n ≤ len / 2
    → j < len
    → r ≡ (
        if moved n (i + 1) len j
        then get_or (swap_ends xs len i) (len - 1 - j) 0
        else get_or (swap_ends xs len i) j 0)
    → r ≡ (if moved (suc n) i len j then get_or xs (len - 1 - j) 0 else get_or xs j 0)
reverse_step n i len j r xs l h lt e =
    let here = get_or-swap_ends xs len i j l (omega arith) in
    let there = get_or-swap_ends xs len i (len - 1 - j) l (omega arith) in
    elim (Bool-cases (i == j)) [
      | inl at ↦
          let (off, on, k) = first_moved n i len j h (ground arith) in
          rw on (e ∙ rw off (here ∙ rw at (ap (λ t. get_or xs t 0) k)))
      | inr ne ↦ elim (Bool-cases (len - i - 1 == j)) [
        | inl last ↦
            let (off, on, k) = last_moved n i len j h (ground arith) in
            rw on (e ∙ rw off (here ∙ rw (ne, last) (ap (λ t. get_or xs t 0) k)))
        | inr inner ↦ rw (moved_inner n i len j h ne inner) (ground arith)
      ]
    ]

-- The rounds from `i` to `i + n` exchange two ranges and leave the rest alone.
get_or-reverse_rounds :
    (n i len j : ℕ) (xs : Bytes)
    → length xs ≡ len
    → i + n ≤ len / 2
    → j < len
    → get_or (reverse_rounds n i xs len) j 0
      ≡ (if moved n i len j then get_or xs (len - 1 - j) 0 else get_or xs j 0)
unfolding reverse_rounds
get_or-reverse_rounds zero i len j xs e h lt = ground arith
get_or-reverse_rounds (suc n) i len j xs e h lt = reverse_step n i len j _ xs e h lt (
    get_or-reverse_rounds n (i + 1) len j (swap_ends xs len i) (length-swap_ends xs len i ∙ e)
      (omega arith) lt)

length-reverse_rounds : (n i len : ℕ) (xs : Bytes) → length (reverse_rounds n i xs len) ≡ length xs
unfolding reverse_rounds
length-reverse_rounds zero i len xs = refl
length-reverse_rounds (suc n) i len xs =
    length-reverse_rounds n (i + 1) len (swap_ends xs len i) ∙ length-swap_ends xs len i

-- `parse_reverse_bytes`, called with the length of its array, reverses it in place: the length stays,
-- and the byte at each index is the one that stood at the same distance from the other end.
pub parse_reverse_bytes_lem :
    (xs : Bytes) (j : ℕ)
    → j < length xs
    → (length (parse_reverse_bytes xs (length xs)) ≡ length xs)
      × (get_or (parse_reverse_bytes xs (length xs)) j 0 ≡ get_or xs (length xs - 1 - j) 0)
unfolding parse_reverse_bytes
parse_reverse_bytes_lem xs j h =
    let n = length xs in
    (
      length-reverse_rounds (n / 2) 0 n xs,
      ground (arith, get_or-reverse_rounds (n / 2) 0 n j xs refl (omega arith) h, middle n),
    )
  where
    middle : (n : ℕ) → j < n → leb (n / 2) j ≡ true → ltb j (n - 0 - n / 2) ≡ true → j ≡ n - 1 - j
    middle n a b c = ground arith
