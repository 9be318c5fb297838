-- ===== src/Uuid/RoundTrip.antt =====
-- The text form of a 128-bit UUID is read back.
use mathlib.Core.List.{reverse, reverse_aux}
use blehostd.Prelude.{
  ℕ, zero, suc, ◌+◌, ◌*◌, ◌≤◌, ◌<◌, ◌≡◌, refl, ap, ◌∙◌, Bool, true, false, ◌&&◌, inl, inr,
  Bool-cases, [], ◌∷◌, ◌++◌, append_assoc, arith, Bytes, ◌==◌, if◌then◌else◌, streq, streq_sound,
  length, length-append, IsByte, All, tested, tested_sound,
}
use blehostd.Status.{ok}
use blehostd.Libc.{strtoul}
use blehostd.Hex.{hex_byte}
use blehostd.Cjson.{Cjson, cjson_string}
use blehostd.Uuid.{uuid128, is_dash, uuid_loop, process_uuid_string, process_json_uuid}

-- The text of the bytes, the most significant first, from the index `i` on: two digits for a byte, and
-- dashes where the text has them.
unfoldable pub uuid_text_from : ℕ → Bytes → Bytes
uuid_text_from i [] = []
uuid_text_from i (b ∷ bs) =
    if is_dash i
    then b'-' ∷ (hex_byte b ++ uuid_text_from (i + 3) bs)
    else hex_byte b ++ uuid_text_from (i + 2) bs

unfoldable pub uuid_text : Bytes → Bytes
unfolding uuid_text_from
uuid_text bs = uuid_text_from 0 bs

-- The index behind `n` bytes.
index_after : ℕ → ℕ → ℕ
index_after i zero = i
index_after i (suc n) = index_after (if is_dash i then i + 3 else i + 2) n

pair_eq : ℕ × Bytes → ℕ → Bool
pair_eq (v, rest) b = v == b && streq rest []

strtoul_table : tested (λ b. pair_eq (strtoul (hex_byte b)) b) 256 ≡ true
unfolding tested strtoul hex_byte pair_eq
strtoul_table = refl

pair_eq_sound : (p : ℕ × Bytes) (b : ℕ) → pair_eq p b ≡ true → p ≡ (b, [])
unfolding pair_eq
pair_eq_sound (v, rest) b h = ground (arith, streq_sound rest [])

strtoul-hex_byte : (b : ℕ) → b < 256 → strtoul (hex_byte b) ≡ (b, [])
strtoul-hex_byte b h = pair_eq_sound _ b (tested_sound _ 256 b h strtoul_table)

uuid_loop-hex_byte :
    (i b : ℕ) (s acc : Bytes)
    → i < 36
    → is_dash i ≡ false
    → b < 256
    → uuid_loop i (hex_byte b ++ s) acc ≡ uuid_loop (i + 2) s (b ∷ acc)
unfolding uuid_loop hex_byte
uuid_loop-hex_byte i b s acc h d hb = ground (arith, strtoul-hex_byte b hb)

uuid_loop-dash :
    (i b : ℕ) (s acc : Bytes)
    → i < 36
    → is_dash i ≡ true
    → uuid_loop i (b'-' ∷ (hex_byte b ++ s)) acc ≡ uuid_loop (i + 1) (hex_byte b ++ s) acc
unfolding uuid_loop hex_byte
uuid_loop-dash i b s acc h d = ground arith

after_dash : (i : ℕ) → is_dash i ≡ true → is_dash (i + 1) ≡ false
unfolding is_dash
after_dash i h = ground arith

le-index_after : (n i : ℕ) → i + 2 * n ≤ index_after i n
unfolding index_after
le-index_after zero i = omega arith
le-index_after (suc n) i = ground (arith, le-index_after n (if is_dash i then i + 3 else i + 2))

uuid_loop_end : (rest acc : Bytes) → uuid_loop 36 rest acc ≡ ok acc
unfolding uuid_loop
uuid_loop_end [] acc = refl
uuid_loop_end (c ∷ []) acc = refl
uuid_loop_end (c ∷ d ∷ s) acc = refl

uuid_loop-uuid_text_from :
    (bs : Bytes) (i : ℕ) (rest acc : Bytes)
    → index_after i (length bs) ≤ 36
    → All IsByte bs
    → uuid_loop i (uuid_text_from i bs ++ rest) acc
      ≡ uuid_loop (index_after i (length bs)) rest (reverse_aux bs acc)
unfolding uuid_text_from index_after
uuid_loop-uuid_text_from [] i rest acc h _ = refl
uuid_loop-uuid_text_from (b ∷ bs) i rest acc h (hb, hs) = elim (Bool-cases (is_dash i)) [
  | inl d ↦ ground (
    arith,
    uuid_loop-dash i b (uuid_text_from (i + 3) bs ++ rest) acc,
    uuid_loop-hex_byte (i + 1) b (uuid_text_from (i + 3) bs ++ rest) acc,
    append_assoc (hex_byte b) (uuid_text_from (i + 3) bs) rest,
    after_dash i d,
    le-index_after (length bs) (i + 3),
    uuid_loop-uuid_text_from bs (i + 3) rest (b ∷ acc),
  )
  | inr d ↦ ground (
    arith,
    uuid_loop-hex_byte i b (uuid_text_from (i + 2) bs ++ rest) acc,
    append_assoc (hex_byte b) (uuid_text_from (i + 2) bs) rest,
    le-index_after (length bs) (i + 2),
    uuid_loop-uuid_text_from bs (i + 2) rest (b ∷ acc),
  )
]

length-uuid_text_from :
    (bs : Bytes) (i : ℕ) → i + length (uuid_text_from i bs) ≡ index_after i (length bs)
unfolding uuid_text_from index_after hex_byte
length-uuid_text_from [] i = omega arith
length-uuid_text_from (b ∷ bs) i =
    ground (arith, length-uuid_text_from bs (i + 2), length-uuid_text_from bs (i + 3))

uuid_loop-uuid_text :
    (bs rest : Bytes)
    → length bs ≡ 16
    → All IsByte bs
    → (uuid_loop 0 (uuid_text bs ++ rest) [] ≡ ok (reverse bs))
      × (36 ≤ length (uuid_text bs ++ rest))
unfolding uuid_text
uuid_loop-uuid_text bs rest n h =
    let at_end : index_after 0 (length bs) ≡ 36 =
      ap (index_after 0) n ∙ (unfold index_after is_dash in refl) in
    (
      uuid_loop-uuid_text_from bs 0 rest [] (omega arith) h
          ∙ ap (λ e. uuid_loop e rest (reverse_aux bs [])) at_end
          ∙ uuid_loop_end rest (reverse_aux bs []),
      omega (arith, length-uuid_text_from bs 0, length-append (uuid_text_from 0 bs) rest),
    )

process_uuid_string-uuid_text :
    (n : ℕ) (bs rest : Bytes)
    → n ≤ 37
    → length bs ≡ 16
    → All IsByte bs
    → process_uuid_string n (uuid_text bs ++ rest) ≡ ok (uuid128 (reverse bs))
unfolding process_uuid_string
process_uuid_string-uuid_text n bs rest k l h =
    let (parsed, long) = uuid_loop-uuid_text bs rest l h in ground arith

-- `bhd_process_json_uuid` reads the text of a 128-bit UUID: for any 16 bytes, a string that begins with
-- their text in groups of 8, 4, 4, 4 and 12 digits gives these bytes, the least significant first.
-- What follows the text is not looked at.
pub process_json_uuid-uuid_text :
    (J : Cjson) (uuid_str_len : ℕ) (item : J.Item) (bs rest : Bytes)
    → uuid_str_len ≤ 37
    → J.type_of item ≡ cjson_string
    → J.value_string item ≡ uuid_text bs ++ rest
    → length bs ≡ 16
    → All IsByte bs
    → process_json_uuid J uuid_str_len item ≡ ok (uuid128 (reverse bs))
unfolding process_json_uuid
process_json_uuid-uuid_text J n item bs rest k t v l h =
    ground (arith, process_uuid_string-uuid_text n bs rest k l h)
