-- ===== src/Uuid/InBounds.antt =====
-- The loop over the text of a UUID does not read behind its end.
use blehostd.Prelude.{
  ℕ, ◌+◌, ◌%◌, ◌≤◌, ◌<◌, ◌≡◌, ◌≢◌, refl, Bool, true, false, ◌&&◌, ◌||◌, [], ◌∷◌, arith, Bytes, leb,
  ◌==◌, length,
}
use blehostd.Status.{err, overread}
use blehostd.Libc.{strtoul}
use blehostd.Uuid.{is_dash, uuid_loop, process_uuid_string}

-- The indices at which a round can begin.
aligned : ℕ → Bool
aligned i =
    (leb i 8 && i % 2 == 0)
    || (leb 9 i && leb i 13 && i % 2 == 1)
    || (leb 14 i && leb i 18 && i % 2 == 0)
    || (leb 19 i && leb i 23 && i % 2 == 1)
    || (leb 24 i && i % 2 == 0)

aligned-dash : (i : ℕ) → aligned i ≡ true → is_dash i ≡ true → aligned (i + 1) ≡ true
unfolding aligned is_dash
aligned-dash i a d = ground arith

aligned-byte :
    (i : ℕ)
    → aligned i ≡ true
    → is_dash i ≡ false
    → i < 36
    → (aligned (i + 2) ≡ true) × (i + 2 ≤ 36)
unfolding aligned is_dash
aligned-byte i a d h = ground arith

uuid_loop-ne-overread :
    (s : Bytes) (i : ℕ) (acc : Bytes)
    → aligned i ≡ true
    → 36 ≤ i + length s
    → uuid_loop i s acc ≢ err overread
unfolding uuid_loop
uuid_loop-ne-overread [] i acc a h = ground arith
uuid_loop-ne-overread (c ∷ []) i acc a h = ground (arith, aligned-byte i a)
uuid_loop-ne-overread (c ∷ d ∷ s) i acc a h = ground (
  arith,
  aligned-byte i a,
  aligned-dash i a,
  uuid_loop-ne-overread (d ∷ s) (i + 1) acc,
  uuid_loop-ne-overread s (i + 2) (((strtoul (c ∷ d ∷ [])).0 % 256) ∷ acc),
)

-- Where `BLE_UUID_STR_LEN` is at least 37, no text makes `bhd_process_json_uuid` read past its
-- terminating NUL.
pub process_uuid_string-ne-overread :
    (uuid_str_len : ℕ) (valstr : Bytes)
    → 37 ≤ uuid_str_len
    → process_uuid_string uuid_str_len valstr ≢ err overread
unfolding process_uuid_string aligned
process_uuid_string-ne-overread n s k = ground (arith, uuid_loop-ne-overread s 0 [] refl)
