-- ===== src/KvMap/Laws.antt =====
-- In a map with distinct keys and distinct values the two searches are inverse to one another.
use blehostd.Prelude.{
  ◌≡◌, ◌≢◌, Bool, true, false, not, ◌&&◌, ◌||◌, some, List, [], ◌∷◌, arith, Bytes, streq,
  streq_sound, streq_refl,
}
use blehostd.Prelude.Int.{ℤ, negsuc, eqz, eqz_sound, eqz_refl}
use blehostd.KvMap.{KvStrInt, find, rev_find}

abbrev pub has_key : Bytes → List KvStrInt → Bool
has_key key [] = false
has_key key ((k, v) ∷ map) = streq k key || has_key key map

abbrev pub has_val : ℤ → List KvStrInt → Bool
has_val val [] = false
has_val val ((k, v) ∷ map) = eqz v val || has_val val map

abbrev pub distinct_keys : List KvStrInt → Bool
distinct_keys [] = true
distinct_keys ((k, v) ∷ map) = not (has_key k map) && distinct_keys map

abbrev pub distinct_vals : List KvStrInt → Bool
distinct_vals [] = true
distinct_vals ((k, v) ∷ map) = not (has_val v map) && distinct_vals map

has_key-rev_find :
    (map : List KvStrInt) (v : ℤ) (k : Bytes) → rev_find map v ≡ some k → has_key k map ≡ true
unfolding rev_find
has_key-rev_find [] v k h = ground arith
has_key-rev_find ((k0, v0) ∷ map) v k h = ground (arith, streq_refl k0, has_key-rev_find map v k)

has_val-find :
    (map : List KvStrInt) (k : Bytes) (v : ℤ) → v ≢ negsuc 0 → find map k ≡ v → has_val v map ≡ true
unfolding find
has_val-find [] k v ne h = ground arith
has_val-find ((k0, v0) ∷ map) k v ne h = ground (arith, eqz_refl v0, has_val-find map k v)

pub find-rev_find :
    (map : List KvStrInt) (v : ℤ) (k : Bytes)
    → distinct_keys map ≡ true
    → rev_find map v ≡ some k
    → find map k ≡ v
unfolding rev_find find
find-rev_find [] v k d h = ground arith
find-rev_find ((k0, v0) ∷ map) v k d h = ground (
  arith,
  streq_refl k0,
  streq_sound k0 k,
  eqz_sound v0 v,
  has_key-rev_find map v k,
  find-rev_find map v k,
)

pub rev_find-find :
    (map : List KvStrInt) (k : Bytes) (v : ℤ)
    → distinct_vals map ≡ true
    → v ≢ negsuc 0
    → find map k ≡ v
    → rev_find map v ≡ some k
unfolding rev_find find
rev_find-find [] k v d ne h = ground arith
rev_find-find ((k0, v0) ∷ map) k v d ne h = ground (
  arith,
  eqz_refl v0,
  streq_sound k0 k,
  eqz_sound v0 v,
  has_val-find map k v ne,
  rev_find-find map k v,
)
