-- ===== src/KvMap.antt =====
-- The string and number maps of apps/blehostd/src/bhd_util.c: `struct bhd_kv_str_int` and the
-- `bhd_kv_str_int_*` functions. A map is the list of its entries before the sentinel `{ 0 }`.
pub mod Laws
use blehostd.Prelude.{
  Bool, true, false, Option, none, some, List, [], ◌∷◌, Bytes, streq, if◌then◌else◌,
}
use blehostd.Prelude.Int.{ℤ, negsuc, eqz}

-- `struct bhd_kv_str_int`: the key and the value.
abbrev pub KvStrInt : Type 0
KvStrInt = Bytes × ℤ

unfoldable pub find_entry : List KvStrInt → Bytes → Option KvStrInt
find_entry [] key = none
find_entry ((k, v) ∷ map) key = if streq k key then some (k, v) else find_entry map key

unfoldable pub rev_find_entry : List KvStrInt → ℤ → Option KvStrInt
rev_find_entry [] val = none
rev_find_entry ((k, v) ∷ map) val = if eqz v val then some (k, v) else rev_find_entry map val

unfoldable pub find_dflt : List KvStrInt → Bytes → ℤ → ℤ
unfolding find_entry
find_dflt map key dflt = elim (find_entry map key) [ none ↦ dflt | some (k, v) ↦ v ]

unfoldable pub find : List KvStrInt → Bytes → ℤ
unfolding find_dflt
find map key = find_dflt map key (negsuc 0)

unfoldable pub rev_find : List KvStrInt → ℤ → Option Bytes
unfolding rev_find_entry
rev_find map val = elim (rev_find_entry map val) [ none ↦ none | some (k, v) ↦ some k ]
