-- ===== src/JsonArr/First.antt =====
-- What the array readers return. A callback returns 0 for an element that it stored and 1 for one
-- that it could not read, and the loop goes on only after a 1.
use blehostd.Prelude.{ℕ, ◌<◌, ◌≡◌, refl, List, [], ◌∷◌, String, arith, inl, inr}
use blehostd.Prelude.Int.{ℤ}
use blehostd.Status.{Result-cases, success, Result, ok, err, ◌>>=◌}
use blehostd.Cjson.{Cjson}
use blehostd.Json.{process_json_int_bounds, process_json_addr, json_arr}
use blehostd.JsonArr.{
  arr_loop, store_elem, read_elems, hex_elem, json_arr_llong, json_arr_hex_string, json_arr_addr,
}

-- The first element that can be read, if there is one.
abbrev pub first_readable {ℓ κ} : {I : Type ℓ} {A : Type κ} → (I → Result A) → List I → List A
first_readable read [] = []
first_readable read (item ∷ items) = elim (read item) [
  | ok val ↦ val ∷ []
  | err _ ↦ first_readable read items
]

module _ (J : Cjson) where
  open J use {Item, children}

  arr_loop-store_elem :
      {A : Type 0} (read : Item → Result A) (max_elems : ℕ) (items : List Item)
      → 0 < max_elems
      → arr_loop J (store_elem J read max_elems) items [] ≡ (first_readable read items, success)
  unfolding arr_loop store_elem
  arr_loop-store_elem read max_elems [] h = refl
  arr_loop-store_elem read max_elems (item ∷ items) h =
      ground (arith, arr_loop-store_elem read max_elems items h)

  read_elems-store_elem :
      {A : Type 0} (read : Item → Result A) (max_elems : ℕ) (parent : Item) (name : String)
      → 0 < max_elems
      → read_elems J (store_elem J read max_elems) parent name
        ≡ (json_arr J parent name >>= λ arr. ok (first_readable read (children arr)))
  unfolding read_elems
  read_elems-store_elem read max_elems parent name h =
      elim (Result-cases (json_arr J parent name)) [
        | inr (arr, found) ↦ ground (arith, arr_loop-store_elem read max_elems (children arr) h)
        | inl (e, failed) ↦ ground arith
      ]

  -- Where the array may have elements at all, `ble_json_arr_llong`, `ble_json_arr_hex_string` and
  -- `ble_json_arr_addr` return at most one element: the first that can be read. What comes behind it is
  -- left out, and an element that cannot be read is passed over with no error. The result is an error
  -- only if the member is missing or no array.
  pub json_arr-first_readable :
      (parent : Item) (name : String) (max_elems elem_sz : ℕ) (minval maxval : ℤ)
      → 0 < max_elems
      → (json_arr_llong J parent name max_elems minval maxval ≡ (
          json_arr J parent name >>= λ arr.
          ok
            (first_readable (λ item. process_json_int_bounds J item minval maxval) (children arr))))
        × (json_arr_hex_string J parent name elem_sz max_elems ≡ (
            json_arr J parent name >>= λ arr.
            ok (first_readable (hex_elem J elem_sz) (children arr))))
        × (json_arr_addr J parent name max_elems ≡ (
            json_arr J parent name >>= λ arr.
            ok (first_readable (process_json_addr J) (children arr))))
  json_arr-first_readable parent name max_elems elem_sz minval maxval h = (
    unfold json_arr_llong in read_elems-store_elem _ max_elems parent name h,
    unfold json_arr_hex_string in read_elems-store_elem _ max_elems parent name h,
    unfold json_arr_addr in read_elems-store_elem _ max_elems parent name h,
  )
