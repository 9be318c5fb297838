-- ===== src/JsonArr.antt =====
-- The readers of JSON arrays in apps/blehostd/src/bhd_util.c: `bhd_json_arr_gen`, its callbacks and the
-- `ble_json_arr_*` functions. The elements stored so far are a list, whose length is `num_elems`.
pub mod First
use blehostd.Prelude.{
  ℕ, ◌%◌, ◌^◌, Bool, true, false, not, ◌&&◌, List, [], ◌∷◌, ◌++◌, map, String, Bytes, leb, ◌==◌,
  if◌then◌else◌, length,
}
use blehostd.Prelude.Int.{ℤ, pos, to_unsigned}
use blehostd.Status.{Error, sys_einval, sys_erange, Rc, success, fail, Result, ok, err, ◌>>=◌}
use blehostd.Cjson.{Cjson}
use blehostd.Json.{process_json_int_bounds, process_json_hex_string, process_json_addr, json_arr}
use blehostd.Uuid.{Uuid, uuid16, uuid32, uuid128, process_json_uuid}

unfoldable pub all_uuid128 : List Uuid → Bool
all_uuid128 [] = true
all_uuid128 (uuid128 _ ∷ us) = all_uuid128 us
all_uuid128 (_ ∷ us) = false

module _ (J : Cjson) where
  open J use {Item, children}

  -- `cJSON_ArrayForEach`: a callback returns the new state, the code in `*rc`, and whether to proceed.
  unfoldable pub arr_loop {ℓ} : {S : Type ℓ} → (Item → S → S × Rc × Bool) → List Item → S → S × Rc
  arr_loop cb [] s = (s, success)
  arr_loop cb (item ∷ items) s =
      let (s', rc, proceed) = cb item s in
      let rest = arr_loop cb items s' in if not proceed then (s', rc) else rest

  unfoldable pub json_arr_gen {ℓ} :
      {S : Type ℓ} → Item → String → (Item → S → S × Rc × Bool) → S → S × Rc
  unfolding json_arr arr_loop
  json_arr_gen parent name cb s = elim (json_arr J parent name) [
    | ok arr ↦ arr_loop cb (children arr) s
    | err e ↦ (s, fail e)
  ]

  -- The body that the callbacks share: `read` is the reader of one element.
  unfoldable pub store_elem {ℓ} :
      {A : Type ℓ} → (Item → Result A) → ℕ → Item → List A → List A × Rc × Bool
  store_elem read max_elems item dst =
      if leb max_elems (length dst) then (dst, fail sys_erange, true) else elim (read item) [
        | ok val ↦ (dst ++ val ∷ [], success, false)
        | err e ↦ (dst, fail e, true)
      ]

  -- `rc = bhd_json_arr_gen(...); if (rc != 0) return rc; *out_num_elems = arg.num_elems`.
  unfoldable pub read_elems {ℓ} :
      {A : Type ℓ} → (Item → List A → List A × Rc × Bool) → Item → String → Result (List A)
  unfolding json_arr_gen
  read_elems fn parent name =
      let (dst, rc) = json_arr_gen parent name fn [] in
      elim rc [ success ↦ ok dst | fail e ↦ err e ]

  unfoldable pub arr_fn_llong : ℤ → ℤ → ℕ → Item → List ℤ → List ℤ × Rc × Bool
  unfolding store_elem process_json_int_bounds
  arr_fn_llong minval maxval max_elems =
      store_elem (λ item. process_json_int_bounds J item minval maxval) max_elems

  unfoldable pub json_arr_llong : Item → String → ℕ → ℤ → ℤ → Result (List ℤ)
  unfolding read_elems arr_fn_llong
  json_arr_llong parent name max_elems minval maxval =
      read_elems (arr_fn_llong minval maxval max_elems) parent name

  -- `out_arr[i] = vals[i]` converts to the element type.
  unfoldable pub json_arr_uint16 : Item → String → ℕ → ℕ → ℕ → Result (List ℕ)
  unfolding json_arr_llong
  json_arr_uint16 parent name max_elems minval maxval =
      json_arr_llong parent name max_elems (pos minval) (pos maxval) >>= λ vals.
      ok (map (to_unsigned (2 ^ 16)) vals)

  unfoldable pub json_arr_uint32 : Item → String → ℕ → ℕ → ℕ → Result (List ℕ)
  unfolding json_arr_llong
  json_arr_uint32 parent name max_elems minval maxval =
      json_arr_llong parent name max_elems (pos minval) (pos maxval) >>= λ vals.
      ok (map (to_unsigned (2 ^ 32)) vals)

  -- An element of `ble_json_arr_hex_string` has exactly `elem_sz` bytes.
  unfoldable pub hex_elem : ℕ → Item → Result Bytes
  unfolding process_json_hex_string
  hex_elem elem_sz item = process_json_hex_string J item elem_sz >>= λ bytes.
      if length bytes == elem_sz then ok bytes else err sys_erange

  unfoldable pub arr_fn_hex_string : ℕ → ℕ → Item → List Bytes → List Bytes × Rc × Bool
  unfolding store_elem hex_elem
  arr_fn_hex_string elem_sz max_elems = store_elem (hex_elem elem_sz) max_elems

  unfoldable pub json_arr_hex_string : Item → String → ℕ → ℕ → Result (List Bytes)
  unfolding read_elems arr_fn_hex_string
  json_arr_hex_string parent name elem_sz max_elems =
      read_elems (arr_fn_hex_string elem_sz max_elems) parent name

  unfoldable pub arr_fn_addr : ℕ → Item → List Bytes → List Bytes × Rc × Bool
  unfolding store_elem process_json_addr
  arr_fn_addr max_elems = store_elem (process_json_addr J) max_elems

  unfoldable pub json_arr_addr : Item → String → ℕ → Result (List Bytes)
  unfolding read_elems arr_fn_addr
  json_arr_addr parent name max_elems = read_elems (arr_fn_addr max_elems) parent name

module _ (J : Cjson) (uuid_str_len : ℕ) where
  open J use {Item}

  unfoldable pub arr_fn_uuid : ℕ → Item → List Uuid → List Uuid × Rc × Bool
  unfolding store_elem process_json_uuid
  arr_fn_uuid max_elems = store_elem J (process_json_uuid J uuid_str_len) max_elems

  unfoldable pub json_arr_uuid : Item → String → ℕ → Result (List Uuid)
  unfolding read_elems arr_fn_uuid
  json_arr_uuid parent name max_elems = read_elems J (arr_fn_uuid max_elems) parent name

  -- The check that every element is a 128-bit UUID.
  unfoldable pub json_arr_uuid128 : Item → String → ℕ → Result (List Uuid)
  unfolding json_arr_uuid
  json_arr_uuid128 parent name max_elems = json_arr_uuid parent name max_elems >>= λ elems.
      if all_uuid128 elems then ok elems else err sys_einval
