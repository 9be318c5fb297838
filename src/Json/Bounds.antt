-- ===== src/Json/Bounds.antt =====
-- When a bounded integer is accepted.
use blehostd.Prelude.{◌≡◌, ◌↔◌, inl, inr, some, Option-cases, String, arith}
use blehostd.Prelude.Int.{ℤ, ◌≤ℤ◌}
use blehostd.Status.{ok}
use blehostd.Cjson.{Cjson, cjson_number}
use blehostd.Json.{process_json_int_bounds, json_int_bounds}

module _ (J : Cjson) where
  open J use {Item, type_of, value_int, get_object_item}

  process_json_int_bounds-ok :
      (item : Item) (lo hi v : ℤ)
      → process_json_int_bounds J item lo hi ≡ ok v
      → (type_of item ≡ cjson_number) × (value_int item ≡ v) × (lo ≤ℤ v) × (v ≤ℤ hi)
  unfolding process_json_int_bounds
  process_json_int_bounds-ok item lo hi v h = ground arith

  -- `bhd_json_int_bounds` returns `v` without an error exactly if the object has the member, the
  -- member is a number, the number is `v`, and `v` lies in the bounds.
  pub json_int_bounds_iff :
      (parent : Item) (name : String) (lo hi v : ℤ)
      → (json_int_bounds J parent name lo hi ≡ ok v) ↔ (
          (item : Item) × (get_object_item parent name ≡ some item)
          × (type_of item ≡ cjson_number)
          × (value_int item ≡ v)
          × (lo ≤ℤ v)
          × (v ≤ℤ hi))
  unfolding json_int_bounds
  json_int_bounds_iff parent name lo hi v = (
    (λ h. elim (Option-cases (get_object_item parent name)) [
      | inl missing ↦ absurd (ground arith)
      | inr (item, found) ↦
          let (t, e, l, u) = process_json_int_bounds-ok item lo hi v (ground arith) in
          (item, found, t, e, l, u)
    ]),
    (λ (item, found, t, e, l, u). ground arith),
  )
