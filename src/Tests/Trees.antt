-- ===== src/Tests/Trees.antt =====
-- Examples for what is read from a JSON tree.
use blehostd.Prelude.{◌≡◌, ◌↔◌, refl, some, [], ◌∷◌, Bytes, arith}
use mathlib.Core.List.{reverse}
use blehostd.Prelude.Int.{pos, ◌≤ℤ◌}
use blehostd.Status.{ok, ◌>>=◌}
use blehostd.Cjson.{cjson_number}
use blehostd.Json.{json_int_bounds, process_json_int_bounds, process_json_addr, json_arr}
use blehostd.Json.Bounds.{json_int_bounds_iff}
use blehostd.JsonArr.{json_arr_llong, json_arr_hex_string, json_arr_addr, hex_elem}
use blehostd.JsonArr.First.{first_readable, json_arr-first_readable}
use blehostd.Hex.{hex_byte}
use blehostd.Uuid.{is_dash, uuid16, uuid128, process_json_uuid, json_uuid}
use blehostd.Uuid.RoundTrip.{uuid_text, process_json_uuid-uuid_text}
use blehostd.Svc.Blocks.{undefined}
use blehostd.Svc.Fill.{traverse}
use blehostd.Svc.{json_chr, json_chrs}
use blehostd.Svc.Descriptors.{json_chr-undefined, json_chrs-traverse}
use blehostd.Tests.Data.{Tree, nothing, num, text, arr, obj, tree_json, consts}
use blehostd.Cjson.{Cjson}

abbrev J : Cjson
J = tree_json nothing

abbrev request : Tree
request = obj (num "seq" 7 (arr "uuids16" (text "" "x" (num "" 5 (num "" 6 nothing))) nothing))

json_int_bounds_iff_example : (json_int_bounds J request "seq" (pos 0) (pos 9) ≡ ok (pos 7)) ↔ (
    (item : Tree) × (J.get_object_item request "seq" ≡ some item)
    × (J.type_of item ≡ cjson_number)
    × (J.value_int item ≡ pos 7)
    × (pos 0 ≤ℤ pos 7)
    × (pos 7 ≤ℤ pos 9))
json_int_bounds_iff_example = json_int_bounds_iff J request "seq" (pos 0) (pos 9) (pos 7)

json_arr-first_readable_example :
    (json_arr_llong J request "uuids16" 15 (pos 0) (pos 9) ≡ (
      json_arr J request "uuids16" >>= λ arr.
      ok
        (first_readable (λ item. process_json_int_bounds J item (pos 0) (pos 9)) (J.children arr))))
    × (json_arr_hex_string J request "uuids16" 4 15 ≡ (
        json_arr J request "uuids16" >>= λ arr.
        ok (first_readable (hex_elem J 4) (J.children arr))))
    × (json_arr_addr J request "uuids16" 15 ≡ (
        json_arr J request "uuids16" >>= λ arr.
        ok (first_readable (process_json_addr J) (J.children arr))))
json_arr-first_readable_example =
    json_arr-first_readable J request "uuids16" 15 4 (pos 0) (pos 9) (omega arith)

abbrev uuid_bytes : Bytes
uuid_bytes =
    0 ∷ 17 ∷ 34 ∷ 51 ∷ 68 ∷ 85 ∷ 102 ∷ 119 ∷ 136 ∷ 153 ∷ 170 ∷ 187 ∷ 204 ∷ 221 ∷ 238 ∷ 255 ∷ []

abbrev uuid_item : Tree
uuid_item = text "uuid" "00112233-4455-6677-8899-aabbccddeeff" nothing

process_json_uuid-uuid_text_example :
    process_json_uuid J 37 uuid_item ≡ ok (uuid128 (reverse uuid_bytes))
unfolding is_dash hex_byte
process_json_uuid-uuid_text_example =
    process_json_uuid-uuid_text J 37 uuid_item uuid_bytes [] (omega arith) refl
      (unfold uuid_text in refl) refl
      (
        omega arith,
        (
          omega arith,
          (
            omega arith,
            (
              omega arith,
              (
                omega arith,
                (
                  omega arith,
                  (
                    omega arith,
                    (
                      omega arith,
                      (
                        omega arith,
                        (
                          omega arith,
                          (
                            omega arith,
                            (
                              omega arith,
                              (omega arith, (omega arith, (omega arith, (omega arith, tt)))),
                            ),
                          ),
                        ),
                      ),
                    ),
                  ),
                ),
              ),
            ),
          ),
        ),
      )

abbrev dsc_tree : Tree
dsc_tree = obj (
    num "uuid" 0x2901 (
      num "flags" 2 (
        num "min_key_size" 0 (
          arr "descriptors"
            (obj (num "uuid" 0x2902 (num "att_flags" 1 (num "min_key_size" 0 nothing)))) nothing))))

json_chr-undefined_example : json_chr J 37 consts dsc_tree ≡ undefined
unfolding json_uuid json_int_bounds json_arr
json_chr-undefined_example =
    json_chr-undefined J 37 consts dsc_tree
      (arr "descriptors"
        (obj (num "uuid" 0x2902 (num "att_flags" 1 (num "min_key_size" 0 nothing)))) nothing)
      (uuid16 0x2901) (pos 2) (pos 0) refl refl refl refl (λ e. cc)

json_chrs-traverse_example :
    json_chrs J 37 consts (ok (arr "characteristics" dsc_tree nothing))
    ≡ traverse (json_chr J 37 consts) (dsc_tree ∷ [])
json_chrs-traverse_example = json_chrs-traverse J 37 consts (arr "characteristics" dsc_tree nothing)
