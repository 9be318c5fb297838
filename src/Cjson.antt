-- ===== src/Cjson.antt =====
-- The interface of the cJSON library, which is outside the repository: the fields of `cJSON` that
-- the code reads, and the functions that it calls to read a tree.
use blehostd.Prelude.{List, Option, String, Bytes}
use blehostd.Prelude.Int.{ℤ}

-- The values of `item->type` that the code tells apart.
pub data Kind : Type 0 where
  cjson_false cjson_true cjson_number cjson_string cjson_array other_type : Kind

pub record Cjson : Type 1 where
  pub Item : Type 0
  -- item->type, item->valueint, item->valuestring
  pub type_of : Item → Kind
  pub value_int : Item → ℤ
  pub value_string : Item → Bytes
  -- item->child and its chain of `next`
  pub children : Item → List Item
  -- cJSON_GetObjectItem and cJSON_Parse, with `none` for NULL
  pub get_object_item : Item → String → Option Item
  pub parse : Bytes → Option Item
