-- ===== src/Writer.antt =====
-- The functions of the cJSON library with which the program builds a tree and prints it. The library is
-- outside the repository. `none` stands for NULL, and a call that changes an object gives the object as
-- it is afterwards.
pub mod Plain
use blehostd.Prelude.{
  ℕ, ◌+◌, ◌<◌, ◌^◌, ◌≡◌, ◌≢◌, Option, none, some, List, map, String, Bytes, codes, if◌then◌else◌,
  leb, ◌&&◌,
}
use blehostd.Prelude.Int.{ℤ, pos}
use blehostd.Cjson.{Cjson, cjson_number, cjson_string}

pub record Writer (J : Cjson) : Type 0 where
  pub create_object : Option J.Item
  pub create_array : Option J.Item
  pub create_number : ℤ → Option J.Item
  pub create_bool : ℤ → Option J.Item
  pub create_string : Option Bytes → Option J.Item
  pub add_item_to_object : Option J.Item → String → Option J.Item → Option J.Item
  pub add_item_to_array : Option J.Item → Option J.Item → Option J.Item
  pub add_string_to_object : Option J.Item → String → Option Bytes → Option J.Item
  pub add_bool_to_object : Option J.Item → String → ℤ → Option J.Item
  pub print : Option J.Item → Option Bytes

-- `cJSON_GetObjectItem` through a pointer.
abbrev pub member : (J : Cjson) → Option J.Item → String → Option J.Item
member J none name = none
member J (some object) name = J.get_object_item object name

-- Names are compared without regard to the case of letters.
abbrev pub lower : Bytes → Bytes
lower = map (λ c. if leb 65 c && leb c 90 then c + 32 else c)

-- What the documentation says of an allocator that does not fail: main sets `malloc_success`.
pub record IsFaithful {J : Cjson} (W : Writer J) : Type 0 where
  pub create_object-some : (root : J.Item) × (W.create_object ≡ some root)
  pub create_object-empty : (name : String) → member J W.create_object name ≡ none
  pub create_number-some :
      (n : ℤ) → (item : J.Item) × (W.create_number n ≡ some item) × (J.type_of item ≡ cjson_number)
  -- a number is read back as long as it fits the `int` that `valueint` is
  pub create_number-int :
      (n : ℕ) (item : J.Item)
      → n < 2 ^ 31
      → W.create_number (pos n) ≡ some item
      → J.value_int item ≡ pos n
  pub create_string-some :
      (s : Bytes)
      → (item : J.Item) × (W.create_string (some s) ≡ some item)
        × (J.type_of item ≡ cjson_string)
        × (J.value_string item ≡ s)
  pub add_item-some :
      (object : J.Item) (name : String) (item : Option J.Item)
      → (object' : J.Item) × (W.add_item_to_object (some object) name item ≡ some object')
  -- a member stands behind those that are there
  pub add_item-new :
      (object item : J.Item) (name : String)
      → J.get_object_item object name ≡ none
      → member J (W.add_item_to_object (some object) name (some item)) name ≡ some item
  pub add_item-old :
      (object old : J.Item) (name other : String) (item : Option J.Item)
      → J.get_object_item object other ≡ some old
      → member J (W.add_item_to_object (some object) name item) other ≡ some old
  pub add_item-other :
      (object : J.Item) (name other : String) (item : Option J.Item)
      → lower (codes name) ≢ lower (codes other)
      → member J (W.add_item_to_object (some object) name item) other
        ≡ J.get_object_item object other
  pub add_string-item :
      (object : Option J.Item) (name : String) (s : Option Bytes)
      → W.add_string_to_object object name s ≡ W.add_item_to_object object name (W.create_string s)
  pub add_bool-item :
      (object : Option J.Item) (name : String) (b : ℤ)
      → W.add_bool_to_object object name b ≡ W.add_item_to_object object name (W.create_bool b)
