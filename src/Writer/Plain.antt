-- ===== src/Writer/Plain.antt =====
-- JSON values as nodes with their members: a reader and a writer that keep the laws, on which the encoders
-- run. Texts are neither parsed nor printed.
use blehostd.Prelude.{
  ◌≡◌, ◌≢◌, refl, inl, inr, Bool, Bool-cases, if◌then◌else◌, Option, none, some, List, [], ◌∷◌,
  String, Bytes, codes, streq, streq_sound, streq_refl, arith,
}
use blehostd.Prelude.Int.{ℤ, pos, eqz}
use blehostd.Cjson.{
  Kind, cjson_false, cjson_true, cjson_number, cjson_string, cjson_array, other_type, Cjson,
}
use blehostd.Writer.{Writer, IsFaithful, lower, member}

mutual
  pub data Node : Type 0 where
    node : Kind → ℤ → Bytes → Members → Node

  pub data Members : Type 0 where
    nil : Members
    cons : String → Node → Members → Members

abbrev same_name : String → String → Bool
same_name a b = streq (lower (codes a)) (lower (codes b))

abbrev find_member : Members → String → Option Node
find_member nil name = none
find_member (cons key n rest) name = if same_name key name then some n else find_member rest name

abbrev insert : Members → String → Node → Members
insert nil name n = cons name n nil
insert (cons key m rest) name n = cons key m (insert rest name n)

abbrev elements : Members → List Node
elements nil = []
elements (cons key n rest) = n ∷ elements rest

abbrev get : Node → String → Option Node
get (node kind int text members) name = find_member members name

abbrev add : Option Node → String → Option Node → Option Node
add none name item = none
add (some n) name none = some n
add (some (node kind int text members)) name (some item) =
    some (node kind int text (insert members name item))

abbrev leaf : Kind → ℤ → Bytes → Option Node
leaf kind int text = some (node kind int text nil)

abbrev text_leaf : Option Bytes → Option Node
text_leaf none = none
text_leaf (some s) = leaf cjson_string (pos 0) s

abbrev bool_leaf : ℤ → Option Node
bool_leaf b = leaf (if eqz b (pos 0) then cjson_false else cjson_true) (pos 0) []

abbrev kind_of : Node → Kind
kind_of (node kind int text members) = kind

abbrev int_of : Node → ℤ
int_of (node kind int text members) = int

abbrev text_of : Node → Bytes
text_of (node kind int text members) = text

abbrev children_of : Node → List Node
children_of (node kind int text members) = elements members

abbrev pub node_json : Cjson
node_json = record {
  Item = Node;
  type_of = kind_of;
  value_int = int_of;
  value_string = text_of;
  children = children_of;
  get_object_item = get;
  parse = λ _. none;
}

abbrev pub node_writer : Writer node_json
node_writer = record {
  create_object = leaf other_type (pos 0) [];
  create_array = leaf cjson_array (pos 0) [];
  create_number = λ n. leaf cjson_number n [];
  create_bool = bool_leaf;
  create_string = text_leaf;
  add_item_to_object = add;
  add_item_to_array = λ arr item. add arr "" item;
  add_string_to_object = λ object name s. add object name (text_leaf s);
  add_bool_to_object = λ object name b. add object name (bool_leaf b);
  print = λ _. none;
}

find_member-new :
    (members : Members) (name : String) (n : Node)
    → find_member members name ≡ none
    → find_member (insert members name n) name ≡ some n
find_member-new nil name n h = ground (arith, streq_refl (lower (codes name)))
find_member-new (cons key m rest) name n h = ground (arith, find_member-new rest name n)

find_member-old :
    (members : Members) (name other : String) (n old : Node)
    → find_member members other ≡ some old
    → find_member (insert members name n) other ≡ some old
find_member-old nil name other n old h = ground arith
find_member-old (cons key m rest) name other n old h =
    ground (arith, find_member-old rest name other n old)

find_member-other :
    (members : Members) (name other : String) (n : Node)
    → lower (codes name) ≢ lower (codes other)
    → find_member (insert members name n) other ≡ find_member members other
find_member-other nil name other n ne = elim (Bool-cases (same_name name other)) [
  | inl b ↦ absurd (ne (streq_sound _ _ b))
  | inr b ↦ ground arith
]
find_member-other (cons key m rest) name other n ne =
    ground (arith, find_member-other rest name other n ne)

added_some :
    (object : Node) (name : String) (item : Option Node)
    → (object' : Node) × (add (some object) name item ≡ some object')
added_some object name none = (object, refl)
added_some (node kind int text members) name (some item) = (_, refl)

added_new :
    (object item : Node) (name : String)
    → get object name ≡ none
    → member node_json (add (some object) name (some item)) name ≡ some item
added_new (node kind int text members) item name h = find_member-new members name item h

added_old :
    (object old : Node) (name other : String) (item : Option Node)
    → get object other ≡ some old
    → member node_json (add (some object) name item) other ≡ some old
added_old object old name other none h = h
added_old (node kind int text members) old name other (some item) h =
    find_member-old members name other item old h

added_other :
    (object : Node) (name other : String) (item : Option Node)
    → lower (codes name) ≢ lower (codes other)
    → member node_json (add (some object) name item) other ≡ get object other
added_other object name other none ne = refl
added_other (node kind int text members) name other (some item) ne =
    find_member-other members name other item ne

pub node_writer-IsFaithful : IsFaithful node_writer
node_writer-IsFaithful = record {
  create_object-some = (_, refl);
  create_object-empty = λ name. refl;
  create_number-some = λ n. (_, refl, refl);
  create_number-int = λ n item h e. ground arith;
  create_string-some = λ s. (_, refl, refl, refl);
  add_item-some = λ object name item. added_some object name item;
  add_item-new = λ object item name h. added_new object item name h;
  add_item-old = λ object old name other item h. added_old object old name other item h;
  add_item-other = λ object name other item ne. added_other object name other item ne;
  add_string-item = λ object name s. refl;
  add_bool-item = λ object name b. refl;
}
