-- ===== src/Enc/Keep.antt =====
-- An encoder adds members to an object, and keeps those that are there.
use blehostd.Prelude.{
  Bool, true, false, ◌≡◌, ◌==◌, Option, none, some, if◌then◌else◌, String, Bytes, arith,
}
use blehostd.Prelude.Int.{ℤ}
use blehostd.Cjson.{Cjson}
use blehostd.Writer.{Writer, IsFaithful, member}
use blehostd.Proto.Maps.{HostConsts}
use blehostd.Proto.Numbers.{addr_type_none}
use blehostd.Enc.{
  BleAddr, HostText, add_bytes, add_addr, add_int, add_bool, add_name, add_addr_type,
}
use blehostd.Enc.Rsp.{add_typed_addr}

module _ {J : Cjson} {W : Writer J} (faithful : IsFaithful W) (host : HostText)
    (c : HostConsts) where
  open J use {Item}

  -- The members of the one object are members of the other.
  pub data Extends (p q : Option Item) : Type 0 where
    keep :
        ((name : String) (old : Item) → member J p name ≡ some old → member J q name ≡ some old)
        → Extends p q

  pub keep_item :
      {p q : Option Item} (name : String) (item : Option Item)
      → Extends p q
      → Extends p (W.add_item_to_object q name item)
  keep_item {q = none} name item (keep k) =
      keep (λ other old h. absurd (ground (arith, k other old h)))
  keep_item {q = some object} name item (keep k) =
      keep (λ other old h. faithful.add_item-old object old name other item (k other old h))

  pub keep_if :
      {p q r : Option Item} (b : Bool) → Extends p q → Extends p r → Extends p (if b then q else r)
  keep_if true k l = k
  keep_if false k l = l

  pub keep_int :
      {p q : Option Item} (name : String) (v : ℤ) → Extends p q → Extends p (add_int W q name v)
  unfolding add_int
  keep_int name v k = keep_item name _ k

  pub keep_bool :
      {p q : Option Item} (name : String) (v : ℤ) → Extends p q → Extends p (add_bool W q name v)
  unfolding add_bool
  keep_bool name v k = keep_item name _ k

  pub keep_addr :
      {p q : Option Item} (name : String) (v : Bytes)
      → Extends p q
      → Extends p (add_addr W q name v)
  unfolding add_addr
  keep_addr name v k = keep_item name _ k

  pub keep_bytes :
      {p q : Option Item} (name : String) (v : Bytes)
      → Extends p q
      → Extends p (add_bytes W q name v)
  unfolding add_bytes
  keep_bytes name v k = keep_item name _ k

  pub keep_string :
      {p q : Option Item} (name : String) (v : Option Bytes)
      → Extends p q
      → Extends p (W.add_string_to_object q name v)
  keep_string {q = q} name v k = rw (faithful.add_string-item q name v) (keep_item name _ k)

  pub keep_flag :
      {p q : Option Item} (name : String) (v : ℤ)
      → Extends p q
      → Extends p (W.add_bool_to_object q name v)
  keep_flag {q = q} name v k = rw (faithful.add_bool-item q name v) (keep_item name _ k)

  pub keep_name :
      {p q : Option Item} (name : String) (v : Option Bytes)
      → Extends p q
      → Extends p (add_name W q name v).1
  unfolding add_name
  keep_name name none k = k
  keep_name name (some s) k = keep_string name (some s) k

  pub keep_typed_addr :
      {p q : Option Item} (type_name name : String) (a : BleAddr)
      → Extends p q
      → Extends p (add_typed_addr W host c q type_name name a)
  unfolding add_typed_addr add_addr_type
  keep_typed_addr type_name name a k =
      keep_if (a.type == addr_type_none) k (keep_addr name a.val (keep_name type_name _ k))

  pub refl_keep : (p : Option Item) → Extends p p
  refl_keep p = keep (λ name old h. h)
