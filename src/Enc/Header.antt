-- ===== src/Enc/Header.antt =====
-- The header of a response, read back as `bhd_msg_hdr_dec` reads the header of a request.
use blehostd.Prelude.{
  ℕ, ◌<◌, ◌≤◌, ◌^◌, ◌≡◌, ◌≢◌, refl, ◌∙◌, sym, ap, Option, none, some, Option-cases, inl, inr,
  String, Bytes, codes, arith,
}
use blehostd.Prelude.Int.{ℤ, pos, negsuc, eqz_sound}
use blehostd.Cjson.{Cjson, cjson_number, cjson_string}
use blehostd.Writer.{Writer, IsFaithful, member, lower}
use blehostd.Json.{
  json_item, json_string, json_int_bounds, process_json_string, process_json_int_bounds,
  process_json_int,
}
use blehostd.Status.{ok}
use blehostd.Proto.Maps.{HostConsts, op_rev_parse, type_rev_parse}
use blehostd.Proto.Names.{op_names, type_parse-type_rev_parse}
use blehostd.Proto.Numbers.{seq_max}
use blehostd.Req.Outcome.{accepted, HostSizes}
use blehostd.Req.Dispatch.{rsp_dispatch_find}
use blehostd.Req.Run.{MsgHdr, msg_hdr_dec}
use blehostd.Enc.{HostText, msg_hdr_enc, add_int}
use blehostd.Enc.Rsp.{Encoded, encoded, rsp_cb}
use blehostd.Enc.Keep.{Extends, keep}
use blehostd.Enc.Rsp.Held.{Returns, read_garbled, returned, kept, rsp_cb-Returns}
use blehostd.Enc.Send.{Rsp, rsp_enc}

encoded_inj : {A : Type 0} (a b : Option A) → encoded a ≡ encoded b → a ≡ b
encoded_inj a b e = cc

module _ {J : Cjson} {W : Writer J} (faithful : IsFaithful W) where
  open J use {Item, get_object_item}

  -- A member with a new name.
  added :
      (object item : Item) (name : String)
      → get_object_item object name ≡ none
      → (object' : Item) × (W.add_item_to_object (some object) name (some item) ≡ some object')
        × (get_object_item object' name ≡ some item)
        × ((other : String) (old : Item)
            → get_object_item object other ≡ some old
            → get_object_item object' other ≡ some old)
        × ((other : String)
            → lower (codes name) ≢ lower (codes other)
            → get_object_item object other ≡ none
            → get_object_item object' other ≡ none)
  added object item name absent =
      let (object', e) = faithful.add_item-some object name (some item) in
      (
        object',
        e,
        ap (λ p. member J p name) (sym e) ∙ faithful.add_item-new object item name absent,
        λ other old h.
            ap (λ p. member J p other) (sym e)
            ∙ faithful.add_item-old object old name other (some item) h,
        λ other ne h.
            ap (λ p. member J p other) (sym e)
            ∙ faithful.add_item-other object name other (some item) ne
            ∙ h,
      )

  -- A text member, and a number member.
  abbrev pub HasText : Item → String → Bytes → Type 0
  HasText object name s =
      (item : Item) × (get_object_item object name ≡ some item)
      × (J.type_of item ≡ cjson_string)
      × (J.value_string item ≡ s)

  abbrev pub HasNumber : Item → String → ℕ → Type 0
  HasNumber object name n =
      (item : Item) × (get_object_item object name ≡ some item)
      × (J.type_of item ≡ cjson_number)
      × (J.value_int item ≡ pos n)

  pub header_members :
      (hdr : MsgHdr) (op_name type_name : Bytes)
      → op_rev_parse hdr.op ≡ some op_name
      → type_rev_parse hdr.type ≡ some type_name
      → (root : Item) × (msg_hdr_enc W W.create_object hdr ≡ some root)
        × HasText root "op" op_name
        × HasText root "type" type_name
        × (hdr.seq < 2 ^ 31 → HasNumber root "seq" hdr.seq)
  unfolding msg_hdr_enc add_int
  header_members hdr op_name type_name o t =
      let (root, r) = faithful.create_object-some in
      let empty =
        λ (name : String). ap (λ p. member J p name) (sym r) ∙ faithful.create_object-empty name in
      let (op, op_e, op_type, op_value) = faithful.create_string-some op_name in
      let (ty, ty_e, ty_type, ty_value) = faithful.create_string-some type_name in
      let (sq, sq_e, sq_type) = faithful.create_number-some (pos hdr.seq) in
      let (r1, e1, new1, old1, other1) = added root op "op" (empty "op") in
      let (r2, e2, new2, old2, other2) =
        added r1 ty "type" (other1 "type" (ground arith) (empty "type")) in
      let (r3, e3, new3, old3, other3) =
        added r2 sq "seq"
          (other2 "seq" (ground arith) (other1 "seq" (ground arith) (empty "seq"))) in
      (
        r3,
        rw
            (
              o,
              t,
              r,
              faithful.add_string-item (some root) "op" (some op_name),
              op_e,
              e1,
              faithful.add_string-item (some r1) "type" (some type_name),
              ty_e,
              e2,
              sq_e,
            )
            e3,
        (op, old3 "op" op (old2 "op" op new1), op_type, op_value),
        (ty, old3 "type" ty new2, ty_type, ty_value),
        λ less. (sq, new3, sq_type, faithful.create_number-int hdr.seq sq less sq_e),
      )

  pub read_text :
      (object : Item) (name : String) (s : Bytes)
      → HasText object name s
      → json_string J object name ≡ ok s
  unfolding json_string json_item process_json_string
  read_text object name s (item, there, type, value) = ground arith

  read_number :
      (object : Item) (name : String) (n m : ℕ)
      → n ≤ m
      → HasNumber object name n
      → json_int_bounds J object name (pos 0) (pos m) ≡ ok (pos n)
  unfolding json_int_bounds json_item process_json_int_bounds process_json_int
  read_number object name n m le (item, there, type, value) = ground arith

  named_type : (t : ℤ) (s : Bytes) → type_rev_parse t ≡ some s → t ≢ negsuc 0
  unfolding type_rev_parse
  named_type t s h e = ground (arith, e, h)

  named_op : (t : ℤ) (s : Bytes) → op_rev_parse t ≡ some s → t ≢ negsuc 0
  unfolding op_rev_parse
  named_op t s h e = ground (arith, e, h)

  -- The header that stands in an object is read from it.
  object_header :
      (sizes : HostSizes) (c : HostConsts) (object : Item) (hdr : MsgHdr)
      (op_name type_name : Bytes)
      → op_rev_parse hdr.op ≡ some op_name
      → type_rev_parse hdr.type ≡ some type_name
      → hdr.seq < 2 ^ 31
      → HasText object "op" op_name
      → HasText object "type" type_name
      → HasNumber object "seq" hdr.seq
      → msg_hdr_dec J sizes c object ≡ accepted hdr
  unfolding msg_hdr_dec
  object_header sizes c object hdr op_name type_name o t less op ty sq =
      let op_ne = named_op hdr.op op_name o in
      let type_ne = named_type hdr.type type_name t in
      ground (
        arith,
        read_text object "op" op_name op,
        read_text object "type" type_name ty,
        read_number object "seq" hdr.seq seq_max (omega arith) sq,
        (op_names op_name hdr.op op_ne).1 o,
        type_parse-type_rev_parse hdr.type type_name t,
        eqz_sound hdr.op (negsuc 0),
        eqz_sound hdr.type (negsuc 0),
      )

  Returns-encoded :
      (host : HostText) (c : HostConsts) {p : Option Item} {r : Encoded Item} (q : Option Item)
      → Returns faithful host c p r
      → r ≡ encoded q
      → Extends faithful host c p q
  Returns-encoded host c q read_garbled e = absurd (ground arith)
  Returns-encoded host c q (returned code) e = absurd (ground arith)
  Returns-encoded host c q (kept q' k) e = rw (sym (encoded_inj q' q e)) k

  -- The members that an object keeps.
  kept_header :
      (host : HostText) (sizes : HostSizes) (c : HostConsts) (object : Item) (q : Option Item)
      (hdr : MsgHdr) (op_name type_name : Bytes)
      → op_rev_parse hdr.op ≡ some op_name
      → type_rev_parse hdr.type ≡ some type_name
      → hdr.seq < 2 ^ 31
      → HasText object "op" op_name
      → HasText object "type" type_name
      → HasNumber object "seq" hdr.seq
      → Extends faithful host c (some object) q
      → (root : Item) × (q ≡ some root) × (msg_hdr_dec J sizes c root ≡ accepted hdr)
  kept_header host sizes c object none hdr op_name type_name o t less (op, op_in, _, _) ty sq
        (keep k) =
      absurd (ground (arith, k "op" op op_in))
  kept_header host sizes c object (some root) hdr op_name type_name o t less
        (op, op_in, op_type, op_value) (ty, ty_in, ty_type, ty_value) (sq, sq_in, sq_type, sq_value)
        (keep k) =
      (
        root,
        refl,
        object_header sizes c root hdr op_name type_name o t less
            (op, k "op" op op_in, op_type, op_value) (ty, k "type" ty ty_in, ty_type, ty_value)
            (sq, k "seq" sq sq_in, sq_type, sq_value),
      )

  -- A response that `bhd_rsp_enc` encodes carries its header: in the object that it gives, with all the
  -- members of the response, `bhd_msg_hdr_dec` reads exactly the header of the response, if its operation
  -- and type have names and its sequence number is below 2^31.
  pub rsp_enc-hdr :
      (host : HostText) (sizes : HostSizes) (c : HostConsts) (rsp : Rsp) (op_name type_name : Bytes)
      (q : Option Item)
      → op_rev_parse rsp.hdr.op ≡ some op_name
      → type_rev_parse rsp.hdr.type ≡ some type_name
      → rsp.hdr.seq < 2 ^ 31
      → rsp_enc W host c rsp ≡ encoded q
      → (root : Item) × (q ≡ some root) × (msg_hdr_dec J sizes c root ≡ accepted rsp.hdr)
  unfolding rsp_enc
  rsp_enc-hdr host sizes c rsp op_name type_name q o t less enc =
      let (start, s) = faithful.create_object-some in
      let (root, r, op, ty, sq) = header_members rsp.hdr op_name type_name o t in
      elim (Option-cases (rsp_dispatch_find rsp.hdr.type)) [
        | inl e ↦ absurd (ground arith)
        | inr (cb, e) ↦
            let sub : rsp_cb W host c cb (some root) rsp.body ≡ encoded q = ground arith in
            kept_header host sizes c root q rsp.hdr op_name type_name o t less op ty (sq less) (
              Returns-encoded host c q (rsp_cb-Returns faithful host c cb (some root) rsp.body) sub)
      ]
