-- ===== src/Tests/Commit.antt =====
-- Examples for the description of the registry, the access of a peer and the fields of an advertisement.
use blehostd.Prelude.{
  zero, suc, ap, ◌*◌, ◌%◌, ℕ, ◌+◌, ◌≡◌, ◌⊎◌, ◌≤◌, ◌<◌, ◌/◌, refl, true, Option, none, some, List,
  [], ◌∷◌, Bytes, codes, arith, length,
}
use blehostd.Prelude.Int.{pos}
use blehostd.Svc.{Svc}
use blehostd.Uuid.{uuid16}
use blehostd.Req.Types.{AdvFieldsReq}
use blehostd.Gap.{AdvFields, copy_fields}
use blehostd.Gap.Fields.{copy_uuids128, adv_fields_copy, fields, too_many}
use blehostd.Gap.Fields.Scanned.{AreInverse, Reports, adv_fields_copy-Reports}
use blehostd.Gatts.{Gatts, add_svcs, verify_resource_cnt, cnt_resources}
use blehostd.Gatts.Access.{initial}
use blehostd.Gatts.Access.Reach.{later}
use blehostd.Gatts.Access.Callback.{
  AccessHost, returned, gatts_access, peer_gets, at_rest, gatts_access-first,
}
use blehostd.Gatts.Commit.{GattsHost, undefined, commit_svcs}
use blehostd.Gatts.Commit.Layout.{IsBlank}
use blehostd.Gatts.Commit.Described.{described, response, commit_svcs-add_svcs}
use blehostd.Gatts.Commit.Again.{commit_svcs-add_svcs_twice}
use blehostd.Tests.Data.{empty_tables}
use blehostd.Tests.Registry.{battery}
use blehostd.Tests.Messages.{seen}

-- Every call succeeds, and the value handles begin at 3.
abbrev pub willing : GattsHost
willing = record {
  gatts_count_cfg = λ _. pos 0;
  gatts_add_svcs = λ _. pos 0;
  gatts_start = λ _. (pos 0, λ k. k + k + 3);
  calloc = λ _ _. true;
  size_modulus = 0x1_0000_0000;
  gatts_find_chr = λ _ _. (pos 0, 2, 3);
}

-- The state behind a call that accepts.
abbrev behind : List Svc → Gatts → Gatts
behind svcs g = elim (add_svcs svcs g) [ none ↦ g | some (status, g') ↦ g' ]

empty_tables-IsBlank : IsBlank empty_tables
empty_tables-IsBlank = record { svcs = λ i h. (refl, refl); chrs = λ i h. refl }

accepted_once : add_svcs battery empty_tables ≡ some (none, behind battery empty_tables)
unfolding add_svcs verify_resource_cnt cnt_resources
accepted_once = refl

-- Its characteristic has the value handle 3.
battery_is_described :
    described (λ k. k + k + 3) 0 battery
    ≡ some (
        record {
          uuid = uuid16 0x180f;
          handle = 0;
          chrs = record { uuid = uuid16 0x2a19; def_handle = 2; val_handle = 3; dscs = [] } ∷ [];
        }
        ∷ [])
unfolding described
battery_is_described = refl

commit_svcs-add_svcs_example :
    commit_svcs willing (behind battery empty_tables)
    ≡ response (described (λ k. k + k + 3) 0 battery)
commit_svcs-add_svcs_example =
    commit_svcs-add_svcs willing (λ n m. refl) battery empty_tables (behind battery empty_tables)
      (λ k. k + k + 3) empty_tables-IsBlank (ground arith) refl accepted_once
      (record { counts = refl; adds = refl; starts = refl })

abbrev twice : Gatts
twice = behind battery (behind battery empty_tables)

accepted_again : add_svcs battery (behind battery empty_tables) ≡ some (none, twice)
unfolding add_svcs verify_resource_cnt cnt_resources
accepted_again = refl

commit_svcs-add_svcs_twice_example : commit_svcs willing twice ≡ undefined
commit_svcs-add_svcs_twice_example =
    commit_svcs-add_svcs_twice willing (λ n m. refl) battery battery empty_tables
      (behind battery empty_tables) twice (λ k. k + k + 3) empty_tables-IsBlank accepted_once
      accepted_again (record { counts = refl; adds = refl; starts = refl })

-- A host whose chains are lists of bytes.
abbrev byte_host : AccessHost
byte_host = record {
  Mbuf = Bytes;
  mbuf_to_flat = λ _ om. some om;
  mbuf_append = λ om value. some value;
  att_attr_max_len = 2;
  op_read_chr = 0;
  op_read_dsc = 2;
  err_unlikely = 14;
  err_insufficient_res = 17;
}

-- A read that the client answers twice, with more bytes than fit.
abbrev given : List (ℕ × Option Bytes)
given = (0, some (1 ∷ 2 ∷ 3 ∷ [])) ∷ (5, none) ∷ []

gatts_access-first_example :
    gatts_access byte_host
      (λ _. true)
      (later 2 given)
      (later 2 [])
      (later 2 given)
      1
      9
      (record { op = 0; om = some [] })
      7
      initial
    ≡ returned
        (peer_gets byte_host 0 [] (some 0, 1 ∷ 2 ∷ [])).0
        (peer_gets byte_host 0 [] (some 0, 1 ∷ 2 ∷ [])).1
        (at_rest (1 ∷ 2 ∷ []))
gatts_access-first_example =
    gatts_access-first byte_host (λ _. true) given [] given 1 9 0 [] [] 7 [] (ground arith) tt
      (ground arith) refl refl

-- A name and two UUIDs.
abbrev advertised : AdvFieldsReq
advertised = record {
  flags = 6;
  uuids16 = 0x180f ∷ 0x1812 ∷ [];
  uuids16_is_complete = 1;
  uuids32 = [];
  uuids32_is_complete = 0;
  uuids128 = [];
  uuids128_is_complete = 0;
  name = codes "lamp";
  name_is_complete = 1;
  tx_pwr_lvl = none;
  slave_itvl_range = some (6, 12);
  svc_data_uuid16 = [];
  public_tgt_addrs = [];
  appearance = some 64;
  adv_itvl = none;
  svc_data_uuid32 = [];
  svc_data_uuid128 = [];
  uri = [];
  mfg_data = 1 ∷ [];
}

-- The high byte stands first.
abbrev put_low : Bytes → ℕ → Bytes
put_low [] v = []
put_low (x ∷ buf) v = v % 256 ∷ buf

abbrev pub put_be16 : Bytes → ℕ → ℕ → Bytes
put_be16 [] off v = []
put_be16 (x ∷ buf) zero v = v / 256 % 256 ∷ put_low buf v
put_be16 (x ∷ buf) (suc off) v = x ∷ put_be16 buf off v

abbrev first : Bytes → ℕ
first [] = 0
first (x ∷ buf) = x

abbrev get_be16 : Bytes → ℕ → ℕ
get_be16 [] off = 0
get_be16 (x ∷ buf) zero = x * 256 + first buf
get_be16 (x ∷ buf) (suc off) = get_be16 buf off

length-put : (buf : Bytes) (off v : ℕ) → length (put_be16 buf off v) ≡ length buf
length-put [] off v = refl
length-put (x ∷ []) zero v = refl
length-put (x ∷ y ∷ buf) zero v = refl
length-put (x ∷ buf) (suc off) v = ap suc (length-put buf off v)

get-put :
    (buf : Bytes) (off v : ℕ)
    → off + 2 ≤ length buf
    → get_be16 (put_be16 buf off v) off ≡ v % 0x1_0000
get-put [] off v h = absurd (ground arith)
get-put (x ∷ []) zero v h = absurd (ground arith)
get-put (x ∷ y ∷ buf) zero v h = omega arith
get-put (x ∷ buf) (suc off) v h = get-put buf off v (omega arith)

get-put_behind :
    (buf : Bytes) (off off' v : ℕ)
    → off + 2 ≤ off'
    → off' + 2 ≤ length buf
    → get_be16 (put_be16 buf off' v) off ≡ get_be16 buf off
get-put_behind [] off off' v h l = refl
get-put_behind (x ∷ buf) off zero v h l = absurd (omega arith)
get-put_behind (x ∷ buf) zero (suc zero) v h l = absurd (omega arith)
get-put_behind (x ∷ []) zero (suc (suc off')) v h l = refl
get-put_behind (x ∷ y ∷ buf) zero (suc (suc off')) v h l = refl
get-put_behind (x ∷ buf) (suc off) (suc off') v h l =
    get-put_behind buf off off' v (omega arith) (omega arith)

big_endian : AreInverse put_be16 get_be16
big_endian = record { length-put = length-put; get-put = get-put; get-put_behind = get-put_behind }

no_uuids128 : copy_uuids128 [] ≡ some []
unfolding copy_uuids128
no_uuids128 = refl

adv_fields_copy-Reports_example :
    ((f : AdvFields) × (adv_fields_copy put_be16 29 advertised ≡ fields f)
      × Reports advertised [] (copy_fields get_be16 f seen)
      × (length advertised.uuids16 ≤ 29 / 2)
      × (length advertised.uuids32 ≤ 29 / 4)
      × (length advertised.uuids128 ≤ 29 / 16))
    ⊎ ((adv_fields_copy put_be16 29 advertised ≡ too_many)
        × ((29 / 2 < length advertised.uuids16)
            ⊎ (29 / 4 < length advertised.uuids32)
            ⊎ (29 / 16 < length advertised.uuids128)))
adv_fields_copy-Reports_example =
    adv_fields_copy-Reports put_be16 get_be16 big_endian 29 advertised [] seen no_uuids128
