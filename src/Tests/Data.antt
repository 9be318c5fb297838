-- ===== src/Tests/Data.antt =====
-- The data of the examples: a JSON tree as cJSON links it, numbers for the host's macros, and empty
-- service tables.
use blehostd.Prelude.{
  ℕ, if◌then◌else◌, Option, none, some, List, [], ◌∷◌, String, Bytes, codes, streq,
}
use blehostd.Prelude.Int.{ℤ, pos}
use blehostd.Cjson.{Kind, cjson_number, cjson_string, cjson_array, other_type, Cjson}
use blehostd.Proto.Maps.{HostConsts}
use blehostd.Gatts.{Gatts}

-- An item with its name, its first child and its next sibling.
pub data Tree : Type 0 where
  nothing : Tree
  item : Kind → ℤ → Bytes → String → Tree → Tree → Tree

abbrev chain : Tree → List Tree
chain nothing = []
chain (item kind int text name child next) = item kind int text name child next ∷ chain next

abbrev search : List Tree → String → Option Tree
search [] name = none
search (nothing ∷ trees) name = search trees name
search (item kind int text key child next ∷ trees) name =
    if streq (codes key) (codes name)
    then some (item kind int text key child next)
    else search trees name

abbrev kind_of : Tree → Kind
kind_of nothing = other_type
kind_of (item kind _ _ _ _ _) = kind

abbrev int_of : Tree → ℤ
int_of nothing = pos 0
int_of (item _ int _ _ _ _) = int

abbrev text_of : Tree → Bytes
text_of nothing = []
text_of (item _ _ text _ _ _) = text

abbrev children_of : Tree → List Tree
children_of nothing = []
children_of (item _ _ _ _ child _) = chain child

abbrev pub num : String → ℕ → Tree → Tree
num name n next = item cjson_number (pos n) [] name nothing next

abbrev pub text : String → String → Tree → Tree
text name s next = item cjson_string (pos 0) (codes s) name nothing next

abbrev pub arr : String → Tree → Tree → Tree
arr name child next = item cjson_array (pos 0) [] name child next

abbrev pub obj : Tree → Tree
obj child = item other_type (pos 0) [] "" child nothing

-- The trees, where each text is parsed to one tree.
abbrev pub tree_json : Tree → Cjson
tree_json tree = record {
  Item = Tree;
  type_of = kind_of;
  value_int = int_of;
  value_string = text_of;
  children = children_of;
  get_object_item = λ parent name. search (children_of parent) name;
  parse = λ _. some tree;
}

abbrev pub consts : HostConsts
consts = record {
  addr_public = pos 0;
  addr_random = pos 1;
  addr_public_id = pos 2;
  addr_random_id = pos 3;
  scan_filt_no_wl = pos 0;
  scan_filt_use_wl = pos 1;
  scan_filt_no_wl_inita = pos 2;
  scan_filt_use_wl_inita = pos 3;
  adv_type_adv_ind = pos 0;
  adv_type_adv_direct_ind_hd = pos 1;
  adv_type_adv_scan_ind = pos 2;
  adv_type_adv_nonconn_ind = pos 3;
  adv_type_adv_direct_ind_ld = pos 4;
  conn_mode_non = pos 0;
  conn_mode_dir = pos 1;
  conn_mode_und = pos 2;
  disc_mode_non = pos 0;
  disc_mode_ltd = pos 1;
  disc_mode_gen = pos 2;
  adv_filt_none = pos 0;
  adv_filt_scan = pos 1;
  adv_filt_conn = pos 2;
  adv_filt_both = pos 3;
  svc_type_primary = pos 1;
  svc_type_secondary = pos 2;
  access_op_read_chr = pos 0;
  access_op_write_chr = pos 1;
  access_op_read_dsc = pos 2;
  access_op_write_dsc = pos 3;
  sm_ioact_oob = pos 1;
  sm_ioact_input = pos 2;
  sm_ioact_disp = pos 3;
  sm_ioact_numcmp = pos 4;
}

abbrev pub empty_tables : Gatts
empty_tables = record {
  svcs = λ _. record { type = 0; uuid = none; characteristics = none };
  chrs = λ _. record {
    uuid = none;
    flags = 0;
    min_key_size = 0;
    arg = 0;
    val_handle = none;
    descriptors = none;
  };
  dscs = λ _. record { uuid = none; att_flags = 0; min_key_size = 0; arg = 0 };
  uuids = λ _. none;
  num_svcs = 0;
  num_chrs = 0;
  num_dscs = 0;
  num_uuids = 0;
  num_val_handles = 0;
  next_seq = 0xffff_ff00;
}
