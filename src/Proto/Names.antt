-- ===== src/Proto/Names.antt =====
-- The names of operations, message types and host constants, and their numbers.
use blehostd.Prelude.{◌≡◌, refl, ◌≢◌, ◌↔◌, Option, some, Bytes}
use blehostd.Prelude.Int.{ℤ, negsuc}
use blehostd.KvMap.Laws.{find-rev_find, rev_find-find}
use blehostd.Proto.Maps
use blehostd.Proto.Maps.{
  HostConsts, op_map, type_map, op_parse, op_rev_parse, type_parse, type_rev_parse,
}

-- The name that `bhd_type_rev_parse` gives a message type is parsed to that type.
pub type_parse-type_rev_parse : (t : ℤ) (s : Bytes) → type_rev_parse t ≡ some s → type_parse s ≡ t
unfolding type_parse type_rev_parse
type_parse-type_rev_parse t s h = find-rev_find type_map t s refl h

-- A text that `bhd_type_parse` accepts, with a number other than -1, is the name that
-- `bhd_type_rev_parse` gives the number.
pub type_rev_parse-type_parse :
    (s : Bytes) (t : ℤ) → t ≢ negsuc 0 → type_parse s ≡ t → type_rev_parse t ≡ some s
unfolding type_parse type_rev_parse
type_rev_parse-type_parse s t ne h = rev_find-find type_map s t refl ne h

-- A number other than -1 is what `bhd_op_parse` gives a text exactly if the text is the name that
-- `bhd_op_rev_parse` gives the number.
pub op_names : (s : Bytes) (t : ℤ) → t ≢ negsuc 0 → (op_parse s ≡ t) ↔ (op_rev_parse t ≡ some s)
unfolding op_parse op_rev_parse
op_names s t ne = (rev_find-find op_map s t refl ne, find-rev_find op_map t s refl)

-- The maps of host constants, and their two searches.
pub data HostMap : Type 0 where
  addr_type scan_filter_policy adv_event_type adv_conn_mode adv_disc_mode adv_filter_policy svc_type
        gatt_access_op sm_passkey_action :
      HostMap

abbrev pub host_parse : HostConsts → HostMap → Bytes → ℤ
host_parse c addr_type s = Maps.addr_type_parse c s
host_parse c scan_filter_policy s = Maps.scan_filter_policy_parse c s
host_parse c adv_event_type s = Maps.adv_event_type_parse c s
host_parse c adv_conn_mode s = Maps.adv_conn_mode_parse c s
host_parse c adv_disc_mode s = Maps.adv_disc_mode_parse c s
host_parse c adv_filter_policy s = Maps.adv_filter_policy_parse c s
host_parse c svc_type s = Maps.svc_type_parse c s
host_parse c gatt_access_op s = Maps.gatt_access_op_parse c s
host_parse c sm_passkey_action s = Maps.sm_passkey_action_parse c s

abbrev pub host_rev_parse : HostConsts → HostMap → ℤ → Option Bytes
host_rev_parse c addr_type v = Maps.addr_type_rev_parse c v
host_rev_parse c scan_filter_policy v = Maps.scan_filter_policy_rev_parse c v
host_rev_parse c adv_event_type v = Maps.adv_event_type_rev_parse c v
host_rev_parse c adv_conn_mode v = Maps.adv_conn_mode_rev_parse c v
host_rev_parse c adv_disc_mode v = Maps.adv_disc_mode_rev_parse c v
host_rev_parse c adv_filter_policy v = Maps.adv_filter_policy_rev_parse c v
host_rev_parse c svc_type v = Maps.svc_type_rev_parse c v
host_rev_parse c gatt_access_op v = Maps.gatt_access_op_rev_parse c v
host_rev_parse c sm_passkey_action v = Maps.sm_passkey_action_rev_parse c v

-- Whatever numbers the host's macros have, the name under which a map of host constants prints a
-- number is parsed back to that number.
pub host_parse-host_rev_parse :
    (c : HostConsts) (m : HostMap) (v : ℤ) (s : Bytes)
    → host_rev_parse c m v ≡ some s
    → host_parse c m s ≡ v
unfolding Maps.addr_type_parse Maps.addr_type_rev_parse Maps.scan_filter_policy_parse
    Maps.scan_filter_policy_rev_parse Maps.adv_event_type_parse Maps.adv_event_type_rev_parse
    Maps.adv_conn_mode_parse Maps.adv_conn_mode_rev_parse Maps.adv_disc_mode_parse
    Maps.adv_disc_mode_rev_parse Maps.adv_filter_policy_parse Maps.adv_filter_policy_rev_parse
    Maps.svc_type_parse Maps.svc_type_rev_parse Maps.gatt_access_op_parse
    Maps.gatt_access_op_rev_parse Maps.sm_passkey_action_parse Maps.sm_passkey_action_rev_parse
host_parse-host_rev_parse c addr_type v s h = find-rev_find (Maps.addr_type_map c) v s refl h
host_parse-host_rev_parse c scan_filter_policy v s h =
    find-rev_find (Maps.scan_filter_policy_map c) v s refl h
host_parse-host_rev_parse c adv_event_type v s h =
    find-rev_find (Maps.adv_event_type_map c) v s refl h
host_parse-host_rev_parse c adv_conn_mode v s h =
    find-rev_find (Maps.adv_conn_mode_map c) v s refl h
host_parse-host_rev_parse c adv_disc_mode v s h =
    find-rev_find (Maps.adv_disc_mode_map c) v s refl h
host_parse-host_rev_parse c adv_filter_policy v s h =
    find-rev_find (Maps.adv_filter_policy_map c) v s refl h
host_parse-host_rev_parse c svc_type v s h = find-rev_find (Maps.svc_type_map c) v s refl h
host_parse-host_rev_parse c gatt_access_op v s h =
    find-rev_find (Maps.gatt_access_op_map c) v s refl h
host_parse-host_rev_parse c sm_passkey_action v s h =
    find-rev_find (Maps.sm_passkey_action_map c) v s refl h
