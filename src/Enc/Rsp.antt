-- ===== src/Enc/Rsp.antt =====
-- The encoders of the responses, in apps/blehostd/src/bhd_proto.c and bhd_util.c.
pub mod Types
pub mod Status
pub mod Held
unfoldable pub use Types.*
unfoldable pub use Status.*
use blehostd.Prelude.{ℕ, not, Option, none, some, List, [], ◌∷◌, String, Bytes, if◌then◌else◌, ◌==◌}
use blehostd.Prelude.Int.{ℤ, pos, eqz}
use blehostd.Status.{Error, sys_enomem}
use blehostd.Cjson.{Cjson}
use blehostd.Writer.{Writer}
use blehostd.Uuid.{Uuid}
use blehostd.Proto.Maps.{HostConsts}
use blehostd.Proto.Numbers.{addr_type_none}
use blehostd.Enc.{
  BleAddr, HostText, add_bytes, add_addr, add_int, add_bool, add_addr_type, add_uuid, fill_arr,
}
use blehostd.Req.Dispatch

module _ {J : Cjson} (W : Writer J) (host : HostText) (c : HostConsts) where
  open J use {Item}
  open W use {
    create_object, create_array, add_item_to_object, add_item_to_array, add_string_to_object,
    add_bool_to_object,
  }

  unfoldable pub create_commit_dsc : CommitDsc → Option Item
  unfolding add_int add_uuid
  create_commit_dsc dsc =
      add_int W (add_uuid W host create_object "uuid" dsc.uuid) "handle" (pos dsc.handle)

  unfoldable pub create_commit_chr : CommitChr → Option Item
  unfolding add_int add_uuid fill_arr create_commit_dsc
  create_commit_chr chr =
      let with_uuid = add_uuid W host create_object "uuid" chr.uuid in
      let with_def = add_int W with_uuid "def_handle" (pos chr.def_handle) in
      let with_val = add_int W with_def "val_handle" (pos chr.val_handle) in
      add_item_to_object with_val "descriptors" (fill_arr W create_commit_dsc create_array chr.dscs)

  -- A loop that ends early, with the outer `none`, where an element is NULL.
  unfoldable pub fill_all :
      {A : Type 0} → (A → Option Item) → Option Item → List A → Option (Option Item)
  fill_all create arr [] = some arr
  fill_all create arr (v ∷ vals) = elim (create v) [
    | none ↦ none
    | some item ↦ fill_all create (add_item_to_array arr (some item)) vals
  ]

  unfoldable pub create_commit_svc : CommitSvc → Option Item
  unfolding add_int add_uuid fill_all create_commit_chr
  create_commit_svc svc = elim create_object [
    | none ↦ none
    | some item ↦
        let with_uuid = add_uuid W host (some item) "uuid" svc.uuid in
        let with_handle = add_int W with_uuid "handle" (pos svc.handle) in
        elim create_array [
          | none ↦ none
          | some chrs ↦ elim (fill_all create_commit_chr (some chrs) svc.chrs) [
            | none ↦ none
            | some filled ↦ add_item_to_object with_handle "characteristics" filled
          ]
        ]
  ]

  -- An address and its type, where the type is not BHD_ADDR_TYPE_NONE; the result of
  -- `bhd_json_add_addr_type` is not read.
  unfoldable pub add_typed_addr : Option Item → String → String → BleAddr → Option Item
  unfolding add_addr add_addr_type
  add_typed_addr parent type_name name a =
      if a.type == addr_type_none
      then parent
      else add_addr W (add_addr_type W c parent type_name a.type).1 name a.val

  unfoldable pub err_rsp_enc : Option Item → RspBody → Encoded Item
  unfolding add_int
  err_rsp_enc parent (err_rsp status msg) =
      encoded (add_string_to_object (add_int W parent "status" status) "msg" msg)
  err_rsp_enc parent _ = garbled

  unfoldable pub sync_rsp_enc : Option Item → RspBody → Encoded Item
  unfolding status_of
  sync_rsp_enc parent rsp = encoded (add_bool_to_object parent "synced" (status_of rsp))

  -- An encoder that reads the rest of its member only where the status is 0, of another member with a status.
  unfoldable pub status_alone : Option Item → ℤ → Encoded Item
  unfolding add_int
  status_alone parent status =
      if eqz status (pos 0) then garbled else encoded (add_int W parent "status" status)

  unfoldable pub gen_rand_addr_rsp_enc : Option Item → RspBody → Encoded Item
  unfolding add_int add_addr status_of status_alone
  gen_rand_addr_rsp_enc parent (gen_rand_addr_rsp status addr) =
      let with_status = add_int W parent "status" status in
      if eqz status (pos 0)
      then encoded (add_addr W with_status "addr" addr)
      else encoded with_status
  gen_rand_addr_rsp_enc parent rsp = status_alone parent (status_of rsp)

  -- The numbers of `bhd_conn_find_rsp_enc` before the addresses.
  unfoldable pub conn_find_ints : Option Item → ConnFindRsp → Option Item
  unfolding add_int
  conn_find_ints parent rsp =
      let with_status = add_int W parent "status" rsp.status in
      let with_handle =
        if rsp.conn_handle == host.conn_handle_none
        then with_status
        else add_int W with_status "conn_handle" (pos rsp.conn_handle) in
      let with_itvl = add_int W with_handle "conn_itvl" (pos rsp.conn_itvl) in
      let with_latency = add_int W with_itvl "conn_latency" (pos rsp.conn_latency) in
      let with_timeout =
        add_int W with_latency "supervision_timeout" (pos rsp.supervision_timeout) in
      let with_role = add_int W with_timeout "role" (pos rsp.role) in
      add_int W with_role "master_clock_accuracy" (pos rsp.master_clock_accuracy)

  -- Its addresses.
  unfoldable pub conn_find_addrs : Option Item → ConnFindRsp → Option Item
  unfolding add_typed_addr
  conn_find_addrs parent rsp =
      let own_id = add_typed_addr parent "own_id_addr_type" "own_id_addr" rsp.our_id_addr in
      let own_ota = add_typed_addr own_id "own_ota_addr_type" "own_ota_addr" rsp.our_ota_addr in
      let peer_id = add_typed_addr own_ota "peer_id_addr_type" "peer_id_addr" rsp.peer_id_addr in
      add_typed_addr peer_id "peer_ota_addr_type" "peer_ota_addr" rsp.peer_ota_addr

  unfoldable pub conn_find_rsp_enc : Option Item → RspBody → Encoded Item
  unfolding conn_find_ints conn_find_addrs add_bool add_int
  conn_find_rsp_enc parent (conn_find_rsp rsp) =
      let with_addrs = conn_find_addrs (conn_find_ints parent rsp) rsp in
      let encrypted = add_bool W with_addrs "encrypted" (pos rsp.encrypted) in
      let authenticated = add_bool W encrypted "authenticated" (pos rsp.authenticated) in
      let bonded = add_bool W authenticated "bonded" (pos rsp.bonded) in
      encoded (add_int W bonded "key_size" (pos rsp.key_size))
  conn_find_rsp_enc parent _ = garbled

  unfoldable pub reset_rsp_enc : Option Item → RspBody → Encoded Item
  reset_rsp_enc parent rsp = encoded parent

  unfoldable pub adv_fields_rsp_enc : Option Item → RspBody → Encoded Item
  unfolding add_int add_bytes status_of status_alone
  adv_fields_rsp_enc parent (adv_fields_rsp status bytes) =
      let with_status = add_int W parent "status" status in
      if eqz status (pos 0)
      then encoded (add_bytes W with_status "data" bytes)
      else encoded with_status
  adv_fields_rsp_enc parent rsp = status_alone parent (status_of rsp)

  -- The member "services", with the array that the loop gives.
  unfoldable pub add_services : Option Item → Option (Option Item) → Encoded Item
  add_services parent none = failed_enc sys_enomem
  add_services parent (some filled) = encoded (add_item_to_object parent "services" filled)

  unfoldable pub encode_services : Option Item → List CommitSvc → Option Item → Encoded Item
  unfolding add_services fill_all create_commit_svc
  encode_services parent svcs none = failed_enc sys_enomem
  encode_services parent svcs (some arr) =
      add_services parent (fill_all create_commit_svc (some arr) svcs)

  -- The blocks of the response are freed both ways, which the model leaves out.
  unfoldable pub commit_svcs_rsp_enc : Option Item → RspBody → Encoded Item
  unfolding add_int encode_services
  commit_svcs_rsp_enc parent (commit_svcs_rsp status svcs) =
      encode_services (add_int W parent "status" status) svcs create_array
  commit_svcs_rsp_enc parent _ = garbled

  unfoldable pub find_chr_rsp_enc : Option Item → RspBody → Encoded Item
  unfolding add_int
  find_chr_rsp_enc parent (find_chr_rsp status def_handle val_handle) =
      let with_status = add_int W parent "status" status in
      let with_def = add_int W with_status "def_handle" (pos def_handle) in
      encoded (add_int W with_def "val_handle" (pos val_handle))
  find_chr_rsp_enc parent _ = garbled

  -- The call `rsp_cb(root, rsp)`.
  unfoldable pub rsp_cb : Dispatch.SubrspEnc → Option Item → RspBody → Encoded Item
  rsp_cb Dispatch.err_rsp_enc parent rsp = err_rsp_enc parent rsp
  rsp_cb Dispatch.sync_rsp_enc parent rsp = sync_rsp_enc parent rsp
  rsp_cb Dispatch.connect_rsp_enc parent rsp = connect_rsp_enc W host c parent rsp
  rsp_cb Dispatch.terminate_rsp_enc parent rsp = terminate_rsp_enc W host c parent rsp
  rsp_cb Dispatch.disc_all_svcs_rsp_enc parent rsp = disc_all_svcs_rsp_enc W host c parent rsp
  rsp_cb Dispatch.disc_svc_uuid_rsp_enc parent rsp = disc_svc_uuid_rsp_enc W host c parent rsp
  rsp_cb Dispatch.disc_all_chrs_rsp_enc parent rsp = disc_all_chrs_rsp_enc W host c parent rsp
  rsp_cb Dispatch.disc_chr_uuid_rsp_enc parent rsp = disc_chr_uuid_rsp_enc W host c parent rsp
  rsp_cb Dispatch.disc_all_dscs_rsp_enc parent rsp = disc_all_dscs_rsp_enc W host c parent rsp
  rsp_cb Dispatch.write_rsp_enc parent rsp = write_rsp_enc W host c parent rsp
  rsp_cb Dispatch.exchange_mtu_rsp_enc parent rsp = exchange_mtu_rsp_enc W host c parent rsp
  rsp_cb Dispatch.set_rand_addr_rsp_enc parent rsp = set_rand_addr_rsp_enc W host c parent rsp
  rsp_cb Dispatch.conn_cancel_rsp_enc parent rsp = conn_cancel_rsp_enc W host c parent rsp
  rsp_cb Dispatch.scan_rsp_enc parent rsp = scan_rsp_enc W host c parent rsp
  rsp_cb Dispatch.scan_cancel_rsp_enc parent rsp = scan_cancel_rsp_enc W host c parent rsp
  rsp_cb Dispatch.set_preferred_mtu_rsp_enc parent rsp =
      set_preferred_mtu_rsp_enc W host c parent rsp
  rsp_cb Dispatch.security_initiate_rsp_enc parent rsp =
      security_initiate_rsp_enc W host c parent rsp
  rsp_cb Dispatch.adv_start_rsp_enc parent rsp = adv_start_rsp_enc W host c parent rsp
  rsp_cb Dispatch.adv_stop_rsp_enc parent rsp = adv_stop_rsp_enc W host c parent rsp
  rsp_cb Dispatch.adv_set_data_rsp_enc parent rsp = adv_set_data_rsp_enc W host c parent rsp
  rsp_cb Dispatch.adv_rsp_set_data_rsp_enc parent rsp = adv_rsp_set_data_rsp_enc W host c parent rsp
  rsp_cb Dispatch.clear_svcs_rsp_enc parent rsp = clear_svcs_rsp_enc W host c parent rsp
  rsp_cb Dispatch.add_svcs_rsp_enc parent rsp = add_svcs_rsp_enc W host c parent rsp
  rsp_cb Dispatch.access_status_rsp_enc parent rsp = access_status_rsp_enc W host c parent rsp
  rsp_cb Dispatch.notify_rsp_enc parent rsp = notify_rsp_enc W host c parent rsp
  rsp_cb Dispatch.sm_inject_io_rsp_enc parent rsp = sm_inject_io_rsp_enc W host c parent rsp
  rsp_cb Dispatch.gen_rand_addr_rsp_enc parent rsp = gen_rand_addr_rsp_enc parent rsp
  rsp_cb Dispatch.conn_find_rsp_enc parent rsp = conn_find_rsp_enc parent rsp
  rsp_cb Dispatch.reset_rsp_enc parent rsp = reset_rsp_enc parent rsp
  rsp_cb Dispatch.adv_fields_rsp_enc parent rsp = adv_fields_rsp_enc parent rsp
  rsp_cb Dispatch.commit_svcs_rsp_enc parent rsp = commit_svcs_rsp_enc parent rsp
  rsp_cb Dispatch.find_chr_rsp_enc parent rsp = find_chr_rsp_enc parent rsp
