-- ===== src/Enc/Rsp/Held.antt =====
-- The encoders of responses keep the members of the object.
use blehostd.Prelude.{
  inl, inr, Bool-cases, Bool, true, false, ◌==◌, Option, none, some, List, if◌then◌else◌,
}
use blehostd.Prelude.Int.{ℤ, pos, eqz}
use blehostd.Status.{Error, sys_enomem}
use blehostd.Cjson.{Cjson}
use blehostd.Writer.{Writer, IsFaithful}
use blehostd.Proto.Maps.{HostConsts}
use blehostd.Req.Dispatch
use blehostd.Req.Dispatch.{SubrspEnc}
use blehostd.Enc.{HostText, add_int}
use blehostd.Enc.Rsp
use blehostd.Enc.Rsp.{
  RspBody, Encoded, garbled, failed_enc, encoded, conn_find_ints, conn_find_addrs, rsp_cb,
}
use blehostd.Enc.Keep.{
  Extends, keep_item, keep_if, keep_int, keep_bool, keep_addr, keep_bytes, keep_string, keep_flag,
  keep_typed_addr, refl_keep,
}

module _ {J : Cjson} {W : Writer J} (faithful : IsFaithful W) (host : HostText)
    (c : HostConsts) where
  open J use {Item}

  -- An encoder that returns 0 keeps the members.
  pub data Returns (p : Option Item) : Encoded Item → Type 0 where
    read_garbled : Returns p garbled
    returned : (e : Error) → Returns p (failed_enc e)
    kept : (q : Option Item) → Extends faithful host c p q → Returns p (encoded q)

  held_if :
      {p q r : Option Item} (b : Bool)
      → Extends faithful host c p q
      → Extends faithful host c p r
      → Returns p (if b then encoded q else encoded r)
  held_if true k l = kept _ k
  held_if false k l = kept _ l

  conn_find_ints-Extends :
      (p : Option Item) (rsp : Rsp.ConnFindRsp)
      → Extends faithful host c p (conn_find_ints W host c p rsp)
  unfolding conn_find_ints
  conn_find_ints-Extends p rsp =
      let start = keep_int faithful host c "status" rsp.status (refl_keep faithful host c p) in
      keep_int faithful host c _ _ (
        keep_int faithful host c _ _ (
          keep_int faithful host c _ _ (
            keep_int faithful host c _ _ (
              keep_int faithful host c _ _ (
                keep_if faithful host c (rsp.conn_handle == host.conn_handle_none) start
                  (keep_int faithful host c "conn_handle" (pos rsp.conn_handle) start))))))

  conn_find_addrs-Extends :
      {p q : Option Item} (rsp : Rsp.ConnFindRsp)
      → Extends faithful host c p q
      → Extends faithful host c p (conn_find_addrs W host c q rsp)
  unfolding conn_find_addrs
  conn_find_addrs-Extends rsp k =
      keep_typed_addr faithful host c "peer_ota_addr_type" "peer_ota_addr" rsp.peer_ota_addr (
        keep_typed_addr faithful host c "peer_id_addr_type" "peer_id_addr" rsp.peer_id_addr (
          keep_typed_addr faithful host c "own_ota_addr_type" "own_ota_addr" rsp.our_ota_addr
            (keep_typed_addr faithful host c "own_id_addr_type" "own_id_addr" rsp.our_id_addr k)))

  status_only : (p : Option Item) (v : ℤ) → Returns p (encoded (add_int W p "status" v))
  status_only p v = kept _ (keep_int faithful host c "status" v (refl_keep faithful host c p))

  add_services-Returns :
      {p q : Option Item} (filled : Option (Option Item))
      → Extends faithful host c p q
      → Returns p (Rsp.add_services W host c q filled)
  unfolding Rsp.add_services
  add_services-Returns none k = returned sys_enomem
  add_services-Returns (some filled) k = kept _ (keep_item faithful host c "services" filled k)

  encode_services-Returns :
      {p q : Option Item} (svcs : List Rsp.CommitSvc) (arr : Option Item)
      → Extends faithful host c p q
      → Returns p (Rsp.encode_services W host c q svcs arr)
  unfolding Rsp.encode_services
  encode_services-Returns svcs none k = returned sys_enomem
  encode_services-Returns svcs (some arr) k = add_services-Returns _ k

  err_rsp_enc-Returns :
      (p : Option Item) (body : RspBody) → Returns p (Rsp.err_rsp_enc W host c p body)
  unfolding Rsp.err_rsp_enc
  err_rsp_enc-Returns p (Rsp.err_rsp status msg) = kept _ (
      keep_string faithful host c "msg" msg
        (keep_int faithful host c "status" status (refl_keep faithful host c p)))
  err_rsp_enc-Returns p (Rsp.sync_rsp synced) = read_garbled
  err_rsp_enc-Returns p (Rsp.status_rsp status) = read_garbled
  err_rsp_enc-Returns p (Rsp.gen_rand_addr_rsp status addr) = read_garbled
  err_rsp_enc-Returns p (Rsp.conn_find_rsp rsp) = read_garbled
  err_rsp_enc-Returns p (Rsp.adv_fields_rsp status bytes) = read_garbled
  err_rsp_enc-Returns p (Rsp.commit_svcs_rsp status svcs) = read_garbled
  err_rsp_enc-Returns p (Rsp.find_chr_rsp status def_handle val_handle) = read_garbled

  status_alone-Returns :
      (p : Option Item) (status : ℤ) → Returns p (Rsp.status_alone W host c p status)
  unfolding Rsp.status_alone
  status_alone-Returns p status = elim (Bool-cases (eqz status (pos 0))) [
    | inl e ↦ rw (Rsp.status_alone, e) read_garbled
    | inr e ↦ rw (Rsp.status_alone, e) (status_only p status)
  ]

  gen_rand_addr_rsp_enc-Returns :
      (p : Option Item) (body : RspBody) → Returns p (Rsp.gen_rand_addr_rsp_enc W host c p body)
  unfolding Rsp.gen_rand_addr_rsp_enc
  gen_rand_addr_rsp_enc-Returns p (Rsp.err_rsp status msg) = status_alone-Returns p status
  gen_rand_addr_rsp_enc-Returns p (Rsp.sync_rsp synced) = status_alone-Returns p synced
  gen_rand_addr_rsp_enc-Returns p (Rsp.status_rsp status) = status_alone-Returns p status
  gen_rand_addr_rsp_enc-Returns p (Rsp.gen_rand_addr_rsp status addr) =
      let start = keep_int faithful host c "status" status (refl_keep faithful host c p) in
      held_if (eqz status (pos 0)) (keep_addr faithful host c "addr" addr start) start
  gen_rand_addr_rsp_enc-Returns p (Rsp.conn_find_rsp rsp) = status_alone-Returns p rsp.status
  gen_rand_addr_rsp_enc-Returns p (Rsp.adv_fields_rsp status bytes) = status_alone-Returns p status
  gen_rand_addr_rsp_enc-Returns p (Rsp.commit_svcs_rsp status svcs) = status_alone-Returns p status
  gen_rand_addr_rsp_enc-Returns p (Rsp.find_chr_rsp status def_handle val_handle) =
      status_alone-Returns p status

  conn_find_rsp_enc-Returns :
      (p : Option Item) (body : RspBody) → Returns p (Rsp.conn_find_rsp_enc W host c p body)
  unfolding Rsp.conn_find_rsp_enc
  conn_find_rsp_enc-Returns p (Rsp.err_rsp status msg) = read_garbled
  conn_find_rsp_enc-Returns p (Rsp.sync_rsp synced) = read_garbled
  conn_find_rsp_enc-Returns p (Rsp.status_rsp status) = read_garbled
  conn_find_rsp_enc-Returns p (Rsp.gen_rand_addr_rsp status addr) = read_garbled
  conn_find_rsp_enc-Returns p (Rsp.conn_find_rsp rsp) = kept _ (
      keep_int faithful host c "key_size" (pos rsp.key_size) (
        keep_bool faithful host c "bonded" (pos rsp.bonded) (
          keep_bool faithful host c "authenticated" (pos rsp.authenticated) (
            keep_bool faithful host c "encrypted" (pos rsp.encrypted)
              (conn_find_addrs-Extends rsp (conn_find_ints-Extends p rsp))))))
  conn_find_rsp_enc-Returns p (Rsp.adv_fields_rsp status bytes) = read_garbled
  conn_find_rsp_enc-Returns p (Rsp.commit_svcs_rsp status svcs) = read_garbled
  conn_find_rsp_enc-Returns p (Rsp.find_chr_rsp status def_handle val_handle) = read_garbled

  adv_fields_rsp_enc-Returns :
      (p : Option Item) (body : RspBody) → Returns p (Rsp.adv_fields_rsp_enc W host c p body)
  unfolding Rsp.adv_fields_rsp_enc
  adv_fields_rsp_enc-Returns p (Rsp.err_rsp status msg) = status_alone-Returns p status
  adv_fields_rsp_enc-Returns p (Rsp.sync_rsp synced) = status_alone-Returns p synced
  adv_fields_rsp_enc-Returns p (Rsp.status_rsp status) = status_alone-Returns p status
  adv_fields_rsp_enc-Returns p (Rsp.gen_rand_addr_rsp status addr) = status_alone-Returns p status
  adv_fields_rsp_enc-Returns p (Rsp.conn_find_rsp rsp) = status_alone-Returns p rsp.status
  adv_fields_rsp_enc-Returns p (Rsp.adv_fields_rsp status bytes) =
      let start = keep_int faithful host c "status" status (refl_keep faithful host c p) in
      held_if (eqz status (pos 0)) (keep_bytes faithful host c "data" bytes start) start
  adv_fields_rsp_enc-Returns p (Rsp.commit_svcs_rsp status svcs) = status_alone-Returns p status
  adv_fields_rsp_enc-Returns p (Rsp.find_chr_rsp status def_handle val_handle) =
      status_alone-Returns p status

  commit_svcs_rsp_enc-Returns :
      (p : Option Item) (body : RspBody) → Returns p (Rsp.commit_svcs_rsp_enc W host c p body)
  unfolding Rsp.commit_svcs_rsp_enc
  commit_svcs_rsp_enc-Returns p (Rsp.err_rsp status msg) = read_garbled
  commit_svcs_rsp_enc-Returns p (Rsp.sync_rsp synced) = read_garbled
  commit_svcs_rsp_enc-Returns p (Rsp.status_rsp status) = read_garbled
  commit_svcs_rsp_enc-Returns p (Rsp.gen_rand_addr_rsp status addr) = read_garbled
  commit_svcs_rsp_enc-Returns p (Rsp.conn_find_rsp rsp) = read_garbled
  commit_svcs_rsp_enc-Returns p (Rsp.adv_fields_rsp status bytes) = read_garbled
  commit_svcs_rsp_enc-Returns p (Rsp.commit_svcs_rsp status svcs) =
      encode_services-Returns svcs W.create_array
        (keep_int faithful host c "status" status (refl_keep faithful host c p))
  commit_svcs_rsp_enc-Returns p (Rsp.find_chr_rsp status def_handle val_handle) = read_garbled

  find_chr_rsp_enc-Returns :
      (p : Option Item) (body : RspBody) → Returns p (Rsp.find_chr_rsp_enc W host c p body)
  unfolding Rsp.find_chr_rsp_enc
  find_chr_rsp_enc-Returns p (Rsp.err_rsp status msg) = read_garbled
  find_chr_rsp_enc-Returns p (Rsp.sync_rsp synced) = read_garbled
  find_chr_rsp_enc-Returns p (Rsp.status_rsp status) = read_garbled
  find_chr_rsp_enc-Returns p (Rsp.gen_rand_addr_rsp status addr) = read_garbled
  find_chr_rsp_enc-Returns p (Rsp.conn_find_rsp rsp) = read_garbled
  find_chr_rsp_enc-Returns p (Rsp.adv_fields_rsp status bytes) = read_garbled
  find_chr_rsp_enc-Returns p (Rsp.commit_svcs_rsp status svcs) = read_garbled
  find_chr_rsp_enc-Returns p (Rsp.find_chr_rsp status def_handle val_handle) = kept _ (
      keep_int faithful host c "val_handle" (pos val_handle) (
        keep_int faithful host c "def_handle" (pos def_handle)
          (keep_int faithful host c "status" status (refl_keep faithful host c p))))

  pub rsp_cb-Returns :
      (cb : SubrspEnc) (p : Option Item) (body : RspBody) → Returns p (rsp_cb W host c cb p body)
  unfolding rsp_cb Rsp.sync_rsp_enc Rsp.reset_rsp_enc Rsp.connect_rsp_enc Rsp.terminate_rsp_enc
      Rsp.disc_all_svcs_rsp_enc Rsp.disc_svc_uuid_rsp_enc Rsp.disc_all_chrs_rsp_enc
      Rsp.disc_chr_uuid_rsp_enc Rsp.disc_all_dscs_rsp_enc Rsp.write_rsp_enc Rsp.exchange_mtu_rsp_enc
      Rsp.set_rand_addr_rsp_enc Rsp.conn_cancel_rsp_enc Rsp.scan_rsp_enc Rsp.scan_cancel_rsp_enc
      Rsp.set_preferred_mtu_rsp_enc Rsp.security_initiate_rsp_enc Rsp.adv_start_rsp_enc
      Rsp.adv_stop_rsp_enc Rsp.adv_set_data_rsp_enc Rsp.adv_rsp_set_data_rsp_enc
      Rsp.clear_svcs_rsp_enc Rsp.add_svcs_rsp_enc Rsp.access_status_rsp_enc Rsp.notify_rsp_enc
      Rsp.sm_inject_io_rsp_enc
  rsp_cb-Returns Dispatch.sync_rsp_enc p body =
      kept _ (keep_flag faithful host c "synced" (Rsp.status_of body) (refl_keep faithful host c p))
  rsp_cb-Returns Dispatch.reset_rsp_enc p body = kept p (refl_keep faithful host c p)
  rsp_cb-Returns Dispatch.connect_rsp_enc p body = status_only p (Rsp.status_of body)
  rsp_cb-Returns Dispatch.terminate_rsp_enc p body = status_only p (Rsp.status_of body)
  rsp_cb-Returns Dispatch.disc_all_svcs_rsp_enc p body = status_only p (Rsp.status_of body)
  rsp_cb-Returns Dispatch.disc_svc_uuid_rsp_enc p body = status_only p (Rsp.status_of body)
  rsp_cb-Returns Dispatch.disc_all_chrs_rsp_enc p body = status_only p (Rsp.status_of body)
  rsp_cb-Returns Dispatch.disc_chr_uuid_rsp_enc p body = status_only p (Rsp.status_of body)
  rsp_cb-Returns Dispatch.disc_all_dscs_rsp_enc p body = status_only p (Rsp.status_of body)
  rsp_cb-Returns Dispatch.write_rsp_enc p body = status_only p (Rsp.status_of body)
  rsp_cb-Returns Dispatch.exchange_mtu_rsp_enc p body = status_only p (Rsp.status_of body)
  rsp_cb-Returns Dispatch.set_rand_addr_rsp_enc p body = status_only p (Rsp.status_of body)
  rsp_cb-Returns Dispatch.conn_cancel_rsp_enc p body = status_only p (Rsp.status_of body)
  rsp_cb-Returns Dispatch.scan_rsp_enc p body = status_only p (Rsp.status_of body)
  rsp_cb-Returns Dispatch.scan_cancel_rsp_enc p body = status_only p (Rsp.status_of body)
  rsp_cb-Returns Dispatch.set_preferred_mtu_rsp_enc p body = status_only p (Rsp.status_of body)
  rsp_cb-Returns Dispatch.security_initiate_rsp_enc p body = status_only p (Rsp.status_of body)
  rsp_cb-Returns Dispatch.adv_start_rsp_enc p body = status_only p (Rsp.status_of body)
  rsp_cb-Returns Dispatch.adv_stop_rsp_enc p body = status_only p (Rsp.status_of body)
  rsp_cb-Returns Dispatch.adv_set_data_rsp_enc p body = status_only p (Rsp.status_of body)
  rsp_cb-Returns Dispatch.adv_rsp_set_data_rsp_enc p body = status_only p (Rsp.status_of body)
  rsp_cb-Returns Dispatch.clear_svcs_rsp_enc p body = status_only p (Rsp.status_of body)
  rsp_cb-Returns Dispatch.add_svcs_rsp_enc p body = status_only p (Rsp.status_of body)
  rsp_cb-Returns Dispatch.access_status_rsp_enc p body = status_only p (Rsp.status_of body)
  rsp_cb-Returns Dispatch.notify_rsp_enc p body = status_only p (Rsp.status_of body)
  rsp_cb-Returns Dispatch.sm_inject_io_rsp_enc p body = status_only p (Rsp.status_of body)
  rsp_cb-Returns Dispatch.err_rsp_enc p body = err_rsp_enc-Returns p body
  rsp_cb-Returns Dispatch.gen_rand_addr_rsp_enc p body = gen_rand_addr_rsp_enc-Returns p body
  rsp_cb-Returns Dispatch.conn_find_rsp_enc p body = conn_find_rsp_enc-Returns p body
  rsp_cb-Returns Dispatch.adv_fields_rsp_enc p body = adv_fields_rsp_enc-Returns p body
  rsp_cb-Returns Dispatch.commit_svcs_rsp_enc p body = commit_svcs_rsp_enc-Returns p body
  rsp_cb-Returns Dispatch.find_chr_rsp_enc p body = find_chr_rsp_enc-Returns p body
