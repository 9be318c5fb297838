-- ===== src/Daemon/Forms.antt =====
-- In which forms the handlers of apps/blehostd/src/bhd_proto.c write their errors.
use blehostd.Prelude.{
  ℕ, Bytes, [], ◌/◌, ◌≡◌, refl, inl, inr, Bool, true, false, some, String, arith, if◌then◌else◌,
}
use blehostd.Prelude.Int.{ℤ, pos}
use blehostd.Status.{Error, Result}
use blehostd.Cjson.{Cjson}
use blehostd.Proto.Maps.{HostConsts}
use blehostd.Req.Dispatch
use blehostd.Req.Dispatch.{ReqRun, SubrspEnc, rsp_dispatch_find, dispatch_find}
use blehostd.Req.Keys.{cb_type}
use blehostd.Req.Gap
use blehostd.Req.Gatt
use blehostd.Req.AdvFields
use blehostd.Req.Outcome.{
  Form, build, build_returned, fill, fill_returned, status_only, Outcome, ◌>>=◌, accepted, rejected,
  undefined, HostSizes,
}
use blehostd.Req.Types.{AdvFieldsReq}
use blehostd.Req.Run.{req_cb}
use blehostd.Req.Answers.{Outcome-cases}
use blehostd.JsonArr.{json_arr_uint16, json_arr_uint32, json_arr_uuid}
use blehostd.Json.{json_int_bounds, json_bool, json_string}
use blehostd.Daemon.Members.{is_status}

-- The handlers whose response has a status only, and the forms of an error of the others.
abbrev pub is_plain : ReqRun → Bool
is_plain Dispatch.sync_run = false
is_plain Dispatch.gen_rand_addr_run = false
is_plain Dispatch.conn_find_run = false
is_plain Dispatch.reset_run = false
is_plain Dispatch.adv_fields_run = false
is_plain Dispatch.commit_svcs_run = false
is_plain Dispatch.find_chr_run = false
is_plain _ = true

abbrev pub builds : Form → Bool
builds build = true
builds build_returned = true
builds _ = false

abbrev pub fills : Form → Bool
fills fill = true
fills fill_returned = true
fills form = builds form

abbrev pub writes_status : Form → Bool
writes_status status_only = true
writes_status form = builds form

abbrev pub may_fail : ReqRun → Form → Bool
may_fail Dispatch.gen_rand_addr_run form = fills form
may_fail Dispatch.find_chr_run form = writes_status form
may_fail cb form = if is_plain cb then true else builds form

pub plain-encoder :
    (cb : ReqRun)
    → is_plain cb ≡ true
    → (enc : SubrspEnc) × (rsp_dispatch_find (cb_type cb) ≡ some enc) × (is_status enc ≡ true)
unfolding rsp_dispatch_find dispatch_find cb_type
plain-encoder Dispatch.connect_run h = (Dispatch.connect_rsp_enc, refl, refl)
plain-encoder Dispatch.terminate_run h = (Dispatch.terminate_rsp_enc, refl, refl)
plain-encoder Dispatch.disc_all_svcs_run h = (Dispatch.disc_all_svcs_rsp_enc, refl, refl)
plain-encoder Dispatch.disc_svc_uuid_run h = (Dispatch.disc_svc_uuid_rsp_enc, refl, refl)
plain-encoder Dispatch.disc_all_chrs_run h = (Dispatch.disc_all_chrs_rsp_enc, refl, refl)
plain-encoder Dispatch.disc_chr_uuid_run h = (Dispatch.disc_chr_uuid_rsp_enc, refl, refl)
plain-encoder Dispatch.disc_all_dscs_run h = (Dispatch.disc_all_dscs_rsp_enc, refl, refl)
plain-encoder Dispatch.write_run h = (Dispatch.write_rsp_enc, refl, refl)
plain-encoder Dispatch.write_cmd_run h = (Dispatch.write_rsp_enc, refl, refl)
plain-encoder Dispatch.exchange_mtu_run h = (Dispatch.exchange_mtu_rsp_enc, refl, refl)
plain-encoder Dispatch.set_rand_addr_run h = (Dispatch.set_rand_addr_rsp_enc, refl, refl)
plain-encoder Dispatch.conn_cancel_run h = (Dispatch.conn_cancel_rsp_enc, refl, refl)
plain-encoder Dispatch.scan_run h = (Dispatch.scan_rsp_enc, refl, refl)
plain-encoder Dispatch.scan_cancel_run h = (Dispatch.scan_cancel_rsp_enc, refl, refl)
plain-encoder Dispatch.set_preferred_mtu_run h = (Dispatch.set_preferred_mtu_rsp_enc, refl, refl)
plain-encoder Dispatch.security_initiate_run h = (Dispatch.security_initiate_rsp_enc, refl, refl)
plain-encoder Dispatch.adv_start_run h = (Dispatch.adv_start_rsp_enc, refl, refl)
plain-encoder Dispatch.adv_stop_run h = (Dispatch.adv_stop_rsp_enc, refl, refl)
plain-encoder Dispatch.adv_set_data_run h = (Dispatch.adv_set_data_rsp_enc, refl, refl)
plain-encoder Dispatch.adv_rsp_set_data_run h = (Dispatch.adv_rsp_set_data_rsp_enc, refl, refl)
plain-encoder Dispatch.clear_svcs_run h = (Dispatch.clear_svcs_rsp_enc, refl, refl)
plain-encoder Dispatch.add_svcs_run h = (Dispatch.add_svcs_rsp_enc, refl, refl)
plain-encoder Dispatch.access_status_run h = (Dispatch.access_status_rsp_enc, refl, refl)
plain-encoder Dispatch.notify_run h = (Dispatch.notify_rsp_enc, refl, refl)
plain-encoder Dispatch.sm_inject_io_run h = (Dispatch.sm_inject_io_rsp_enc, refl, refl)
plain-encoder Dispatch.sync_run h = absurd (ground arith)
plain-encoder Dispatch.gen_rand_addr_run h = absurd (ground arith)
plain-encoder Dispatch.conn_find_run h = absurd (ground arith)
plain-encoder Dispatch.reset_run h = absurd (ground arith)
plain-encoder Dispatch.adv_fields_run h = absurd (ground arith)
plain-encoder Dispatch.commit_svcs_run h = absurd (ground arith)
plain-encoder Dispatch.find_chr_run h = absurd (ground arith)

-- An error is written with `bhd_err_build`.
abbrev Builds : {A : Type 0} → Outcome A → Type 0
Builds (accepted a) = Unit {0}
Builds (rejected form e msg) = builds form ≡ true
Builds undefined = Unit {0}

-- Seven steps, none of which needs what an earlier one gives.
steps-Builds :
    {A1 A2 A3 A4 A5 A6 A7 B : Type 0} (m1 : Outcome A1) (m2 : Outcome A2) (m3 : Outcome A3)
    (m4 : Outcome A4) (m5 : Outcome A5) (m6 : Outcome A6) (m7 : Outcome A7)
    (store : A1 → A2 → A3 → A4 → A5 → A6 → A7 → B)
    → Builds m1
    → Builds m2
    → Builds m3
    → Builds m4
    → Builds m5
    → Builds m6
    → Builds m7
    → Builds do
      a1 ← m1
      a2 ← m2
      a3 ← m3
      a4 ← m4
      a5 ← m5
      a6 ← m6
      a7 ← m7
      accepted (store a1 a2 a3 a4 a5 a6 a7)
steps-Builds m1 m2 m3 m4 m5 m6 m7 store h1 h2 h3 h4 h5 h6 h7 = ground arith

or_default-Builds :
    {A : Type 0} (a : A) (r : Result A) (msg : String) → Builds (AdvFields.or_default a r msg)
or_default-Builds a r msg = ground arith

adv_text-Builds :
    (size : ℕ) (r : Result Bytes) (msg : String) → Builds (AdvFields.adv_text size r msg)
unfolding AdvFields.adv_text
adv_text-Builds size r msg = ground arith

is_complete-Builds :
    (form : Form) (r : Result Bool) (msg : String)
    → builds form ≡ true
    → Builds (AdvFields.is_complete form r msg)
unfolding AdvFields.is_complete
is_complete-Builds form r msg h = ground arith

adv_flags-Builds : (r : Result ℤ) → Builds (AdvFields.adv_flags r)
unfolding AdvFields.adv_flags
adv_flags-Builds r = ground arith

module _ (J : Cjson) (sizes : HostSizes) (c : HostConsts) where
  open J use {Item}

  adv_bytes-Builds :
      (root : Item) (name msg : String) → Builds (AdvFields.adv_bytes J sizes root name msg)
  unfolding AdvFields.adv_bytes
  adv_bytes-Builds root name msg = ground arith

  adv_slave_itvl-Builds :
      (root : Item) (r : Result ℤ) → Builds (AdvFields.adv_slave_itvl J sizes root r)
  unfolding AdvFields.adv_slave_itvl
  adv_slave_itvl-Builds root r = ground arith

  adv_uuid_fields-Builds :
      (root : Item) (req : AdvFieldsReq) → Builds (AdvFields.adv_uuid_fields J sizes root req)
  unfolding AdvFields.adv_uuid_fields
  adv_uuid_fields-Builds root req =
      let field_sz = sizes.adv_max_field_sz in
      let flags = json_int_bounds J root "flags" (pos 0) (pos 0xff) in
      let uuids16 = json_arr_uint16 J root "uuids16" (field_sz / 2) 0 0xffff in
      let complete16 = json_bool J root "uuids16_is_complete" in
      let uuids32 = json_arr_uint32 J root "uuids32" (field_sz / 4) 0 0xffff in
      let complete32 = json_bool J root "uuids32_is_complete" in
      let uuids128 = json_arr_uuid J sizes.uuid_str_len root "uuids128" (field_sz / 16) in
      let complete128 = json_bool J root "uuids128_is_complete" in
      steps-Builds (AdvFields.adv_flags flags) (AdvFields.or_default [] uuids16 "invalid uuids16")
        (AdvFields.is_complete build complete16 "invalid uuids16_is_complete value")
        (AdvFields.or_default [] uuids32 "invalid uuids32")
        (AdvFields.is_complete build complete32 "invalid uuids32_is_complete value")
        (AdvFields.or_default [] uuids128 "invalid uuids128")
        (AdvFields.is_complete build complete128 "invalid uuids128_is_complete value") _
        (adv_flags-Builds flags) (or_default-Builds [] uuids16 _)
        (is_complete-Builds build complete16 _ refl) (or_default-Builds [] uuids32 _)
        (is_complete-Builds build complete32 _ refl) (or_default-Builds [] uuids128 _)
        (is_complete-Builds build complete128 _ refl)

  adv_name_fields-Builds :
      (root : Item) (req : AdvFieldsReq) → Builds (AdvFields.adv_name_fields J sizes root req)
  unfolding AdvFields.adv_name_fields
  adv_name_fields-Builds root req = ground (
    arith,
    adv_text-Builds sizes.adv_max_field_sz (json_string J root "name") "invalid name",
    is_complete-Builds build_returned (json_bool J root "name_is_complete")
        "invalid name_is_complete value" refl,
    adv_slave_itvl-Builds root (json_int_bounds J root "slave_itvl_min" (pos 0) (pos 0xffff)),
  )

  adv_data_fields-Builds :
      (root : Item) (req : AdvFieldsReq) → Builds (AdvFields.adv_data_fields J sizes root req)
  unfolding AdvFields.adv_data_fields
  adv_data_fields-Builds root req = ground (
    arith,
    adv_bytes-Builds root "svc_data_uuid16" "invalid svc_data_uuid16",
    adv_bytes-Builds root "svc_data_uuid32" "invalid svc_data_uuid32",
    adv_bytes-Builds root "svc_data_uuid128" "invalid svc_data_uuid128",
    adv_text-Builds sizes.adv_max_field_sz (json_string J root "uri") "invalid uri",
    adv_bytes-Builds root "mfg_data" "invalid mfg_data",
  )

  adv_fields_req_run-Builds : (root : Item) → Builds (AdvFields.adv_fields_req_run J sizes root)
  unfolding AdvFields.adv_fields_req_run
  adv_fields_req_run-Builds root =
      elim (Outcome-cases (AdvFields.adv_uuid_fields J sizes root AdvFields.no_fields)) [
        | inr failed ↦ ground (arith, adv_uuid_fields-Builds root AdvFields.no_fields)
        | inl (req1, e1) ↦ elim (Outcome-cases (AdvFields.adv_name_fields J sizes root req1)) [
          | inr failed ↦ ground (arith, e1, adv_name_fields-Builds root req1)
          | inl (req2, e2) ↦ ground (arith, e1, e2, adv_data_fields-Builds root req2)
        ]
      ]

  -- A handler whose response has more than a status writes errors in these forms only.
  pub req_cb-may_fail :
      (cb : ReqRun) (root : Item) (form : Form) (e : Error) (msg : String)
      → req_cb J sizes c cb root ≡ rejected form e msg
      → may_fail cb form ≡ true
  unfolding req_cb
  req_cb-may_fail Dispatch.gen_rand_addr_run root form e msg h =
      unfold Gap.gen_rand_addr_req_run in ground arith
  req_cb-may_fail Dispatch.find_chr_run root form e msg h =
      unfold Gatt.find_chr_req_run in ground arith
  req_cb-may_fail Dispatch.conn_find_run root form e msg h =
      unfold Gap.conn_find_req_run in ground arith
  req_cb-may_fail Dispatch.adv_fields_run root form e msg h =
      ground (arith, adv_fields_req_run-Builds root)
  req_cb-may_fail Dispatch.sync_run root form e msg h = absurd (ground arith)
  req_cb-may_fail Dispatch.reset_run root form e msg h = absurd (ground arith)
  req_cb-may_fail Dispatch.commit_svcs_run root form e msg h = absurd (ground arith)
  req_cb-may_fail _ root form e msg h = refl
