-- ===== src/Daemon/Encoded.antt =====
-- The response of every call that a handler makes is one that `bhd_rsp_enc` can encode.
use blehostd.Prelude.{
  ℕ, ◌≡◌, ◌≢◌, refl, sym, inl, inr, Bool, true, false, not, ltb, Option, none, some, List, [],
  Bytes, arith, if◌then◌else◌, Bool-cases, Option-cases,
}
use blehostd.Prelude.Int.{ℤ, pos, eqz}
use blehostd.Status.{Rc}
use blehostd.Cjson.{Cjson}
use blehostd.Writer.{Writer}
use blehostd.Proto.Maps.{HostConsts}
use blehostd.Req.Dispatch
use blehostd.Req.Dispatch.{SubrspEnc, rsp_dispatch_find, dispatch_find}
use blehostd.Req.Keys.{call_type}
use blehostd.Req.Run.{MsgHdr}
use blehostd.Req.Types
use blehostd.Req.Types.{Call}
use blehostd.Enc.{HostText}
use blehostd.Enc.Rsp
use blehostd.Enc.Rsp.{RspBody, garbled, CommitSvc, commit_svcs_rsp, adv_fields_rsp, rsp_cb}
use blehostd.Enc.Send.{Rsp, rsp_enc}
use blehostd.Gap.Calls
use blehostd.Gap.Calls.{CallHost}
use blehostd.Gap.Fields
use blehostd.Gap.Fields.{FieldsHost, Copy-cases}
use blehostd.Gatts.{Gatts}
use blehostd.Gatts.Commit
use blehostd.Gatts.Commit.{GattsHost, Filled, filled, no_memory, undefined, ◌>>=◌}
use blehostd.Daemon.{
  Hosts, State, executed, give_some, give_added, give_filled, gatts_access_status, execute,
}
use blehostd.Daemon.Members.{is_status, give-reads, gives-status, reply-reads}

-- The members that the functions of the registry and of GAP leave, where they leave one.
data FillsCommitted : Filled RspBody → Type 0 where
  committed :
      (status : ℤ) (svcs : List CommitSvc) → FillsCommitted (filled (commit_svcs_rsp status svcs))
  no_block : FillsCommitted no_memory
  undefined_read : FillsCommitted undefined

data MayAdvData : Option RspBody → Type 0 where
  adv : (status : ℤ) (bytes : Bytes) → MayAdvData (some (adv_fields_rsp status bytes))
  undefined_copy : MayAdvData none

abbrev IsFound : RspBody → Type 0
IsFound (Rsp.conn_find_rsp rsp) = Unit {0}
IsFound _ = ⊥

FillsCommitted-bind :
    (m : Filled (List CommitSvc))
    → FillsCommitted (m >>= λ svcs. filled (commit_svcs_rsp (pos 0) svcs))
FillsCommitted-bind (filled svcs) = committed (pos 0) svcs
FillsCommitted-bind no_memory = no_block
FillsCommitted-bind undefined = undefined_read

FillsCommitted-if :
    (b : Bool) {x y : Filled RspBody}
    → FillsCommitted x
    → FillsCommitted y
    → FillsCommitted (if b then x else y)
FillsCommitted-if true h k = h
FillsCommitted-if false h k = k

start_svcs-FillsCommitted :
    (host : GattsHost) (g : Gatts) → FillsCommitted (Commit.start_svcs host g)
unfolding Commit.start_svcs
start_svcs-FillsCommitted host g =
    let rc = (host.gatts_start g).0 in
    FillsCommitted-if (not (eqz rc (pos 0))) (committed rc []) (
      FillsCommitted-if (not (host.calloc 0 (Commit.num_elements host g))) (committed rc [])
        (FillsCommitted-bind (Commit.describe_svcs host g (host.gatts_start g).1)))

commit_svcs-FillsCommitted :
    (host : GattsHost) (g : Gatts) → FillsCommitted (Commit.commit_svcs host g)
unfolding Commit.commit_svcs
commit_svcs-FillsCommitted host g =
    let started = start_svcs-FillsCommitted host g in
    let counted = host.gatts_count_cfg g in
    let added = host.gatts_add_svcs g in
    FillsCommitted-if (ltb 0 g.num_svcs)
      (FillsCommitted-if (not (eqz counted (pos 0))) (committed counted [])
        (FillsCommitted-if (not (eqz added (pos 0))) (committed added []) started))
      started

gap_conn_find-IsFound :
    (host : CallHost) (conn_handle : ℕ) → IsFound (Calls.gap_conn_find host conn_handle)
unfolding Calls.gap_conn_find
gap_conn_find-IsFound host conn_handle =
    elim (Bool-cases (eqz (host.gap_conn_find conn_handle).0 (pos 0))) [
      | inl e ↦ rw e tt
      | inr e ↦ rw e tt
    ]

gap_adv_fields-MayAdvData :
    (host : FieldsHost) (req : Types.AdvFieldsReq) → MayAdvData (Fields.gap_adv_fields host req)
unfolding Fields.gap_adv_fields
gap_adv_fields-MayAdvData host req =
    elim (Copy-cases (Fields.adv_fields_copy host.put_be16 host.adv_max_field_sz req)) [
      | inl (f, e) ↦ rw (Fields.gap_adv_fields, e) (adv _ _)
      | inr (inl e) ↦ rw (Fields.gap_adv_fields, e) (adv _ _)
      | inr (inr e) ↦ rw (Fields.gap_adv_fields, e) undefined_copy
    ]

module _ {J : Cjson} (W : Writer J) (text : HostText) (c : HostConsts) (hosts : Hosts) where
  open J use {Item}

  conn_find_rsp_enc-reads :
      (p : Option Item) (body : RspBody)
      → IsFound body
      → rsp_cb W text c Dispatch.conn_find_rsp_enc p body ≢ garbled
  unfolding rsp_cb Rsp.conn_find_rsp_enc
  conn_find_rsp_enc-reads p (Rsp.conn_find_rsp rsp) h = λ g. cc
  conn_find_rsp_enc-reads p _ h = absurd h

  filled-reads :
      (hdr : MsgHdr) (m : Filled RspBody) (s s' : State) (rsp : Rsp)
      → rsp_dispatch_find hdr.type ≡ some Dispatch.commit_svcs_rsp_enc
      → FillsCommitted m
      → give_filled hdr m s ≡ executed rsp s'
      → rsp_enc W text c rsp ≢ garbled
  unfolding give_filled rsp_cb Rsp.commit_svcs_rsp_enc Rsp.encode_services Rsp.add_services
  filled-reads hdr _ s s' rsp found (committed status svcs) e =
      give-reads W text c Dispatch.commit_svcs_rsp_enc hdr (commit_svcs_rsp status svcs) s s' rsp
        found (λ p. ground arith) e
  filled-reads hdr _ s s' rsp found no_block e = absurd (ground arith)
  filled-reads hdr _ s s' rsp found undefined_read e = absurd (ground arith)

  adv_fields-reads :
      (hdr : MsgHdr) (m : Option RspBody) (s s' : State) (rsp : Rsp)
      → rsp_dispatch_find hdr.type ≡ some Dispatch.adv_fields_rsp_enc
      → MayAdvData m
      → give_some hdr m s ≡ executed rsp s'
      → rsp_enc W text c rsp ≢ garbled
  unfolding rsp_cb Rsp.adv_fields_rsp_enc
  adv_fields-reads hdr _ s s' rsp found (adv status bytes) e =
      give-reads W text c Dispatch.adv_fields_rsp_enc hdr (adv_fields_rsp status bytes) s s' rsp
        found (λ p. ground arith) e
  adv_fields-reads hdr _ s s' rsp found undefined_copy e = absurd (ground arith)

  maybe-reads :
      (cb : SubrspEnc) (hdr : MsgHdr) (m : Option RspBody) (s s' : State) (rsp : Rsp)
      → rsp_dispatch_find hdr.type ≡ some cb
      → is_status cb ≡ true
      → give_some hdr m s ≡ executed rsp s'
      → rsp_enc W text c rsp ≢ garbled
  maybe-reads cb hdr none s s' rsp found h e = absurd (ground arith)
  maybe-reads cb hdr (some body) s s' rsp found h e =
      gives-status W text c cb hdr body s s' rsp found h e

  added-reads :
      (hdr : MsgHdr) (m : Option (Option Rc × Gatts)) (s s' : State) (rsp : Rsp)
      → rsp_dispatch_find hdr.type ≡ some Dispatch.add_svcs_rsp_enc
      → give_added hosts.code hdr m s ≡ executed rsp s'
      → rsp_enc W text c rsp ≢ garbled
  unfolding give_added
  added-reads hdr none s s' rsp found e = absurd (ground arith)
  added-reads hdr (some (none, g)) s s' rsp found e =
      gives-status W text c Dispatch.add_svcs_rsp_enc hdr _ _ s' rsp found refl e
  added-reads hdr (some (some rc, g)) s s' rsp found e =
      gives-status W text c Dispatch.add_svcs_rsp_enc hdr _ _ s' rsp found refl e

  access-reads :
      (hdr : MsgHdr) (req : Types.AccessStatusReq) (s s' : State) (rsp : Rsp)
      → rsp_dispatch_find hdr.type ≡ some Dispatch.access_status_rsp_enc
      → gatts_access_status hosts hdr req s ≡ executed rsp s'
      → rsp_enc W text c rsp ≢ garbled
  unfolding gatts_access_status
  access-reads hdr req s s' rsp found e = elim (Option-cases req.bytes) [
    | inl missing ↦ absurd (ground arith)
    | inr (bytes, given) ↦
        gives-status W text c Dispatch.access_status_rsp_enc hdr _ _ s' rsp found refl
          (rw given at e)
  ]

  pub execute-reads :
      (hdr : MsgHdr) (call : Call) (s s' : State) (rsp : Rsp)
      → call_type call ≡ hdr.type
      → execute hosts hdr call s ≡ executed rsp s'
      → rsp_enc W text c rsp ≢ garbled
  unfolding execute call_type rsp_dispatch_find dispatch_find rsp_cb Rsp.sync_rsp_enc
      Rsp.reset_rsp_enc Rsp.gen_rand_addr_rsp_enc Rsp.find_chr_rsp_enc Calls.id_gen_rand_addr
      Commit.find_chr
  execute-reads hdr Types.hs_synced s s' rsp t e =
      give-reads W text c Dispatch.sync_rsp_enc hdr _ _ s' rsp (rw (sym t) refl) (λ p g. cc) e
  execute-reads hdr (Types.gap_connect req) s s' rsp t e =
      gives-status W text c Dispatch.connect_rsp_enc hdr _ _ s' rsp (rw (sym t) refl) refl e
  execute-reads hdr (Types.gap_terminate req) s s' rsp t e =
      gives-status W text c Dispatch.terminate_rsp_enc hdr _ _ s' rsp (rw (sym t) refl) refl e
  execute-reads hdr (Types.gattc_disc_all_svcs req) s s' rsp t e =
      reply-reads W text c Dispatch.disc_all_svcs_rsp_enc hosts.code hdr _ s s' rsp
        (rw (sym t) refl) refl e
  execute-reads hdr (Types.gattc_disc_svc_uuid req) s s' rsp t e =
      reply-reads W text c Dispatch.disc_svc_uuid_rsp_enc hosts.code hdr _ s s' rsp
        (rw (sym t) refl) refl e
  execute-reads hdr (Types.gattc_disc_all_chrs req) s s' rsp t e =
      gives-status W text c Dispatch.disc_all_chrs_rsp_enc hdr _ _ s' rsp (rw (sym t) refl) refl e
  execute-reads hdr (Types.gattc_disc_chr_uuid req) s s' rsp t e =
      gives-status W text c Dispatch.disc_chr_uuid_rsp_enc hdr _ _ s' rsp (rw (sym t) refl) refl e
  execute-reads hdr (Types.gattc_disc_all_dscs req) s s' rsp t e =
      gives-status W text c Dispatch.disc_all_dscs_rsp_enc hdr _ _ s' rsp (rw (sym t) refl) refl e
  execute-reads hdr (Types.gattc_write req) s s' rsp t e =
      reply-reads W text c Dispatch.write_rsp_enc hosts.code hdr _ s s' rsp (rw (sym t) refl) refl e
  execute-reads hdr (Types.gattc_write_no_rsp req) s s' rsp t e =
      reply-reads W text c Dispatch.write_rsp_enc hosts.code hdr _ s s' rsp (rw (sym t) refl) refl e
  execute-reads hdr (Types.gattc_exchange_mtu req) s s' rsp t e =
      reply-reads W text c Dispatch.exchange_mtu_rsp_enc hosts.code hdr _ s s' rsp (rw (sym t) refl)
        refl e
  execute-reads hdr (Types.id_gen_rand_addr req) s s' rsp t e =
      give-reads W text c Dispatch.gen_rand_addr_rsp_enc hdr _ _ s' rsp (rw (sym t) refl)
        (λ p g. ground arith) e
  execute-reads hdr (Types.id_set_rand_addr req) s s' rsp t e =
      gives-status W text c Dispatch.set_rand_addr_rsp_enc hdr _ _ s' rsp (rw (sym t) refl) refl e
  execute-reads hdr Types.gap_conn_cancel s s' rsp t e =
      gives-status W text c Dispatch.conn_cancel_rsp_enc hdr _ _ s' rsp (rw (sym t) refl) refl e
  execute-reads hdr (Types.gap_scan req) s s' rsp t e =
      gives-status W text c Dispatch.scan_rsp_enc hdr _ _ s' rsp (rw (sym t) refl) refl e
  execute-reads hdr Types.gap_scan_cancel s s' rsp t e =
      gives-status W text c Dispatch.scan_cancel_rsp_enc hdr _ _ s' rsp (rw (sym t) refl) refl e
  execute-reads hdr (Types.gattc_set_preferred_mtu req) s s' rsp t e =
      reply-reads W text c Dispatch.set_preferred_mtu_rsp_enc hosts.code hdr _ s s' rsp
        (rw (sym t) refl) refl e
  execute-reads hdr (Types.gap_security_initiate req) s s' rsp t e =
      gives-status W text c Dispatch.security_initiate_rsp_enc hdr _ _ s' rsp (rw (sym t) refl) refl
        e
  execute-reads hdr (Types.gap_conn_find req) s s' rsp t e =
      give-reads W text c Dispatch.conn_find_rsp_enc hdr _ _ s' rsp (rw (sym t) refl)
        (λ p. conn_find_rsp_enc-reads p _ (gap_conn_find-IsFound hosts.calls req)) e
  execute-reads hdr Types.hs_sched_reset s s' rsp t e =
      give-reads W text c Dispatch.reset_rsp_enc hdr _ _ s' rsp (rw (sym t) refl) (λ p g. cc) e
  execute-reads hdr (Types.gap_adv_start req) s s' rsp t e =
      gives-status W text c Dispatch.adv_start_rsp_enc hdr _ _ s' rsp (rw (sym t) refl) refl e
  execute-reads hdr Types.gap_adv_stop s s' rsp t e =
      gives-status W text c Dispatch.adv_stop_rsp_enc hdr _ _ s' rsp (rw (sym t) refl) refl e
  execute-reads hdr (Types.gap_adv_set_data req) s s' rsp t e =
      gives-status W text c Dispatch.adv_set_data_rsp_enc hdr _ _ s' rsp (rw (sym t) refl) refl e
  execute-reads hdr (Types.gap_adv_rsp_set_data req) s s' rsp t e =
      gives-status W text c Dispatch.adv_rsp_set_data_rsp_enc hdr _ _ s' rsp (rw (sym t) refl) refl
        e
  execute-reads hdr (Types.gap_adv_fields req) s s' rsp t e =
      adv_fields-reads hdr _ s s' rsp (rw (sym t) refl)
        (gap_adv_fields-MayAdvData hosts.adv_fields req) e
  execute-reads hdr Types.gatts_clear_svcs s s' rsp t e =
      gives-status W text c Dispatch.clear_svcs_rsp_enc hdr _ _ s' rsp (rw (sym t) refl) refl e
  execute-reads hdr (Types.gatts_add_svcs req) s s' rsp t e =
      added-reads hdr _ s s' rsp (rw (sym t) refl) e
  execute-reads hdr Types.gatts_commit_svcs s s' rsp t e =
      filled-reads hdr _ s s' rsp (rw (sym t) refl)
        (commit_svcs-FillsCommitted hosts.gatts s.tables) e
  execute-reads hdr (Types.gatts_access_status req) s s' rsp t e =
      access-reads hdr req s s' rsp (rw (sym t) refl) e
  execute-reads hdr (Types.gattc_notify req) s s' rsp t e =
      reply-reads W text c Dispatch.notify_rsp_enc hosts.code hdr _ s s' rsp (rw (sym t) refl) refl
        e
  execute-reads hdr (Types.gatts_find_chr req) s s' rsp t e =
      give-reads W text c Dispatch.find_chr_rsp_enc hdr _ _ s' rsp (rw (sym t) refl) (λ p g. cc) e
  execute-reads hdr (Types.sm_inject_io req) s s' rsp t e =
      maybe-reads Dispatch.sm_inject_io_rsp_enc hdr _ s s' rsp (rw (sym t) refl) refl e
