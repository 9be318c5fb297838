-- ===== src/Daemon/Tables.antt =====
-- What a request does to the header of its response, and to the tables of apps/blehostd/src/bhd_gatts.c.
use blehostd.Prelude.{
  ◌≡◌, ◌≢◌, ◌⊎◌, refl, sym, inl, inr, length, Bool, true, false, Option, none, some, List, [], ◌∷◌,
  arith, Option-cases,
}
use blehostd.Prelude.Int.{ℤ}
use blehostd.Status.{Error}
use blehostd.Proto.Numbers.{op_rsp, type_err}
use blehostd.Req.Types
use blehostd.Req.Types.{Call}
use blehostd.Req.Run.{MsgHdr, Answer, error_rsp, call_rsp, undefined_rsp}
use blehostd.Svc.{Svc}
use blehostd.Enc.Rsp.{RspBody}
use blehostd.Enc.Send.{Rsp}
use blehostd.Gattc.{Reply, status_reply, err_reply}
use blehostd.Gatts.{add_svcs, clear_svcs}
use blehostd.Gatts.Bounds.{IsWithin, add_svcs-IsWithin}
use blehostd.Gatts.Commit.{Filled, filled, no_memory, undefined}
use blehostd.Daemon
use blehostd.Daemon.{
  Hosts, State, Executed, executed, lost, err_build, give_some, give_reply, give_added, give_filled,
  give_heap, gatts_access_status, execute, respond, respond_all,
}
use blehostd.Req.Answers.{answer_hdr}
use blehostd.Daemon.Errors.{respond-error}

-- The header is left, or made that of an error, and the tables are those before the call.
record Left (hdr : MsgHdr) (s : State) (rsp : Rsp) (s' : State) : Type 0 where
  header : (rsp.hdr ≡ hdr) ⊎ (rsp.hdr ≡ record hdr { op = op_rsp; type = type_err })
  tables : s'.tables ≡ s.tables

give_some-Left :
    (hdr : MsgHdr) (body : Option RspBody) (s s' : State) (rsp : Rsp)
    → give_some hdr body s ≡ executed rsp s'
    → Left hdr s rsp s'
give_some-Left hdr none s s' rsp e = absurd (ground arith)
give_some-Left hdr (some body) s s' rsp e = record {
  header = inl (ground arith);
  tables = ground arith;
}

give_reply-Left :
    (code : Error → ℤ) (hdr : MsgHdr) (reply : Reply) (s s' : State) (rsp : Rsp)
    → give_reply code hdr reply s ≡ executed rsp s'
    → Left hdr s rsp s'
unfolding give_reply err_build
give_reply-Left code hdr (status_reply status) s s' rsp e = record {
  header = inl (ground arith);
  tables = ground arith;
}
give_reply-Left code hdr (err_reply error msg) s s' rsp e = record {
  header = inr (ground arith);
  tables = ground arith;
}

give_filled-Left :
    (hdr : MsgHdr) (m : Filled RspBody) (s s' : State) (rsp : Rsp)
    → give_filled hdr m s ≡ executed rsp s'
    → Left hdr s rsp s'
unfolding give_filled
give_filled-Left hdr (filled body) s s' rsp e = record {
  header = inl (ground arith);
  tables = ground arith;
}
give_filled-Left hdr no_memory s s' rsp e = absurd (ground arith)
give_filled-Left hdr undefined s s' rsp e = absurd (ground arith)

give-Left :
    (hdr : MsgHdr) (body : RspBody) (s s0 s' : State) (rsp : Rsp)
    → s0.tables ≡ s.tables
    → Daemon.give hdr body s0 ≡ executed rsp s'
    → Left hdr s rsp s'
give-Left hdr body s s0 s' rsp same e = record {
  header = inl (ground arith);
  tables = ground arith;
}

access-Left :
    (hosts : Hosts) (hdr : MsgHdr) (req : Types.AccessStatusReq) (s s' : State) (rsp : Rsp)
    → gatts_access_status hosts hdr req s ≡ executed rsp s'
    → Left hdr s rsp s'
unfolding gatts_access_status
access-Left hosts hdr req s s' rsp e = elim (Option-cases req.bytes) [
  | inl missing ↦ absurd (ground arith)
  | inr (bytes, given) ↦ record { header = inl (ground arith); tables = ground arith }
]

-- Every call but those that write the tables.
abbrev writes_tables : Call → Bool
writes_tables Types.gatts_clear_svcs = true
writes_tables (Types.gatts_add_svcs svcs) = true
writes_tables _ = false

execute-Left :
    (hosts : Hosts) (hdr : MsgHdr) (call : Call) (s s' : State) (rsp : Rsp)
    → writes_tables call ≡ false
    → execute hosts hdr call s ≡ executed rsp s'
    → Left hdr s rsp s'
unfolding execute give_heap
execute-Left hosts hdr Types.hs_synced s s' rsp w e = give-Left hdr _ s _ s' rsp refl e
execute-Left hosts hdr (Types.gap_connect req) s s' rsp w e = give-Left hdr _ s _ s' rsp refl e
execute-Left hosts hdr (Types.gap_terminate req) s s' rsp w e = give-Left hdr _ s _ s' rsp refl e
execute-Left hosts hdr (Types.gattc_disc_all_svcs req) s s' rsp w e =
    give_reply-Left hosts.code hdr _ s s' rsp e
execute-Left hosts hdr (Types.gattc_disc_svc_uuid req) s s' rsp w e =
    give_reply-Left hosts.code hdr _ s s' rsp e
execute-Left hosts hdr (Types.gattc_disc_all_chrs req) s s' rsp w e =
    give-Left hdr _ s _ s' rsp refl e
execute-Left hosts hdr (Types.gattc_disc_chr_uuid req) s s' rsp w e =
    give-Left hdr _ s _ s' rsp refl e
execute-Left hosts hdr (Types.gattc_disc_all_dscs req) s s' rsp w e =
    give-Left hdr _ s _ s' rsp refl e
execute-Left hosts hdr (Types.gattc_write req) s s' rsp w e =
    give_reply-Left hosts.code hdr _ s s' rsp e
execute-Left hosts hdr (Types.gattc_write_no_rsp req) s s' rsp w e =
    give_reply-Left hosts.code hdr _ s s' rsp e
execute-Left hosts hdr (Types.gattc_exchange_mtu req) s s' rsp w e =
    give_reply-Left hosts.code hdr _ s s' rsp e
execute-Left hosts hdr (Types.id_gen_rand_addr req) s s' rsp w e = give-Left hdr _ s _ s' rsp refl e
execute-Left hosts hdr (Types.id_set_rand_addr req) s s' rsp w e = give-Left hdr _ s _ s' rsp refl e
execute-Left hosts hdr Types.gap_conn_cancel s s' rsp w e = give-Left hdr _ s _ s' rsp refl e
execute-Left hosts hdr (Types.gap_scan req) s s' rsp w e = give-Left hdr _ s _ s' rsp refl e
execute-Left hosts hdr Types.gap_scan_cancel s s' rsp w e = give-Left hdr _ s _ s' rsp refl e
execute-Left hosts hdr (Types.gattc_set_preferred_mtu req) s s' rsp w e =
    give_reply-Left hosts.code hdr _ s s' rsp e
execute-Left hosts hdr (Types.gap_security_initiate req) s s' rsp w e =
    give-Left hdr _ s _ s' rsp refl e
execute-Left hosts hdr (Types.gap_conn_find req) s s' rsp w e = give-Left hdr _ s _ s' rsp refl e
execute-Left hosts hdr Types.hs_sched_reset s s' rsp w e = give-Left hdr _ s _ s' rsp refl e
execute-Left hosts hdr (Types.gap_adv_start req) s s' rsp w e = give-Left hdr _ s _ s' rsp refl e
execute-Left hosts hdr Types.gap_adv_stop s s' rsp w e = give-Left hdr _ s _ s' rsp refl e
execute-Left hosts hdr (Types.gap_adv_set_data req) s s' rsp w e = give-Left hdr _ s _ s' rsp refl e
execute-Left hosts hdr (Types.gap_adv_rsp_set_data req) s s' rsp w e =
    give-Left hdr _ s _ s' rsp refl e
execute-Left hosts hdr (Types.gap_adv_fields req) s s' rsp w e = give_some-Left hdr _ s s' rsp e
execute-Left hosts hdr Types.gatts_clear_svcs s s' rsp w e = absurd (ground arith)
execute-Left hosts hdr (Types.gatts_add_svcs req) s s' rsp w e = absurd (ground arith)
execute-Left hosts hdr Types.gatts_commit_svcs s s' rsp w e = give_filled-Left hdr _ s s' rsp e
execute-Left hosts hdr (Types.gatts_access_status req) s s' rsp w e =
    access-Left hosts hdr req s s' rsp e
execute-Left hosts hdr (Types.gattc_notify req) s s' rsp w e =
    give_reply-Left hosts.code hdr _ s s' rsp e
execute-Left hosts hdr (Types.gatts_find_chr req) s s' rsp w e = give-Left hdr _ s _ s' rsp refl e
execute-Left hosts hdr (Types.sm_inject_io req) s s' rsp w e = give_some-Left hdr _ s s' rsp e

-- `bhd_gatts_add_svcs` leaves the tables within their sizes, and no `assert` fails.
added-IsWithin :
    (code : Error → ℤ) (hdr : MsgHdr) (svcs : List Svc) (s s' : State) (rsp : Rsp)
    → IsWithin s.tables
    → give_added code hdr (add_svcs svcs s.tables) s ≡ executed rsp s'
    → (rsp.hdr ≡ hdr) × IsWithin s'.tables
unfolding give_added
added-IsWithin code hdr svcs s s' rsp w e =
    let (status, g, added, within, outcome) = add_svcs-IsWithin svcs s.tables w in
    elim (Option-cases status) [
      | inl quiet ↦ (ground (arith, added, quiet), ground (arith, added, quiet))
      | inr (rc, said) ↦ (ground (arith, added, said), ground (arith, added, said))
    ]

-- What holds behind a request.
pub record Kept (hdr : MsgHdr) (rsp : Rsp) (s' : State) : Type 0 where
  pub header : (rsp.hdr ≡ hdr) ⊎ (rsp.hdr ≡ record hdr { op = op_rsp; type = type_err })
  pub within : IsWithin s'.tables

Left-Kept :
    {hdr : MsgHdr} {s s' : State} {rsp : Rsp}
    → IsWithin s.tables
    → Left hdr s rsp s'
    → Kept hdr rsp s'
Left-Kept w l = record { header = l.header; within = rw l.tables w }

execute-Kept :
    (hosts : Hosts) (hdr : MsgHdr) (call : Call) (s s' : State) (rsp : Rsp)
    → IsWithin s.tables
    → execute hosts hdr call s ≡ executed rsp s'
    → Kept hdr rsp s'
unfolding execute clear_svcs
execute-Kept hosts hdr Types.gatts_clear_svcs s s' rsp w e = record {
  header = inl (ground arith);
  within = ground arith;
}
execute-Kept hosts hdr (Types.gatts_add_svcs svcs) s s' rsp w e =
    let (same, within) = added-IsWithin hosts.code hdr svcs s s' rsp w e in
    record { header = inl same; within = within }
execute-Kept hosts hdr call s s' rsp w e = Left-Kept w (execute-Left hosts hdr call s s' rsp refl e)

pub respond-Kept :
    (hosts : Hosts) (hdr : MsgHdr) (answer : Answer) (s s' : State) (rsp : Rsp)
    → answer_hdr answer ≡ some hdr
    → IsWithin s.tables
    → respond hosts answer s ≡ executed rsp s'
    → Kept hdr rsp s'
unfolding respond
respond-Kept hosts hdr (call_rsp out call) s s' rsp h w e =
    let same : out ≡ hdr = cc in rw (sym same) (execute-Kept hosts out call s s' rsp w e)
respond-Kept hosts hdr (error_rsp out error msg) s s' rsp h w e =
    let (is, left) = respond-error hosts out error msg s s' rsp e in
    record { header = inl (ground (arith, is)); within = rw left w }
respond-Kept hosts hdr undefined_rsp s s' rsp h w e = absurd (ground arith)

pub undefined-lost :
    (hosts : Hosts) (answer : Answer) (s s' : State) (rsp : Rsp)
    → answer_hdr answer ≡ none
    → respond hosts answer s ≢ executed rsp s'
unfolding respond
undefined-lost hosts (call_rsp out call) s s' rsp h = absurd (ground arith)
undefined-lost hosts (error_rsp out error msg) s s' rsp h = absurd (ground arith)
undefined-lost hosts undefined_rsp s s' rsp h = λ e. cc

pub Executed-cases :
    (m : Executed) → (m ≡ lost) ⊎ ((rsp : Rsp) × (s : State) × (m ≡ executed rsp s))
Executed-cases (executed rsp s) = inr (rsp, s, refl)
Executed-cases lost = inl refl

respond-IsWithin :
    (hosts : Hosts) (answer : Answer) (s s' : State) (rsp : Rsp)
    → IsWithin s.tables
    → respond hosts answer s ≡ executed rsp s'
    → IsWithin s'.tables
respond-IsWithin hosts answer s s' rsp w e = elim (Option-cases (answer_hdr answer)) [
  | inl no_answer ↦ absurd (undefined-lost hosts answer s s' rsp no_answer e)
  | inr (hdr, h) ↦ (respond-Kept hosts hdr answer s s' rsp h w e).within
]

-- Any sequence of requests of any kinds that runs without undefined behaviour gets exactly one response for each, and
-- leaves no table of the service registry overfull that was not before.
pub respond_all-IsWithin :
    (hosts : Hosts) (answers : List Answer) (s s' : State) (rsps : List Rsp)
    → IsWithin s.tables
    → respond_all hosts answers s ≡ some (rsps, s')
    → IsWithin s'.tables × (length rsps ≡ length answers)
unfolding respond_all
respond_all-IsWithin hosts [] s s' rsps w e = (ground arith, ground arith)
respond_all-IsWithin hosts (answer ∷ answers) s s' rsps w e =
    elim (Executed-cases (respond hosts answer s)) [
      | inl is_lost ↦ absurd (ground arith)
      | inr (rsp, s1, one) ↦ elim (Option-cases (respond_all hosts answers s1)) [
        | inl later_lost ↦ absurd (ground arith)
        | inr ((more, s2), rest) ↦
            let w1 = respond-IsWithin hosts answer s s1 rsp w one in
            let (w2, n) = respond_all-IsWithin hosts answers s1 s2 more w1 rest in
            (ground (arith, one, rest, w2), ground (arith, one, rest, n))
      ]
    ]
