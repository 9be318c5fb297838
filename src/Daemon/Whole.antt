-- ===== src/Daemon/Whole.antt =====
-- A request from its text to the JSON of its response: `bhd_req_dec`, the call that it makes, and `bhd_rsp_enc`, of
-- apps/blehostd/src/bhd_proto.c.
use blehostd.Prelude.{
  ◌^◌, ◌<◌, ◌≡◌, ◌≢◌, ◌⊎◌, refl, sym, ap, ◌∙◌, inl, inr, false, Option, none, some, String, Bytes,
  arith, Bool-cases, Option-cases,
}
use blehostd.Prelude.Int.{pos, eqz}
use blehostd.Status.{Error}
use blehostd.Cjson.{Cjson}
use blehostd.Writer.{Writer, IsFaithful}
use blehostd.Proto.Maps.{HostConsts, op_rev_parse, type_rev_parse}
use blehostd.KvMap.{rev_find}
use blehostd.Proto.Numbers.{op_req, op_rsp, type_err}
use blehostd.Req.Answers.{Outcome-cases, answer_hdr, req_dec-seq, req_dec-IsEncodable}
use blehostd.Req.Dispatch
use blehostd.Req.Dispatch.{ReqRun, req_dispatch_find}
use blehostd.Req.Keys.{cb_type, found_type}
use blehostd.Req.CallTypes.{req_cb-call_type}
use blehostd.Req.Types.{Call}
use blehostd.Req.Outcome.{
  build, build_returned, fill, fill_returned, status_only, Outcome, accepted, rejected, undefined,
  HostSizes,
}
use blehostd.Req.Run.{
  MsgHdr, error_rsp, undefined_rsp, finish, msg_hdr_dec, req_cb, req_dispatched, req_dec,
}
use blehostd.Enc.{HostText}
use blehostd.Enc.Rsp.{Encoded, garbled, failed_enc, encoded}
use blehostd.Enc.Send.{Rsp, rsp_enc}
use blehostd.Enc.Header.{rsp_enc-hdr}
use blehostd.Gatts.Bounds.{IsWithin}
use blehostd.Daemon.{Hosts, State, executed, respond}
use blehostd.Daemon.Encoded.{execute-reads}
use blehostd.Daemon.Errors.{respond-error, finish-reads, err_reads}
use blehostd.Daemon.Forms.{req_cb-may_fail}
use blehostd.Daemon.Tables.{Kept, respond-Kept, undefined-lost}

-- Every type of a request has a name.
cb_type-name : (cb : ReqRun) → type_rev_parse (cb_type cb) ≢ none
unfolding cb_type type_rev_parse rev_find
cb_type-name Dispatch.sync_run = λ e. cc
cb_type-name _ = λ e. cc

module _ {J : Cjson} (W : Writer J) (text : HostText) (sizes : HostSizes) (c : HostConsts)
    (hosts : Hosts) (codes_lem : (e : Error) → eqz (hosts.code e) (pos 0) ≡ false) where
  open J use {Item, parse}

  -- The response of a handler that was found.
  found-reads :
      (cb : ReqRun) (root : Item) (hdr : MsgHdr) (s s' : State) (rsp : Rsp)
      → cb_type cb ≡ hdr.type
      → respond hosts (finish hdr (req_cb J sizes c cb root)) s ≡ executed rsp s'
      → rsp_enc W text c rsp ≢ garbled
  unfolding finish respond
  found-reads cb root hdr s s' rsp t e = elim (Outcome-cases (req_cb J sizes c cb root)) [
    | inl (call, run) ↦
        execute-reads W text c hosts hdr call s s' rsp
          (req_cb-call_type J sizes c cb root call run ∙ t) (ground (arith, run, e))
    | inr (inl (form, error, msg, run)) ↦
        finish-reads W text c hosts codes_lem cb hdr form error msg s s' rsp t
          (req_cb-may_fail J sizes c cb root form error msg run)
          (ap (λ r. respond hosts (finish hdr r) s) (sym run) ∙ e)
    | inr (inr run) ↦ absurd (ground (arith, run, e))
  ]

  error-reads :
      (hdr : MsgHdr) (error : Error) (msg : String) (s s' : State) (rsp : Rsp)
      → hdr.type ≡ type_err
      → respond hosts (error_rsp hdr error (some msg)) s ≡ executed rsp s'
      → rsp_enc W text c rsp ≢ garbled
  error-reads hdr error msg s s' rsp t e =
      rw (respond-error hosts hdr error (some msg) s s' rsp e).0
        (err_reads W text c hosts codes_lem hdr error msg t)

  dispatched-reads :
      (root : Item) (hdr : MsgHdr) (s s' : State) (rsp : Rsp)
      → respond hosts (req_dispatched J sizes c root hdr) s ≡ executed rsp s'
      → rsp_enc W text c rsp ≢ garbled
  unfolding req_dispatched
  dispatched-reads root hdr s s' rsp e = elim (Bool-cases (eqz hdr.op op_req)) [
    | inr other ↦ error-reads _ _ _ s s' rsp refl (rw (req_dispatched, other) at e)
    | inl same ↦ elim (Option-cases (req_dispatch_find hdr.type)) [
      | inl missing ↦ error-reads _ _ _ s s' rsp refl (rw (req_dispatched, same, missing) at e)
      | inr (cb, found) ↦
          found-reads cb root (record { op = op_rsp; type = hdr.type; seq = hdr.seq }) s s' rsp
            (sym (found_type hdr.type cb found)) (rw (req_dispatched, same, found) at e)
    ]
  ]

  -- `bhd_rsp_enc` never reads a member of the response that was not written: whatever text `bhd_req_dec` gets, whether it
  -- is a request or not, and whatever the functions of the host return, as long as the codes of errors are not 0.
  pub req_dec-reads :
      (json : Bytes) (s s' : State) (rsp : Rsp)
      → respond hosts (req_dec J sizes c json) s ≡ executed rsp s'
      → rsp_enc W text c rsp ≢ garbled
  unfolding req_dec
  req_dec-reads json s s' rsp e = elim (Option-cases (parse json)) [
    | inl bad_json ↦ error-reads _ _ _ s s' rsp refl (rw (req_dec, bad_json) at e)
    | inr (root, parsed) ↦ elim (Outcome-cases (msg_hdr_dec J sizes c root)) [
      | inl (hdr, decoded) ↦ dispatched-reads root hdr s s' rsp (rw (req_dec, parsed, decoded) at e)
      | inr (inl (form, error, msg, failed)) ↦
          error-reads _ _ _ s s' rsp refl (rw (req_dec, parsed, failed) at e)
      | inr (inr failed) ↦
          absurd
            (undefined-lost hosts undefined_rsp s s' rsp refl (rw (req_dec, parsed, failed) at e))
    ]
  ]

op_rsp-name : (name : Bytes) × (op_rev_parse op_rsp ≡ some name)
unfolding op_rev_parse rev_find
op_rsp-name = (_, refl)

-- The type of a response is that of an error, or that of a request.
TypeOf : MsgHdr → MsgHdr → Type 0
TypeOf hdr out =
    (out.type ≡ type_err) ⊎ ((out.type ≡ hdr.type) × (cb : ReqRun) × (out.type ≡ cb_type cb))

finish-TypeOf :
    (cb : ReqRun) (hdr : MsgHdr) (m : Outcome Call) (out : MsgHdr)
    → hdr.type ≡ cb_type cb
    → answer_hdr (finish hdr m) ≡ some out
    → TypeOf hdr out
unfolding finish TypeOf
finish-TypeOf cb hdr (accepted call) out t h = inr (ground arith, cb, ground arith)
finish-TypeOf cb hdr (rejected build e msg) out t h = inl (ground arith)
finish-TypeOf cb hdr (rejected build_returned e msg) out t h = inl (ground arith)
finish-TypeOf cb hdr (rejected fill e msg) out t h = inr (ground arith, cb, ground arith)
finish-TypeOf cb hdr (rejected fill_returned e msg) out t h = inr (ground arith, cb, ground arith)
finish-TypeOf cb hdr (rejected status_only e msg) out t h = inr (ground arith, cb, ground arith)
finish-TypeOf cb hdr undefined out t h = absurd (ground arith)

module _ (J : Cjson) (sizes : HostSizes) (c : HostConsts) where
  open J use {Item, parse}

  dispatched-TypeOf :
      (root : Item) (hdr out : MsgHdr)
      → answer_hdr (req_dispatched J sizes c root hdr) ≡ some out
      → TypeOf hdr out
  unfolding req_dispatched TypeOf
  dispatched-TypeOf root hdr out h = elim (Bool-cases (eqz hdr.op op_req)) [
    | inr other ↦ inl (ground arith)
    | inl same ↦ elim (Option-cases (req_dispatch_find hdr.type)) [
      | inl missing ↦ inl (ground arith)
      | inr (cb, found) ↦
          finish-TypeOf cb (record { op = op_rsp; type = hdr.type; seq = hdr.seq })
            (req_cb J sizes c cb root) out (found_type hdr.type cb found)
            (rw (req_dispatched, same, found) at h)
    ]
  ]

  answered-TypeOf :
      (json : Bytes) (root : Item) (hdr out : MsgHdr)
      → parse json ≡ some root
      → msg_hdr_dec J sizes c root ≡ accepted hdr
      → answer_hdr (req_dec J sizes c json) ≡ some out
      → TypeOf hdr out
  unfolding req_dec
  answered-TypeOf json root hdr out parsed decoded h =
      dispatched-TypeOf root hdr out (rw (req_dec, parsed, decoded) at h)

-- A header with a type of the requests, or that of an error, has names.
TypeOf-names :
    (hdr out : MsgHdr) → TypeOf hdr out → (name : Bytes) × (type_rev_parse out.type ≡ some name)
unfolding TypeOf type_rev_parse rev_find
TypeOf-names hdr out (inl t) = rw t (_, refl)
TypeOf-names hdr out (inr (same, cb, t)) = elim (Option-cases (type_rev_parse (cb_type cb))) [
  | inl missing ↦ absurd (cb_type-name cb missing)
  | inr (name, e) ↦ (name, rw t e)
]

-- A header that was left or made that of an error.
TypeOf-Kept :
    (hdr : MsgHdr) {out : MsgHdr} {rsp : Rsp} {s' : State}
    → TypeOf hdr out
    → out.op ≡ op_rsp
    → Kept out rsp s'
    → TypeOf hdr rsp.hdr × (rsp.hdr.op ≡ op_rsp) × (rsp.hdr.seq ≡ out.seq)
unfolding TypeOf
TypeOf-Kept hdr t o k = elim k.header [
  | inl same ↦ (rw same t, ap (λ (h : MsgHdr). h.op) same ∙ o, ap (λ (h : MsgHdr). h.seq) same)
  | inr failed ↦ (
    inl (ap (λ (h : MsgHdr). h.type) failed),
    ap (λ (h : MsgHdr). h.op) failed,
    ap (λ (h : MsgHdr). h.seq) failed,
  )
]

TypeOf-either : (hdr out : MsgHdr) → TypeOf hdr out → (out.type ≡ hdr.type) ⊎ (out.type ≡ type_err)
unfolding TypeOf
TypeOf-either hdr out (inl t) = inr t
TypeOf-either hdr out (inr (same, cb, t)) = inl same

Encoded-cases :
    {A : Type 0} (m : Encoded A)
    → m ≢ garbled
    → ((e : Error) × (m ≡ failed_enc e)) ⊎ ((q : Option A) × (m ≡ encoded q))
Encoded-cases garbled h = absurd (h refl)
Encoded-cases (failed_enc e) h = inl (e, refl)
Encoded-cases (encoded q) h = inr (q, refl)

module _ {J : Cjson} {W : Writer J} (faithful : IsFaithful W) (text : HostText) (sizes : HostSizes)
    (c : HostConsts) (hosts : Hosts)
    (codes_lem : (e : Error) → eqz (hosts.code e) (pos 0) ≡ false) where
  open J use {Item, parse}

  encodes :
      (hdr : MsgHdr) (rsp : Rsp)
      → rsp_enc W text c rsp ≢ garbled
      → TypeOf hdr rsp.hdr
      → rsp.hdr.op ≡ op_rsp
      → rsp.hdr.seq < 2 ^ 31
      → ((e : Error) × (rsp_enc W text c rsp ≡ failed_enc e))
        ⊎ ((out : Item) × (rsp_enc W text c rsp ≡ encoded (some out))
            × (msg_hdr_dec J sizes c out ≡ accepted rsp.hdr))
  encodes hdr rsp reads t o less = elim (Encoded-cases (rsp_enc W text c rsp) reads) [
    | inl failed ↦ inl failed
    | inr (q, enc) ↦
        let (name, n) = TypeOf-names hdr rsp.hdr t in
        let (op_name, m) = op_rsp-name in
        let (out, some_out, header) =
          rsp_enc-hdr faithful text sizes c rsp op_name name q (ap op_rev_parse o ∙ m) n less enc in
        inr (out, enc ∙ ap encoded some_out, header)
  ]

  -- A request whose header can be read, with a sequence number below 2^31, in tables that are not overfull: where the
  -- handling of the request has no undefined behaviour, its response has the operation of responses, the sequence
  -- number of the request, and its type or that of errors. The response is encoded as an object from which
  -- `bhd_msg_hdr_dec` reads exactly this header, or `bhd_rsp_enc` returns an error code; it never reads a member of the
  -- response that was not written.
  pub req_dec-response :
      (json : Bytes) (root : Item) (hdr : MsgHdr) (s s' : State) (rsp : Rsp)
      → parse json ≡ some root
      → msg_hdr_dec J sizes c root ≡ accepted hdr
      → hdr.seq < 2 ^ 31
      → IsWithin s.tables
      → respond hosts (req_dec J sizes c json) s ≡ executed rsp s'
      → (rsp.hdr.op ≡ op_rsp)
        × (rsp.hdr.seq ≡ hdr.seq)
        × ((rsp.hdr.type ≡ hdr.type) ⊎ (rsp.hdr.type ≡ type_err))
        × (((e : Error) × (rsp_enc W text c rsp ≡ failed_enc e))
            ⊎ ((out : Item) × (rsp_enc W text c rsp ≡ encoded (some out))
                × (msg_hdr_dec J sizes c out ≡ accepted rsp.hdr)))
  req_dec-response json root hdr s s' rsp parsed decoded less w e =
      let reads = req_dec-reads W text sizes c hosts codes_lem json s s' rsp e in
      elim (Option-cases (answer_hdr (req_dec J sizes c json))) [
        | inl silent ↦ absurd (undefined-lost hosts (req_dec J sizes c json) s s' rsp silent e)
        | inr (out, h) ↦
            let k = respond-Kept hosts out (req_dec J sizes c json) s s' rsp h w e in
            let is = req_dec-IsEncodable J sizes c json out h in
            let seq = req_dec-seq J sizes c json root hdr out parsed decoded h in
            let typed = answered-TypeOf J sizes c json root hdr out parsed decoded h in
            let (t, o, q) = TypeOf-Kept hdr typed is.op k in
            (o, q ∙ seq, TypeOf-either hdr rsp.hdr t, encodes hdr rsp reads t o (rw (q ∙ seq) less))
      ]
