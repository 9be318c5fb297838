-- ===== src/Daemon/Errors.antt =====
-- The response to an error is one that `bhd_rsp_enc` of apps/blehostd/src/bhd_proto.c can encode, although `bhd_err_fill`
-- leaves the type of the request.
use blehostd.Prelude.{
  ◌≡◌, ◌≢◌, refl, sym, ap, ◌∙◌, inl, inr, true, false, Option, none, some, String, arith,
  Bool-cases,
}
use blehostd.Prelude.Int.{pos, eqz}
use blehostd.Status.{Error, overread}
use blehostd.Cjson.{Cjson}
use blehostd.Writer.{Writer}
use blehostd.Proto.Maps.{HostConsts}
use blehostd.Proto.Numbers.{type_err}
use blehostd.Req.Dispatch
use blehostd.Req.Dispatch.{ReqRun, SubrspEnc, rsp_dispatch_find, dispatch_find}
use blehostd.Req.Keys.{cb_type}
use blehostd.Req.Outcome.{Form, build, build_returned, fill, fill_returned, status_only, rejected}
use blehostd.Req.Run.{MsgHdr, error_rsp, finish}
use blehostd.Enc.{HostText}
use blehostd.Enc.Rsp
use blehostd.Enc.Rsp.{RspBody, garbled, err_rsp, rsp_cb}
use blehostd.Enc.Send.{Rsp, rsp_enc}
use blehostd.Daemon.{Hosts, State, executed, error_body, respond}
use blehostd.Daemon.Members.{status-reads, cb-reads}
use blehostd.Daemon.Forms.{is_plain, may_fail, plain-encoder}

abbrev error_response : Hosts → MsgHdr → Error → Option String → Rsp
error_response hosts hdr e msg = record { hdr = hdr; body = error_body hosts hdr e msg }

pub respond-error :
    (hosts : Hosts) (hdr : MsgHdr) (e : Error) (msg : Option String) (s s' : State) (rsp : Rsp)
    → respond hosts (error_rsp hdr e msg) s ≡ executed rsp s'
    → (rsp ≡ error_response hosts hdr e msg) × (s' ≡ s)
unfolding respond
respond-error hosts hdr overread msg s s' rsp h = absurd (ground arith)
respond-error hosts hdr _ msg s s' rsp h = (cc, cc)

only_gen_rand_addr :
    (cb : ReqRun) → is_plain cb ≡ false → may_fail cb fill ≡ true → cb ≡ Dispatch.gen_rand_addr_run
only_gen_rand_addr Dispatch.gen_rand_addr_run p h = refl
only_gen_rand_addr _ p h = absurd (ground arith)

only_find_chr :
    (cb : ReqRun)
    → is_plain cb ≡ false
    → may_fail cb status_only ≡ true
    → cb ≡ Dispatch.find_chr_run
only_find_chr Dispatch.find_chr_run p h = refl
only_find_chr _ p h = absurd (ground arith)

fills_same : (cb : ReqRun) → may_fail cb fill_returned ≡ true → may_fail cb fill ≡ true
fills_same Dispatch.gen_rand_addr_run h = refl
fills_same Dispatch.find_chr_run h = cc
fills_same _ h = h

module _ {J : Cjson} (W : Writer J) (text : HostText) (c : HostConsts) (hosts : Hosts)
    (codes_lem : (e : Error) → eqz (hosts.code e) (pos 0) ≡ false) where
  open J use {Item}

  plain_reads :
      (cb : ReqRun) (hdr : MsgHdr) (body : RspBody)
      → cb_type cb ≡ hdr.type
      → is_plain cb ≡ true
      → rsp_enc W text c (record { hdr = hdr; body = body }) ≢ garbled
  plain_reads cb hdr body t h =
      let (enc, found, is) = plain-encoder cb h in
      cb-reads W text c enc hdr body (rw (sym t) found) λ p. status-reads W text c enc p body is

  pub err_reads :
      (hdr : MsgHdr) (e : Error) (msg : String)
      → hdr.type ≡ type_err
      → rsp_enc W text c (error_response hosts hdr e (some msg)) ≢ garbled
  unfolding error_body rsp_cb Rsp.err_rsp_enc rsp_dispatch_find dispatch_find
  err_reads hdr e msg t = cb-reads W text c Dispatch.err_rsp_enc hdr _ (rw t refl) (λ p g. cc)

  fill_reads :
      (cb : ReqRun) (hdr : MsgHdr) (e : Error) (msg : String)
      → cb_type cb ≡ hdr.type
      → may_fail cb fill ≡ true
      → rsp_enc W text c (error_response hosts hdr e (some msg)) ≢ garbled
  unfolding error_body rsp_cb Rsp.gen_rand_addr_rsp_enc Rsp.status_alone Rsp.status_of
      rsp_dispatch_find dispatch_find cb_type
  fill_reads cb hdr e msg t h = elim (Bool-cases (is_plain cb)) [
    | inl plain ↦ plain_reads cb hdr _ t plain
    | inr special ↦
        let only = only_gen_rand_addr cb special h in
        let type : cb_type Dispatch.gen_rand_addr_run ≡ hdr.type = sym (ap cb_type only) ∙ t in
        cb-reads W text c Dispatch.gen_rand_addr_rsp_enc hdr _ (rw (sym type) refl)
          (λ p. ground (arith, codes_lem e))
  ]

  status_reads :
      (cb : ReqRun) (hdr : MsgHdr) (e : Error)
      → cb_type cb ≡ hdr.type
      → may_fail cb status_only ≡ true
      → rsp_enc W text c (error_response hosts hdr e none) ≢ garbled
  unfolding error_body rsp_cb Rsp.find_chr_rsp_enc rsp_dispatch_find dispatch_find cb_type
  status_reads cb hdr e t h = elim (Bool-cases (is_plain cb)) [
    | inl plain ↦ plain_reads cb hdr _ t plain
    | inr special ↦
        let only = only_find_chr cb special h in
        let type : cb_type Dispatch.find_chr_run ≡ hdr.type = sym (ap cb_type only) ∙ t in
        cb-reads W text c Dispatch.find_chr_rsp_enc hdr _ (rw (sym type) refl)
          (λ p. ground (arith, type))
  ]

  -- The response behind an error of a handler.
  pub finish-reads :
      (cb : ReqRun) (hdr : MsgHdr) (form : Form) (e : Error) (msg : String) (s s' : State)
      (rsp : Rsp)
      → cb_type cb ≡ hdr.type
      → may_fail cb form ≡ true
      → respond hosts (finish hdr (rejected form e msg)) s ≡ executed rsp s'
      → rsp_enc W text c rsp ≢ garbled
  unfolding finish
  finish-reads cb hdr build e msg s s' rsp t m h =
      rw (respond-error hosts _ e (some msg) s s' rsp h).0 (err_reads _ e msg refl)
  finish-reads cb hdr build_returned e msg s s' rsp t m h =
      rw (respond-error hosts _ e (some msg) s s' rsp h).0 (err_reads _ e msg refl)
  finish-reads cb hdr fill e msg s s' rsp t m h =
      rw (respond-error hosts _ e (some msg) s s' rsp h).0 (fill_reads cb hdr e msg t m)
  finish-reads cb hdr fill_returned e msg s s' rsp t m h =
      rw (respond-error hosts _ e (some msg) s s' rsp h).0
        (fill_reads cb hdr e msg t (fills_same cb m))
  finish-reads cb hdr status_only e msg s s' rsp t m h =
      rw (respond-error hosts _ e none s s' rsp h).0 (status_reads cb hdr e t m)
