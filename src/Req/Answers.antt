-- ===== src/Req/Answers.antt =====
-- Which answers a request can get.
use blehostd.Prelude.{
  ℕ, ◌≡◌, ◌≢◌, refl, ◌⊎◌, inl, inr, Bool, true, false, Bool-cases, Option-cases, Option, none, some,
  List, [], ◌∷◌, Bytes, arith,
}
use blehostd.Prelude.Int.{ℤ, eqz, eqz_sound}
use blehostd.Cjson.{Cjson}
use blehostd.Proto.Maps.{HostConsts}
use blehostd.Proto.Numbers.{op_req, op_rsp, type_err}
use blehostd.Prelude.{String}
use blehostd.Status.{Error}
use blehostd.Req.Outcome.{
  Form, build, build_returned, fill, fill_returned, status_only, Outcome, accepted, rejected,
  undefined, HostSizes,
}
use blehostd.Req.Types.{Call}
use blehostd.Req.Dispatch.{
  ReqRun, req_dispatch, rsp_dispatch, dispatch_find, req_dispatch_find, rsp_dispatch_find,
}
use blehostd.Req.Run.{
  MsgHdr, Answer, error_rsp, call_rsp, undefined_rsp, finish, msg_hdr_dec, req_cb, req_dispatched,
  req_dec,
}

-- The types of one table stand in the other.
covered : {A B : Type 0} → List (ℤ × A) → List (ℤ × B) → Bool
covered [] others = true
covered ((type, cb) ∷ entries) others = elim (dispatch_find others type) [
  | none ↦ false
  | some _ ↦ covered entries others
]

covered_sound :
    {A B : Type 0} (entries : List (ℤ × A)) (others : List (ℤ × B)) (type : ℤ) (cb : A)
    → covered entries others ≡ true
    → dispatch_find entries type ≡ some cb
    → dispatch_find others type ≢ none
unfolding covered
covered_sound [] others type cb h found = unfold dispatch_find in cc
covered_sound ((t, f) ∷ entries) others type cb h found =
    elim (Option-cases (dispatch_find others t)) [
      | inl missing ↦ absurd (ground arith)
      | inr (enc, there) ↦ elim (Bool-cases (eqz t type)) [
        | inl same ↦ let e = eqz_sound t type same in ground (arith, e)
        | inr other ↦
            covered_sound entries others type cb (ground arith)
              (unfold dispatch_find in ground arith)
      ]
    ]

covers : (type : ℤ) (cb : ReqRun) → req_dispatch_find type ≡ some cb → rsp_dispatch_find type ≢ none
unfolding req_dispatch_find rsp_dispatch_find
covers type cb found =
    covered_sound req_dispatch rsp_dispatch type cb (unfold covered dispatch_find in refl) found

-- The header of an answer, unless the behaviour is undefined.
abbrev pub answer_hdr : Answer → Option MsgHdr
answer_hdr (error_rsp hdr e msg) = some hdr
answer_hdr (call_rsp hdr call) = some hdr
answer_hdr undefined_rsp = none

-- A header of a response for which there is an encoder.
pub record IsEncodable (hdr : MsgHdr) : Type 0 where
  pub op : hdr.op ≡ op_rsp
  pub encoder : rsp_dispatch_find hdr.type ≢ none

pub Outcome-cases :
    {A : Type 0} (d : Outcome A)
    → ((a : A) × (d ≡ accepted a))
      ⊎ ((form : Form) × (e : Error) × (msg : String) × (d ≡ rejected form e msg))
      ⊎ (d ≡ undefined)
Outcome-cases (accepted a) = inl (a, refl)
Outcome-cases (rejected form e msg) = inr (inl (form, e, msg, refl))
Outcome-cases undefined = inr (inr refl)

finish-IsEncodable :
    (hdr : MsgHdr) (result : Outcome Call) (out : MsgHdr)
    → IsEncodable hdr
    → answer_hdr (finish hdr result) ≡ some out
    → IsEncodable out × (out.seq ≡ hdr.seq)
unfolding finish rsp_dispatch_find dispatch_find
finish-IsEncodable hdr (accepted call) out w h = ground arith
finish-IsEncodable hdr (rejected build e msg) out w h = ground arith
finish-IsEncodable hdr (rejected build_returned e msg) out w h = ground arith
finish-IsEncodable hdr (rejected fill e msg) out w h = ground arith
finish-IsEncodable hdr (rejected fill_returned e msg) out w h = ground arith
finish-IsEncodable hdr (rejected status_only e msg) out w h = ground arith
finish-IsEncodable hdr undefined out w h = cc

module _ (J : Cjson) (sizes : HostSizes) (c : HostConsts) where
  open J use {Item, parse}

  err-IsEncodable : (seq : ℕ) → IsEncodable (record { op = op_rsp; type = type_err; seq = seq })
  unfolding rsp_dispatch_find dispatch_find
  err-IsEncodable seq = ground arith

  req_dispatched-IsEncodable :
      (root : Item) (hdr out : MsgHdr)
      → answer_hdr (req_dispatched J sizes c root hdr) ≡ some out
      → IsEncodable out × (out.seq ≡ hdr.seq)
  unfolding req_dispatched
  req_dispatched-IsEncodable root hdr out h = elim (Bool-cases (eqz hdr.op op_req)) [
    | inr other ↦ let w = err-IsEncodable hdr.seq in ground arith
    | inl same ↦ elim (Option-cases (req_dispatch_find hdr.type)) [
      | inl missing ↦ let w = err-IsEncodable hdr.seq in ground arith
      | inr (cb, found) ↦
          let w : IsEncodable (record { op = op_rsp; type = hdr.type; seq = hdr.seq }) = record {
            op = refl;
            encoder = covers hdr.type cb found;
          } in
          finish-IsEncodable (record { op = op_rsp; type = hdr.type; seq = hdr.seq })
            (req_cb J sizes c cb root) out w (ground arith)
    ]
  ]

  -- Every answer that `bhd_req_dec` leaves is a response, and `bhd_rsp_dispatch_find` finds an encoder
  -- for its type, so its `assert(0)` is not reached.
  pub req_dec-IsEncodable :
      (json : Bytes) (out : MsgHdr)
      → answer_hdr (req_dec J sizes c json) ≡ some out
      → IsEncodable out
  unfolding req_dec
  req_dec-IsEncodable json out h =
      let w = err-IsEncodable 0 in
      elim (Option-cases (parse json)) [
        | inl bad_json ↦ ground arith
        | inr (root, parsed) ↦ elim (Outcome-cases (msg_hdr_dec J sizes c root)) [
          | inl (hdr, decoded) ↦ (req_dispatched-IsEncodable root hdr out (ground arith)).0
          | inr failed ↦ ground arith
        ]
      ]

  -- The answer to a request whose header can be read has the sequence number of that header.
  pub req_dec-seq :
      (json : Bytes) (root : Item) (hdr out : MsgHdr)
      → parse json ≡ some root
      → msg_hdr_dec J sizes c root ≡ accepted hdr
      → answer_hdr (req_dec J sizes c json) ≡ some out
      → out.seq ≡ hdr.seq
  unfolding req_dec
  req_dec-seq json root hdr out parsed decoded h =
      (req_dispatched-IsEncodable root hdr out (ground arith)).1
