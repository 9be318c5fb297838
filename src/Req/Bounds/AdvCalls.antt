-- ===== src/Req/Bounds/AdvCalls.antt =====
-- That the handler for advertisement fields makes its call with texts and bytes that fit their arrays.
use blehostd.Prelude.{ℕ, String, Bytes, ◌≤◌, ◌≡◌, inl, inr, arith, length}
use blehostd.Status.{Result}
use blehostd.Json.{json_string}
use blehostd.Cjson.{Cjson}
use blehostd.Req.Answers.{Outcome-cases}
use blehostd.Req.Outcome.{Outcome, accepted, rejected, undefined, HostSizes}
use blehostd.Req.Types
use blehostd.Req.Types.{Call}
use blehostd.Req.AdvFields
use blehostd.Req.Bounds.{IsInRange, hex_below}

-- What is accepted has at most `size` bytes.
abbrev Fits : ℕ → Outcome Bytes → Type 0
Fits size (accepted bytes) = length bytes ≤ size
Fits size (rejected form e msg) = Unit
Fits size undefined = Unit

text-Fits : (size : ℕ) (r : Result Bytes) (msg : String) → Fits size (AdvFields.adv_text size r msg)
unfolding AdvFields.adv_text
text-Fits size r msg = ground arith

module _ (J : Cjson) (sizes : HostSizes) where
  open J use {Item}

  adv_name_below :
      (parent : Item) (req out : Types.AdvFieldsReq)
      → AdvFields.adv_name_fields J sizes parent req ≡ accepted out
      → length out.name ≤ sizes.adv_max_field_sz
  unfolding AdvFields.adv_name_fields
  adv_name_below parent req out h = ground arith

  bytes-Fits :
      (parent : Item) (name msg : String)
      → Fits sizes.adv_max_field_sz (AdvFields.adv_bytes J sizes parent name msg)
  unfolding AdvFields.adv_bytes
  bytes-Fits parent name msg = ground (arith, hex_below J parent name sizes.adv_max_field_sz)

  adv_data_below :
      (parent : Item) (req out : Types.AdvFieldsReq)
      → AdvFields.adv_data_fields J sizes parent req ≡ accepted out
      → (out.name ≡ req.name)
        × (length out.svc_data_uuid16 ≤ sizes.adv_max_field_sz)
        × (length out.svc_data_uuid32 ≤ sizes.adv_max_field_sz)
        × (length out.svc_data_uuid128 ≤ sizes.adv_max_field_sz)
        × (length out.uri ≤ sizes.adv_max_field_sz)
        × (length out.mfg_data ≤ sizes.adv_max_field_sz)
  unfolding AdvFields.adv_data_fields
  adv_data_below parent req out h =
      let size = sizes.adv_max_field_sz in
      ground (
        arith,
        bytes-Fits parent "svc_data_uuid16" "invalid svc_data_uuid16",
        bytes-Fits parent "svc_data_uuid32" "invalid svc_data_uuid32",
        bytes-Fits parent "svc_data_uuid128" "invalid svc_data_uuid128",
        text-Fits size (json_string J parent "uri") "invalid uri",
        bytes-Fits parent "mfg_data" "invalid mfg_data",
      )

  pub adv_fields-IsInRange :
      (parent : Item) (call : Call)
      → AdvFields.adv_fields_req_run J sizes parent ≡ accepted call
      → IsInRange J sizes parent call
  unfolding AdvFields.adv_fields_req_run IsInRange
  adv_fields-IsInRange parent call h =
      elim (Outcome-cases (AdvFields.adv_uuid_fields J sizes parent AdvFields.no_fields)) [
        | inr failed ↦ absurd (ground arith)
        | inl (req1, e1) ↦ elim (Outcome-cases (AdvFields.adv_name_fields J sizes parent req1)) [
          | inr failed ↦ absurd (ground arith)
          | inl (req2, e2) ↦ elim (Outcome-cases (AdvFields.adv_data_fields J sizes parent req2)) [
            | inr failed ↦ absurd (ground arith)
            | inl (req3, e3) ↦
                let name = adv_name_below parent req1 req2 e2 in
                let rest = adv_data_below parent req2 req3 e3 in
                ground (arith, e1, e2, e3, name, rest)
          ]
        ]
      ]
