-- ===== src/Gatts/Bounds.antt =====
-- What the counts of `bhd_gatts_cnt_resources` are good for: a request that passes them is saved whole,
-- and no `assert` on the way fails.
use blehostd.Prelude.{
  ℕ, ◌+◌, ◌≤◌, ◌≡◌, refl, ◌⊎◌, inl, inr, Option, none, some, List, [], ◌∷◌, arith, length, ltb,
  if◌then◌else◌,
}
use blehostd.Status.{Rc, success, fail, hs_enomem}
use blehostd.Svc.{Chr, Svc}
use blehostd.Gatts.{
  Gatts, Need, max_svcs, max_chrs, max_dscs, max_uuids, max_val_handles, cnt_dscs, cnt_svcs,
  cnt_resources, verify_resource_cnt, save_svcs, add_svcs,
}
use blehostd.Gatts.Room.{
  Taken, HasRoom, Saves, ended, all_dscs, all_chr_uuids, svc_taken, save_svc-Saves,
}

-- What the services of a request take.
svcs_chrs : List Svc → ℕ
svcs_chrs [] = 0
svcs_chrs (s ∷ ss) = ended (length s.chrs) + svcs_chrs ss

svcs_dscs : List Svc → ℕ
svcs_dscs [] = 0
svcs_dscs (s ∷ ss) = all_dscs s.chrs + svcs_dscs ss

svcs_uuids : List Svc → ℕ
svcs_uuids [] = 0
svcs_uuids (s ∷ ss) = all_chr_uuids s.chrs + 1 + svcs_uuids ss

svcs_val_handles : List Svc → ℕ
svcs_val_handles [] = 0
svcs_val_handles (s ∷ ss) = length s.chrs + svcs_val_handles ss

svcs_taken : List Svc → Taken
svcs_taken ss = record {
  svcs = length ss;
  chrs = svcs_chrs ss;
  dscs = svcs_dscs ss;
  uuids = svcs_uuids ss;
  val_handles = svcs_val_handles ss;
}

save_svcs-Saves :
    (ss : List Svc) (g : Gatts)
    → HasRoom g (svcs_taken ss)
    → Saves (save_svcs ss g) g (svcs_taken ss)
unfolding save_svcs svcs_taken svcs_chrs svcs_dscs svcs_uuids svcs_val_handles svc_taken
save_svcs-Saves [] g r = (g, refl, ground arith)
save_svcs-Saves (s ∷ ss) g r =
    let (g1, e1, grew1) = save_svc-Saves s g (ground arith) in
    let (g2, e2, grew2) = save_svcs-Saves ss g1 (ground arith) in
    (g2, ground (arith, e1, e2), ground arith)

cnt_dscs-all_dscs : (cs : List Chr) (n : ℕ) → cnt_dscs cs n ≡ n + all_dscs cs
unfolding cnt_dscs all_dscs
cnt_dscs-all_dscs [] n = omega arith
cnt_dscs-all_dscs (c ∷ cs) n =
    let m = n + length c.dscs in
    ground (arith, cnt_dscs-all_dscs cs (if ltb 0 (length c.dscs) then m + 1 else m))

all_chr_uuids-le : (cs : List Chr) → all_chr_uuids cs ≤ length cs + all_dscs cs
unfolding all_chr_uuids all_dscs
all_chr_uuids-le [] = omega arith
all_chr_uuids-le (c ∷ cs) = ground (arith, all_chr_uuids-le cs)

svcs_uuids-le : (ss : List Svc) → svcs_uuids ss ≤ length ss + svcs_chrs ss + svcs_dscs ss
unfolding svcs_uuids svcs_chrs svcs_dscs
svcs_uuids-le [] = omega arith
svcs_uuids-le (s ∷ ss) = ground (arith, svcs_uuids-le ss, all_chr_uuids-le s.chrs)

-- The count is not less than what is taken. For characteristics it may be more.
record Covers (need : Need) (ss : List Svc) (out : Need) : Type 0 where
  svcs : out.svcs ≡ need.svcs
  chrs : need.chrs + svcs_chrs ss ≤ out.chrs
  dscs : out.dscs ≡ need.dscs + svcs_dscs ss
  val_handles : out.val_handles ≡ need.val_handles + svcs_val_handles ss

cnt_svcs-Covers : (ss : List Svc) (need : Need) → Covers need ss (cnt_svcs ss need)
unfolding cnt_svcs svcs_chrs svcs_dscs svcs_val_handles
cnt_svcs-Covers [] need = ground arith
cnt_svcs-Covers (s ∷ ss) need =
    let chrs = need.chrs + length s.chrs in
    ground (
      arith,
      cnt_dscs-all_dscs s.chrs need.dscs,
      cnt_svcs-Covers ss (record need {
        chrs = if ltb 0 chrs then chrs + 1 else chrs;
        dscs = cnt_dscs s.chrs need.dscs;
        val_handles = need.val_handles + length s.chrs;
      }),
    )

-- What holds of a request that passes `bhd_gatts_verify_resource_cnt`.
record Passed (g : Gatts) (ss : List Svc) : Type 0 where
  room : HasRoom g (svcs_taken ss)
  terminator : g.num_svcs + length ss + 1 ≤ max_svcs
  handles : g.num_val_handles + svcs_val_handles ss ≤ max_val_handles

abbrev before : List Svc → Need
before ss = record { svcs = length ss + 1; chrs = 0; dscs = 0; val_handles = 0 }

cnt_resources-Covers : (ss : List Svc) → Covers (before ss) ss (cnt_resources ss)
unfolding cnt_resources
cnt_resources-Covers ss = cnt_svcs-Covers ss (before ss)

verify-Passed : (g : Gatts) (ss : List Svc) → verify_resource_cnt g ss ≡ success → Passed g ss
unfolding verify_resource_cnt svcs_taken
verify-Passed g ss h = ground (arith, cnt_resources-Covers ss, svcs_uuids-le ss)

-- The tables are not overfull.
pub record IsWithin (g : Gatts) : Type 0 where
  pub svcs : g.num_svcs ≤ max_svcs
  pub chrs : g.num_chrs ≤ max_chrs
  pub dscs : g.num_dscs ≤ max_dscs
  pub uuids : g.num_uuids ≤ max_uuids
  pub val_handles : g.num_val_handles ≤ max_val_handles

verify-cases :
    (g : Gatts) (ss : List Svc)
    → (verify_resource_cnt g ss ≡ success) ⊎ (verify_resource_cnt g ss ≡ fail hs_enomem)
unfolding verify_resource_cnt
verify-cases g ss = ground arith

-- `bhd_gatts_add_svcs` returns from any request, with no failed `assert`, and leaves no table overfull
-- that was not. It answers with an error exactly if the request does not pass the count, and then
-- changes nothing.
pub add_svcs-IsWithin :
    (ss : List Svc) (g : Gatts)
    → IsWithin g
    → (status : Option Rc) × (g' : Gatts) × (add_svcs ss g ≡ some (status, g'))
      × IsWithin g'
      × ((status ≡ none) × (verify_resource_cnt g ss ≡ success)
          ⊎ (status ≡ some (fail hs_enomem))
            × (verify_resource_cnt g ss ≡ fail hs_enomem)
            × (g' ≡ g))
unfolding add_svcs
add_svcs-IsWithin ss g w = elim (verify-cases g ss) [
  | inl passed ↦
      let p = verify-Passed g ss passed in
      let (g1, e1, grew1) = save_svcs-Saves ss g p.room in
      (
        none,
        record g1 { num_svcs = g1.num_svcs + 1 },
        ground (arith, e1),
        unfold svcs_taken in ground arith,
        inl (refl, passed),
      )
  | inr failed ↦ (some (fail hs_enomem), g, ground arith, w, inr (refl, failed, refl))
]
