-- ===== src/Gatts/Commit/Layout/Chars.antt =====
-- `bhd_gatts_save_chr` in the loop over the characteristics of a service, in tables with nothing behind what is in use.
use blehostd.Prelude.{
  ℕ, ◌+◌, ◌≤◌, ◌≡◌, refl, ◌∙◌, inl, inr, none, some, List, [], ◌∷◌, arith, length, Option-cases,
}
use blehostd.Svc.{Chr}
use blehostd.Gatts.{Gatts, save_chr, save_chrs}
use blehostd.Gatts.Commit.Saved.{Placed, save_chr-Placed}
use blehostd.Gatts.Commit.Layout.{ChrsAt, Extended, Extended-trans, ChrsAt-at}

save_chr-Extended : (c : Chr) (g g' : Gatts) → Placed c g g' → Extended g g'
save_chr-Extended c g g' p = record {
  svcs = λ i h. ground (arith, p.svcs);
  chrs = λ i h. p.chrs i (λ e. omega arith);
  uuids = p.uuids;
  num_svcs = omega (arith, p.num_svcs);
  num_chrs = omega (arith, p.num_chrs);
  num_uuids = omega (arith, p.num_uuids);
}

-- What saving characteristics does to the rest of the state.
pub record Wrote (n : ℕ) (g g' : Gatts) : Type 0 where
  pub svcs : g'.svcs ≡ g.svcs
  pub num_svcs : g'.num_svcs ≡ g.num_svcs
  pub num_chrs : g'.num_chrs ≡ g.num_chrs + n
  pub num_val_handles : g'.num_val_handles ≡ g.num_val_handles + n
  pub blank : (i : ℕ) → g'.num_chrs ≤ i → (g'.chrs i).uuid ≡ none
  pub extended : Extended g g'

pub Wrote-nothing : (g : Gatts) → ((i : ℕ) → g.num_chrs ≤ i → (g.chrs i).uuid ≡ none) → Wrote 0 g g
Wrote-nothing g blank = record {
  svcs = refl;
  num_svcs = refl;
  num_chrs = omega arith;
  num_val_handles = omega arith;
  blank = blank;
  extended = record {
    svcs = λ i h. refl;
    chrs = λ i h. refl;
    uuids = λ u h. refl;
    num_svcs = omega arith;
    num_chrs = omega arith;
    num_uuids = omega arith;
  };
}

pub save_chrs-ChrsAt :
    (cs : List Chr) (g g' : Gatts)
    → ((i : ℕ) → g.num_chrs ≤ i → (g.chrs i).uuid ≡ none)
    → save_chrs cs g ≡ some g'
    → Wrote (length cs) g g' × ChrsAt g' g.num_chrs g.num_val_handles cs
unfolding save_chrs ChrsAt
save_chrs-ChrsAt [] g g' blank e =
    let same : g' ≡ g = cc in rw same (Wrote-nothing g blank, blank g.num_chrs (omega arith))
save_chrs-ChrsAt (c ∷ cs) g g' blank e = elim (Option-cases (save_chr c g)) [
  | inl stopped ↦ ground arith
  | inr (g1, e1) ↦
      let p = save_chr-Placed c g g1 e1 in
      let (w, at) =
        save_chrs-ChrsAt cs g1 g'
          (λ i h.
            rw (p.chrs i (λ q. omega (arith, p.num_chrs))) (blank i (omega (arith, p.num_chrs))))
          (ground arith) in
      let n = w.extended.chrs g.num_chrs (omega (arith, p.num_chrs)) in
      let u = w.extended.uuids g.num_uuids p.num_uuids in
      (
        record {
          svcs = w.svcs ∙ p.svcs;
          num_svcs = w.num_svcs ∙ p.num_svcs;
          num_chrs = omega (arith, w.num_chrs, p.num_chrs);
          num_val_handles = omega (arith, w.num_val_handles, p.num_val_handles);
          blank = w.blank;
          extended = Extended-trans (save_chr-Extended c g g1 p) w.extended;
        },
        (
          (
            g.num_uuids,
            rw n p.uuid,
            omega (arith, p.num_uuids, w.extended.num_uuids),
            u ∙ p.stored,
          ),
          rw n p.val_handle,
          ChrsAt-at g' cs (omega (arith, p.num_chrs)) (omega (arith, p.num_val_handles)) at,
        ),
      )
]
