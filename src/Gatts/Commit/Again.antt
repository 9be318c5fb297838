-- ===== src/Gatts/Commit/Again.antt =====
-- Two calls of `bhd_gatts_add_svcs` of apps/blehostd/src/bhd_gatts.c before `bhd_gatts_commit_svcs`.
use blehostd.Prelude.{
  ℕ, zero, suc, ◌+◌, ◌-◌, ◌≤◌, ◌<◌, ◌≡◌, ◌⊎◌, refl, inl, inr, none, some, List, ◌∷◌, arith, length,
  ◌==◌, Bool-cases,
}
use blehostd.Svc.{Svc}
use blehostd.Enc.Rsp.{CommitSvc}
use blehostd.Gatts.{Gatts, add_svcs}
use blehostd.Gatts.Commit.{
  GattsHost, Filled, filled, no_memory, undefined, ◌>>=◌, copy_uuid, commit_svc, commit_loop,
  describe_svcs, commit_svcs,
}
use blehostd.Gatts.Commit.Layout.{Extended, IsBlank}
use blehostd.Gatts.Commit.Layout.Services.{save_svcs-SvcsAt}
use blehostd.Gatts.Commit.Described.{
  HasMemory, Takes, SvcsAt-length, add_svcs-saved, commit_svcs-taken,
}

-- Nothing is told.
abbrev Fails {ℓ} : {A : Type ℓ} → Filled A → Type ℓ
Fails m = (m ≡ no_memory) ⊎ (m ≡ undefined)

Fails-bind :
    (m : Filled CommitSvc) (rest : Filled (List CommitSvc))
    → Fails rest
    → Fails (m >>= λ svc. rest >>= λ svcs. filled (svc ∷ svcs))
Fails-bind (filled svc) rest (inl e) = inl (rw e refl)
Fails-bind (filled svc) rest (inr e) = inr (rw e refl)
Fails-bind no_memory rest h = inl refl
Fails-bind undefined rest h = inr refl

module _ (host : GattsHost) (g : Gatts) (vals : ℕ → ℕ) (j : ℕ) (gap : (g.svcs j).uuid ≡ none) where
  commit_svc-gap : commit_svc host g vals j (g.svcs j) ≡ undefined
  unfolding commit_svc copy_uuid
  commit_svc-gap = rw (commit_svc, copy_uuid, gap) refl

  commit_loop-gap : (n si : ℕ) → si ≤ j → j < si + n → Fails (commit_loop host g vals n si)
  unfolding commit_loop
  commit_loop-gap zero si l h = absurd (omega arith)
  commit_loop-gap (suc n) si l h = elim (Bool-cases (si == j)) [
    | inl here ↦ let at : si ≡ j = ground arith in inr (rw (commit_loop, at, commit_svc-gap) refl)
    | inr before ↦
        Fails-bind (commit_svc host g vals si (g.svcs si)) (commit_loop host g vals n (suc si))
          (commit_loop-gap n (suc si) (ground arith) (omega arith))
  ]

  describe_svcs-gap : j < g.num_svcs - 1 → describe_svcs host g vals ≡ undefined
  unfolding describe_svcs
  describe_svcs-gap h = elim (commit_loop-gap (g.num_svcs - 1) 0 (omega arith) (omega arith)) [
    | inl e ↦ rw (describe_svcs, e) refl
    | inr e ↦ rw (describe_svcs, e) refl
  ]

-- The tables behind an accepted call: the element of the terminator was not written, and the rest is blank.
record Accepted (ss : List Svc) (g g' : Gatts) : Type 0 where
  num_svcs : g'.num_svcs ≡ g.num_svcs + length ss + 1
  gap : (g'.svcs (g.num_svcs + length ss)).uuid ≡ none
  blank : IsBlank g'
  extended : Extended g g'

add_svcs-Accepted :
    (ss : List Svc) (g g' : Gatts) → IsBlank g → add_svcs ss g ≡ some (none, g') → Accepted ss g g'
add_svcs-Accepted ss g g' blank e =
    let (g1, saved, same) = add_svcs-saved ss g g' e in
    let (x, end, at) = save_svcs-SvcsAt ss g g1 blank saved in
    let n = SvcsAt-length ss g1 g.num_svcs g.num_val_handles at in
    rw same (record {
      num_svcs = omega (arith, n);
      gap = (end.svcs (g.num_svcs + length ss) (omega (arith, n))).0;
      blank = record { svcs = λ i h. end.svcs i (omega arith); chrs = end.chrs };
      extended = record {
        svcs = x.svcs;
        chrs = x.chrs;
        uuids = x.uuids;
        num_svcs = omega (arith, x.num_svcs);
        num_chrs = x.num_chrs;
        num_uuids = x.num_uuids;
      };
    })

-- Where `bhd_gatts_add_svcs` accepts two requests, the first in tables with nothing behind what is in use, and the
-- host takes the tables with every block given, `bhd_gatts_commit_svcs` never answers: it reads through NULL at the
-- terminator between the two, whatever the services are.
pub commit_svcs-add_svcs_twice :
    (host : GattsHost) (memory : HasMemory host) (ss ts : List Svc) (g g' g'' : Gatts)
    (vals : ℕ → ℕ)
    → IsBlank g
    → add_svcs ss g ≡ some (none, g')
    → add_svcs ts g' ≡ some (none, g'')
    → Takes host g'' vals
    → commit_svcs host g'' ≡ undefined
commit_svcs-add_svcs_twice host memory ss ts g g' g'' vals blank e f t =
    let a = add_svcs-Accepted ss g g' blank e in
    let b = add_svcs-Accepted ts g' g'' a.blank f in
    let j = g.num_svcs + length ss in
    let gap : (g''.svcs j).uuid ≡ none = rw (b.extended.svcs j (omega (arith, a.num_svcs))) a.gap in
    commit_svcs-taken host memory g'' vals undefined t (omega (arith, b.num_svcs))
      (rw (describe_svcs-gap host g'' vals j gap (omega (arith, a.num_svcs, b.num_svcs))) refl)
