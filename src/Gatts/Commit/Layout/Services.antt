-- ===== src/Gatts/Commit/Layout/Services.antt =====
-- `bhd_gatts_save_svc` in the loop over the services of a request, in tables with nothing behind what is in use.
use blehostd.Prelude.{
  ℕ, suc, ◌+◌, ◌≤◌, ◌<◌, ◌≡◌, refl, sym, ◌∙◌, inl, inr, none, some, List, [], ◌∷◌, arith, length,
  Option-cases,
}
use blehostd.Svc.{Chr, Svc}
use blehostd.Gatts.{
  Gatts, update, save_chrs, save_uuid, write_svc, save_svc_chrs, save_svc, save_svcs,
}
use blehostd.Gatts.Commit.Saved.{Copied, save_uuid-Copied}
use blehostd.Gatts.Commit.Layout.{
  ChrsAt, CharsOf, SvcsAt, Extended, Extended-trans, IsBlank, ChrsAt-at, counted, ended_chrs,
  ChrsAt-ended, CharsOf-Extended,
}
use blehostd.Gatts.Commit.Layout.Chars.{Wrote, Wrote-nothing, save_chrs-ChrsAt}

-- The state before the characteristics of a service are saved, and behind them.
abbrev with_chrs : Gatts → Gatts
with_chrs g = record g {
  svcs =
      update g.svcs g.num_svcs (record (g.svcs g.num_svcs) { characteristics = some g.num_chrs });
}

-- The service that is being written has its UUID, and is followed by blank elements.
record Begun (s : Svc) (g g0 : Gatts) : Type 0 where
  extended : Extended g g0
  num_svcs : g0.num_svcs ≡ g.num_svcs
  num_val_handles : g0.num_val_handles ≡ g.num_val_handles
  uuid :
      (u : ℕ) × ((g0.svcs g.num_svcs).uuid ≡ some u)
      × (u < g0.num_uuids)
      × (g0.uuids u ≡ some s.uuid)
  characteristics : (g0.svcs g.num_svcs).characteristics ≡ none
  svcs : (i : ℕ) → g.num_svcs < i → ((g0.svcs i).uuid ≡ none) × ((g0.svcs i).characteristics ≡ none)
  chrs : (i : ℕ) → g0.num_chrs ≤ i → (g0.chrs i).uuid ≡ none

write_svc-Begun :
    (s : Svc) (g g1 : Gatts)
    → IsBlank g
    → Copied s.uuid g g.num_uuids g1
    → Begun s g (write_svc s g.num_uuids g1)
unfolding write_svc
write_svc-Begun s g g1 b k =
    let a = k.aside in
    record {
      extended = record {
        svcs = λ i h. ground (arith, a.svcs, a.num_svcs);
        chrs = λ i h. ground (arith, a.chrs);
        uuids = a.uuids;
        num_svcs = omega (arith, a.num_svcs);
        num_chrs = omega (arith, a.num_chrs);
        num_uuids = a.num_uuids;
      };
      num_svcs = a.num_svcs;
      num_val_handles = a.num_val_handles;
      uuid = (g.num_uuids, ground (arith, a.num_svcs), omega (arith, k.next), k.stored);
      characteristics = ground (arith, a.svcs, a.num_svcs, b.svcs g.num_svcs);
      svcs = λ i h. (
        ground (arith, a.svcs, a.num_svcs, b.svcs i),
        ground (arith, a.svcs, a.num_svcs, b.svcs i),
      );
      chrs = λ i h. ground (arith, a.chrs, a.num_chrs, b.chrs i);
    }

-- The service is at the next element, with its characteristics.
record Stored (s : Svc) (cs : List Chr) (g g' : Gatts) : Type 0 where
  extended : Extended g g'
  num_svcs : g'.num_svcs ≡ g.num_svcs + 1
  num_val_handles : g'.num_val_handles ≡ g.num_val_handles + length cs
  uuid :
      (u : ℕ) × ((g'.svcs g.num_svcs).uuid ≡ some u)
      × (u < g'.num_uuids)
      × (g'.uuids u ≡ some s.uuid)
  chars : CharsOf g' (g'.svcs g.num_svcs) g.num_val_handles cs
  blank : IsBlank g'

Begun-Stored : (s : Svc) (g g0 : Gatts) → Begun s g g0 → Stored s [] g (counted g0)
unfolding CharsOf
Begun-Stored s g g0 b =
    let x = b.extended in
    record {
      extended = record {
        svcs = x.svcs;
        chrs = x.chrs;
        uuids = x.uuids;
        num_svcs = omega (arith, b.num_svcs);
        num_chrs = x.num_chrs;
        num_uuids = x.num_uuids;
      };
      num_svcs = omega (arith, b.num_svcs);
      num_val_handles = omega (arith, b.num_val_handles);
      uuid = b.uuid;
      chars = b.characteristics;
      blank = record { svcs = λ i h. b.svcs i (omega (arith, b.num_svcs)); chrs = b.chrs };
    }

Wrote-Stored :
    (s : Svc) (c : Chr) (cs : List Chr) (g g0 g2 : Gatts)
    → Begun s g g0
    → Wrote (length (c ∷ cs)) (with_chrs g0) g2
    → ChrsAt g2 g0.num_chrs g0.num_val_handles (c ∷ cs)
    → Stored s (c ∷ cs) g (ended_chrs g2)
unfolding CharsOf
Wrote-Stored s c cs g g0 g2 b w at =
    let x = b.extended in
    let y = w.extended in
    let (u, p, q, r) = b.uuid in
    record {
      extended = record {
        svcs = λ i h. ground (arith, w.svcs, b.num_svcs, x.svcs i);
        chrs = λ i h. y.chrs i (omega (arith, x.num_chrs)) ∙ x.chrs i h;
        uuids = λ v h. y.uuids v (omega (arith, x.num_uuids)) ∙ x.uuids v h;
        num_svcs = omega (arith, w.num_svcs, b.num_svcs);
        num_chrs = omega (arith, x.num_chrs, y.num_chrs);
        num_uuids = omega (arith, x.num_uuids, y.num_uuids);
      };
      num_svcs = omega (arith, w.num_svcs, b.num_svcs);
      num_val_handles = omega (arith, w.num_val_handles, b.num_val_handles);
      uuid = (u, ground (arith, w.svcs, b.num_svcs), omega (arith, y.num_uuids), y.uuids u q ∙ r);
      chars = (
        g0.num_chrs,
        ground (arith, w.svcs, b.num_svcs),
        omega (arith, w.num_chrs),
        ChrsAt-ended (c ∷ cs) g2 g0.num_chrs g.num_val_handles
            (ChrsAt-at g2 (c ∷ cs) refl b.num_val_handles at),
      );
      blank = record {
        svcs = λ i h. ground (arith, w.svcs, w.num_svcs, b.num_svcs, b.svcs i);
        chrs = λ i h. w.blank i (omega arith);
      };
    }

save_svc_chrs-Stored :
    (s : Svc) (cs : List Chr) (g g0 g' : Gatts)
    → Begun s g g0
    → save_svc_chrs cs g0 ≡ some g'
    → Stored s cs g (counted g')
unfolding save_svc_chrs
save_svc_chrs-Stored s [] g g0 g' b e = let same : g' ≡ g0 = cc in rw same (Begun-Stored s g g0 b)
save_svc_chrs-Stored s (c ∷ cs) g g0 g' b e =
    elim (Option-cases (save_chrs (c ∷ cs) (with_chrs g0))) [
      | inl stopped ↦ ground arith
      | inr (g2, e2) ↦
          let (w, at) = save_chrs-ChrsAt (c ∷ cs) (with_chrs g0) g2 b.chrs e2 in
          let same : g' ≡ record g2 { num_chrs = g2.num_chrs + 1 } = ground arith in
          rw same (Wrote-Stored s c cs g g0 g2 b w at)
    ]

save_svc-Stored :
    (s : Svc) (g g' : Gatts) → IsBlank g → save_svc s g ≡ some g' → Stored s s.chrs g g'
unfolding save_svc
save_svc-Stored s g g' blank e = elim (Option-cases (save_uuid s.uuid g)) [
  | inl stopped ↦ ground arith
  | inr ((at, g1), e1) ↦
      let k = save_uuid-Copied s.uuid g g1 at e1 in
      let k' : Copied s.uuid g g.num_uuids g1 = record {
        place = refl;
        next = k.next;
        stored = k.stored;
        aside = k.aside;
      } in
      elim (Option-cases (save_svc_chrs s.chrs (write_svc s g.num_uuids g1))) [
        | inl stopped ↦ ground (arith, k.place)
        | inr (g2, e2) ↦
            let same : g' ≡ counted g2 = ground (arith, k.place) in
            rw same (
              save_svc_chrs-Stored s s.chrs g (write_svc s g.num_uuids g1) g2
                (write_svc-Begun s g g1 blank k') e2)
      ]
]

-- Saving services in blank tables describes them from the next element on, and leaves the rest blank.
pub save_svcs-SvcsAt :
    (ss : List Svc) (g g' : Gatts)
    → IsBlank g
    → save_svcs ss g ≡ some g'
    → Extended g g' × IsBlank g' × SvcsAt g' g.num_svcs g.num_val_handles ss
unfolding save_svcs SvcsAt
save_svcs-SvcsAt [] g g' blank e =
    let same : g' ≡ g = cc in rw same ((Wrote-nothing g blank.chrs).extended, blank, refl)
save_svcs-SvcsAt (s ∷ ss) g g' blank e = elim (Option-cases (save_svc s g)) [
  | inl stopped ↦ ground arith
  | inr (g1, e1) ↦
      let t = save_svc-Stored s g g1 blank e1 in
      let (x, end, at) = save_svcs-SvcsAt ss g1 g' t.blank (ground arith) in
      let n = x.svcs g.num_svcs (omega (arith, t.num_svcs)) in
      let next : g1.num_svcs ≡ suc g.num_svcs = omega (arith, t.num_svcs) in
      let (u, p, q, r) = t.uuid in
      (
        Extended-trans t.extended x,
        end,
        (
          (u, rw n p, omega (arith, x.num_uuids), x.uuids u q ∙ r),
          rw n (CharsOf-Extended s.chrs (g1.svcs g.num_svcs) g.num_val_handles x t.chars),
          omega (arith, t.num_svcs, x.num_svcs),
          rw (sym next, sym t.num_val_handles) at,
        ),
      )
]
