-- ===== src/Gatts/Commit/Saved.antt =====
-- What the save functions of apps/blehostd/src/bhd_gatts.c write to the tables, and what they leave.
use blehostd.Prelude.{
  ℕ, ◌+◌, ◌≤◌, ◌<◌, ◌≡◌, ◌≢◌, refl, ◌∙◌, inl, inr, some, List, [], ◌∷◌, arith, Option-cases,
}
use blehostd.Uuid.{Uuid}
use blehostd.Svc.{Dsc, Chr}
use blehostd.Gatts.{
  Gatts, update, save_uuid, save_dsc, save_dscs, save_chr_dscs, write_chr, save_chr,
}

-- Nothing changes in the tables of services and characteristics, and no UUID that was there.
pub record Aside (g g' : Gatts) : Type 0 where
  pub svcs : g'.svcs ≡ g.svcs
  pub chrs : g'.chrs ≡ g.chrs
  pub num_svcs : g'.num_svcs ≡ g.num_svcs
  pub num_chrs : g'.num_chrs ≡ g.num_chrs
  pub num_val_handles : g'.num_val_handles ≡ g.num_val_handles
  pub num_uuids : g.num_uuids ≤ g'.num_uuids
  pub uuids : (u : ℕ) → u < g.num_uuids → g'.uuids u ≡ g.uuids u

Aside-trans : {g g1 g2 : Gatts} → Aside g g1 → Aside g1 g2 → Aside g g2
Aside-trans a b = record {
  svcs = b.svcs ∙ a.svcs;
  chrs = b.chrs ∙ a.chrs;
  num_svcs = b.num_svcs ∙ a.num_svcs;
  num_chrs = b.num_chrs ∙ a.num_chrs;
  num_val_handles = b.num_val_handles ∙ a.num_val_handles;
  num_uuids = omega arith;
  uuids = λ u h. b.uuids u (omega arith) ∙ a.uuids u h;
}

-- The copy of a UUID.
pub record Copied (src : Uuid) (g : Gatts) (at : ℕ) (g' : Gatts) : Type 0 where
  pub place : at ≡ g.num_uuids
  pub next : g'.num_uuids ≡ g.num_uuids + 1
  pub stored : g'.uuids g.num_uuids ≡ some src
  pub aside : Aside g g'

pub save_uuid-Copied :
    (src : Uuid) (g g' : Gatts) (at : ℕ) → save_uuid src g ≡ some (at, g') → Copied src g at g'
unfolding save_uuid
save_uuid-Copied src g g' at e = record {
  place = ground arith;
  next = ground arith;
  stored = ground arith;
  aside = record {
    svcs = ground arith;
    chrs = ground arith;
    num_svcs = ground arith;
    num_chrs = ground arith;
    num_val_handles = ground arith;
    num_uuids = ground arith;
    uuids = λ u h. ground arith;
  };
}

save_dsc-Aside : (d : Dsc) (g g' : Gatts) → save_dsc d g ≡ some g' → Aside g g'
unfolding save_dsc save_uuid
save_dsc-Aside d g g' e = record {
  svcs = ground arith;
  chrs = ground arith;
  num_svcs = ground arith;
  num_chrs = ground arith;
  num_val_handles = ground arith;
  num_uuids = ground arith;
  uuids = λ u h. ground arith;
}

save_dscs-Aside : (ds : List Dsc) (g g' : Gatts) → save_dscs ds g ≡ some g' → Aside g g'
unfolding save_dscs
save_dscs-Aside [] g g' e = record {
  svcs = ground arith;
  chrs = ground arith;
  num_svcs = ground arith;
  num_chrs = ground arith;
  num_val_handles = ground arith;
  num_uuids = ground arith;
  uuids = λ u h. ground arith;
}
save_dscs-Aside (d ∷ ds) g g' e = elim (Option-cases (save_dsc d g)) [
  | inl stopped ↦ ground arith
  | inr (g1, e1) ↦ Aside-trans (save_dsc-Aside d g g1 e1) (save_dscs-Aside ds g1 g' (ground arith))
]

-- Only the element of the table of characteristics that is being written changes there, and not in its UUID and its
-- value handle.
record Inside (g g' : Gatts) : Type 0 where
  svcs : g'.svcs ≡ g.svcs
  chrs : (i : ℕ) → i ≢ g.num_chrs → g'.chrs i ≡ g.chrs i
  uuid : (g'.chrs g.num_chrs).uuid ≡ (g.chrs g.num_chrs).uuid
  val_handle : (g'.chrs g.num_chrs).val_handle ≡ (g.chrs g.num_chrs).val_handle
  num_svcs : g'.num_svcs ≡ g.num_svcs
  num_chrs : g'.num_chrs ≡ g.num_chrs
  num_val_handles : g'.num_val_handles ≡ g.num_val_handles
  num_uuids : g.num_uuids ≤ g'.num_uuids
  uuids : (u : ℕ) → u < g.num_uuids → g'.uuids u ≡ g.uuids u

abbrev with_dscs : Gatts → Gatts
with_dscs g = record g {
  chrs = update g.chrs g.num_chrs (record (g.chrs g.num_chrs) { descriptors = some g.num_dscs });
}

save_chr_dscs-Inside : (ds : List Dsc) (g g' : Gatts) → save_chr_dscs ds g ≡ some g' → Inside g g'
unfolding save_chr_dscs
save_chr_dscs-Inside [] g g' e = record {
  svcs = ground arith;
  chrs = λ i h. ground arith;
  uuid = ground arith;
  val_handle = ground arith;
  num_svcs = ground arith;
  num_chrs = ground arith;
  num_val_handles = ground arith;
  num_uuids = ground arith;
  uuids = λ u h. ground arith;
}
save_chr_dscs-Inside (d ∷ ds) g g' e = elim (Option-cases (save_dscs (d ∷ ds) (with_dscs g))) [
  | inl stopped ↦ ground arith
  | inr (g1, e1) ↦
      let a = save_dscs-Aside (d ∷ ds) (with_dscs g) g1 e1 in
      record {
        svcs = ground (arith, a.svcs);
        chrs = λ i h. ground (arith, a.chrs);
        uuid = ground (arith, a.chrs);
        val_handle = ground (arith, a.chrs);
        num_svcs = ground (arith, a.num_svcs);
        num_chrs = ground (arith, a.num_chrs);
        num_val_handles = ground (arith, a.num_val_handles);
        num_uuids = ground (arith, a.num_uuids);
        uuids = λ u h. ground (arith, a.uuids u);
      }
]

-- A characteristic is at the next element, with its UUID behind the others, and the next value handle.
pub record Placed (c : Chr) (g g' : Gatts) : Type 0 where
  pub svcs : g'.svcs ≡ g.svcs
  pub chrs : (i : ℕ) → i ≢ g.num_chrs → g'.chrs i ≡ g.chrs i
  pub uuid : (g'.chrs g.num_chrs).uuid ≡ some g.num_uuids
  pub val_handle : (g'.chrs g.num_chrs).val_handle ≡ some g.num_val_handles
  pub stored : g'.uuids g.num_uuids ≡ some c.uuid
  pub num_svcs : g'.num_svcs ≡ g.num_svcs
  pub num_chrs : g'.num_chrs ≡ g.num_chrs + 1
  pub num_val_handles : g'.num_val_handles ≡ g.num_val_handles + 1
  pub num_uuids : g.num_uuids < g'.num_uuids
  pub uuids : (u : ℕ) → u < g.num_uuids → g'.uuids u ≡ g.uuids u

write_chr-Placed :
    (c : Chr) (g g1 g2 : Gatts)
    → Copied c.uuid g g.num_uuids g1
    → Inside (write_chr c g.num_uuids g1) g2
    → Placed c g (record g2 { num_chrs = g2.num_chrs + 1 })
unfolding write_chr
write_chr-Placed c g g1 g2 k b =
    let a = k.aside in
    record {
      svcs = b.svcs ∙ a.svcs;
      chrs = λ i h. ground (arith, b.chrs i, a.chrs, a.num_chrs);
      uuid = ground (arith, b.uuid, a.num_chrs);
      val_handle = ground (arith, b.val_handle, a.num_chrs, a.num_val_handles);
      stored = b.uuids g.num_uuids (ground (arith, k.next)) ∙ k.stored;
      num_svcs = b.num_svcs ∙ a.num_svcs;
      num_chrs = ground (arith, b.num_chrs, a.num_chrs);
      num_val_handles = ground (arith, b.num_val_handles, a.num_val_handles);
      num_uuids = ground (arith, b.num_uuids, k.next);
      uuids = λ u h. b.uuids u (ground (arith, k.next)) ∙ a.uuids u h;
    }

pub save_chr-Placed : (c : Chr) (g g' : Gatts) → save_chr c g ≡ some g' → Placed c g g'
unfolding save_chr
save_chr-Placed c g g' e = elim (Option-cases (save_uuid c.uuid g)) [
  | inl stopped ↦ ground arith
  | inr ((at, g1), e1) ↦
      let k = save_uuid-Copied c.uuid g g1 at e1 in
      elim (Option-cases (save_chr_dscs c.dscs (write_chr c g.num_uuids g1))) [
        | inl stopped ↦ ground (arith, k.place)
        | inr (g2, e2) ↦
            let k' : Copied c.uuid g g.num_uuids g1 = record {
              place = refl;
              next = k.next;
              stored = k.stored;
              aside = k.aside;
            } in
            let p =
              write_chr-Placed c g g1 g2 k'
                (save_chr_dscs-Inside c.dscs (write_chr c g.num_uuids g1) g2 e2) in
            let same : g' ≡ record g2 { num_chrs = g2.num_chrs + 1 } = ground (arith, k.place) in
            rw same p
      ]
]
