-- ===== src/Gatts/Room.antt =====
-- What each of the save functions takes from the tables, and that it does not stop while there is room.
use blehostd.Prelude.{
  ℕ, ◌+◌, ◌≤◌, ◌<◌, ◌≡◌, ◌≢◌, refl, Option, none, some, List, [], ◌∷◌, arith, length, ltb,
  if◌then◌else◌,
}
use blehostd.Uuid.{Uuid}
use blehostd.Svc.{Dsc, Chr, Svc}
use blehostd.Gatts.{
  Gatts, max_svcs, max_chrs, max_dscs, max_uuids, save_uuid, save_dsc, save_dscs, save_chr_dscs,
  write_chr, write_svc, save_chr, save_chrs, save_svc_chrs, save_svc, update,
}

-- How many elements of each table an operation takes.
pub record Taken : Type 0 where
  pub svcs : ℕ
  pub chrs : ℕ
  pub dscs : ℕ
  pub uuids : ℕ
  pub val_handles : ℕ

pub record HasRoom (g : Gatts) (t : Taken) : Type 0 where
  pub svcs : g.num_svcs + t.svcs ≤ max_svcs
  pub chrs : g.num_chrs + t.chrs ≤ max_chrs
  pub dscs : g.num_dscs + t.dscs ≤ max_dscs
  pub uuids : g.num_uuids + t.uuids ≤ max_uuids

pub record Grew (g : Gatts) (t : Taken) (g' : Gatts) : Type 0 where
  pub svcs : g'.num_svcs ≡ g.num_svcs + t.svcs
  pub chrs : g'.num_chrs ≡ g.num_chrs + t.chrs
  pub dscs : g'.num_dscs ≡ g.num_dscs + t.dscs
  pub uuids : g'.num_uuids ≡ g.num_uuids + t.uuids
  pub val_handles : g'.num_val_handles ≡ g.num_val_handles + t.val_handles

-- The operation does not stop, and takes as many elements as stated.
abbrev pub Saves : Option Gatts → Gatts → Taken → Type 0
Saves m g t = (g' : Gatts) × (m ≡ some g') × Grew g t g'

-- From the two halves: the operation does not stop, and where it returns it grew so.
Saves-of :
    (m : Option Gatts) (g : Gatts) (t : Taken)
    → m ≢ none
    → ((g' : Gatts) → m ≡ some g' → Grew g t g')
    → Saves m g t
Saves-of none g t total grew = absurd (total refl)
Saves-of (some g') g t total grew = (g', refl, grew g' refl)

-- `n` descriptors, which take as many UUIDs.
abbrev dscs_taken : ℕ → Taken
dscs_taken n = record { svcs = 0; chrs = 0; dscs = n; uuids = n; val_handles = 0 }

save_dsc-Saves :
    (d : Dsc) (g : Gatts) → HasRoom g (dscs_taken 1) → Saves (save_dsc d g) g (dscs_taken 1)
unfolding save_dsc
save_dsc-Saves d g r =
    Saves-of (save_dsc d g) g (dscs_taken 1) (λ e. ground arith) (λ g' e. ground arith)

save_dscs-Saves :
    (ds : List Dsc) (g : Gatts)
    → HasRoom g (dscs_taken (length ds))
    → Saves (save_dscs ds g) g (dscs_taken (length ds))
unfolding save_dscs
save_dscs-Saves [] g r = (g, refl, ground arith)
save_dscs-Saves (d ∷ ds) g r =
    let (g1, e1, grew1) = save_dsc-Saves d g (ground arith) in
    let (g2, e2, grew2) = save_dscs-Saves ds g1 (ground arith) in (g2, rw e1 e2, ground arith)

-- With the terminator.
abbrev pub ended : ℕ → ℕ
ended n = if ltb 0 n then n + 1 else 0

abbrev chr_dscs_taken : ℕ → Taken
chr_dscs_taken n = record { svcs = 0; chrs = 0; dscs = ended n; uuids = n; val_handles = 0 }

save_chr_dscs-Saves :
    (ds : List Dsc) (g : Gatts)
    → HasRoom g (chr_dscs_taken (length ds))
    → Saves (save_chr_dscs ds g) g (chr_dscs_taken (length ds))
unfolding save_chr_dscs
save_chr_dscs-Saves [] g r = (g, refl, ground arith)
save_chr_dscs-Saves (d ∷ ds) g r =
    let g0 = record g {
      chrs =
          update g.chrs g.num_chrs (record (g.chrs g.num_chrs) { descriptors = some g.num_dscs });
    } in
    let (g1, e1, grew1) = save_dscs-Saves (d ∷ ds) g0 (ground arith) in
    (record g1 { num_dscs = g1.num_dscs + 1 }, rw e1, ground arith)

-- A characteristic with `n` descriptors.
abbrev chr_taken : ℕ → Taken
chr_taken n = record { svcs = 0; chrs = 1; dscs = ended n; uuids = n + 1; val_handles = 1 }

-- The state behind the copy of a UUID.
abbrev with_uuid : Uuid → Gatts → Gatts
with_uuid u g = record g {
  uuids = update g.uuids g.num_uuids (some u);
  num_uuids = g.num_uuids + 1;
}

save_uuid-with_uuid :
    (u : Uuid) (g : Gatts)
    → g.num_uuids < max_uuids
    → save_uuid u g ≡ some (g.num_uuids, with_uuid u g)
unfolding save_uuid
save_uuid-with_uuid u g h = ground arith

save_chr-Saves :
    (c : Chr) (g : Gatts)
    → HasRoom g (chr_taken (length c.dscs))
    → Saves (save_chr c g) g (chr_taken (length c.dscs))
unfolding save_chr
save_chr-Saves c g r =
    let n = length c.dscs in
    let g0 = write_chr c g.num_uuids (with_uuid c.uuid g) in
    let (g1, e1, grew1) = save_chr_dscs-Saves c.dscs g0 (ground arith) in
    (record g1 { num_chrs = g1.num_chrs + 1 }, ground (arith, e1), ground arith)

unfoldable pub all_dscs : List Chr → ℕ
all_dscs [] = 0
all_dscs (c ∷ cs) = ended (length c.dscs) + all_dscs cs

unfoldable pub all_chr_uuids : List Chr → ℕ
all_chr_uuids [] = 0
all_chr_uuids (c ∷ cs) = length c.dscs + 1 + all_chr_uuids cs

chrs_taken : List Chr → Taken
chrs_taken cs = record {
  svcs = 0;
  chrs = length cs;
  dscs = all_dscs cs;
  uuids = all_chr_uuids cs;
  val_handles = length cs;
}

save_chrs-Saves :
    (cs : List Chr) (g : Gatts)
    → HasRoom g (chrs_taken cs)
    → Saves (save_chrs cs g) g (chrs_taken cs)
unfolding save_chrs chrs_taken all_dscs all_chr_uuids
save_chrs-Saves [] g r = (g, refl, ground arith)
save_chrs-Saves (c ∷ cs) g r =
    let (g1, e1, grew1) = save_chr-Saves c g (ground arith) in
    let (g2, e2, grew2) = save_chrs-Saves cs g1 (ground arith) in
    (g2, ground (arith, e1, e2), ground arith)

-- A service with these characteristics.
unfoldable pub svc_taken : List Chr → Taken
svc_taken cs = record {
  svcs = 1;
  chrs = ended (length cs);
  dscs = all_dscs cs;
  uuids = all_chr_uuids cs + 1;
  val_handles = length cs;
}

svc_chrs_taken : List Chr → Taken
svc_chrs_taken cs = record {
  svcs = 0;
  chrs = ended (length cs);
  dscs = all_dscs cs;
  uuids = all_chr_uuids cs;
  val_handles = length cs;
}

save_svc_chrs-Saves :
    (cs : List Chr) (g : Gatts)
    → HasRoom g (svc_chrs_taken cs)
    → Saves (save_svc_chrs cs g) g (svc_chrs_taken cs)
unfolding save_svc_chrs svc_chrs_taken
save_svc_chrs-Saves [] g r = unfold all_dscs all_chr_uuids in (g, refl, ground arith)
save_svc_chrs-Saves (c ∷ cs) g r =
    let g0 = record g {
      svcs =
          update g.svcs g.num_svcs
            (record (g.svcs g.num_svcs) { characteristics = some g.num_chrs });
    } in
    let (g1, e1, grew1) = save_chrs-Saves (c ∷ cs) g0 (unfold chrs_taken in ground arith) in
    (
      record g1 { num_chrs = g1.num_chrs + 1 },
      ground (arith, e1),
      unfold chrs_taken in ground arith,
    )

pub save_svc-Saves :
    (s : Svc) (g : Gatts) → HasRoom g (svc_taken s.chrs) → Saves (save_svc s g) g (svc_taken s.chrs)
unfolding save_svc svc_taken
save_svc-Saves s g r =
    let g0 = write_svc s g.num_uuids (with_uuid s.uuid g) in
    let (g1, e1, grew1) = save_svc_chrs-Saves s.chrs g0 (unfold svc_chrs_taken in ground arith) in
    (
      record g1 { num_svcs = g1.num_svcs + 1 },
      ground (arith, e1),
      unfold svc_chrs_taken in ground arith,
    )
