-- ===== src/Gatts/Commit/Layout.antt =====
-- How the tables of apps/blehostd/src/bhd_gatts.c describe a list of services, and when they still do after more
-- was written.
pub mod Chars
pub mod Services
use blehostd.Prelude.{
  ℕ, suc, ◌+◌, ◌≤◌, ◌<◌, ◌≡◌, sym, ◌∙◌, Option, none, some, List, [], ◌∷◌, arith, length,
}
use blehostd.Svc.{Chr, Svc}
use blehostd.Gatts.{Gatts, SvcDef}

-- From the element `i` of the table of characteristics on there are these ones, then a terminator; their value
-- handles are numbered from `k` on.
unfoldable pub ChrsAt : Gatts → ℕ → ℕ → List Chr → Type 0
ChrsAt g i k [] = (g.chrs i).uuid ≡ none
ChrsAt g i k (c ∷ cs) =
    ((u : ℕ) × ((g.chrs i).uuid ≡ some u) × (u < g.num_uuids) × (g.uuids u ≡ some c.uuid))
    × ((g.chrs i).val_handle ≡ some k)
    × ChrsAt g (suc i) (suc k) cs

-- What a service points to.
unfoldable pub CharsOf : Gatts → SvcDef → ℕ → List Chr → Type 0
CharsOf g def k [] = def.characteristics ≡ none
CharsOf g def k (c ∷ cs) =
    (i : ℕ) × (def.characteristics ≡ some i)
    × (i + length (c ∷ cs) < g.num_chrs)
    × ChrsAt g i k (c ∷ cs)

-- From the element `i` of the table of services on there are these ones.
unfoldable pub SvcsAt : Gatts → ℕ → ℕ → List Svc → Type 0
SvcsAt g i k [] = g.num_svcs ≡ i
SvcsAt g i k (s ∷ ss) =
    ((u : ℕ) × ((g.svcs i).uuid ≡ some u) × (u < g.num_uuids) × (g.uuids u ≡ some s.uuid))
    × CharsOf g (g.svcs i) k s.chrs
    × (i < g.num_svcs)
    × SvcsAt g (suc i) (k + length s.chrs) ss

-- The tables agree where they were in use.
pub record Extended (g g' : Gatts) : Type 0 where
  pub svcs : (i : ℕ) → i < g.num_svcs → g'.svcs i ≡ g.svcs i
  pub chrs : (i : ℕ) → i < g.num_chrs → g'.chrs i ≡ g.chrs i
  pub uuids : (u : ℕ) → u < g.num_uuids → g'.uuids u ≡ g.uuids u
  pub num_svcs : g.num_svcs ≤ g'.num_svcs
  pub num_chrs : g.num_chrs ≤ g'.num_chrs
  pub num_uuids : g.num_uuids ≤ g'.num_uuids

pub Extended-trans : {g g1 g2 : Gatts} → Extended g g1 → Extended g1 g2 → Extended g g2
Extended-trans a b = record {
  svcs = λ i h. b.svcs i (omega arith) ∙ a.svcs i h;
  chrs = λ i h. b.chrs i (omega arith) ∙ a.chrs i h;
  uuids = λ u h. b.uuids u (omega arith) ∙ a.uuids u h;
  num_svcs = omega arith;
  num_chrs = omega arith;
  num_uuids = omega arith;
}

-- Nothing was written behind what is in use.
pub record IsBlank (g : Gatts) : Type 0 where
  pub svcs :
      (i : ℕ) → g.num_svcs ≤ i → ((g.svcs i).uuid ≡ none) × ((g.svcs i).characteristics ≡ none)
  pub chrs : (i : ℕ) → g.num_chrs ≤ i → (g.chrs i).uuid ≡ none

pub ChrsAt-Extended :
    (cs : List Chr) {g g' : Gatts} (i k : ℕ)
    → Extended g g'
    → i + length cs < g.num_chrs
    → ChrsAt g i k cs
    → ChrsAt g' i k cs
unfolding ChrsAt
ChrsAt-Extended [] i k x h at = rw (x.chrs i (omega arith)) at
ChrsAt-Extended (c ∷ cs) i k x h ((u, p, b, q), v, r) =
    let e = x.chrs i (omega arith) in
    (
      (u, rw e p, omega (arith, x.num_uuids), x.uuids u b ∙ q),
      rw e v,
      ChrsAt-Extended cs (suc i) (suc k) x (omega arith) r,
    )

pub ChrsAt-at :
    (g : Gatts) (cs : List Chr) {i j k l : ℕ} → i ≡ j → k ≡ l → ChrsAt g i k cs → ChrsAt g j l cs
ChrsAt-at g cs p q at = rw (sym p, sym q) at

abbrev pub counted : Gatts → Gatts
counted g = record g { num_svcs = g.num_svcs + 1 }

-- Behind the characteristics there is a terminator.
abbrev pub ended_chrs : Gatts → Gatts
ended_chrs g = record g { num_chrs = g.num_chrs + 1; num_svcs = g.num_svcs + 1 }

pub ChrsAt-ended :
    (cs : List Chr) (g : Gatts) (i k : ℕ) → ChrsAt g i k cs → ChrsAt (ended_chrs g) i k cs
unfolding ChrsAt
ChrsAt-ended [] g i k at = at
ChrsAt-ended (c ∷ cs) g i k (u, v, r) = (u, v, ChrsAt-ended cs g (suc i) (suc k) r)

pub CharsOf-Extended :
    (cs : List Chr) {g g' : Gatts} (def : SvcDef) (k : ℕ)
    → Extended g g'
    → CharsOf g def k cs
    → CharsOf g' def k cs
unfolding CharsOf
CharsOf-Extended [] def k x at = at
CharsOf-Extended (c ∷ cs) def k x (i, p, b, at) =
    (i, p, omega (arith, x.num_chrs), ChrsAt-Extended (c ∷ cs) i k x b at)
