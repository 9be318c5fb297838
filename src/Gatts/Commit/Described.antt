-- ===== src/Gatts/Commit/Described.antt =====
-- What `bhd_gatts_commit_svcs` of apps/blehostd/src/bhd_gatts.c tells the client of the services that were added.
use blehostd.Prelude.{
  ℕ, zero, suc, ◌+◌, ◌-◌, ◌%◌, ◌^◌, ◌≤◌, ◌<◌, ◌≡◌, refl, sym, inl, inr, true, Option, none, some,
  List, [], ◌∷◌, arith, length, lt→ltb, Option-cases,
}
use blehostd.Prelude.Int.{pos}
use blehostd.Uuid.{Uuid}
use blehostd.Svc.{Chr, Svc}
use blehostd.Enc.Rsp.{CommitChr, CommitSvc, RspBody, commit_svcs_rsp}
use blehostd.Gatts.{Gatts, ChrDef, max_chrs, save_svcs, add_svcs}
use blehostd.Gatts.Bounds.{IsWithin, add_svcs-IsWithin}
use blehostd.Gatts.Commit.{
  GattsHost, Filled, filled, undefined, ◌>>=◌, copy_uuid, count_chrs, commit_chr, commit_chrs,
  commit_svc, commit_loop, describe_svcs, start_svcs, commit_svcs, num_elements,
}
use blehostd.Gatts.Commit.Layout.{ChrsAt, CharsOf, SvcsAt, IsBlank, counted}
use blehostd.Gatts.Commit.Layout.Services.{save_svcs-SvcsAt}

-- A list of characteristics as the client is told of it: the n-th one has the n-th value handle, and its definition
-- is one handle before its value.
described_chrs : (ℕ → ℕ) → ℕ → List Chr → List CommitChr
described_chrs val_handles k [] = []
described_chrs val_handles k (c ∷ cs) =
    record {
      uuid = c.uuid;
      def_handle = (val_handles k + 2 ^ 16 - 1) % 2 ^ 16;
      val_handle = val_handles k;
      dscs = [];
    }
    ∷ described_chrs val_handles (suc k) cs

unfoldable pub described_svc : (ℕ → ℕ) → ℕ → Uuid → List Chr → Option CommitSvc
unfolding described_chrs
described_svc val_handles k uuid [] = none
described_svc val_handles k uuid (c ∷ cs) =
    some (record { uuid = uuid; handle = 0; chrs = described_chrs val_handles k (c ∷ cs) })

unfoldable pub with_svc : Option CommitSvc → Option (List CommitSvc) → Option (List CommitSvc)
with_svc none rest = none
with_svc (some svc) none = none
with_svc (some svc) (some svcs) = some (svc ∷ svcs)

-- The services as the client is told of them, if each has a characteristic.
unfoldable pub described : (ℕ → ℕ) → ℕ → List Svc → Option (List CommitSvc)
unfolding described_svc with_svc
described val_handles k [] = some []
described val_handles k (s ∷ ss) =
    with_svc (described_svc val_handles k s.uuid s.chrs)
      (described val_handles (k + length s.chrs) ss)

-- The program reads through NULL where there is nothing to tell.
abbrev pub told {ℓ} : {A : Type ℓ} → Option A → Filled A
told none = undefined
told (some a) = filled a

copy_uuid-stored :
    (g : Gatts) (p : Option ℕ) (u : ℕ) (uuid : Uuid)
    → p ≡ some u
    → g.uuids u ≡ some uuid
    → copy_uuid (counted g) p ≡ filled uuid
unfolding copy_uuid
copy_uuid-stored g p u uuid e q = rw (e, q) refl

count_chrs-ChrsAt :
    (g : Gatts) (cs : List Chr) (left i k n m : ℕ)
    → ChrsAt g i k cs
    → length cs < left
    → n + length cs ≡ m
    → count_chrs (counted g) left i n ≡ filled m
unfolding count_chrs ChrsAt
count_chrs-ChrsAt g cs zero i k n m at h e = absurd (omega arith)
count_chrs-ChrsAt g [] (suc left) i k n m at h e = rw (count_chrs, at) (ground arith)
count_chrs-ChrsAt g (c ∷ cs) (suc left) i k n m ((u, p, b, q), v, r) h e =
    rw (count_chrs, p)
      (count_chrs-ChrsAt g cs left (suc i) (suc k) (suc n) m r (omega arith) (omega arith))

commit_chr-described :
    (g : Gatts) (vals : ℕ → ℕ) (src : ChrDef) (c : Chr) (u k : ℕ)
    → src.uuid ≡ some u
    → g.uuids u ≡ some c.uuid
    → src.val_handle ≡ some k
    → commit_chr (counted g) vals src
      ≡ filled (record {
        uuid = c.uuid;
        def_handle = (vals k + 2 ^ 16 - 1) % 2 ^ 16;
        val_handle = vals k;
        dscs = [];
      })
unfolding commit_chr copy_uuid
commit_chr-described g vals src c u k p q v = rw (p, q, v) refl

commit_chrs-ChrsAt :
    (g : Gatts) (vals : ℕ → ℕ) (cs : List Chr) (i k : ℕ)
    → ChrsAt g i k cs
    → commit_chrs (counted g) vals (length cs) i ≡ filled (described_chrs vals k cs)
unfolding commit_chrs described_chrs ChrsAt
commit_chrs-ChrsAt g vals [] i k at = refl
commit_chrs-ChrsAt g vals (c ∷ cs) i k ((u, p, b, q), v, r) =
    rw
      (
        commit_chrs,
        commit_chr-described g vals (g.chrs i) c u k p q v,
        commit_chrs-ChrsAt g vals cs (suc i) (suc k) r,
      )
      refl

-- No block is refused.
abbrev pub HasMemory : GattsHost → Type 0
HasMemory host = (n m : ℕ) → host.calloc n m ≡ true

module _ (host : GattsHost) (memory : HasMemory host) where
  commit_svc-told :
      (g : Gatts) (vals : ℕ → ℕ) (si u k : ℕ) (uuid : Uuid) (cs : List Chr)
      → g.num_chrs ≤ max_chrs
      → (g.svcs si).uuid ≡ some u
      → g.uuids u ≡ some uuid
      → CharsOf g (g.svcs si) k cs
      → commit_svc host (counted g) vals si (g.svcs si) ≡ told (described_svc vals k uuid cs)
  unfolding commit_svc described_svc CharsOf
  commit_svc-told g vals si u k uuid [] w p q f =
      rw (commit_svc, copy_uuid-stored g (g.svcs si).uuid u uuid p q, f) refl
  commit_svc-told g vals si u k uuid (c ∷ cs) w p q (first, f, h, at) =
      rw
        (
          commit_svc,
          copy_uuid-stored g (g.svcs si).uuid u uuid p q,
          f,
          count_chrs-ChrsAt g (c ∷ cs) (max_chrs - first) first k 0 (length (c ∷ cs)) at
              (omega arith) (omega arith),
          memory (si + 1) (length (c ∷ cs)),
          commit_chrs-ChrsAt g vals (c ∷ cs) first k at,
        )
        refl

  -- One round of the loop, from what the service and the rest of the loop give.
  loop_step :
      (g : Gatts) (vals : ℕ → ℕ) (n si : ℕ) (svc : Option CommitSvc)
      (rest : Option (List CommitSvc))
      → commit_svc host (counted g) vals si (g.svcs si) ≡ told svc
      → commit_loop host (counted g) vals n (suc si) ≡ told rest
      → commit_loop host (counted g) vals (suc n) si ≡ told (with_svc svc rest)
  unfolding commit_loop with_svc
  loop_step g vals n si none rest p q = rw (commit_loop, p) refl
  loop_step g vals n si (some svc) none p q = rw (commit_loop, p, q) refl
  loop_step g vals n si (some svc) (some svcs) p q = rw (commit_loop, p, q) refl

  commit_loop-SvcsAt :
      (g : Gatts) (vals : ℕ → ℕ) (ss : List Svc) (si k : ℕ)
      → g.num_chrs ≤ max_chrs
      → SvcsAt g si k ss
      → commit_loop host (counted g) vals (length ss) si ≡ told (described vals k ss)
  unfolding commit_loop described SvcsAt
  commit_loop-SvcsAt g vals [] si k w at = refl
  commit_loop-SvcsAt g vals (s ∷ ss) si k w ((u, p, b, q), chars, l, r) =
      loop_step g vals (length ss) si (described_svc vals k s.uuid s.chrs)
        (described vals (k + length s.chrs) ss)
        (commit_svc-told g vals si u k s.uuid s.chrs w p q chars)
        (commit_loop-SvcsAt g vals ss (suc si) (k + length s.chrs) w r)

-- The terminator is not counted by the loop.
pub SvcsAt-length :
    (ss : List Svc) (g : Gatts) (i k : ℕ) → SvcsAt g i k ss → g.num_svcs ≡ i + length ss
unfolding SvcsAt
SvcsAt-length [] g i k at = omega (arith, at)
SvcsAt-length (s ∷ ss) g i k (u, c, b, r) =
    omega (arith, SvcsAt-length ss g (suc i) (k + length s.chrs) r)

-- The response to a description.
abbrev pub response : Option (List CommitSvc) → Filled RspBody
response none = undefined
response (some svcs) = filled (commit_svcs_rsp (pos 0) svcs)

describe_svcs-told :
    (host : GattsHost) (g : Gatts) (vals : ℕ → ℕ) (n : ℕ) (d : Option (List CommitSvc))
    → (g.num_svcs - 1) ≡ n
    → commit_loop host g vals n 0 ≡ told d
    → (describe_svcs host g vals >>= λ svcs. filled (commit_svcs_rsp (pos 0) svcs)) ≡ response d
unfolding describe_svcs
describe_svcs-told host g vals n none e p = rw (describe_svcs, e, p) refl
describe_svcs-told host g vals n (some svcs) e p = rw (describe_svcs, e, p) refl

-- The host takes the tables and writes these value handles.
pub record Takes (host : GattsHost) (g : Gatts) (vals : ℕ → ℕ) : Type 0 where
  pub counts : host.gatts_count_cfg g ≡ pos 0
  pub adds : host.gatts_add_svcs g ≡ pos 0
  pub starts : host.gatts_start g ≡ (pos 0, vals)

pub commit_svcs-taken :
    (host : GattsHost) (memory : HasMemory host) (g : Gatts) (vals : ℕ → ℕ) (r : Filled RspBody)
    → Takes host g vals
    → 0 < g.num_svcs
    → (describe_svcs host g vals >>= λ svcs. filled (commit_svcs_rsp (pos 0) svcs)) ≡ r
    → commit_svcs host g ≡ r
unfolding commit_svcs start_svcs
commit_svcs-taken host memory g vals r t h e =
    rw
      (
        commit_svcs,
        start_svcs,
        lt→ltb 0 g.num_svcs h,
        t.counts,
        t.adds,
        t.starts,
        memory 0 (num_elements host g),
      )
      e

pub add_svcs-saved :
    (ss : List Svc) (g g' : Gatts)
    → add_svcs ss g ≡ some (none, g')
    → (g1 : Gatts) × (save_svcs ss g ≡ some g1) × (g' ≡ counted g1)
unfolding add_svcs
add_svcs-saved ss g g' e = elim (Option-cases (save_svcs ss g)) [
  | inl stopped ↦ ground arith
  | inr (g1, e1) ↦ (g1, e1, ground arith)
]

-- Services that `bhd_gatts_add_svcs` accepts in tables that nothing was written to, and that the host takes with
-- every block given: `bhd_gatts_commit_svcs` answers with status 0 and exactly these services, in their order, each
-- with its UUID and its characteristics in their order, the UUID of each, the value handle that the host wrote for it
-- and the handle before that; or, if a service has no characteristic, it reads through NULL.
pub commit_svcs-add_svcs :
    (host : GattsHost) (memory : HasMemory host) (ss : List Svc) (g g' : Gatts) (vals : ℕ → ℕ)
    → IsBlank g
    → IsWithin g
    → g.num_svcs ≡ 0
    → add_svcs ss g ≡ some (none, g')
    → Takes host g' vals
    → commit_svcs host g' ≡ response (described vals g.num_val_handles ss)
commit_svcs-add_svcs host memory ss g g' vals blank within start e t =
    let (g1, saved, same) = add_svcs-saved ss g g' e in
    let (status, g2, e2, w, outcome) = add_svcs-IsWithin ss g within in
    let chrs : g'.num_chrs ≤ max_chrs = ground (arith, w.chrs) in
    let (x, end, at) = save_svcs-SvcsAt ss g g1 blank saved in
    let n = SvcsAt-length ss g1 g.num_svcs g.num_val_handles at in
    let at0 : SvcsAt g1 0 g.num_val_handles ss = rw (sym start) at in
    let chrs1 : g1.num_chrs ≤ max_chrs = ground arith in
    commit_svcs-taken host memory g' vals (response (described vals g.num_val_handles ss)) t
      (ground (arith, n))
      (describe_svcs-told host g' vals (length ss) (described vals g.num_val_handles ss)
        (ground (arith, n))
        (rw same (commit_loop-SvcsAt host memory g1 vals ss 0 g.num_val_handles chrs1 at0)))
