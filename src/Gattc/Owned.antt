-- ===== src/Gattc/Owned.antt =====
-- Each discovery owns one block of the heap until it ends.
use mathlib.Core.List.{map-append}
use blehostd.Prelude.{
  ℕ, zero, suc, ◌≡◌, refl, sym, ◌∙◌, ap, inl, inr, Bool-cases, Option, none, some, List, [], ◌∷◌,
  ◌++◌, map, get_elem?, set, length, if◌then◌else◌, arith,
}
use blehostd.Prelude.Int.{ℤ, pos, eqz}
use blehostd.Proto.Numbers.{op_evt}
use blehostd.Enc.Evt.Kept.{type_number}
use blehostd.Enc.Send.{Evt}
use blehostd.Gattc.{
  Block, Cell, live, freed, freed_twice, chr_arg, dsc_arg, Heap, free, free_refused, GattHost,
  GattChr, GattDsc, disc_chr_cb, disc_chr_event, disc_dsc_cb, disc_dsc_event, gattc_disc_all_chrs,
  gattc_disc_chr_uuid, gattc_disc_all_dscs,
}
use blehostd.Gattc.Runs.{
  Proc, chr_proc, dsc_proc, started, Runs, begin, disc_all_chrs, disc_chr_uuid, disc_all_dscs,
  chr_result, dsc_result,
}

-- The discovery that a block belongs to; a freed one belongs to none, and one that was freed twice has no place here.
abbrev pub owner : Cell → Option (Option Proc)
owner (live (chr_arg seq svc_start_handle)) = some (some (chr_proc seq))
owner (live (dsc_arg seq chr_val_handle)) = some (some (dsc_proc seq))
owner freed = some none
owner freed_twice = none

map-set {ℓ κ} :
    {A : Type ℓ} {B : Type κ} (f : A → B) (xs : List A) (i : ℕ) (v : A)
    → map f (set xs i v) ≡ set (map f xs) i (f v)
map-set f [] i v = refl
map-set f (x ∷ xs) zero v = refl
map-set f (x ∷ xs) (suc i) v = ap (λ l. f x ∷ l) (map-set f xs i v)

-- A block that was filled and perhaps freed again.
free_refused-append :
    (rc : ℤ) (heap : Heap) (block : Block) (proc : Proc)
    → owner (live block) ≡ some (some proc)
    → map owner (free_refused rc (length heap) (heap ++ (live block ∷ [])))
      ≡ map owner heap ++ (some (started rc proc) ∷ [])
unfolding free_refused free
free_refused-append rc [] block proc e = ground arith
free_refused-append rc (b ∷ heap) block proc e =
    ground (arith, free_refused-append rc heap block proc e)

-- The block of a discovery that has not ended.
get-map :
    (heap : Heap) (i : ℕ) (proc : Proc)
    → get_elem? (map owner heap) i ≡ some (some (some proc))
    → (block : Block) × (get_elem? heap i ≡ some (live block))
      × (owner (live block) ≡ some (some proc))
get-map [] i proc h = absurd (ground arith)
get-map (live block ∷ heap) zero proc h = (block, refl, ground arith)
get-map (freed ∷ heap) zero proc h = absurd (ground arith)
get-map (freed_twice ∷ heap) zero proc h = absurd (ground arith)
get-map (b ∷ heap) (suc i) proc h = get-map heap i proc h

get-some {ℓ} :
    {A : Type ℓ} (xs : List A) (i : ℕ) (x : A)
    → get_elem? xs i ≡ some x
    → get_elem? (map some xs) i ≡ some (some x)
get-some [] i x h = absurd (ground arith)
get-some (y ∷ xs) zero x h = ground arith
get-some (y ∷ xs) (suc i) x h = get-some xs i x h

free-live :
    (heap : Heap) (i : ℕ) (block : Block)
    → get_elem? heap i ≡ some (live block)
    → map owner (free i heap) ≡ set (map owner heap) i (some none)
unfolding free
free-live [] i block h = absurd (ground arith)
free-live (live b ∷ heap) zero block h = refl
free-live (freed ∷ heap) zero block h = absurd (ground arith)
free-live (freed_twice ∷ heap) zero block h = absurd (ground arith)
free-live (b ∷ heap) (suc i) block h = ap (λ l. owner b ∷ l) (free-live heap i block h)

set-same {ℓ} :
    {A : Type ℓ} (xs : List A) (i : ℕ) (v : A) → get_elem? xs i ≡ some v → set xs i v ≡ xs
set-same [] i v h = refl
set-same (x ∷ xs) zero v h = ground arith
set-same (x ∷ xs) (suc i) v h = ap (λ l. x ∷ l) (set-same xs i v h)

-- What a report of the host does with the block of its discovery.
reported :
    (heap : Heap) (procs : List (Option Proc)) (arg : ℕ) (status : ℤ) (proc : Proc) (block : Block)
    → map owner heap ≡ map some procs
    → get_elem? procs arg ≡ some (some proc)
    → get_elem? heap arg ≡ some (live block)
    → map owner (if eqz status (pos 0) then heap else free arg heap)
      ≡ map some (set procs arg (started status proc))
reported heap procs arg status proc block e h there = elim (Bool-cases (eqz status (pos 0))) [
  | inl b ↦ rw b (e ∙ ap (map some) (sym (set-same procs arg (some proc) h)))
  | inr b ↦ rw b (
      free-live heap arg block there
      ∙ ap (λ l. set l arg (some none)) e
      ∙ sym (map-set some procs arg none))
]

disc_chr_cb-eq :
    (heap : Heap) (conn_handle arg seq : ℕ) (status : ℤ) (chr : GattChr) (block : Block)
    → get_elem? heap arg ≡ some (live block)
    → owner (live block) ≡ some (some (chr_proc seq))
    → disc_chr_cb conn_handle status chr arg heap
      ≡ some (
        disc_chr_event conn_handle status chr seq,
        if eqz status (pos 0) then heap else free arg heap,
      )
unfolding disc_chr_cb
disc_chr_cb-eq heap conn_handle arg seq status chr (chr_arg s h) there e = ground arith
disc_chr_cb-eq heap conn_handle arg seq status chr (dsc_arg s h) there e = absurd (ground arith)

disc_dsc_cb-eq :
    (heap : Heap) (conn_handle arg chr_def_handle seq : ℕ) (status : ℤ) (dsc : GattDsc)
    (block : Block)
    → get_elem? heap arg ≡ some (live block)
    → owner (live block) ≡ some (some (dsc_proc seq))
    → disc_dsc_cb conn_handle status chr_def_handle dsc arg heap
      ≡ some (
        disc_dsc_event conn_handle status chr_def_handle dsc seq,
        if eqz status (pos 0) then heap else free arg heap,
      )
unfolding disc_dsc_cb
disc_dsc_cb-eq heap conn_handle arg chr_def_handle seq status dsc (dsc_arg s h) there e =
    ground arith
disc_dsc_cb-eq heap conn_handle arg chr_def_handle seq status dsc (chr_arg s h) there e =
    absurd (ground arith)

start_owned :
    (rc : ℤ) (heap : Heap) (procs : List (Option Proc)) (block : Block) (proc : Proc)
    → owner (live block) ≡ some (some proc)
    → map owner heap ≡ map some procs
    → map owner (free_refused rc (length heap) (heap ++ (live block ∷ [])))
      ≡ map some (procs ++ (started rc proc ∷ []))
start_owned rc heap procs block proc e owned =
    free_refused-append rc heap block proc e
    ∙ ap (λ l. l ++ (some (started rc proc) ∷ [])) owned
    ∙ sym (map-append some procs (started rc proc ∷ []))

-- In every interleaving of discoveries, the blocks of the heap that are not freed are exactly those of
-- the discoveries that the host accepted and has not ended, each with the sequence number of its
-- request: no block is leaked, freed twice or freed too early. Every other block was freed exactly once.
pub Runs-owner :
    (host : GattHost) (heap : Heap) (procs : List (Option Proc))
    → Runs host heap procs
    → map owner heap ≡ map some procs
unfolding gattc_disc_all_chrs gattc_disc_chr_uuid gattc_disc_all_dscs
Runs-owner host _ _ begin = refl
Runs-owner host _ _ (disc_all_chrs {heap} {procs} seq req r) =
    let rc =
      host.disc_all_chrs req.conn_handle req.start_attr_handle req.end_attr_handle (length heap) in
    start_owned rc heap procs (chr_arg seq req.start_attr_handle) (chr_proc seq) refl
      (Runs-owner host heap procs r)
Runs-owner host _ _ (disc_chr_uuid {heap} {procs} seq req r) =
    let rc =
      host.disc_chrs_by_uuid req.conn_handle req.start_handle req.end_handle req.chr_uuid
        (length heap) in
    start_owned rc heap procs (chr_arg seq req.start_handle) (chr_proc seq) refl
      (Runs-owner host heap procs r)
Runs-owner host _ _ (disc_all_dscs {heap} {procs} seq req r) =
    let rc =
      host.disc_all_dscs req.conn_handle req.start_attr_handle req.end_attr_handle (length heap) in
    start_owned rc heap procs (dsc_arg seq req.start_attr_handle) (dsc_proc seq) refl
      (Runs-owner host heap procs r)
Runs-owner host _ _
      (chr_result {heap} {heap'} {procs} seq conn_handle arg status chr evt r there cb) =
    let owned = Runs-owner host heap procs r in
    let (block, in_heap, is) =
      get-map heap arg (chr_proc seq) (rw owned (get-some procs arg _ there)) in
    let after : heap' ≡ (if eqz status (pos 0) then heap else free arg heap) =
      ground (arith, cb, disc_chr_cb-eq heap conn_handle arg seq status chr block in_heap is) in
    ap (map owner) after ∙ reported heap procs arg status (chr_proc seq) block owned there in_heap
Runs-owner host _ _
      (dsc_result {heap} {heap'} {procs} seq conn_handle arg def_handle status dsc evt r there cb) =
    let owned = Runs-owner host heap procs r in
    let (block, in_heap, is) =
      get-map heap arg (dsc_proc seq) (rw owned (get-some procs arg _ there)) in
    let after : heap' ≡ (if eqz status (pos 0) then heap else free arg heap) =
      ground (
        arith,
        cb,
        disc_dsc_cb-eq heap conn_handle arg def_handle seq status dsc block in_heap is,
      ) in
    ap (map owner) after ∙ reported heap procs arg status (dsc_proc seq) block owned there in_heap

-- A report for a discovery of characteristics that has not ended never reads a freed block: the callback
-- returns, and the event that it sends has the operation of an event, the type of its fields, and the sequence
-- number of the request that started the discovery.
pub disc_chr_cb-safe :
    (host : GattHost) (heap : Heap) (procs : List (Option Proc)) (seq conn_handle arg : ℕ)
    (status : ℤ) (chr : GattChr)
    → Runs host heap procs
    → get_elem? procs arg ≡ some (some (chr_proc seq))
    → (evt : Evt) × (heap' : Heap) × (disc_chr_cb conn_handle status chr arg heap
        ≡ some (evt, heap'))
      × (evt.hdr.op ≡ op_evt)
      × (evt.hdr.type ≡ type_number evt.body)
      × (evt.hdr.seq ≡ seq)
unfolding disc_chr_event type_number
disc_chr_cb-safe host heap procs seq conn_handle arg status chr r there =
    let owned = Runs-owner host heap procs r in
    let (block, in_heap, is) =
      get-map heap arg (chr_proc seq) (rw owned (get-some procs arg _ there)) in
    (_, _, disc_chr_cb-eq heap conn_handle arg seq status chr block in_heap is, refl, refl, refl)
