-- ===== src/Svc/Descriptors.antt =====
-- The two loops that fill a block: the characteristics of a service, and the descriptors of a
-- characteristic, whose destination is `out_chr->dscs + out_chr->num_dscs`.
use blehostd.Prelude.{
  ℕ, ◌≤◌, ◌≡◌, ◌≢◌, refl, Option, none, List, [], ◌∷◌, arith, length, length-replicate,
}
use blehostd.Prelude.Int.{ℤ, pos}
use blehostd.Status.{ok}
use blehostd.Cjson.{Cjson}
use blehostd.Json.{json_int_bounds, json_arr}
use blehostd.Uuid.{Uuid, json_uuid}
use blehostd.Proto.Maps.{HostConsts}
use blehostd.Svc.Blocks.{Decoded, undefined, malloc, fill}
use blehostd.Svc.Fill.{traverse, fill-traverse}
use blehostd.Svc.{json_dsc, json_dscs, json_chr, json_chrs, Dsc}

-- A destination behind the end of the block.
fill_behind :
    {I A : Type 0} (decode : I → Decoded A) (ix : ℕ → ℕ) (items : List I) (block : List (Option A))
    (i : ℕ)
    → items ≢ []
    → length block ≤ ix i
    → fill decode ix items block i ≡ undefined
unfolding fill
fill_behind decode ix [] block i ne h = absurd (ne refl)
fill_behind decode ix (item ∷ items) block i ne h = ground arith

length-malloc : (n : ℕ) → length (malloc {A = Dsc} n) ≡ n
unfolding malloc
length-malloc n = length-replicate n none

module _ (J : Cjson) (uuid_str_len : ℕ) (c : HostConsts) where
  open J use {Item, children}

  json_dscs-undefined :
      (arr : Item) → children arr ≢ [] → json_dscs J uuid_str_len c (ok arr) ≡ undefined
  unfolding json_dscs malloc
  json_dscs-undefined arr ne =
      let n = length (children arr) in
      let block : List (Option Dsc) = malloc n in
      rw (
        fill_behind (json_dsc J uuid_str_len c) (λ _. n) (children arr) block 0 ne
          (omega (arith, length-malloc n)))

  -- `bhd_json_chr` on a characteristic with a readable UUID, flags and key size, and with an array of
  -- descriptors that is not empty, writes outside the block that it allocated for the descriptors.
  pub json_chr-undefined :
      (parent arr : Item) (uuid : Uuid) (flags size : ℤ)
      → json_uuid J uuid_str_len parent "uuid" ≡ ok uuid
      → json_int_bounds J parent "flags" (pos 0) (pos 0xffff) ≡ ok flags
      → json_int_bounds J parent "min_key_size" (pos 0) (pos 255) ≡ ok size
      → json_arr J parent "descriptors" ≡ ok arr
      → children arr ≢ []
      → json_chr J uuid_str_len c parent ≡ undefined
  unfolding json_chr
  json_chr-undefined parent arr uuid flags size u f s a ne =
      rw (u, f, s, a) (rw (json_dscs-undefined arr ne))

  -- The characteristics of a service are decoded in order, up to the first error, and no write leaves
  -- the block that was allocated for them.
  pub json_chrs-traverse :
      (arr : Item)
      → json_chrs J uuid_str_len c (ok arr) ≡ traverse (json_chr J uuid_str_len c) (children arr)
  unfolding json_chrs
  json_chrs-traverse arr = fill-traverse (json_chr J uuid_str_len c) (children arr)
