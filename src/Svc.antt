-- ===== src/Svc.antt =====
-- The decoders of service definitions in apps/blehostd/src/bhd_util.c: `bhd_json_dsc`, `bhd_json_chr` and
-- `bhd_json_svc`, with the structs of bhd_proto.h that they fill.
pub mod Blocks
pub mod Fill
pub mod Descriptors
use blehostd.Prelude.{ℕ, ◌%◌, Option, none, some, List, [], String, Bytes, length, replicate}
use blehostd.Prelude.Int.{ℤ, pos, pos_part, to_unsigned}
use blehostd.Status.{Error, sys_enoent, Result, ok, err}
use blehostd.Cjson.{Cjson}
use blehostd.Json.{json_int_bounds, json_arr, json_kv}
use blehostd.Uuid.{Uuid, json_uuid}
use blehostd.Proto.Maps.{HostConsts, svc_type_parse}
use blehostd.Svc.Blocks.{Decoded, done, bad, or_bad, ◌>>=◌, malloc, fill, initialised}

pub record Dsc : Type 0 where
  pub uuid : Uuid
  pub att_flags : ℕ
  pub min_key_size : ℕ

pub record Chr : Type 0 where
  pub uuid : Uuid
  pub flags : ℕ
  pub min_key_size : ℕ
  pub dscs : List Dsc

pub record Svc : Type 0 where
  pub type : ℕ
  pub uuid : Uuid
  pub chrs : List Chr

-- The decoders take the JSON library, `BLE_UUID_STR_LEN` and the host's macros.
module _ (J : Cjson) (uuid_str_len : ℕ) (c : HostConsts) where
  open J use {Item, children}

  -- `bhd_arr_len`
  unfoldable pub arr_len : Item → ℕ
  arr_len arr = length (children arr)

  unfoldable pub json_dsc : Item → Decoded Dsc
  json_dsc parent = do
    uuid ← or_bad (json_uuid J uuid_str_len parent "uuid") "invalid descriptor UUID"
    att_flags ←
        or_bad (json_int_bounds J parent "att_flags" (pos 0) (pos 255))
          "invalid descriptor att_flags"
    min_key_size ←
        or_bad (json_int_bounds J parent "min_key_size" (pos 0) (pos 255))
          "invalid descriptor flags"
    done (record {
      uuid = uuid;
      att_flags = to_unsigned 256 att_flags;
      min_key_size = to_unsigned 256 min_key_size;
    })

  -- The destination of each descriptor is `out_chr->dscs + out_chr->num_dscs`.
  unfoldable pub json_dscs : Result Item → Decoded (List Dsc)
  unfolding arr_len
  json_dscs (ok arr) =
      fill json_dsc (λ _. arr_len arr) (children arr) (malloc (arr_len arr)) 0 >>= initialised
  json_dscs (err sys_enoent) = done []
  json_dscs (err e) = bad e "invalid descriptors"

  unfoldable pub json_chr : Item → Decoded Chr
  json_chr parent = do
    uuid ← or_bad (json_uuid J uuid_str_len parent "uuid") "invalid characteristic UUID"
    flags ←
        or_bad (json_int_bounds J parent "flags" (pos 0) (pos 0xffff))
          "invalid characteristic flags"
    min_key_size ←
        or_bad (json_int_bounds J parent "min_key_size" (pos 0) (pos 255))
          "invalid characteristic flags"
    dscs ← json_dscs (json_arr J parent "descriptors")
    done (record {
      uuid = uuid;
      flags = to_unsigned 0x1_0000 flags;
      min_key_size = to_unsigned 256 min_key_size;
      dscs = dscs;
    })

  -- Here the destination is `out_svc->chrs + ci`.
  unfoldable pub json_chrs : Result Item → Decoded (List Chr)
  unfolding arr_len
  json_chrs (ok arr) =
      fill json_chr (λ ci. ci) (children arr) (malloc (arr_len arr)) 0 >>= initialised
  json_chrs (err sys_enoent) = done []
  json_chrs (err e) = bad e "invalid characteristics"

  unfoldable pub json_svc : Item → Decoded Svc
  json_svc parent = do
    type ← or_bad (json_kv J (svc_type_parse c) parent "type") "invalid service type"
    uuid ← or_bad (json_uuid J uuid_str_len parent "uuid") "invalid service UUID"
    chrs ← json_chrs (json_arr J parent "characteristics")
    done (record { type = to_unsigned 256 type; uuid = uuid; chrs = chrs })
