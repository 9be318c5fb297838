-- ===== src/Tests/Discovery.antt =====
-- Examples for the GATT client: a discovery of characteristics that reports one and then ends, beside one of
-- descriptors.
use blehostd.Prelude.{◌≡◌, refl, none, some, [], ◌∷◌, map, Bytes}
use blehostd.Prelude.Int.{pos}
use blehostd.Uuid.{uuid16}
use blehostd.Proto.Numbers.{op_evt}
use blehostd.Req.Types.{DiscAllReq}
use blehostd.Enc.Evt.Kept.{type_number}
use blehostd.Enc.Send.{Evt}
use blehostd.Gattc.{
  live, freed, chr_arg, dsc_arg, Heap, free, free_refused, GattHost, GattChr, disc_chr_cb,
  disc_chr_event, gattc_disc_all_chrs, gattc_disc_all_dscs,
}
use blehostd.Gattc.Runs.{chr_proc, dsc_proc, Runs, begin, disc_all_chrs, disc_all_dscs, chr_result}
use blehostd.Gattc.Owned.{owner, Runs-owner, disc_chr_cb-safe}

abbrev pub accepting : GattHost
accepting = record {
  Mbuf = Bytes;
  mbuf_from_flat = λ b. some b;
  disc_all_svcs = λ _ _. pos 0;
  disc_svc_by_uuid = λ _ _ _. pos 0;
  disc_all_chrs = λ _ _ _ _. pos 0;
  disc_chrs_by_uuid = λ _ _ _ _ _. pos 0;
  disc_all_dscs = λ _ _ _ _. pos 0;
  write = λ _ _ _ _. pos 0;
  write_no_rsp = λ _ _ _. pos 0;
  exchange_mtu = λ _ _. pos 0;
  set_preferred_mtu = λ _. pos 0;
  notify_custom = λ _ _ _. pos 0;
}

abbrev whole_range : DiscAllReq
whole_range = record { conn_handle = 1; start_attr_handle = 1; end_attr_handle = 0xffff }

abbrev level : GattChr
level = record { def_handle = 2; val_handle = 3; properties = 2; uuid = uuid16 0x2a19 }

abbrev both : Heap
both = live (chr_arg 7 1) ∷ live (dsc_arg 8 1) ∷ []

both-Runs : Runs accepting both (some (chr_proc 7) ∷ some (dsc_proc 8) ∷ [])
unfolding gattc_disc_all_chrs gattc_disc_all_dscs free_refused
both-Runs = disc_all_dscs 8 whole_range (disc_all_chrs 7 whole_range begin)

ended : Runs accepting (freed ∷ live (dsc_arg 8 1) ∷ []) (none ∷ some (dsc_proc 8) ∷ [])
unfolding disc_chr_cb disc_chr_event free
ended =
    chr_result 7 1 0 (pos 14) level (disc_chr_event 1 (pos 14) level 7)
      (chr_result 7 1 0 (pos 0) level (disc_chr_event 1 (pos 0) level 7) both-Runs refl refl) refl
      refl

Runs-owner_example :
    map owner (freed ∷ live (dsc_arg 8 1) ∷ []) ≡ map some (none ∷ some (dsc_proc 8) ∷ [])
Runs-owner_example =
    Runs-owner accepting (freed ∷ live (dsc_arg 8 1) ∷ []) (none ∷ some (dsc_proc 8) ∷ []) ended

disc_chr_cb-safe_example :
    (evt : Evt) × (heap : Heap) × (disc_chr_cb 1 (pos 14) level 0 both ≡ some (evt, heap))
    × (evt.hdr.op ≡ op_evt)
    × (evt.hdr.type ≡ type_number evt.body)
    × (evt.hdr.seq ≡ 7)
disc_chr_cb-safe_example =
    disc_chr_cb-safe accepting both (some (chr_proc 7) ∷ some (dsc_proc 8) ∷ []) 7 1 0 (pos 14)
      level both-Runs refl
