-- ===== src/Tests/Registry.antt =====
-- Examples for the service registry.
use blehostd.Prelude.{◌≡◌, ◌⊎◌, Option, none, some, List, [], ◌∷◌, arith}
use blehostd.Status.{Rc, success, fail, hs_enomem}
use blehostd.Uuid.{uuid16}
use blehostd.Svc.{Svc}
use blehostd.Gatts.{Gatts, add_svcs, verify_resource_cnt}
use blehostd.Gatts.Bounds.{IsWithin, add_svcs-IsWithin}
use blehostd.Gatts.Access.{Access, initial, set_access_result, sem_pend, reset_status}
use blehostd.Tests.Data.{empty_tables}

abbrev pub battery : List Svc
battery =
    record {
      type = 1;
      uuid = uuid16 0x180f;
      chrs =
          record {
            uuid = uuid16 0x2a19;
            flags = 2;
            min_key_size = 0;
            dscs = record { uuid = uuid16 0x2902; att_flags = 1; min_key_size = 0 } ∷ [];
          }
          ∷ [];
    }
    ∷ []

add_svcs-IsWithin_example :
    (status : Option Rc) × (g' : Gatts) × (add_svcs battery empty_tables ≡ some (status, g'))
    × IsWithin g'
    × ((status ≡ none) × (verify_resource_cnt empty_tables battery ≡ success)
        ⊎ (status ≡ some (fail hs_enomem))
          × (verify_resource_cnt empty_tables battery ≡ fail hs_enomem)
          × (g' ≡ empty_tables))
add_svcs-IsWithin_example = add_svcs-IsWithin battery empty_tables (ground arith)

-- A pend that timed out, and a status that came before the reset.
abbrev crossed : Access
crossed = reset_status (set_access_result 512 7 none (sem_pend initial).1).1
