-- ===== src/ReservedMemory/Tests.antt =====
-- The critical data store on a small block.
use fs_nasa_cfs_psp.Base.{ℕ, ◌-◌, ◌^◌, ◌≡◌, refl, none, some, List, [], ◌∷◌, arith, length}
use fs_nasa_cfs_psp.Status.{success}
use fs_nasa_cfs_psp.ReservedMemory.{write_to_cds, read_from_cds}
use fs_nasa_cfs_psp.ReservedMemory.Cds.{cds_wraps}

abbrev store : List ℕ
store = 10 ∷ 11 ∷ 12 ∷ 13 ∷ 14 ∷ []

abbrev bytes : List ℕ
bytes = 1 ∷ 2 ∷ []

written : write_to_cds 5 store (some bytes) 3 2 ≡ some (success, 10 ∷ 11 ∷ 12 ∷ 1 ∷ 2 ∷ [])
unfolding write_to_cds
written = refl

cds_wraps_example :
    (write_to_cds (length store) store (some bytes) 2 (2 ^ 32 - 1) ≡ none)
    × (read_from_cds (length store) store (some bytes) 2 (2 ^ 32 - 1) ≡ none)
cds_wraps_example = cds_wraps store bytes 2 (2 ^ 32 - 1) (omega arith) (omega arith) (omega arith)
