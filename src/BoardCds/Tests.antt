-- ===== src/BoardCds/Tests.antt =====
-- The theorems on the boards' data store, on a small map.
use fs_nasa_cfs_psp.Base.{ℕ, ◌≡◌, refl, some, List, [], ◌∷◌, arith}
use fs_nasa_cfs_psp.Status.{success}
use fs_nasa_cfs_psp.DirectMemory.{Memory}
use fs_nasa_cfs_psp.BoardMemory.{Machine, MemoryMap, block}
use fs_nasa_cfs_psp.BoardMemory.Layout.{Ordered, areas}
use fs_nasa_cfs_psp.BoardCds.{window, poke, board_write_to_cds}
use fs_nasa_cfs_psp.BoardCds.Refine.{cds_bytes, board_write_to_cds-keeps}
use fs_nasa_cfs_psp.BoardCds.Client.{
  Request, write_request, read_request, Answer, serve, board_store, linux_store,
  serve-board_store-linux_store,
}

abbrev machine : Machine
machine = record {
  address_bits = 32;
  align_bits = 2;
  boot_record_size = 4;
  exception_storage_size = 8;
}

abbrev areas_map : MemoryMap
areas_map = record {
  boot_ptr = 100;
  exception_storage_ptr = 104;
  reset_memory = block 112 4;
  volatile_disk_memory = block 116 4;
  cds_memory = block 120 5;
  user_reserved_memory = block 128 4;
}

abbrev memory : Memory
memory x = x

abbrev source : List ℕ
source = 1 ∷ 2 ∷ []

-- The write of the first example.
after_write : Memory
after_write = poke memory 123 source

written : board_write_to_cds areas_map memory (some source) 3 2 ≡ some (success, after_write)
unfolding board_write_to_cds after_write
written = refl

ordered : Ordered 100 (areas machine areas_map) 132
ordered = (
  omega arith,
  (omega arith, (omega arith, (omega arith, (omega arith, (omega arith, omega arith))))),
)

board_write_to_cds-keeps_example : window after_write 128 4 ≡ window memory 128 4
board_write_to_cds-keeps_example =
    board_write_to_cds-keeps machine areas_map 100 132 memory after_write source 3 2 5
      areas_map.user_reserved_memory success ordered (omega arith) (omega arith) (omega arith) refl
      written

abbrev requests : List Request
requests =
    write_request source 3 2 ∷ read_request (0 ∷ 0 ∷ 0 ∷ []) 2 3 ∷ write_request source 4 2 ∷ []

serve-board_store-linux_store_example :
    (answers : List Answer) × (u : Memory) × (v : List ℕ) × (serve
        (board_store areas_map)
        requests
        memory
      ≡ some (answers, u))
    × (serve linux_store requests (120 ∷ 121 ∷ 122 ∷ 123 ∷ 124 ∷ []) ≡ some (answers, v))
    × (cds_bytes areas_map u ≡ v)
unfolding window
serve-board_store-linux_store_example =
    serve-board_store-linux_store areas_map requests memory (120 ∷ 121 ∷ 122 ∷ 123 ∷ 124 ∷ []) refl
      ((omega arith, omega arith), ((omega arith, omega arith), ((omega arith, omega arith), tt)))
