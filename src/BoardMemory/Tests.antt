-- ===== src/BoardMemory/Tests.antt =====
-- The theorems on the boards' layouts, at concrete sizes.
use fs_nasa_cfs_psp.Base.{ℕ, ◌+◌, ◌≤◌, ◌<◌, ◌≡◌, refl, ◌⊎◌, none, some, List, arith, replicate}
use fs_nasa_cfs_psp.MemRange.{MemTable, zero_entry}
use fs_nasa_cfs_psp.BoardMemory.{
  Machine, BoardConfig, MemoryMap, Setup, align, mcp750_setup, rtems_required_size,
  freertos_required_size, freertos_setup,
}
use fs_nasa_cfs_psp.BoardMemory.Layout.{Ordered, Aligned, areas, total_size, mcp750_setup-Ordered}
use fs_nasa_cfs_psp.BoardMemory.Sizes.{freertos_setup-Ordered}

abbrev machine : Machine
machine = record {
  address_bits = 32;
  align_bits = 5;
  boot_record_size = 16;
  exception_storage_size = 100;
}

abbrev config : BoardConfig
config = record {
  reset_area_size = 70;
  ram_disk_sector_size = 16;
  ram_disk_total_sectors = 4;
  cds_size = 40;
  user_reserved_size = 10;
}

abbrev table : List MemTable
table = replicate 2 zero_entry

abbrev on_mcp750 : Setup
on_mcp750 = mcp750_setup machine config 0x1000 table

mcp750_setup-Ordered_example :
    (on_mcp750.reserved_block.block_ptr ≡ 0x1000)
    × Ordered 0x1000
        (areas machine on_mcp750.memory_map)
        (0x1000 + on_mcp750.reserved_block.block_size)
    × Aligned 32 (areas machine on_mcp750.memory_map)
    × (on_mcp750.reserved_block.block_size ≤ total_size machine config + 192)
mcp750_setup-Ordered_example =
    mcp750_setup-Ordered machine 27 refl config 0x1000 table refl (omega arith)

-- The places that the mcp750's set-up gives.
mcp750_cds : on_mcp750.memory_map.cds_memory ≡ record { block_ptr = 0x1140; block_size = 40 }
unfolding mcp750_setup align
mcp750_cds = refl

abbrev required : ℕ
required = rtems_required_size machine config 120

abbrev allocate : ℕ → ℕ
allocate n = 0x2000

freertos_setup-Ordered_example :
    let result = freertos_setup machine config 0x2000 1024 in
    ((1024 < freertos_required_size machine config) × (result ≡ none))
    ⊎ ((s : MemoryMap) × (result ≡ some s) × Ordered 0x2000 (areas machine s) (0x2000 + 1024))
unfolding freertos_required_size align
freertos_setup-Ordered_example =
    freertos_setup-Ordered machine 27 refl config 0x2000 1024 (omega arith) (omega arith)
      (omega arith)

-- An array that is too small.
freertos_panic : freertos_setup machine config 0x2000 100 ≡ none
unfolding freertos_setup freertos_required_size align
freertos_panic = refl
