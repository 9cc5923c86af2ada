-- ===== src/BoardMemory.antt =====
-- The reserved memory of the boards that have no kernel to keep it: fsw/mcp750-vxworks/src,
-- fsw/pc-rtems/src and fsw/shared-freertos/src, cfe_psp_memory.c in each. Here: addresses, blocks
-- and the three layouts. A pointer is an address, NULL is 0.
pub mod Layout
pub mod Sizes
mod Tests
use fs_nasa_cfs_psp.Base.{
  ℕ, zero, suc, bit_and_low, bit_and_high, ◌+◌, ◌-◌, ◌*◌, ◌/◌, ◌%◌, ◌^◌, ◌≤◌, ◌<◌, min, bit_and,
  bit_or, ◌≡◌, refl, sym, ap, subst, ◌∙◌, ◌≢◌, ◌↔◌, ◌⊎◌, inl, inr, Bool, true, false, not, ◌&&◌,
  ◌||◌, Option, none, some, List, [], ◌∷◌, ◌++◌, map, arith, ltb, leb, ◌==◌, if◌then◌else◌, ltb→lt,
  lt→ltb, leb→le, tests, Bool-cases, Option-cases, length, get_elem?, get_or, set, take, drop,
  replicate, length-append, length-set, length-replicate, length-take, length-drop, drop-append,
  take-append, get_elem?-append_left, get_elem?-append_right, get_elem?-take, get_elem?-drop,
  u32_mod, u64_mod, add32, sub32,
}
use fs_nasa_cfs_psp.MemRange.{
  MemTable, zero_entry, mem_ram, size_dword, attr_readwrite, mem_range_set,
}

-- What the processor and its compiler fix: the bits of a `cpuaddr`, those below the alignment of
-- CFE_PSP_MEMALIGN_MASK, and the sizes of the two structures.
pub record Machine : Type 0 where
  pub address_bits : ℕ
  pub align_bits : ℕ
  pub boot_record_size : ℕ
  pub exception_storage_size : ℕ

-- The `uint32` sizes that GLOBAL_CONFIGDATA gives.
pub record BoardConfig : Type 0 where
  pub reset_area_size : ℕ
  pub ram_disk_sector_size : ℕ
  pub ram_disk_total_sectors : ℕ
  pub cds_size : ℕ
  pub user_reserved_size : ℕ

-- `CFE_PSP_MemoryBlock_t`.
pub record Block : Type 0 where
  pub block_ptr : ℕ
  pub block_size : ℕ

-- `CFE_PSP_ReservedMemoryMap_t`, without its memory table.
pub record MemoryMap : Type 0 where
  pub boot_ptr : ℕ
  pub exception_storage_ptr : ℕ
  pub reset_memory : Block
  pub volatile_disk_memory : Block
  pub cds_memory : Block
  pub user_reserved_memory : Block

-- What a set-up leaves: the map, the block of all the areas, and the memory ranges.
pub record Setup : Type 0 where
  pub memory_map : MemoryMap
  pub reserved_block : Block
  pub mem_table : List MemTable

-- An addition of addresses.
abbrev pub advance : Machine → ℕ → ℕ → ℕ
advance m a n = (a + n) % 2 ^ m.address_bits

-- `(n + CFE_PSP_MEMALIGN_MASK) & ~CFE_PSP_MEMALIGN_MASK`.
unfoldable pub align : Machine → ℕ → ℕ
align m n =
    let mask = 2 ^ m.align_bits - 1 in bit_and (advance m n mask) (2 ^ m.address_bits - 1 - mask)

-- RamDiskSectorSize * RamDiskTotalSectors, a product of two `uint32`.
abbrev pub disk_size : BoardConfig → ℕ
disk_size c = (c.ram_disk_sector_size * c.ram_disk_total_sectors) % u32_mod

abbrev pub block : ℕ → ℕ → Block
block a n = record { block_ptr = a; block_size = n }

abbrev ram_range : ℕ → MemTable
ram_range n = record {
  memory_type = mem_ram;
  start_addr = 0;
  size = n;
  word_size = size_dword;
  attributes = attr_readwrite;
}

-- The table as the `memset` of the whole map leaves it.
abbrev cleared_table : List MemTable → List MemTable
cleared_table table = replicate (length table) zero_entry

-- mcp750: the areas follow each other from `sysMemTop`, each end rounded up.
unfoldable pub mcp750_setup : Machine → BoardConfig → ℕ → List MemTable → Setup
unfolding align
mcp750_setup m c start_addr table =
    let exceptions = align m (advance m start_addr m.boot_record_size) in
    let reset = align m (advance m exceptions m.exception_storage_size) in
    let disk = align m (advance m reset c.reset_area_size) in
    let cds = align m (advance m disk (disk_size c)) in
    let user = align m (advance m cds c.cds_size) in
    let end_addr = align m (advance m user c.user_reserved_size) in
    record {
      memory_map = record {
        boot_ptr = start_addr;
        exception_storage_ptr = exceptions;
        reset_memory = block reset c.reset_area_size;
        volatile_disk_memory = block disk (disk_size c);
        cds_memory = block cds c.cds_size;
        user_reserved_memory = block user c.user_reserved_size;
      };
      reserved_block =
          block start_addr ((end_addr + 2 ^ m.address_bits - start_addr) % 2 ^ m.address_bits);
      mem_table = (mem_range_set (cleared_table table) 0 (ram_range 0x8000000)).1;
    }

-- pc-rtems: the sizes are rounded up first, and `allocate` is `malloc`, with 0 where it fails and
-- the program aborts. The first structure holds the boot record and, `fixed_offset` bytes after
-- it, the exception storage; `fixed_size` is its size.
unfoldable pub rtems_required_size : Machine → BoardConfig → ℕ → ℕ
unfolding align
rtems_required_size m c fixed_size =
    advance m
      (advance m
        (advance m (advance m (align m fixed_size) (align m c.reset_area_size))
          (align m (disk_size c)))
        (align m c.cds_size))
      (align m c.user_reserved_size)

unfoldable pub rtems_setup : Machine → BoardConfig → ℕ → ℕ → (ℕ → ℕ) → List MemTable → Option Setup
unfolding align rtems_required_size
rtems_setup m c fixed_offset fixed_size allocate table =
    let required = rtems_required_size m c fixed_size in
    let start_addr = allocate required in
    let reset = advance m start_addr (align m fixed_size) in
    let disk = advance m reset (align m c.reset_area_size) in
    let cds = advance m disk (align m (disk_size c)) in
    let user = advance m cds (align m c.cds_size) in
    if start_addr == 0
    then none
    else some (record {
      memory_map = record {
        boot_ptr = start_addr;
        exception_storage_ptr = start_addr + fixed_offset;
        reset_memory = block reset c.reset_area_size;
        volatile_disk_memory = block disk (disk_size c);
        cds_memory = block cds c.cds_size;
        user_reserved_memory = block user c.user_reserved_size;
      };
      reserved_block = block start_addr required;
      mem_table = (mem_range_set table 0 (ram_range (2 ^ m.address_bits - 1))).1;
    })

-- The FreeRTOS boards: the sizes are rounded up, and the areas follow each other in the static
-- array of CFE_PSP_RESERVED_MEMORY_SIZE bytes at `array`. `none` is the panic for an array too
-- small, whose test takes the size as an `unsigned int`.
unfoldable pub freertos_required_size : Machine → BoardConfig → ℕ
unfolding align
freertos_required_size m c =
    advance m
      (advance m
        (advance m
          (advance m (advance m (align m m.boot_record_size) (align m m.exception_storage_size))
            (align m c.reset_area_size))
          (align m (disk_size c)))
        (align m c.cds_size))
      (align m c.user_reserved_size)

unfoldable pub freertos_setup : Machine → BoardConfig → ℕ → ℕ → Option MemoryMap
unfolding align freertos_required_size
freertos_setup m c array array_size =
    let exceptions = advance m array (align m m.boot_record_size) in
    let reset = advance m exceptions (align m m.exception_storage_size) in
    let disk = advance m reset (align m c.reset_area_size) in
    let cds = advance m disk (align m (disk_size c)) in
    let user = advance m cds (align m c.cds_size) in
    if ltb array_size (freertos_required_size m c % u32_mod)
    then none
    else some (record {
      boot_ptr = array;
      exception_storage_ptr = exceptions;
      reset_memory = block reset c.reset_area_size;
      volatile_disk_memory = block disk (disk_size c);
      cds_memory = block cds c.cds_size;
      user_reserved_memory = block user c.user_reserved_size;
    })
