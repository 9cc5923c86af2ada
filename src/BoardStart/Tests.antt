-- ===== src/BoardStart/Tests.antt =====
-- The theorems on the boards' starts, on a small map.
use fs_nasa_cfs_psp.Base.{
  ℕ, ◌+◌, ◌%◌, ◌≤◌, ◌<◌, ◌≡◌, refl, ◌≢◌, ◌⊎◌, true, some, [], arith, get_elem?,
}
use fs_nasa_cfs_psp.Status.{success}
use fs_nasa_cfs_psp.DirectMemory.{Memory}
use fs_nasa_cfs_psp.ReservedMemory.{rst_type_processor, rst_type_poweron}
use fs_nasa_cfs_psp.ReservedMemory.Cds.{Outside}
use fs_nasa_cfs_psp.BoardMemory.{Machine, BoardConfig, Block, MemoryMap, Setup, block}
use fs_nasa_cfs_psp.BoardMemory.Layout.{areas}
use fs_nasa_cfs_psp.BoardStart.{
  bsp_reset_type, freertos_init, Blrr, mcp750_reset, mcp750_start, mcp750_restart, ResetSr,
  mpfs_start, mpfs_restart, HlpResetTypes, rst_subtype_reset_command,
}
use fs_nasa_cfs_psp.BoardStart.Init.{mcp750_start-cases}
use fs_nasa_cfs_psp.BoardStart.Clear.{InBlock, freertos_init-cases}
use fs_nasa_cfs_psp.BoardStart.Resets.{mcp750_start-mcp750_restart, mpfs_start-mpfs_restart}

abbrev machine : Machine
machine = record {
  address_bits = 32;
  align_bits = 2;
  boot_record_size = 4;
  exception_storage_size = 8;
}

abbrev config : BoardConfig
config = record {
  reset_area_size = 4;
  ram_disk_sector_size = 2;
  ram_disk_total_sectors = 2;
  cds_size = 5;
  user_reserved_size = 4;
}

abbrev areas_map : MemoryMap
areas_map = record {
  boot_ptr = 100;
  exception_storage_ptr = 104;
  reset_memory = block 112 4;
  volatile_disk_memory = block 116 4;
  cds_memory = block 120 5;
  user_reserved_memory = block 128 4;
}

abbrev setup : Setup
setup = record { memory_map = areas_map; reserved_block = block 100 32; mem_table = [] }

abbrev memory : Memory
memory x = x % 256

abbrev blrr : Blrr
blrr = record { pwron = 1; pbrst = 2; fbtn = 4; wdt2 = 8; swsrst = 16; swhrst = 32 }

abbrev sr : ResetSr
sr = record { cpu_softcb_bus = 128; debuger = 16; wdog = 32; fabric = 8 }

abbrev hlp : HlpResetTypes
hlp = record { poweron = 0; watchdog = 1; software = 2; external = 3; debug = 4 }

abbrev type_of : (ℕ × ℕ) × Memory → ℕ
type_of p = p.0.0

mcp750_start-cases_example :
    let t = (mcp750_start blrr true setup 8 memory).1 in
    ((type_of (mcp750_start blrr true setup 8 memory) ≡ rst_type_processor)
      × (bsp_reset_type true areas_map t ≡ rst_type_poweron)
      × ((x : ℕ) → Outside 100 4 x → t x ≡ memory x))
    ⊎ ((type_of (mcp750_start blrr true setup 8 memory) ≢ rst_type_processor)
        × (bsp_reset_type true areas_map t ≡ rst_type_processor)
        × ((x : ℕ) → 100 + 4 ≤ x → x < 100 + 32 → t x ≡ 0)
        × ((x : ℕ) → Outside 100 32 x → t x ≡ memory x))
mcp750_start-cases_example = mcp750_start-cases blrr true setup 8 memory refl (omega arith)

freertos_init-cases_example :
    let t = (freertos_init machine config true areas_map rst_type_poweron memory).1 in
    ((freertos_init machine config true areas_map rst_type_poweron memory).0 ≡ success)
    × (((rst_type_poweron ≡ rst_type_poweron)
          × (bsp_reset_type true areas_map t ≡ rst_type_processor)
          × ((x : ℕ) → InBlock (block 116 4) x → t x ≡ memory x)
          × ((x i : ℕ) (area : Block)
              → i ≢ 0
              → i ≢ 3
              → get_elem? (areas machine areas_map) i ≡ some area
              → InBlock area x
              → t x ≡ 0))
        ⊎ ((rst_type_poweron ≢ rst_type_poweron)
            × (bsp_reset_type true areas_map t ≡ rst_type_poweron)
            × ((x : ℕ) → Outside 100 4 x → t x ≡ memory x)))
freertos_init-cases_example =
    freertos_init-cases machine config true areas_map memory 100 132
      (
        omega arith,
        (omega arith, (omega arith, (omega arith, (omega arith, (omega arith, omega arith))))),
      )
      refl refl refl (omega arith) rst_type_poweron

mcp750_start-mcp750_restart_example :
    (mcp750_start blrr true setup 32 (mcp750_restart true areas_map 1 memory).0).0
    ≡ (rst_type_processor, rst_subtype_reset_command)
mcp750_start-mcp750_restart_example =
    mcp750_start-mcp750_restart blrr true setup 32 1 memory (refl, refl, refl, refl, refl, refl)

mpfs_start-mpfs_restart_example :
    (mpfs_start sr machine config true areas_map 128 (mpfs_restart true areas_map 1 memory).0).0
    ≡ (rst_type_poweron, rst_subtype_reset_command)
mpfs_start-mpfs_restart_example =
    mpfs_start-mpfs_restart sr machine config true areas_map 128 1 memory (omega arith) refl

-- The front panel's button is reported with the subtype of a special command.
front_button : mcp750_reset blrr 4 0 ≡ (rst_type_poweron, 3)
unfolding mcp750_reset
front_button = refl
