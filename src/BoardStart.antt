-- ===== src/BoardStart.antt =====
-- Starts and restarts of the boards: cfe_psp_start.c, cfe_psp_support.c and
-- CFE_PSP_InitProcessorReservedMemory of cfe_psp_memory.c in fsw/mcp750-vxworks/src,
-- fsw/pc-rtems/src, fsw/shared-freertos/src, fsw/mpfs-discovery-freertos/src and
-- fsw/noelv-freertos/src. The first word of the boot record is `bsp_reset_type`.
pub mod Init
pub mod Clear
pub mod Resets
mod Tests
use fs_nasa_cfs_psp.Base.{
  ℕ, zero, suc, bit_and_low, bit_and_high, ◌+◌, ◌-◌, ◌*◌, ◌/◌, ◌%◌, ◌^◌, ◌≤◌, ◌<◌, min, bit_and,
  bit_or, ◌≡◌, refl, sym, ap, subst, ◌∙◌, ◌≢◌, ◌↔◌, ◌⊎◌, inl, inr, Bool, true, false, not, ◌&&◌,
  ◌||◌, Option, none, some, List, [], ◌∷◌, ◌++◌, map, arith, ltb, leb, ◌==◌, if◌then◌else◌, ltb→lt,
  lt→ltb, leb→le, tests, Bool-cases, Option-cases, length, get_elem?, get_or, set, take, drop,
  replicate, length-append, length-set, length-replicate, length-take, length-drop, drop-append,
  take-append, get_elem?-append_left, get_elem?-append_right, get_elem?-take, get_elem?-drop,
  u32_mod, u64_mod, add32, sub32,
}
use fs_nasa_cfs_psp.Status.{Status, success}
use fs_nasa_cfs_psp.DirectMemory.{Memory, load32, store32}
use fs_nasa_cfs_psp.ReservedMemory.{rst_type_processor, rst_type_poweron}
use fs_nasa_cfs_psp.BoardMemory.{Machine, BoardConfig, Block, MemoryMap, Setup}

-- Reset subtypes, fsw/inc/cfe_psp.h.
abbrev pub rst_subtype_power_cycle : ℕ
rst_subtype_power_cycle = 1

abbrev pub rst_subtype_push_button : ℕ
rst_subtype_push_button = 2

abbrev pub rst_subtype_hw_watchdog : ℕ
rst_subtype_hw_watchdog = 4

abbrev pub rst_subtype_reset_command : ℕ
rst_subtype_reset_command = 5

abbrev pub rst_subtype_undefined_reset : ℕ
rst_subtype_undefined_reset = 7

-- `memset` of `n` bytes to 0.
abbrev pub clear_bytes : Memory → ℕ → ℕ → Memory
clear_bytes m a n x = if leb a x && ltb x (a + n) then 0 else m x

abbrev pub bsp_reset_type : Bool → MemoryMap → Memory → ℕ
bsp_reset_type little r m = load32 little m r.boot_ptr

abbrev pub set_bsp_reset_type : Bool → MemoryMap → Memory → ℕ → Memory
set_bsp_reset_type little r m v = store32 little m r.boot_ptr v

-- `register & mask`, as a condition.
abbrev pub has_bit : ℕ → ℕ → Bool
has_bit register mask = not (bit_and register mask == 0)

-- CFE_PSP_InitProcessorReservedMemory.
unfoldable pub mcp750_init : Bool → Setup → ℕ → Memory → Status × Memory
mcp750_init little s restart_type m =
    if not (restart_type == rst_type_processor)
    then (
      success,
      set_bsp_reset_type little s.memory_map
          (clear_bytes m s.reserved_block.block_ptr s.reserved_block.block_size) rst_type_processor,
    )
    else (success, m)

unfoldable pub rtems_init : Setup → ℕ → Memory → Status × Memory
rtems_init s restart_type m =
    (success, clear_bytes m s.reserved_block.block_ptr s.reserved_block.block_size)

-- All areas but the volatile disk.
abbrev pub freertos_clear : Machine → BoardConfig → MemoryMap → Memory → Memory
freertos_clear machine c r m =
    let m1 = clear_bytes m r.cds_memory.block_ptr c.cds_size in
    let m2 = clear_bytes m1 r.reset_memory.block_ptr c.reset_area_size in
    let m3 = clear_bytes m2 r.user_reserved_memory.block_ptr c.user_reserved_size in
    let m4 = clear_bytes m3 r.boot_ptr machine.boot_record_size in
    clear_bytes m4 r.exception_storage_ptr machine.exception_storage_size

unfoldable pub freertos_init :
    Machine → BoardConfig → Bool → MemoryMap → ℕ → Memory → Status × Memory
freertos_init machine c little r restart_type m =
    if restart_type == rst_type_poweron
    then (success, set_bsp_reset_type little r (freertos_clear machine c r m) rst_type_processor)
    else (success, set_bsp_reset_type little r m rst_type_poweron)

-- The masks SYS_REG_BLRR_* of the mcp750's reset register.
pub record Blrr : Type 0 where
  pub pwron : ℕ
  pub pbrst : ℕ
  pub fbtn : ℕ
  pub wdt2 : ℕ
  pub swsrst : ℕ
  pub swhrst : ℕ

-- Type and subtype of the reset, from the register and the `bsp_reset_type` of the boot record.
unfoldable pub mcp750_reset : Blrr → ℕ → ℕ → ℕ × ℕ
mcp750_reset b register boot_type =
    if has_bit register b.pwron
    then (rst_type_poweron, rst_subtype_power_cycle)
    else if has_bit register b.pbrst
    then (rst_type_poweron, rst_subtype_push_button)
    else if has_bit register b.fbtn
    then (rst_subtype_push_button, 3)
    else if has_bit register b.wdt2
    then (rst_type_processor, rst_subtype_hw_watchdog)
    else if has_bit register b.swsrst
    then (rst_type_processor, rst_subtype_reset_command)
    else if has_bit register b.swhrst
    then if boot_type == rst_type_poweron
      then (rst_type_poweron, rst_subtype_reset_command)
      else (rst_type_processor, rst_subtype_reset_command)
    else (rst_type_poweron, rst_subtype_undefined_reset)

-- OS_Application_Startup from the register on: what CFE_PSP_MAIN_FUNCTION is given, and the memory.
unfoldable pub mcp750_start : Blrr → Bool → Setup → ℕ → Memory → (ℕ × ℕ) × Memory
unfolding mcp750_reset mcp750_init
mcp750_start b little s register m =
    let reset = mcp750_reset b register (bsp_reset_type little s.memory_map m) in
    let prepared =
      (if reset.0 == rst_type_processor
        then set_bsp_reset_type little s.memory_map m rst_type_poweron
        else m) in
    (reset, (mcp750_init little s reset.0 prepared).1)

-- CFE_PSP_Restart: the memory at the reboot, and whether it is one with BOOT_CLEAR.
unfoldable pub mcp750_restart : Bool → MemoryMap → ℕ → Memory → Memory × Bool
mcp750_restart little r reset_type m =
    if reset_type == rst_type_poweron
    then (set_bsp_reset_type little r m rst_type_poweron, true)
    else (set_bsp_reset_type little r m rst_type_processor, false)

-- The masks RESET_SR_*_RESET_MASK of the PolarFire's reset register.
pub record ResetSr : Type 0 where
  pub cpu_softcb_bus : ℕ
  pub debuger : ℕ
  pub wdog : ℕ
  pub fabric : ℕ

unfoldable pub mpfs_reset : ResetSr → ℕ → ℕ → ℕ × ℕ
mpfs_reset b register boot_type =
    if register == 0x1ff
    then (rst_type_poweron, rst_subtype_power_cycle)
    else if has_bit register b.cpu_softcb_bus
    then if boot_type == rst_type_poweron
      then (rst_type_poweron, rst_subtype_reset_command)
      else (rst_type_processor, rst_subtype_reset_command)
    else if has_bit register b.debuger
    then (rst_type_poweron, rst_subtype_power_cycle)
    else if has_bit register b.wdog
    then (rst_type_processor, rst_subtype_hw_watchdog)
    else if has_bit register b.fabric
    then (rst_type_processor, rst_subtype_push_button)
    else (rst_type_poweron, rst_subtype_undefined_reset)

-- The register is cleared as it is read; the start ends with the memory and `RESET_SR`.
unfoldable pub mpfs_start :
    ResetSr → Machine → BoardConfig → Bool → MemoryMap → ℕ → Memory → (ℕ × ℕ) × (Memory × ℕ)
unfolding mpfs_reset freertos_init
mpfs_start b machine c little r register m =
    let reset = mpfs_reset b register (bsp_reset_type little r m) in
    (reset, ((freertos_init machine c little r reset.0 m).1, 0))

-- The memory, and the value for `MSS_RESET_CR`.
unfoldable pub mpfs_restart : Bool → MemoryMap → ℕ → Memory → Memory × ℕ
mpfs_restart little r reset_type m =
    if reset_type == rst_type_poweron
    then (set_bsp_reset_type little r m rst_type_poweron, 0xDEAD)
    else (set_bsp_reset_type little r m rst_type_poweron, 0xDEAD)

-- The codes HLP_RESET_TYPE_* of the hardware layer of the other FreeRTOS boards.
pub record HlpResetTypes : Type 0 where
  pub poweron : ℕ
  pub watchdog : ℕ
  pub software : ℕ
  pub external : ℕ
  pub debug : ℕ

unfoldable pub freertos_reset : HlpResetTypes → ℕ → ℕ × ℕ
freertos_reset h bsp_type =
    if bsp_type == h.poweron
    then (rst_type_poweron, rst_subtype_power_cycle)
    else if bsp_type == h.watchdog
    then (rst_type_processor, rst_subtype_hw_watchdog)
    else if bsp_type == h.software
    then (rst_type_processor, rst_subtype_reset_command)
    else if bsp_type == h.external
    then (rst_type_poweron, rst_subtype_push_button)
    else if bsp_type == h.debug
    then (rst_type_poweron, rst_subtype_power_cycle)
    else (rst_type_poweron, rst_subtype_undefined_reset)

-- What CFE_PSP_Restart of the NOEL-V board gives HLP_vSystemRestart.
unfoldable pub noelv_restart : HlpResetTypes → ℕ → ℕ
noelv_restart h reset_type = if reset_type == rst_type_poweron then h.poweron else h.software

unfoldable pub freertos_start :
    HlpResetTypes → Machine → BoardConfig → Bool → MemoryMap → ℕ → Memory → (ℕ × ℕ) × Memory
unfolding freertos_reset freertos_init
freertos_start h machine c little r bsp_type m =
    let reset = freertos_reset h bsp_type in (reset, (freertos_init machine c little r reset.0 m).1)
