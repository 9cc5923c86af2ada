-- ===== src/BoardStart/Resets.antt =====
-- The kind of reset that a board finds at its start, after a commanded restart and after a crash.
use fs_nasa_cfs_psp.Base.{
  ℕ, ◌≤◌, ◌<◌, ◌≡◌, refl, ◌∙◌, ◌≢◌, ◌⊎◌, inl, inr, Bool, true, false, arith, ◌==◌, if◌then◌else◌,
  Bool-cases,
}
use fs_nasa_cfs_psp.DirectMemory.{Memory}
use fs_nasa_cfs_psp.DirectMemory.Access.{load32-store32}
use fs_nasa_cfs_psp.ReservedMemory.{rst_type_processor, rst_type_poweron}
use fs_nasa_cfs_psp.BoardMemory.{Machine, BoardConfig, MemoryMap, Setup}
use fs_nasa_cfs_psp.BoardStart.{
  bsp_reset_type, has_bit, Blrr, mcp750_reset, mcp750_start, mcp750_restart, ResetSr, mpfs_reset,
  mpfs_start, mpfs_restart, HlpResetTypes, freertos_reset, noelv_restart, rst_subtype_power_cycle,
  rst_subtype_reset_command,
}
use fs_nasa_cfs_psp.BoardStart.Init.{mcp750_start-cases}

-- Of the bits that the mcp750 tests, only that of a software hard reset, which `reboot` and a crash
-- cause.
abbrev pub IsHardReset : Blrr → ℕ → Type 0
IsHardReset b register =
    (has_bit register b.pwron ≡ false)
    × (has_bit register b.pbrst ≡ false)
    × (has_bit register b.fbtn ≡ false)
    × (has_bit register b.wdt2 ≡ false)
    × (has_bit register b.swsrst ≡ false)
    × (has_bit register b.swhrst ≡ true)

-- After a hard reset, the boot record decides.
hard_reset :
    (b : Blrr) (register boot_type : ℕ)
    → IsHardReset b register
    → mcp750_reset b register boot_type ≡ (
        if boot_type == rst_type_poweron
        then (rst_type_poweron, rst_subtype_reset_command)
        else (rst_type_processor, rst_subtype_reset_command))
unfolding mcp750_reset
hard_reset b register boot_type h =
    let (h1, h2, h3, h4, h5, h6) = h in rw (h1, h2, h3, h4, h5, h6) refl

-- After CFE_PSP_Restart of the mcp750 and the hard reset that it causes, the start finds the kind of
-- reset that was commanded, a power-on reset or else a processor reset, with the subtype of a
-- command.
pub mcp750_start-mcp750_restart :
    (b : Blrr) (little : Bool) (s : Setup) (register reset_type : ℕ) (m : Memory)
    → IsHardReset b register
    → (mcp750_start b little s register (mcp750_restart little s.memory_map reset_type m).0).0 ≡ (
      (if reset_type == rst_type_poweron then rst_type_poweron else rst_type_processor),
      rst_subtype_reset_command,
    )
unfolding mcp750_start mcp750_restart
mcp750_start-mcp750_restart b little s register reset_type m h =
    let r = s.memory_map in
    hard_reset b register _ h ∙ elim (Bool-cases (reset_type == rst_type_poweron)) [
      | inl poweron ↦
          rw (poweron, load32-store32 little m r.boot_ptr rst_type_poweron (omega arith)) refl
      | inr other ↦
          rw (other, load32-store32 little m r.boot_ptr rst_type_processor (omega arith)) refl
    ]

found_reset :
    (b : Blrr) (little : Bool) (s : Setup) (register : ℕ) (m : Memory)
    → IsHardReset b register
    → (mcp750_start b little s register m).0 ≡ (
        if bsp_reset_type little s.memory_map m == rst_type_poweron
        then (rst_type_poweron, rst_subtype_reset_command)
        else (rst_type_processor, rst_subtype_reset_command))
unfolding mcp750_start
found_reset b little s register m h = hard_reset b register _ h

-- A hard reset of the mcp750 with no restart commanded, such as a crash, comes after a processor
-- reset as a power-on reset and after any other reset as a processor reset, where the boot record
-- stands at the start of the reserved block.
pub mcp750_start-mcp750_start :
    (b : Blrr) (little : Bool) (s : Setup) (first second : ℕ) (m : Memory)
    → s.memory_map.boot_ptr ≡ s.reserved_block.block_ptr
    → 4 ≤ s.reserved_block.block_size
    → IsHardReset b second
    → let (reset, t) = mcp750_start b little s first m in
      let (again, u) = mcp750_start b little s second t in
      ((reset.0 ≡ rst_type_processor) × (again ≡ (rst_type_poweron, rst_subtype_reset_command)))
      ⊎ ((reset.0 ≢ rst_type_processor) × (again ≡ (rst_type_processor, rst_subtype_reset_command)))
mcp750_start-mcp750_start b little s first second m at room h =
    let (reset, t) = mcp750_start b little s first m in
    elim (mcp750_start-cases b little s first m at room) [
      | inl (processor, word, rest) ↦
          inl (processor, found_reset b little s second t h ∙ rw word refl)
      | inr (other, word, zeros, rest) ↦
          inr (other, found_reset b little s second t h ∙ rw word refl)
    ]

-- On the PolarFire board, CFE_PSP_Restart writes the type of a power-on reset for every request: the
-- soft reset that it causes is always found as a power-on reset, also where a processor reset was
-- commanded.
pub mpfs_start-mpfs_restart :
    (b : ResetSr) (machine : Machine) (c : BoardConfig) (little : Bool) (r : MemoryMap)
    (register reset_type : ℕ) (m : Memory)
    → register ≢ 0x1ff
    → has_bit register b.cpu_softcb_bus ≡ true
    → (mpfs_start b machine c little r register (mpfs_restart little r reset_type m).0).0
      ≡ (rst_type_poweron, rst_subtype_reset_command)
unfolding mpfs_start mpfs_restart mpfs_reset
mpfs_start-mpfs_restart b machine c little r register reset_type m not_full soft =
    let partial : (register == 0x1ff) ≡ false = ground arith in
    let word = load32-store32 little m r.boot_ptr rst_type_poweron (omega arith) in
    elim (Bool-cases (reset_type == rst_type_poweron)) [
      | inl poweron ↦ rw (partial, soft, poweron, word) refl
      | inr other ↦ rw (partial, soft, other, word) refl
    ]

-- On the NOEL-V board, where the codes of the hardware layer for a software reset, a power-on and a
-- watchdog differ: the code that CFE_PSP_Restart hands on is read back at the next start as a
-- power-on reset if one was commanded, else as a processor reset by command.
pub freertos_reset-noelv_restart :
    (h : HlpResetTypes) (reset_type : ℕ)
    → h.software ≢ h.poweron
    → h.software ≢ h.watchdog
    → freertos_reset h (noelv_restart h reset_type) ≡ (
        if reset_type == rst_type_poweron
        then (rst_type_poweron, rst_subtype_power_cycle)
        else (rst_type_processor, rst_subtype_reset_command))
unfolding freertos_reset noelv_restart
freertos_reset-noelv_restart h reset_type other other' =
    let same : (h.poweron == h.poweron) ≡ true = ground arith in
    let apart : (h.software == h.poweron) ≡ false = ground arith in
    let apart' : (h.software == h.watchdog) ≡ false = ground arith in
    let itself : (h.software == h.software) ≡ true = ground arith in
    elim (Bool-cases (reset_type == rst_type_poweron)) [
      | inl poweron ↦ rw (poweron, same) refl
      | inr processor ↦ rw (processor, apart, apart', itself) refl
    ]

-- A kind of reset that fsw/inc/cfe_psp.h names.
abbrev pub IsReset : ℕ × ℕ → Type 0
IsReset (t, sub) = ((t ≡ rst_type_processor) ⊎ (t ≡ rst_type_poweron)) × (1 ≤ sub) × (sub < 10)

either-IsReset : (t : Bool) {x y : ℕ × ℕ} → IsReset x → IsReset y → IsReset (if t then x else y)
either-IsReset true hx hy = hx
either-IsReset false hx hy = hy

-- Whatever the registers and the boot record hold, the start of each board finds one of the two types
-- of reset and a subtype from 1 to 9.
pub resets-IsReset :
    (b : Blrr) (sr : ResetSr) (h : HlpResetTypes) (register boot_type : ℕ)
    → IsReset (mcp750_reset b register boot_type)
      × IsReset (mpfs_reset sr register boot_type)
      × IsReset (freertos_reset h register)
unfolding mcp750_reset mpfs_reset freertos_reset
resets-IsReset b sr h register boot_type =
    let power : IsReset (2, 1) = (inr refl, omega arith, omega arith) in
    let button : IsReset (2, 2) = (inr refl, omega arith, omega arith) in
    let front : IsReset (2, 3) = (inr refl, omega arith, omega arith) in
    let fabric : IsReset (1, 2) = (inl refl, omega arith, omega arith) in
    let dog : IsReset (1, 4) = (inl refl, omega arith, omega arith) in
    let command : IsReset (1, 5) = (inl refl, omega arith, omega arith) in
    let hard : IsReset (2, 5) = (inr refl, omega arith, omega arith) in
    let unknown : IsReset (2, 7) = (inr refl, omega arith, omega arith) in
    let recorded = either-IsReset (boot_type == rst_type_poweron) hard command in
    let bit = has_bit register in
    (
      either-IsReset (bit b.pwron) power (
          either-IsReset (bit b.pbrst) button (
            either-IsReset (bit b.fbtn) front (
              either-IsReset (bit b.wdt2) dog (
                either-IsReset (bit b.swsrst) command
                  (either-IsReset (bit b.swhrst) recorded unknown))))),
      either-IsReset (register == 0x1ff) power (
          either-IsReset (bit sr.cpu_softcb_bus) recorded (
            either-IsReset (bit sr.debuger) power
              (either-IsReset (bit sr.wdog) dog (either-IsReset (bit sr.fabric) fabric unknown)))),
      either-IsReset (register == h.poweron) power (
          either-IsReset (register == h.watchdog) dog (
            either-IsReset (register == h.software) command (
              either-IsReset (register == h.external) button
                (either-IsReset (register == h.debug) power unknown)))),
    )
