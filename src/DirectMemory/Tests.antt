-- ===== src/DirectMemory/Tests.antt =====
-- The memory-mapped modules on a concrete memory.
use fs_nasa_cfs_psp.Base.{ℕ, ◌≡◌, refl, true, false, arith}
use fs_nasa_cfs_psp.Status.{success}
use fs_nasa_cfs_psp.DirectMemory.{
  Memory, put, store16, store32, load16, load32, mem_read8, mem_write8, mem_read16, mem_write16,
  mem_read32, mem_write32, eeprom_write8, eeprom_write16, eeprom_write32, splice8, splice16,
}
use fs_nasa_cfs_psp.DirectMemory.Access.{Writes, mem_write-Writes}
use fs_nasa_cfs_psp.DirectMemory.EepromByte.{eeprom_write8-put}

abbrev blank : Memory
blank x = 0xFF

byte_in_word :
    (load32 true (eeprom_write8 true blank 0x1003 0x12).1 0x1000 ≡ 0x12FFFFFF)
    × (load32 false (eeprom_write8 false blank 0x1003 0x12).1 0x1000 ≡ 0xFFFFFF12)
unfolding load16 load32 eeprom_write8 eeprom_write16 eeprom_write32 splice8 splice16 store32 store16
    mem_read16 mem_read32
byte_in_word = (refl, refl)

mem_write-Writes_example :
    Writes 1 0x1002 7 blank (mem_write8 blank 0x1002 7) (λ m'. mem_read8 m' 0x1002)
    × Writes 2 0x1002 0x102 blank
        (mem_write16 true blank 0x1002 0x102)
        (λ m'. mem_read16 true m' 0x1002)
    × Writes 4 0x1002 0x1020304 blank
        (mem_write32 true blank 0x1002 0x1020304)
        (λ m'. mem_read32 true m' 0x1002)
mem_write-Writes_example =
    mem_write-Writes true blank 0x1002 7 0x102 0x1020304 (omega arith) (omega arith) (omega arith)

eeprom_write8-put_example :
    ((eeprom_write8 false blank 0x1003 0x12).0 ≡ success)
    × ((x : ℕ) → (eeprom_write8 false blank 0x1003 0x12).1 x ≡ put blank 0x1003 0x12 x)
eeprom_write8-put_example =
    eeprom_write8-put false blank 0x1003 0x12 (λ x. omega arith) (omega arith) (omega arith)
