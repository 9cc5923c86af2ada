-- ===== src/EepromFile.antt =====
-- fsw/modules/eeprom_mmap_file/cfe_psp_eeprom_mmap_file.c: an EEPROM that is a mapped file. The file
-- is the list of its bytes, `none` where there is no file EEPROM.DAT.
pub mod Starts
pub mod Survival
mod Tests
use fs_nasa_cfs_psp.Base.{
  ℕ, zero, suc, bit_and_low, bit_and_high, ◌+◌, ◌-◌, ◌*◌, ◌/◌, ◌%◌, ◌^◌, ◌≤◌, ◌<◌, min, bit_and,
  bit_or, ◌≡◌, refl, sym, ap, subst, ◌∙◌, ◌≢◌, ◌↔◌, ◌⊎◌, inl, inr, Bool, true, false, not, ◌&&◌,
  ◌||◌, Option, none, some, List, [], ◌∷◌, ◌++◌, map, arith, ltb, leb, ◌==◌, if◌then◌else◌, ltb→lt,
  lt→ltb, leb→le, tests, Bool-cases, Option-cases, length, get_elem?, get_or, set, take, drop,
  replicate, length-append, length-set, length-replicate, length-take, length-drop, drop-append,
  take-append, get_elem?-append_left, get_elem?-append_right, get_elem?-take, get_elem?-drop,
  u32_mod, u64_mod, add32, sub32,
}
use fs_nasa_cfs_psp.Status.{Status, success}
use fs_nasa_cfs_psp.MemRange.{MemTable, mem_eeprom, size_dword, attr_readwrite, mem_range_set}
use fs_nasa_cfs_psp.DirectMemory.{Memory, byte}

-- What the calls of the operating system answer: whether `stat` finds the file, whether `open`,
-- `lseek` and `write` succeed, and the address from `mmap`.
pub record Answers : Type 0 where
  pub stat_finds : Bool
  pub opens : Bool
  pub seeks : Bool
  pub writes : Bool
  pub mmap : Option ℕ

-- The file and the number of descriptors that are open on it.
pub record System : Type 0 where
  pub file : Option (List ℕ)
  pub open_files : ℕ

-- The file behind `open` with O_CREAT.
abbrev pub or_empty : Option (List ℕ) → List ℕ
or_empty none = []
or_empty (some f) = f

-- `write` of the byte 0 behind `lseek` to an offset: a gap is filled with zeros.
unfoldable pub write_zero_at : List ℕ → ℕ → List ℕ
write_zero_at f n = if leb (length f) n then f ++ replicate (n - length f + 1) 0 else set f n 0

-- The opening of the file, with its creation, and whether the function goes on to `mmap`.
unfoldable pub open_eeprom : Answers → ℕ → System → Bool × System
unfolding write_zero_at
open_eeprom answers size s =
    let f = or_empty s.file in
    if not answers.stat_finds
    then if not answers.opens
      then (false, s)
      else if not answers.seeks
      then (false, record s { file = some f })
      else if not answers.writes
      then (false, record s { file = some f })
      else (
        true,
        record { file = some (write_zero_at f (sub32 size 1)); open_files = s.open_files + 1 },
      )
    else if not answers.opens
    then (false, s)
    else (true, record s { open_files = s.open_files + 1 })

-- `none` for -1, else the address. The descriptor stays open when the file is mapped.
unfoldable pub setup_eeprom : Answers → ℕ → System → Option ℕ × System
unfolding open_eeprom
setup_eeprom answers size s =
    let (goes_on, s') = open_eeprom answers size s in
    if not goes_on then (none, s') else elim answers.mmap [
      | none ↦ (none, record s' { open_files = s'.open_files - 1 })
      | some address ↦ (some address, s')
    ]

abbrev pub eeprom_size : ℕ
eeprom_size = 0x80000

-- The range that is installed.
abbrev pub eeprom_range : ℕ → MemTable
eeprom_range address = record {
  memory_type = mem_eeprom;
  word_size = size_dword;
  start_addr = address;
  size = eeprom_size;
  attributes = attr_readwrite;
}

-- The address is kept beside the new states, as what the memory map of the process holds.
unfoldable pub install : Option ℕ × System → List MemTable → Option ℕ × System × List MemTable
install (none, s) table = (none, s, table)
install (some address, s) table =
    (some address, s, (mem_range_set table 1 (eeprom_range address)).1)

unfoldable pub eeprom_init : Answers → System → List MemTable → Option ℕ × System × List MemTable
unfolding setup_eeprom install
eeprom_init answers s table = install (setup_eeprom answers eeprom_size s) table

-- Bytes stored one after the other.
unfoldable pub store_bytes : List ℕ → ℕ → List ℕ → List ℕ
store_bytes f i [] = f
store_bytes f i (b ∷ bs) = store_bytes (set f i b) (i + 1) bs

-- The size of the pages that the processor maps, and a size in whole pages.
abbrev pub page_size : ℕ
page_size = 4096

abbrev pub in_pages : ℕ → ℕ
in_pages n = (n + (page_size - 1)) / page_size * page_size

-- A store through a mapping that begins at `base`: `none` outside of the mapping or of the pages that
-- the file has a part of, where the processor faults. What is stored behind the file's end in its
-- last page does not reach it. The processor may store at any address, as those of pc-linux do.
unfoldable pub store_mapped : ℕ → List ℕ → ℕ → List ℕ → Option (Status × List ℕ)
unfolding store_bytes
store_mapped base f a bytes =
    if leb base a
      && (leb (a + length bytes) (base + eeprom_size)
          && leb (a + length bytes) (base + in_pages (length f)))
    then some (success, store_bytes f (a - base) bytes)
    else none

-- The bytes of a value in the processor's order.
abbrev pub bytes32 : Bool → ℕ → List ℕ
bytes32 little v =
    if little
    then byte v 0 ∷ byte v 1 ∷ byte v 2 ∷ byte v 3 ∷ []
    else byte v 3 ∷ byte v 2 ∷ byte v 1 ∷ byte v 0 ∷ []

abbrev pub bytes16 : Bool → ℕ → List ℕ
bytes16 little v = if little then byte v 0 ∷ byte v 1 ∷ [] else byte v 1 ∷ byte v 0 ∷ []

unfoldable pub eeprom_file_write32 : Bool → ℕ → List ℕ → ℕ → ℕ → Option (Status × List ℕ)
unfolding store_mapped
eeprom_file_write32 little base f a v = store_mapped base f a (bytes32 little v)

unfoldable pub eeprom_file_write16 : Bool → ℕ → List ℕ → ℕ → ℕ → Option (Status × List ℕ)
unfolding store_mapped
eeprom_file_write16 little base f a v = store_mapped base f a (bytes16 little v)

unfoldable pub eeprom_file_write8 : ℕ → List ℕ → ℕ → ℕ → Option (Status × List ℕ)
unfolding store_mapped
eeprom_file_write8 base f a v = store_mapped base f a (v ∷ [])

-- What the processor reads through a mapping.
abbrev pub mapped : ℕ → List ℕ → Memory
mapped base f a = get_or f (a - base) 0
