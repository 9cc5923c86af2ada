-- ===== src/EepromFile/Tests.antt =====
-- The starts, on a missing file and with a `write` that fails.
use fs_nasa_cfs_psp.Base.{
  ℕ, ◌+◌, ◌≡◌, refl, ◌⊎◌, inl, Bool, true, false, none, some, List, [], ◌∷◌, arith, if◌then◌else◌,
  replicate,
}
use fs_nasa_cfs_psp.Status.{success}
use fs_nasa_cfs_psp.MemRange.{MemTable, mem_eeprom, mem_ranges, mem_validate_range, zero_entry}
use fs_nasa_cfs_psp.DirectMemory.{load32}
use fs_nasa_cfs_psp.EepromFile.{
  Answers, System, or_empty, setup_eeprom, eeprom_size, eeprom_init, eeprom_file_write32,
  eeprom_file_write16, mapped,
}
use fs_nasa_cfs_psp.EepromFile.Starts.{is_some, eeprom_init-cases}
use fs_nasa_cfs_psp.EepromFile.Survival.{eeprom_init-survives, eeprom_init-half_made}

abbrev missing : System
missing = record { file = none; open_files = 0 }

abbrev answers : Bool → Bool → ℕ → Answers
answers finds writes address = record {
  stat_finds = finds;
  opens = true;
  seeks = true;
  writes = writes;
  mmap = some address;
}

abbrev table : List MemTable
table = replicate 2 zero_entry

fresh :
    setup_eeprom (answers false true 4096) 3 missing
    ≡ (some 4096, record { file = some (0 ∷ 0 ∷ 0 ∷ []); open_files = 1 })
unfolding setup_eeprom
fresh = refl

-- Without a file, `open` with O_CREAT of a longer one keeps it, but for the byte that is written.
found_after_all :
    (setup_eeprom
      (answers false true 4096)
      2
      (record { file = some (7 ∷ 8 ∷ 9 ∷ []); open_files = 0 })).1
    ≡ record { file = some (7 ∷ 0 ∷ 9 ∷ []); open_files = 1 }
unfolding setup_eeprom
found_after_all = refl

big_endian :
    eeprom_file_write16 false 4096 (1 ∷ 2 ∷ 3 ∷ []) 4097 0x1234
    ≡ some (success, 1 ∷ 0x12 ∷ 0x34 ∷ [])
unfolding eeprom_file_write16
big_endian = refl

same_address : (a : ℕ) → some 4096 ≡ some a → a ≡ 4096
same_address a e = ground (arith, e)

first_maps : (eeprom_init (answers false true 4096) missing table).0 ≡ some 4096
unfolding eeprom_init
first_maps = refl

eeprom_init-cases_example :
    let (result, s', table') = eeprom_init (answers false true 4096) missing table in
    (is_some missing.file ≡ true → s'.file ≡ missing.file)
    × (((result ≡ none) × (table' ≡ table) × (s'.open_files ≡ 0))
        ⊎ ((address : ℕ) × (result ≡ some address)
            × (s'.open_files ≡ 0 + 1)
            × (s'.file
                ≡ some (
                    if is_some missing.file
                    then or_empty missing.file
                    else replicate eeprom_size 0))
            × (mem_validate_range table' (address + 16) 8 mem_eeprom ≡ success)))
unfolding mem_ranges
eeprom_init-cases_example =
    eeprom_init-cases (answers false true 4096) missing table 16 8 refl
      (λ a e. omega (arith, same_address a e)) (omega arith) (omega arith) (omega arith)

eeprom_init-survives_example :
    let f = or_empty (eeprom_init (answers false true 4096) missing table).1.file in
    (f' : List ℕ) × (eeprom_file_write32 true 4096 f (4096 + 16) 0x12345678 ≡ some (success, f'))
    × (let again =
          eeprom_init (answers true true 8192) (record { file = some f'; open_files = 0 }) table in
        (again.0 ≡ some 8192)
        × (load32 true (mapped 8192 (or_empty again.1.file)) (8192 + 16) ≡ 0x12345678))
eeprom_init-survives_example =
    eeprom_init-survives (answers false true 4096) (answers true true 8192) missing table table true
      4096 8192 16 0x12345678 0 refl (inl refl) first_maps refl refl refl (omega arith)
      (omega arith) refl refl refl

eeprom_init-half_made_example :
    let (result, s', kept) = eeprom_init (answers false false 4096) missing table in
    let (result', again, table'') = eeprom_init (answers true true 8192) s' table in
    (result ≡ none)
    × (s' ≡ record { file = some []; open_files = 0 })
    × (result' ≡ some 8192)
    × (again.file ≡ some [])
    × (mem_validate_range table'' (8192 + 16) 4 mem_eeprom ≡ success)
    × (eeprom_file_write32 true 8192 (or_empty again.file) (8192 + 16) 1 ≡ none)
unfolding mem_ranges
eeprom_init-half_made_example =
    eeprom_init-half_made (answers false false 4096) (answers true true 8192) table table true 8192
      16 1 0 refl refl refl refl refl refl (omega arith) (omega arith) (omega arith)
