-- ===== src/EepromFile/Starts.antt =====
-- Starts of fsw/modules/eeprom_mmap_file one after the other, on the file that they share.
use fs_nasa_cfs_psp.Base.{
  ℕ, ◌+◌, ◌-◌, ◌^◌, ◌≤◌, ◌<◌, ◌≡◌, refl, sym, ap, ◌∙◌, ◌≢◌, ◌⊎◌, inl, inr, Bool, true, false,
  Option, none, some, List, [], arith, if◌then◌else◌, Option-cases, replicate, u64_mod, sub32,
}
use fs_nasa_cfs_psp.Status.{success}
use fs_nasa_cfs_psp.MemRange.{MemTable, mem_eeprom, mem_ranges, mem_validate_range}
use fs_nasa_cfs_psp.MemRange.Table.{IsEntry, mem_validate_range-mem_range_set}
use fs_nasa_cfs_psp.EepromFile.{
  Answers, System, or_empty, write_zero_at, open_eeprom, setup_eeprom, eeprom_size, eeprom_range,
  eeprom_init, install,
}

abbrev pub is_some : Option (List ℕ) → Bool
is_some none = false
is_some (some f) = true

eeprom_range-IsEntry : (address : ℕ) → IsEntry (eeprom_range address)
eeprom_range-IsEntry address = record {
  type_ok = inr refl;
  word_ok = inr (inr refl);
  attr_ok = inr (inr refl);
}

created : (n : ℕ) → 0 < n → n < 2 ^ 32 → write_zero_at [] (sub32 n 1) ≡ replicate n 0
unfolding write_zero_at
created n positive small =
    let last : sub32 n 1 - 0 + 1 ≡ n = omega arith in
    ground (arith, ap (λ (k : ℕ). replicate {A = ℕ} k 0) last)

-- What the set-up leaves when `stat` tells whether the file exists.
abbrev pub IsSetUp : Answers → ℕ → System → Type 0
IsSetUp answers size s =
    let (result, s') = setup_eeprom answers size s in
    (is_some s.file ≡ true → s'.file ≡ s.file)
    × (((result ≡ none) × (s'.open_files ≡ s.open_files))
        ⊎ ((answers.mmap ≢ none)
            × (result ≡ answers.mmap)
            × (s'.open_files ≡ s.open_files + 1)
            × (s'.file ≡ some (if is_some s.file then or_empty s.file else replicate size 0))))

pub setup_eeprom-cases :
    (answers : Answers) (size : ℕ) (s : System)
    → 0 < size
    → size < 2 ^ 32
    → answers.stat_finds ≡ is_some s.file
    → IsSetUp answers size s
unfolding setup_eeprom open_eeprom
setup_eeprom-cases answers size s positive small found = elim (Option-cases s.file) [
  | inl missing ↦
      let finds : answers.stat_finds ≡ false = rw missing at found in
      rw (finds, missing, created size positive small)
        (elim (Option-cases answers.mmap) [
          | inl e ↦ rw e (ground arith)
          | inr (a, e) ↦ rw e (ground arith)
        ])
  | inr (f, there) ↦
      let finds : answers.stat_finds ≡ true = rw there at found in
      rw (finds, there)
        (elim (Option-cases answers.mmap) [
          | inl e ↦ rw e (ground arith)
          | inr (a, e) ↦ rw e (ground arith)
        ])
]

pub install-keeps :
    (r : Option ℕ × System) (table : List MemTable)
    → ((install r table).0 ≡ r.0) × ((install r table).1 ≡ r.1)
unfolding install
install-keeps (none, s) table = (refl, refl)
install-keeps (some address, s) table = (refl, refl)

install_fails :
    (r : Option ℕ × System) (table : List MemTable) → r.0 ≡ none → (install r table).2 ≡ table
unfolding install
install_fails (none, s) table e = refl
install_fails (some address, s) table e = absurd (ground (arith, e))

install_valid :
    (r : Option ℕ × System) (table : List MemTable) (address k n : ℕ)
    → r.0 ≡ some address
    → address + eeprom_size ≤ u64_mod
    → 1 < mem_ranges table
    → 0 < n
    → k + n ≤ eeprom_size
    → mem_validate_range (install r table).2 (address + k) n mem_eeprom ≡ success
unfolding install
install_valid (none, s) table address k n e fits two positive within = absurd (ground (arith, e))
install_valid (some b, s) table address k n e fits two positive within =
    let same : b ≡ address = ground (arith, e) in
    rw same (
      mem_validate_range-mem_range_set table 1 (address + k) n mem_eeprom (eeprom_range address) two
        (eeprom_range-IsEntry address) fits positive (omega arith) (omega arith) (inr refl))

pub eeprom_init-eq :
    (answers : Answers) (s : System) (table : List MemTable)
    → eeprom_init answers s table ≡ install (setup_eeprom answers eeprom_size s) table
unfolding eeprom_init
eeprom_init-eq answers s table = refl

pub eeprom_init-valid :
    (answers : Answers) (s : System) (table : List MemTable) (address k n : ℕ)
    → (eeprom_init answers s table).0 ≡ some address
    → address + eeprom_size ≤ u64_mod
    → 1 < mem_ranges table
    → 0 < n
    → k + n ≤ eeprom_size
    → mem_validate_range (eeprom_init answers s table).2 (address + k) n mem_eeprom ≡ success
eeprom_init-valid answers s table address k n maps fits two positive within =
    let r = setup_eeprom answers eeprom_size s in
    let result : r.0 ≡ some address =
      sym (install-keeps r table).0 ∙ rw (eeprom_init-eq answers s table) at maps in
    rw (eeprom_init-eq answers s table)
      (install_valid r table address k n result fits two positive within)

-- A start whose `stat` tells whether the file exists keeps what the file holds. If it fails, the
-- table of memory ranges is as before and no descriptor is left open. If it succeeds, one is left
-- open, a file that was missing has been created with zeros, and every nonempty part of the mapping
-- is valid as EEPROM, if the table has two entries and the mapping is within the address space.
pub eeprom_init-cases :
    (answers : Answers) (s : System) (table : List MemTable) (k n : ℕ)
    → answers.stat_finds ≡ is_some s.file
    → ((address : ℕ) → answers.mmap ≡ some address → address + eeprom_size ≤ u64_mod)
    → 1 < mem_ranges table
    → 0 < n
    → k + n ≤ eeprom_size
    → let (result, s', table') = eeprom_init answers s table in
      (is_some s.file ≡ true → s'.file ≡ s.file)
      × (((result ≡ none) × (table' ≡ table) × (s'.open_files ≡ s.open_files))
          ⊎ ((address : ℕ) × (result ≡ some address)
              × (s'.open_files ≡ s.open_files + 1)
              × (s'.file
                  ≡ some (if is_some s.file then or_empty s.file else replicate eeprom_size 0))
              × (mem_validate_range table' (address + k) n mem_eeprom ≡ success)))
eeprom_init-cases answers s table k n found fits two positive within =
    let r = setup_eeprom answers eeprom_size s in
    let (same, state) = install-keeps r table in
    let (kept, ends) = setup_eeprom-cases answers eeprom_size s (omega arith) (omega arith) found in
    rw (eeprom_init-eq answers s table, same, state)
      (
        kept,
        elim ends [
          | inl (fails, closed) ↦ inl (fails, install_fails r table fails, closed)
          | inr (some_map, maps, opened, file) ↦ elim (Option-cases answers.mmap) [
            | inl nothing ↦ absurd (some_map nothing)
            | inr (address, e) ↦ inr (
              address,
              maps ∙ e,
              opened,
              file,
              install_valid r table address k n (maps ∙ e) (fits address e) two positive within,
            )
          ]
        ],
      )
