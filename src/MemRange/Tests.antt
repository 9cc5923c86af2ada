-- ===== src/MemRange/Tests.antt =====
-- The memory table on concrete inputs.
use fs_nasa_cfs_psp.Base.{◌≡◌, ◌↔◌, refl, List, [], ◌∷◌, arith, inl, inr, replicate}
use fs_nasa_cfs_psp.Status.{success, invalid_mem_addr, invalid_mem_type, invalid_mem_range}
use fs_nasa_cfs_psp.MemRange.{
  MemTable, mem_ram, mem_eeprom, mem_any, zero_entry, check_entry, search_table, mem_validate_range,
  mem_ranges, mem_range_set,
}
use fs_nasa_cfs_psp.MemRange.Search.{Some, Contains, IsMemType, mem_validate_range-Contains}
use fs_nasa_cfs_psp.MemRange.Table.{IsEntry, mem_validate_range-mem_range_set}

abbrev ram : MemTable
ram = record {
  memory_type = mem_ram;
  word_size = 4;
  start_addr = 0x1000;
  size = 0x1000;
  attributes = 3;
}

abbrev eeprom : MemTable
eeprom = record {
  memory_type = mem_eeprom;
  word_size = 4;
  start_addr = 0x8000;
  size = 0x100;
  attributes = 3;
}

abbrev two_ranges : List MemTable
two_ranges = ram ∷ eeprom ∷ []

validates :
    (mem_validate_range two_ranges 0x1ffe 2 mem_ram ≡ success)
    × (mem_validate_range two_ranges 0x1ffe 3 mem_ram ≡ invalid_mem_addr)
    × (mem_validate_range two_ranges 0x8000 0x101 mem_any ≡ invalid_mem_range)
    × (mem_validate_range two_ranges 0x8000 1 mem_ram ≡ invalid_mem_type)
unfolding mem_validate_range search_table check_entry
validates = (refl, refl, refl, refl)

mem_validate_range-Contains_example :
    (mem_validate_range two_ranges 0x8010 4 mem_eeprom ≡ success)
    ↔ (IsMemType mem_eeprom × Some (Contains 0x8010 4 mem_eeprom) two_ranges)
mem_validate_range-Contains_example =
    mem_validate_range-Contains two_ranges 0x8010 4 mem_eeprom
      (λ u. omega arith, (λ u. omega arith, tt)) (omega arith) (omega arith)

ram-IsEntry : IsEntry ram
ram-IsEntry = record { type_ok = inl refl; word_ok = inr (inr refl); attr_ok = inr (inr refl) }

mem_validate_range-mem_range_set_example :
    mem_validate_range (mem_range_set (replicate 10 zero_entry) 3 ram).1 0x1800 8 mem_ram ≡ success
unfolding mem_ranges
mem_validate_range-mem_range_set_example =
    mem_validate_range-mem_range_set (replicate 10 zero_entry) 3 0x1800 8 mem_ram ram (omega arith)
      ram-IsEntry (omega arith) (omega arith) (omega arith) (omega arith) (inr refl)
