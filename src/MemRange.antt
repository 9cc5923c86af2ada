-- ===== src/MemRange.antt =====
-- fsw/shared/src/cfe_psp_memrange.c: the system memory table and its three operations.
-- `cpuaddr` and `size_t` have 64 bits. The table is the list `SysMemoryTable`, whose length is the
-- platform's `CFE_PSP_MEM_TABLE_SIZE`.
pub mod Search
pub mod Table
mod Tests
use fs_nasa_cfs_psp.Base.{
  ℕ, ◌+◌, ◌-◌, ◌%◌, Bool, ◌&&◌, ◌||◌, not, Option, none, some, List, [], ◌∷◌, ltb, leb, ◌==◌,
  if◌then◌else◌, length, get_or, set, u64_mod,
}
use fs_nasa_cfs_psp.Status.{
  Status, success, invalid_pointer, invalid_mem_addr, invalid_mem_type, invalid_mem_range,
  invalid_mem_wordsize, invalid_mem_attr,
}

-- Memory types, word sizes and attributes of cfe_psp.h.
abbrev pub mem_ram : ℕ
mem_ram = 1

abbrev pub mem_eeprom : ℕ
mem_eeprom = 2

abbrev pub mem_any : ℕ
mem_any = 3

abbrev pub mem_invalid : ℕ
mem_invalid = 4

abbrev pub attr_write : ℕ
attr_write = 1

abbrev pub attr_read : ℕ
attr_read = 2

abbrev pub attr_readwrite : ℕ
attr_readwrite = 3

abbrev pub size_byte : ℕ
size_byte = 1

abbrev pub size_word : ℕ
size_word = 2

abbrev pub size_dword : ℕ
size_dword = 4

pub record MemTable : Type 0 where
  pub memory_type : ℕ
  pub word_size : ℕ
  pub start_addr : ℕ
  pub size : ℕ
  pub attributes : ℕ

-- An entry of the static table before anything is set.
abbrev pub zero_entry : MemTable
zero_entry = record { memory_type = 0; word_size = 0; start_addr = 0; size = 0; attributes = 0 }

-- `Address + Size - 1` in 64 bits.
abbrev pub end_address : ℕ → ℕ → ℕ
end_address a n = (a + n + u64_mod - 1) % u64_mod

-- Step 3 of the loop: `none` goes on to the next entry.
unfoldable pub type_matches : ℕ → ℕ → Bool
type_matches wanted in_table =
    wanted == mem_any
    || ((wanted == mem_ram && in_table == mem_ram)
        || (wanted == mem_eeprom && in_table == mem_eeprom))

-- One entry of the table against the range, as the code to return if the search ends here.
-- `success` breaks out of the loop.
unfoldable pub check_entry : ℕ → ℕ → ℕ → MemTable → Status
unfolding type_matches
check_entry start last wanted e =
    let table_end = end_address e.start_addr e.size in
    if leb e.start_addr start && leb start table_end
    then if leb last table_end
      then if type_matches wanted e.memory_type then success else invalid_mem_type
      else invalid_mem_range
    else invalid_mem_addr

-- The loop, with `ReturnCode` as its accumulator.
unfoldable pub search_table : ℕ → ℕ → ℕ → Status → List MemTable → Status
search_table start last wanted code [] = code
search_table start last wanted code (e ∷ es) =
    let next = check_entry start last wanted e in
    let skip = search_table start last wanted code es in
    let more = search_table start last wanted next es in
    if not (e.memory_type == mem_invalid) then elim next [ success ↦ success | _ ↦ more ] else skip

unfoldable pub mem_validate_range : List MemTable → ℕ → ℕ → ℕ → Status
mem_validate_range table address size memory_type =
    let last = end_address address size in
    if not (memory_type == mem_any)
      && (not (memory_type == mem_ram) && not (memory_type == mem_eeprom))
    then invalid_mem_type
    else if ltb last address
    then invalid_mem_range
    else search_table address last memory_type invalid_mem_addr table

unfoldable pub mem_ranges : List MemTable → ℕ
mem_ranges table = length table

-- The new table comes beside the status.
unfoldable pub mem_range_set : List MemTable → ℕ → MemTable → Status × List MemTable
mem_range_set table n e =
    if leb (length table) n
    then (invalid_mem_range, table)
    else if not (e.memory_type == mem_ram) && not (e.memory_type == mem_eeprom)
    then (invalid_mem_type, table)
    else if not (e.word_size == size_byte)
        && (not (e.word_size == size_word) && not (e.word_size == size_dword))
    then (invalid_mem_wordsize, table)
    else if not (e.attributes == attr_read)
        && (not (e.attributes == attr_write) && not (e.attributes == attr_readwrite))
    then (invalid_mem_attr, table)
    else (success, set table n e)

-- `pointers` tells that none of the five output pointers is NULL; what goes through them is the
-- second component, `none` where they are left alone.
unfoldable pub mem_range_get : List MemTable → ℕ → Bool → Status × Option MemTable
mem_range_get table n pointers =
    if not pointers
    then (invalid_pointer, none)
    else if leb (length table) n
    then (invalid_mem_range, none)
    else (success, some (get_or table n zero_entry))
