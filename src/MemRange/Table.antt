-- ===== src/MemRange/Table.antt =====
-- `CFE_PSP_MemRangeSet` and `CFE_PSP_MemRangeGet` of fsw/shared/src/cfe_psp_memrange.c, and what a
-- range that was set means for `CFE_PSP_MemValidateRange`.
use fs_nasa_cfs_psp.Base.{
  ℕ, ◌+◌, ◌≤◌, ◌<◌, ◌≡◌, ◌≢◌, ◌↔◌, ◌⊎◌, inl, inr, refl, sym, List, [], ◌∷◌, arith, some, true, zero,
  suc, length, set, length-set, get_or-set_self, get_or-set_ne, u64_mod,
}
use fs_nasa_cfs_psp.Status.{success}
use fs_nasa_cfs_psp.MemRange.{
  MemTable, mem_ram, mem_eeprom, mem_any, size_byte, size_word, size_dword, attr_read, attr_write,
  attr_readwrite, zero_entry, end_address, mem_validate_range, mem_range_set, mem_ranges,
  mem_range_get,
}
use fs_nasa_cfs_psp.MemRange.Search.{Some, Accepts, mem_validate_range-success}

-- The entries that can be set.
pub record IsEntry (e : MemTable) : Type 0 where
  pub type_ok : (e.memory_type ≡ mem_ram) ⊎ (e.memory_type ≡ mem_eeprom)
  pub word_ok : (e.word_size ≡ size_byte) ⊎ ((e.word_size ≡ size_word) ⊎ (e.word_size ≡ size_dword))
  pub attr_ok :
      (e.attributes ≡ attr_read) ⊎ ((e.attributes ≡ attr_write) ⊎ (e.attributes ≡ attr_readwrite))

set_accepted :
    (table : List MemTable) (n : ℕ) (e : MemTable)
    → n < length table
    → IsEntry e
    → mem_range_set table n e ≡ (success, set table n e)
unfolding mem_range_set
set_accepted table n e h v = ground (arith, v.type_ok, v.word_ok, v.attr_ok)

-- `CFE_PSP_MemRangeSet` succeeds exactly for a range number in the table and an entry whose type,
-- word size and attributes are among the allowed values; when it fails the table is as before, and
-- it never changes the number that `CFE_PSP_MemRanges` returns.
pub mem_range_set-success :
    (table : List MemTable) (n : ℕ) (e : MemTable)
    → (((mem_range_set table n e).0 ≡ success) ↔ ((n < mem_ranges table) × IsEntry e))
      × ((mem_range_set table n e).0 ≢ success → (mem_range_set table n e).1 ≡ table)
      × (mem_ranges (mem_range_set table n e).1 ≡ mem_ranges table)
unfolding mem_range_set mem_ranges
mem_range_set-success table n e = (
  (
    λ h. (
      ground arith,
      record { type_ok = ground arith; word_ok = ground arith; attr_ok = ground arith },
    ),
    λ (lt, v). ground (arith, v.type_ok, v.word_ok, v.attr_ok),
  ),
  λ h. ground arith,
  ground (arith, length-set table n e),
)

-- After a successful `CFE_PSP_MemRangeSet`, `CFE_PSP_MemRangeGet` reads the entry back at that
-- number, and at every other number what it read before.
pub mem_range_get-mem_range_set :
    (table : List MemTable) (n k : ℕ) (e : MemTable)
    → n < mem_ranges table
    → IsEntry e
    → let table' = (mem_range_set table n e).1 in
      (mem_range_get table' n true ≡ (success, some e))
      × (k ≢ n → mem_range_get table' k true ≡ mem_range_get table k true)
unfolding mem_range_get mem_ranges
mem_range_get-mem_range_set table n k e h v = rw (set_accepted table n e h v) (
  ground (arith, length-set table n e, get_or-set_self table n e zero_entry h),
  λ ne. rw (length-set table n e, get_or-set_ne table n k e zero_entry (λ q. ne (sym q))) refl,
)

Some-set :
    (P : MemTable → Type 0) (table : List MemTable) (n : ℕ) (e : MemTable)
    → n < length table
    → P e
    → Some P (set table n e)
Some-set P [] n e h p = absurd (omega arith)
Some-set P (x ∷ xs) zero e h p = inl p
Some-set P (x ∷ xs) (suc n) e h p = inr (Some-set P xs n e (omega arith) p)

-- A range that was set and that ends within the 64-bit address space is valid from then on: every
-- nonempty part of it, asked for with its own type or with ANY, whatever else the table holds.
pub mem_validate_range-mem_range_set :
    (table : List MemTable) (k a n t : ℕ) (e : MemTable)
    → k < mem_ranges table
    → IsEntry e
    → e.start_addr + e.size ≤ u64_mod
    → 0 < n
    → e.start_addr ≤ a
    → a + n ≤ e.start_addr + e.size
    → (t ≡ mem_any) ⊎ (t ≡ e.memory_type)
    → mem_validate_range (mem_range_set table k e).1 a n t ≡ success
unfolding mem_ranges
mem_validate_range-mem_range_set table k a n t e h v fits pos lo hi ty =
    rw (set_accepted table k e h v) (
      (mem_validate_range-success (set table k e) a n t).1
        (ground (arith, v.type_ok), omega arith, Some-set _ table k e h accepts))
  where
    accepts : Accepts a (end_address a n) t e
    accepts = record {
      in_use = ground (arith, v.type_ok);
      lower = lo;
      inside = omega arith;
      upper = omega arith;
      type_ok = ty;
    }
