-- ===== src/MemRange/Search.antt =====
-- `CFE_PSP_MemValidateRange` of fsw/shared/src/cfe_psp_memrange.c against containment in an entry.
use fs_nasa_cfs_psp.Base.{
  ℕ, ◌+◌, ◌≤◌, ◌<◌, ◌≡◌, ◌≢◌, ◌↔◌, ◌⊎◌, inl, inr, refl, List, [], ◌∷◌, arith, u64_mod, ◌==◌,
  Bool-cases,
}
use fs_nasa_cfs_psp.Status.{
  Status, Status-discrete, success, invalid_mem_type, invalid_mem_range, invalid_mem_addr,
}
use fs_nasa_cfs_psp.MemRange.{
  MemTable, mem_ram, mem_eeprom, mem_any, mem_invalid, zero_entry, end_address, check_entry,
  search_table, mem_validate_range,
}

abbrev pub Some : (MemTable → Type 0) → List MemTable → Type 0
Some P [] = ⊥
Some P (e ∷ es) = P e ⊎ Some P es

abbrev pub All : (MemTable → Type 0) → List MemTable → Type 0
All P [] = Unit {0}
All P (e ∷ es) = P e × All P es

abbrev pub IsMemType : ℕ → Type 0
IsMemType t = (t ≡ mem_any) ⊎ ((t ≡ mem_ram) ⊎ (t ≡ mem_eeprom))

-- What the loop looks for, with the entry's last address computed as the code does.
pub record Accepts (start last wanted : ℕ) (e : MemTable) : Type 0 where
  pub in_use : e.memory_type ≢ mem_invalid
  pub lower : e.start_addr ≤ start
  pub inside : start ≤ end_address e.start_addr e.size
  pub upper : last ≤ end_address e.start_addr e.size
  pub type_ok : (wanted ≡ mem_any) ⊎ (wanted ≡ e.memory_type)

check_entry-success :
    (start last wanted : ℕ) (e : MemTable)
    → IsMemType wanted
    → e.memory_type ≢ mem_invalid
    → check_entry start last wanted e ≡ success
    → Accepts start last wanted e
unfolding check_entry
check_entry-success start last wanted e t u h = ground arith

Accepts-check_entry :
    (start last wanted : ℕ) (e : MemTable)
    → IsMemType wanted
    → Accepts start last wanted e
    → check_entry start last wanted e ≡ success
unfolding check_entry
Accepts-check_entry start last wanted e t a = ground arith

-- The loop returns success exactly if an entry is accepted, whatever code it starts from.
search_table_sound :
    (start last wanted : ℕ) (c : Status) (es : List MemTable)
    → IsMemType wanted
    → c ≢ success
    → search_table start last wanted c es ≡ success
    → Some (Accepts start last wanted) es
unfolding search_table
search_table_sound start last wanted c [] t n h = absurd (n h)
search_table_sound start last wanted c (e ∷ es) t n h =
    elim (Bool-cases (e.memory_type == mem_invalid)) [
      | inl unused ↦ inr (search_table_sound start last wanted c es t n (ground arith))
      | inr used ↦ elim (Status-discrete (check_entry start last wanted e) success) [
        | yes hit ↦ inl (check_entry-success start last wanted e t (ground arith) hit)
        | no miss ↦ inr (
            search_table_sound start last wanted (check_entry start last wanted e) es t miss
              (ground arith))
      ]
    ]

search_table_complete :
    (start last wanted : ℕ) (c : Status) (es : List MemTable)
    → IsMemType wanted
    → Some (Accepts start last wanted) es
    → search_table start last wanted c es ≡ success
unfolding search_table
search_table_complete start last wanted c [] t s = absurd s
search_table_complete start last wanted c (e ∷ es) t (inl a) =
    ground (arith, Accepts-check_entry start last wanted e t a)
search_table_complete start last wanted c (e ∷ es) t (inr s) = ground (
  arith,
  search_table_complete start last wanted c es t s,
  search_table_complete start last wanted (check_entry start last wanted e) es t s,
)

-- The range test of `CFE_PSP_MemValidateRange` for a table as the code reads it: success is returned
-- exactly if the type asked for is RAM, EEPROM or ANY, the last address `Address + Size - 1` has not
-- wrapped below the first, and some entry in use accepts the range.
pub mem_validate_range-success :
    (table : List MemTable) (a n t : ℕ)
    → (mem_validate_range table a n t ≡ success)
      ↔ (IsMemType t × (a ≤ end_address a n) × Some (Accepts a (end_address a n) t) table)
unfolding mem_validate_range
mem_validate_range-success table a n t = (there, back)
  where
    there :
        mem_validate_range table a n t ≡ success
        → IsMemType t × (a ≤ end_address a n) × Some (Accepts a (end_address a n) t) table
    there h =
        let ok : IsMemType t = ground arith in
        (
          ok,
          ground arith,
          search_table_sound a (end_address a n) t invalid_mem_addr table ok (λ e. cc)
              (ground arith),
        )

    back :
        IsMemType t × (a ≤ end_address a n) × Some (Accepts a (end_address a n) t) table
        → mem_validate_range table a n t ≡ success
    back h =
        ground (arith, search_table_complete a (end_address a n) t invalid_mem_addr table h.0 h.2)

-- An entry whose last address does not wrap.
pub record IsPlain (e : MemTable) : Type 0 where
  pub nonempty : 0 < e.size
  pub fits : e.start_addr + e.size ≤ u64_mod

-- The bytes `a .. a + n - 1` lie in the entry, and its type is the one asked for, or any is.
pub record Contains (a n t : ℕ) (e : MemTable) : Type 0 where
  pub in_use : e.memory_type ≢ mem_invalid
  pub lower : e.start_addr ≤ a
  pub upper : a + n ≤ e.start_addr + e.size
  pub type_ok : (t ≡ mem_any) ⊎ (t ≡ e.memory_type)

abbrev pub IsPlainTable : List MemTable → Type 0
IsPlainTable = All (λ e. e.memory_type ≢ mem_invalid → IsPlain e)

Accepts-iff_Contains :
    (a n t : ℕ) (e : MemTable)
    → 0 < n
    → a + n ≤ u64_mod
    → (e.memory_type ≢ mem_invalid → IsPlain e)
    → Accepts a (end_address a n) t e ↔ Contains a n t e
Accepts-iff_Contains a n t e pos fits plain = (there, back)
  where
    there : Accepts a (end_address a n) t e → Contains a n t e
    there h =
        let p : IsPlain e = plain h.in_use in
        record { in_use = h.in_use; lower = h.lower; upper = omega arith; type_ok = h.type_ok }

    back : Contains a n t e → Accepts a (end_address a n) t e
    back h =
        let p : IsPlain e = plain h.in_use in
        record {
          in_use = h.in_use;
          lower = h.lower;
          inside = omega arith;
          upper = omega arith;
          type_ok = h.type_ok;
        }

Some-map :
    (P Q R : MemTable → Type 0) (es : List MemTable)
    → ((e : MemTable) → R e → P e → Q e)
    → All R es
    → Some P es
    → Some Q es
Some-map P Q R [] f r s = s
Some-map P Q R (e ∷ es) f r (inl p) = inl (f e r.0 p)
Some-map P Q R (e ∷ es) f r (inr s) = inr (Some-map P Q R es f r.1 s)

-- For a table whose entries in use do not wrap round the address space, and a nonempty range that
-- does not either: `CFE_PSP_MemValidateRange` returns success exactly if the type asked for is RAM,
-- EEPROM or ANY and one entry in use, of that type unless ANY was asked for, contains the range.
pub mem_validate_range-Contains :
    (table : List MemTable) (a n t : ℕ)
    → IsPlainTable table
    → 0 < n
    → a + n ≤ u64_mod
    → (mem_validate_range table a n t ≡ success) ↔ (IsMemType t × Some (Contains a n t) table)
mem_validate_range-Contains table a n t plain pos fits = (
  λ h.
      let (ok, _, s) = (mem_validate_range-success table a n t).0 h in
      (ok, Some-map _ _ _ table (λ e p. (Accepts-iff_Contains a n t e pos fits p).0) plain s),
  λ (ok, s). (mem_validate_range-success table a n t).1 (
    ok,
    omega arith,
    Some-map _ _ _ table (λ e p. (Accepts-iff_Contains a n t e pos fits p).1) plain s,
  ),
)

-- The requests that the parameter checks turn away, before the table is read: a type that is not RAM,
-- EEPROM or ANY, then a range that runs over the end of the address space, then an empty range at
-- any address but 0.
pub mem_validate_range_rejects :
    (table : List MemTable) (a n t : ℕ)
    → a < u64_mod
    → n < u64_mod
    → (¬ IsMemType t → mem_validate_range table a n t ≡ invalid_mem_type)
      × (IsMemType t → u64_mod < a + n → mem_validate_range table a n t ≡ invalid_mem_range)
      × (IsMemType t → 0 < a → n ≡ 0 → mem_validate_range table a n t ≡ invalid_mem_range)
unfolding mem_validate_range
mem_validate_range_rejects table a n t ha hn =
    (λ bad. ground arith, λ ok over. ground arith, λ ok pos e. ground arith)

Some-zero_entry :
    (a b t : ℕ) (es : List MemTable)
    → a ≤ b
    → b < u64_mod
    → t ≡ mem_any
    → Some (λ e. e ≡ zero_entry) es
    → Some (Accepts a b t) es
Some-zero_entry a b t [] le lt any s = s
Some-zero_entry a b t (e ∷ es) le lt any (inr s) = inr (Some-zero_entry a b t es le lt any s)
Some-zero_entry a b t (e ∷ es) le lt any (inl z) = inl (
    rw z (record {
      in_use = omega arith;
      lower = omega arith;
      inside = omega arith;
      upper = omega arith;
      type_ok = inl any;
    }))

-- An entry that nothing has set, all zero, is in use for the search and spans all addresses: while
-- the table holds one, every range that does not wrap is valid for type ANY.
pub any_range_valid :
    (table : List MemTable) (a n : ℕ)
    → Some (λ e. e ≡ zero_entry) table
    → a ≤ end_address a n
    → mem_validate_range table a n mem_any ≡ success
any_range_valid table a n z le =
    (mem_validate_range-success table a n mem_any).1
      (inl refl, le, Some-zero_entry a (end_address a n) mem_any table le (omega arith) refl z)
