-- ===== src/BoardMemory/Sizes.antt =====
-- The layouts of pc-rtems and of the FreeRTOS boards, which round the sizes up.
use native.Mathlib.Nat.{mod-eq_of_lt}
use fs_nasa_cfs_psp.Base.{
  ℕ, ◌+◌, ◌*◌, ◌%◌, ◌^◌, ◌≤◌, ◌<◌, ◌≡◌, refl, ◌⊎◌, inl, inr, none, some, List, arith, ltb, ◌==◌,
  Bool-cases, u32_mod,
}
use fs_nasa_cfs_psp.MemRange.{MemTable}
use fs_nasa_cfs_psp.BoardMemory.{
  Machine, BoardConfig, MemoryMap, Setup, advance, align, disk_size, rtems_required_size,
  rtems_setup, freertos_required_size, freertos_setup,
}
use fs_nasa_cfs_psp.BoardMemory.Layout.{Ordered, areas, total_size, align_bounds}

module _ (m : Machine) (d : ℕ) (wide : m.address_bits ≡ d + m.align_bits) where
  -- Additions that stay within the addresses.
  advance2 : (a b c : ℕ) → a + b + c < 2 ^ m.address_bits → advance m (advance m a b) c ≡ a + b + c
  advance2 a b c h =
      let first : a + b < 2 ^ m.address_bits = omega arith in
      rw (mod-eq_of_lt first) (mod-eq_of_lt h)

  advance3 :
      (a b c e : ℕ)
      → a + b + c + e < 2 ^ m.address_bits
      → advance m (advance m (advance m a b) c) e ≡ a + b + c + e
  advance3 a b c e h = rw (advance2 a b c (omega arith)) (mod-eq_of_lt h)

  advance4 :
      (a b c e f : ℕ)
      → a + b + c + e + f < 2 ^ m.address_bits
      → advance m (advance m (advance m (advance m a b) c) e) f ≡ a + b + c + e + f
  advance4 a b c e f h = rw (advance3 a b c e (omega arith)) (mod-eq_of_lt h)

  advance5 :
      (a b c e f g : ℕ)
      → a + b + c + e + f + g < 2 ^ m.address_bits
      → advance m (advance m (advance m (advance m (advance m a b) c) e) f) g
        ≡ a + b + c + e + f + g
  advance5 a b c e f g h = rw (advance4 a b c e f (omega arith)) (mod-eq_of_lt h)

  -- On pc-rtems, where `malloc` returns a block within the addresses, the first structure has the
  -- exception storage behind the boot record, and the sizes stay within the addresses: the set-up
  -- fails exactly if `malloc` does, else the six areas follow each other within the block.
  pub rtems_setup-Ordered :
      (c : BoardConfig) (fixed_offset fixed_size : ℕ) (allocate : ℕ → ℕ) (table : List MemTable)
      → m.boot_record_size ≤ fixed_offset
      → fixed_offset + m.exception_storage_size ≤ fixed_size
      → fixed_size + total_size m c + 5 * 2 ^ m.align_bits ≤ 2 ^ m.address_bits
      → let required = rtems_required_size m c fixed_size in
        allocate required + required < 2 ^ m.address_bits
        → let result = rtems_setup m c fixed_offset fixed_size allocate table in
          ((allocate required ≡ 0) × (result ≡ none))
          ⊎ ((s : Setup) × (result ≡ some s)
              × (s.reserved_block.block_ptr ≡ allocate required)
              × (s.reserved_block.block_size ≡ required)
              × Ordered (allocate required) (areas m s.memory_map) (allocate required + required))
  unfolding rtems_setup rtems_required_size
  rtems_setup-Ordered c fixed_offset fixed_size allocate table h1 h2 h3 h4 =
      let p0 = align_bounds m d wide fixed_size (omega arith) in
      let p1 = align_bounds m d wide c.reset_area_size (omega arith) in
      let p2 = align_bounds m d wide (disk_size c) (omega arith) in
      let p3 = align_bounds m d wide c.cds_size (omega arith) in
      let p4 = align_bounds m d wide c.user_reserved_size (omega arith) in
      let start = allocate (rtems_required_size m c fixed_size) in
      let f = align m fixed_size in
      let r = align m c.reset_area_size in
      let v = align m (disk_size c) in
      let k = align m c.cds_size in
      let u = align m c.user_reserved_size in
      let whole : rtems_required_size m c fixed_size ≡ f + r + v + k + u =
        advance4 f r v k u (omega arith) in
      let a1 : advance m start f ≡ start + f = mod-eq_of_lt (omega arith) in
      let a2 = advance2 start f r (omega arith) in
      let a3 = advance3 start f r v (omega arith) in
      let a4 = advance4 start f r v k (omega arith) in
      elim (Bool-cases (start == 0)) [
        | inl failed ↦ rw failed (inl (ground arith, refl))
        | inr given ↦ rw given (
            inr (
              _,
              refl,
              refl,
              refl,
              (
                omega arith,
                (
                  omega arith,
                  (omega arith, (omega arith, (omega arith, (omega arith, omega arith)))),
                ),
              ),
            ))
      ]

  -- On the FreeRTOS boards, where the aligned sizes add up to a `uint32` and the static array lies
  -- within the addresses: the set-up panics exactly if the array is smaller than the sum, else the
  -- six areas follow each other within the array.
  pub freertos_setup-Ordered :
      (c : BoardConfig) (array array_size : ℕ)
      → total_size m c + 6 * 2 ^ m.align_bits ≤ 2 ^ m.address_bits
      → freertos_required_size m c < 2 ^ 32
      → array + array_size < 2 ^ m.address_bits
      → let result = freertos_setup m c array array_size in
        ((array_size < freertos_required_size m c) × (result ≡ none))
        ⊎ ((s : MemoryMap) × (result ≡ some s) × Ordered array (areas m s) (array + array_size))
  unfolding freertos_setup freertos_required_size
  freertos_setup-Ordered c array array_size h1 h2 h3 =
      let b = align m m.boot_record_size in
      let p0 = align_bounds m d wide m.boot_record_size (omega arith) in
      let x = align m m.exception_storage_size in
      let p1 = align_bounds m d wide m.exception_storage_size (omega arith) in
      let r = align m c.reset_area_size in
      let p2 = align_bounds m d wide c.reset_area_size (omega arith) in
      let v = align m (disk_size c) in
      let p3 = align_bounds m d wide (disk_size c) (omega arith) in
      let k = align m c.cds_size in
      let p4 = align_bounds m d wide c.cds_size (omega arith) in
      let u = align m c.user_reserved_size in
      let p5 = align_bounds m d wide c.user_reserved_size (omega arith) in
      let whole : freertos_required_size m c ≡ b + x + r + v + k + u =
        advance5 b x r v k u (omega arith) in
      let counted : freertos_required_size m c % u32_mod ≡ freertos_required_size m c =
        mod-eq_of_lt h2 in
      elim (Bool-cases (ltb array_size (freertos_required_size m c % u32_mod))) [
        | inl small ↦ rw small (inl (ground arith, refl))
        | inr fits ↦
            let room : freertos_required_size m c ≤ array_size = ground arith in
            let a1 : advance m array b ≡ array + b = mod-eq_of_lt (omega arith) in
            let a2 = advance2 array b x (omega arith) in
            let a3 = advance3 array b x r (omega arith) in
            let a4 = advance4 array b x r v (omega arith) in
            let a5 = advance5 array b x r v k (omega arith) in
            rw fits (
              inr (
                _,
                refl,
                (
                  omega arith,
                  (
                    omega arith,
                    (omega arith, (omega arith, (omega arith, (omega arith, omega arith)))),
                  ),
                ),
              ))
      ]
