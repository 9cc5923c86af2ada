-- ===== src/BoardMemory/Layout.antt =====
-- The layouts of the boards' reserved memory: the areas are in order, apart and inside the block.
use fs_nasa_cfs_psp.Base.{
  ℕ, zero, suc, bit_and_low, bit_and_high, ◌+◌, ◌-◌, ◌*◌, ◌/◌, ◌%◌, ◌^◌, ◌≤◌, ◌<◌, bit_and, ◌≡◌,
  refl, ap, ◌∙◌, some, List, [], ◌∷◌, arith, get_elem?,
}
use mathlib.Core.Option.{some-injective}
use native.Mathlib.Nat.{
  pow-suc, one-le-pow, mod-add-div', mod-lt, mod-eq_of_lt, mod-eq-sub-mod, mul-sub, mul-mod_left,
  div-lt_iff_lt-mul,
}
use fs_nasa_cfs_psp.MemRange.{MemTable}
use fs_nasa_cfs_psp.BoardMemory.{
  Machine, BoardConfig, Block, MemoryMap, advance, align, disk_size, block, mcp750_setup,
}

-- Blocks that follow each other from `lo`, with or without gaps, and end before `hi`.
abbrev pub Ordered : ℕ → List Block → ℕ → Type 0
Ordered lo [] hi = lo ≤ hi
Ordered lo (b ∷ bs) hi = (lo ≤ b.block_ptr) × Ordered (b.block_ptr + b.block_size) bs hi

-- Ordered blocks end before a later bound too.
pub Ordered-le : (lo : ℕ) (bs : List Block) (hi : ℕ) → Ordered lo bs hi → lo ≤ hi
Ordered-le lo [] hi h = h
Ordered-le lo (b ∷ bs) hi h = omega (arith, Ordered-le (b.block_ptr + b.block_size) bs hi h.1, h.0)

-- Each of ordered blocks lies between the bounds.
pub Ordered-inside :
    (lo : ℕ) (bs : List Block) (hi i : ℕ) (a : Block)
    → Ordered lo bs hi
    → get_elem? bs i ≡ some a
    → (lo ≤ a.block_ptr) × (a.block_ptr + a.block_size ≤ hi)
Ordered-inside lo [] hi i a h e = absurd cc
Ordered-inside lo (b ∷ bs) hi zero a h e =
    let same : b ≡ a = some-injective b a e in
    let after = Ordered-le (b.block_ptr + b.block_size) bs hi h.1 in rw (← same) (h.0, after)
Ordered-inside lo (b ∷ bs) hi (suc i) a h e =
    let (low, high) = Ordered-inside (b.block_ptr + b.block_size) bs hi i a h.1 e in
    (omega (arith, h.0), high)

-- An earlier one of ordered blocks ends before a later one starts.
pub Ordered-apart :
    (lo : ℕ) (bs : List Block) (hi i j : ℕ) (a b : Block)
    → Ordered lo bs hi
    → get_elem? bs i ≡ some a
    → get_elem? bs j ≡ some b
    → i < j
    → a.block_ptr + a.block_size ≤ b.block_ptr
Ordered-apart lo [] hi i j a b h ea eb lt = absurd cc
Ordered-apart lo (x ∷ bs) hi i zero a b h ea eb lt = absurd (omega arith)
Ordered-apart lo (x ∷ bs) hi zero (suc j) a b h ea eb lt =
    let same : x ≡ a = some-injective x a ea in
    rw (← same) (Ordered-inside (x.block_ptr + x.block_size) bs hi j b h.1 eb).0
Ordered-apart lo (x ∷ bs) hi (suc i) (suc j) a b h ea eb lt =
    Ordered-apart (x.block_ptr + x.block_size) bs hi i j a b h.1 ea eb (omega arith)

-- Every block starts at a multiple of `size`.
abbrev pub Aligned : ℕ → List Block → Type 0
Aligned size [] = Unit
Aligned size (b ∷ bs) = (b.block_ptr % size ≡ 0) × Aligned size bs

-- The six areas of a map.
abbrev pub areas : Machine → MemoryMap → List Block
areas m r =
    block r.boot_ptr m.boot_record_size
    ∷ block r.exception_storage_ptr m.exception_storage_size
    ∷ r.reset_memory
    ∷ r.volatile_disk_memory
    ∷ r.cds_memory
    ∷ r.user_reserved_memory
    ∷ []

-- The bytes of all the areas, without their alignment.
abbrev pub total_size : Machine → BoardConfig → ℕ
total_size m c =
    m.boot_record_size
    + m.exception_storage_size
    + c.reset_area_size
    + disk_size c
    + c.cds_size
    + c.user_reserved_size

pow-add : (d k : ℕ) → 2 ^ (d + k) ≡ 2 ^ d * 2 ^ k
pow-add d zero = let last : d + 0 ≡ d = omega arith in ap (λ (t : ℕ). 2 ^ t) last ∙ omega arith
pow-add d (suc k) =
    let next : d + suc k ≡ suc (d + k) = omega arith in
    let twice : 2 ^ d * 2 ^ suc k ≡ 2 * (2 ^ d * 2 ^ k) =
      omega (arith, ap (λ (t : ℕ). 2 ^ d * t) (pow-suc 2 k)) in
    ap (λ (t : ℕ). 2 ^ t) next ∙ omega (arith, pow-suc 2 (d + k), pow-add d k)

-- The bits from `k` on of a number of `d + k` bits.
and_complement :
    (d k x : ℕ) → x < 2 ^ (d + k) → bit_and x (2 ^ (d + k) - 1 - (2 ^ k - 1)) ≡ x / 2 ^ k * 2 ^ k
and_complement d k x lt =
    let high = 2 ^ d - 1 in
    let small : x < 2 ^ d * 2 ^ k = rw (← pow-add d k) lt in
    let mask : 2 ^ (d + k) - 1 - (2 ^ k - 1) ≡ high * 2 ^ k =
      let cut : 2 ^ k * (2 ^ d - 1) ≡ 2 ^ k * 2 ^ d - 2 ^ k * 1 = mul-sub (2 ^ k) (2 ^ d) 1 in
      omega (arith, pow-add d k, one-le-pow k 2) in
    let positive : 0 < 2 ^ k = omega (arith, one-le-pow k 2) in
    let inside : x / 2 ^ k % 2 ^ d ≡ x / 2 ^ k =
      mod-eq_of_lt ((div-lt_iff_lt-mul positive).1 small) in
    rw mask (bit_and_high k x high ∙ ap (λ q. q * 2 ^ k) (bit_and_low d (x / 2 ^ k) ∙ inside))

-- Rounding up to a multiple of `size`.
round_up :
    (size n : ℕ)
    → 0 < size
    → let r = (n + (size - 1)) / size * size in (n ≤ r) × (r < n + size) × (r % size ≡ 0)
round_up size n h =
    let x = n + (size - 1) in
    let whole : x % size + x / size * size ≡ x = mod-add-div' x size in
    let rest : x % size < size = mod-lt x h in
    (omega arith, omega arith, mul-mod_left (x / size) size)

-- A difference of addresses.
distance : (a b n : ℕ) → a ≤ b → b < n → (b + n - a) % n ≡ b - a
distance a b n le lt =
    let past : n ≤ b + n - a = omega arith in
    let back : b + n - a - n ≡ b - a = omega arith in
    let small : b - a < n = omega arith in
    mod-eq-sub-mod past ∙ ap (λ (t : ℕ). t % n) back ∙ mod-eq_of_lt small

module _ (m : Machine) (d : ℕ) (wide : m.address_bits ≡ d + m.align_bits) where
  pub align_bounds :
      (n : ℕ)
      → n + 2 ^ m.align_bits ≤ 2 ^ m.address_bits
      → (n ≤ align m n) × (align m n < n + 2 ^ m.align_bits) × (align m n % 2 ^ m.align_bits ≡ 0)
  unfolding align
  align_bounds n h =
      let k = m.align_bits in
      let x = n + (2 ^ k - 1) in
      let positive : 0 < 2 ^ k = omega (arith, one-le-pow k 2) in
      let small : x < 2 ^ m.address_bits = omega arith in
      let same : align m n ≡ x / 2 ^ k * 2 ^ k =
        rw (mod-eq_of_lt small, wide) (and_complement d k x (rw (← wide) small)) in
      rw same (round_up (2 ^ k) n positive)

  -- The area after one of `n` bytes at `a`.
  next_area :
      (a n : ℕ)
      → a + n + 2 ^ m.align_bits ≤ 2 ^ m.address_bits
      → let b = align m (advance m a n) in
        (a + n ≤ b) × (b < a + n + 2 ^ m.align_bits) × (b % 2 ^ m.align_bits ≡ 0)
  next_area a n h =
      let small : a + n < 2 ^ m.address_bits = omega (arith, one-le-pow m.align_bits 2) in
      rw (mod-eq_of_lt small) (align_bounds (a + n) h)

  -- On the mcp750, with `sysMemTop` aligned and the sizes within the addresses: the boot record, the
  -- exception storage and the four areas follow each other within the reserved block, each at an
  -- aligned address, and less than six alignments are lost.
  pub mcp750_setup-Ordered :
      (c : BoardConfig) (start_addr : ℕ) (table : List MemTable)
      → start_addr % 2 ^ m.align_bits ≡ 0
      → start_addr + total_size m c + 6 * 2 ^ m.align_bits ≤ 2 ^ m.address_bits
      → let s = mcp750_setup m c start_addr table in
        (s.reserved_block.block_ptr ≡ start_addr)
        × Ordered start_addr (areas m s.memory_map) (start_addr + s.reserved_block.block_size)
        × Aligned (2 ^ m.align_bits) (areas m s.memory_map)
        × (s.reserved_block.block_size ≤ total_size m c + 6 * 2 ^ m.align_bits)
  unfolding mcp750_setup
  mcp750_setup-Ordered c start_addr table top h =
      let p1 = next_area start_addr m.boot_record_size (omega arith) in
      let exceptions = align m (advance m start_addr m.boot_record_size) in
      let p2 = next_area exceptions m.exception_storage_size (omega arith) in
      let reset = align m (advance m exceptions m.exception_storage_size) in
      let p3 = next_area reset c.reset_area_size (omega arith) in
      let disk = align m (advance m reset c.reset_area_size) in
      let p4 = next_area disk (disk_size c) (omega arith) in
      let cds = align m (advance m disk (disk_size c)) in
      let p5 = next_area cds c.cds_size (omega arith) in
      let user = align m (advance m cds c.cds_size) in
      let p6 = next_area user c.user_reserved_size (omega arith) in
      let end_addr = align m (advance m user c.user_reserved_size) in
      let size = distance start_addr end_addr (2 ^ m.address_bits) (omega arith) (omega arith) in
      rw size (
        refl,
        (omega arith, (p1.0, (p2.0, (p3.0, (p4.0, (p5.0, omega arith)))))),
        (top, (p1.2, (p2.2, (p3.2, (p4.2, (p5.2, tt)))))),
        omega arith,
      )
