-- ===== src/BoardCds/Refine.antt =====
-- The boards' data store does what pc-linux's does on the list of its bytes.
use mathlib.Core.Option.{some-injective}
use fs_nasa_cfs_psp.Base.{
  ℕ, ◌+◌, ◌-◌, ◌^◌, ◌≤◌, ◌<◌, ◌≡◌, refl, sym, ap, ◌∙◌, ◌≢◌, ◌⊎◌, inl, inr, true, ◌&&◌, some, List,
  arith, ltb, leb, Bool-cases, length, get_elem?, take, drop, length-take, add32,
}
use fs_nasa_cfs_psp.Status.{Status, success, error}
use fs_nasa_cfs_psp.DirectMemory.{Memory}
use fs_nasa_cfs_psp.ReservedMemory.{write_to_cds, read_from_cds}
use fs_nasa_cfs_psp.ReservedMemory.Cds.{Outside, spliced}
use fs_nasa_cfs_psp.BoardMemory.{Machine, Block, MemoryMap}
use fs_nasa_cfs_psp.BoardMemory.Layout.{Ordered, areas, Ordered-apart}
use fs_nasa_cfs_psp.BoardCds.{window, poke, board_write_to_cds, board_read_from_cds}
use fs_nasa_cfs_psp.BoardCds.Window.{
  length-window, window-cong, poke-Outside, take-window, drop-window, window-poke_inside,
}

-- The bytes of the store.
abbrev pub cds_bytes : MemoryMap → Memory → List ℕ
cds_bytes r m = window m r.cds_memory.block_ptr r.cds_memory.block_size

module _ (r : MemoryMap) (m : Memory) where
  -- A copy into the store, on the list of its bytes.
  poke-spliced :
      (source : List ℕ) (offset n : ℕ)
      → offset + n ≤ r.cds_memory.block_size
      → n ≤ length source
      → window
          (poke m (r.cds_memory.block_ptr + offset) (take n source))
          r.cds_memory.block_ptr
          r.cds_memory.block_size
        ≡ spliced (cds_bytes r m) offset source n
  poke-spliced source offset n within hs =
      let p = r.cds_memory.block_ptr in
      let size = r.cds_memory.block_size in
      let count : length (take n source) ≡ n = omega (arith, length-take n source) in
      let inside : offset + length (take n source) ≤ size = omega arith in
      let along : p + offset + n ≡ p + (offset + n) = omega arith in
      let before = take-window m p offset size (omega arith) in
      let after = drop-window m p (offset + n) size within in
      window-poke_inside m p offset size (take n source) inside
      ∙ rw (count, along, before, after) refl

  -- A byte outside the store is outside a copy into it.
  beyond :
      (source : List ℕ) (offset n x : ℕ)
      → offset + n ≤ r.cds_memory.block_size
      → n ≤ length source
      → Outside r.cds_memory.block_ptr r.cds_memory.block_size x
      → Outside (r.cds_memory.block_ptr + offset) (length (take n source)) x
  beyond source offset n x within hs (inl before) = inl (omega arith)
  beyond source offset n x within hs (inr past) = inr (omega (arith, length-take n source))

  -- A write to a board's CDS, where offset and count do not wrap and the caller's data has that many
  -- bytes, ends with the status and the bytes of the store of pc-linux's write to a segment with the
  -- same bytes, and changes no byte outside the store.
  pub board_write_to_cds-Refines :
      (source : List ℕ) (offset n : ℕ)
      → offset + n < 2 ^ 32
      → n ≤ length source
      → let size = r.cds_memory.block_size in
        (s : Status) × (t : Memory) × (board_write_to_cds r m (some source) offset n ≡ some (s, t))
        × (write_to_cds size (cds_bytes r m) (some source) offset n ≡ some (s, cds_bytes r t))
        × ((x : ℕ) → Outside r.cds_memory.block_ptr size x → t x ≡ m x)
  unfolding board_write_to_cds write_to_cds
  board_write_to_cds-Refines source offset n small hs =
      let p = r.cds_memory.block_ptr in
      let size = r.cds_memory.block_size in
      let long : length (cds_bytes r m) ≡ size = length-window m p size in
      elim (Bool-cases (ltb offset size && leb (add32 offset n) size)) [
        | inl taken ↦
            let within : offset + n ≤ size = ground arith in
            let room : leb n (length source) ≡ true = ground arith in
            let fits : (leb (0 + n) (length source) && leb (offset + n) (length (cds_bytes r m)))
                ≡ true =
              ground arith in
            let count : length (take n source) ≡ n = omega (arith, length-take n source) in
            let t = poke m (p + offset) (take n source) in
            rw (taken, room, fits)
              (
                success,
                t,
                refl,
                ap (λ (b : List ℕ). some (success, b))
                    (sym (poke-spliced source offset n within hs)),
                λ x out.
                    poke-Outside m (p + offset) (take n source) x
                      (beyond source offset n x within hs out),
              )
        | inr refused ↦ rw refused (error, m, refl, refl, λ x out. refl)
      ]

  -- A read from a board's CDS, where offset and count do not wrap and the caller's buffer has room,
  -- returns what pc-linux's read returns from a segment with the same bytes.
  pub board_read_from_cds-Refines :
      (buffer : List ℕ) (offset n : ℕ)
      → offset + n < 2 ^ 32
      → n ≤ length buffer
      → board_read_from_cds r m (some buffer) offset n
        ≡ read_from_cds r.cds_memory.block_size (cds_bytes r m) (some buffer) offset n
  unfolding board_read_from_cds read_from_cds
  board_read_from_cds-Refines buffer offset n small hb =
      let p = r.cds_memory.block_ptr in
      let size = r.cds_memory.block_size in
      let long : length (cds_bytes r m) ≡ size = length-window m p size in
      elim (Bool-cases (ltb offset size && leb (add32 offset n) size)) [
        | inl taken ↦
            let within : offset + n ≤ size = ground arith in
            let room : leb n (length buffer) ≡ true = ground arith in
            let fits : (leb (offset + n) (length (cds_bytes r m)) && leb (0 + n) (length buffer))
                ≡ true =
              ground arith in
            let here : take n (drop offset (cds_bytes r m)) ≡ window m (p + offset) n =
              ap (take n) (drop-window m p offset size (omega arith))
              ∙ take-window m (p + offset) n (size - offset) (omega arith) in
            let same : 0 + n ≡ n = omega arith in rw (taken, room, fits, here, same) refl
        | inr refused ↦ rw refused refl
      ]

abbrev Apart : Block → Block → Type 0
Apart a b = (a.block_ptr + a.block_size ≤ b.block_ptr) ⊎ (b.block_ptr + b.block_size ≤ a.block_ptr)

Outside-block :
    (a b : Block) (x : ℕ)
    → Apart a b
    → a.block_ptr ≤ x
    → x < a.block_ptr + a.block_size
    → Outside b.block_ptr b.block_size x
Outside-block a b x (inl before) low high = inl (omega arith)
Outside-block a b x (inr after) low high = inr (omega arith)

Apart-from_cds :
    (machine : Machine) (r : MemoryMap) (lo hi i : ℕ) (area : Block)
    → Ordered lo (areas machine r) hi
    → i ≢ 4
    → get_elem? (areas machine r) i ≡ some area
    → Apart area r.cds_memory
Apart-from_cds machine r lo hi i area ordered other at = elim (Bool-cases (ltb i 4)) [
  | inl less ↦
      inl
        (Ordered-apart lo (areas machine r) hi i 4 area r.cds_memory ordered at refl (ground arith))
  | inr more ↦
      inr
        (Ordered-apart lo (areas machine r) hi 4 i r.cds_memory area ordered refl at (ground arith))
]

-- A write to a board's CDS, where offset and count do not wrap, the caller's data has that many bytes
-- and the six areas are ordered, keeps every byte of the five other areas, whatever its status.
pub board_write_to_cds-keeps :
    (machine : Machine) (r : MemoryMap) (lo hi : ℕ) (m t : Memory) (source : List ℕ)
    (offset n i : ℕ) (area : Block) (s : Status)
    → Ordered lo (areas machine r) hi
    → offset + n < 2 ^ 32
    → n ≤ length source
    → i ≢ 4
    → get_elem? (areas machine r) i ≡ some area
    → board_write_to_cds r m (some source) offset n ≡ some (s, t)
    → window t area.block_ptr area.block_size ≡ window m area.block_ptr area.block_size
board_write_to_cds-keeps machine r lo hi m t source offset n i area s ordered small hs other at e =
    let (s', t', e', w, frame) = board_write_to_cds-Refines r m source offset n small hs in
    let same : t' ≡ t = ap (λ p. p.1) (some-injective (s', t') (s, t) (sym e' ∙ e)) in
    let before_or_after = Apart-from_cds machine r lo hi i area ordered other at in
    rw (← same) (
      window-cong m t' area.block_ptr area.block_size
        (λ x low high. frame x (Outside-block area r.cds_memory x before_or_after low high)))
