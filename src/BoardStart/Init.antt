-- ===== src/BoardStart/Init.antt =====
-- Clearing memory, and what a start of the mcp750 clears and keeps.

use fs_nasa_cfs_psp.Base.{
  ℕ, ◌+◌, ◌≤◌, ◌<◌, ◌≡◌, ◌∙◌, ◌≢◌, ◌⊎◌, inl, inr, Bool, arith, ◌==◌, Bool-cases,
}
use fs_nasa_cfs_psp.DirectMemory.{Memory}
use fs_nasa_cfs_psp.DirectMemory.Access.{load32-store32, store32_other}
use fs_nasa_cfs_psp.ReservedMemory.{rst_type_processor, rst_type_poweron}
use fs_nasa_cfs_psp.ReservedMemory.Cds.{Outside}
use fs_nasa_cfs_psp.BoardMemory.{Setup}
use fs_nasa_cfs_psp.BoardStart.{
  clear_bytes, bsp_reset_type, mcp750_init, mcp750_reset, mcp750_start, Blrr,
}

pub clear_inside : (m : Memory) (a n x : ℕ) → a ≤ x → x < a + n → clear_bytes m a n x ≡ 0
clear_inside m a n x low high = ground arith

pub clear-Outside : (m : Memory) (a n x : ℕ) → Outside a n x → clear_bytes m a n x ≡ m x
clear-Outside m a n x (inl before) = ground arith
clear-Outside m a n x (inr after) = ground arith

-- A byte that is 0 stays so.
pub clear_zero : (m : Memory) (a n x : ℕ) → m x ≡ 0 → clear_bytes m a n x ≡ 0
clear_zero m a n x h = ground arith

pub narrow : (a n x : ℕ) → 4 ≤ n → Outside a n x → Outside a 4 x
narrow a n x room (inl before) = inl before
narrow a n x room (inr after) = inr (omega arith)

-- A start of the mcp750, where the boot record stands at the start of the reserved block: a processor
-- reset keeps every byte but those of `bsp_reset_type`, which becomes that of a power-on reset. Any
-- other reset clears the whole reserved block but for `bsp_reset_type`, which becomes that of a
-- processor reset, and keeps every byte outside the block.
pub mcp750_start-cases :
    (b : Blrr) (little : Bool) (s : Setup) (register : ℕ) (m : Memory)
    → s.memory_map.boot_ptr ≡ s.reserved_block.block_ptr
    → 4 ≤ s.reserved_block.block_size
    → let (reset, t) = mcp750_start b little s register m in
      let start = s.reserved_block.block_ptr in
      let size = s.reserved_block.block_size in
      ((reset.0 ≡ rst_type_processor)
        × (bsp_reset_type little s.memory_map t ≡ rst_type_poweron)
        × ((x : ℕ) → Outside start 4 x → t x ≡ m x))
      ⊎ ((reset.0 ≢ rst_type_processor)
          × (bsp_reset_type little s.memory_map t ≡ rst_type_processor)
          × ((x : ℕ) → start + 4 ≤ x → x < start + size → t x ≡ 0)
          × ((x : ℕ) → Outside start size x → t x ≡ m x))
unfolding mcp750_start mcp750_init
mcp750_start-cases b little s register m at room =
    let type = (mcp750_reset b register (bsp_reset_type little s.memory_map m)).0 in
    let start = s.reserved_block.block_ptr in
    let size = s.reserved_block.block_size in
    let cleared = clear_bytes m start size in
    elim (Bool-cases (type == rst_type_processor)) [
      | inl processor ↦ rw processor (
          inl (
            ground arith,
            load32-store32 little m s.memory_map.boot_ptr rst_type_poweron (omega arith),
            λ x out. rw at (store32_other little m start rst_type_poweron x out),
          ))
      | inr other ↦ rw other (
          inr (
            ground arith,
            load32-store32 little cleared s.memory_map.boot_ptr rst_type_processor (omega arith),
            λ x low high.
                rw at (store32_other little cleared start rst_type_processor x (inr low))
                ∙ clear_inside m start size x (omega arith) high,
            λ x out.
                rw at (
                  store32_other little cleared start rst_type_processor x
                    (narrow start size x room out))
                ∙ clear-Outside m start size x out,
          ))
    ]
