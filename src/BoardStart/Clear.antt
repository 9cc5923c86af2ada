-- ===== src/BoardStart/Clear.antt =====
-- What a start of the FreeRTOS boards clears and keeps.
use mathlib.Core.Option.{some-injective}
use fs_nasa_cfs_psp.Base.{
  ℕ, zero, suc, ◌+◌, ◌≤◌, ◌<◌, ◌≡◌, refl, sym, subst, ◌∙◌, ◌≢◌, ◌⊎◌, inl, inr, Bool, some, arith,
  ◌==◌, Bool-cases, get_elem?,
}
use fs_nasa_cfs_psp.Status.{success}
use fs_nasa_cfs_psp.DirectMemory.{Memory}
use fs_nasa_cfs_psp.DirectMemory.Access.{load32-store32, store32_other}
use fs_nasa_cfs_psp.ReservedMemory.{rst_type_processor, rst_type_poweron}
use fs_nasa_cfs_psp.ReservedMemory.Cds.{Outside}
use fs_nasa_cfs_psp.BoardMemory.{Machine, BoardConfig, Block, MemoryMap, block}
use fs_nasa_cfs_psp.BoardMemory.Layout.{Ordered, areas, Ordered-apart}
use fs_nasa_cfs_psp.BoardStart.{clear_bytes, bsp_reset_type, freertos_init, freertos_clear}
use fs_nasa_cfs_psp.BoardStart.Init.{clear_inside, clear-Outside, clear_zero}

abbrev pub InBlock : Block → ℕ → Type 0
InBlock b x = (b.block_ptr ≤ x) × (x < b.block_ptr + b.block_size)

found : (a b : Block) (x : ℕ) → some a ≡ some b → InBlock b x → InBlock a x
found a b x e h = subst (λ t. InBlock t x) (sym (some-injective a b e)) h

module _ (machine : Machine) (c : BoardConfig) (little : Bool) (r : MemoryMap) (m : Memory)
    (lo hi : ℕ) (ordered : Ordered lo (areas machine r) hi)
    (reset_sized : r.reset_memory.block_size ≡ c.reset_area_size)
    (cds_sized : r.cds_memory.block_size ≡ c.cds_size)
    (user_sized : r.user_reserved_memory.block_size ≡ c.user_reserved_size)
    (room : 4 ≤ machine.boot_record_size) where
  abbrev m1 : Memory
  m1 = clear_bytes m r.cds_memory.block_ptr c.cds_size

  abbrev m2 : Memory
  m2 = clear_bytes m1 r.reset_memory.block_ptr c.reset_area_size

  abbrev m3 : Memory
  m3 = clear_bytes m2 r.user_reserved_memory.block_ptr c.user_reserved_size

  abbrev m4 : Memory
  m4 = clear_bytes m3 r.boot_ptr machine.boot_record_size

  spread :
      (lo ≤ r.boot_ptr)
      × (r.boot_ptr + machine.boot_record_size ≤ r.exception_storage_ptr)
      × (r.exception_storage_ptr + machine.exception_storage_size ≤ r.reset_memory.block_ptr)
      × (r.reset_memory.block_ptr + c.reset_area_size ≤ r.volatile_disk_memory.block_ptr)
      × (r.volatile_disk_memory.block_ptr + r.volatile_disk_memory.block_size
          ≤ r.cds_memory.block_ptr)
      × (r.cds_memory.block_ptr + c.cds_size ≤ r.user_reserved_memory.block_ptr)
      × (r.user_reserved_memory.block_ptr + c.user_reserved_size ≤ hi)
  spread =
      let (h0, h1) = ordered in
      let (h2, h3) = h1 in
      let (h4, h5) = h3 in
      let (h6, h7) = h5 in
      let (h8, h9) = h7 in
      let (h10, h11) = h9 in (h0, h2, h4, omega arith, h8, omega arith, omega arith)

  disk_kept : (x : ℕ) → InBlock r.volatile_disk_memory x → freertos_clear machine c r m x ≡ m x
  disk_kept x h =
      let (h0, h1, h2, h3, h4, h5, h6) = spread in
      clear-Outside m4 r.exception_storage_ptr machine.exception_storage_size x (inr (omega arith))
      ∙ clear-Outside m3 r.boot_ptr machine.boot_record_size x (inr (omega arith))
      ∙ clear-Outside m2 r.user_reserved_memory.block_ptr c.user_reserved_size x (inl (omega arith))
      ∙ clear-Outside m1 r.reset_memory.block_ptr c.reset_area_size x (inr (omega arith))
      ∙ clear-Outside m r.cds_memory.block_ptr c.cds_size x (inl (omega arith))

  exceptions_zero : (x : ℕ) → m4 x ≡ 0 → freertos_clear machine c r m x ≡ 0
  exceptions_zero x h = clear_zero m4 r.exception_storage_ptr machine.exception_storage_size x h

  user_zero : (x : ℕ) → m3 x ≡ 0 → freertos_clear machine c r m x ≡ 0
  user_zero x h = exceptions_zero x (clear_zero m3 r.boot_ptr machine.boot_record_size x h)

  reset_zero : (x : ℕ) → m2 x ≡ 0 → freertos_clear machine c r m x ≡ 0
  reset_zero x h =
      user_zero x (clear_zero m2 r.user_reserved_memory.block_ptr c.user_reserved_size x h)

  cds_zero : (x : ℕ) → m1 x ≡ 0 → freertos_clear machine c r m x ≡ 0
  cds_zero x h = reset_zero x (clear_zero m1 r.reset_memory.block_ptr c.reset_area_size x h)

  area_cleared :
      (x i : ℕ) (area : Block)
      → i ≢ 3
      → get_elem? (areas machine r) i ≡ some area
      → InBlock area x
      → freertos_clear machine c r m x ≡ 0
  area_cleared x zero area other e h =
      let at : InBlock (block r.boot_ptr machine.boot_record_size) x = found _ area x e h in
      exceptions_zero x (clear_inside m3 r.boot_ptr machine.boot_record_size x at.0 at.1)
  area_cleared x (suc zero) area other e h =
      let at : InBlock (block r.exception_storage_ptr machine.exception_storage_size) x =
        found _ area x e h in
      clear_inside m4 r.exception_storage_ptr machine.exception_storage_size x at.0 at.1
  area_cleared x (suc (suc zero)) area other e h =
      let at : InBlock r.reset_memory x = found _ area x e h in
      reset_zero x (clear_inside m1 r.reset_memory.block_ptr c.reset_area_size x at.0 (omega arith))
  area_cleared x (suc (suc (suc zero))) area other e h = absurd (other refl)
  area_cleared x (suc (suc (suc (suc zero)))) area other e h =
      let at : InBlock r.cds_memory x = found _ area x e h in
      cds_zero x (clear_inside m r.cds_memory.block_ptr c.cds_size x at.0 (omega arith))
  area_cleared x (suc (suc (suc (suc (suc zero))))) area other e h =
      let at : InBlock r.user_reserved_memory x = found _ area x e h in
      user_zero x
        (clear_inside m2 r.user_reserved_memory.block_ptr c.user_reserved_size x at.0 (omega arith))
  area_cleared x (suc (suc (suc (suc (suc (suc i)))))) area other e h = absurd cc

  boot_apart :
      (x i : ℕ) (area : Block)
      → i ≢ 0
      → get_elem? (areas machine r) i ≡ some area
      → InBlock area x
      → Outside r.boot_ptr 4 x
  boot_apart x i area other e h =
      let boot = block r.boot_ptr machine.boot_record_size in
      let positive : 0 < i = ground arith in
      let before = Ordered-apart lo (areas machine r) hi 0 i boot area ordered refl e positive in
      inr (omega (arith, h.0))

  -- The start of a FreeRTOS board, on areas in order with the configured sizes. A power-on reset
  -- clears the exception storage, the reset area, the CDS and the user area and keeps the volatile
  -- disk, and `bsp_reset_type` becomes that of a processor reset. Any other reset keeps every byte
  -- but those of `bsp_reset_type`, which becomes that of a power-on reset.
  pub freertos_init-cases :
      (restart_type : ℕ)
      → let (status, t) = freertos_init machine c little r restart_type m in
        (status ≡ success)
        × (((restart_type ≡ rst_type_poweron)
              × (bsp_reset_type little r t ≡ rst_type_processor)
              × ((x : ℕ) → InBlock r.volatile_disk_memory x → t x ≡ m x)
              × ((x i : ℕ) (area : Block)
                  → i ≢ 0
                  → i ≢ 3
                  → get_elem? (areas machine r) i ≡ some area
                  → InBlock area x
                  → t x ≡ 0))
            ⊎ ((restart_type ≢ rst_type_poweron)
                × (bsp_reset_type little r t ≡ rst_type_poweron)
                × ((x : ℕ) → Outside r.boot_ptr 4 x → t x ≡ m x)))
  unfolding freertos_init
  freertos_init-cases restart_type =
      let cleared = freertos_clear machine c r m in
      elim (Bool-cases (restart_type == rst_type_poweron)) [
        | inl poweron ↦ rw poweron (
          refl,
          inl (
            ground arith,
            load32-store32 little cleared r.boot_ptr rst_type_processor (omega arith),
            λ x h.
                store32_other little cleared r.boot_ptr rst_type_processor x
                  (boot_apart x 3 r.volatile_disk_memory (ground arith) refl h)
                ∙ disk_kept x h,
            λ x i area other disk e h.
                store32_other little cleared r.boot_ptr rst_type_processor x
                  (boot_apart x i area other e h)
                ∙ area_cleared x i area disk e h,
          ),
        )
        | inr other ↦ rw other (
          refl,
          inr (
            ground arith,
            load32-store32 little m r.boot_ptr rst_type_poweron (omega arith),
            λ x out. store32_other little m r.boot_ptr rst_type_poweron x out,
          ),
        )
      ]
