-- ===== src/BoardCds.antt =====
-- The critical data store and the areas of the boards, on their flat memory:
-- fsw/mcp750-vxworks/src/cfe_psp_memory.c. The functions of fsw/pc-rtems/src/cfe_psp_memory.c and of
-- fsw/shared-freertos/vendor/cfe_psp_memory.c have the same statements, with OS_SUCCESS and OS_ERROR
-- for the statuses of the same values.
pub mod Window
pub mod Refine
pub mod Client
mod Tests
use fs_nasa_cfs_psp.Base.{
  ℕ, zero, suc, bit_and_low, bit_and_high, ◌+◌, ◌-◌, ◌*◌, ◌/◌, ◌%◌, ◌^◌, ◌≤◌, ◌<◌, min, bit_and,
  bit_or, ◌≡◌, refl, sym, ap, subst, ◌∙◌, ◌≢◌, ◌↔◌, ◌⊎◌, inl, inr, Bool, true, false, not, ◌&&◌,
  ◌||◌, Option, none, some, List, [], ◌∷◌, ◌++◌, map, arith, ltb, leb, ◌==◌, if◌then◌else◌, ltb→lt,
  lt→ltb, leb→le, tests, Bool-cases, Option-cases, length, get_elem?, get_or, set, take, drop,
  replicate, length-append, length-set, length-replicate, length-take, length-drop, drop-append,
  take-append, get_elem?-append_left, get_elem?-append_right, get_elem?-take, get_elem?-drop,
  u32_mod, u64_mod, add32, sub32,
}
use fs_nasa_cfs_psp.Status.{Status, success, error}
use fs_nasa_cfs_psp.DirectMemory.{Memory, put}
use fs_nasa_cfs_psp.BoardMemory.{Block, MemoryMap, block}

-- The `n` bytes from an address.
unfoldable pub window : Memory → ℕ → ℕ → List ℕ
window m a zero = []
window m a (suc n) = m a ∷ window m (a + 1) n

-- Memory after bytes have been copied to an address.
unfoldable pub poke : Memory → ℕ → List ℕ → Memory
poke m a [] = m
poke m a (b ∷ bs) = put (poke m (a + 1) bs) a b

-- `none` if the copy reads beyond the caller's data. A copy beyond the store is one into the memory
-- after it.
unfoldable pub board_write_to_cds :
    MemoryMap → Memory → Option (List ℕ) → ℕ → ℕ → Option (Status × Memory)
board_write_to_cds r m none offset n = some (error, m)
board_write_to_cds r m (some source) offset n =
    let size = r.cds_memory.block_size in
    if ltb offset size && leb (add32 offset n) size
    then if leb n (length source)
      then some (success, poke m (r.cds_memory.block_ptr + offset) (take n source))
      else none
    else some (error, m)

-- The caller's buffer after the read, `none` if the copy leaves it.
unfoldable pub board_read_from_cds :
    MemoryMap → Memory → Option (List ℕ) → ℕ → ℕ → Option (Status × Option (List ℕ))
board_read_from_cds r m none offset n = some (error, none)
board_read_from_cds r m (some buffer) offset n =
    let size = r.cds_memory.block_size in
    if ltb offset size && leb (add32 offset n) size
    then if leb n (length buffer)
      then some (success, some (window m (r.cds_memory.block_ptr + offset) n ++ drop n buffer))
      else none
    else some (error, some buffer)

-- What the getters of the areas store through their two pointers, if neither is NULL.
unfoldable pub board_get_cds_size : MemoryMap → Bool → Status × Option ℕ
board_get_cds_size r has_pointer =
    if has_pointer then (success, some r.cds_memory.block_size) else (error, none)

unfoldable pub board_get_reset_area : MemoryMap → Bool → Bool → Status × Option Block
board_get_reset_area r has_pointer has_size =
    if not has_pointer || not has_size then (error, none) else (success, some r.reset_memory)

unfoldable pub board_get_user_reserved_area : MemoryMap → Bool → Bool → Status × Option Block
board_get_user_reserved_area r has_pointer has_size =
    if not has_pointer || not has_size
    then (error, none)
    else (success, some r.user_reserved_memory)

unfoldable pub board_get_volatile_disk_mem : MemoryMap → Bool → Bool → Status × Option Block
board_get_volatile_disk_mem r has_pointer has_size =
    if not has_pointer || not has_size
    then (error, none)
    else (success, some r.volatile_disk_memory)

-- The text segments. `none` is a store through a NULL pointer that the code does not test.
unfoldable pub mcp750_get_kernel_text_segment_info :
    ℕ → ℕ → Bool → Bool → Option (Status × Option Block)
mcp750_get_kernel_text_segment_info start_address end_address has_pointer has_size =
    if not has_size
    then some (error, none)
    else if not has_pointer
    then none
    else some
        (success, some (block start_address ((end_address + u64_mod - start_address) % u32_mod)))

-- `by_symbol` is the module that GetCfeCoreModuleID names, if the symbol is found, and `by_name` that
-- of the core's file name, 0 for none; `module_info` is moduleInfoGet.
unfoldable pub mcp750_get_cfe_text_segment_info :
    Option ℕ → ℕ → (ℕ → Option Block) → Bool → Bool → Status × Option Block
mcp750_get_cfe_text_segment_info by_symbol by_name module_info has_pointer has_size =
    let first : ℕ = elim by_symbol [ none ↦ 0 | some id ↦ id ] in
    let id = (if first == 0 then by_name else first) in
    if not has_pointer || not has_size
    then (error, none)
    else if id == 0
    then (error, none)
    else elim (module_info id) [ none ↦ (success, none) | some b ↦ (success, some b) ]

unfoldable pub rtems_get_kernel_text_segment_info : Bool → Bool → Status × Option Block
rtems_get_kernel_text_segment_info has_pointer has_size =
    if not has_size || not has_pointer then (error, none) else (success, some (block 0 0x1024))

unfoldable pub rtems_get_cfe_text_segment_info : Bool → Bool → Option (Status × Option Block)
rtems_get_cfe_text_segment_info has_pointer has_size =
    if not has_size
    then some (error, none)
    else if not has_pointer
    then none
    else some (success, some (block 0 0x1024))
