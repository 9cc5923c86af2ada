-- ===== src/Startup/Resets.antt =====
-- The start of fsw/pc-linux/src/cfe_psp_start.c: the reset type it chooses, and what becomes of the
-- reserved memory.
use native.Mathlib.Decide.{ℕ_discrete}
use mathlib.Core.List.{append-nil}
use fs_nasa_cfs_psp.Base.{
  ℕ, zero, suc, ◌≡◌, refl, ◌≢◌, ◌⊎◌, inl, inr, true, false, Option, none, some, List, [], ◌∷◌,
  arith, ◌==◌, length, drop, replicate, length-replicate,
}
use fs_nasa_cfs_psp.MemRange.{MemTable}
use fs_nasa_cfs_psp.ExceptionStorage.{Osal, Storage}
use fs_nasa_cfs_psp.ReservedMemory.{
  Config, BootRecord, ResetSegment, SharedMemory, ReservedMemoryMap, attach, clear,
  rst_type_processor, rst_type_poweron, bootrecord_invalid, zero_storage, setup_reserved_memory_map,
  init_processor_reserved_memory, init_cds, init_reset_area, init_user_reserved_area,
}
use fs_nasa_cfs_psp.Startup.{CommandData, choose_reset, requested_reset, startup}

-- Segments that exist have the sizes of the configuration.
pub record IsSized (c : Config) (shm : SharedMemory) : Type 0 where
  pub cds_sized : (b : List ℕ) → shm.cds_segment ≡ some b → length b ≡ c.cds_size
  pub reset_sized :
      (s : ResetSegment) → shm.reset_segment ≡ some s → length s.reset_memory ≡ c.reset_area_size
  pub user_sized : (b : List ℕ) → shm.user_segment ≡ some b → length b ≡ c.user_reserved_size

-- The memory map holds blocks of those sizes, and every key still leads to its segment.
pub record IsMapped (c : Config) (m : ReservedMemoryMap) : Type 0 where
  pub cds_length : length m.cds_memory.block ≡ c.cds_size
  pub reset_length : length m.reset_area.block.reset_memory ≡ c.reset_area_size
  pub user_length : length m.user_reserved_memory.block ≡ c.user_reserved_size
  pub cds_linked : m.cds_memory.linked ≡ true
  pub reset_linked : m.reset_area.linked ≡ true
  pub user_linked : m.user_reserved_memory.linked ≡ true

-- All that is reserved but for the boot record.
pub record Contents : Type 0 where
  pub cds : List ℕ
  pub reset_memory : List ℕ
  pub user : List ℕ
  pub exceptions : Storage

abbrev pub contents : ReservedMemoryMap → Contents
contents m = record {
  cds = m.cds_memory.block;
  reset_memory = m.reset_area.block.reset_memory;
  user = m.user_reserved_memory.block;
  exceptions = m.reset_area.block.exceptions;
}

abbrev pub zeros : Config → Osal → Contents
zeros c o = record {
  cds = replicate c.cds_size 0;
  reset_memory = replicate c.reset_area_size 0;
  user = replicate c.user_reserved_size 0;
  exceptions = zero_storage o;
}

abbrev pub boot_of : ReservedMemoryMap → BootRecord
boot_of m = m.reset_area.block.boot

abbrev pub mapped : Config → Osal → SharedMemory → List MemTable → ReservedMemoryMap
mapped c o shm table = (setup_reserved_memory_map c o shm table).0

drop_all : (n : ℕ) (xs : List ℕ) → length xs ≡ n → drop n xs ≡ []
drop_all zero [] h = refl
drop_all zero (x ∷ xs) h = absurd (omega arith)
drop_all (suc n) [] h = absurd (omega arith)
drop_all (suc n) (x ∷ xs) h = drop_all n xs (omega arith)

clear_lem : (n : ℕ) (xs : List ℕ) → length xs ≡ n → clear n xs ≡ replicate n 0
clear_lem n xs h = rw (drop_all n xs h) (append-nil (replicate n 0))

attach-linked : {A : Type 0} (fresh : A) (s : Option A) → (attach fresh s).linked ≡ true
attach-linked fresh none = refl
attach-linked fresh (some a) = refl

attach-property :
    {A : Type 0} (P : A → Type 0) (fresh : A) (s : Option A)
    → P fresh
    → ((a : A) → s ≡ some a → P a)
    → P (attach fresh s).block
attach-property P fresh none p h = p
attach-property P fresh (some a) p h = h a refl

mapped-IsMapped :
    (c : Config) (o : Osal) (shm : SharedMemory) (table : List MemTable)
    → IsSized c shm
    → IsMapped c (mapped c o shm table)
unfolding setup_reserved_memory_map init_cds init_reset_area init_user_reserved_area
mapped-IsMapped c o shm table h = record {
  cds_length =
      attach-property (λ b. length b ≡ c.cds_size) _ shm.cds_segment (length-replicate c.cds_size 0)
        h.cds_sized;
  reset_length =
      attach-property (λ (s : ResetSegment). length s.reset_memory ≡ c.reset_area_size) _
        shm.reset_segment (length-replicate c.reset_area_size 0) h.reset_sized;
  user_length =
      attach-property (λ b. length b ≡ c.user_reserved_size) _ shm.user_segment
        (length-replicate c.user_reserved_size 0) h.user_sized;
  cds_linked = attach-linked _ shm.cds_segment;
  reset_linked = attach-linked _ shm.reset_segment;
  user_linked = attach-linked _ shm.user_segment;
}

init_poweron :
    (c : Config) (o : Osal) (m : ReservedMemoryMap)
    → IsMapped c m
    → let m' = (init_processor_reserved_memory c o rst_type_poweron m).1 in
      (contents m' ≡ zeros c o)
      × (boot_of m'
          ≡ record { validity_flag = bootrecord_invalid; next_reset_type = rst_type_processor })
      × IsMapped c m'
unfolding init_processor_reserved_memory
init_poweron c o m h =
    rw
      (
        clear_lem c.cds_size _ h.cds_length,
        clear_lem c.reset_area_size _ h.reset_length,
        clear_lem c.user_reserved_size _ h.user_length,
      )
      (
        refl,
        refl,
        record {
          cds_length = length-replicate c.cds_size 0;
          reset_length = length-replicate c.reset_area_size 0;
          user_length = length-replicate c.user_reserved_size 0;
          cds_linked = h.cds_linked;
          reset_linked = h.reset_linked;
          user_linked = h.user_linked;
        },
      )

init_processor :
    (c : Config) (o : Osal) (m : ReservedMemoryMap)
    → IsMapped c m
    → let m' = (init_processor_reserved_memory c o rst_type_processor m).1 in
      (contents m' ≡ contents m)
      × (boot_of m'
          ≡ record { validity_flag = bootrecord_invalid; next_reset_type = rst_type_poweron })
      × IsMapped c m'
unfolding init_processor_reserved_memory
init_processor c o m h = (
  refl,
  refl,
  record {
    cds_length = h.cds_length;
    reset_length = h.reset_length;
    user_length = h.user_length;
    cds_linked = h.cds_linked;
    reset_linked = h.reset_linked;
    user_linked = h.user_linked;
  },
)

-- A start, with segments of the configured sizes: it passes the processor reset to the main function
-- where the command line or the boot record asks for one, keeps what is reserved and prepares a
-- power-on start as the next; else it passes the power-on reset, sets all that is reserved to zero,
-- and prepares a processor reset as the next. In both cases it marks the boot record invalid.
pub startup_cases :
    (c : Config) (o : Osal) (d : CommandData) (shm : SharedMemory) (table : List MemTable)
    → IsSized c shm
    → let (t, m) = startup c o d shm table in
      let before = mapped c o shm table in
      IsMapped c m
      × (((requested_reset d (boot_of before) ≡ rst_type_processor)
            × (t ≡ rst_type_processor)
            × (contents m ≡ contents before)
            × (boot_of m ≡ record {
              validity_flag = bootrecord_invalid;
              next_reset_type = rst_type_poweron;
            }))
          ⊎ ((requested_reset d (boot_of before) ≢ rst_type_processor)
              × (t ≡ rst_type_poweron)
              × (contents m ≡ zeros c o)
              × (boot_of m ≡ record {
                validity_flag = bootrecord_invalid;
                next_reset_type = rst_type_processor;
              })))
unfolding startup choose_reset
startup_cases c o d shm table h =
    let before = mapped c o shm table in
    let is = mapped-IsMapped c o shm table h in
    elim (ℕ_discrete (requested_reset d (boot_of before)) rst_type_processor) [
      | yes e ↦
          let (same, boot, good) = init_processor c o before is in
          let test : (requested_reset d (boot_of before) == rst_type_processor) ≡ true =
            ground arith in
          rw test (good, inl (e, refl, same, boot))
      | no ne ↦
          let (cleared, boot, good) = init_poweron c o before is in
          let test : (requested_reset d (boot_of before) == rst_type_processor) ≡ false =
            ground arith in
          rw test (good, inr (ne, refl, cleared, boot))
    ]
