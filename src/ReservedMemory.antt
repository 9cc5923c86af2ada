-- ===== src/ReservedMemory.antt =====
-- fsw/pc-linux/src/cfe_psp_memory.c: the memory that outlives the program, in three shared memory
-- segments. A segment is a list of bytes, or a record where the code gives it a layout.
pub mod Cds
mod Tests
use fs_nasa_cfs_psp.Base.{
  ℕ, ◌+◌, ◌-◌, ◌*◌, ◌^◌, ◌≡◌, Bool, true, false, not, ◌&&◌, Option, none, some, List, [], ◌∷◌, ◌++◌,
  ltb, leb, ◌==◌, if◌then◌else◌, length, take, drop, replicate, add32,
}
use fs_nasa_cfs_psp.Status.{Status, success, error, error_not_implemented}
use fs_nasa_cfs_psp.MemRange.{MemTable, mem_ram, size_dword, attr_readwrite, mem_range_set}
use fs_nasa_cfs_psp.ExceptionStorage.{Osal, Storage, zero_log, max_exception_entries}

-- Reset types, fsw/inc/cfe_psp.h.
abbrev pub rst_type_processor : ℕ
rst_type_processor = 1

abbrev pub rst_type_poweron : ℕ
rst_type_poweron = 2

-- The validity flags of fsw/pc-linux/inc/cfe_psp_config.h; the second is `~` of the first.
abbrev pub bootrecord_valid : ℕ
bootrecord_valid = 0x2aebe984

abbrev pub bootrecord_invalid : ℕ
bootrecord_invalid = 2 ^ 32 - 1 - bootrecord_valid

-- The sizes that GLOBAL_CONFIGDATA gives.
pub record Config : Type 0 where
  pub cds_size : ℕ
  pub reset_area_size : ℕ
  pub user_reserved_size : ℕ

pub record BootRecord : Type 0 where
  pub validity_flag : ℕ
  pub next_reset_type : ℕ

-- The segment of `CFE_PSP_InitResetArea`: the fixed blocks, and the ES reset area on the next page.
pub record ResetSegment : Type 0 where
  pub boot : BootRecord
  pub exceptions : Storage
  pub reset_memory : List ℕ

-- What the kernel holds between two runs: `none` for a segment that does not exist.
pub record SharedMemory : Type 0 where
  pub cds_segment : Option (List ℕ)
  pub reset_segment : Option ResetSegment
  pub user_segment : Option (List ℕ)

-- A segment in use, and whether its key still leads to it.
pub record Attached (A : Type 0) : Type 0 where
  pub block : A
  pub linked : Bool

-- `CFE_PSP_ReservedMemoryMap`.
pub record ReservedMemoryMap : Type 0 where
  pub cds_memory : Attached (List ℕ)
  pub reset_area : Attached ResetSegment
  pub user_reserved_memory : Attached (List ℕ)

-- `shmget` with IPC_CREAT and `shmat`: the segment of the key, or else a new one, which the kernel
-- fills with zeros.
abbrev pub attach : {A : Type 0} → A → Option A → Attached A
attach fresh none = record { block = fresh; linked = true }
attach fresh (some a) = record { block = a; linked = true }

-- `shmctl` with IPC_RMID: the key leads nowhere, and the memory stays while it is attached.
abbrev pub remove : {A : Type 0} → Attached A → Attached A
remove s = record s { linked = false }

-- What is left when the program has ended.
abbrev pub detach : {A : Type 0} → Attached A → Option A
detach s = if s.linked then some s.block else none

abbrev pub zero_boot : BootRecord
zero_boot = record { validity_flag = 0; next_reset_type = 0 }

abbrev pub zero_storage : Osal → Storage
zero_storage o = record {
  num_written = 0;
  num_read = 0;
  entries = replicate max_exception_entries (zero_log o);
}

unfoldable pub init_cds : Config → SharedMemory → Attached (List ℕ)
init_cds c shm = attach (replicate c.cds_size 0) shm.cds_segment

unfoldable pub init_reset_area : Config → Osal → SharedMemory → Attached ResetSegment
init_reset_area c o shm =
    attach
      (record {
        boot = zero_boot;
        exceptions = zero_storage o;
        reset_memory = replicate c.reset_area_size 0;
      })
      shm.reset_segment

unfoldable pub init_user_reserved_area : Config → SharedMemory → Attached (List ℕ)
init_user_reserved_area c shm = attach (replicate c.user_reserved_size 0) shm.user_segment

-- The memory map, and the memory ranges with the RAM entry.
unfoldable pub setup_reserved_memory_map :
    Config → Osal → SharedMemory → List MemTable → ReservedMemoryMap × List MemTable
unfolding init_cds init_reset_area init_user_reserved_area
setup_reserved_memory_map c o shm table = (
  record {
    cds_memory = init_cds c shm;
    reset_area = init_reset_area c o shm;
    user_reserved_memory = init_user_reserved_area c shm;
  },
  (mem_range_set table 0 (record {
    memory_type = mem_ram;
    start_addr = 0;
    size = 2 ^ 64 - 1;
    word_size = size_dword;
    attributes = attr_readwrite;
  })).1,
)

unfoldable pub delete_cds : ReservedMemoryMap → ReservedMemoryMap
delete_cds m = record m { cds_memory = remove m.cds_memory }

unfoldable pub delete_reset_area : ReservedMemoryMap → ReservedMemoryMap
delete_reset_area m = record m { reset_area = remove m.reset_area }

unfoldable pub delete_user_reserved_area : ReservedMemoryMap → ReservedMemoryMap
delete_user_reserved_area m = record m { user_reserved_memory = remove m.user_reserved_memory }

unfoldable pub delete_processor_reserved_memory : ReservedMemoryMap → ReservedMemoryMap
unfolding delete_cds delete_reset_area delete_user_reserved_area
delete_processor_reserved_memory m = delete_user_reserved_area (delete_reset_area (delete_cds m))

-- `memcpy` of `n` bytes between two blocks, `none` where it leaves one of them.
abbrev pub memcpy : List ℕ → ℕ → List ℕ → ℕ → ℕ → Option (List ℕ)
memcpy dst to src from n =
    if leb (from + n) (length src) && leb (to + n) (length dst)
    then some (take to dst ++ (take n (drop from src) ++ drop (to + n) dst))
    else none

-- `memset` of the first `n` bytes of a block to 0.
abbrev pub clear : ℕ → List ℕ → List ℕ
clear n block = replicate n 0 ++ drop n block

abbrev pub with_status : {A : Type 0} → Status → Option A → Option (Status × A)
with_status s none = none
with_status s (some a) = some (s, a)

-- `CFE_PSP_WriteToCDS` on the block of the store: `none` if it writes or reads out of bounds.
unfoldable pub write_to_cds : ℕ → List ℕ → Option (List ℕ) → ℕ → ℕ → Option (Status × List ℕ)
write_to_cds cds_size block none offset n = some (error, block)
write_to_cds cds_size block (some source) offset n =
    if ltb offset cds_size && leb (add32 offset n) cds_size
    then with_status success (memcpy block offset source 0 n)
    else some (error, block)

-- `CFE_PSP_ReadFromCDS`: the caller's buffer after it.
unfoldable pub read_from_cds :
    ℕ → List ℕ → Option (List ℕ) → ℕ → ℕ → Option (Status × Option (List ℕ))
read_from_cds cds_size block none offset n = some (error, none)
read_from_cds cds_size block (some buffer) offset n =
    if ltb offset cds_size && leb (add32 offset n) cds_size
    then elim (memcpy buffer 0 block offset n) [ none ↦ none | some b ↦ some (success, some b) ]
    else some (error, some buffer)

-- `CFE_PSP_GetCDSSize`, `none` for a NULL pointer.
unfoldable pub get_cds_size : ℕ → Bool → Status × Option ℕ
get_cds_size cds_size has_pointer = if has_pointer then (success, some cds_size) else (error, none)

-- The areas are cleared before a power-on start, and the next start is prepared as that after a
-- crash.
unfoldable pub init_processor_reserved_memory :
    Config → Osal → ℕ → ReservedMemoryMap → Status × ReservedMemoryMap
init_processor_reserved_memory c o restart_type m =
    let cleared =
      if restart_type == rst_type_poweron
      then record {
        cds_memory = record m.cds_memory { block = clear c.cds_size m.cds_memory.block };
        reset_area = record m.reset_area {
          block = record {
            boot = record zero_boot { next_reset_type = rst_type_processor };
            exceptions = zero_storage o;
            reset_memory = clear c.reset_area_size m.reset_area.block.reset_memory;
          };
        };
        user_reserved_memory = record m.user_reserved_memory {
          block = clear c.user_reserved_size m.user_reserved_memory.block;
        };
      }
      else record m {
        reset_area = record m.reset_area {
          block = record m.reset_area.block {
            boot = record m.reset_area.block.boot { next_reset_type = rst_type_poweron };
          };
        };
      } in
    (
      success,
      record cleared {
        reset_area = record cleared.reset_area {
          block = record cleared.reset_area.block {
            boot = record cleared.reset_area.block.boot { validity_flag = bootrecord_invalid };
          };
        };
      },
    )
