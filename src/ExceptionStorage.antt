-- ===== src/ExceptionStorage.antt =====
-- fsw/shared/src/cfe_psp_exceptionstorage.c: the ring of exception records, and its producer, the
-- signal handler of fsw/pc-linux/src/cfe_psp_exception.c. `CFE_PSP_MAX_EXCEPTION_ENTRIES` is 4, as
-- in the configurations of pc-linux, mcp750-vxworks and the FreeRTOS boards.
pub mod Ring
pub mod Queue
pub mod Refine
pub mod Ids
pub mod Boards
pub mod Reasons
mod Tests
use fs_nasa_cfs_psp.Base.{
  ℕ, zero, suc, ◌+◌, ◌-◌, ◌*◌, ◌%◌, ◌^◌, ◌<◌, ◌≡◌, Bool, true, false, ◌&&◌, not, Option, none, some,
  List, [], ◌∷◌, ◌++◌, bit_and, ltb, leb, ◌==◌, if◌then◌else◌, length, get_or, set, take, drop,
  replicate, u32_mod, add32, sub32,
}
use fs_nasa_cfs_psp.Status.{Status, success, no_exception_data}

abbrev pub max_exception_entries : ℕ
max_exception_entries = 4

abbrev pub max_exception_entry_mask : ℕ
max_exception_entry_mask = max_exception_entries - 1

-- What the code takes from OSAL and from the platform: the constants OS_OBJECT_TYPE_USER,
-- OS_OBJECT_TYPE_SHIFT and OS_OBJECT_INDEX_MASK, `OS_TaskFindIdBySystemData` (`none` for any status
-- but OS_SUCCESS), OS_OBJECT_ID_UNDEFINED, and the size of `context_info`.
pub record Osal : Type 0 where
  pub object_type_user : ℕ
  pub object_type_shift : ℕ
  pub object_index_mask : ℕ
  pub object_id_undefined : ℕ
  pub task_find_id_by_system_data : ℕ → Option ℕ
  pub context_info_size : ℕ

-- The documented layout of OSAL object ids: a type above a 16-bit index, within 32 bits.
pub record IsOsal (o : Osal) : Type 0 where
  pub shift : o.object_type_shift ≡ 16
  pub mask : o.object_index_mask ≡ 0xFFFF
  pub user : o.object_type_user < 0x8000

pub record LogData : Type 0 where
  pub context_id : ℕ
  pub context_size : ℕ
  pub sys_task_id : ℕ
  pub context_info : List ℕ

pub record Storage : Type 0 where
  pub num_written : ℕ
  pub num_read : ℕ
  pub entries : List LogData

unfoldable pub exception_id_base : Osal → ℕ
exception_id_base o = (o.object_type_user + 0x101) * 2 ^ o.object_type_shift % u32_mod

-- An entry after `memset` to 0.
abbrev pub zero_log : Osal → LogData
zero_log o = record {
  context_id = 0;
  context_size = 0;
  sys_task_id = 0;
  context_info = replicate o.context_info_size 0;
}

unfoldable pub reset : Storage → Storage
reset s = record s { num_read = s.num_written }

-- The index of the entry that `CFE_PSP_Exception_GetBuffer` points to.
unfoldable pub buffer_index : ℕ → ℕ
buffer_index seq = bit_and seq max_exception_entry_mask

unfoldable pub get_buffer : Osal → Storage → ℕ → LogData
get_buffer o s seq = get_or s.entries (buffer_index seq) (zero_log o)

unfoldable pub get_count : Storage → ℕ
get_count s = sub32 s.num_written s.num_read

-- The id that an entry written as number `seq` is given.
unfoldable pub context_id_of : Osal → ℕ → ℕ
context_id_of o seq = add32 (exception_id_base o) (bit_and seq o.object_index_mask)

-- `none` for NULL, else the index of the buffer, with the entry there cleared and given its id.
unfoldable pub get_next_context_buffer : Osal → Storage → Option ℕ × Storage
get_next_context_buffer o s =
    let next_write = s.num_written in
    if leb max_exception_entries (sub32 next_write s.num_read) then (none, s) else (
      some (buffer_index next_write),
      record s {
        entries =
            set s.entries (buffer_index next_write)
              (record (zero_log o) { context_id = context_id_of o next_write });
      },
    )

unfoldable pub write_complete : Osal → Storage → Storage
write_complete o s =
    let written = add32 s.num_written 1 in
    record s {
      num_written = written;
      entries =
          set s.entries (buffer_index written) (record (get_buffer o s written) { context_id = 0 });
    }

-- The arguments of `CFE_PSP_Exception_GetSummary`: which output pointers are not NULL, the reason
-- buffer with its contents, and its size.
pub record SummaryArgs : Type 0 where
  pub wants_id : Bool
  pub wants_task : Bool
  pub reason_buf : Option (List ℕ)
  pub reason_size : ℕ

-- What the output pointers receive; `none` where nothing is stored.
pub record Summary : Type 0 where
  pub context_log_id : Option ℕ
  pub task_id : Option ℕ
  pub reason : Option (List ℕ)

unfoldable pub find_task : Osal → ℕ → ℕ
find_task o sys_id = elim (o.task_find_id_by_system_data sys_id) [
  | none ↦ o.object_id_undefined
  | some id ↦ id
]

-- `CFE_PSP_ExceptionGetSummary_Impl` is the platform's: its status and the buffer as it leaves it.
abbrev pub SummaryImpl : Type 0
SummaryImpl = LogData → List ℕ → ℕ → Status × List ℕ

unfoldable pub fill_reason : SummaryImpl → LogData → Option (List ℕ) → ℕ → Option (List ℕ)
fill_reason impl buffer none size = none
fill_reason impl buffer (some buf) size =
    let (status, text) = impl buffer buf size in
    if ltb 0 size then some (elim status [ success ↦ text | _ ↦ set text 0 0 ]) else some buf

unfoldable pub get_summary : Osal → SummaryImpl → SummaryArgs → Storage → Status × Summary × Storage
get_summary o impl args s =
    let buffer = get_buffer o s s.num_read in
    if get_count s == 0
    then (
      no_exception_data,
      record { context_log_id = none; task_id = none; reason = args.reason_buf },
      s,
    )
    else (
      success,
      record {
        context_log_id = if args.wants_id then some buffer.context_id else none;
        task_id = if args.wants_task then some (find_task o buffer.sys_task_id) else none;
        reason = fill_reason impl buffer args.reason_buf args.reason_size;
      },
      record s { num_read = add32 s.num_read 1 },
    )

-- The bytes copied out; their number is the function's return value. `none` stands for the code
-- CFE_PSP_NO_EXCEPTION_DATA.
unfoldable pub copy_context : Osal → Storage → ℕ → ℕ → Option (List ℕ)
copy_context o s context_log_id context_size =
    let seq = sub32 context_log_id (exception_id_base o) in
    let buffer = get_buffer o s seq in
    let actual =
      if leb buffer.context_size context_size then buffer.context_size else context_size in
    if ltb o.object_index_mask seq
    then none
    else if not (buffer.context_id == context_log_id)
    then none
    else some (take actual buffer.context_info)

-- What a signal brings: the bytes of the clock's reading, of the siginfo and of the addresses of the
-- backtrace, and the thread.
pub record Signal : Type 0 where
  pub event_time : List ℕ
  pub si : List ℕ
  pub bt_addrs : List ℕ
  pub thread : ℕ

abbrev pub signal_bytes : Signal → List ℕ
signal_bytes e = e.event_time ++ (e.si ++ e.bt_addrs)

-- The stores of the handler through `Buffer`: the three fields of `context_info` from its start, the
-- rest of it as it was, and its used size, which ends behind the last address.
unfoldable pub fill_buffer : Signal → LogData → LogData
fill_buffer e b = record b {
  context_info = signal_bytes e ++ drop (length (signal_bytes e)) b.context_info;
  context_size = length (signal_bytes e);
  sys_task_id = e.thread;
}

-- The handler from the return of `CFE_PSP_Exception_GetNextContextBuffer` on.
unfoldable pub log_into : Osal → Signal → Option ℕ × Storage → Storage
log_into o e (none, s) = s
log_into o e (some i, s) =
    write_complete o
      (record s { entries = set s.entries i (fill_buffer e (get_or s.entries i (zero_log o))) })

-- `CFE_PSP_ExceptionSigHandler`, up to its notification of the main thread.
unfoldable pub sig_handler : Osal → Signal → Storage → Storage
sig_handler o e s = log_into o e (get_next_context_buffer o s)
