-- ===== src/ExceptionStorage/Boards.antt =====
-- The producers of the boards: the hook of fsw/mcp750-vxworks/src/cfe_psp_exception.c. It fills the
-- whole context, where the signal handler of pc-linux fills a part of it.
use mathlib.Core.List.{append-nil}
use fs_nasa_cfs_psp.Base.{
  ℕ, zero, suc, ◌≡◌, refl, ap, inl, inr, Bool, true, Option, none, some, List, [], ◌∷◌, ◌++◌, leb,
  Bool-cases, length, get_or, set, drop, replicate, sub32,
}
use fs_nasa_cfs_psp.ExceptionStorage.{
  Osal, LogData, Storage, Signal, zero_log, get_next_context_buffer, write_complete, fill_buffer,
  log_into, reset, sig_handler, context_id_of, buffer_index,
}

-- What an exception brings: the bytes of the time base, of the vector, of the exception's stack
-- frame and of the floating point registers, and the task.
pub record Exception : Type 0 where
  pub timebase : List ℕ
  pub vector : List ℕ
  pub esf : List ℕ
  pub fp : List ℕ
  pub task_id : ℕ

-- `CFE_PSP_Exception_ContextDataEntry_t`, field by field.
abbrev pub context_bytes : Exception → List ℕ
context_bytes e = e.timebase ++ (e.vector ++ (e.esf ++ e.fp))

-- The stores of the hook through `Buffer`.
unfoldable pub fill_context : Osal → Exception → LogData → LogData
fill_context o e b = record b {
  context_info = context_bytes e;
  sys_task_id = e.task_id;
  context_size = o.context_info_size;
}

unfoldable pub hook_into : Osal → Exception → Option ℕ × Storage → Storage
unfolding fill_context write_complete
hook_into o e (none, s) = s
hook_into o e (some i, s) =
    write_complete o
      (record s { entries = set s.entries i (fill_context o e (get_or s.entries i (zero_log o))) })

-- The new storage, and whether SystemNotify is called; `notifies` tells that it is not NULL.
unfoldable pub exception_hook : Osal → Bool → Exception → Storage → Storage × Bool
unfolding hook_into get_next_context_buffer
exception_hook o notifies e s = (hook_into o e (get_next_context_buffer o s), notifies)

-- `CFE_PSP_AttachExceptions` of the mcp750 and of pc-rtems: whether the hook is added, and the
-- storage.
unfoldable pub attach_exceptions : Storage → Bool × Storage
unfolding reset
attach_exceptions s = (true, reset s)

abbrev pub as_signal : Exception → Signal
as_signal e = record {
  event_time = e.timebase;
  si = e.vector;
  bt_addrs = e.esf ++ e.fp;
  thread = e.task_id;
}

drop_all : (n : ℕ) → drop {A = ℕ} n (replicate n 0) ≡ []
drop_all zero = refl
drop_all (suc n) = drop_all n

-- A context of the full size takes the place of the whole cleared one.
filled :
    (o : Osal) (e : Exception) (b : LogData)
    → length (context_bytes e) ≡ o.context_info_size
    → b.context_info ≡ replicate o.context_info_size 0
    → fill_context o e b ≡ fill_buffer (as_signal e) b
unfolding fill_context fill_buffer
filled o e b size cleared =
    rw (cleared, size, drop_all o.context_info_size, append-nil (context_bytes e)) refl

-- The entry that is handed out is cleared, also where the index is none of the ring.
handed_out :
    (o : Osal) (z : LogData) (entries : List LogData) (i : ℕ)
    → z.context_info ≡ replicate o.context_info_size 0
    → (get_or (set entries i z) i (zero_log o)).context_info ≡ replicate o.context_info_size 0
handed_out o z [] i h = refl
handed_out o z (x ∷ xs) zero h = h
handed_out o z (x ∷ xs) (suc i) h = handed_out o z xs i h

-- An exception on the mcp750 changes the storage as a signal on pc-linux does whose three parts are
-- its context, of the size of the record, whatever the storage holds; the system is notified exactly
-- if a function is given for it.
pub exception_hook-sig_handler :
    (o : Osal) (notifies : Bool) (e : Exception) (s : Storage)
    → length (context_bytes e) ≡ o.context_info_size
    → exception_hook o notifies e s ≡ (sig_handler o (as_signal e) s, notifies)
unfolding exception_hook sig_handler log_into
exception_hook-sig_handler o notifies e s size =
    let i = buffer_index s.num_written in
    let z : LogData = record (zero_log o) { context_id = context_id_of o s.num_written } in
    let entries = set s.entries i z in
    let same = filled o e (get_or entries i (zero_log o)) size (handed_out o z s.entries i refl) in
    ap (λ (s' : Storage). (s', notifies))
      (elim (Bool-cases (leb 4 (sub32 s.num_written s.num_read))) [
        | inl full ↦ rw full refl
        | inr room ↦
            rw room
              (ap (λ (b : LogData). write_complete o (record s { entries = set entries i b })) same)
      ])
