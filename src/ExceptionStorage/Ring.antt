-- ===== src/ExceptionStorage/Ring.antt =====
-- The representation of the exception ring (fsw/shared/src/cfe_psp_exceptionstorage.c): its
-- invariant, and what each operation leaves in each slot.
use fs_nasa_cfs_psp.Base.{
  ℕ, ◌+◌, ◌-◌, ◌%◌, ◌≤◌, ◌<◌, ◌≡◌, ◌≢◌, refl, sym, ap, ◌∙◌, none, some, List, arith, bit_and_low,
  length, get_or, set, length-set, get_or-set_self, get_or-set_ne, if◌then◌else◌, u32_mod,
}
use native.Mathlib.Decide.{dec_lt}
use fs_nasa_cfs_psp.Status.{success, no_exception_data}
use fs_nasa_cfs_psp.ExceptionStorage.{
  Osal, LogData, Storage, Signal, zero_log, buffer_index, get_buffer, get_count, context_id_of,
  get_next_context_buffer, write_complete, fill_buffer, sig_handler, log_into, get_summary, reset,
  SummaryImpl, SummaryArgs, find_task,
}

pub buffer_index-eq-mod : (n : ℕ) → buffer_index n ≡ n % 4
unfolding buffer_index
buffer_index-eq-mod n = bit_and_low 2 n

-- Four slots, two `uint32` counters, and at most four entries between them.
pub record IsValid (s : Storage) : Type 0 where
  pub slots : length s.entries ≡ 4
  pub written_lt : s.num_written < u32_mod
  pub read_lt : s.num_read < u32_mod
  pub count_le : get_count s ≤ 4

module _ (o : Osal) where
  -- The entry that number `k` goes to.
  abbrev pub entry : Storage → ℕ → LogData
  entry s k = get_or s.entries (k % 4) (zero_log o)

  -- What the handler stores for a signal that it finds room for.
  abbrev pub logged : Storage → Signal → LogData
  logged s e = fill_buffer e (record (zero_log o) { context_id = context_id_of o s.num_written })

  pub get_buffer-eq-entry : (s : Storage) (k : ℕ) → get_buffer o s k ≡ entry s k
  unfolding get_buffer
  get_buffer-eq-entry s k = rw (buffer_index-eq-mod k)

  -- A full ring drops the signal.
  pub sig_handler_full : (e : Signal) (s : Storage) → 4 ≤ get_count s → sig_handler o e s ≡ s
  unfolding sig_handler get_next_context_buffer get_count log_into
  sig_handler_full e s h = ground arith

  next_buffer_room :
      (s : Storage)
      → get_count s < 4
      → get_next_context_buffer o s ≡ (
        some (s.num_written % 4),
        record s {
          entries =
              set s.entries
                (s.num_written % 4)
                (record (zero_log o) { context_id = context_id_of o s.num_written });
        },
      )
  unfolding get_next_context_buffer get_count
  next_buffer_room s h = rw (← buffer_index-eq-mod s.num_written) (ground arith)

  write_complete_lem :
      (s : Storage)
      → let j = (s.num_written + 1) % 4 in
        write_complete o s ≡ record s {
          num_written = (s.num_written + 1) % u32_mod;
          entries = set s.entries j (record (get_or s.entries j (zero_log o)) { context_id = 0 });
        }
  unfolding write_complete get_buffer
  write_complete_lem s = rw slot
    where
      slot : buffer_index ((s.num_written + 1) % u32_mod) ≡ (s.num_written + 1) % 4
      slot = buffer_index-eq-mod _ ∙ omega arith

  abbrev cleared : Storage → LogData
  cleared s = record (zero_log o) { context_id = context_id_of o s.num_written }

  abbrev twice_set : Signal → Storage → List LogData
  twice_set e s =
      set (set s.entries (s.num_written % 4) (cleared s)) (s.num_written % 4) (logged s e)

  -- The state after a signal that is logged.
  abbrev stored : Signal → Storage → Storage
  stored e s =
      let j = (s.num_written + 1) % 4 in
      record s {
        num_written = (s.num_written + 1) % u32_mod;
        entries =
            set (twice_set e s) j
              (record (get_or (twice_set e s) j (zero_log o)) { context_id = 0 });
      }

  next_slot_ne : (s : Storage) → (s.num_written + 1) % 4 ≢ s.num_written % 4
  next_slot_ne s = omega arith

  length-twice_set : (e : Signal) (s : Storage) → length (twice_set e s) ≡ length s.entries
  length-twice_set e s = length-set _ _ _ ∙ length-set _ _ _

  filled_slot :
      (s : Storage)
      → IsValid s
      → s.num_written % 4 < length (set s.entries (s.num_written % 4) (cleared s))
  filled_slot s v = omega (arith, length-set s.entries (s.num_written % 4) (cleared s))

  next_slot :
      (e : Signal) (s : Storage) → IsValid s → (s.num_written + 1) % 4 < length (twice_set e s)
  next_slot e s v = omega (arith, length-twice_set e s)

  sig_handler-eq-stored :
      (e : Signal) (s : Storage) → IsValid s → get_count s < 4 → sig_handler o e s ≡ stored e s
  unfolding sig_handler log_into
  sig_handler-eq-stored e s v h =
      rw
        (
          next_buffer_room s h,
          write_complete_lem,
          get_or-set_self s.entries (s.num_written % 4) (cleared s) (zero_log o) (omega arith),
        )
        refl

  pub entry-sig_handler_written :
      (e : Signal) (s : Storage) (k : ℕ)
      → IsValid s
      → get_count s < 4
      → k % 4 ≡ s.num_written % 4
      → entry (sig_handler o e s) k ≡ logged s e
  entry-sig_handler_written e s k v h q =
      rw
        (
          sig_handler-eq-stored e s v h,
          q,
          get_or-set_ne _ _ _ _ _ (next_slot_ne s),
          get_or-set_self (set s.entries (s.num_written % 4) (cleared s)) (s.num_written % 4)
              (logged s e) (zero_log o) (filled_slot s v),
        )
        refl

  -- The slot after the one written loses its id, and keeps the rest.
  pub entry-sig_handler_next :
      (e : Signal) (s : Storage) (k : ℕ)
      → IsValid s
      → get_count s < 4
      → k % 4 ≡ (s.num_written + 1) % 4
      → entry (sig_handler o e s) k ≡ record (entry s k) { context_id = 0 }
  entry-sig_handler_next e s k v h q =
      rw
        (
          sig_handler-eq-stored e s v h,
          q,
          get_or-set_self (twice_set e s) ((s.num_written + 1) % 4) _ (zero_log o)
              (next_slot e s v),
          get_or-set_ne (set s.entries (s.num_written % 4) (cleared s)) _ _ _ _
              (λ p. next_slot_ne s (sym p)),
          get_or-set_ne s.entries _ _ _ _ (λ p. next_slot_ne s (sym p)),
        )
        refl

  pub entry-sig_handler_other :
      (e : Signal) (s : Storage) (k : ℕ)
      → IsValid s
      → get_count s < 4
      → k % 4 ≢ s.num_written % 4
      → k % 4 ≢ (s.num_written + 1) % 4
      → entry (sig_handler o e s) k ≡ entry s k
  entry-sig_handler_other e s k v h p q =
      rw
        (
          sig_handler-eq-stored e s v h,
          get_or-set_ne (twice_set e s) ((s.num_written + 1) % 4) (k % 4) _ _ (λ r. q (sym r)),
          get_or-set_ne (set s.entries (s.num_written % 4) (cleared s)) _ _ _ _ (λ r. p (sym r)),
          get_or-set_ne s.entries _ _ _ _ (λ r. p (sym r)),
        )
        refl

  pub get_count-sig_handler :
      (e : Signal) (s : Storage)
      → IsValid s
      → get_count s < 4
      → get_count (sig_handler o e s) ≡ get_count s + 1
  unfolding get_count
  get_count-sig_handler e s v h = rw (sig_handler-eq-stored e s v h) (omega arith)

  pub num_read-sig_handler :
      (e : Signal) (s : Storage) → IsValid s → (sig_handler o e s).num_read ≡ s.num_read
  num_read-sig_handler e s v = elim (dec_lt (get_count s) 4) [
    | yes room ↦ ap (λ (t : Storage). t.num_read) (sig_handler-eq-stored e s v room)
    | no full ↦ ap (λ (t : Storage). t.num_read) (sig_handler_full e s (omega arith))
  ]

  pub num_written-sig_handler :
      (e : Signal) (s : Storage)
      → IsValid s
      → get_count s < 4
      → (sig_handler o e s).num_written ≡ (s.num_written + 1) % u32_mod
  num_written-sig_handler e s v room =
      ap (λ (t : Storage). t.num_written) (sig_handler-eq-stored e s v room)

  -- The signal handler keeps the invariant of the ring.
  pub sig_handler-IsValid : (e : Signal) (s : Storage) → IsValid s → IsValid (sig_handler o e s)
  sig_handler-IsValid e s v = elim (dec_lt (get_count s) 4) [
    | yes room ↦ rw (sig_handler-eq-stored e s v room) (record {
      slots = length-set (twice_set e s) _ _ ∙ length-twice_set e s ∙ v.slots;
      written_lt = omega arith;
      read_lt = v.read_lt;
      count_le = omega (
        arith,
        get_count-sig_handler e s v room,
        ap get_count (sig_handler-eq-stored e s v room),
      );
    })
    | no full ↦ rw (sig_handler_full e s (omega arith)) v
  ]

  -- Popping: the counters after a summary that found a record.
  pub get_summary_nonempty :
      (impl : SummaryImpl) (args : SummaryArgs) (s : Storage)
      → IsValid s
      → 0 < get_count s
      → let (status, out, s') = get_summary o impl args s in
        (status ≡ success)
        × (s' ≡ record s { num_read = (s.num_read + 1) % u32_mod })
        × (out.context_log_id
            ≡ (if args.wants_id then some (entry s s.num_read).context_id else none))
        × (out.task_id ≡ (
            if args.wants_task then some (find_task o (entry s s.num_read).sys_task_id) else none))
  unfolding get_summary get_count
  get_summary_nonempty impl args s v h = ground (arith, get_buffer-eq-entry s s.num_read)

  pub get_summary_empty :
      (impl : SummaryImpl) (args : SummaryArgs) (s : Storage)
      → get_count s ≡ 0
      → get_summary o impl args s ≡ (
        no_exception_data,
        record { context_log_id = none; task_id = none; reason = args.reason_buf },
        s,
      )
  unfolding get_summary get_count
  get_summary_empty impl args s h = ground arith

  -- The state after a pop.
  abbrev pub popped : Storage → Storage
  popped s = record s { num_read = (s.num_read + 1) % u32_mod }

  pub get_count-popped :
      (s : Storage) → IsValid s → 0 < get_count s → get_count (popped s) ≡ get_count s - 1
  unfolding get_count
  get_count-popped s v h = omega arith

  pub popped-IsValid : (s : Storage) → IsValid s → 0 < get_count s → IsValid (popped s)
  popped-IsValid s v h = record {
    slots = v.slots;
    written_lt = v.written_lt;
    read_lt = omega arith;
    count_le = omega (arith, get_count-popped s v h);
  }

  pub reset-IsValid : (s : Storage) → IsValid s → IsValid (reset s) × (get_count (reset s) ≡ 0)
  unfolding reset get_count
  reset-IsValid s v = omega arith
