-- ===== src/ExceptionStorage/Refine.antt =====
-- The exception ring of fsw/shared/src/cfe_psp_exceptionstorage.c against the bounded queue.
use native.Mathlib.Decide.{dec_lt, ℕ_discrete}
use mathlib.Core.Option
use mathlib.Core.Option.{Option}
use mathlib.Core.Path.{ap₂}
use fs_nasa_cfs_psp.Base.{
  ℕ, zero, suc, ◌+◌, ◌-◌, ◌%◌, ◌<◌, ◌≡◌, ◌≢◌, refl, ap, ◌∙◌, true, false, none, List, [], ◌∷◌, ◌++◌,
  arith, length, map,
}
use fs_nasa_cfs_psp.Status.{Status}
use fs_nasa_cfs_psp.ExceptionStorage.{
  Osal, LogData, Storage, Signal, zero_log, fill_buffer, get_count, sig_handler, get_summary, reset,
  SummaryImpl, SummaryArgs, find_task,
}
use fs_nasa_cfs_psp.ExceptionStorage.Ring.{
  IsValid, entry, sig_handler_full, entry-sig_handler_written, entry-sig_handler_next,
  entry-sig_handler_other, get_count-sig_handler, sig_handler-IsValid, num_read-sig_handler,
  get_summary_nonempty, get_summary_empty, popped, get_count-popped, popped-IsValid, reset-IsValid,
}
use fs_nasa_cfs_psp.ExceptionStorage.Queue
use fs_nasa_cfs_psp.ExceptionStorage.Queue.{Payload, Op, raise, poll, clear, push, pop}

abbrev pub payload : LogData → Payload
payload b = record { task = b.sys_task_id; info_size = b.context_size; info = b.context_info }

module _ (o : Osal) where
  -- The `n` records from number `r` on.
  abbrev pub window : Storage → ℕ → ℕ → List Payload
  window s r zero = []
  window s r (suc n) = payload (entry o s r) ∷ window s (r + 1) n

  -- The records written and not read, oldest first.
  abbrev pub pending : Storage → List Payload
  pending s = window s s.num_read (get_count s)

  -- What a signal adds.
  abbrev pub signal_payload : Signal → Payload
  signal_payload e = payload (fill_buffer e (zero_log o))

  length-window : (s : Storage) (r n : ℕ) → length (window s r n) ≡ n
  length-window s r zero = refl
  length-window s r (suc n) = ap suc (length-window s (r + 1) n)

  window-cons :
      (s : Storage) (r n : ℕ)
      → 0 < n
      → window s r n ≡ payload (entry o s r) ∷ window s (r + 1) (n - 1)
  window-cons s r zero h = absurd (omega arith)
  window-cons s r (suc n) h = ap (λ k. window s r (suc k)) (omega arith)

  -- A window depends on its start only up to the length of the ring.
  window-mod : (s : Storage) (r r' n : ℕ) → r % 4 ≡ r' % 4 → window s r n ≡ window s r' n
  window-mod s r r' zero h = refl
  window-mod s r r' (suc n) h = rw (h, window-mod s (r + 1) (r' + 1) n (omega arith)) refl

  payload-sig_handler_other :
      (e : Signal) (s : Storage) (k : ℕ)
      → IsValid s
      → get_count s < 4
      → k % 4 ≢ s.num_written % 4
      → payload (entry o (sig_handler o e s) k) ≡ payload (entry o s k)
  payload-sig_handler_other e s k v h ne = elim (ℕ_discrete (k % 4) ((s.num_written + 1) % 4)) [
    | yes q ↦ ap payload (entry-sig_handler_next o e s k v h q)
    | no q ↦ ap payload (entry-sig_handler_other o e s k v h ne q)
  ]

  -- The slot after the last loses nothing but its id, so a signal extends the window at its end.
  window-sig_handler :
      (e : Signal) (s : Storage) (r n : ℕ)
      → IsValid s
      → get_count s < 4
      → n < 4
      → (r + n) % 4 ≡ s.num_written % 4
      → window (sig_handler o e s) r (suc n) ≡ window s r n ++ (signal_payload e ∷ [])
  unfolding fill_buffer
  window-sig_handler e s r zero v h lt q =
      ap (λ b. payload b ∷ []) (entry-sig_handler_written o e s r v h (omega arith))
  window-sig_handler e s r (suc n) v h lt q =
      ap₂ ◌∷◌ (payload-sig_handler_other e s r v h (omega arith))
        (window-sig_handler e s (r + 1) n v h (omega arith) (omega arith))

  extended :
      (e : Signal) (s : Storage)
      → IsValid s
      → get_count s < 4
      → window (sig_handler o e s) s.num_read (get_count s + 1)
        ≡ pending s ++ (signal_payload e ∷ [])
  unfolding get_count
  extended e s v h =
      let next : get_count s + 1 ≡ suc (get_count s) = omega arith in
      ap (window (sig_handler o e s) s.num_read) next
      ∙ window-sig_handler e s s.num_read (get_count s) v h h (omega arith)

  -- A signal refines `push`: with room its record joins the pending ones at the end, else nothing
  -- changes; the ring stays valid.
  pub sig_handler_refines :
      (e : Signal) (s : Storage)
      → IsValid s
      → IsValid (sig_handler o e s)
        × (pending (sig_handler o e s) ≡ push (pending s) (signal_payload e))
  unfolding push
  sig_handler_refines e s v = (
    sig_handler-IsValid o e s v,
    elim (dec_lt (get_count s) 4) [
      | yes room ↦ rw (get_count-sig_handler o e s v room) (
          ground (
            arith,
            length-window s s.num_read (get_count s),
            num_read-sig_handler o e s v,
            extended e s v room,
          ))
      | no full ↦
          rw (sig_handler_full o e s (omega arith))
            (ground (arith, length-window s s.num_read (get_count s)))
    ],
  )

  -- `CFE_PSP_Exception_GetSummary` refines `pop`, whatever else it is asked for: the status, the task
  -- looked up for the thread of the oldest record, and the records left.
  pub get_summary_refines :
      (impl : SummaryImpl) (args : SummaryArgs) (s : Storage)
      → IsValid s
      → let (status, out, s') = get_summary o impl args s in
        let (status', thread, q') = pop (pending s) in
        IsValid s'
        × (status ≡ status')
        × (pending s' ≡ q')
        × (args.wants_task ≡ true → out.task_id ≡ Option.map (find_task o) thread)
  unfolding pop
  get_summary_refines impl args s v = elim (dec_lt 0 (get_count s)) [
    | yes some_left ↦
        let (status, state, _, task) = get_summary_nonempty o impl args s v some_left in
        ground (
          arith,
          popped-IsValid o s v some_left,
          get_count-popped o s v some_left,
          window-cons s s.num_read (get_count s) some_left,
          window-mod (popped o s) (popped o s).num_read (s.num_read + 1) (get_count s - 1)
              (omega arith),
        )
    | no none_left ↦ ground (arith, get_summary_empty o impl args s (omega arith))
  ]

  -- `CFE_PSP_Exception_Reset` forgets what is pending.
  pub reset_refines : (s : Storage) → IsValid s → IsValid (reset s) × (pending (reset s) ≡ [])
  reset_refines s v = ground (arith, reset-IsValid o s v)

  -- The calls against the storage itself, with what each poll returns. The task goes through a
  -- pointer, so it is there only on success.
  abbrev poll_args : SummaryArgs
  poll_args = record { wants_id = false; wants_task = true; reason_buf = none; reason_size = 0 }

  unfoldable pub replies : SummaryImpl → Storage → List (Op Signal) → List (Status × Option ℕ)
  replies impl s [] = []
  replies impl s (raise e ∷ ops) = replies impl (sig_handler o e s) ops
  replies impl s (poll ∷ ops) =
      let (status, out, s') = get_summary o impl poll_args s in
      (status, out.task_id) ∷ replies impl s' ops
  replies impl s (clear ∷ ops) = replies impl (reset s) ops

  -- The queue's replies, with each thread looked up as the storage does.
  abbrev pub looked_up : List (Status × Option ℕ) → List (Status × Option ℕ)
  looked_up = map (λ r. (r.0, Option.map (find_task o) r.1))

  -- No sequence of signals, polls and resets tells a valid ring from the bounded queue of its pending
  -- records: the same polls succeed, and each returns the task of the record that the queue yields.
  pub replies_refine :
      (impl : SummaryImpl) (ops : List (Op Signal)) (s : Storage)
      → IsValid s
      → replies impl s ops ≡ looked_up (Queue.run signal_payload (pending s) ops)
  unfolding replies Queue.run
  replies_refine impl [] s v = refl
  replies_refine impl (raise e ∷ ops) s v =
      let (v', q) = sig_handler_refines e s v in
      replies_refine impl ops (sig_handler o e s) v'
      ∙ ap (λ q. looked_up (Queue.run signal_payload q ops)) q
  replies_refine impl (poll ∷ ops) s v =
      let (v', status, q, task) = get_summary_refines impl poll_args s v in
      ap₂ ◌∷◌ (ap₂ (λ a b. (a, b)) status (task refl)) (
        replies_refine impl ops (get_summary o impl poll_args s).2 v'
        ∙ ap (λ q. looked_up (Queue.run signal_payload q ops)) q)
  replies_refine impl (clear ∷ ops) s v =
      let (v', q) = reset_refines s v in
      replies_refine impl ops (reset s) v' ∙ ap (λ q. looked_up (Queue.run signal_payload q ops)) q
