-- ===== src/ExceptionStorage/Ids.antt =====
-- The ids by which the exception log is fetched after a summary
-- (fsw/shared/src/cfe_psp_exceptionstorage.c): who gets one, and when it expires.
use native.Mathlib.Decide.{dec_lt, ℕ_discrete}
use fs_nasa_cfs_psp.Base.{
  ℕ, ◌+◌, ◌%◌, ◌^◌, ◌≤◌, ◌<◌, ◌≡◌, ◌⊎◌, inl, inr, ap, ◌∙◌, true, none, some, List, [], ◌∷◌, arith,
  take, u32_mod, min, bit_and_low, sub32,
}
use fs_nasa_cfs_psp.Status.{success}
use fs_nasa_cfs_psp.ExceptionStorage.{
  Osal, IsOsal, LogData, Storage, Signal, fill_buffer, get_count, sig_handler, get_summary, reset,
  SummaryImpl, SummaryArgs, exception_id_base, context_id_of, copy_context,
}
use fs_nasa_cfs_psp.ExceptionStorage.Ring.{
  IsValid, entry, logged, sig_handler_full, entry-sig_handler_written, entry-sig_handler_next,
  entry-sig_handler_other, get_count-sig_handler, sig_handler-IsValid, get_buffer-eq-entry,
  num_read-sig_handler, get_summary_nonempty, popped, get_count-popped, popped-IsValid,
  get_summary_empty, reset-IsValid,
}
use fs_nasa_cfs_psp.ExceptionStorage.Queue.{Op, raise, poll, clear}

-- An id is the base plus the low 16 bits of the sequence number, and does not wrap.
pub context_id_of_lem :
    (o : Osal) (k : ℕ)
    → IsOsal o
    → (context_id_of o k ≡ exception_id_base o + k % 2 ^ 16)
      × (0x1010000 ≤ exception_id_base o)
      × (exception_id_base o + 2 ^ 16 ≤ u32_mod)
unfolding context_id_of exception_id_base
context_id_of_lem o k h = rw (h.shift, h.mask) (omega (arith, bit_and_low 16 k, h.user))

abbrev pub id_of : Osal → ℕ → ℕ
id_of o k = exception_id_base o + k % 2 ^ 16

-- A record that is pending is stored under the id of its number, but for the oldest of four: its id
-- was cleared when the ring filled up.
pub record HasIds (o : Osal) (s : Storage) : Type 0 where
  pub given :
      (i : ℕ)
      → i < get_count s
      → (get_count s < 4) ⊎ (0 < i)
      → (entry o s (s.num_read + i)).context_id ≡ id_of o (s.num_read + i)
  pub cleared : get_count s ≡ 4 → (entry o s s.num_read).context_id ≡ 0

-- The storage after a sequence of signals, summaries and resets.
unfoldable pub after : Osal → SummaryImpl → SummaryArgs → Storage → List (Op Signal) → Storage
after o impl args s [] = s
after o impl args s (raise e ∷ ops) = after o impl args (sig_handler o e s) ops
after o impl args s (poll ∷ ops) = after o impl args (get_summary o impl args s).2 ops
after o impl args s (clear ∷ ops) = after o impl args (reset s) ops

module _ (o : Osal) (ids : IsOsal o) where
  -- The number that the next record gets is that of the oldest plus the count.
  written_of_count :
      (s : Storage)
      → IsValid s
      → (s.num_written % 4 ≡ (s.num_read + get_count s) % 4)
        × (s.num_written % 2 ^ 16 ≡ (s.num_read + get_count s) % 2 ^ 16)
  unfolding get_count
  written_of_count s v = omega arith

  logged-id : (e : Signal) (s : Storage) → (logged o s e).context_id ≡ id_of o s.num_written
  unfolding fill_buffer
  logged-id e s = (context_id_of_lem o s.num_written ids).0

  sig_handler-given :
      (e : Signal) (s : Storage) (i : ℕ)
      → IsValid s
      → HasIds o s
      → get_count s < 4
      → i < get_count s + 1
      → (get_count s + 1 < 4) ⊎ (0 < i)
      → (entry o (sig_handler o e s) (s.num_read + i)).context_id ≡ id_of o (s.num_read + i)
  sig_handler-given e s i v w room lt c = elim (ℕ_discrete i (get_count s)) [
    | yes last ↦
        ap (λ (b : LogData). b.context_id)
          (entry-sig_handler_written o e s (s.num_read + i) v room
            (omega (arith, written_of_count s v)))
        ∙ omega (arith, logged-id e s, written_of_count s v)
    | no older ↦
        ap (λ (b : LogData). b.context_id)
          (entry-sig_handler_other o e s (s.num_read + i) v room
            (omega (arith, written_of_count s v)) (omega (arith, written_of_count s v)))
        ∙ w.given i (omega arith) (inl room)
  ]

  pub sig_handler-HasIds :
      (e : Signal) (s : Storage) → IsValid s → HasIds o s → HasIds o (sig_handler o e s)
  sig_handler-HasIds e s v w = elim (dec_lt (get_count s) 4) [
    | no full ↦ rw (sig_handler_full o e s (omega arith)) w
    | yes room ↦
        let count = get_count-sig_handler o e s v room in
        let start = num_read-sig_handler o e s v in
        record {
          given = λ i lt c. rw start (sig_handler-given e s i v w room (omega arith) (omega arith));
          cleared = λ full. rw start (
              ap (λ (b : LogData). b.context_id)
                (entry-sig_handler_next o e s s.num_read v room
                  (omega (arith, written_of_count s v))));
        }
  ]

  pub popped-HasIds :
      (s : Storage) → IsValid s → 0 < get_count s → HasIds o s → HasIds o (popped o s)
  popped-HasIds s v pos w = record {
    given = λ i lt c.
        let old = w.given (i + 1) (omega (arith, get_count-popped o s v pos)) (inr (omega arith)) in
        let slot : ((s.num_read + 1) % u32_mod + i) % 4 ≡ (s.num_read + (i + 1)) % 4 =
          omega arith in
        let low : ((s.num_read + 1) % u32_mod + i) % 2 ^ 16 ≡ (s.num_read + (i + 1)) % 2 ^ 16 =
          omega arith in
        rw (slot, low) old;
    cleared = λ full. absurd (omega (arith, get_count-popped o s v pos, v.count_le));
  }

  pub reset-HasIds : (s : Storage) → IsValid s → HasIds o (reset s)
  reset-HasIds s v = record {
    given = λ i lt c. absurd (omega (arith, reset-IsValid o s v));
    cleared = λ full. absurd (omega (arith, reset-IsValid o s v));
  }

  copy_context_found :
      (s : Storage) (k size : ℕ)
      → (entry o s k).context_id ≡ id_of o k
      → copy_context o s (id_of o k) size
        ≡ some (take (min size (entry o s k).context_size) (entry o s k).context_info)
  unfolding copy_context
  copy_context_found s k size h =
      let (_, lo, hi) = context_id_of_lem o k ids in
      let seq : sub32 (id_of o k) (exception_id_base o) ≡ k % 2 ^ 16 = omega arith in
      let slot : k % 2 ^ 16 % 4 ≡ k % 4 = omega arith in
      rw (seq, get_buffer-eq-entry o s (k % 2 ^ 16), slot, ids.mask) (ground (arith, h))

  copy_context_zero : (s : Storage) (size : ℕ) → copy_context o s 0 size ≡ none
  unfolding copy_context
  copy_context_zero s size = let (_, lo, hi) = context_id_of_lem o 0 ids in ground (arith, ids.mask)

  -- Below four pending records, a summary that asks for the id returns that of the oldest record, and
  -- with it `CFE_PSP_Exception_CopyContext` returns the record's context, cut to the size of the
  -- caller's buffer.
  pub copy_context-get_summary :
      (impl : SummaryImpl) (args : SummaryArgs) (s : Storage) (size : ℕ)
      → IsValid s
      → HasIds o s
      → 0 < get_count s
      → get_count s < 4
      → args.wants_id ≡ true
      → let (status, out, s') = get_summary o impl args s in
        let oldest = entry o s s.num_read in
        (status ≡ success)
        × (id : ℕ) × (out.context_log_id ≡ some id)
        × (copy_context o s' id size
            ≡ some (take (min size oldest.context_size) oldest.context_info))
  copy_context-get_summary impl args s size v w pos lt asked =
      let (status, state, id, _) = get_summary_nonempty o impl args s v pos in
      let start : s.num_read + 0 ≡ s.num_read = omega arith in
      let given : (entry o s s.num_read).context_id ≡ id_of o s.num_read =
        rw start at (w.given 0 pos (inl lt)) in
      (
        status,
        id_of o s.num_read,
        rw (id, asked) (ap some given),
        rw state (copy_context_found (popped o s) s.num_read size given),
      )

  copy_context_cleared :
      (s : Storage) (k size : ℕ)
      → (entry o s k).context_id ≡ 0
      → copy_context o s (id_of o k) size ≡ none
  unfolding copy_context
  copy_context_cleared s k size h =
      let (_, lo, hi) = context_id_of_lem o k ids in
      let seq : sub32 (id_of o k) (exception_id_base o) ≡ k % 2 ^ 16 = omega arith in
      let slot : k % 2 ^ 16 % 4 ≡ k % 4 = omega arith in
      rw (seq, get_buffer-eq-entry o s (k % 2 ^ 16), slot, ids.mask) (ground (arith, h))

  -- A fourth signal on a ring of three records that have their ids: before it, a summary returns an
  -- id with which `CFE_PSP_Exception_CopyContext` returns the oldest record's context. After it, the
  -- summary of that same record returns the id 0, and there is no data for 0 nor for the id that was
  -- returned before, so that the context cannot be fetched.
  pub fourth_signal_loses_context :
      (impl : SummaryImpl) (args : SummaryArgs) (s : Storage) (e : Signal) (size : ℕ)
      → IsValid s
      → HasIds o s
      → get_count s ≡ 3
      → args.wants_id ≡ true
      → let (status, out, s') = get_summary o impl args s in
        let (late_status, late, t) = get_summary o impl args (sig_handler o e s) in
        let oldest = entry o s s.num_read in
        (id : ℕ) × (status ≡ success)
        × (out.context_log_id ≡ some id)
        × (copy_context o s' id size
            ≡ some (take (min size oldest.context_size) oldest.context_info))
        × (late_status ≡ success)
        × (late.context_log_id ≡ some 0)
        × (copy_context o t 0 size ≡ none)
        × (copy_context o t id size ≡ none)
  fourth_signal_loses_context impl args s e size v w three asked =
      let room : get_count s < 4 = omega arith in
      let s4 = sig_handler o e s in
      let v4 = sig_handler-IsValid o e s v in
      let count = get_count-sig_handler o e s v room in
      let start = num_read-sig_handler o e s v in
      let (status, state, id, _) = get_summary_nonempty o impl args s v (omega arith) in
      let from : s.num_read + 0 ≡ s.num_read = omega arith in
      let given : (entry o s s.num_read).context_id ≡ id_of o s.num_read =
        rw from at (w.given 0 (omega arith) (inl room)) in
      let (late_status, late_state, late_id, _) =
        get_summary_nonempty o impl args s4 v4 (omega arith) in
      let cleared : (entry o s4 s.num_read).context_id ≡ 0 =
        ap (λ (b : LogData). b.context_id)
          (entry-sig_handler_next o e s s.num_read v room (omega (arith, written_of_count s v))) in
      (
        id_of o s.num_read,
        status,
        rw (id, asked) (ap some given),
        rw state (copy_context_found (popped o s) s.num_read size given),
        late_status,
        rw (late_id, asked, start) (ap some cleared),
        copy_context_zero (get_summary o impl args s4).2 size,
        rw late_state (copy_context_cleared (popped o s4) s.num_read size cleared),
      )

  get_summary-HasIds :
      (impl : SummaryImpl) (args : SummaryArgs) (s : Storage)
      → IsValid s
      → HasIds o s
      → IsValid (get_summary o impl args s).2 × HasIds o (get_summary o impl args s).2
  get_summary-HasIds impl args s v w = elim (dec_lt 0 (get_count s)) [
    | yes pos ↦
        let (_, state, _, _) = get_summary_nonempty o impl args s v pos in
        rw state (popped-IsValid o s v pos, popped-HasIds s v pos w)
    | no empty ↦ rw (get_summary_empty o impl args s (omega arith)) (v, w)
  ]

  -- From a valid ring whose records have their ids, every sequence of signals, summaries and resets
  -- leads to such a ring: never more than four records, each but the oldest of four under its id.
  pub after-HasIds :
      (impl : SummaryImpl) (args : SummaryArgs) (ops : List (Op Signal)) (s : Storage)
      → IsValid s
      → HasIds o s
      → IsValid (after o impl args s ops) × HasIds o (after o impl args s ops)
  unfolding after
  after-HasIds impl args [] s v w = (v, w)
  after-HasIds impl args (raise e ∷ ops) s v w =
      after-HasIds impl args ops (sig_handler o e s) (sig_handler-IsValid o e s v)
        (sig_handler-HasIds e s v w)
  after-HasIds impl args (poll ∷ ops) s v w =
      let (v', w') = get_summary-HasIds impl args s v w in
      after-HasIds impl args ops (get_summary o impl args s).2 v' w'
  after-HasIds impl args (clear ∷ ops) s v w =
      after-HasIds impl args ops (reset s) (reset-IsValid o s v).0 (reset-HasIds s v)
