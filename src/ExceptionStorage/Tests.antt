-- ===== src/ExceptionStorage/Tests.antt =====
-- The exception storage on concrete inputs.
use fs_nasa_cfs_psp.Base.{
  ℕ, ◌+◌, ◌-◌, ◌≡◌, refl, true, false, take, min, none, some, List, [], ◌∷◌, arith, replicate,
  u32_mod,
}
use fs_nasa_cfs_psp.Status.{Status, success, error, pos}
use fs_nasa_cfs_psp.ExceptionStorage.{
  Osal, IsOsal, LogData, Storage, Signal, zero_log, get_count, sig_handler, log_into,
  get_next_context_buffer, write_complete, fill_buffer, get_buffer, buffer_index, context_id_of,
  exception_id_base, get_summary, copy_context, SummaryArgs,
}
use fs_nasa_cfs_psp.ExceptionStorage.Boards.{
  Exception, as_signal, exception_hook, exception_hook-sig_handler,
}
use fs_nasa_cfs_psp.ExceptionStorage.Reasons.{Siginfo, chars, summary_text}
use fs_nasa_cfs_psp.ExceptionStorage.Queue
use fs_nasa_cfs_psp.ExceptionStorage.Queue.{Op, raise, poll, clear, push}
use fs_nasa_cfs_psp.ExceptionStorage.Ring.{IsValid, entry}
use fs_nasa_cfs_psp.ExceptionStorage.Refine.{
  pending, signal_payload, replies, looked_up, replies_refine,
}
use fs_nasa_cfs_psp.ExceptionStorage.Ids.{
  HasIds, after, after-HasIds, copy_context-get_summary, fourth_signal_loses_context,
}

abbrev osal : Osal
osal = record {
  object_type_user = 0x10;
  object_type_shift = 16;
  object_index_mask = 0xFFFF;
  object_id_undefined = 0;
  task_find_id_by_system_data = λ t. some (t + 100);
  context_info_size = 6;
}

abbrev empty_ring : Storage
empty_ring = record { num_written = 0; num_read = 0; entries = replicate 4 (zero_log osal) }

abbrev fault : ℕ → Signal
fault n = record { event_time = n ∷ []; si = 8 ∷ []; bt_addrs = 1 ∷ 2 ∷ []; thread = n }

abbrev ask : SummaryArgs
ask = record { wants_id = true; wants_task = true; reason_buf = some (9 ∷ 9 ∷ []); reason_size = 2 }

abbrev no_reason : LogData → List ℕ → ℕ → Status × List ℕ
no_reason b buf size = (error, buf)

-- One record, just before the counters wrap.
abbrev wrapping_ring : Storage
wrapping_ring = record {
  num_written = 0;
  num_read = u32_mod - 1;
  entries = zero_log osal ∷ zero_log osal ∷ zero_log osal ∷ last ∷ [];
}
  where
    last : LogData
    last = record {
      context_id = 0x111FFFF;
      context_size = 2;
      sys_task_id = 5;
      context_info = 3 ∷ 4 ∷ 0 ∷ 0 ∷ [];
    }

-- Four records, of which the oldest has lost its id.
abbrev full_ring : Storage
full_ring = record {
  num_written = 4;
  num_read = 0;
  entries = record (logged 0) { context_id = 0 } ∷ logged 1 ∷ logged 2 ∷ logged 3 ∷ [];
}
  where
    logged : ℕ → LogData
    logged n = record {
      context_id = 0x1110000 + n;
      context_size = 4;
      sys_task_id = n;
      context_info = n ∷ 8 ∷ 1 ∷ 2 ∷ 0 ∷ 0 ∷ [];
    }

abbrev five_faults : List (Op Signal)
five_faults =
    raise (fault 0) ∷ raise (fault 1) ∷ raise (fault 2) ∷ raise (fault 3) ∷ raise (fault 4) ∷ []

four_faults : after osal no_reason ask empty_ring five_faults ≡ full_ring
unfolding after sig_handler log_into get_next_context_buffer write_complete fill_buffer get_buffer
    buffer_index context_id_of exception_id_base
four_faults = refl

osal-IsOsal : IsOsal osal
osal-IsOsal = omega arith

empty_ring-IsValid : IsValid empty_ring
unfolding get_count
empty_ring-IsValid = omega arith

empty_ring-HasIds : HasIds osal empty_ring
unfolding get_count
empty_ring-HasIds = record {
  given = λ i lt c. absurd (omega arith);
  cleared = λ e. absurd (omega arith);
}

wrapping_ring-IsValid : IsValid wrapping_ring
unfolding get_count
wrapping_ring-IsValid = omega arith

wrapping_ring-HasIds : HasIds osal wrapping_ring
unfolding get_count exception_id_base
wrapping_ring-HasIds = record {
  given = λ i lt c. let z : i ≡ 0 = omega arith in rw z refl;
  cleared = λ e. absurd (omega arith);
}

replies_refine_example :
    replies osal no_reason wrapping_ring (poll ∷ raise (fault 1) ∷ poll ∷ poll ∷ [])
    ≡ looked_up osal (
        Queue.run
          (signal_payload osal)
          (pending osal wrapping_ring)
          (poll ∷ raise (fault 1) ∷ poll ∷ poll ∷ []))
replies_refine_example =
    replies_refine osal no_reason (poll ∷ raise (fault 1) ∷ poll ∷ poll ∷ []) wrapping_ring
      wrapping_ring-IsValid

after-HasIds_example :
    IsValid (after osal no_reason ask empty_ring five_faults)
    × HasIds osal (after osal no_reason ask empty_ring five_faults)
after-HasIds_example =
    after-HasIds osal osal-IsOsal no_reason ask five_faults empty_ring empty_ring-IsValid
      empty_ring-HasIds

copy_context-get_summary_example :
    let (status, out, s') = get_summary osal no_reason ask wrapping_ring in
    (status ≡ success)
    × (id : ℕ) × (out.context_log_id ≡ some id)
    × (copy_context osal s' id 1 ≡ some (3 ∷ []))
unfolding get_count
copy_context-get_summary_example =
    copy_context-get_summary osal osal-IsOsal no_reason ask wrapping_ring 1 wrapping_ring-IsValid
      wrapping_ring-HasIds (omega arith) (omega arith) refl

abbrev three_faults : List (Op Signal)
three_faults = raise (fault 0) ∷ raise (fault 1) ∷ raise (fault 2) ∷ []

abbrev three_pending : Storage
three_pending = after osal no_reason ask empty_ring three_faults

three_count : get_count three_pending ≡ 3
unfolding after sig_handler log_into get_next_context_buffer write_complete fill_buffer get_buffer
    buffer_index context_id_of exception_id_base get_count
three_count = refl

fourth_signal_loses_context_example :
    let (status, out, s') = get_summary osal no_reason ask three_pending in
    let (late_status, late, t) =
      get_summary osal no_reason ask (sig_handler osal (fault 3) three_pending) in
    let oldest = entry osal three_pending three_pending.num_read in
    (id : ℕ) × (status ≡ success)
    × (out.context_log_id ≡ some id)
    × (copy_context osal s' id 64 ≡ some (take (min 64 oldest.context_size) oldest.context_info))
    × (late_status ≡ success)
    × (late.context_log_id ≡ some 0)
    × (copy_context osal t 0 64 ≡ none)
    × (copy_context osal t id 64 ≡ none)
fourth_signal_loses_context_example =
    let kept =
      after-HasIds osal osal-IsOsal no_reason ask three_faults empty_ring empty_ring-IsValid
        empty_ring-HasIds in
    fourth_signal_loses_context osal osal-IsOsal no_reason ask three_pending (fault 3) 64 kept.0
      kept.1 three_count refl

abbrev trap : Exception
trap = record { timebase = 1 ∷ 2 ∷ []; vector = 7 ∷ []; esf = 3 ∷ 4 ∷ []; fp = 5 ∷ []; task_id = 9 }

exception_hook-sig_handler_example :
    exception_hook osal true trap empty_ring ≡ (sig_handler osal (as_signal trap) empty_ring, true)
exception_hook-sig_handler_example = exception_hook-sig_handler osal true trap empty_ring refl

-- The signal's number, its code and the address, from the first three numbers of a context.
abbrev siginfo : List ℕ → Siginfo
siginfo (a ∷ b ∷ c ∷ cs) = record { si_signo = a; si_code = pos b; si_addr = c }
siginfo cs = record { si_signo = 0; si_code = pos 0; si_addr = 0 }

abbrev divided : Storage
divided = sig_handler osal (record (fault 8) { si = 1 ∷ []; bt_addrs = 0x4a0 ∷ [] }) empty_ring

whole_reason :
    summary_text (siginfo (8 ∷ 1 ∷ 0x4a0 ∷ [])) ≡ chars "Integer divide by zero at ip 0x4a0"
unfolding summary_text
whole_reason = refl

other_signal : summary_text (siginfo (15 ∷ 0 ∷ 0 ∷ [])) ≡ chars "Caught Signal 15"
unfolding summary_text
other_signal = refl

abbrev ask_reason : SummaryArgs
ask_reason = record {
  wants_id = false;
  wants_task = false;
  reason_buf = some (replicate 12 9);
  reason_size = 12;
}
