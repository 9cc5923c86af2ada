-- ===== src/KernelSysmon.antt =====
-- The system monitors that a kernel's own accounting feeds: fsw/modules/vxworks_sysmon/vxworks_sysmon.c
-- and fsw/modules/rtems_sysmon/rtems_sysmon.c. The number of cores is the length of `per_core`, the
-- MAX_CPUS of the build. An `int` or `uint32` of the reports is a natural number.
pub mod Driver
pub mod Load
pub mod Report
pub mod Control
pub mod Acts
pub mod Visits
pub mod Reads
pub mod FreeRtos
pub mod FreeRtosLoad
pub mod RtemsLoad
mod Tests
use fs_nasa_cfs_psp.Base.{
  ℕ, zero, suc, bit_and_low, bit_and_high, ◌+◌, ◌-◌, ◌*◌, ◌/◌, ◌%◌, ◌^◌, ◌≤◌, ◌<◌, min, bit_and,
  bit_or, ◌≡◌, refl, sym, ap, subst, ◌∙◌, ◌≢◌, ◌↔◌, ◌⊎◌, inl, inr, Bool, true, false, not, ◌&&◌,
  ◌||◌, Option, none, some, List, [], ◌∷◌, ◌++◌, map, arith, ltb, leb, ◌==◌, if◌then◌else◌, ltb→lt,
  lt→ltb, leb→le, tests, Bool-cases, Option-cases, length, get_elem?, get_or, set, take, drop,
  replicate, length-append, length-set, length-replicate, length-take, length-drop, drop-append,
  take-append, get_elem?-append_left, get_elem?-append_right, get_elem?-take, get_elem?-drop,
  u32_mod, u64_mod, add32, sub32,
}
use fs_nasa_cfs_psp.Status.{Status, success, error}

-- *_sysmon_cpuload_state_t, with the cores of one of the two.
pub record Monitor (C : Type 0) : Type 0 where
  pub is_running : Bool
  pub should_run : Bool
  pub num_cpus : ℕ
  pub per_core : List C

-- What VxWorks reports of a task, one line for each: whether its name begins with IDLE, and four
-- numbers.
pub record SpyLine : Type 0 where
  pub is_idle : Bool
  pub total_idle_percent : ℕ
  pub total_idle_ticks : ℕ
  pub idle_percent : ℕ
  pub idle_ticks : ℕ

abbrev zero_line : Bool → SpyLine
zero_line is_idle = record {
  is_idle = is_idle;
  total_idle_percent = 0;
  total_idle_ticks = 0;
  idle_percent = 0;
  idle_ticks = 0;
}

pub record VxCore : Type 0 where
  pub avg_load : ℕ
  pub idle_state : SpyLine

abbrev pub zero_vx_core : VxCore
zero_vx_core = record { avg_load = 0; idle_state = zero_line false }

-- A share of 0x1000, in the upper and in the lower 12 bits.
abbrev pub twice12 : ℕ → ℕ
twice12 share = bit_or share (share * 2 ^ 12)

-- The load from the percentage of idle time.
unfoldable pub vx_load : ℕ → ℕ
vx_load idle_percent =
    if idle_percent == 0
    then 0xFFFFFF
    else if leb 100 idle_percent
    then 0
    else twice12 (0x1000 * (100 - idle_percent) / 100)

-- One line of the report: `none` where the core after the last one is written. The name is stored
-- before it is known to be that of an idle task.
unfoldable pub vx_update_stat : SpyLine → Monitor VxCore → Option (Monitor VxCore)
unfolding vx_load
vx_update_stat line s =
    let max_cpus = length s.per_core in
    let old = get_or s.per_core s.num_cpus zero_vx_core in
    if not (ltb s.num_cpus max_cpus)
    then none
    else if line.is_idle
    then some (record s {
      num_cpus = (s.num_cpus + 1) % 256;
      per_core =
          set s.per_core s.num_cpus
            (record { avg_load = vx_load line.idle_percent; idle_state = line });
    })
    else some (record s {
      per_core = set s.per_core s.num_cpus (record old { idle_state = zero_line false });
    })

-- The lines of `spyReportCommon`.
unfoldable pub vx_report : List SpyLine → Monitor VxCore → Option (Monitor VxCore)
unfolding vx_update_stat
vx_report [] s = some s
vx_report (l ∷ lines) s = elim (vx_update_stat l s) [ none ↦ none | some t ↦ vx_report lines t ]

-- A turn of the task's loop.
unfoldable pub vx_turn : List SpyLine → Monitor VxCore → Option (Monitor VxCore)
unfolding vx_report
vx_turn lines s = vx_report lines (record s { num_cpus = 0 })

abbrev pub clean : {C : Type 0} → ℕ → C → Monitor C
clean max_cpus zero_core = record {
  is_running = false;
  should_run = false;
  num_cpus = 0;
  per_core = replicate max_cpus zero_core;
}

-- The task before its loop, where the clock of the accounting starts or not.
unfoldable pub vx_task_start : Bool → Monitor VxCore → Monitor VxCore
vx_task_start clock_starts s =
    let cleared = record s { per_core = replicate (length s.per_core) zero_vx_core } in
    if clock_starts then cleared else record cleared { should_run = false; is_running = false }

-- How OS_TaskCreate ends: it fails; it returns before the task runs; or the task's steps before its
-- loop come first, with whether its clock starts. The loop begins with a delay, and its turns come
-- after the start.
pub data Creation : Type 0 where
  refused : Creation
  created : Creation
  ran_first : Bool → Creation

-- The start up to OS_TaskCreate, what the task does before that returns, and the rest.
unfoldable pub vx_start_begin : Monitor VxCore → Monitor VxCore
vx_start_begin s = record (clean (length s.per_core) zero_vx_core) { should_run = true }

unfoldable pub vx_create : Creation → Monitor VxCore → Bool × Monitor VxCore
unfolding vx_task_start
vx_create refused s = (false, s)
vx_create created s = (true, s)
vx_create (ran_first clock_starts) s = (true, vx_task_start clock_starts s)

unfoldable pub vx_start_end : Bool × Monitor VxCore → Status × Monitor VxCore
vx_start_end (creates, s) =
    if not creates
    then (error, record s { should_run = false })
    else (success, record s { is_running = true })

unfoldable pub vx_start : Creation → Monitor VxCore → Status × Monitor VxCore
unfolding vx_start_begin vx_create vx_start_end
vx_start creation s =
    if s.is_running then (success, s) else vx_start_end (vx_create creation (vx_start_begin s))

-- Both monitors stop in this way.
unfoldable pub kernel_stop : {C : Type 0} → Monitor C → Status × Monitor C
kernel_stop s =
    if s.is_running
    then (success, record s { should_run = false; is_running = false })
    else (success, s)

-- RTEMS: the times of the last sample.
pub record RtemsCore : Type 0 where
  pub avg_load : ℕ
  pub last_run_time : ℕ
  pub idle_last_uptime : ℕ

abbrev pub zero_rtems_core : RtemsCore
zero_rtems_core = record { avg_load = 0; last_run_time = 0; idle_last_uptime = 0 }

-- The loop on the fraction, for at most `fuel` turns.
unfoldable pub cut_fraction : ℕ → ℕ → ℕ
cut_fraction zero fval = fval
cut_fraction (suc fuel) fval =
    let rest = cut_fraction fuel (fval / 10) in if ltb 999 fval then rest else fval

-- The load from the idle percentage, its fraction and the elapsed time.
unfoldable pub rtems_load : ℕ → ℕ → ℕ → ℕ
unfolding cut_fraction
rtems_load ival fval total_elapsed =
    let scaled = 100000 - (ival * 1000 + cut_fraction 10 fval) in
    if leb 100 ival
    then 0xFFFFFF
    else if total_elapsed == 0
    then 0
    else twice12 (0x1000 * scaled / 100000)

-- A thread that the kernel visits: whether its name begins with IDLE, its time and that of the
-- kernel.
pub record IdleThread : Type 0 where
  pub is_idle : Bool
  pub idle_task_uptime : ℕ
  pub current_uptime : ℕ

-- RTEMS' operations on its timestamps: `_Timestamp_Subtract`, from a start to an end, and
-- `_Timestamp_Divide`, the percentage of two times and its fraction.
pub record Timestamps : Type 0 where
  pub subtract : ℕ → ℕ → ℕ
  pub divide : ℕ → ℕ → ℕ × ℕ

-- The state after the visit of an idle task.
unfoldable pub rtems_sample : Timestamps → IdleThread → Monitor RtemsCore → Monitor RtemsCore
unfolding rtems_load
rtems_sample times thread s =
    let old = get_or s.per_core s.num_cpus zero_rtems_core in
    let total = times.subtract old.last_run_time thread.current_uptime in
    let idle = times.subtract old.idle_last_uptime thread.idle_task_uptime in
    let (ival, fval) = times.divide idle total in
    record s {
      num_cpus = (s.num_cpus + 1) % 256;
      per_core = set s.per_core s.num_cpus (record {
        avg_load = rtems_load ival fval total;
        last_run_time = thread.current_uptime;
        idle_last_uptime = thread.idle_task_uptime;
      });
    }

unfoldable pub rtems_visit : Timestamps → IdleThread → Monitor RtemsCore → Bool × Monitor RtemsCore
unfolding rtems_sample
rtems_visit times thread s =
    let sampled = rtems_sample times thread s in
    if thread.is_idle then (leb (length s.per_core) sampled.num_cpus, sampled) else (false, s)

-- `rtems_task_iterate`: the visits end with the first that answers true.
unfoldable pub rtems_iterate : Timestamps → List IdleThread → Monitor RtemsCore → Monitor RtemsCore
unfolding rtems_visit
rtems_iterate times [] s = s
rtems_iterate times (t ∷ threads) s =
    let (done, s') = rtems_visit times t s in
    let rest = rtems_iterate times threads s' in if done then s' else rest

unfoldable pub rtems_update_stat :
    Timestamps → List IdleThread → Monitor RtemsCore → Monitor RtemsCore
unfolding rtems_iterate
rtems_update_stat times threads s = rtems_iterate times threads (record s { num_cpus = 0 })

-- Whether the task is created, and whether it is started. The task writes neither flag, so that its
-- first steps may come before or after the end of the start.
unfoldable pub rtems_start : Bool → Bool → Monitor RtemsCore → Status × Monitor RtemsCore
rtems_start creates starts s =
    let cleared = clean (length s.per_core) zero_rtems_core in
    if s.is_running
    then (success, s)
    else if not creates
    then (error, cleared)
    else if not starts
    then (error, cleared)
    else (success, record cleared { should_run = true; is_running = true })

-- The task before its loop, at the kernel's uptime of the last reset of the accounting.
unfoldable pub rtems_task_start : ℕ → Monitor RtemsCore → Monitor RtemsCore
rtems_task_start uptime_at_last_reset s = record s {
  per_core =
      replicate (length s.per_core)
        (record zero_rtems_core { last_run_time = uptime_at_last_reset });
}
