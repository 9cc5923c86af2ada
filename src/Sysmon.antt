-- ===== src/Sysmon.antt =====
-- fsw/modules/linux_sysmon/linux_sysmon.c: the load of the CPUs, sampled by a thread and read through
-- the driver interface. A load is an `int32` that is never negative.
pub mod Driver
pub mod Text
pub mod Load
pub mod Aggregate
pub mod Control
pub mod Reads
mod Tests
use fs_nasa_cfs_psp.Base.{
  ℕ, zero, suc, ◌+◌, ◌-◌, ◌*◌, ◌/◌, ◌%◌, ◌^◌, ◌≤◌, ◌<◌, min, bit_and, bit_or, ◌≡◌, refl, sym, ap,
  subst, ◌∙◌, ◌≢◌, ◌↔◌, ◌⊎◌, inl, inr, Bool, true, false, not, ◌&&◌, ◌||◌, Option, none, some, List,
  [], ◌∷◌, ◌++◌, map, arith, ltb, leb, ◌==◌, if◌then◌else◌, ltb→lt, lt→ltb, leb→le, tests,
  Bool-cases, Option-cases, length, get_elem?, get_or, set, take, drop, replicate, length-append,
  length-set, length-replicate, length-take, length-drop, drop-append, take-append,
  get_elem?-append_left, get_elem?-append_right, get_elem?-take, get_elem?-drop, u32_mod, u64_mod,
  add32, sub32,
}
use fs_nasa_cfs_psp.Status.{ℤ, pos, Status, success, error, error_not_implemented, code}

abbrev pub max_cpus : ℕ
max_cpus = 128

-- 24 bits set.
abbrev pub max_load : ℕ
max_load = 0xFFFFFF

pub record Core : Type 0 where
  pub avg_load : ℕ
  pub last_run_time : ℕ

pub record CpuLoad : Type 0 where
  pub is_running : Bool
  pub should_run : Bool
  pub num_cpus : ℕ
  pub per_core : List Core

-- A line "cpu..." of /proc/schedstat: its number, which is `(unsigned int)-1` where there is none, and
-- its run time in nanoseconds.
pub record CpuLine : Type 0 where
  pub cpu_num : ℕ
  pub run_time : ℕ

abbrev pub zero_core : Core
zero_core = record { avg_load = 0; last_run_time = 0 }

-- `milliseconds` is OSAL's conversion of nanoseconds.
unfoldable pub load_of : ℕ → ℕ → ℕ
load_of cpu_time_ms elapsed_ms =
    let share = 0x1000 * cpu_time_ms % u32_mod / elapsed_ms in
    if leb elapsed_ms cpu_time_ms
    then max_load
    else if elapsed_ms == 0
    then 0
    else bit_or (share * 2 ^ 12 % u32_mod) share

unfoldable pub sample_core : (ℕ → ℕ) → ℕ → ℕ → Core → Core
unfolding load_of
sample_core milliseconds elapsed_ms run_time c =
    let cpu_time_ms = milliseconds ((run_time + u64_mod - c.last_run_time) % u64_mod) % u32_mod in
    record { avg_load = load_of cpu_time_ms elapsed_ms; last_run_time = run_time }

-- The loop over the lines, with the highest number so far.
unfoldable pub sample_lines : (ℕ → ℕ) → ℕ → List CpuLine → ℕ → List Core → ℕ × List Core
unfolding sample_core
sample_lines milliseconds elapsed_ms [] highest cores = (highest, cores)
sample_lines milliseconds elapsed_ms (l ∷ lines) highest cores =
    let known = ltb l.cpu_num max_cpus in
    sample_lines milliseconds elapsed_ms lines
      (if known && ltb highest l.cpu_num then l.cpu_num else highest)
      (if known
        then set cores l.cpu_num
            (sample_core milliseconds elapsed_ms l.run_time (get_or cores l.cpu_num zero_core))
        else cores)

unfoldable pub update_schedstat : (ℕ → ℕ) → ℕ → List CpuLine → CpuLoad → CpuLoad
unfolding sample_lines
update_schedstat milliseconds elapsed_ms lines s =
    let (highest, cores) = sample_lines milliseconds elapsed_ms lines 0 s.per_core in
    record s { num_cpus = (1 + highest) % 256; per_core = cores }

-- What the system answers to a start: whether the file opens, whether the result of
-- `pthread_create` is not negative, and the lines of the thread's first sample, unless the wait for
-- it ends first.
pub record Answers : Type 0 where
  pub opens : Bool
  pub creates : Bool
  pub first_sample : Option (List CpuLine)

abbrev pub clean : CpuLoad
clean = record {
  is_running = false;
  should_run = false;
  num_cpus = 0;
  per_core = replicate max_cpus zero_core;
}

unfoldable pub start : (ℕ → ℕ) → Answers → CpuLoad → Status × CpuLoad
unfolding update_schedstat
start milliseconds a s =
    let sampled : CpuLoad = elim a.first_sample [
      | none ↦ record clean { should_run = true }
      | some lines ↦ update_schedstat milliseconds 0 lines (record clean { should_run = true })
    ] in
    if s.is_running
    then (success, s)
    else if not a.opens
    then (error, clean)
    else if not a.creates
    then (error, clean)
    else if sampled.num_cpus == 0
    then (error, record sampled { should_run = false })
    else (success, record sampled { is_running = true })

unfoldable pub stop : CpuLoad → Status × CpuLoad
stop s =
    if s.is_running
    then (success, record s { should_run = false; is_running = false })
    else (success, s)

-- The loop of the sum, over `count` cores.
unfoldable pub sum_loads : ℕ → ℕ → List Core → ℕ
sum_loads sum zero cores = sum
sum_loads sum (suc count) [] = sum
sum_loads sum (suc count) (c ∷ cores) = sum_loads (add32 sum c.avg_load) count cores

unfoldable pub calc_aggregate_cpu : CpuLoad → Status × ℕ
unfolding sum_loads
calc_aggregate_cpu s =
    if s.num_cpus == 0
    then (error, 0)
    else (success, sum_loads 0 s.num_cpus s.per_core / s.num_cpus)
