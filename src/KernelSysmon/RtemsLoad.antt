-- ===== src/KernelSysmon/RtemsLoad.antt =====
-- The load that RTEMS' monitor (fsw/modules/rtems_sysmon/rtems_sysmon.c) computes at the visit of an
-- idle task, against the exact share of the idle time.
use native.Mathlib.Nat.{div-lt_iff_lt-mul, div-div-eq-div-mul, mul-div-mul_right}
use fs_nasa_cfs_psp.Base.{
  ℕ, zero, suc, ◌+◌, ◌-◌, ◌*◌, ◌/◌, ◌%◌, ◌≤◌, ◌<◌, ◌≡◌, ◌≢◌, refl, sym, ap, ◌∙◌, inl, inr, true,
  false, some, arith, ltb, leb, ◌==◌, if◌then◌else◌, Bool-cases, length, get_elem?, get_or,
  get_elem?-set_self, get_elem?-set_ne,
}
use fs_nasa_cfs_psp.KernelSysmon.{
  Monitor, RtemsCore, IdleThread, zero_rtems_core, cut_fraction, rtems_load, Timestamps,
  rtems_sample, rtems_visit,
}
use fs_nasa_cfs_psp.KernelSysmon.Load.{twice12_at_most}

-- What is documented of the timestamps: the difference of a time and a later one; and of a division
-- the whole percents and the thousandths of a percent, both 0 where the second time is 0.
pub record IsTimestamps (times : Timestamps) : Type 0 where
  pub subtracts : (start end : ℕ) → start ≤ end → times.subtract start end ≡ end - start
  pub by_zero : (part : ℕ) → times.divide part 0 ≡ (0, 0)
  pub divides :
      (part whole : ℕ)
      → 0 < whole
      → times.divide part whole ≡ (part * 100 / whole, part * 100000 / whole % 1000)

-- The load from the idle and the total time that have elapsed.
abbrev pub exact_load : ℕ → ℕ → ℕ
exact_load idle total =
    if total == 0
    then 0
    else if idle == total
    then 0xFFFFFF
    else 0x1000 * (100000 - idle * 100000 / total) / 100000 * 4097

-- Whole percents and thousandths together are the share in thousandths.
thousandths : (i t : ℕ) → i * 100 / t * 1000 + i * 100000 / t % 1000 ≡ i * 100000 / t
thousandths i t =
    let tenfold : i * 100000 ≡ i * 100 * 1000 = omega arith in
    let whole : i * 100000 / t / 1000 ≡ i * 100 / t =
      div-div-eq-div-mul (i * 100000) t 1000
      ∙ ap (λ (x : ℕ). x / (t * 1000)) tenfold
      ∙ mul-div-mul_right (i * 100) t (omega arith) in
    omega (arith, whole)

cut_fraction_short : (fval : ℕ) → fval < 1000 → cut_fraction 10 fval ≡ fval
unfolding cut_fraction
cut_fraction_short fval h = let short : ltb 999 fval ≡ false = ground arith in rw short refl

load_of_idle : (ival fval t : ℕ) → 100 ≤ ival → rtems_load ival fval t ≡ 0xFFFFFF
unfolding rtems_load
load_of_idle ival fval t h = let full : leb 100 ival ≡ true = ground arith in rw full refl

load_of_no_time : (fval : ℕ) → rtems_load 0 fval 0 ≡ 0
unfolding rtems_load
load_of_no_time fval = refl

load_of_busy :
    (ival fval t : ℕ)
    → ival < 100
    → 0 < t
    → fval < 1000
    → rtems_load ival fval t ≡ 0x1000 * (100000 - (ival * 1000 + fval)) / 100000 * 4097
unfolding rtems_load
load_of_busy ival fval t h positive short =
    let busy : leb 100 ival ≡ false = ground arith in
    let some_time : (t == 0) ≡ false = ground arith in
    rw (busy, some_time, cut_fraction_short fval short)
      (twice12_at_most (0x1000 * (100000 - (ival * 1000 + fval)) / 100000) (omega arith))

load_exact :
    (i t : ℕ) → 0 < t → i ≤ t → rtems_load (i * 100 / t) (i * 100000 / t % 1000) t ≡ exact_load i t
load_exact i t positive le =
    let some_time : (t == 0) ≡ false = ground arith in
    let p = i * 100 / t in
    let f = i * 100000 / t % 1000 in
    let below = div-lt_iff_lt-mul {k = t} {x = i * 100} {y = 100} positive in
    elim (Bool-cases (i == t)) [
      | inl all_idle ↦
          let full : 100 ≤ p = elim (Bool-cases (ltb p 100)) [
            | inl less ↦ absurd (ground (arith, below.0 (ground arith)))
            | inr enough ↦ ground arith
          ] in
          rw (some_time, all_idle) (load_of_idle p f t full)
      | inr part_idle ↦
          let few : p < 100 = below.1 (ground arith) in
          rw (some_time, part_idle)
            (load_of_busy p f t few positive (omega arith)
              ∙ ap (λ (x : ℕ). 0x1000 * (100000 - x) / 100000 * 4097) (thousandths i t))
    ]

divide_exact :
    (times : Timestamps) (i t : ℕ)
    → IsTimestamps times
    → i ≤ t
    → rtems_load (times.divide i t).0 (times.divide i t).1 t ≡ exact_load i t
divide_exact times i zero h le = rw (h.by_zero i) (load_of_no_time 0)
divide_exact times i (suc t) h le =
    rw (h.divides i (suc t) (omega arith)) (load_exact i (suc t) (omega arith) le)

-- The visit of an idle task, where the times have grown, the idle time by no more than the total, and
-- the operations on timestamps are the documented ones: the core's load is 0 if no time has
-- elapsed, the largest of 24 bits if all of it was idle, and else 4097 times the busy share of
-- 0x1000, exact to a thousandth of a percent. The two times are kept, and the other cores stay.
pub rtems_visit-exact :
    (times : Timestamps) (thread : IdleThread) (s : Monitor RtemsCore) (j : ℕ)
    → IsTimestamps times
    → thread.is_idle ≡ true
    → s.num_cpus < length s.per_core
    → (get_or s.per_core s.num_cpus zero_rtems_core).last_run_time ≤ thread.current_uptime
    → (get_or s.per_core s.num_cpus zero_rtems_core).idle_last_uptime ≤ thread.idle_task_uptime
    → thread.idle_task_uptime - (get_or s.per_core s.num_cpus zero_rtems_core).idle_last_uptime
      ≤ thread.current_uptime - (get_or s.per_core s.num_cpus zero_rtems_core).last_run_time
    → j ≢ s.num_cpus
    → let old = get_or s.per_core s.num_cpus zero_rtems_core in
      let cores = (rtems_visit times thread s).1.per_core in
      (get_elem? cores s.num_cpus
        ≡ some (record {
          avg_load =
              exact_load
                (thread.idle_task_uptime - old.idle_last_uptime)
                (thread.current_uptime - old.last_run_time);
          last_run_time = thread.current_uptime;
          idle_last_uptime = thread.idle_task_uptime;
        }))
      × (get_elem? cores j ≡ get_elem? s.per_core j)
unfolding rtems_visit rtems_sample
rtems_visit-exact times thread s j d is_idle room h1 h2 le other =
    let old = get_or s.per_core s.num_cpus zero_rtems_core in
    let total = d.subtracts old.last_run_time thread.current_uptime h1 in
    let idle = d.subtracts old.idle_last_uptime thread.idle_task_uptime h2 in
    rw is_idle (
      get_elem?-set_self s.per_core s.num_cpus _ room
          ∙ ap
              (λ (load : ℕ). some (record {
                avg_load = load;
                last_run_time = thread.current_uptime;
                idle_last_uptime = thread.idle_task_uptime;
              }))
              (rw (idle, total) (divide_exact times _ _ d le)),
      get_elem?-set_ne s.per_core s.num_cpus j _ (λ e. other (sym e)),
    )
