-- ===== src/KernelSysmon/FreeRtosLoad.antt =====
-- The load that FreeRTOS' monitor computes from counters that wrap, and how it is read.
use native.Mathlib.Nat.{div-lt_iff_lt-mul}
use fs_nasa_cfs_psp.Base.{
  ℕ, ◌-◌, ◌*◌, ◌/◌, ◌%◌, ◌^◌, ◌≤◌, ◌<◌, ◌≡◌, refl, ap, inl, inr, Bool, true, false, some, List,
  arith, ltb, ◌==◌, if◌then◌else◌, Bool-cases, length, set, u32_mod, sub32,
}
use fs_nasa_cfs_psp.Status.{success, code}
use fs_nasa_cfs_psp.Sysmon.Driver.{analog, decode}
use fs_nasa_cfs_psp.KernelSysmon.{twice12}
use fs_nasa_cfs_psp.KernelSysmon.Load.{twice12_at_most}
use fs_nasa_cfs_psp.KernelSysmon.FreeRtos.{
  FreertosMonitor, FreertosOutcome, freertos_update_state, freertos_aggregate_dispatch,
  freertos_cpu_load_dispatch, freertos_dev_cmd,
}

-- The difference of two readings of a counter that wraps.
sub32_wraps : (a b : ℕ) → a ≤ b → b - a < 2 ^ 32 → sub32 (b % 2 ^ 32) (a % 2 ^ 32) ≡ b - a
sub32_wraps a b le small = omega arith

-- The load from what has elapsed.
abbrev pub load_of_elapsed : ℕ → ℕ → ℕ
load_of_elapsed idle total =
    if total == 0 then 0 else 0x1000 * (100 - idle * 100 / total) / 100 * 4097

percent_at_most : (idle total : ℕ) → idle ≤ total → 0 < total → idle * 100 / total ≤ 100
percent_at_most idle total le positive =
    let less : idle * 100 < 101 * total = omega arith in
    let small : idle * 100 / total < 101 = (div-lt_iff_lt-mul positive).1 less in omega arith

load_exact :
    (idle total : ℕ)
    → idle ≤ total
    → (if ltb 0 total
        then twice12 (0x1000 * sub32 100 (idle * 100 / total % u32_mod) % u32_mod / 100)
        else 0)
      ≡ load_of_elapsed idle total
load_exact idle total le = elim (Bool-cases (ltb 0 total)) [
  | inr nothing ↦ let at_once : (total == 0) ≡ true = ground arith in rw (nothing, at_once) refl
  | inl some_time ↦
      let later : (total == 0) ≡ false = ground arith in
      let p = idle * 100 / total in
      let percent : p ≤ 100 = percent_at_most idle total le (ground arith) in
      let load : 0x1000 * sub32 100 (p % u32_mod) % u32_mod / 100 ≡ 0x1000 * (100 - p) / 100 =
        omega arith in
      rw (some_time, later, load) (twice12_at_most (0x1000 * (100 - p) / 100) (omega arith))
]

-- A sample of FreeRTOS' monitor, whatever the wraps of the two counters before it and since the last
-- sample: if less than 2 ^ 32 ticks have passed, and no more of them idle than in all, the load is
-- that of the true numbers of ticks, and the readings are kept for the next sample.
pub freertos_update_state-load :
    (s : FreertosMonitor) (idle idle' time time' : ℕ)
    → s.core.idle_last_uptime ≡ idle % 2 ^ 32
    → s.core.last_run_time ≡ time % 2 ^ 32
    → idle ≤ idle'
    → time ≤ time'
    → time' - time < 2 ^ 32
    → idle' - idle ≤ time' - time
    → (freertos_update_state (idle' % 2 ^ 32) (time' % 2 ^ 32) s).core ≡ record {
      last_run_time = time' % 2 ^ 32;
      idle_last_uptime = idle' % 2 ^ 32;
      avg_load = load_of_elapsed (idle' - idle) (time' - time);
    }
unfolding freertos_update_state
freertos_update_state-load s idle idle' time time' e1 e2 h1 h2 h3 h4 =
    let di = sub32_wraps idle idle' h1 (omega arith) in
    let dt = sub32_wraps time time' h2 h3 in
    rw (e1, e2, di, dt)
      (ap
        (λ (load : ℕ). record {
          last_run_time = time' % 2 ^ 32;
          idle_last_uptime = idle' % 2 ^ 32;
          avg_load = load;
        })
        (load_exact (idle' - idle) (time' - time) h4))

-- Whether a task could be created or not, a read of one channel gives the same through the aggregate
-- and through the single core: it succeeds and stores the load, if the caller's array has room.
pub freertos_dev_cmd-reads :
    (creates : Bool) (samples : List ℕ) (s : FreertosMonitor)
    → 0 < length samples
    → let stored : FreertosOutcome =
        some (code success, s, analog 1 (set samples 0 s.core.avg_load)) in
      (freertos_dev_cmd creates 0x10001 0 0 (analog 1 samples) s ≡ stored)
      × (freertos_dev_cmd creates 0x10001 1 0 (analog 1 samples) s ≡ stored)
unfolding freertos_dev_cmd freertos_aggregate_dispatch freertos_cpu_load_dispatch decode
freertos_dev_cmd-reads creates samples s room =
    let within : ltb 0 (length samples) ≡ true = ground arith in rw within (refl, refl)
