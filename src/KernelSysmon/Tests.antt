-- ===== src/KernelSysmon/Tests.antt =====
-- The theorems on the two monitors, at small reports.
use fs_nasa_cfs_psp.Base.{
  ℕ, zero, suc, ◌-◌, ◌*◌, ◌/◌, ◌%◌, ◌^◌, ◌≤◌, ◌<◌, ◌≡◌, refl, ◌⊎◌, Bool, true, false, none, some,
  List, [], ◌∷◌, arith, length, get_elem?,
}
use fs_nasa_cfs_psp.Status.{success, code}
use fs_nasa_cfs_psp.Sysmon.Driver.{u32, analog}
use fs_nasa_cfs_psp.KernelSysmon.{
  Monitor, SpyLine, VxCore, created, ran_first, vx_start, zero_vx_core, clean, vx_update_stat,
  vx_report, vx_turn, RtemsCore, IdleThread, Timestamps, cut_fraction, rtems_load, rtems_visit,
}
use fs_nasa_cfs_psp.KernelSysmon.Driver.{vx_dev_cmd}
use fs_nasa_cfs_psp.KernelSysmon.FreeRtos.{FreertosMonitor, freertos_update_state}
use fs_nasa_cfs_psp.KernelSysmon.FreeRtosLoad.{load_of_elapsed, freertos_update_state-load}
use fs_nasa_cfs_psp.KernelSysmon.RtemsLoad.{IsTimestamps, exact_load, rtems_visit-exact}
use fs_nasa_cfs_psp.KernelSysmon.Report.{Fits, Reported, idle_count, vx_turn-Fits}
use fs_nasa_cfs_psp.KernelSysmon.Acts.{VxAct, command, task_starts, turn}
use fs_nasa_cfs_psp.KernelSysmon.Reads.{vx_dev_cmd-reads}

abbrev one_core : Monitor VxCore
one_core = clean 1 zero_vx_core

abbrev two_cores : Monitor VxCore
two_cores = clean 2 zero_vx_core

abbrev line : Bool → SpyLine
line is_idle = record {
  is_idle = is_idle;
  total_idle_percent = 40;
  total_idle_ticks = 400;
  idle_percent = 25;
  idle_ticks = 25;
}

abbrev report : List SpyLine
report = line false ∷ line true ∷ []

abbrev elapsed : ℕ
elapsed = 7

-- An idle core has the largest load, and one that is never idle has a load of 25 bits.
idle_load : rtems_load 100 0 7 ≡ 0xFFFFFF
unfolding rtems_load
idle_load = refl

busy_load : rtems_load 0 0 7 ≡ 0x1001000
unfolding rtems_load cut_fraction
busy_load = refl

vx_turn-Fits_example :
    (Fits 1 report
      → (t : Monitor VxCore) × (vx_turn report one_core ≡ some t)
        × Reported one_core t
        × (t.num_cpus ≡ idle_count report)
        × (t.num_cpus ≤ 1))
    × (¬ Fits 1 report → vx_turn report one_core ≡ none)
vx_turn-Fits_example = vx_turn-Fits report one_core (omega arith)

-- A line after that of the only idle task, such as the total.
overrun : vx_turn (line true ∷ line false ∷ []) one_core ≡ none
unfolding vx_turn vx_report vx_update_stat
overrun = refl

abbrev acts : List VxAct
acts =
    command (ran_first false) 1 0 0 (u32 1)
    ∷ command created 1 0 0 (u32 0)
    ∷ command created 1 0 0 (u32 1)
    ∷ task_starts true
    ∷ turn report
    ∷ []

-- The flags after a task that loses its clock at once, and after the second start.
lost_clock :
    vx_start (ran_first false) two_cores
    ≡ (success, record two_cores { is_running = true; should_run = false })
unfolding vx_start
lost_clock = refl

abbrev divide_or_zero : ℕ → ℕ → ℕ × ℕ
divide_or_zero part zero = (0, 0)
divide_or_zero part (suc whole) = (part * 100 / suc whole, part * 100000 / suc whole % 1000)

abbrev times : Timestamps
times = record { subtract = λ start end. end - start; divide = divide_or_zero }

times-IsTimestamps : IsTimestamps times
times-IsTimestamps = record {
  subtracts = λ start end le. refl;
  by_zero = λ part. refl;
  divides = some_whole;
}
  where
    some_whole :
        (part whole : ℕ)
        → 0 < whole
        → divide_or_zero part whole ≡ (part * 100 / whole, part * 100000 / whole % 1000)
    some_whole part zero h = absurd (omega arith)
    some_whole part (suc whole) h = refl

-- A core that was idle for 5 of 20 units, after a first sample.
abbrev two_rtems_cores : Monitor RtemsCore
two_rtems_cores = clean 2 (record { avg_load = 0; last_run_time = 100; idle_last_uptime = 10 })

abbrev idle_thread : IdleThread
idle_thread = record { is_idle = true; idle_task_uptime = 15; current_uptime = 120 }

rtems_visit-exact_example :
    let cores = (rtems_visit times idle_thread two_rtems_cores).1.per_core in
    (get_elem? cores 0
      ≡ some (record {
        avg_load = exact_load (15 - 10) (120 - 100);
        last_run_time = 120;
        idle_last_uptime = 15;
      }))
    × (get_elem? cores 1 ≡ get_elem? two_rtems_cores.per_core 1)
rtems_visit-exact_example =
    rtems_visit-exact times idle_thread two_rtems_cores 1 times-IsTimestamps refl (omega arith)
      (omega arith) (omega arith) (omega arith) (λ e. omega (arith, e))

abbrev channel : ℕ
channel = 1

vx_dev_cmd-reads_example :
    let result = vx_dev_cmd created 0x10001 1 1 (analog 1 (9 ∷ [])) two_cores in
    ((channel ≡ 0)
      × ((out : List ℕ) × (result ≡ some (code success, two_cores, analog 1 out))
          × (length out ≡ 1)
          × ((i : ℕ) (c : VxCore)
              → i < 1
              → get_elem? two_cores.per_core i ≡ some c
              → get_elem? out i ≡ some c.avg_load)))
    ⊎ ((0 < 1) × (result ≡ none))
vx_dev_cmd-reads_example = vx_dev_cmd-reads created 1 (9 ∷ []) two_cores (omega arith) (omega arith)

-- Both counters wrap between the two samples.
abbrev before_wrap : FreertosMonitor
before_wrap = record {
  is_running = true;
  should_run = true;
  core = record { last_run_time = 4294967200; idle_last_uptime = 4294967290; avg_load = 0 };
}

freertos_update_state-load_example :
    (freertos_update_state (4294967320 % 2 ^ 32) (4294967300 % 2 ^ 32) before_wrap).core ≡ record {
      last_run_time = 4294967300 % 2 ^ 32;
      idle_last_uptime = 4294967320 % 2 ^ 32;
      avg_load = load_of_elapsed (4294967320 - 4294967290) (4294967300 - 4294967200);
    }
freertos_update_state-load_example =
    freertos_update_state-load before_wrap 4294967290 4294967320 4294967200 4294967300 refl refl
      (omega arith) (omega arith) (omega arith) (omega arith)

-- A core that was never idle.
never_idle : load_of_elapsed 0 5 ≡ 0x1001000
never_idle = refl
