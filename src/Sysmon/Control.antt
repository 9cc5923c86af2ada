-- ===== src/Sysmon/Control.antt =====
-- Commands to linux_sysmon: start, stop and the invariant of the state.
use fs_nasa_cfs_psp.Base.{
  ℕ, zero, suc, ◌+◌, ◌≤◌, ◌≡◌, refl, ◌⊎◌, inl, inr, Bool, true, false, ◌&&◌, none, some, arith, ltb,
  leb, ◌==◌, Bool-cases, Option-cases, length, get_or, replicate, length-replicate,
}
use fs_nasa_cfs_psp.Status.{Status, success, error}
use fs_nasa_cfs_psp.Sysmon.{
  CpuLoad, Answers, zero_core, clean, max_cpus, max_load, update_schedstat, start, stop,
}
use fs_nasa_cfs_psp.Sysmon.Driver.{
  Arg, u32, const_str, direction, analog, Command, noop, set_running, get_running,
  set_configuration, get_configuration, lookup_subsystem, lookup_subchannel, query_direction,
  analog_io_noop, analog_io_read_channels, unknown, decode, Outcome, aggregate_dispatch,
  cpu_load_dispatch, read_channels, dev_cmd,
}
use fs_nasa_cfs_psp.Sysmon.Load.{IsLoaded, update_schedstat-IsLoaded}

pub clean-IsLoaded : (run : Bool) → IsLoaded (record clean { should_run = run })
clean-IsLoaded run = record {
  cores = length-replicate max_cpus zero_core;
  counted = omega arith;
  running = λ r. absurd cc;
  loads = zero_loads max_cpus;
}
  where
    zero_loads : (n i : ℕ) → (get_or (replicate n zero_core) i zero_core).avg_load ≤ max_load
    zero_loads zero i = omega arith
    zero_loads (suc n) zero = omega arith
    zero_loads (suc n) (suc i) = zero_loads n i

-- What a start answers and leaves.
abbrev pub Started : Status × CpuLoad → Type 0
Started (status, s) =
    IsLoaded s
    × (((status ≡ success) × (s.is_running ≡ true))
        ⊎ ((status ≡ error) × (s.is_running ≡ false) × (s.should_run ≡ false)))

start_running :
    (ms : ℕ → ℕ) (a : Answers) (s : CpuLoad) → s.is_running ≡ true → start ms a s ≡ (success, s)
unfolding start
start_running ms a s on = rw on refl

start_fails :
    (ms : ℕ → ℕ) (a : Answers) (s : CpuLoad)
    → s.is_running ≡ false
    → (a.opens ≡ false) ⊎ (a.creates ≡ false)
    → start ms a s ≡ (error, clean)
unfolding start
start_fails ms a s off (inl fails) = rw (off, fails) refl
start_fails ms a s off (inr fails) = elim (Bool-cases a.opens) [
  | inl opened ↦ rw (off, opened, fails) refl
  | inr closed ↦ rw (off, closed) refl
]

start_waits :
    (ms : ℕ → ℕ) (a : Answers) (s : CpuLoad)
    → s.is_running ≡ false
    → a.opens ≡ true
    → a.creates ≡ true
    → Started (start ms a s)
unfolding start
start_waits ms a s off opened created = elim (Option-cases a.first_sample) [
  | inl no_sample ↦
      rw (off, opened, created, no_sample) (clean-IsLoaded false, inr (refl, refl, refl))
  | inr (lines, sample) ↦
      let (good, some_cpus) =
        update_schedstat-IsLoaded ms 0 lines (record clean { should_run = true })
          (clean-IsLoaded true) in
      let counted : ((update_schedstat ms 0 lines (record clean { should_run = true })).num_cpus
            == 0)
          ≡ false =
        ground (arith, some_cpus) in
      rw (off, opened, created, sample, counted)
        (
          record {
            cores = good.cores;
            counted = good.counted;
            running = λ r. (refl, some_cpus);
            loads = good.loads;
          },
          inl (refl, refl),
        )
]

pub start-Started : (ms : ℕ → ℕ) (a : Answers) (s : CpuLoad) → IsLoaded s → Started (start ms a s)
start-Started ms a s h = elim (Bool-cases s.is_running) [
  | inl on ↦ rw (start_running ms a s on) (h, inl (refl, on))
  | inr off ↦ elim (Bool-cases a.opens) [
    | inr fails ↦
        rw (start_fails ms a s off (inl fails)) (clean-IsLoaded false, inr (refl, refl, refl))
    | inl opened ↦ elim (Bool-cases a.creates) [
      | inr fails ↦
          rw (start_fails ms a s off (inr fails)) (clean-IsLoaded false, inr (refl, refl, refl))
      | inl created ↦ start_waits ms a s off opened created
    ]
  ]
]

stop_running :
    (s : CpuLoad)
    → s.is_running ≡ true
    → stop s ≡ (success, record s { should_run = false; is_running = false })
unfolding stop
stop_running s on = rw on refl

stop_stopped : (s : CpuLoad) → s.is_running ≡ false → stop s ≡ (success, s)
unfolding stop
stop_stopped s off = rw off refl

pub stop-IsLoaded :
    (s : CpuLoad)
    → IsLoaded s
    → IsLoaded (stop s).1 × ((stop s).0 ≡ success) × ((stop s).1.is_running ≡ false)
stop-IsLoaded s h = elim (Bool-cases s.is_running) [
  | inl on ↦ rw (stop_running s on) (
    record { cores = h.cores; counted = h.counted; running = λ r. absurd cc; loads = h.loads },
    refl,
    refl,
  )
  | inr off ↦ rw (stop_stopped s off) (h, refl, off)
]

-- What every outcome of a command keeps.
abbrev pub AfterCommand : Outcome → Type 0
AfterCommand none = Unit
AfterCommand (some (status, s, arg)) = IsLoaded s

aggregate-AfterCommand :
    (ms : ℕ → ℕ) (a : Answers) (command : Command) (ch : ℕ) (arg : Arg) (s : CpuLoad)
    → IsLoaded s
    → AfterCommand (aggregate_dispatch ms a command ch arg s)
unfolding aggregate_dispatch
aggregate-AfterCommand ms a noop ch arg s h = h
aggregate-AfterCommand ms a analog_io_noop ch arg s h = h
aggregate-AfterCommand ms a set_running ch (u32 n) s h = elim (Bool-cases (n == 0)) [
  | inl zero_given ↦ rw zero_given (stop-IsLoaded s h).0
  | inr other ↦ rw other (start-Started ms a s h).0
]
aggregate-AfterCommand ms a set_running ch (const_str t) s h = tt
aggregate-AfterCommand ms a set_running ch (direction d) s h = tt
aggregate-AfterCommand ms a set_running ch (analog n samples) s h = tt
aggregate-AfterCommand ms a get_running ch arg s h = h
aggregate-AfterCommand ms a set_configuration ch arg s h = h
aggregate-AfterCommand ms a get_configuration ch arg s h = h
aggregate-AfterCommand ms a lookup_subsystem ch (const_str t) s h = h
aggregate-AfterCommand ms a lookup_subsystem ch (u32 n) s h = tt
aggregate-AfterCommand ms a lookup_subsystem ch (direction d) s h = tt
aggregate-AfterCommand ms a lookup_subsystem ch (analog n samples) s h = tt
aggregate-AfterCommand ms a lookup_subchannel ch (const_str t) s h = h
aggregate-AfterCommand ms a lookup_subchannel ch (u32 n) s h = tt
aggregate-AfterCommand ms a lookup_subchannel ch (direction d) s h = tt
aggregate-AfterCommand ms a lookup_subchannel ch (analog n samples) s h = tt
aggregate-AfterCommand ms a query_direction ch (direction none) s h = h
aggregate-AfterCommand ms a query_direction ch (direction (some d)) s h = h
aggregate-AfterCommand ms a query_direction ch (u32 n) s h = tt
aggregate-AfterCommand ms a query_direction ch (const_str t) s h = tt
aggregate-AfterCommand ms a query_direction ch (analog n samples) s h = tt
aggregate-AfterCommand ms a analog_io_read_channels ch (analog n samples) s h =
    elim (Bool-cases ((n == 1) && (ch == 0))) [
      | inl one ↦ elim (Bool-cases (ltb 0 (length samples))) [
        | inl room ↦ rw (one, room) h
        | inr full ↦ rw (one, full) tt
      ]
      | inr other ↦ rw other h
    ]
aggregate-AfterCommand ms a analog_io_read_channels ch (u32 n) s h = tt
aggregate-AfterCommand ms a analog_io_read_channels ch (const_str t) s h = tt
aggregate-AfterCommand ms a analog_io_read_channels ch (direction d) s h = tt
aggregate-AfterCommand ms a unknown ch arg s h = h

cpu_load-AfterCommand :
    (command : Command) (ch : ℕ) (arg : Arg) (s : CpuLoad)
    → IsLoaded s
    → AfterCommand (cpu_load_dispatch command ch arg s)
unfolding cpu_load_dispatch
cpu_load-AfterCommand analog_io_read_channels ch (analog n samples) s h =
    elim (Bool-cases (ltb ch s.num_cpus && leb (ch + n) s.num_cpus)) [
      | inr other ↦ rw other h
      | inl within ↦ elim (Option-cases (read_channels ch n s.per_core samples)) [
        | inl outside ↦ rw (within, outside) tt
        | inr (samples', done) ↦ rw (within, done) h
      ]
    ]
cpu_load-AfterCommand analog_io_read_channels ch (u32 n) s h = tt
cpu_load-AfterCommand analog_io_read_channels ch (const_str t) s h = tt
cpu_load-AfterCommand analog_io_read_channels ch (direction d) s h = tt
cpu_load-AfterCommand noop ch arg s h = h
cpu_load-AfterCommand set_running ch arg s h = h
cpu_load-AfterCommand get_running ch arg s h = h
cpu_load-AfterCommand set_configuration ch arg s h = h
cpu_load-AfterCommand get_configuration ch arg s h = h
cpu_load-AfterCommand lookup_subsystem ch arg s h = h
cpu_load-AfterCommand lookup_subchannel ch arg s h = h
cpu_load-AfterCommand query_direction ch arg s h = h
cpu_load-AfterCommand analog_io_noop ch arg s h = h
cpu_load-AfterCommand unknown ch arg s h = h

-- Every command to the monitor, whatever the code, the subsystem, the channel, the argument and the
-- answers of the system: if it ends, it keeps the invariant of the state, that there are 128 cores
-- with 24-bit loads, at most as many CPUs counted, and at least one and a thread while the device is
-- running.
pub dev_cmd-AfterCommand :
    (ms : ℕ → ℕ) (a : Answers) (command_code subsystem ch : ℕ) (arg : Arg) (s : CpuLoad)
    → IsLoaded s
    → AfterCommand (dev_cmd ms a command_code subsystem ch arg s)
unfolding dev_cmd
dev_cmd-AfterCommand ms a command_code subsystem ch arg s h = elim (Bool-cases (subsystem == 0)) [
  | inl aggregate ↦ rw aggregate (aggregate-AfterCommand ms a (decode command_code) ch arg s h)
  | inr other ↦ elim (Bool-cases (subsystem == 1)) [
    | inl per_cpu ↦ rw (other, per_cpu) (cpu_load-AfterCommand (decode command_code) ch arg s h)
    | inr neither ↦ rw (other, neither) h
  ]
]
