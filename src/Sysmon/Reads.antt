-- ===== src/Sysmon/Reads.antt =====
-- Start, stop and reads through the driver interface of linux_sysmon.
use native.Mathlib.Decide.{ℕ_discrete}
use fs_nasa_cfs_psp.Base.{
  ℕ, zero, suc, ◌+◌, ◌/◌, ◌≤◌, ◌<◌, ◌≡◌, refl, ap, ◌≢◌, ◌⊎◌, inl, inr, Bool, true, false, ◌&&◌,
  none, some, List, ◌∷◌, arith, ltb, leb, ◌==◌, if◌then◌else◌, Bool-cases, length, get_or, set,
  length-set,
}
use fs_nasa_cfs_psp.Status.{ℤ, pos, success, error, code}
use fs_nasa_cfs_psp.Sysmon.{Core, CpuLoad, Answers, zero_core, start, stop}
use fs_nasa_cfs_psp.Sysmon.Driver.{
  u32, analog, decode, aggregate_dispatch, cpu_load_dispatch, read_channels, dev_cmd,
}
use fs_nasa_cfs_psp.Sysmon.Load.{IsLoaded}
use fs_nasa_cfs_psp.Sysmon.Aggregate.{total, calc_aggregate_cpu-total}
use fs_nasa_cfs_psp.Sysmon.Control.{start-Started, stop-IsLoaded}

set_running_stops :
    (ms : ℕ → ℕ) (a : Answers) (n ch : ℕ) (s : CpuLoad)
    → n ≡ 0
    → dev_cmd ms a 1 0 ch (u32 n) s ≡ some (code (stop s).0, (stop s).1, u32 n)
unfolding dev_cmd aggregate_dispatch decode
set_running_stops ms a n ch s z = rw z refl

set_running_starts :
    (ms : ℕ → ℕ) (a : Answers) (n ch : ℕ) (s : CpuLoad)
    → n ≢ 0
    → dev_cmd ms a 1 0 ch (u32 n) s ≡ some (code (start ms a s).0, (start ms a s).1, u32 n)
unfolding dev_cmd aggregate_dispatch decode
set_running_starts ms a n ch s nz = let test : (n == 0) ≡ false = ground arith in rw test refl

get_running_tells :
    (ms : ℕ → ℕ) (a : Answers) (n ch : ℕ) (s : CpuLoad) (b : Bool)
    → s.is_running ≡ b
    → dev_cmd ms a 2 0 ch (u32 n) s ≡ some (pos (if b then 1 else 0), s, u32 n)
unfolding dev_cmd aggregate_dispatch decode
get_running_tells ms a n ch s b e = ap (λ r. some (pos (if r then 1 else 0), s, u32 n)) e

-- From a state with the invariant, SET_RUNNING of the aggregate subsystem and then GET_RUNNING:
-- after a request to stop the device is not running; a request to start tells success and then the
-- device is running, or error and then it is not and its thread is asked to end, whatever the
-- system answers and whether it was running before or not.
pub get_running-set_running :
    (ms : ℕ → ℕ) (a : Answers) (n ch : ℕ) (s : CpuLoad)
    → IsLoaded s
    → (status : ℤ) × (s' : CpuLoad) × (dev_cmd ms a 1 0 ch (u32 n) s ≡ some (status, s', u32 n))
      × (((n ≡ 0)
            × (status ≡ code success)
            × (dev_cmd ms a 2 0 ch (u32 n) s' ≡ some (pos 0, s', u32 n)))
          ⊎ (((n ≢ 0)
                × (status ≡ code success)
                × (dev_cmd ms a 2 0 ch (u32 n) s' ≡ some (pos 1, s', u32 n)))
              ⊎ ((n ≢ 0)
                  × (status ≡ code error)
                  × (s'.should_run ≡ false)
                  × (dev_cmd ms a 2 0 ch (u32 n) s' ≡ some (pos 0, s', u32 n)))))
get_running-set_running ms a n ch s h = elim (ℕ_discrete n 0) [
  | yes z ↦
      let (good, succeeded, off) = stop-IsLoaded s h in
      (
        _,
        _,
        set_running_stops ms a n ch s z,
        inl (z, ap code succeeded, get_running_tells ms a n ch _ false off),
      )
  | no nz ↦ (
    _,
    _,
    set_running_starts ms a n ch s nz,
    inr (elim (start-Started ms a s h).1 [
      | inl (succeeded, on) ↦ inl (nz, ap code succeeded, get_running_tells ms a n ch _ true on)
      | inr (failed, off, ends) ↦
          inr (nz, ap code failed, ends, get_running_tells ms a n ch _ false off)
    ]),
  )
]

-- A read of one sample of the aggregate channel, from a running device with the invariant and with
-- room for the sample, tells success and stores the exact average of the loads, rounded down.
pub running_read :
    (ms : ℕ → ℕ) (a : Answers) (s : CpuLoad) (x : ℕ) (rest : List ℕ)
    → IsLoaded s
    → s.is_running ≡ true
    → dev_cmd ms a 0x10001 0 0 (analog 1 (x ∷ rest)) s
      ≡ some (code success, s, analog 1 (total s.num_cpus s.per_core / s.num_cpus ∷ rest))
unfolding dev_cmd aggregate_dispatch decode
running_read ms a s x rest h on = elim (calc_aggregate_cpu-total s h) [
  | inl (empty, e) ↦ absurd (omega (arith, empty, (h.running on).1))
  | inr (some_cpus, e, small) ↦
      let room : ltb 0 (length (x ∷ rest)) ≡ true = ground arith in rw (e, room) refl
]

read_channels_outside :
    (ch n : ℕ) (cores : List Core) (samples : List ℕ)
    → length samples < ch + n
    → 1 ≤ n
    → read_channels ch n cores samples ≡ none
unfolding read_channels
read_channels_outside ch zero cores samples past some_channels = absurd (omega arith)
read_channels_outside ch (suc zero) cores samples past some_channels =
    let full : ltb ch (length samples) ≡ false = ground arith in rw full refl
read_channels_outside ch (suc (suc left)) cores samples past some_channels =
    elim (Bool-cases (ltb ch (length samples))) [
      | inr full ↦ rw full refl
      | inl room ↦
          let here = (get_or cores ch zero_core).avg_load in
          rw room (
            read_channels_outside (ch + 1) (suc left) cores (set samples ch here)
              (omega (arith, length-set samples ch here)) (omega arith))
    ]

-- A read of at least one channel of the per-CPU subsystem, of CPUs that are counted, from any
-- channel but the first and with as many samples as the caller asks for, stores outside the
-- caller's array.
pub per_cpu_read_fails :
    (ms : ℕ → ℕ) (a : Answers) (s : CpuLoad) (ch n : ℕ) (samples : List ℕ)
    → 1 ≤ ch
    → 1 ≤ n
    → ch + n ≤ s.num_cpus
    → length samples ≡ n
    → dev_cmd ms a 0x10001 1 ch (analog n samples) s ≡ none
unfolding dev_cmd cpu_load_dispatch decode
per_cpu_read_fails ms a s ch n samples from_second some_channels within room =
    let accepted : (ltb ch s.num_cpus && leb (ch + n) s.num_cpus) ≡ true = ground arith in
    rw (accepted, read_channels_outside ch n s.per_core samples (omega arith) some_channels) refl
