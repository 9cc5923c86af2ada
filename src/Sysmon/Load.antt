-- ===== src/Sysmon/Load.antt =====
-- The loads of linux_sysmon: 24-bit shares of the time that has passed.
use native.Mathlib.Nat.{div-lt_iff_lt-mul}
use fs_nasa_cfs_psp.Base.{
  ℕ, zero, suc, ◌*◌, ◌/◌, ◌%◌, ◌^◌, ◌≤◌, ◌<◌, bit_or, bit_or_disjoint, ◌≡◌, refl, ◌∙◌, ◌⊎◌, inl,
  inr, true, false, List, [], ◌∷◌, arith, ltb, leb, ◌==◌, if◌then◌else◌, Bool-cases, length, get_or,
  set, length-set, u32_mod,
}
use fs_nasa_cfs_psp.Sysmon.{
  Core, CpuLoad, CpuLine, zero_core, max_cpus, max_load, load_of, sample_core, sample_lines,
  update_schedstat,
}

-- The 12-bit share of a CPU that worked less than the time between two samples.
share_below : (busy elapsed : ℕ) → busy < elapsed → 0x1000 * busy % u32_mod / elapsed < 2 ^ 12
share_below busy elapsed less =
    let smaller : 0x1000 * busy % u32_mod ≤ 0x1000 * busy = omega arith in
    (div-lt_iff_lt-mul (omega (arith, less))).1 (omega (arith, smaller, less))

-- The load of a CPU, for less than 2 ^ 20 milliseconds of work between two samples: the largest
-- 24-bit number if it worked at least as long as the time between them, even if none has passed;
-- else its share of that time in 12 bits, twice, one copy above the other. It is never above the
-- largest.
pub load_of_share :
    (busy elapsed : ℕ)
    → busy < 2 ^ 20
    → ((elapsed ≤ busy) × (load_of busy elapsed ≡ max_load))
      ⊎ ((busy < elapsed)
          × (load_of busy elapsed ≡ 4097 * (4096 * busy / elapsed))
          × (load_of busy elapsed ≤ max_load))
unfolding load_of
load_of_share busy elapsed short = elim (Bool-cases (leb elapsed busy)) [
  | inl full ↦ rw full (inl (ground (arith, full), refl))
  | inr part ↦
      let less : busy < elapsed = ground (arith, part) in
      let some_time : (elapsed == 0) ≡ false = ground arith in
      let fits : 0x1000 * busy % u32_mod ≡ 4096 * busy = omega arith in
      let small : 4096 * busy / elapsed < 2 ^ 12 = rw (← fits) (share_below busy elapsed less) in
      let q = 4096 * busy / elapsed in
      let high : q * 2 ^ 12 % u32_mod ≡ q * 2 ^ 12 = omega (arith, small) in
      let twice : bit_or (q * 2 ^ 12) q ≡ 4097 * q = bit_or_disjoint 12 q q small ∙ omega arith in
      rw (part, some_time, fits, high, twice) (inr (less, refl, omega (arith, small)))
]

load_of-le : (busy elapsed : ℕ) → load_of busy elapsed ≤ max_load
unfolding load_of
load_of-le busy elapsed = elim (Bool-cases (leb elapsed busy)) [
  | inl full ↦ rw full (omega arith)
  | inr part ↦
      let less : busy < elapsed = ground (arith, part) in
      let some_time : (elapsed == 0) ≡ false = ground arith in
      let q = 0x1000 * busy % u32_mod / elapsed in
      let small : q < 2 ^ 12 = share_below busy elapsed less in
      let high : q * 2 ^ 12 % u32_mod ≡ q * 2 ^ 12 = omega (arith, small) in
      let twice : bit_or (q * 2 ^ 12) q ≡ 4097 * q = bit_or_disjoint 12 q q small ∙ omega arith in
      rw (part, some_time, high, twice) (omega (arith, small))
]

-- The array of cores has its 128 entries, each with a 24-bit load, the CPUs counted are among them,
-- and a running device has counted one at least and keeps its thread.
pub record IsLoaded (s : CpuLoad) : Type 0 where
  pub cores : length s.per_core ≡ max_cpus
  pub counted : s.num_cpus ≤ max_cpus
  pub running : s.is_running ≡ true → (s.should_run ≡ true) × (1 ≤ s.num_cpus)
  pub loads : (i : ℕ) → (get_or s.per_core i zero_core).avg_load ≤ max_load

sample_core-le :
    (ms : ℕ → ℕ) (elapsed run : ℕ) (c : Core) → (sample_core ms elapsed run c).avg_load ≤ max_load
unfolding sample_core
sample_core-le ms elapsed run c = load_of-le _ elapsed

set-le :
    (cores : List Core) (j : ℕ) (c : Core)
    → c.avg_load ≤ max_load
    → ((i : ℕ) → (get_or cores i zero_core).avg_load ≤ max_load)
    → (i : ℕ) → (get_or (set cores j c) i zero_core).avg_load ≤ max_load
set-le [] j c hc h i = h i
set-le (x ∷ cores) zero c hc h zero = hc
set-le (x ∷ cores) zero c hc h (suc i) = h (suc i)
set-le (x ∷ cores) (suc j) c hc h zero = h zero
set-le (x ∷ cores) (suc j) c hc h (suc i) = set-le cores j c hc (λ i. h (suc i)) i

-- The two turns of the loop.
sample_lines_known :
    (ms : ℕ → ℕ) (elapsed : ℕ) (l : CpuLine) (lines : List CpuLine) (highest : ℕ)
    (cores : List Core)
    → ltb l.cpu_num max_cpus ≡ true
    → sample_lines ms elapsed (l ∷ lines) highest cores
      ≡ sample_lines ms elapsed lines (if ltb highest l.cpu_num then l.cpu_num else highest) (
          set cores l.cpu_num
            (sample_core ms elapsed l.run_time (get_or cores l.cpu_num zero_core)))
unfolding sample_lines
sample_lines_known ms elapsed l lines highest cores known = rw (known, sample_lines) refl

sample_lines_beyond :
    (ms : ℕ → ℕ) (elapsed : ℕ) (l : CpuLine) (lines : List CpuLine) (highest : ℕ)
    (cores : List Core)
    → ltb l.cpu_num max_cpus ≡ false
    → sample_lines ms elapsed (l ∷ lines) highest cores
      ≡ sample_lines ms elapsed lines highest cores
unfolding sample_lines
sample_lines_beyond ms elapsed l lines highest cores beyond = rw (beyond, sample_lines) refl

sample_lines-le :
    (ms : ℕ → ℕ) (elapsed : ℕ) (lines : List CpuLine) (highest : ℕ) (cores : List Core)
    → highest < max_cpus
    → length cores ≡ max_cpus
    → ((i : ℕ) → (get_or cores i zero_core).avg_load ≤ max_load)
    → let (highest', cores') = sample_lines ms elapsed lines highest cores in
      (highest' < max_cpus)
      × (length cores' ≡ max_cpus)
      × ((i : ℕ) → (get_or cores' i zero_core).avg_load ≤ max_load)
unfolding sample_lines
sample_lines-le ms elapsed [] highest cores hh hl h = (hh, hl, h)
sample_lines-le ms elapsed (l ∷ lines) highest cores hh hl h =
    elim (Bool-cases (ltb l.cpu_num max_cpus)) [
      | inl known ↦
          let here = sample_core ms elapsed l.run_time (get_or cores l.cpu_num zero_core) in
          rw (sample_lines_known ms elapsed l lines highest cores known) (
            sample_lines-le ms elapsed lines _ (set cores l.cpu_num here) (ground (arith, known))
              (length-set cores l.cpu_num here ∙ hl)
              (set-le cores l.cpu_num here
                (sample_core-le ms elapsed l.run_time (get_or cores l.cpu_num zero_core)) h))
      | inr beyond ↦
          rw (sample_lines_beyond ms elapsed l lines highest cores beyond)
            (sample_lines-le ms elapsed lines highest cores hh hl h)
    ]

pub update_schedstat-IsLoaded :
    (ms : ℕ → ℕ) (elapsed : ℕ) (lines : List CpuLine) (s : CpuLoad)
    → IsLoaded s
    → IsLoaded (update_schedstat ms elapsed lines s)
      × (1 ≤ (update_schedstat ms elapsed lines s).num_cpus)
unfolding update_schedstat
update_schedstat-IsLoaded ms elapsed lines s h =
    let (hh, hl, loads) =
      sample_lines-le ms elapsed lines 0 s.per_core (omega arith) h.cores h.loads in
    (
      record {
        cores = hl;
        counted = omega (arith, hh);
        running = λ r. ((h.running r).0, omega (arith, hh));
        loads = loads;
      },
      omega (arith, hh),
    )
