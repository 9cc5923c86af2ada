-- ===== src/KernelSysmon/Visits.antt =====
-- The visits of RTEMS' threads: the idle tasks counted, within the array of cores.
use fs_nasa_cfs_psp.Base.{
  ℕ, ◌+◌, ◌≤◌, ◌<◌, min, ◌≡◌, refl, sym, subst, ◌∙◌, inl, inr, true, false, List, [], ◌∷◌, arith,
  leb, if◌then◌else◌, Bool-cases, length, length-set,
}
use fs_nasa_cfs_psp.KernelSysmon.{
  Monitor, RtemsCore, IdleThread, Timestamps, rtems_sample, rtems_visit, rtems_iterate,
  rtems_update_stat,
}

abbrev pub idle_threads : List IdleThread → ℕ
idle_threads [] = 0
idle_threads (t ∷ threads) = (if t.is_idle then 1 else 0) + idle_threads threads

counts_one :
    (t : IdleThread) (threads : List IdleThread)
    → t.is_idle ≡ true
    → idle_threads (t ∷ threads) ≡ idle_threads threads + 1
counts_one t threads idle =
    let one : (if t.is_idle then 1 else 0) + idle_threads threads ≡ 1 + idle_threads threads =
      rw idle refl in
    omega arith

counts_none :
    (t : IdleThread) (threads : List IdleThread)
    → t.is_idle ≡ false
    → idle_threads (t ∷ threads) ≡ idle_threads threads
counts_none t threads other =
    let none_added : (if t.is_idle then 1 else 0) + idle_threads threads
        ≡ 0 + idle_threads threads =
      rw other refl in
    omega arith

module _ (times : Timestamps) where
  -- A visit of another thread.
  visit_other :
      (t : IdleThread) (threads : List IdleThread) (s : Monitor RtemsCore)
      → t.is_idle ≡ false
      → rtems_iterate times (t ∷ threads) s ≡ rtems_iterate times threads s
  unfolding rtems_iterate rtems_visit
  visit_other t threads s other = rw (other, rtems_iterate) refl

  -- One of an idle task.
  visit_idle :
      (t : IdleThread) (threads : List IdleThread) (s : Monitor RtemsCore)
      → t.is_idle ≡ true
      → let u = rtems_sample times t s in
        rtems_iterate times (t ∷ threads) s
        ≡ (if leb (length s.per_core) u.num_cpus then u else rtems_iterate times threads u)
  unfolding rtems_iterate rtems_visit
  visit_idle t threads s idle = rw (idle, rtems_iterate) refl

  sample_count :
      (t : IdleThread) (s : Monitor RtemsCore)
      → s.num_cpus < 255
      → (rtems_sample times t s).num_cpus ≡ s.num_cpus + 1
  unfolding rtems_sample
  sample_count t s h = omega arith

  -- What a sample keeps.
  record Kept (s u : Monitor RtemsCore) : Type 0 where
    cores : length u.per_core ≡ length s.per_core
    running : u.is_running ≡ s.is_running
    kept_on : u.should_run ≡ s.should_run

  sample-Kept : (t : IdleThread) (s : Monitor RtemsCore) → Kept s (rtems_sample times t s)
  unfolding rtems_sample
  sample-Kept t s = record {
    cores = length-set s.per_core s.num_cpus _;
    running = refl;
    kept_on = refl;
  }

  -- The count of a sample with `total` idle tasks, and what else holds after it.
  abbrev Counted : ℕ → Monitor RtemsCore → Monitor RtemsCore → Type 0
  Counted total s u = (u.num_cpus ≡ min total (length s.per_core)) × Kept s u

  rtems_iterate-Counted :
      (threads : List IdleThread) (s : Monitor RtemsCore)
      → length s.per_core ≤ 255
      → s.num_cpus < length s.per_core
      → Counted (s.num_cpus + idle_threads threads) s (rtems_iterate times threads s)
  unfolding rtems_iterate
  rtems_iterate-Counted [] s small room =
      (omega arith, record { cores = refl; running = refl; kept_on = refl })
  rtems_iterate-Counted (t ∷ threads) s small room =
      let total = s.num_cpus + idle_threads (t ∷ threads) in
      elim (Bool-cases t.is_idle) [
        | inl idle ↦
            let one = counts_one t threads idle in
            let u = rtems_sample times t s in
            let count = sample_count t s (omega arith) in
            let kept = sample-Kept t s in
            elim (Bool-cases (leb (length s.per_core) u.num_cpus)) [
              | inl last ↦
                  let ends : rtems_iterate times (t ∷ threads) s ≡ u =
                    visit_idle t threads s idle ∙ rw last refl in
                  subst (Counted total s) (sym ends) (ground arith, kept)
              | inr further ↦
                  let (counted, rest) =
                    rtems_iterate-Counted threads u (omega (arith, kept.cores))
                      (ground (arith, kept.cores)) in
                  let goes : rtems_iterate times (t ∷ threads) s ≡ rtems_iterate times threads u =
                    visit_idle t threads s idle ∙ rw further refl in
                  subst (Counted total s) (sym goes) (
                    omega (arith, counted, kept.cores),
                    record {
                      cores = rest.cores ∙ kept.cores;
                      running = rest.running ∙ kept.running;
                      kept_on = rest.kept_on ∙ kept.kept_on;
                    },
                  )
            ]
        | inr other ↦
            let same = counts_none t threads other in
            let (counted, kept) = rtems_iterate-Counted threads s small room in
            subst (Counted total s) (sym (visit_other t threads s other))
              (omega (arith, counted), kept)
      ]

  -- A sample of RTEMS' monitor, with 1 to 255 cores and any threads: `num_cpus` is the number of idle
  -- tasks or that of the cores, whichever is less, and the number of cores and the two flags stay.
  pub rtems_update_stat-counts :
      (threads : List IdleThread) (s : Monitor RtemsCore)
      → 1 ≤ length s.per_core
      → length s.per_core ≤ 255
      → let u = rtems_update_stat times threads s in
        (u.num_cpus ≡ min (idle_threads threads) (length s.per_core))
        × (length u.per_core ≡ length s.per_core)
        × (u.is_running ≡ s.is_running)
        × (u.should_run ≡ s.should_run)
  unfolding rtems_update_stat
  rtems_update_stat-counts threads s some_cores small =
      let start = record s { num_cpus = 0 } in
      let (counted, kept) = rtems_iterate-Counted threads start small (omega arith) in
      (counted ∙ omega arith, kept.cores, kept.running, kept.kept_on)
