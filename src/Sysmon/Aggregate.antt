-- ===== src/Sysmon/Aggregate.antt =====
-- The aggregate load of linux_sysmon: the average over the CPUs.
use native.Mathlib.Nat.{div-lt_iff_lt-mul}
use fs_nasa_cfs_psp.Base.{
  ℕ, zero, suc, ◌+◌, ◌*◌, ◌/◌, ◌≤◌, ◌<◌, ◌≡◌, refl, ◌∙◌, ◌⊎◌, inl, inr, List, [], ◌∷◌, arith, ◌==◌,
  Bool-cases, get_or, u32_mod, add32,
}
use fs_nasa_cfs_psp.Status.{success, error}
use fs_nasa_cfs_psp.Sysmon.{Core, CpuLoad, zero_core, max_load, sum_loads, calc_aggregate_cpu}
use fs_nasa_cfs_psp.Sysmon.Load.{IsLoaded}

-- The sum without wrap-around.
unfoldable pub total : ℕ → List Core → ℕ
total zero cores = 0
total (suc count) [] = 0
total (suc count) (c ∷ cores) = c.avg_load + total count cores

abbrev AllLoads : List Core → Type 0
AllLoads cores = (i : ℕ) → (get_or cores i zero_core).avg_load ≤ max_load

total-le : (count : ℕ) (cores : List Core) → AllLoads cores → total count cores ≤ count * max_load
unfolding total
total-le zero cores h = omega arith
total-le (suc count) [] h = omega arith
total-le (suc count) (c ∷ cores) h = omega (arith, h 0, total-le count cores (λ i. h (suc i)))

sum_loads-total :
    (sum count : ℕ) (cores : List Core)
    → AllLoads cores
    → sum + count * max_load < u32_mod
    → sum_loads sum count cores ≡ sum + total count cores
unfolding sum_loads total
sum_loads-total sum zero cores h fits = omega arith
sum_loads-total sum (suc count) [] h fits = omega arith
sum_loads-total sum (suc count) (c ∷ cores) h fits =
    let added : add32 sum c.avg_load ≡ sum + c.avg_load = omega (arith, h 0) in
    rw added (
      sum_loads-total (sum + c.avg_load) count cores (λ i. h (suc i)) (omega (arith, h 0))
      ∙ omega arith)

-- The aggregate of a device with the invariant: without a CPU it is an error; else it is the exact
-- average of the loads of the CPUs counted, rounded down, as the 32-bit sum never wraps, and it is a
-- 24-bit number.
pub calc_aggregate_cpu-total :
    (s : CpuLoad)
    → IsLoaded s
    → ((s.num_cpus ≡ 0) × (calc_aggregate_cpu s ≡ (error, 0)))
      ⊎ ((1 ≤ s.num_cpus)
          × (calc_aggregate_cpu s ≡ (success, total s.num_cpus s.per_core / s.num_cpus))
          × (total s.num_cpus s.per_core / s.num_cpus ≤ max_load))
unfolding calc_aggregate_cpu
calc_aggregate_cpu-total s h = elim (Bool-cases (s.num_cpus == 0)) [
  | inl empty ↦ rw empty (inl (ground (arith, empty), refl))
  | inr some_cpus ↦
      let positive : 1 ≤ s.num_cpus = ground (arith, some_cpus) in
      let sum : sum_loads 0 s.num_cpus s.per_core ≡ total s.num_cpus s.per_core =
        sum_loads-total 0 s.num_cpus s.per_core h.loads (omega (arith, h.counted))
        ∙ nothing_more (total s.num_cpus s.per_core) in
      let bound = total-le s.num_cpus s.per_core h.loads in
      let small : total s.num_cpus s.per_core / s.num_cpus < max_load + 1 =
        (div-lt_iff_lt-mul positive).1 (omega (arith, bound, positive)) in
      let le : total s.num_cpus s.per_core / s.num_cpus ≤ max_load = omega (arith, small) in
      rw (some_cpus, sum) (inr (positive, refl, le))
]
  where
    nothing_more : (n : ℕ) → 0 + n ≡ n
    nothing_more n = omega arith
