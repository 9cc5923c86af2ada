-- ===== src/KernelSysmon/Load.antt =====
-- The loads that the two monitors compute from the share of idle time.
use native.Mathlib.Nat.{pow-suc}
use fs_nasa_cfs_psp.Base.{
  ℕ, zero, suc, bit_or_disjoint_low, ◌+◌, ◌-◌, ◌*◌, ◌/◌, ◌^◌, ◌≤◌, ◌<◌, ◌≡◌, refl, ◌∙◌, ◌⊎◌, inl,
  inr, arith, ltb, leb, ◌==◌, Bool-cases,
}
use fs_nasa_cfs_psp.KernelSysmon.{twice12, vx_load, cut_fraction, rtems_load}

pub twice12_exact : (share : ℕ) → share < 2 ^ 12 → twice12 share ≡ share * 4097
twice12_exact share h = bit_or_disjoint_low 12 share share h ∙ omega arith

-- The share of a whole is one more than 12 bits, and the two halves do not overlap either.
pub twice12_at_most : (share : ℕ) → share ≤ 4096 → twice12 share ≡ share * 4097
twice12_at_most share le = elim (Bool-cases (ltb share 4096)) [
  | inl less ↦ twice12_exact share (ground arith)
  | inr full ↦ let whole : share ≡ 4096 = ground arith in rw whole refl
]

vx_load_value :
    (i : ℕ)
    → ((i ≡ 0) × (vx_load i ≡ 0xFFFFFF))
      ⊎ (((100 ≤ i) × (vx_load i ≡ 0))
          ⊎ ((0 < i) × (i < 100) × (vx_load i ≡ 0x1000 * (100 - i) / 100 * 4097)))
unfolding vx_load
vx_load_value i = elim (Bool-cases (i == 0)) [
  | inl none_idle ↦ rw none_idle (inl (ground arith, refl))
  | inr some_idle ↦ elim (Bool-cases (leb 100 i)) [
    | inl all_idle ↦ rw (some_idle, all_idle) (inr (inl (ground arith, refl)))
    | inr part_idle ↦
        rw (some_idle, part_idle)
          (inr (
            inr (
              ground arith,
              ground arith,
              twice12_exact (0x1000 * (100 - i) / 100) (ground arith),
            )))
  ]
]

-- The load that VxWorks' idle percentage gives is a 24-bit number, and a larger percentage never
-- gives a larger load.
pub vx_load_falls : (a b : ℕ) → a ≤ b → (vx_load b ≤ vx_load a) × (vx_load a ≤ 0xFFFFFF)
vx_load_falls a b le = let p = vx_load_value a in let q = vx_load_value b in ground arith

-- Ten divisions are enough for the fraction of 32 bits.
cut_fraction_small : (fuel fval : ℕ) → fval < 1000 * 10 ^ fuel → cut_fraction fuel fval < 1000
unfolding cut_fraction
cut_fraction_small zero fval h = omega arith
cut_fraction_small (suc fuel) fval h =
    let next : fval / 10 < 1000 * 10 ^ fuel = omega (arith, pow-suc 10 fuel) in
    elim (Bool-cases (ltb 999 fval)) [
      | inl long ↦ rw (long, cut_fraction) (cut_fraction_small fuel (fval / 10) next)
      | inr short ↦ rw (short, cut_fraction) (ground arith)
    ]

-- The load on RTEMS, from the idle percentage, its fraction of 32 bits and the time elapsed: a
-- percentage of 100 or more, an idle CPU, gives the largest 24-bit load. A smaller one gives 0 if no
-- time has elapsed, else 4097 times the busy part of 0x1000, where the fraction counts with less than
-- 1000 thousandths.
pub rtems_load-cases :
    (ival fval elapsed : ℕ)
    → fval < 2 ^ 32
    → ((100 ≤ ival) × (rtems_load ival fval elapsed ≡ 0xFFFFFF))
      ⊎ (((ival < 100) × (elapsed ≡ 0) × (rtems_load ival fval elapsed ≡ 0))
          ⊎ ((ival < 100)
              × (0 < elapsed)
              × ((fraction : ℕ) × (fraction < 1000)
                  × (rtems_load ival fval elapsed
                      ≡ 0x1000 * (100000 - (ival * 1000 + fraction)) / 100000 * 4097))))
unfolding rtems_load
rtems_load-cases ival fval elapsed small =
    let fraction = cut_fraction 10 fval in
    let cut : fraction < 1000 = cut_fraction_small 10 fval (omega arith) in
    let share = 0x1000 * (100000 - (ival * 1000 + fraction)) / 100000 in
    let at_most : share ≤ 4096 = omega arith in
    elim (Bool-cases (leb 100 ival)) [
      | inl idle ↦ rw idle (inl (ground arith, refl))
      | inr busy ↦ elim (Bool-cases (elapsed == 0)) [
        | inl at_once ↦ rw (busy, at_once) (inr (inl (ground arith, ground arith, refl)))
        | inr later ↦
            rw (busy, later)
              (inr
                (inr (ground arith, ground arith, (fraction, cut, twice12_at_most share at_most))))
      ]
    ]
