-- ===== src/Timebase/Clock.antt =====
-- `timebase_vxworks_Init` and `CFE_PSP_GetTime`: the time that the clock tells.
use native.Mathlib.Nat.{mul-div-mul_right}
use mathlib.Core.Option.{some-injective}
use fs_nasa_cfs_psp.Base.{
  bit_or_disjoint, ℕ, ◌+◌, ◌*◌, ◌/◌, ◌%◌, ◌^◌, ◌≤◌, ◌<◌, bit_and, bit_or, ◌≡◌, refl, sym, ap, ◌∙◌,
  some, arith, u32_mod, u64_mod,
}
use fs_nasa_cfs_psp.Timebase.{Period, TimebaseGlobal, reduce, timebase_init, get_time}
use fs_nasa_cfs_psp.Timebase.Reduce.{Lowest, reduce_ends}

-- A period whose fraction fits in 32 bits.
pub record IsPeriod (p : Period) : Type 0 where
  pub numerator_positive : 1 ≤ p.numerator
  pub numerator_fits : p.numerator < u32_mod
  pub denominator_positive : 1 ≤ p.denominator * p.tick_resolution_ns
  pub denominator_fits : p.denominator * p.tick_resolution_ns < u32_mod

timebase_init_reduced :
    (fuel : ℕ) (p : Period) (r : ℕ × ℕ)
    → p.denominator * p.tick_resolution_ns % u32_mod ≡ p.denominator * p.tick_resolution_ns
    → reduce fuel p.numerator (p.denominator * p.tick_resolution_ns) 2 ≡ some r
    → timebase_init fuel p
      ≡ some (record {
        ticks_per_second = bit_and (1000000000 * p.denominator % u64_mod / p.numerator) 0xFFFFFFFF;
        conv_numerator = r.0;
        conv_denominator = r.1;
      })
unfolding timebase_init
timebase_init_reduced fuel p r fits e = rw (fits, e, timebase_init) refl

-- The start of the time base, for a period whose fraction fits in 32 bits, ends with fuel of the
-- numerator plus one, and saves the fraction in lowest terms.
pub timebase_init-Lowest :
    (p : Period)
    → IsPeriod p
    → (g : TimebaseGlobal) × (timebase_init (p.numerator + 1) p ≡ some g)
      × Lowest p.numerator
          (p.denominator * p.tick_resolution_ns)
          (g.conv_numerator, g.conv_denominator)
timebase_init-Lowest p h =
    let d = p.denominator * p.tick_resolution_ns in
    let fits : d % u32_mod ≡ d = omega (arith, h.denominator_fits) in
    let (r, e, lowest) =
      reduce_ends p.numerator d h.numerator_positive h.denominator_positive h.numerator_fits
        h.denominator_fits in
    (_, timebase_init_reduced (p.numerator + 1) p r fits e, lowest)

-- After the start of the time base, for a period whose fraction fits in 32 bits, CFE_PSP_GetTime
-- gives, for every reading of the two registers for which the 64-bit product with the reduced
-- numerator does not overflow, the exact quotient of ticks times period, rounded down, as if
-- nothing had been reduced.
pub get_time-timebase_init :
    (p : Period) (upper lower : ℕ) (g : TimebaseGlobal)
    → IsPeriod p
    → upper < 2 ^ 32
    → lower < 2 ^ 32
    → timebase_init (p.numerator + 1) p ≡ some g
    → (upper * 2 ^ 32 + lower) * g.conv_numerator < u64_mod
    → get_time g upper lower
      ≡ (upper * 2 ^ 32 + lower) * p.numerator / (p.denominator * p.tick_resolution_ns)
unfolding get_time
get_time-timebase_init p upper lower g h hu hl started no_overflow =
    let (g', e, ((k, k1, en, ed), lowest)) = timebase_init-Lowest p h in
    let same : g' ≡ g = some-injective g' g (sym e ∙ started) in
    let t = upper * 2 ^ 32 + lower in
    let shifted : upper * 2 ^ 32 % u64_mod ≡ upper * 2 ^ 32 = omega arith in
    let read : bit_or (upper * 2 ^ 32) lower ≡ t = bit_or_disjoint 32 upper lower hl in
    let whole : t * g.conv_numerator % u64_mod ≡ t * g.conv_numerator =
      omega (arith, no_overflow) in
    rw (shifted, read, whole)
      (exact_quotient t p.numerator (p.denominator * p.tick_resolution_ns) g.conv_numerator
        g.conv_denominator k k1 (en ∙ ap (λ (g : TimebaseGlobal). g.conv_numerator * k) same)
        (ed ∙ ap (λ (g : TimebaseGlobal). g.conv_denominator * k) same))
  where
    exact_quotient : (t n d n' d' k : ℕ) → 1 ≤ k → n ≡ n' * k → d ≡ d' * k → t * n' / d' ≡ t * n / d
    exact_quotient t n d n' d' k k1 en ed =
        let product : t * n ≡ t * n' * k = ap (λ x. t * x) en ∙ grind arith in
        rw (product, ed) (sym (mul-div-mul_right (t * n') d' (omega (arith, k1))))
