-- ===== src/Timebase.antt =====
-- fsw/modules/timebase_vxworks/cfe_psp_timebase_vxworks.c: the conversion of the processor's time
-- base to OSAL time, by a fraction that the start reduces to lowest terms.
pub mod Reduce
pub mod Clock
mod Tests
use fs_nasa_cfs_psp.Base.{
  ℕ, zero, suc, ◌+◌, ◌-◌, ◌*◌, ◌/◌, ◌%◌, ◌^◌, ◌≤◌, ◌<◌, min, bit_and, bit_or, ◌≡◌, refl, sym, ap,
  subst, ◌∙◌, ◌≢◌, ◌↔◌, ◌⊎◌, inl, inr, Bool, true, false, not, ◌&&◌, ◌||◌, Option, none, some, List,
  [], ◌∷◌, ◌++◌, map, arith, ltb, leb, ◌==◌, if◌then◌else◌, ltb→lt, lt→ltb, leb→le, tests,
  Bool-cases, Option-cases, length, get_elem?, get_or, set, take, drop, replicate, length-append,
  length-set, length-replicate, length-take, length-drop, drop-append, take-append,
  get_elem?-append_left, get_elem?-append_right, get_elem?-take, get_elem?-drop, u32_mod, u64_mod,
  add32, sub32,
}

-- CFE_PSP_VX_TIMEBASE_PERIOD_NUMERATOR and _DENOMINATOR of the platform, and OSAL's
-- OS_TIME_TICK_RESOLUTION_NS.
pub record Period : Type 0 where
  pub numerator : ℕ
  pub denominator : ℕ
  pub tick_resolution_ns : ℕ

pub record TimebaseGlobal : Type 0 where
  pub ticks_per_second : ℕ
  pub conv_numerator : ℕ
  pub conv_denominator : ℕ

-- Whether `CheckFactor` divides both.
unfoldable pub is_common_factor : ℕ → ℕ → ℕ → Bool
is_common_factor n d check_factor =
    (n / check_factor * check_factor % u32_mod == n)
    && (d / check_factor * check_factor % u32_mod == d)

-- The loop, with fuel: `none` when that runs out.
unfoldable pub reduce : ℕ → ℕ → ℕ → ℕ → Option (ℕ × ℕ)
unfolding is_common_factor
reduce zero n d check_factor = none
reduce (suc fuel) n d check_factor =
    let common = is_common_factor n d check_factor in
    let rest =
      reduce fuel (if common then n / check_factor else n) (if common then d / check_factor else d)
        (if common then check_factor else add32 check_factor 1) in
    if leb check_factor n && leb check_factor d then rest else some (n, d)

unfoldable pub timebase_init : ℕ → Period → Option TimebaseGlobal
timebase_init fuel p =
    let ticks = 1000000000 * p.denominator % u64_mod / p.numerator in
    elim (reduce fuel p.numerator (p.denominator * p.tick_resolution_ns % u32_mod) 2) [
      | none ↦ none
      | some r ↦ some (record {
        ticks_per_second = bit_and ticks 0xFFFFFFFF;
        conv_numerator = r.0;
        conv_denominator = r.1;
      })
    ]

-- `CFE_PSP_GetTime`, from what `vxTimeBaseGet` reads, in ticks of an `OS_time_t`.
unfoldable pub get_time : TimebaseGlobal → ℕ → ℕ → ℕ
get_time g reg_upper reg_lower =
    bit_or (reg_upper * 2 ^ 32 % u64_mod) reg_lower
    * g.conv_numerator
    % u64_mod
    / g.conv_denominator
