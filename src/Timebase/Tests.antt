-- ===== src/Timebase/Tests.antt =====
-- The period of the mcp750 board, 60 ns, in ticks of 100 ns.
use fs_nasa_cfs_psp.Base.{◌+◌, ◌*◌, ◌/◌, ◌^◌, ◌≡◌, refl, some, arith}
use fs_nasa_cfs_psp.Timebase.{
  Period, TimebaseGlobal, is_common_factor, reduce, timebase_init, get_time,
}
use fs_nasa_cfs_psp.Timebase.Reduce.{Lowest}
use fs_nasa_cfs_psp.Timebase.Clock.{IsPeriod, timebase_init-Lowest, get_time-timebase_init}

abbrev mcp750 : Period
mcp750 = record { numerator = 60; denominator = 1; tick_resolution_ns = 100 }

mcp750-IsPeriod : IsPeriod mcp750
mcp750-IsPeriod = omega arith

abbrev three_fifths : TimebaseGlobal
three_fifths = record { ticks_per_second = 16666666; conv_numerator = 3; conv_denominator = 5 }

started : timebase_init 61 mcp750 ≡ some three_fifths
unfolding timebase_init reduce is_common_factor
started = refl

timebase_init-Lowest_example :
    (g : TimebaseGlobal) × (timebase_init (mcp750.numerator + 1) mcp750 ≡ some g)
    × Lowest mcp750.numerator
        (mcp750.denominator * mcp750.tick_resolution_ns)
        (g.conv_numerator, g.conv_denominator)
timebase_init-Lowest_example = timebase_init-Lowest mcp750 mcp750-IsPeriod

get_time-timebase_init_example :
    get_time three_fifths 1 7
    ≡ (1 * 2 ^ 32 + 7) * mcp750.numerator / (mcp750.denominator * mcp750.tick_resolution_ns)
get_time-timebase_init_example =
    get_time-timebase_init mcp750 1 7 three_fifths mcp750-IsPeriod (omega arith) (omega arith)
      started (omega arith)
