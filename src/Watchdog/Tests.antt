-- ===== src/Watchdog/Tests.antt =====
-- The watchdogs' theorems, at concrete operations.
use fs_nasa_cfs_psp.Base.{ℕ, ◌≡◌, refl, List, [], ◌∷◌}
use fs_nasa_cfs_psp.Watchdog.{
  WatchdogOp, watchdog_init, watchdog_enable, watchdog_disable, watchdog_service, watchdog_set,
  noelv_run, noelv_loaded, watchdog_ticks, watchdog_max,
}
use fs_nasa_cfs_psp.Watchdog.Armed.{IsTold, noelv_run-IsTold}

abbrev operations : List WatchdogOp
operations =
    watchdog_init
    ∷ watchdog_enable
    ∷ watchdog_service
    ∷ watchdog_set 500
    ∷ watchdog_service
    ∷ watchdog_disable
    ∷ []

abbrev effective : ℕ → ℕ
effective v = v

noelv_run-IsTold_example : IsTold effective (noelv_run effective operations noelv_loaded)
noelv_run-IsTold_example = noelv_run-IsTold effective operations

-- The largest value, at 150 MHz: the ticks are far fewer than its 9830382236.
ticks_wrap : watchdog_ticks 150000000 watchdog_max ≡ 3497063
unfolding watchdog_ticks
ticks_wrap = refl
