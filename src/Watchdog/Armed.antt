-- ===== src/Watchdog/Armed.antt =====
-- The watchdogs over sequences of operations: what the hardware was last told.
use mathlib.Core.Option.{none-ne-some}
use fs_nasa_cfs_psp.Base.{
  ℕ, ◌*◌, ◌/◌, ◌^◌, ◌≤◌, ◌<◌, ◌≡◌, refl, sym, ◌∙◌, ◌≢◌, ◌⊎◌, inl, inr, Option, none, some, List, [],
  ◌∷◌, arith, ◌==◌, if◌then◌else◌, Bool-cases,
}
use fs_nasa_cfs_psp.Watchdog.{
  HlpCall, hlp_enable, hlp_disable, hlp_feed, Watchdog, WatchdogOp, watchdog_init, watchdog_enable,
  watchdog_disable, watchdog_service, watchdog_set, noelv_enable, noelv_set, noelv_step, noelv_run,
  noelv_loaded, watchdog_ticks,
}

module _ (effective : ℕ → ℕ) where
  -- The value with which the hardware runs after some calls, if it runs.
  abbrev pub armed : List HlpCall → Option ℕ
  armed [] = none
  armed (hlp_enable v ∷ rest) = if effective v == 0 then none else some v
  armed (hlp_disable ∷ rest) = none
  armed (hlp_feed ∷ rest) = armed rest

  -- A watchdog is fed only while it runs.
  abbrev pub FedArmed : List HlpCall → Type 0
  FedArmed [] = Unit
  FedArmed (hlp_enable v ∷ rest) = FedArmed rest
  FedArmed (hlp_disable ∷ rest) = FedArmed rest
  FedArmed (hlp_feed ∷ rest) = (armed rest ≢ none) × FedArmed rest

  -- The variable says whether the hardware runs, and if so it runs with the stored value.
  pub record IsTold (w : Watchdog HlpCall) : Type 0 where
    pub told : armed w.calls ≡ (if w.watchdog_is_enabled then some w.watchdog_value else none)
    pub fed : FedArmed w.calls

  enable-IsTold : (w : Watchdog HlpCall) → FedArmed w.calls → IsTold (noelv_enable effective w)
  unfolding noelv_enable
  enable-IsTold w h = elim (Bool-cases (effective w.watchdog_value == 0)) [
    | inl zero_value ↦ rw zero_value (record { told = rw zero_value refl; fed = h })
    | inr positive ↦ rw positive (record { told = rw positive refl; fed = h })
  ]

  set-IsTold : (value : ℕ) (w : Watchdog HlpCall) → IsTold w → IsTold (noelv_set effective value w)
  unfolding noelv_set
  set-IsTold value w h = elim (Bool-cases w.watchdog_is_enabled) [
    | inl enabled ↦ rw enabled (enable-IsTold (record w { watchdog_value = value }) h.fed)
    | inr disabled ↦ rw disabled (record { told = h.told ∙ rw disabled refl; fed = h.fed })
  ]

  step-IsTold :
      (op : WatchdogOp) (w : Watchdog HlpCall) → IsTold w → IsTold (noelv_step effective op w)
  unfolding noelv_step
  step-IsTold watchdog_init w h = record { told = refl; fed = h.fed }
  step-IsTold watchdog_enable w h = enable-IsTold w h.fed
  step-IsTold watchdog_disable w h = record { told = refl; fed = h.fed }
  step-IsTold watchdog_service w h = elim (Bool-cases w.watchdog_is_enabled) [
    | inl enabled ↦
        let runs : armed w.calls ≡ some w.watchdog_value = h.told ∙ rw enabled refl in
        rw enabled (record {
          told = h.told ∙ rw enabled refl;
          fed = ((λ e. none-ne-some _ (sym e ∙ runs)), h.fed);
        })
    | inr disabled ↦ rw disabled (record { told = h.told ∙ rw disabled refl; fed = h.fed })
  ]
  step-IsTold (watchdog_set value) w h = set-IsTold value w h

  run-IsTold :
      (ops : List WatchdogOp) (w : Watchdog HlpCall) → IsTold w → IsTold (noelv_run effective ops w)
  unfolding noelv_run
  run-IsTold [] w h = h
  run-IsTold (op ∷ ops) w h = run-IsTold ops (noelv_step effective op w) (step-IsTold op w h)

  -- On the NOEL-V board, after any operations since the program was loaded: the variable of the
  -- enabled state says whether the hardware's watchdog runs by the last call that started or stopped
  -- it, a running one has the stored value, and every feed was of a running watchdog.
  pub noelv_run-IsTold : (ops : List WatchdogOp) → IsTold (noelv_run effective ops noelv_loaded)
  noelv_run-IsTold ops = run-IsTold ops noelv_loaded (record { told = refl; fed = tt })

-- The ticks that the PolarFire's watchdog is given: those of the value in milliseconds, where the
-- product with the clock's part fits in 32 bits. Where it does not, the product wraps: the ticks are
-- below 4294968, although the value's own are at least 4294967.
pub watchdog_ticks-cases :
    (clock value : ℕ)
    → let product = value * (clock / 256) in
      ((product < 2 ^ 32) × (watchdog_ticks clock value ≡ product / 1000))
      ⊎ ((2 ^ 32 ≤ product) × (watchdog_ticks clock value < 4294968) × (4294967 ≤ product / 1000))
unfolding watchdog_ticks
watchdog_ticks-cases clock value = ground arith
