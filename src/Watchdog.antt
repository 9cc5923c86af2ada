-- ===== src/Watchdog.antt =====
-- The watchdogs that drive hardware: cfe_psp_watchdog.c of fsw/noelv-freertos/src,
-- fsw/mpfs-discovery-freertos/src and fsw/mcp750-vxworks/src. The calls of the hardware layers are
-- kept in a list, the newest first.
pub mod Armed
mod Tests
use fs_nasa_cfs_psp.Base.{
  ℕ, zero, suc, bit_and_low, bit_and_high, ◌+◌, ◌-◌, ◌*◌, ◌/◌, ◌%◌, ◌^◌, ◌≤◌, ◌<◌, min, bit_and,
  bit_or, ◌≡◌, refl, sym, ap, subst, ◌∙◌, ◌≢◌, ◌↔◌, ◌⊎◌, inl, inr, Bool, true, false, not, ◌&&◌,
  ◌||◌, Option, none, some, List, [], ◌∷◌, ◌++◌, map, arith, ltb, leb, ◌==◌, if◌then◌else◌, ltb→lt,
  lt→ltb, leb→le, tests, Bool-cases, Option-cases, length, get_elem?, get_or, set, take, drop,
  replicate, length-append, length-set, length-replicate, length-take, length-drop, drop-append,
  take-append, get_elem?-append_left, get_elem?-append_right, get_elem?-take, get_elem?-drop,
  u32_mod, u64_mod, add32, sub32,
}

-- CFE_PSP_WATCHDOG_MAX of fsw/shared-freertos/inc/cfe_psp_config.h, in milliseconds.
abbrev pub watchdog_max : ℕ
watchdog_max = 0xFFFFF0

-- The calls of the NOEL-V board's hardware layer.
pub data HlpCall : Type 0 where
  hlp_enable : ℕ → HlpCall
  hlp_disable : HlpCall
  hlp_feed : HlpCall

-- The two variables of the file, and the calls made.
pub record Watchdog (C : Type 0) : Type 0 where
  pub watchdog_value : ℕ
  pub watchdog_is_enabled : Bool
  pub calls : List C

-- The operations of the interface.
pub data WatchdogOp : Type 0 where
  watchdog_init : WatchdogOp
  watchdog_enable : WatchdogOp
  watchdog_disable : WatchdogOp
  watchdog_service : WatchdogOp
  watchdog_set : ℕ → WatchdogOp

abbrev call : {C : Type 0} → C → Watchdog C → Watchdog C
call c w = record w { calls = c ∷ w.calls }

-- `effective v` is the value that HLP_vWatchdogEnable returns for `v`, 0 where the watchdog is not
-- enabled.
module _ (effective : ℕ → ℕ) where
  unfoldable pub noelv_enable : Watchdog HlpCall → Watchdog HlpCall
  noelv_enable w =
      let called = call (hlp_enable w.watchdog_value) w in
      if effective w.watchdog_value == 0
      then record called { watchdog_is_enabled = false }
      else record called { watchdog_is_enabled = true }

  unfoldable pub noelv_set : ℕ → Watchdog HlpCall → Watchdog HlpCall
  unfolding noelv_enable
  noelv_set value w =
      let stored = record w { watchdog_value = value } in
      if w.watchdog_is_enabled then noelv_enable stored else stored

  unfoldable pub noelv_step : WatchdogOp → Watchdog HlpCall → Watchdog HlpCall
  unfolding noelv_enable noelv_set
  noelv_step watchdog_init w = record {
    watchdog_value = watchdog_max;
    watchdog_is_enabled = false;
    calls = hlp_disable ∷ w.calls;
  }
  noelv_step watchdog_enable w = noelv_enable w
  noelv_step watchdog_disable w = record (call hlp_disable w) { watchdog_is_enabled = false }
  noelv_step watchdog_service w = if w.watchdog_is_enabled then call hlp_feed w else w
  noelv_step (watchdog_set value) w = noelv_set value w

  unfoldable pub noelv_run : List WatchdogOp → Watchdog HlpCall → Watchdog HlpCall
  noelv_run [] w = w
  noelv_run (op ∷ ops) w = noelv_run ops (noelv_step op w)

-- The variables as the program is loaded.
abbrev pub noelv_loaded : Watchdog HlpCall
noelv_loaded = record { watchdog_value = watchdog_max; watchdog_is_enabled = false; calls = [] }

-- The calls of the PolarFire's drivers: its interrupt, the configuration with the ticks of the
-- watchdog, and the reload.
pub data MssCall : Type 0 where
  disable_local_irq : MssCall
  enable_local_irq : MssCall
  mss_configure : ℕ → MssCall
  mss_reload : MssCall

-- The ticks for a value in milliseconds, with LIBERO_SETTING_MSS_APB_AHB_CLK, all in 32 bits.
unfoldable pub watchdog_ticks : ℕ → ℕ → ℕ
watchdog_ticks clock value = value * (clock / 256) % u32_mod / 1000

-- An error of the configuration is only printed.
unfoldable pub mpfs_step : ℕ → WatchdogOp → Watchdog MssCall → Watchdog MssCall
unfolding watchdog_ticks
mpfs_step clock watchdog_init w = record {
  watchdog_value = watchdog_max;
  watchdog_is_enabled = false;
  calls = disable_local_irq ∷ w.calls;
}
mpfs_step clock watchdog_enable w = record w {
  watchdog_is_enabled = true;
  calls =
      mss_reload
      ∷ mss_configure (watchdog_ticks clock w.watchdog_value)
      ∷ enable_local_irq
      ∷ w.calls;
}
mpfs_step clock watchdog_disable w = call disable_local_irq w
mpfs_step clock watchdog_service w = if w.watchdog_is_enabled then call mss_reload w else w
mpfs_step clock (watchdog_set value) w = record w { watchdog_value = value }

unfoldable pub mpfs_run : ℕ → List WatchdogOp → Watchdog MssCall → Watchdog MssCall
mpfs_run clock [] w = w
mpfs_run clock (op ∷ ops) w = mpfs_run clock ops (mpfs_step clock op w)

abbrev pub mpfs_loaded : Watchdog MssCall
mpfs_loaded = record { watchdog_value = watchdog_max; watchdog_is_enabled = false; calls = [] }

-- The writes to the register of the mcp750, of a byte and of a word.
pub data PciCall : Type 0 where
  pci_out_byte : ℕ → ℕ → PciCall
  pci_out_long : ℕ → ℕ → PciCall

abbrev mcp750_register : ℕ
mcp750_register = 0xFEFF0068

-- Its CFE_PSP_WATCHDOG_MIN is 0 and its maximum the largest `uint32`. It has no variable for the
-- enabled state: the field stays `false`.
unfoldable pub mcp750_step : WatchdogOp → Watchdog PciCall → Watchdog PciCall
mcp750_step watchdog_init w = record w { watchdog_value = 0xFFFFFFFF }
mcp750_step watchdog_enable w = record w {
  calls = pci_out_long mcp750_register 0xFFFFFFAA ∷ pci_out_byte mcp750_register 0x55 ∷ w.calls;
}
mcp750_step watchdog_disable w = record w {
  calls = pci_out_long mcp750_register 0xFFFF7FAA ∷ pci_out_byte mcp750_register 0x55 ∷ w.calls;
}
mcp750_step watchdog_service w = record w {
  calls =
      pci_out_long mcp750_register (if w.watchdog_value == 0 then 0x0000FFAA else 0xFFFFFFAA)
      ∷ pci_out_byte mcp750_register 0x55
      ∷ w.calls;
}
mcp750_step (watchdog_set value) w = record w { watchdog_value = value }
