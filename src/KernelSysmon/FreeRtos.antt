-- ===== src/KernelSysmon/FreeRtos.antt =====
-- fsw/modules/freertos_sysmon/freertos_sysmon.c: the monitor of a single core. The counters are read
-- as `uint32`.
use fs_nasa_cfs_psp.Base.{
  ℕ, ◌+◌, ◌*◌, ◌/◌, ◌%◌, Bool, true, false, not, ◌&&◌, Option, none, some, List, [], ◌∷◌, ltb, leb,
  ◌==◌, if◌then◌else◌, length, set, u32_mod, sub32,
}
use fs_nasa_cfs_psp.Status.{ℤ, pos, Status, success, error, error_not_implemented, code}
use fs_nasa_cfs_psp.Sysmon.Driver.{
  Arg, u32, const_str, direction, analog, Command, noop, set_running, get_running, lookup_subsystem,
  lookup_subchannel, query_direction, analog_io_noop, analog_io_read_channels, decode, name_index,
}
use fs_nasa_cfs_psp.KernelSysmon.{twice12}

pub record FreertosCore : Type 0 where
  pub last_run_time : ℕ
  pub idle_last_uptime : ℕ
  pub avg_load : ℕ

pub record FreertosMonitor : Type 0 where
  pub is_running : Bool
  pub should_run : Bool
  pub core : FreertosCore

abbrev pub zero_core : FreertosCore
zero_core = record { last_run_time = 0; idle_last_uptime = 0; avg_load = 0 }

-- The two counters at a sample.
unfoldable pub freertos_update_state : ℕ → ℕ → FreertosMonitor → FreertosMonitor
freertos_update_state idle_task_uptime current_uptime s =
    let idle_elapsed = sub32 idle_task_uptime s.core.idle_last_uptime in
    let total_elapsed = sub32 current_uptime s.core.last_run_time in
    let idle_percent = idle_elapsed * 100 / total_elapsed % u32_mod in
    let current_load = sub32 100 idle_percent in
    record s {
      core = record {
        last_run_time = current_uptime;
        idle_last_uptime = idle_task_uptime;
        avg_load =
            if ltb 0 total_elapsed then twice12 (0x1000 * current_load % u32_mod / 100) else 0;
      };
    }

-- `creates` is whether xTaskCreate succeeds.
unfoldable pub freertos_sysmon_start : Bool → FreertosMonitor → Status × FreertosMonitor
freertos_sysmon_start creates s =
    if s.is_running
    then (success, s)
    else if creates
    then (success, record { is_running = true; should_run = true; core = zero_core })
    else (error, record { is_running = false; should_run = false; core = zero_core })

unfoldable pub freertos_sysmon_stop : FreertosMonitor → Status × FreertosMonitor
freertos_sysmon_stop s =
    if s.is_running
    then (success, record s { should_run = false; is_running = false })
    else (success, s)

-- The status, the state and the argument; `none` where another member of the union is read, or the
-- caller's array is left.
abbrev pub FreertosOutcome : Type 0
FreertosOutcome = Option (ℤ × FreertosMonitor × Arg)

-- The aggregate and the per-core read store the one load in the first sample.
abbrev store_load : Status → ℕ → List ℕ → FreertosMonitor → FreertosOutcome
store_load status n samples s =
    if ltb 0 (length samples)
    then some (code status, s, analog n (set samples 0 s.core.avg_load))
    else none

unfoldable pub freertos_aggregate_dispatch :
    Bool → Command → ℕ → Arg → FreertosMonitor → FreertosOutcome
unfolding freertos_sysmon_start freertos_sysmon_stop
freertos_aggregate_dispatch creates noop ch arg s = some (code success, s, arg)
freertos_aggregate_dispatch creates analog_io_noop ch arg s = some (code success, s, arg)
freertos_aggregate_dispatch creates set_running ch (u32 n) s =
    let (status, s') =
      (if not (n == 0) then freertos_sysmon_start creates s else freertos_sysmon_stop s) in
    some (code status, s', u32 n)
freertos_aggregate_dispatch creates set_running ch arg s = none
freertos_aggregate_dispatch creates get_running ch arg s =
    some (pos (if s.is_running then 1 else 0), s, arg)
freertos_aggregate_dispatch creates lookup_subsystem ch (const_str t) s =
    some (name_index t ("aggregate" ∷ "per-cpu" ∷ []) 0, s, const_str t)
freertos_aggregate_dispatch creates lookup_subsystem ch arg s = none
freertos_aggregate_dispatch creates lookup_subchannel ch (const_str t) s =
    some (name_index t ("cpu-load" ∷ []) 0, s, const_str t)
freertos_aggregate_dispatch creates lookup_subchannel ch arg s = none
freertos_aggregate_dispatch creates query_direction ch (direction none) s =
    some (code error_not_implemented, s, direction none)
freertos_aggregate_dispatch creates query_direction ch (direction (some d)) s =
    some (code success, s, direction (some 1))
freertos_aggregate_dispatch creates query_direction ch arg s = none
freertos_aggregate_dispatch creates analog_io_read_channels ch (analog n samples) s =
    if (n == 1) && (ch == 0)
    then store_load success n samples s
    else some (code error_not_implemented, s, analog n samples)
freertos_aggregate_dispatch creates analog_io_read_channels ch arg s = none
freertos_aggregate_dispatch creates command ch arg s = some (code error_not_implemented, s, arg)

-- There is one core, so that a read that is taken is one of channel 0, of one channel or of none.
unfoldable pub freertos_cpu_load_dispatch : Command → ℕ → Arg → FreertosMonitor → FreertosOutcome
freertos_cpu_load_dispatch noop ch arg s = some (code success, s, arg)
freertos_cpu_load_dispatch analog_io_noop ch arg s = some (code success, s, arg)
freertos_cpu_load_dispatch analog_io_read_channels ch (analog n samples) s =
    if ltb ch 1 && leb (ch + n) 1
    then if n == 0 then some (code success, s, analog n samples) else store_load success n samples s
    else some (code error, s, analog n samples)
freertos_cpu_load_dispatch analog_io_read_channels ch arg s = none
freertos_cpu_load_dispatch command ch arg s = some (code error_not_implemented, s, arg)

unfoldable pub freertos_dev_cmd : Bool → ℕ → ℕ → ℕ → Arg → FreertosMonitor → FreertosOutcome
unfolding freertos_aggregate_dispatch freertos_cpu_load_dispatch
freertos_dev_cmd creates command_code subsystem ch arg s =
    if subsystem == 0
    then freertos_aggregate_dispatch creates (decode command_code) ch arg s
    else if subsystem == 1
    then freertos_cpu_load_dispatch (decode command_code) ch arg s
    else some (code error_not_implemented, s, arg)
