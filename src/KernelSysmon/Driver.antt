-- ===== src/KernelSysmon/Driver.antt =====
-- The commands of the two monitors: the dispatchers of vxworks_sysmon.c, which those of rtems_sysmon.c
-- differ from in the start and in the status of a read of single CPUs.
use fs_nasa_cfs_psp.Base.{
  ℕ, zero, suc, ◌+◌, ◌/◌, Bool, not, ◌&&◌, Option, none, some, List, [], ◌∷◌, ltb, leb, ◌==◌,
  if◌then◌else◌, length, get_elem?, set, add32,
}
use fs_nasa_cfs_psp.Status.{ℤ, pos, Status, success, error, error_not_implemented, code}
use fs_nasa_cfs_psp.Sysmon.Driver.{
  Arg, u32, const_str, direction, analog, Command, noop, set_running, get_running, lookup_subsystem,
  lookup_subchannel, query_direction, analog_io_noop, analog_io_read_channels, decode, name_index,
}
use fs_nasa_cfs_psp.KernelSysmon.{
  Monitor, VxCore, RtemsCore, Creation, vx_start, kernel_stop, rtems_start,
}

-- What differs: the load of a core, the start, and the statuses of a read within the cores and of
-- another.
pub record Kind (C : Type 0) : Type 0 where
  pub load_of : C → ℕ
  pub start : Monitor C → Status × Monitor C
  pub read_status : Status
  pub refuse_status : Status

-- The status, the state and the argument; `none` where another member of the union is read, or an
-- array is left.
abbrev pub KernelOutcome : Type 0 → Type 0
KernelOutcome C = Option (ℤ × Monitor C × Arg)

module _ {C : Type 0} (kind : Kind C) where
  -- The sum of the loads, as a `uint32`.
  unfoldable pub kernel_sum : ℕ → List C → ℕ
  kernel_sum sum [] = sum
  kernel_sum sum (c ∷ cores) = kernel_sum (add32 sum (kind.load_of c)) cores

  unfoldable pub kernel_aggregate : Monitor C → Status × ℕ
  unfolding kernel_sum
  kernel_aggregate s = (success, kernel_sum 0 s.per_core / length s.per_core)

  unfoldable pub kernel_read : ℕ → ℕ → List C → List ℕ → Option (List ℕ)
  kernel_read ch zero cores samples = some samples
  kernel_read ch (suc left) cores samples =
      if ltb ch (length samples)
      then elim (get_elem? cores ch) [
        | none ↦ none
        | some c ↦ kernel_read (ch + 1) left cores (set samples ch (kind.load_of c))
      ]
      else none

  unfoldable pub kernel_aggregate_dispatch : Command → ℕ → Arg → Monitor C → KernelOutcome C
  unfolding kernel_aggregate
  kernel_aggregate_dispatch set_running ch (u32 n) s =
      let (status, s') = (if not (n == 0) then kind.start s else kernel_stop s) in
      some (code status, s', u32 n)
  kernel_aggregate_dispatch set_running ch arg s = none
  kernel_aggregate_dispatch get_running ch arg s =
      some (pos (if s.is_running then 1 else 0), s, arg)
  kernel_aggregate_dispatch lookup_subsystem ch (const_str t) s =
      some (name_index t ("aggregate" ∷ "per-cpu" ∷ []) 0, s, const_str t)
  kernel_aggregate_dispatch lookup_subsystem ch arg s = none
  kernel_aggregate_dispatch lookup_subchannel ch (const_str t) s =
      some (name_index t ("cpu-load" ∷ []) 0, s, const_str t)
  kernel_aggregate_dispatch lookup_subchannel ch arg s = none
  kernel_aggregate_dispatch query_direction ch (direction none) s =
      some (code error_not_implemented, s, direction none)
  kernel_aggregate_dispatch query_direction ch (direction (some d)) s =
      some (code success, s, direction (some 1))
  kernel_aggregate_dispatch query_direction ch arg s = none
  kernel_aggregate_dispatch analog_io_read_channels ch (analog n samples) s =
      if (n == 1) && (ch == 0)
      then (let (status, v) = kernel_aggregate s in
          if ltb 0 (length samples)
          then some (code status, s, analog n (set samples 0 v))
          else none)
      else some (code error_not_implemented, s, analog n samples)
  kernel_aggregate_dispatch analog_io_read_channels ch arg s = none
  kernel_aggregate_dispatch command ch arg s = some (code error_not_implemented, s, arg)

  unfoldable pub kernel_cpu_load_dispatch : Command → ℕ → Arg → Monitor C → KernelOutcome C
  unfolding kernel_read
  kernel_cpu_load_dispatch noop ch arg s = some (code success, s, arg)
  kernel_cpu_load_dispatch analog_io_noop ch arg s = some (code success, s, arg)
  kernel_cpu_load_dispatch analog_io_read_channels ch (analog n samples) s =
      if ltb ch (length s.per_core) && leb (ch + n) (length s.per_core)
      then elim (kernel_read ch n s.per_core samples) [
        | none ↦ none
        | some samples' ↦ some (code kind.read_status, s, analog n samples')
      ]
      else some (code kind.refuse_status, s, analog n samples)
  kernel_cpu_load_dispatch analog_io_read_channels ch arg s = none
  kernel_cpu_load_dispatch command ch arg s = some (code error_not_implemented, s, arg)

  unfoldable pub kernel_dev_cmd : ℕ → ℕ → ℕ → Arg → Monitor C → KernelOutcome C
  unfolding kernel_aggregate_dispatch kernel_cpu_load_dispatch
  kernel_dev_cmd command_code subsystem ch arg s =
      if subsystem == 0
      then kernel_aggregate_dispatch (decode command_code) ch arg s
      else if subsystem == 1
      then kernel_cpu_load_dispatch (decode command_code) ch arg s
      else some (code error_not_implemented, s, arg)

-- The two monitors, with what the kernel answers to a start.
unfoldable pub vx_kind : Creation → Kind VxCore
vx_kind creation = record {
  load_of = λ c. c.avg_load;
  start = vx_start creation;
  read_status = success;
  refuse_status = error;
}

unfoldable pub rtems_kind : Bool → Bool → Kind RtemsCore
rtems_kind creates starts = record {
  load_of = λ c. c.avg_load;
  start = rtems_start creates starts;
  read_status = error_not_implemented;
  refuse_status = error_not_implemented;
}

-- vxworks_sysmon_DevCmd and rtems_sysmon_DevCmd.
unfoldable pub vx_dev_cmd : Creation → ℕ → ℕ → ℕ → Arg → Monitor VxCore → KernelOutcome VxCore
unfolding vx_kind
vx_dev_cmd creation = kernel_dev_cmd (vx_kind creation)

unfoldable pub rtems_dev_cmd :
    Bool → Bool → ℕ → ℕ → ℕ → Arg → Monitor RtemsCore → KernelOutcome RtemsCore
unfolding rtems_kind
rtems_dev_cmd creates starts = kernel_dev_cmd (rtems_kind creates starts)
