-- ===== src/KernelSysmon/Control.antt =====
-- The two monitors over commands and turns of their tasks: what every step keeps.
use fs_nasa_cfs_psp.Base.{
  ℕ, ◌+◌, inl, inr, ◌&&◌, none, some, ltb, leb, ◌==◌, Bool-cases, Option-cases, length,
}
use fs_nasa_cfs_psp.Sysmon.Driver.{
  Arg, u32, const_str, direction, analog, Command, noop, set_running, get_running,
  set_configuration, get_configuration, lookup_subsystem, lookup_subchannel, query_direction,
  analog_io_noop, analog_io_read_channels, unknown, decode,
}
use fs_nasa_cfs_psp.KernelSysmon.{Monitor, kernel_stop}
use fs_nasa_cfs_psp.KernelSysmon.Driver.{
  Kind, KernelOutcome, kernel_read, kernel_aggregate_dispatch, kernel_cpu_load_dispatch,
  kernel_dev_cmd,
}

module _ {C : Type 0} (kind : Kind C) (P : Monitor C → Type 0) where
  -- What has to hold before a command for `P` to hold after it.
  pub record Ready (s : Monitor C) : Type 0 where
    pub same : P s
    pub started : P (kind.start s).1
    pub stopped : P (kernel_stop s).1

  abbrev pub Keeps : KernelOutcome C → Type 0
  Keeps none = Unit
  Keeps (some (status, s, arg)) = P s

  aggregate-Keeps :
      (command : Command) (ch : ℕ) (arg : Arg) (s : Monitor C)
      → Ready s
      → Keeps (kernel_aggregate_dispatch kind command ch arg s)
  unfolding kernel_aggregate_dispatch
  aggregate-Keeps noop ch arg s h = h.same
  aggregate-Keeps analog_io_noop ch arg s h = h.same
  aggregate-Keeps set_running ch (u32 n) s h = elim (Bool-cases (n == 0)) [
    | inl zero_given ↦ rw zero_given h.stopped
    | inr other ↦ rw other h.started
  ]
  aggregate-Keeps set_running ch (const_str t) s h = tt
  aggregate-Keeps set_running ch (direction d) s h = tt
  aggregate-Keeps set_running ch (analog n samples) s h = tt
  aggregate-Keeps get_running ch arg s h = h.same
  aggregate-Keeps set_configuration ch arg s h = h.same
  aggregate-Keeps get_configuration ch arg s h = h.same
  aggregate-Keeps lookup_subsystem ch (const_str t) s h = h.same
  aggregate-Keeps lookup_subsystem ch (u32 n) s h = tt
  aggregate-Keeps lookup_subsystem ch (direction d) s h = tt
  aggregate-Keeps lookup_subsystem ch (analog n samples) s h = tt
  aggregate-Keeps lookup_subchannel ch (const_str t) s h = h.same
  aggregate-Keeps lookup_subchannel ch (u32 n) s h = tt
  aggregate-Keeps lookup_subchannel ch (direction d) s h = tt
  aggregate-Keeps lookup_subchannel ch (analog n samples) s h = tt
  aggregate-Keeps query_direction ch (direction none) s h = h.same
  aggregate-Keeps query_direction ch (direction (some d)) s h = h.same
  aggregate-Keeps query_direction ch (u32 n) s h = tt
  aggregate-Keeps query_direction ch (const_str t) s h = tt
  aggregate-Keeps query_direction ch (analog n samples) s h = tt
  aggregate-Keeps analog_io_read_channels ch (analog n samples) s h =
      elim (Bool-cases ((n == 1) && (ch == 0))) [
        | inl one ↦ elim (Bool-cases (ltb 0 (length samples))) [
          | inl room ↦ rw (one, room) h.same
          | inr full ↦ rw (one, full) tt
        ]
        | inr other ↦ rw other h.same
      ]
  aggregate-Keeps analog_io_read_channels ch (u32 n) s h = tt
  aggregate-Keeps analog_io_read_channels ch (const_str t) s h = tt
  aggregate-Keeps analog_io_read_channels ch (direction d) s h = tt
  aggregate-Keeps unknown ch arg s h = h.same

  cpu_load-Keeps :
      (command : Command) (ch : ℕ) (arg : Arg) (s : Monitor C)
      → Ready s
      → Keeps (kernel_cpu_load_dispatch kind command ch arg s)
  unfolding kernel_cpu_load_dispatch
  cpu_load-Keeps analog_io_read_channels ch (analog n samples) s h =
      elim (Bool-cases (ltb ch (length s.per_core) && leb (ch + n) (length s.per_core))) [
        | inr other ↦ rw other h.same
        | inl within ↦ elim (Option-cases (kernel_read kind ch n s.per_core samples)) [
          | inl outside ↦ rw (within, outside) tt
          | inr (samples', done) ↦ rw (within, done) h.same
        ]
      ]
  cpu_load-Keeps analog_io_read_channels ch (u32 n) s h = tt
  cpu_load-Keeps analog_io_read_channels ch (const_str t) s h = tt
  cpu_load-Keeps analog_io_read_channels ch (direction d) s h = tt
  cpu_load-Keeps noop ch arg s h = h.same
  cpu_load-Keeps set_running ch arg s h = h.same
  cpu_load-Keeps get_running ch arg s h = h.same
  cpu_load-Keeps set_configuration ch arg s h = h.same
  cpu_load-Keeps get_configuration ch arg s h = h.same
  cpu_load-Keeps lookup_subsystem ch arg s h = h.same
  cpu_load-Keeps lookup_subchannel ch arg s h = h.same
  cpu_load-Keeps query_direction ch arg s h = h.same
  cpu_load-Keeps analog_io_noop ch arg s h = h.same
  cpu_load-Keeps unknown ch arg s h = h.same

  pub kernel_dev_cmd-Keeps :
      (command_code subsystem ch : ℕ) (arg : Arg) (s : Monitor C)
      → Ready s
      → Keeps (kernel_dev_cmd kind command_code subsystem ch arg s)
  unfolding kernel_dev_cmd
  kernel_dev_cmd-Keeps command_code subsystem ch arg s h = elim (Bool-cases (subsystem == 0)) [
    | inl aggregate ↦ rw aggregate (aggregate-Keeps (decode command_code) ch arg s h)
    | inr other ↦ elim (Bool-cases (subsystem == 1)) [
      | inl per_cpu ↦ rw (other, per_cpu) (cpu_load-Keeps (decode command_code) ch arg s h)
      | inr neither ↦ rw (other, neither) h.same
    ]
  ]
