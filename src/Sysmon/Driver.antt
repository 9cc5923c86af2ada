-- ===== src/Sysmon/Driver.antt =====
-- The driver interface of fsw/modules/linux_sysmon/linux_sysmon.c: commands, their arguments and
-- what they answer.
use Prim.Native.String.{String}
use text.Mathlib.Text.{◌==◌ as str_eq}
use fs_nasa_cfs_psp.Base.{
  ℕ, zero, suc, ◌+◌, not, ◌&&◌, Option, none, some, List, [], ◌∷◌, ltb, leb, ◌==◌, if◌then◌else◌,
  length, get_or, set,
}
use fs_nasa_cfs_psp.Status.{ℤ, pos, success, error_not_implemented, code}
use fs_nasa_cfs_psp.Sysmon.{zero_core, CpuLoad, Core, Answers, start, stop, calc_aggregate_cpu}

-- The argument of a command: the union's member, and what the caller's pointer leads to.
pub data Arg : Type 0 where
  u32 : ℕ → Arg
  const_str : String → Arg
  direction : Option ℕ → Arg
  analog : ℕ → List ℕ → Arg

-- The command codes that the driver knows.
pub data Command : Type 0 where
  noop set_running get_running set_configuration get_configuration : Command
  lookup_subsystem lookup_subchannel query_direction : Command
  analog_io_noop analog_io_read_channels unknown : Command

unfoldable pub decode : ℕ → Command
decode n =
    if n == 0
    then noop
    else if n == 1
    then set_running
    else if n == 2
    then get_running
    else if n == 3
    then set_configuration
    else if n == 4
    then get_configuration
    else if n == 5
    then lookup_subsystem
    else if n == 6
    then lookup_subchannel
    else if n == 8
    then query_direction
    else if n == 0x10000
    then analog_io_noop
    else if n == 0x10001
    then analog_io_read_channels
    else unknown

-- The index of a name, as the status.
unfoldable pub name_index : String → List String → ℕ → ℤ
name_index name [] i = code error_not_implemented
name_index name (n ∷ names) i = if str_eq name n then pos i else name_index name names (i + 1)

-- The status, the state and the argument after a command; `none` where the code would read another
-- member of the union than the caller has set, or leave the caller's array.
abbrev pub Outcome : Type 0
Outcome = Option (ℤ × CpuLoad × Arg)

unfoldable pub aggregate_dispatch : (ℕ → ℕ) → Answers → Command → ℕ → Arg → CpuLoad → Outcome
unfolding start stop calc_aggregate_cpu name_index
aggregate_dispatch milliseconds a noop ch arg s = some (code success, s, arg)
aggregate_dispatch milliseconds a analog_io_noop ch arg s = some (code success, s, arg)
aggregate_dispatch milliseconds a set_running ch (u32 n) s =
    let (status, s') = (if not (n == 0) then start milliseconds a s else stop s) in
    some (code status, s', u32 n)
aggregate_dispatch milliseconds a set_running ch arg s = none
aggregate_dispatch milliseconds a get_running ch arg s =
    some (pos (if s.is_running then 1 else 0), s, arg)
aggregate_dispatch milliseconds a set_configuration ch arg s =
    some (code error_not_implemented, s, arg)
aggregate_dispatch milliseconds a get_configuration ch arg s =
    some (code error_not_implemented, s, arg)
aggregate_dispatch milliseconds a lookup_subsystem ch (const_str t) s =
    some (name_index t ("aggregate" ∷ "per-cpu" ∷ []) 0, s, const_str t)
aggregate_dispatch milliseconds a lookup_subsystem ch arg s = none
aggregate_dispatch milliseconds a lookup_subchannel ch (const_str t) s =
    some (name_index t ("cpu-load" ∷ []) 0, s, const_str t)
aggregate_dispatch milliseconds a lookup_subchannel ch arg s = none
aggregate_dispatch milliseconds a query_direction ch (direction none) s =
    some (code error_not_implemented, s, direction none)
aggregate_dispatch milliseconds a query_direction ch (direction (some d)) s =
    some (code success, s, direction (some 1))
aggregate_dispatch milliseconds a query_direction ch arg s = none
aggregate_dispatch milliseconds a analog_io_read_channels ch (analog n samples) s =
    if (n == 1) && (ch == 0)
    then (let (status, v) = calc_aggregate_cpu s in
        if ltb 0 (length samples) then some (code status, s, analog n (set samples 0 v)) else none)
    else some (code error_not_implemented, s, analog n samples)
aggregate_dispatch milliseconds a analog_io_read_channels ch arg s = none
aggregate_dispatch milliseconds a unknown ch arg s = some (code error_not_implemented, s, arg)

-- The loop over the channels from `ch`, each stored at its own number.
unfoldable pub read_channels : ℕ → ℕ → List Core → List ℕ → Option (List ℕ)
read_channels ch zero cores samples = some samples
read_channels ch (suc left) cores samples =
    let rest =
      read_channels (ch + 1) left cores (set samples ch (get_or cores ch zero_core).avg_load) in
    if ltb ch (length samples) then rest else none

unfoldable pub cpu_load_dispatch : Command → ℕ → Arg → CpuLoad → Outcome
unfolding read_channels
cpu_load_dispatch noop ch arg s = some (code success, s, arg)
cpu_load_dispatch analog_io_noop ch arg s = some (code success, s, arg)
cpu_load_dispatch analog_io_read_channels ch (analog n samples) s =
    if ltb ch s.num_cpus && leb (ch + n) s.num_cpus
    then elim (read_channels ch n s.per_core samples) [
      | none ↦ none
      | some samples' ↦ some (code error_not_implemented, s, analog n samples')
    ]
    else some (code error_not_implemented, s, analog n samples)
cpu_load_dispatch analog_io_read_channels ch arg s = none
cpu_load_dispatch command ch arg s = some (code error_not_implemented, s, arg)

unfoldable pub dev_cmd : (ℕ → ℕ) → Answers → ℕ → ℕ → ℕ → Arg → CpuLoad → Outcome
unfolding decode aggregate_dispatch cpu_load_dispatch
dev_cmd milliseconds a command_code subsystem ch arg s =
    if subsystem == 0
    then aggregate_dispatch milliseconds a (decode command_code) ch arg s
    else if subsystem == 1
    then cpu_load_dispatch (decode command_code) ch arg s
    else some (code error_not_implemented, s, arg)
