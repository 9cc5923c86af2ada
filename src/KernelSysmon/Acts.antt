-- ===== src/KernelSysmon/Acts.antt =====
-- VxWorks' monitor over sequences of commands and turns of its task.
use fs_nasa_cfs_psp.Base.{
  ℕ, zero, suc, ◌≤◌, ◌≡◌, Bool, true, false, not, ◌||◌, Option, none, some, List, [], ◌∷◌, arith,
  if◌then◌else◌, length, get_or, replicate,
}
use fs_nasa_cfs_psp.Status.{Status}
use fs_nasa_cfs_psp.Sysmon.Driver.{Arg}
use fs_nasa_cfs_psp.KernelSysmon.{
  Monitor, SpyLine, VxCore, zero_vx_core, vx_turn, Creation, refused, created, ran_first,
  vx_task_start,
}
use fs_nasa_cfs_psp.KernelSysmon.Report.{SmallLoads}
use fs_nasa_cfs_psp.KernelSysmon.Driver.{KernelOutcome, vx_dev_cmd}

-- A command, with how a task that it creates begins; the first steps of the task, with whether its clock
-- starts; and a turn of the task's loop.
pub data VxAct : Type 0 where
  command : Creation → ℕ → ℕ → ℕ → Arg → VxAct
  task_starts : Bool → VxAct
  turn : List SpyLine → VxAct

-- The state of a command that ends.
abbrev pub state_after : KernelOutcome VxCore → Option (Monitor VxCore)
state_after none = none
state_after (some (status, t, arg)) = some t

-- The task acts only while `should_run` is set.
unfoldable pub vx_act : VxAct → Monitor VxCore → Option (Monitor VxCore)
unfolding vx_dev_cmd vx_turn
vx_act (command creation command_code subsystem ch arg) s =
    state_after (vx_dev_cmd creation command_code subsystem ch arg s)
vx_act (task_starts clock) s = if s.should_run then some (vx_task_start clock s) else some s
vx_act (turn lines) s = if s.should_run then vx_turn lines s else some s

unfoldable pub vx_acts : List VxAct → Monitor VxCore → Option (Monitor VxCore)
unfolding vx_act
vx_acts [] s = some s
vx_acts (a ∷ acts) s = elim (vx_act a s) [ none ↦ none | some t ↦ vx_acts acts t ]

-- Whether the clock of a task fails before the call that creates it returns.
abbrev pub clock_lost : Creation → Bool
clock_lost refused = false
clock_lost created = false
clock_lost (ran_first clock_starts) = not clock_starts

abbrev pub races : VxAct → Bool
races (command creation command_code subsystem ch arg) = clock_lost creation
races (task_starts clock) = false
races (turn lines) = false

abbrev pub any_races : List VxAct → Bool
any_races [] = false
any_races (a ∷ acts) = races a || any_races acts

-- The task runs only for a device that says so, and the two flags agree unless `raced`; the loads
-- and the count fit the cores.
pub record IsPaired (max_cpus : ℕ) (raced : Bool) (s : Monitor VxCore) : Type 0 where
  pub cores : length s.per_core ≡ max_cpus
  pub told : s.should_run ≡ true → s.is_running ≡ true
  pub paired : raced ≡ false → s.is_running ≡ s.should_run
  pub counted : s.num_cpus ≤ max_cpus
  pub loads : SmallLoads s

abbrev pub Ends : ℕ → Bool → Option (Monitor VxCore) → Type 0
Ends max_cpus raced none = Unit
Ends max_cpus raced (some s) = IsPaired max_cpus raced s

pub zero_loads : (n i : ℕ) → (get_or (replicate n zero_vx_core) i zero_vx_core).avg_load ≤ 0xFFFFFF
zero_loads zero i = omega arith
zero_loads (suc n) zero = omega arith
zero_loads (suc n) (suc i) = zero_loads n i
