-- ===== src/Startup.antt =====
-- fsw/pc-linux/src/cfe_psp_start.c and cfe_psp_support.c: the command line, the choice of the reset
-- type, and how a run ends.
pub mod Arguments
pub mod Resets
pub mod Acts
pub mod Next
pub mod Cycles
mod Tests
use fs_nasa_cfs_psp.Base.{
  ℕ, zero, suc, ◌+◌, ◌-◌, ◌*◌, ◌/◌, ◌%◌, ◌^◌, ◌≤◌, ◌<◌, min, bit_and, bit_or, ◌≡◌, refl, sym, ap,
  subst, ◌∙◌, ◌≢◌, ◌↔◌, ◌⊎◌, inl, inr, Bool, true, false, not, ◌&&◌, ◌||◌, Option, none, some, List,
  [], ◌∷◌, ◌++◌, map, arith, ltb, leb, ◌==◌, if◌then◌else◌, ltb→lt, lt→ltb, leb→le, tests,
  Bool-cases, Option-cases, length, get_elem?, get_or, set, take, drop, replicate, length-append,
  length-set, length-replicate, length-take, length-drop, drop-append, take-append,
  get_elem?-append_left, get_elem?-append_right, get_elem?-take, get_elem?-drop, u32_mod, u64_mod,
  add32, sub32,
}
use fs_nasa_cfs_psp.MemRange.{MemTable}
use fs_nasa_cfs_psp.ExceptionStorage.{Osal}
use fs_nasa_cfs_psp.ReservedMemory.{
  Config, BootRecord, ResetSegment, SharedMemory, Attached, ReservedMemoryMap, detach,
  rst_type_processor, rst_type_poweron, bootrecord_valid, bootrecord_invalid,
  setup_reserved_memory_map, init_processor_reserved_memory, delete_processor_reserved_memory,
}

-- A C string is the list of its characters.
abbrev pub same_name : List ℕ → List ℕ → Bool
same_name [] [] = true
same_name [] (y ∷ ys) = false
same_name (x ∷ xs) [] = false
same_name (x ∷ xs) (y ∷ ys) = (x == y) && same_name xs ys

-- "PO" and "PR".
abbrev pub po : List ℕ
po = 80 ∷ 79 ∷ []

abbrev pub pr : List ℕ
pr = 80 ∷ 82 ∷ []

abbrev pub cpu_name_length : ℕ
cpu_name_length = 32

abbrev pub reset_name_length : ℕ
reset_name_length = 10

-- `CFE_PSP_CommandData_t`; a flag `Got...` of 0 or 1 is a Boolean.
pub record CommandData : Type 0 where
  pub reset_type : List ℕ
  pub got_reset_type : Bool
  pub sub_type : ℕ
  pub got_sub_type : Bool
  pub cpu_name : List ℕ
  pub got_cpu_name : Bool
  pub cpu_id : ℕ
  pub got_cpu_id : Bool
  pub spacecraft_id : ℕ
  pub got_spacecraft_id : Bool

-- What `getopt_long` returns, with the option's text; `strtol` has turned numbers to `uint32`.
pub data Argument : Type 0 where
  reset : List ℕ → Argument
  subtype : ℕ → Argument
  cpuname : List ℕ → Argument
  cpuid : ℕ → Argument
  scid : ℕ → Argument
  help unknown : Argument

-- The defaults of the target configuration.
pub record Defaults : Type 0 where
  pub default_cpu_id : ℕ
  pub default_cpu_name : List ℕ
  pub default_spacecraft_id : ℕ

abbrev pub empty_command_data : CommandData
empty_command_data = record {
  reset_type = [];
  got_reset_type = false;
  sub_type = 0;
  got_sub_type = false;
  cpu_name = [];
  got_cpu_name = false;
  cpu_id = 0;
  got_cpu_id = false;
  spacecraft_id = 0;
  got_spacecraft_id = false;
}

-- One turn of the loop: `none` where `CFE_PSP_DisplayUsage` ends the program.
unfoldable pub process_argument : CommandData → Argument → Option CommandData
process_argument d (reset text) =
    let name = take (reset_name_length - 1) text in
    if not (same_name name po) && not (same_name name pr)
    then none
    else some (record d { reset_type = name; got_reset_type = true })
process_argument d (subtype n) =
    if ltb n 1 || ltb 5 n then none else some (record d { sub_type = n; got_sub_type = true })
process_argument d (cpuname text) =
    some (record d { cpu_name = take (cpu_name_length - 1) text; got_cpu_name = true })
process_argument d (cpuid n) = some (record d { cpu_id = n; got_cpu_id = true })
process_argument d (scid n) = some (record d { spacecraft_id = n; got_spacecraft_id = true })
process_argument d help = none
process_argument d unknown = none

unfoldable pub process_arguments : CommandData → List Argument → Option CommandData
process_arguments d [] = some d
process_arguments d (a ∷ rest) = elim (process_argument d a) [
  | none ↦ none
  | some d' ↦ process_arguments d' rest
]

unfoldable pub process_argument_defaults : Defaults → CommandData → CommandData
process_argument_defaults c d =
    let d1 = (if d.got_sub_type then d else record d { sub_type = 1; got_sub_type = true }) in
    let d2 =
      (if d1.got_cpu_id then d1 else record d1 { cpu_id = c.default_cpu_id; got_cpu_id = true }) in
    let d3 =
      (if d2.got_spacecraft_id
        then d2
        else record d2 { spacecraft_id = c.default_spacecraft_id; got_spacecraft_id = true }) in
    if d3.got_cpu_name
    then d3
    else record d3 { cpu_name = take (cpu_name_length - 1) c.default_cpu_name; got_cpu_name = true }

-- The command line as a whole.
unfoldable pub command_line : Defaults → List Argument → Option CommandData
command_line c arguments = elim (process_arguments empty_command_data arguments) [
  | none ↦ none
  | some d ↦ some (process_argument_defaults c d)
]

-- The reset type of the command line or of the boot record, 0 for neither.
unfoldable pub requested_reset : CommandData → BootRecord → ℕ
requested_reset d boot =
    if not d.got_reset_type
    then if (boot.validity_flag == bootrecord_valid) || (boot.validity_flag == bootrecord_invalid)
      then boot.next_reset_type
      else 0
    else if same_name (take 2 d.reset_type) pr
    then rst_type_processor
    else 0

unfoldable pub choose_reset : CommandData → BootRecord → ℕ
unfolding requested_reset
choose_reset d boot =
    if requested_reset d boot == rst_type_processor then rst_type_processor else rst_type_poweron

-- From the segments of the last run to the call of the main function: the reset type that it is
-- given, and the memory map.
unfoldable pub startup :
    Config → Osal → CommandData → SharedMemory → List MemTable → ℕ × ReservedMemoryMap
startup c o d shm table =
    let m = (setup_reserved_memory_map c o shm table).0 in
    let reset_type = choose_reset d m.reset_area.block.boot in
    (reset_type, (init_processor_reserved_memory c o reset_type m).1)

-- `CFE_PSP_Restart` as to memory: what it leaves when the program ends, in order or by the abort.
unfoldable pub restart : ℕ → ReservedMemoryMap → ReservedMemoryMap
restart reset_type m =
    let kept = (if reset_type == rst_type_poweron then delete_processor_reserved_memory m else m) in
    record kept {
      reset_area = record kept.reset_area {
        block = record kept.reset_area.block {
          boot = record { validity_flag = bootrecord_valid; next_reset_type = reset_type };
        };
      };
    }

-- What the kernel keeps of the segments when the program has ended.
abbrev pub leave : ReservedMemoryMap → SharedMemory
leave m = record {
  cds_segment = detach m.cds_memory;
  reset_segment = detach m.reset_area;
  user_segment = detach m.user_reserved_memory;
}
