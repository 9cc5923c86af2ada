-- ===== src/IoDriver.antt =====
-- fsw/modules/iodriver/src/iodriver.c: commands to device drivers, each under the mutex that the
-- driver asks for.
pub mod Locking
pub mod Names
mod Tests
use Prim.Native.Nat.{bit_xor}
use Prim.Native.String.{String}
use fs_nasa_cfs_psp.Base.{
  ℕ, zero, suc, ◌+◌, ◌-◌, ◌*◌, ◌%◌, ◌^◌, Bool, true, false, not, ◌&&◌, Option, none, some, List, [],
  ◌∷◌, ◌++◌, bit_and, ltb, leb, ◌==◌, if◌then◌else◌, get_or, u32_mod, add32,
}
use fs_nasa_cfs_psp.Status.{
  ℤ, pos, negsuc, Status, success, error_not_implemented, invalid_module_name, invalid_module_id,
  code,
}
use fs_nasa_cfs_psp.ModuleTable.{
  ModuleType, invalid, simple, devicedriver, ModuleApi, Modules, get_api_entry, find_by_name,
}

abbrev pub lock_table_size : ℕ
lock_table_size = 7

-- What a command does to locks and devices, in order.
pub data Event : Type 0 where
  take : ℕ → Event
  give : ℕ → Event
  call : ℕ → ℕ → ℕ → Event

-- `Arg` is the union of arguments, `World` what the device functions read and write.
pub record DeviceApi (Arg World : Type 0) : Type 0 where
  pub device_command : Option (ℕ → ℕ → ℕ → Arg → World → ℤ × World)
  pub device_mutex : Option (ℕ → ℕ → ℕ → Arg → ℤ)

pub record Location : Type 0 where
  pub psp_module_id : ℕ
  pub subsystem_id : ℕ
  pub subchannel_id : ℕ

-- OSAL's OS_OBJECT_ID_UNDEFINED and OS_ObjectIdDefined.
pub record ObjectIds : Type 0 where
  pub undefined_id : ℕ
  pub is_defined : ℕ → Bool

-- `iodriver_Init`: `create` is `OS_MutSemCreate` as a function from the number in the mutex's name to
-- the id that it stores.
unfoldable pub create_from : (ℕ → ℕ) → ℕ → ℕ → List ℕ
create_from create i zero = []
create_from create i (suc left) = create (i + 1) ∷ create_from create (i + 1) left

unfoldable pub iodriver_init : (ℕ → ℕ) → List ℕ
iodriver_init create = create_from create 0 lock_table_size

unfoldable pub get_mutex : ObjectIds → List ℕ → ℕ → ℤ → ℕ
get_mutex ids table module_id (negsuc n) = ids.undefined_id
get_mutex ids table module_id (pos hash) =
    let lookup_id = if not (module_id == 0) then bit_xor hash module_id else hash in
    get_or table (lookup_id % lock_table_size) ids.undefined_id

-- An `int32` is its bit pattern here; the product and the sum wrap.
unfoldable pub hash_mutex : ℕ → ℕ → ℕ
hash_mutex start_hash datum = bit_and (add32 start_hash (datum * 0x10AB % u32_mod)) 0x7FFFFFFF

unfoldable pub is_driver : ModuleType → Bool
is_driver invalid = false
is_driver simple = false
is_driver devicedriver = true

module _ {Arg World : Type 0} where
  unfoldable pub default_api : DeviceApi Arg World
  default_api = record { device_command = none; device_mutex = none }

  unfoldable pub get_api : Modules (DeviceApi Arg World) → ℕ → DeviceApi Arg World
  unfolding default_api is_driver
  get_api m id = elim (get_api_entry m id) [
    | none ↦ default_api
    | some api ↦ if is_driver api.module_type then api.extended_api else default_api
  ]

  -- The mutex of a command, OS_OBJECT_ID_UNDEFINED where the driver names none.
  unfoldable pub command_mutex : ObjectIds → List ℕ → DeviceApi Arg World → Location → ℕ → Arg → ℕ
  command_mutex ids table api l command_code arg = elim api.device_mutex [
    | none ↦ ids.undefined_id
    | some mutex ↦
        get_mutex ids table l.psp_module_id (mutex command_code l.subsystem_id l.subchannel_id arg)
  ]

  -- `none` for a device without a command function.
  unfoldable pub run_command :
      ObjectIds → List ℕ → DeviceApi Arg World → Location → ℕ → Arg → World → ℤ × World × List Event
  run_command ids table api l command_code arg w =
      let mutex = command_mutex ids table api l command_code arg in
      let here = call command_code l.subsystem_id l.subchannel_id in
      elim api.device_command [
        | none ↦ (code error_not_implemented, w, [])
        | some command ↦
            let (result, w') = command command_code l.subsystem_id l.subchannel_id arg w in
            (
              result,
              w',
              if ids.is_defined mutex then take mutex ∷ here ∷ give mutex ∷ [] else here ∷ [],
            )
      ]

  -- `CFE_PSP_IODriver_Command`.
  unfoldable pub command :
      ObjectIds
      → List ℕ
      → Modules (DeviceApi Arg World)
      → Location
      → ℕ
      → Arg
      → World
      → ℤ × World × List Event
  command ids table m l command_code arg w =
      run_command ids table (get_api m l.psp_module_id) l command_code arg w

  -- `CFE_PSP_IODriver_FindByName`: the status, and the id stored.
  unfoldable pub find_driver : Modules (DeviceApi Arg World) → String → Status × Option ℕ
  unfolding is_driver
  find_driver m name = elim (find_by_name m name) [
    | none ↦ (invalid_module_name, none)
    | some id ↦ elim (get_api_entry m id) [
      | none ↦ (invalid_module_id, some id)
      | some api ↦ (if is_driver api.module_type then success else invalid_module_name, some id)
    ]
  ]
