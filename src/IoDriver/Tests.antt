-- ===== src/IoDriver/Tests.antt =====
-- The driver interface on a concrete device.

use fs_nasa_cfs_psp.Base.{
  ℕ, ◌+◌, ◌≤◌, ◌≡◌, ◌⊎◌, refl, not, true, none, some, List, [], ◌∷◌, ◌==◌, arith,
}
use fs_nasa_cfs_psp.Status.{ℤ, pos, error_not_implemented, code}
use fs_nasa_cfs_psp.ModuleTable.{devicedriver, ModuleApi, Modules, get_api_entry}
use fs_nasa_cfs_psp.IoDriver.{
  take, give, call, DeviceApi, Location, ObjectIds, iodriver_init, get_mutex, get_api,
  command_mutex, run_command, command,
}
use fs_nasa_cfs_psp.IoDriver.Locking.{IsLocked, command-IsLocked}

abbrev object_ids : ObjectIds
object_ids = record { undefined_id = 0; is_defined = λ n. not (n == 0) }

-- A device that counts its commands.
abbrev counter : DeviceApi ℕ ℕ
counter = record {
  device_command = some (λ c s ch arg w. (pos w, w + arg));
  device_mutex = some (λ c s ch arg. pos s);
}

abbrev modules : Modules (DeviceApi ℕ ℕ)
modules = record {
  base_list = [];
  config_list = some (
      record {
        name = "counter";
        api = record {
          module_type = devicedriver;
          operation_flags = 0;
          has_init = true;
          extended_api = counter;
        };
      }
      ∷ []);
  standard_length = 0;
  config_length = 1;
}

abbrev place : Location
place = record { psp_module_id = 0x01100000; subsystem_id = 3; subchannel_id = 1 }

abbrev mutexes : List ℕ
mutexes = 0x501 ∷ 0x502 ∷ 0x503 ∷ 0x504 ∷ 0x505 ∷ 0x506 ∷ 0x507 ∷ []

counted :
    command object_ids mutexes modules place 1 5 10
    ≡ (pos 10, 15, take 0x502 ∷ call 1 3 1 ∷ give 0x502 ∷ [])
unfolding command run_command get_api get_api_entry command_mutex get_mutex
counted = refl

abbrev create : ℕ → ℕ
create k = 0x500 + k

created_all : (k : ℕ) → 1 ≤ k → k ≤ 7 → object_ids.is_defined (create k) ≡ true
created_all k low high = ground arith

command-IsLocked_example :
    let (result, w', events) = command object_ids (iodriver_init create) modules place 1 5 10 in
    (((api : ModuleApi (DeviceApi ℕ ℕ))
        → get_api_entry modules place.psp_module_id ≡ some api
        → api.module_type ≡ devicedriver
        → api.extended_api.device_command ≡ none)
      × (result ≡ code error_not_implemented)
      × (w' ≡ 10)
      × (events ≡ []))
    ⊎ ((api : ModuleApi (DeviceApi ℕ ℕ)) × (get_api_entry modules place.psp_module_id ≡ some api)
        × (api.module_type ≡ devicedriver)
        × ((f : ℕ → ℕ → ℕ → ℕ → ℕ → ℤ × ℕ) × (api.extended_api.device_command ≡ some f)
            × ((result, w') ≡ f 1 place.subsystem_id place.subchannel_id 5 10)
            × IsLocked create place.psp_module_id api.extended_api.device_mutex 1 place.subsystem_id
                place.subchannel_id 5 events))
command-IsLocked_example = command-IsLocked object_ids create refl created_all modules place 1 5 10
