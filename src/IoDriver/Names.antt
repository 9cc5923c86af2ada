-- ===== src/IoDriver/Names.antt =====
-- `CFE_PSP_IODriver_FindByName` (fsw/modules/iodriver/src/iodriver.c) over the initialised modules.
use Prim.Native.String.{String}
use fs_nasa_cfs_psp.Base.{
  ℕ, ◌≡◌, ◌≢◌, ◌⊎◌, inl, inr, refl, true, false, Option, some, ◌++◌, arith, Option-cases,
}
use fs_nasa_cfs_psp.Status.{success}
use fs_nasa_cfs_psp.ModuleTable.{
  ModuleType, invalid, simple, devicedriver, ModuleApi, Modules, configured, get_api_entry,
  find_by_name, module_init,
}
use fs_nasa_cfs_psp.ModuleTable.Lookup.{Fits, lookup, resolve, resolve-module_init}
use fs_nasa_cfs_psp.IoDriver.{DeviceApi, is_driver, get_api, find_driver}

driver_type :
    (t : ModuleType)
    → (is_driver t ≡ true × (t ≡ devicedriver)) ⊎ (is_driver t ≡ false × (t ≢ devicedriver))
unfolding is_driver
driver_type invalid = inr (refl, λ e. cc)
driver_type simple = inr (refl, λ e. cc)
driver_type devicedriver = inl (refl, refl)

module _ {Arg World : Type 0} where
  -- What a search for a driver can come to, by the first module of that name.
  abbrev pub Outcome :
      Modules (DeviceApi Arg World) → String → Option (ModuleApi (DeviceApi Arg World)) → Type 0
  Outcome m name found =
      ((api : ModuleApi (DeviceApi Arg World)) × (id : ℕ) × (found ≡ some api)
        × (api.module_type ≡ devicedriver)
        × (find_driver m name ≡ (success, some id))
        × (get_api m id ≡ api.extended_api))
      ⊎ (((find_driver m name).0 ≢ success)
          × ((api : ModuleApi (DeviceApi Arg World))
              → found ≡ some api
              → api.module_type ≢ devicedriver))

  Outcome-resolve :
      (m : Modules (DeviceApi Arg World)) (name : String) → Outcome m name (resolve m name)
  unfolding find_driver get_api
  Outcome-resolve m name = elim (Option-cases (find_by_name m name)) [
    | inl e ↦ inr (ground (arith, e), λ a h t. ground (arith, e, h))
    | inr (id, e) ↦ elim (Option-cases (get_api_entry m id)) [
      | inl g ↦ inr (ground (arith, e, g), λ a h t. ground (arith, e, g, h))
      | inr (api, g) ↦ elim (driver_type api.module_type) [
        | inl (yes_driver, t) ↦ inl (
          api,
          id,
          ground (arith, e, g),
          t,
          ground (arith, e, g, yes_driver),
          ground (arith, g, yes_driver),
        )
        | inr (no_driver, t) ↦
            inr (ground (arith, e, g, no_driver), λ a h u. t (ground (arith, e, g, h, u)))
      ]
    ]
  ]

  -- After `CFE_PSP_ModuleInit`, `CFE_PSP_IODriver_FindByName` succeeds exactly if the first module of
  -- that name, in the configured list and then in the base list, is a device driver, and commands to
  -- the id that it stores then go to that module's own interface.
  pub find_driver-module_init :
      (m : Modules (DeviceApi Arg World)) (name : String)
      → Fits m
      → Outcome (module_init m).0 name (lookup name (configured m ++ m.base_list))
  find_driver-module_init m name f =
      rw (resolve-module_init m name f) at (Outcome-resolve (module_init m).0 name)
