-- ===== src/ModuleTable/Tests.antt =====
-- The module table on concrete lists.
use fs_nasa_cfs_psp.Base.{ℕ, ◌≡◌, refl, true, some, [], ◌∷◌, ◌++◌, arith}
use fs_nasa_cfs_psp.ModuleTable.{
  invalid, simple, devicedriver, ModuleApi, Modules, configured, module_init, module_init_list,
  init_entries, find_by_name,
}
use fs_nasa_cfs_psp.ModuleTable.Lookup.{Fits, lookup, resolve, resolve-module_init}
use fs_nasa_cfs_psp.ModuleTable.Calls.{All, IsGoodCall, module_init-IsGoodCall}

abbrev timebase : ModuleApi ℕ
timebase = record { module_type = simple; operation_flags = 0; has_init = true; extended_api = 0 }

abbrev adc : ModuleApi ℕ
adc = record { module_type = devicedriver; operation_flags = 0; has_init = true; extended_api = 7 }

abbrev unused : ModuleApi ℕ
unused = record { module_type = invalid; operation_flags = 0; has_init = true; extended_api = 0 }

abbrev modules : Modules ℕ
modules = record {
  base_list = record { name = "timebase"; api = timebase } ∷ [];
  config_list =
      some (record { name = "unused"; api = unused } ∷ record { name = "adc"; api = adc } ∷ []);
  standard_length = 0;
  config_length = 0;
}

modules-Fits : Fits modules
modules-Fits = record { config_fits = omega arith; base_fits = omega arith }

ids :
    let m = (module_init modules).0 in
    (find_by_name m "adc" ≡ some 0x01100001) × (find_by_name m "timebase" ≡ some 0x0110FF00)
unfolding module_init module_init_list init_entries find_by_name
ids = (refl, refl)

resolve-module_init_example :
    resolve (module_init modules).0 "timebase"
    ≡ lookup "timebase" (configured modules ++ modules.base_list)
resolve-module_init_example = resolve-module_init modules "timebase" modules-Fits

module_init-IsGoodCall_example :
    let (m, base_calls, config_calls) = module_init modules in
    All (IsGoodCall m) base_calls × All (IsGoodCall m) config_calls
module_init-IsGoodCall_example = module_init-IsGoodCall modules modules-Fits
