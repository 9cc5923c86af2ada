-- ===== src/ModuleTable/Calls.antt =====
-- The calls of `Init` that `CFE_PSP_ModuleInit` makes (fsw/shared/src/cfe_psp_module.c).
use fs_nasa_cfs_psp.Base.{
  ℕ, suc, ◌+◌, ◌≤◌, ◌<◌, ◌≡◌, ◌≢◌, refl, sym, ap, ◌∙◌, subst, Bool, true, not, ◌&&◌, Option, none,
  some, List, [], ◌∷◌, arith, length, Bool-cases, inl, inr, u32_mod, add32,
}
use fs_nasa_cfs_psp.ModuleTable.{
  module_base, internal_module_base, ModuleType, invalid, simple, devicedriver, ModuleApi,
  LoadEntry, Modules, configured, api_at, get_api_entry, is_invalid, init_entries, module_init_list,
  module_init,
}
use fs_nasa_cfs_psp.ModuleTable.Ids.{get_api_entry_config, get_api_entry_internal}
use fs_nasa_cfs_psp.ModuleTable.Lookup.{Fits, initialised, module_init_lem}

usable_type : (t : ModuleType) (b : Bool) → (not (is_invalid t) && b) ≡ true → t ≢ invalid
unfolding is_invalid
usable_type invalid b h e = cc
usable_type simple b h e = cc
usable_type devicedriver b h e = cc

module _ {Api : Type 0} where
  abbrev pub All : (ℕ × ModuleApi Api → Type 0) → List (ℕ × ModuleApi Api) → Type 0
  All P [] = Unit {0}
  All P (c ∷ cs) = P c × All P cs

  -- A call goes to a module that is not marked invalid and has an `Init`, and passes the id under
  -- which that module is found.
  pub record IsGoodCall (m : Modules Api) (call : ℕ × ModuleApi Api) : Type 0 where
    pub resolves : get_api_entry m call.0 ≡ some call.1
    pub usable : call.1.module_type ≢ invalid
    pub has_init : call.1.has_init ≡ true

  module _ (m : Modules Api) (base : ℕ) (all : List (LoadEntry Api))
      (found : (i : ℕ) → i < length all → get_api_entry m (base + i) ≡ api_at all i)
      (small : base + length all ≤ u32_mod) where
    calls_good :
        (c : ℕ) (es : List (LoadEntry Api))
        → c + length es ≡ length all
        → ((i : ℕ) → i < length es → api_at all (c + i) ≡ api_at es i)
        → All (IsGoodCall m) (init_entries base c es).1
    unfolding init_entries
    calls_good c [] h same = tt
    calls_good c (e ∷ es) h same =
        let rest : All (IsGoodCall m) (init_entries base (c + 1) es).1 =
          calls_good (c + 1) es (omega arith) (λ i lt.
            let step : c + 1 + i ≡ c + suc i = omega arith in
            ap (api_at all) step ∙ same (suc i) (omega arith)) in
        elim (Bool-cases (not (is_invalid e.api.module_type) && e.api.has_init)) [
          | inl go ↦ rw go (call go, rest)
          | inr stay ↦ rw stay rest
        ]
      where
        start : c + 0 ≡ c
        start = omega arith

        id_lem : add32 base c ≡ base + c
        id_lem = omega arith

        call :
            (not (is_invalid e.api.module_type) && e.api.has_init) ≡ true
            → IsGoodCall m (add32 base c, e.api)
        call go = record {
          resolves = rw id_lem (found c (omega arith) ∙ (rw start at (same 0 (omega arith))));
          usable = usable_type e.api.module_type e.api.has_init go;
          has_init = ground arith;
        }

  base_calls_good : (m : Modules Api) → Fits m → All (IsGoodCall (initialised m)) (module_init m).1
  unfolding module_init module_init_list
  base_calls_good m f =
      calls_good (initialised m) internal_module_base m.base_list
        (λ i lt. get_api_entry_internal (initialised m) i (omega (arith, f.base_fits)) lt)
        (omega (arith, f.base_fits)) 0 m.base_list (omega arith)
        (λ i lt. let start : 0 + i ≡ i = omega arith in ap (api_at m.base_list) start)

  config_calls_good :
      (m : Modules Api) (o : Option (List (LoadEntry Api)))
      → Fits m
      → m.config_list ≡ o
      → All (IsGoodCall (initialised m)) (module_init_list module_base o).1
  unfolding module_init_list
  config_calls_good m none f e = tt
  config_calls_good m (some es) f e =
      let listed : configured m ≡ es = rw e refl in
      let len : length (configured m) ≡ length es = ap length listed in
      calls_good (initialised m) module_base es
        (λ i lt.
          get_api_entry_config (initialised m) i (omega (arith, f.config_fits)) (omega arith)
          ∙ ap (λ l. api_at l i) listed)
        (omega (arith, f.config_fits)) 0 es (omega arith)
        (λ i lt. let start : 0 + i ≡ i = omega arith in ap (api_at es) start)

  -- `CFE_PSP_ModuleInit` calls `Init` only of modules that have one and are not marked invalid, and
  -- the id that it passes is one under which `CFE_PSP_Module_GetAPIEntry` finds that module
  -- afterwards. The lists have at most 0xFF00 and 256 entries.
  pub module_init-IsGoodCall :
      (m : Modules Api)
      → Fits m
      → let (m', base_calls, config_calls) = module_init m in
        All (IsGoodCall m') base_calls × All (IsGoodCall m') config_calls
  unfolding module_init
  module_init-IsGoodCall m f =
      subst (λ x. All (IsGoodCall x) (module_init m).1 × All (IsGoodCall x) (module_init m).2)
        (sym (module_init_lem m)) (base_calls_good m f, config_calls_good m m.config_list f refl)
