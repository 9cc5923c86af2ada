-- ===== src/ModuleTable/Lookup.antt =====
-- `CFE_PSP_ModuleInit`, `CFE_PSP_Module_FindByName` and `CFE_PSP_Module_GetAPIEntry` of
-- fsw/shared/src/cfe_psp_module.c against a plain look-up in the two lists.
use Prim.Native.String.{String}
use text.Mathlib.Text.{◌==◌ as str_eq}
use fs_nasa_cfs_psp.Base.{
  ℕ, suc, ◌+◌, ◌-◌, ◌≤◌, ◌<◌, ◌≡◌, refl, sym, ap, ◌∙◌, Option, none, some, List, [], ◌∷◌, ◌++◌,
  arith, length, ltb, if◌then◌else◌, Bool-cases, Option-cases, inl, inr,
}
use fs_nasa_cfs_psp.ModuleTable.{
  module_base, internal_module_base, ModuleApi, LoadEntry, Modules, configured, api_at,
  get_api_entry, init_entries, module_init_list, module_init, find_index, find_by_name,
}
use fs_nasa_cfs_psp.ModuleTable.Ids.{
  config_id, internal_id, get_api_entry_config, get_api_entry_internal,
}

module _ {Api : Type 0} where
  -- The first entry of that name.
  unfoldable pub lookup : String → List (LoadEntry Api) → Option (ModuleApi Api)
  lookup name [] = none
  lookup name (e ∷ es) = if str_eq e.name name then some e.api else lookup name es

  -- Lists short enough for the ids to be distinct: 256 internal ids at the end of the index space.
  pub record Fits (m : Modules Api) : Type 0 where
    pub config_fits : length (configured m) ≤ 0xFF00
    pub base_fits : length m.base_list ≤ 0x100

  find_index_found :
      (name : String) (len i : ℕ) (es : List (LoadEntry Api)) {k : ℕ}
      → find_index name len i es ≡ some k
      → (i ≤ k) × (k < len) × (k < i + length es) × (api_at es (k - i) ≡ lookup name es)
  unfolding find_index lookup
  find_index_found name len i [] h = absurd (cc)
  find_index_found name len i (e ∷ es) {k} h = elim (Bool-cases (ltb i len)) [
    | inr past ↦ absurd (ground arith)
    | inl more ↦ elim (Bool-cases (str_eq e.name name)) [
      | inl same ↦
          let here : k ≡ i = ground arith in
          let first : k - i ≡ 0 = omega arith in
          (omega arith, ground arith, omega arith, rw (first, same))
      | inr other ↦
          let (lo, lt, hi, found) = find_index_found name len (i + 1) es {k = k} (ground arith) in
          let later : k - i ≡ suc (k - (i + 1)) = omega arith in
          (omega arith, lt, omega arith, rw (later, other) found)
    ]
  ]

  find_index_missing :
      (name : String) (len i : ℕ) (es : List (LoadEntry Api))
      → i + length es ≤ len
      → find_index name len i es ≡ none
      → lookup name es ≡ none
  unfolding find_index lookup
  find_index_missing name len i [] h q = refl
  find_index_missing name len i (e ∷ es) h q =
      ground (arith, find_index_missing name len (i + 1) es)

  lookup-append :
      (name : String) (xs ys : List (LoadEntry Api))
      → lookup name (xs ++ ys) ≡ elim (lookup name xs) [ none ↦ lookup name ys | some a ↦ some a ]
  unfolding lookup
  lookup-append name [] ys = refl
  lookup-append name (x ∷ xs) ys = ground (arith, lookup-append name xs ys)

  count-init_entries :
      (base c : ℕ) (es : List (LoadEntry Api)) → (init_entries base c es).0 ≡ c + length es
  unfolding init_entries
  count-init_entries base c [] = omega arith
  count-init_entries base c (e ∷ es) = omega (arith, count-init_entries base (c + 1) es)

  abbrev pub initialised : Modules Api → Modules Api
  initialised m = record m {
    standard_length = length m.base_list;
    config_length = length (configured m);
  }

  pub module_init_lem :
      (m : Modules Api)
      → (module_init m).0
        ≡ record m { standard_length = length m.base_list; config_length = length (configured m) }
  unfolding module_init module_init_list
  module_init_lem m = elim (Option-cases m.config_list) [
    | inl e ↦
        rw (e, module_init_list)
          (ground (arith, e, count-init_entries internal_module_base 0 m.base_list))
    | inr (es, e) ↦ ground (
      arith,
      count-init_entries internal_module_base 0 m.base_list,
      count-init_entries module_base 0 es,
    )
  ]

  -- A name resolved to its API as a client does it: to an id, and that to the API.
  abbrev pub resolve : Modules Api → String → Option (ModuleApi Api)
  resolve m name = elim (find_by_name m name) [ none ↦ none | some id ↦ get_api_entry m id ]

  resolve_base :
      (m : Modules Api) (name : String)
      → length m.base_list ≤ 0x100
      → m.standard_length ≡ length m.base_list
      → find_index name m.config_length 0 (configured m) ≡ none
      → resolve m name ≡ lookup name m.base_list
  unfolding find_by_name
  resolve_base m name fits len missing =
      elim (Option-cases (find_index name m.standard_length 0 m.base_list)) [
        | inl e ↦
            ground (arith, missing, e, find_index_missing name m.standard_length 0 m.base_list)
        | inr (i, e) ↦
            let (_, lt, lt', found) =
              find_index_found name m.standard_length 0 m.base_list {k = i} e in
            let id = internal_id i (omega arith) in
            let got = get_api_entry_internal m i (omega arith) lt in
            let start : i - 0 ≡ i = omega arith in ground (arith, missing, e, id, got, start, found)
      ]

  resolve_config :
      (m : Modules Api) (name : String) {i : ℕ}
      → length (configured m) ≤ 0xFF00
      → find_index name m.config_length 0 (configured m) ≡ some i
      → resolve m name ≡ lookup name (configured m)
  unfolding find_by_name
  resolve_config m name {i} fits e =
      let (_, lt, lt', found) = find_index_found name m.config_length 0 (configured m) {k = i} e in
      let id = config_id i (omega arith) in
      let got = get_api_entry_config m i (omega arith) lt in
      let start : i - 0 ≡ i = omega arith in ground (arith, e, id, got, start, found)

  lookup-some :
      (name : String) (len i : ℕ) (es : List (LoadEntry Api)) {k : ℕ}
      → find_index name len i es ≡ some k
      → (a : ModuleApi Api) × (lookup name es ≡ some a)
  unfolding find_index lookup
  lookup-some name len i [] h = absurd (cc)
  lookup-some name len i (e ∷ es) {k} h = elim (Bool-cases (str_eq e.name name)) [
    | inl same ↦ (e.api, rw same)
    | inr other ↦ rw other (lookup-some name len (i + 1) es {k = k} (ground arith))
  ]

  resolve_initialised :
      (m : Modules Api) (name : String)
      → Fits m
      → m.standard_length ≡ length m.base_list
      → m.config_length ≡ length (configured m)
      → resolve m name ≡ lookup name (configured m ++ m.base_list)
  resolve_initialised m name f s c =
      elim (Option-cases (find_index name m.config_length 0 (configured m))) [
        | inl e ↦
            let gone = find_index_missing name m.config_length 0 (configured m) (omega arith) e in
            resolve_base m name f.base_fits s e
            ∙ sym (rw (lookup-append name (configured m) m.base_list, gone) refl)
        | inr (i, e) ↦
            let (a, there) = lookup-some name m.config_length 0 (configured m) {k = i} e in
            resolve_config m name f.config_fits e
            ∙ sym (rw (lookup-append name (configured m) m.base_list, there) refl)
      ]

  -- After `CFE_PSP_ModuleInit`, looking a name up and then its id gives the API of the first entry of
  -- that name, in the configured list and then in the base list, and fails if there is none. The
  -- lists have at most 0xFF00 and 256 entries.
  pub resolve-module_init :
      (m : Modules Api) (name : String)
      → Fits m
      → resolve (module_init m).0 name ≡ lookup name (configured m ++ m.base_list)
  resolve-module_init m name f =
      ap (λ x. resolve x name) (module_init_lem m)
      ∙ resolve_initialised (initialised m) name
          (record { config_fits = f.config_fits; base_fits = f.base_fits }) refl refl
