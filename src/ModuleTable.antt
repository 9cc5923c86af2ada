-- ===== src/ModuleTable.antt =====
-- fsw/shared/src/cfe_psp_module.c: the statically linked PSP modules, their ids and look-up. The
-- constants are those for an OSAL without OS_OBJECT_TYPE_USER, which an OSAL with 16-bit object
-- indices and user type 0x10 shares.
pub mod Ids
pub mod Lookup
pub mod Calls
mod Tests
use Prim.Native.String.{String}
use text.Mathlib.Text.{◌==◌ as str_eq}
use fs_nasa_cfs_psp.Base.{
  ℕ, ◌+◌, ◌-◌, ◌*◌, ◌^◌, Bool, true, false, not, ◌&&◌, Option, none, some, List, [], ◌∷◌, bit_and,
  bit_or, ltb, leb, ◌==◌, if◌then◌else◌, get_elem?, add32,
}
use fs_nasa_cfs_psp.Status.{Status, success, invalid_module_id, invalid_module_name}

abbrev pub module_base : ℕ
module_base = 0x01100000

abbrev pub module_index_mask : ℕ
module_index_mask = 0xFFFF

-- `~0xFF` and `~CFE_PSP_MODULE_INDEX_MASK` as `uint32`.
abbrev pub internal_module_base : ℕ
internal_module_base = bit_and (bit_or module_base module_index_mask) 0xFFFFFF00

pub data ModuleType : Type 0 where
  invalid simple devicedriver : ModuleType

-- `Api` is what `ExtendedApi` points to. Of `Init` only whether it is NULL matters here.
pub record ModuleApi (Api : Type 0) : Type 0 where
  pub module_type : ModuleType
  pub operation_flags : ℕ
  pub has_init : Bool
  pub extended_api : Api

pub record LoadEntry (Api : Type 0) : Type 0 where
  pub name : String
  pub api : ModuleApi Api

-- The two lists up to their NULL names, and the two static lengths. The configured list may be
-- missing.
pub record Modules (Api : Type 0) : Type 0 where
  pub base_list : List (LoadEntry Api)
  pub config_list : Option (List (LoadEntry Api))
  pub standard_length : ℕ
  pub config_length : ℕ

unfoldable pub is_invalid : ModuleType → Bool
is_invalid invalid = true
is_invalid simple = false
is_invalid devicedriver = false

module _ {Api : Type 0} where
  -- The loop: the module count, and the calls of `Init` in order, each with the module's id.
  unfoldable pub init_entries : ℕ → ℕ → List (LoadEntry Api) → ℕ × List (ℕ × ModuleApi Api)
  unfolding is_invalid
  init_entries base count [] = (count, [])
  init_entries base count (e ∷ es) =
      let (n, calls) = init_entries base (count + 1) es in
      (
        n,
        if not (is_invalid e.api.module_type) && e.api.has_init
            then (add32 base count, e.api) ∷ calls
            else calls,
      )

  unfoldable pub module_init_list : ℕ → Option (List (LoadEntry Api)) → ℕ × List (ℕ × ModuleApi Api)
  module_init_list base none = (0, [])
  module_init_list base (some es) = init_entries base 0 es

  -- `CFE_PSP_ModuleInit`: the lengths are set, and the calls are those of the two lists.
  unfoldable pub module_init :
      Modules Api → Modules Api × List (ℕ × ModuleApi Api) × List (ℕ × ModuleApi Api)
  module_init m =
      let (standard, base_calls) = module_init_list internal_module_base (some m.base_list) in
      let (config, config_calls) = module_init_list module_base m.config_list in
      (record m { standard_length = standard; config_length = config }, base_calls, config_calls)

  abbrev pub configured : Modules Api → List (LoadEntry Api)
  configured m = elim m.config_list [ none ↦ [] | some es ↦ es ]

  abbrev pub api_at : List (LoadEntry Api) → ℕ → Option (ModuleApi Api)
  api_at es i = elim (get_elem? es i) [ none ↦ none | some e ↦ some e.api ]

  -- `none` is CFE_PSP_INVALID_MODULE_ID.
  unfoldable pub get_api_entry : Modules Api → ℕ → Option (ModuleApi Api)
  get_api_entry m id =
      let internal_id = bit_and id 0xFF in
      let config_id = bit_and id module_index_mask in
      if bit_and id 0xFFFF0000 == module_base
      then if leb 0xFF00 (bit_and id module_index_mask)
        then if ltb internal_id m.standard_length then api_at m.base_list internal_id else none
        else if ltb config_id m.config_length
        then api_at (configured m) config_id
        else none
      else none

  -- The loop over the first `length` entries, from index `i`.
  unfoldable pub find_index : String → ℕ → ℕ → List (LoadEntry Api) → Option ℕ
  find_index name length i [] = none
  find_index name length i (e ∷ es) =
      let rest = find_index name length (i + 1) es in
      if ltb i length then if str_eq e.name name then some i else rest else none

  -- `none` is CFE_PSP_INVALID_MODULE_NAME.
  unfoldable pub find_by_name : Modules Api → String → Option ℕ
  unfolding find_index
  find_by_name m name = elim (find_index name m.config_length 0 (configured m)) [
    | some i ↦ some (bit_or module_base (bit_and i module_index_mask))
    | none ↦ elim (find_index name m.standard_length 0 m.base_list) [
      | some i ↦ some (bit_or internal_module_base (bit_and i module_index_mask))
      | none ↦ none
    ]
  ]
