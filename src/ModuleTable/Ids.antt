-- ===== src/ModuleTable/Ids.antt =====
-- The arithmetic of module ids (fsw/shared/src/cfe_psp_module.c).
use fs_nasa_cfs_psp.Base.{
  ℕ, ◌+◌, ◌*◌, ◌/◌, ◌%◌, ◌^◌, ◌<◌, ◌≡◌, ap, ◌∙◌, arith, bit_and, bit_or, bit_and_low, bit_and_high,
  bit_or_disjoint,
}
use fs_nasa_cfs_psp.ModuleTable.{
  module_base, module_index_mask, internal_module_base, Modules, configured, api_at, get_api_entry,
}

pub config_id :
    (i : ℕ) → i < 2 ^ 16 → bit_or module_base (bit_and i module_index_mask) ≡ module_base + i
config_id i h =
    rw (bit_and_low 16 i) (bit_or_disjoint 16 0x110 (i % 2 ^ 16) (omega arith) ∙ omega arith)

pub internal_id :
    (i : ℕ)
    → i < 2 ^ 8
    → bit_or internal_module_base (bit_and i module_index_mask) ≡ internal_module_base + i
internal_id i h =
    rw (bit_and_low 16 i) (bit_or_disjoint 8 0x110FF (i % 2 ^ 16) (omega arith) ∙ omega arith)

-- The three masks of `CFE_PSP_Module_GetAPIEntry`.
pub masks :
    (id : ℕ)
    → (bit_and id 0xFFFF0000 ≡ id / 2 ^ 16 % 2 ^ 16 * 2 ^ 16)
      × (bit_and id module_index_mask ≡ id % 2 ^ 16)
      × (bit_and id 0xFF ≡ id % 2 ^ 8)
masks id = (
  bit_and_high 16 id 0xFFFF ∙ ap (λ (x : ℕ). x * 2 ^ 16) (bit_and_low 16 (id / 2 ^ 16)),
  bit_and_low 16 id,
  bit_and_low 8 id,
)

module _ {Api : Type 0} (m : Modules Api) (i : ℕ) where
  pub get_api_entry_config :
      i < 0xFF00 → i < m.config_length → get_api_entry m (module_base + i) ≡ api_at (configured m) i
  unfolding get_api_entry
  get_api_entry_config h lt =
      let (high, low, _) = masks (module_base + i) in
      let base : bit_and (module_base + i) 0xFFFF0000 ≡ module_base = high ∙ omega arith in
      let index : bit_and (module_base + i) module_index_mask ≡ i = low ∙ omega arith in
      rw (base, index) (ground arith)

  pub get_api_entry_internal :
      i < 0x100
      → i < m.standard_length
      → get_api_entry m (internal_module_base + i) ≡ api_at m.base_list i
  unfolding get_api_entry
  get_api_entry_internal h lt =
      let (high, low, byte) = masks (internal_module_base + i) in
      let base : bit_and (internal_module_base + i) 0xFFFF0000 ≡ module_base = high ∙ omega arith in
      let index : bit_and (internal_module_base + i) module_index_mask ≡ 0xFF00 + i =
        low ∙ omega arith in
      let local_id : bit_and (internal_module_base + i) 0xFF ≡ i = byte ∙ omega arith in
      rw (base, index, local_id) (ground arith)
