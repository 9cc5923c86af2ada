-- ===== src/DirectMemory/EepromByte.antt =====
-- The 8-bit write of fsw/modules/eeprom_direct, on top of the 16-bit one.
use native.Mathlib.Decide.{ℕ_discrete}
use fs_nasa_cfs_psp.Base.{
  ℕ, ◌+◌, ◌-◌, ◌*◌, ◌/◌, ◌%◌, ◌^◌, ◌<◌, ◌≡◌, refl, ◌∙◌, ap, Bool, true, false, arith, bit_and,
  bit_or, bit_and_low, bit_and_high, bit_or_disjoint, bit_or_disjoint_low, ◌==◌, if◌then◌else◌,
  u32_mod,
}
use fs_nasa_cfs_psp.Status.{success}
use fs_nasa_cfs_psp.DirectMemory.{Memory, put, load16, store16, eeprom_write8, splice8}
use fs_nasa_cfs_psp.DirectMemory.Eeprom.{IsBytes, read16_aligned, write16_aligned}

-- The masks and shifts of the 8-bit write.
keep_byte :
    (w v : ℕ) → v < 2 ^ 8 → bit_or (v * 2 ^ 8) (bit_and w 0x00FF) % 2 ^ 16 ≡ v * 2 ^ 8 + w % 2 ^ 8
keep_byte w v h = rw (bit_and_low 8 w, bit_or_disjoint 8 v (w % 2 ^ 8) (omega arith)) (omega arith)

spliced8 : Bool → Bool → ℕ → ℕ → ℕ
spliced8 true true w v = v * 2 ^ 8 + w % 2 ^ 8
spliced8 true false w v = w / 2 ^ 8 * 2 ^ 8 + v
spliced8 false true w v = w / 2 ^ 8 * 2 ^ 8 + v
spliced8 false false w v = v * 2 ^ 8 + w % 2 ^ 8

high_byte : (w : ℕ) → w < 2 ^ 16 → bit_and w 0xFF00 ≡ w / 2 ^ 8 * 2 ^ 8
high_byte w h =
    bit_and_high 8 w 0xFF ∙ ap (λ (x : ℕ). x * 2 ^ 8) (bit_and_low 8 (w / 2 ^ 8) ∙ omega arith)

splice8-eq :
    (little second : Bool) (w v : ℕ)
    → w < 2 ^ 16
    → v < 2 ^ 8
    → splice8 little second w v ≡ spliced8 little second w v
unfolding splice8 spliced8
splice8-eq true true w v hw h =
    rw (bit_and_low 8 w, bit_or_disjoint_low 8 v (w % 2 ^ 8) (omega arith)) (omega arith)
splice8-eq true false w v hw h =
    rw (high_byte w hw, bit_or_disjoint_low 8 (w / 2 ^ 8) v h) (omega arith)
splice8-eq false true w v hw h =
    rw (high_byte w hw, bit_or_disjoint 8 (w / 2 ^ 8) v h) (omega arith)
splice8-eq false false w v hw h = keep_byte w v h

load16-lt : (little : Bool) (m : Memory) (a : ℕ) → IsBytes m → load16 little m a < 2 ^ 16
unfolding load16
load16-lt true m a b = omega (arith, b a, b (a + 1))
load16-lt false m a b = omega (arith, b a, b (a + 1))

spliced8-lt :
    (little second : Bool) (w v : ℕ) → w < 2 ^ 16 → v < 2 ^ 8 → spliced8 little second w v < 2 ^ 16
unfolding spliced8
spliced8-lt true true w v hw h = omega arith
spliced8-lt true false w v hw h = omega arith
spliced8-lt false true w v hw h = omega arith
spliced8-lt false false w v hw h = omega arith

-- Writing two bytes back with one replaced is writing that byte.
store16_half :
    (little second : Bool) (m : Memory) (a v x : ℕ)
    → IsBytes m
    → v < 2 ^ 8
    → store16 little m a (spliced8 little second (load16 little m a) v) x
      ≡ put m (if second then a + 1 else a) v x
unfolding store16 load16 spliced8
store16_half true true m a v x b h = ground (arith, b a, b (a + 1))
store16_half true false m a v x b h = ground (arith, b a, b (a + 1))
store16_half false true m a v x b h = ground (arith, b a, b (a + 1))
store16_half false false m a v x b h = ground (arith, b a, b (a + 1))

-- An 8-bit write in the EEPROM module, for an address below 2 ^ 32, even or odd, and a memory of
-- bytes, succeeds and changes exactly the byte at that address, in both byte orders, although it
-- rewrites the whole word around it. For an odd address this is not what cfe_psp.h documents, which
-- is CFE_PSP_ERROR_ADDRESS_MISALIGNED.
pub eeprom_write8-put :
    (little : Bool) (m : Memory) (a v : ℕ)
    → IsBytes m
    → a < u32_mod
    → v < 2 ^ 8
    → ((eeprom_write8 little m a v).0 ≡ success)
      × ((x : ℕ) → (eeprom_write8 little m a v).1 x ≡ put m a v x)
unfolding eeprom_write8
eeprom_write8-put little m a v b ha hv = elim (ℕ_discrete (a % 2) 0) [
  | yes e ↦
      let even : bit_and a 1 ≡ 0 = bit_and_low 1 a ∙ e in
      let here : a % u32_mod ≡ a = omega arith in
      let w = load16 little m a in
      let done =
        write16_aligned little m a (spliced8 little false w v) b ha
          (spliced8-lt little false w v (load16-lt little m a b) hv) e in
      rw
        (
          even,
          here,
          read16_aligned little m a e,
          splice8-eq little false w v (load16-lt little m a b) hv,
        )
        (done.0, λ x. done.1 x ∙ store16_half little false m a v x b hv)
  | no ne ↦
      let odd : (bit_and a 1 == 0) ≡ false = ground (arith, bit_and_low 1 a) in
      let here : (a - 1) % u32_mod ≡ a - 1 = omega arith in
      let back : a - 1 + 1 ≡ a = omega arith in
      let e : (a - 1) % 2 ≡ 0 = omega arith in
      let w = load16 little m (a - 1) in
      let done =
        write16_aligned little m (a - 1) (spliced8 little true w v) b (omega arith)
          (spliced8-lt little true w v (load16-lt little m (a - 1) b) hv) e in
      rw
        (
          odd,
          here,
          read16_aligned little m (a - 1) e,
          splice8-eq little true w v (load16-lt little m (a - 1) b) hv,
        )
        (done.0, λ x. done.1 x ∙ rw (store16_half little true m (a - 1) v x b hv, back) refl)
]
