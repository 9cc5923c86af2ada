-- ===== src/DirectMemory/Eeprom.antt =====
-- The read-modify-write of the 16-bit write in fsw/modules/eeprom_direct.
use native.Mathlib.Decide.{ℕ_discrete}
use fs_nasa_cfs_psp.Base.{
  ℕ, ◌+◌, ◌-◌, ◌*◌, ◌/◌, ◌%◌, ◌^◌, ◌<◌, ◌≡◌, ◌⊎◌, inl, inr, refl, ◌∙◌, ap, Bool, true, false, some,
  arith, bit_and, bit_or, bit_and_low, bit_and_high, bit_or_disjoint, bit_or_disjoint_low, ◌==◌,
  if◌then◌else◌, u32_mod,
}
use fs_nasa_cfs_psp.Status.{success, error_address_misaligned}
use fs_nasa_cfs_psp.DirectMemory.{
  Memory, load16, store16, load32, store32, mem_read16, mem_read32, eeprom_write32, eeprom_write16,
  splice16,
}

-- The masks and shifts of the 16-bit write, as arithmetic: the half that is kept and the half that
-- is new.
keep_low :
    (w v : ℕ)
    → v < 2 ^ 16
    → bit_or (bit_and w 0x0000FFFF) (v * 2 ^ 16 % u32_mod) ≡ v * 2 ^ 16 + w % 2 ^ 16
keep_low w v h =
    let fits : v * 2 ^ 16 % u32_mod ≡ v * 2 ^ 16 = omega arith in
    rw (fits, bit_and_low 16 w) (bit_or_disjoint_low 16 v (w % 2 ^ 16) (omega arith))

keep_high :
    (w v : ℕ) → w < 2 ^ 32 → v < 2 ^ 16 → bit_or (bit_and w 0xFFFF0000) v ≡ w / 2 ^ 16 * 2 ^ 16 + v
keep_high w v hw h =
    let mask : bit_and w 0xFFFF0000 ≡ w / 2 ^ 16 * 2 ^ 16 =
      bit_and_high 16 w 0xFFFF
      ∙ ap (λ (x : ℕ). x * 2 ^ 16) (bit_and_low 16 (w / 2 ^ 16) ∙ omega arith) in
    rw mask (bit_or_disjoint 16 (w / 2 ^ 16) v h)

-- The 32-bit value that is written back.
spliced16 : Bool → Bool → ℕ → ℕ → ℕ
spliced16 true true w v = v * 2 ^ 16 + w % 2 ^ 16
spliced16 true false w v = w / 2 ^ 16 * 2 ^ 16 + v
spliced16 false true w v = w / 2 ^ 16 * 2 ^ 16 + v
spliced16 false false w v = v * 2 ^ 16 + w % 2 ^ 16

splice16-eq :
    (little second : Bool) (w v : ℕ)
    → w < 2 ^ 32
    → v < 2 ^ 16
    → splice16 little second w v ≡ spliced16 little second w v
unfolding splice16 spliced16
splice16-eq true true w v hw h = keep_low w v h
splice16-eq true false w v hw h = keep_high w v hw h
splice16-eq false true w v hw h = keep_high w v hw h
splice16-eq false false w v hw h = keep_low w v h

abbrev pub IsBytes : Memory → Type 0
IsBytes m = (x : ℕ) → m x < 256

load32-lt : (little : Bool) (m : Memory) (a : ℕ) → IsBytes m → load32 little m a < 2 ^ 32
unfolding load32
load32-lt true m a b = omega (arith, b a, b (a + 1), b (a + 2), b (a + 3))
load32-lt false m a b = omega (arith, b a, b (a + 1), b (a + 2), b (a + 3))

-- Writing a word back with one half replaced is writing that half.
store32_half :
    (little second : Bool) (m : Memory) (a v x : ℕ)
    → IsBytes m
    → v < 2 ^ 16
    → store32 little m a (spliced16 little second (load32 little m a) v) x
      ≡ store16 little m (if second then a + 2 else a) v x
unfolding store32 store16 load32 spliced16
store32_half true true m a v x b h = ground (arith, b a, b (a + 1), b (a + 2), b (a + 3))
store32_half true false m a v x b h = ground (arith, b a, b (a + 1), b (a + 2), b (a + 3))
store32_half false true m a v x b h = ground (arith, b a, b (a + 1), b (a + 2), b (a + 3))
store32_half false false m a v x b h = ground (arith, b a, b (a + 1), b (a + 2), b (a + 3))

bit1 : (a : ℕ) → bit_and a 2 ≡ a / 2 % 2 * 2
bit1 a = bit_and_high 1 a 1 ∙ ap (λ (x : ℕ). x * 2) (bit_and_low 1 (a / 2))

write32_aligned :
    (little : Bool) (m : Memory) (a v : ℕ)
    → a % 4 ≡ 0
    → eeprom_write32 little m a v ≡ (success, store32 little m a v)
unfolding eeprom_write32
write32_aligned little m a v h =
    let aligned : bit_and a 3 ≡ 0 = bit_and_low 2 a ∙ h in rw aligned refl

read32_aligned :
    (little : Bool) (m : Memory) (a : ℕ)
    → a % 4 ≡ 0
    → mem_read32 little m a ≡ (success, some (load32 little m a))
unfolding mem_read32
read32_aligned little m a h = let aligned : bit_and a 3 ≡ 0 = bit_and_low 2 a ∙ h in rw aligned refl

pub read16_aligned :
    (little : Bool) (m : Memory) (a : ℕ)
    → a % 2 ≡ 0
    → mem_read16 little m a ≡ (success, some (load16 little m a))
unfolding mem_read16
read16_aligned little m a h = let aligned : bit_and a 1 ≡ 0 = bit_and_low 1 a ∙ h in rw aligned refl

pub write16_aligned :
    (little : Bool) (m : Memory) (a v : ℕ)
    → IsBytes m
    → a < u32_mod
    → v < 2 ^ 16
    → a % 2 ≡ 0
    → ((eeprom_write16 little m a v).0 ≡ success)
      × ((x : ℕ) → (eeprom_write16 little m a v).1 x ≡ store16 little m a v x)
unfolding eeprom_write16
write16_aligned little m a v b ha hv h = elim (ℕ_discrete (a / 2 % 2) 0) [
  | yes e ↦
      let first : bit_and a 2 ≡ 0 = bit1 a ∙ omega arith in
      let here : a % u32_mod ≡ a = omega arith in
      let even : bit_and a 1 ≡ 0 = bit_and_low 1 a ∙ h in
      rw
        (
          even,
          first,
          here,
          read32_aligned little m a (omega arith),
          splice16-eq little false (load32 little m a) v (load32-lt little m a b) hv,
          write32_aligned little m a _ (omega arith),
        )
        (refl, λ x. store32_half little false m a v x b hv)
  | no ne ↦
      let second : (bit_and a 2 == 0) ≡ false = ground (arith, bit1 a) in
      let here : (a - 2) % u32_mod ≡ a - 2 = omega arith in
      let back : a - 2 + 2 ≡ a = omega arith in
      let even : bit_and a 1 ≡ 0 = bit_and_low 1 a ∙ h in
      rw
        (
          even,
          second,
          here,
          read32_aligned little m (a - 2) (omega arith),
          splice16-eq little true (load32 little m (a - 2)) v (load32-lt little m (a - 2) b) hv,
          write32_aligned little m (a - 2) _ (omega arith),
        )
        (refl, λ x. rw (store32_half little true m (a - 2) v x b hv, back) refl)
]

-- A 16-bit write in the EEPROM module, for an address below 2 ^ 32 and a memory of bytes, changes
-- exactly the two bytes at an even address, the way the processor's 16-bit store does, in both byte
-- orders. At an odd address it reports the misalignment and changes nothing.
pub eeprom_write16-store16 :
    (little : Bool) (m : Memory) (a v : ℕ)
    → IsBytes m
    → a < u32_mod
    → v < 2 ^ 16
    → ((a % 2 ≡ 0)
        × ((eeprom_write16 little m a v).0 ≡ success)
        × ((x : ℕ) → (eeprom_write16 little m a v).1 x ≡ store16 little m a v x))
      ⊎ ((a % 2 ≡ 1) × (eeprom_write16 little m a v ≡ (error_address_misaligned, m)))
unfolding eeprom_write16
eeprom_write16-store16 little m a v b ha hv = elim (ℕ_discrete (a % 2) 0) [
  | yes e ↦ let done = write16_aligned little m a v b ha hv e in inl (e, done.0, done.1)
  | no ne ↦
      let odd : (bit_and a 1 == 0) ≡ false = ground (arith, bit_and_low 1 a) in
      inr (omega arith, rw odd refl)
]
