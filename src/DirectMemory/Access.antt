-- ===== src/DirectMemory/Access.antt =====
-- Reads after writes in the memory-mapped RAM and port modules (fsw/modules/ram_direct and
-- fsw/modules/port_direct).
use native.Mathlib.Decide.{ℕ_discrete}
use fs_nasa_cfs_psp.Base.{
  ℕ, ◌+◌, ◌%◌, ◌^◌, ◌≤◌, ◌<◌, ◌≡◌, ◌≢◌, ◌⊎◌, inl, inr, refl, ◌∙◌, Bool, true, false, Option, none,
  some, arith, bit_and, bit_and_low, ◌==◌,
}
use fs_nasa_cfs_psp.Status.{Status, success, error_address_misaligned}
use fs_nasa_cfs_psp.DirectMemory.{
  Memory, load16, store16, load32, store32, mem_read8, mem_write8, mem_read16, mem_write16,
  mem_read32, mem_write32, port_read8, port_write8, port_read16, port_write16, port_read32,
  port_write32,
}

pub load16-store16 :
    (little : Bool) (m : Memory) (a v : ℕ) → v < 2 ^ 16 → load16 little (store16 little m a v) a ≡ v
unfolding load16 store16
load16-store16 true m a v h = ground arith
load16-store16 false m a v h = ground arith

pub load32-store32 :
    (little : Bool) (m : Memory) (a v : ℕ) → v < 2 ^ 32 → load32 little (store32 little m a v) a ≡ v
unfolding load32 store32
load32-store32 true m a v h = ground arith
load32-store32 false m a v h = ground arith

pub store16_other :
    (little : Bool) (m : Memory) (a v x : ℕ) → (x < a) ⊎ (a + 2 ≤ x) → store16 little m a v x ≡ m x
unfolding store16
store16_other true m a v x h = ground arith
store16_other false m a v x h = ground arith

pub store32_other :
    (little : Bool) (m : Memory) (a v x : ℕ) → (x < a) ⊎ (a + 4 ≤ x) → store32 little m a v x ≡ m x
unfolding store32
store32_other true m a v x h = ground arith
store32_other false m a v x h = ground arith

-- A write of `width` bytes that a read undoes: what is read back is what was written, and the bytes
-- outside are as before. At a misaligned address both only report it.
abbrev pub Writes : ℕ → ℕ → ℕ → Memory → Status × Memory → (Memory → Status × Option ℕ) → Type 0
Writes width a v m (s, m') read =
    ((a % width ≡ 0)
      × (s ≡ success)
      × (read m' ≡ (success, some v))
      × ((x : ℕ) → (x < a) ⊎ (a + width ≤ x) → m' x ≡ m x))
    ⊎ ((a % width ≢ 0)
        × (s ≡ error_address_misaligned)
        × (m' ≡ m)
        × (read m ≡ (error_address_misaligned, none)))

mem_word16 :
    (little : Bool) (m : Memory) (a v : ℕ)
    → v < 2 ^ 16
    → Writes 2 a v m (mem_write16 little m a v) (λ m'. mem_read16 little m' a)
unfolding mem_write16 mem_read16
mem_word16 little m a v h = elim (ℕ_discrete (a % 2) 0) [
  | yes e ↦
      let aligned : bit_and a 1 ≡ 0 = bit_and_low 1 a ∙ e in
      rw aligned (
        inl (
          e,
          refl,
          rw (load16-store16 little m a v h) refl,
          λ x out. store16_other little m a v x out,
        ))
  | no ne ↦
      let odd : (bit_and a 1 == 0) ≡ false = ground (arith, bit_and_low 1 a) in
      rw odd (inr (ne, refl, refl, refl))
]

mem_word32 :
    (little : Bool) (m : Memory) (a v : ℕ)
    → v < 2 ^ 32
    → Writes 4 a v m (mem_write32 little m a v) (λ m'. mem_read32 little m' a)
unfolding mem_write32 mem_read32
mem_word32 little m a v h = elim (ℕ_discrete (a % 4) 0) [
  | yes e ↦
      let aligned : bit_and a 3 ≡ 0 = bit_and_low 2 a ∙ e in
      rw aligned (
        inl (
          e,
          refl,
          rw (load32-store32 little m a v h) refl,
          λ x out. store32_other little m a v x out,
        ))
  | no ne ↦
      let odd : (bit_and a 3 == 0) ≡ false = ground (arith, bit_and_low 2 a) in
      rw odd (inr (ne, refl, refl, refl))
]

mem_byte :
    (m : Memory) (a v : ℕ) → v < 2 ^ 8 → Writes 1 a v m (mem_write8 m a v) (λ m'. mem_read8 m' a)
unfolding mem_write8 mem_read8
mem_byte m a v h = inl (omega arith, refl, ground arith, λ x out. ground arith)

port_word16 :
    (little : Bool) (m : Memory) (a v : ℕ)
    → v < 2 ^ 16
    → Writes 2 a v m (port_write16 little m a v) (λ m'. port_read16 little m' a)
unfolding port_write16 port_read16
port_word16 little m a v h = elim (ℕ_discrete (a % 2) 0) [
  | yes e ↦
      let aligned : bit_and a 1 ≡ 0 = bit_and_low 1 a ∙ e in
      rw aligned (
        inl (
          e,
          refl,
          rw (load16-store16 little m a v h) refl,
          λ x out. store16_other little m a v x out,
        ))
  | no ne ↦
      let odd : (bit_and a 1 == 0) ≡ false = ground (arith, bit_and_low 1 a) in
      rw odd (inr (ne, refl, refl, refl))
]

port_word32 :
    (little : Bool) (m : Memory) (a v : ℕ)
    → v < 2 ^ 32
    → Writes 4 a v m (port_write32 little m a v) (λ m'. port_read32 little m' a)
unfolding port_write32 port_read32
port_word32 little m a v h = elim (ℕ_discrete (a % 4) 0) [
  | yes e ↦
      let aligned : bit_and a 3 ≡ 0 = bit_and_low 2 a ∙ e in
      rw aligned (
        inl (
          e,
          refl,
          rw (load32-store32 little m a v h) refl,
          λ x out. store32_other little m a v x out,
        ))
  | no ne ↦
      let odd : (bit_and a 3 == 0) ≡ false = ground (arith, bit_and_low 2 a) in
      rw odd (inr (ne, refl, refl, refl))
]

port_byte :
    (m : Memory) (a v : ℕ) → v < 2 ^ 8 → Writes 1 a v m (port_write8 m a v) (λ m'. port_read8 m' a)
unfolding port_write8 port_read8
port_byte m a v h = inl (omega arith, refl, ground arith, λ x out. ground arith)

-- RAM writes of 8, 16 and 32 bits in either byte order: at an address that is a multiple of the
-- width, a read of the same width returns the value written and no other byte has changed; at any
-- other address the write and the read report the misalignment, and memory is as before.
pub mem_write-Writes :
    (little : Bool) (m : Memory) (a v w d : ℕ)
    → v < 2 ^ 8
    → w < 2 ^ 16
    → d < 2 ^ 32
    → Writes 1 a v m (mem_write8 m a v) (λ m'. mem_read8 m' a)
      × Writes 2 a w m (mem_write16 little m a w) (λ m'. mem_read16 little m' a)
      × Writes 4 a d m (mem_write32 little m a d) (λ m'. mem_read32 little m' a)
mem_write-Writes little m a v w d hv hw hd =
    (mem_byte m a v hv, mem_word16 little m a w hw, mem_word32 little m a d hd)

-- Port writes of 8, 16 and 32 bits in either byte order: at an address that is a multiple of the
-- width, a read of the same width returns the value written and no other byte has changed; at any
-- other address the write and the read report the misalignment, and memory is as before.
pub port_write-Writes :
    (little : Bool) (m : Memory) (a v w d : ℕ)
    → v < 2 ^ 8
    → w < 2 ^ 16
    → d < 2 ^ 32
    → Writes 1 a v m (port_write8 m a v) (λ m'. port_read8 m' a)
      × Writes 2 a w m (port_write16 little m a w) (λ m'. port_read16 little m' a)
      × Writes 4 a d m (port_write32 little m a d) (λ m'. port_read32 little m' a)
port_write-Writes little m a v w d hv hw hd =
    (port_byte m a v hv, port_word16 little m a w hw, port_word32 little m a d hd)
