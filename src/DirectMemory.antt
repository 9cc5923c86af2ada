-- ===== src/DirectMemory.antt =====
-- The memory-mapped modules: fsw/modules/ram_direct, port_direct and eeprom_direct. Memory is a
-- function from addresses to bytes; `little` is SOFTWARE_LITTLE_BIT_ORDER.
pub mod Access
pub mod Eeprom
pub mod EepromByte
mod Tests
use fs_nasa_cfs_psp.Base.{
  ℕ, ◌+◌, ◌-◌, ◌*◌, ◌/◌, ◌%◌, ◌^◌, Bool, true, false, not, Option, none, some, bit_and, bit_or,
  ◌==◌, if◌then◌else◌, u32_mod,
}
use fs_nasa_cfs_psp.Status.{Status, success, error_address_misaligned}

abbrev pub Memory : Type 0
Memory = ℕ → ℕ

abbrev pub put : Memory → ℕ → ℕ → Memory
put m a v x = if x == a then v else m x

-- Byte `k` of a number.
abbrev pub byte : ℕ → ℕ → ℕ
byte v k = v / 256 ^ k % 256

-- The processor's 16-bit and 32-bit accesses.
unfoldable pub load16 : Bool → Memory → ℕ → ℕ
load16 little m a = if little then m a + 256 * m (a + 1) else 256 * m a + m (a + 1)

unfoldable pub store16 : Bool → Memory → ℕ → ℕ → Memory
store16 little m a v =
    if little
    then put (put m a (byte v 0)) (a + 1) (byte v 1)
    else put (put m a (byte v 1)) (a + 1) (byte v 0)

unfoldable pub load32 : Bool → Memory → ℕ → ℕ
load32 little m a =
    if little
    then m a + 256 * m (a + 1) + 65536 * m (a + 2) + 16777216 * m (a + 3)
    else 16777216 * m a + 65536 * m (a + 1) + 256 * m (a + 2) + m (a + 3)

unfoldable pub store32 : Bool → Memory → ℕ → ℕ → Memory
store32 little m a v =
    if little
    then put (put (put (put m a (byte v 0)) (a + 1) (byte v 1)) (a + 2) (byte v 2)) (a + 3)
        (byte v 3)
    else put (put (put (put m a (byte v 3)) (a + 1) (byte v 2)) (a + 2) (byte v 1)) (a + 3)
        (byte v 0)

-- ram_direct. A value read is `none` where the output is left alone.
unfoldable pub mem_read8 : Memory → ℕ → Status × Option ℕ
mem_read8 m a = (success, some (m a))

unfoldable pub mem_write8 : Memory → ℕ → ℕ → Status × Memory
mem_write8 m a v = (success, put m a v)

unfoldable pub mem_read16 : Bool → Memory → ℕ → Status × Option ℕ
mem_read16 little m a =
    if not (bit_and a 1 == 0)
    then (error_address_misaligned, none)
    else (success, some (load16 little m a))

unfoldable pub mem_write16 : Bool → Memory → ℕ → ℕ → Status × Memory
mem_write16 little m a v =
    if not (bit_and a 1 == 0)
    then (error_address_misaligned, m)
    else (success, store16 little m a v)

unfoldable pub mem_read32 : Bool → Memory → ℕ → Status × Option ℕ
mem_read32 little m a =
    if not (bit_and a 3 == 0)
    then (error_address_misaligned, none)
    else (success, some (load32 little m a))

unfoldable pub mem_write32 : Bool → Memory → ℕ → ℕ → Status × Memory
mem_write32 little m a v =
    if not (bit_and a 3 == 0)
    then (error_address_misaligned, m)
    else (success, store32 little m a v)

-- port_direct.
unfoldable pub port_read8 : Memory → ℕ → Status × Option ℕ
port_read8 m a = (success, some (m a))

unfoldable pub port_write8 : Memory → ℕ → ℕ → Status × Memory
port_write8 m a v = (success, put m a v)

unfoldable pub port_read16 : Bool → Memory → ℕ → Status × Option ℕ
port_read16 little m a =
    if not (bit_and a 1 == 0)
    then (error_address_misaligned, none)
    else (success, some (load16 little m a))

unfoldable pub port_write16 : Bool → Memory → ℕ → ℕ → Status × Memory
port_write16 little m a v =
    if not (bit_and a 1 == 0)
    then (error_address_misaligned, m)
    else (success, store16 little m a v)

unfoldable pub port_read32 : Bool → Memory → ℕ → Status × Option ℕ
port_read32 little m a =
    if not (bit_and a 3 == 0)
    then (error_address_misaligned, none)
    else (success, some (load32 little m a))

unfoldable pub port_write32 : Bool → Memory → ℕ → ℕ → Status × Memory
port_write32 little m a v =
    if not (bit_and a 3 == 0)
    then (error_address_misaligned, m)
    else (success, store32 little m a v)

-- What a read through an output variable leaves in it.
abbrev pub read_into : Status × Option ℕ → ℕ → ℕ
read_into (s, none) old = old
read_into (s, some v) old = v

-- eeprom_direct. Smaller writes read the surrounding word, replace a part, and write it back. The
-- aligned address is a `uint32`.
unfoldable pub eeprom_write32 : Bool → Memory → ℕ → ℕ → Status × Memory
eeprom_write32 little m a v =
    if not (bit_and a 3 == 0)
    then (error_address_misaligned, m)
    else (success, store32 little m a v)

unfoldable pub splice16 : Bool → Bool → ℕ → ℕ → ℕ
splice16 little second w v =
    if little
    then if second
      then bit_or (bit_and w 0x0000FFFF) (v * 2 ^ 16 % u32_mod)
      else bit_or (bit_and w 0xFFFF0000) v
    else if second
    then bit_or (bit_and w 0xFFFF0000) v
    else bit_or (bit_and w 0x0000FFFF) (v * 2 ^ 16 % u32_mod)

unfoldable pub eeprom_write16 : Bool → Memory → ℕ → ℕ → Status × Memory
unfolding eeprom_write32 splice16 mem_read32
eeprom_write16 little m a v =
    let second = not (bit_and a 2 == 0) in
    let aligned = (if second then (a - 2) % u32_mod else a % u32_mod) in
    let old = read_into (mem_read32 little m aligned) 0 in
    if not (bit_and a 1 == 0)
    then (error_address_misaligned, m)
    else eeprom_write32 little m aligned (splice16 little second old v)

unfoldable pub splice8 : Bool → Bool → ℕ → ℕ → ℕ
splice8 little second w v =
    (if little
      then if second then bit_or (bit_and w 0x00FF) (v * 2 ^ 8) else bit_or v (bit_and w 0xFF00)
      else if second
      then bit_or (bit_and w 0xFF00) v
      else bit_or (v * 2 ^ 8) (bit_and w 0x00FF))
    % 2 ^ 16

unfoldable pub eeprom_write8 : Bool → Memory → ℕ → ℕ → Status × Memory
unfolding splice8 mem_read16
eeprom_write8 little m a v =
    let second = not (bit_and a 1 == 0) in
    let aligned = (if second then (a - 1) % u32_mod else a % u32_mod) in
    let old = read_into (mem_read16 little m aligned) 0 in
    eeprom_write16 little m aligned (splice8 little second old v)
