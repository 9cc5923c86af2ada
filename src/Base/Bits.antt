-- ===== src/Base/Bits.antt =====
-- `&` with a mask and `|` of disjoint fields as arithmetic, at every width. The native operations
-- are recursions on binary digits with fuel, which the first lemmas drop.
use Prim.Native.Nat.{ℕ, zero, suc, ◌+◌, ◌*◌, ◌/◌, ◌%◌, ◌^◌, ◌-◌, ◌≤◌, ◌<◌, min, max}
use Prim.Native.Nat.{bit_and, bit_or, digits, bitwise, bit_and-bitwise, bit_or-bitwise}
use mathlib.Core.Path.{◌≡◌, refl, ap}
use native.Mathlib.Nat.{pow-suc, one-le-pow}
use native.Mathlib.Omega.{arith}

fuel_enough :
    (z : ℕ → ℕ) (f : ℕ → ℕ → ℕ) (n m a b : ℕ) → a ≤ n → a ≤ m → digits z f n a b ≡ digits z f m a b
fuel_enough z f zero zero a b p q = refl
fuel_enough z f zero (suc m) zero b p q = refl
fuel_enough z f zero (suc m) (suc a) b p q = absurd (omega arith)
fuel_enough z f (suc n) zero zero b p q = refl
fuel_enough z f (suc n) zero (suc a) b p q = absurd (omega arith)
fuel_enough z f (suc n) (suc m) zero b p q = refl
fuel_enough z f (suc n) (suc m) (suc a) b p q =
    rw (fuel_enough z f n m (suc a / 2) (b / 2) (omega arith) (omega arith))

lowest_digit :
    (z : ℕ → ℕ) (f : ℕ → ℕ → ℕ) (a b : ℕ)
    → bitwise z f (suc a) b ≡ bitwise z f (suc a / 2) (b / 2) * 2 + f (suc a % 2) (b % 2)
lowest_digit z f a b =
    omega (arith, fuel_enough z f a (suc a / 2) (suc a / 2) (b / 2) (omega arith) (omega arith))

or_digit : (a b : ℕ) → bit_or a b ≡ bit_or (a / 2) (b / 2) * 2 + max (a % 2) (b % 2)
or_digit zero b = simp bit_or-bitwise (omega arith)
or_digit (suc a) b = simp bit_or-bitwise (lowest_digit (λ y. y) max a b)

and_digit : (a b : ℕ) → bit_and a b ≡ bit_and (a / 2) (b / 2) * 2 + min (a % 2) (b % 2)
and_digit zero b = simp bit_and-bitwise (omega arith)
and_digit (suc a) b = simp bit_and-bitwise (lowest_digit (λ y. 0) min a b)

or-zero_bound : (n a : ℕ) → a ≤ n → bit_or a 0 ≡ a
or-zero_bound n zero h = refl
or-zero_bound zero (suc a) h = absurd (omega arith)
or-zero_bound (suc n) (suc a) h =
    omega (arith, or_digit (suc a) 0, or-zero_bound n (suc a / 2) (omega arith))

and-zero_bound : (n a : ℕ) → a ≤ n → bit_and a 0 ≡ 0
and-zero_bound n zero h = refl
and-zero_bound zero (suc a) h = absurd (omega arith)
and-zero_bound (suc n) (suc a) h =
    omega (arith, and_digit (suc a) 0, and-zero_bound n (suc a / 2) (omega arith))

double : (q k : ℕ) → q * 2 ^ suc k ≡ 2 * (q * 2 ^ k)
double q k = omega (arith, ap (λ (t : ℕ). q * t) (pow-suc 2 k))

-- Fields that do not overlap: `|` is the sum.
pub bit_or_disjoint : (k q r : ℕ) → r < 2 ^ k → bit_or (q * 2 ^ k) r ≡ q * 2 ^ k + r
bit_or_disjoint zero q r h = ground (arith, or-zero_bound q q)
bit_or_disjoint (suc k) q r h =
    ground (arith, or_digit (q * 2 ^ suc k) r, double q k, pow-suc 2 k, bit_or_disjoint k q (r / 2))

zero-or : (b : ℕ) → bit_or 0 b ≡ b
zero-or b = simp bit_or-bitwise (omega arith)

pub bit_or_disjoint_low : (k q r : ℕ) → r < 2 ^ k → bit_or r (q * 2 ^ k) ≡ q * 2 ^ k + r
bit_or_disjoint_low zero q zero h = ground (arith, zero-or q)
bit_or_disjoint_low zero q (suc r) h = absurd (omega arith)
bit_or_disjoint_low (suc k) q r h =
    ground
      (arith, or_digit r (q * 2 ^ suc k), double q k, pow-suc 2 k, bit_or_disjoint_low k q (r / 2))

and_low_field : (k q r : ℕ) → r < 2 ^ k → bit_and (q * 2 ^ k + r) (2 ^ k - 1) ≡ r
and_low_field zero q r h = ground (arith, and-zero_bound (q * 2 ^ 0 + r) (q * 2 ^ 0 + r))
and_low_field (suc k) q r h = ground (
  arith,
  and_digit (q * 2 ^ suc k + r) (2 ^ suc k - 1),
  double q k,
  pow-suc 2 k,
  one-le-pow k 2,
  and_low_field k q (r / 2),
)

-- A mask of the `k` low bits is the remainder by `2 ^ k`.
pub bit_and_low : (k a : ℕ) → bit_and a (2 ^ k - 1) ≡ a % 2 ^ k
bit_and_low k a = ground (arith, one-le-pow k 2, and_low_field k (a / 2 ^ k) (a % 2 ^ k))

and_high_field :
    (k q r m : ℕ) → r < 2 ^ k → bit_and (q * 2 ^ k + r) (m * 2 ^ k) ≡ bit_and q m * 2 ^ k
and_high_field zero q r m h = ground arith
and_high_field (suc k) q r m h = ground (
  arith,
  and_digit (q * 2 ^ suc k + r) (m * 2 ^ suc k),
  double q k,
  double m k,
  double (bit_and q m) k,
  pow-suc 2 k,
  and_high_field k q (r / 2) m,
)

-- A mask with no low bit acts on the bits above.
pub bit_and_high : (k a m : ℕ) → bit_and a (m * 2 ^ k) ≡ bit_and (a / 2 ^ k) m * 2 ^ k
bit_and_high k a m = ground (arith, one-le-pow k 2, and_high_field k (a / 2 ^ k) (a % 2 ^ k) m)
