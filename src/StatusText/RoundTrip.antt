-- ===== src/StatusText/RoundTrip.antt =====
-- The text of a status code (fsw/shared/src/cfe_psp_error.c) fits its buffer and gives the code back.
use native.Mathlib.Nat.{div-lt_iff_lt-mul}
use fs_nasa_cfs_psp.Base.{
  ℕ, zero, suc, ◌+◌, ◌-◌, ◌/◌, ◌%◌, ◌^◌, ◌≤◌, ◌<◌, ◌≡◌, refl, ap, ◌∙◌, inl, inr, false, some, List,
  [], ◌∷◌, ◌++◌, arith, ltb, ◌==◌, if◌then◌else◌, Bool-cases, length, take, drop, length-append,
  length-drop,
}
use fs_nasa_cfs_psp.Status.{ℤ, pos, negsuc}
use fs_nasa_cfs_psp.Sysmon.Text.{AllDigits, value_from}
use fs_nasa_cfs_psp.StatusText.{
  status_string_length, decimal, print_status, snprintf, status_to_string,
}

-- The characters of a string before its NUL.
unfoldable pub c_text : List ℕ → List ℕ
c_text [] = []
c_text (c ∷ cs) = let rest = c_text cs in if c == 0 then [] else c ∷ rest

-- A number in decimal digits, perhaps with a minus sign.
unfoldable pub read_status : List ℕ → ℤ
read_status [] = pos 0
read_status (c ∷ cs) = if c == 45 then negsuc (value_from 0 cs - 1) else pos (value_from 0 (c ∷ cs))

-- An `int32`.
unfoldable pub IsInt32 : ℤ → Type 0
IsInt32 (pos n) = n < 2 ^ 31
IsInt32 (negsuc n) = n < 2 ^ 31

pub decimal-value :
    (k n : ℕ) (acc : List ℕ) → n < 10 ^ k → value_from 0 (decimal k n acc) ≡ value_from n acc
unfolding decimal
decimal-value zero n acc h = ap (λ (m : ℕ). value_from m acc) (omega (arith, h))
decimal-value (suc k) n acc h = elim (Bool-cases (ltb n 10)) [
  | inl small ↦ rw small (ap (λ (m : ℕ). value_from m acc) (omega arith))
  | inr large ↦
      let less : n / 10 < 10 ^ k = (div-lt_iff_lt-mul (omega arith)).1 (omega arith) in
      rw large (
        decimal-value k (n / 10) ((48 + n % 10) ∷ acc) less
        ∙ ap (λ (m : ℕ). value_from m acc) (omega arith))
]

pub decimal-AllDigits : (k n : ℕ) (acc : List ℕ) → AllDigits acc → AllDigits (decimal k n acc)
unfolding decimal
decimal-AllDigits zero n acc h = h
decimal-AllDigits (suc k) n acc h = elim (Bool-cases (ltb n 10)) [
  | inl small ↦ rw small (omega arith, ground arith, h)
  | inr large ↦
      rw large (decimal-AllDigits k (n / 10) ((48 + n % 10) ∷ acc) (omega arith, omega arith, h))
]

length-decimal : (k n : ℕ) (acc : List ℕ) → length (decimal k n acc) ≤ k + length acc
unfolding decimal
length-decimal zero n acc = omega arith
length-decimal (suc k) n acc = elim (Bool-cases (ltb n 10)) [
  | inl small ↦ rw small (omega arith)
  | inr large ↦ rw large (omega (arith, length-decimal k (n / 10) ((48 + n % 10) ∷ acc)))
]

take_short : (n : ℕ) (xs : List ℕ) → length xs ≤ n → take n xs ≡ xs
take_short zero [] h = refl
take_short (suc n) [] h = refl
take_short zero (x ∷ xs) h = absurd (omega arith)
take_short (suc n) (x ∷ xs) h = ap (λ (ys : List ℕ). x ∷ ys) (take_short n xs (omega arith))

c_text-digits : (xs rest : List ℕ) → AllDigits xs → c_text (xs ++ (0 ∷ rest)) ≡ xs
unfolding c_text
c_text-digits [] rest h = refl
c_text-digits (x ∷ xs) rest h =
    let char : (x == 0) ≡ false = ground (arith, h.0) in rw (char, c_text-digits xs rest h.2) refl

read_status-digits : (xs : List ℕ) → AllDigits xs → read_status xs ≡ pos (value_from 0 xs)
unfolding read_status
read_status-digits [] h = refl
read_status-digits (x ∷ xs) h = let char : (x == 45) ≡ false = ground (arith, h.0) in rw char refl

minus : (xs rest : List ℕ) → AllDigits xs → c_text (45 ∷ xs ++ (0 ∷ rest)) ≡ 45 ∷ xs
unfolding c_text
minus xs rest h = ap (λ (ys : List ℕ). 45 ∷ ys) (c_text-digits xs rest h)

negative : (xs : List ℕ) → read_status (45 ∷ xs) ≡ negsuc (value_from 0 xs - 1)
unfolding read_status
negative xs = refl

-- What is printed fits the buffer with its NUL, has no NUL of its own, and reads back.
print_status-reads :
    (status : ℤ)
    → IsInt32 status
    → (length (print_status status) ≤ 11)
      × ((rest : List ℕ) → c_text (print_status status ++ (0 ∷ rest)) ≡ print_status status)
      × (read_status (print_status status) ≡ status)
unfolding print_status IsInt32
print_status-reads (pos n) h =
    let all : AllDigits (decimal 10 n []) = decimal-AllDigits 10 n [] tt in
    (
      omega (arith, length-decimal 10 n []),
      λ rest. c_text-digits (decimal 10 n []) rest all,
      read_status-digits (decimal 10 n []) all ∙ ap pos (decimal-value 10 n [] (omega arith)),
    )
print_status-reads (negsuc n) h =
    let all : AllDigits (decimal 10 (n + 1) []) = decimal-AllDigits 10 (n + 1) [] tt in
    (
      omega (arith, length-decimal 10 (n + 1) []),
      λ rest. minus (decimal 10 (n + 1) []) rest all,
      negative (decimal 10 (n + 1) [])
          ∙ ap negsuc (omega (arith, decimal-value 10 (n + 1) [] (omega arith))),
    )

-- The text of every status code, for any buffer of its size: the string that is returned has the
-- size of the buffer, and what stands before its NUL reads back as the code.
pub status_to_string-reads :
    (status : ℤ) (buf : List ℕ)
    → IsInt32 status
    → length buf ≡ status_string_length
    → (out : List ℕ) × (status_to_string status (some buf) ≡ some out)
      × (length out ≡ status_string_length)
      × (read_status (c_text out) ≡ status)
unfolding status_to_string snprintf
status_to_string-reads status buf h size =
    let text = print_status status in
    let (short, whole, reads) = print_status-reads status h in
    let rest = drop (length text + 1) buf in
    (
      text ++ (0 ∷ rest),
      rw (take_short 11 text short) refl,
      omega (arith, length-append text (0 ∷ rest), length-drop (length text + 1) buf),
      rw (whole rest) reads,
    )
