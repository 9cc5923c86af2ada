-- ===== src/Sysmon/Text.antt =====
-- `linux_sysmon_read_cpuuse_line` of fsw/modules/linux_sysmon/linux_sysmon.c: the CPU number and the
-- run time in the text of a line of /proc/schedstat. A C string is the list of its characters.
use fs_nasa_cfs_psp.Sysmon.{CpuLine}
use fs_nasa_cfs_psp.Base.{
  ℕ, zero, suc, ◌+◌, ◌-◌, ◌*◌, ◌%◌, ◌≤◌, ◌<◌, ◌≡◌, refl, ap, ◌∙◌, Bool, true, false, ◌&&◌, ◌||◌,
  Option, none, some, List, [], ◌∷◌, ◌++◌, arith, ltb, leb, ◌==◌, if◌then◌else◌, get_elem?, get_or,
  drop, u32_mod, u64_mod,
}

abbrev is_space : ℕ → Bool
is_space c = (c == 32) || (leb 9 c && leb c 13)

abbrev is_digit : ℕ → Bool
is_digit c = leb 48 c && leb c 57

unfoldable pub skip_space : List ℕ → List ℕ
skip_space [] = []
skip_space (c ∷ cs) = let rest = skip_space cs in if is_space c then rest else c ∷ cs

-- The value of a run of digits, after a value `acc`, and what follows it.
unfoldable pub digits : ℕ → List ℕ → ℕ × List ℕ
digits acc [] = (acc, [])
digits acc (c ∷ cs) =
    let rest = digits (10 * acc + (c - 48)) cs in if is_digit c then rest else (acc, c ∷ cs)

abbrev starts_number : List ℕ → Bool
starts_number [] = false
starts_number (c ∷ cs) = is_digit c

-- The sign that `strtoul` takes: whether it is a minus, and what follows.
abbrev sign : List ℕ → Bool × List ℕ
sign [] = (false, [])
sign (c ∷ cs) = if c == 45 then (true, cs) else if c == 43 then (false, cs) else (false, c ∷ cs)

-- `strtoul` in base 10, whose result stays at the largest number on overflow; `none` where the end
-- pointer is the text itself.
unfoldable pub strtoul : List ℕ → Option (ℕ × List ℕ)
unfolding skip_space digits
strtoul text =
    let (minus, cs) = sign (skip_space text) in
    let (v, rest) = digits 0 cs in
    let negated = (if minus then (u64_mod - v) % u64_mod else v) in
    if starts_number cs then some ((if ltb v u64_mod then negated else u64_mod - 1), rest) else none

-- The loop over the at most ten values, from value number `count`.
unfoldable pub read_values : ℕ → ℕ → List ℕ → ℕ → ℕ → ℕ × ℕ
read_values zero count text cpu_num run_time = (cpu_num, run_time)
read_values (suc left) count [] cpu_num run_time = (cpu_num, run_time)
read_values (suc left) count (c ∷ cs) cpu_num run_time = elim (strtoul (skip_space (c ∷ cs))) [
  | none ↦ (cpu_num, run_time)
  | some (v, rest) ↦
      read_values left (count + 1) rest (if count == 0 then v % u32_mod else cpu_num)
        (if count == 7 then v else run_time)
]

-- With the number and the time that the caller has set before.
unfoldable pub read_cpuuse_line : List ℕ → ℕ × ℕ
unfolding read_values
read_cpuuse_line text = read_values 10 0 text (u32_mod - 1) 0

-- A number in decimal digits.
abbrev pub AllDigits : List ℕ → Type 0
AllDigits [] = Unit
AllDigits (c ∷ cs) = (48 ≤ c) × (c ≤ 57) × AllDigits cs

abbrev pub value_from : ℕ → List ℕ → ℕ
value_from acc [] = acc
value_from acc (c ∷ cs) = value_from (10 * acc + (c - 48)) cs

pub record Numeral : Type 0 where
  pub first : ℕ
  pub others : List ℕ
  pub all_digits : AllDigits (first ∷ others)
  pub fits : value_from 0 (first ∷ others) < u64_mod

abbrev pub text_of : Numeral → List ℕ
text_of n = n.first ∷ n.others

abbrev pub value : Numeral → ℕ
value n = value_from 0 (text_of n)

-- Numbers, each after a space.
abbrev pub spaced : List Numeral → List ℕ
spaced [] = []
spaced (n ∷ ns) = 32 ∷ (text_of n ++ spaced ns)

starts_spaced : (ns : List Numeral) → starts_number (spaced ns) ≡ false
starts_spaced [] = refl
starts_spaced (n ∷ ns) = refl

digits-append :
    (acc : ℕ) (ds rest : List ℕ)
    → AllDigits ds
    → starts_number rest ≡ false
    → digits acc (ds ++ rest) ≡ (value_from acc ds, rest)
unfolding digits
digits-append acc [] [] h e = refl
digits-append acc [] (c ∷ cs) h e = rw e refl
digits-append acc (d ∷ ds) rest h e =
    let digit : is_digit d ≡ true = ground (arith, h.0, h.1) in
    rw digit (digits-append (10 * acc + (d - 48)) ds rest h.2 e)

strtoul_numeral :
    (n : Numeral) (ns : List Numeral) → strtoul (text_of n ++ spaced ns) ≡ some (value n, spaced ns)
unfolding strtoul skip_space
strtoul_numeral n ns =
    let d = n.first in
    let (low, high, rest) = n.all_digits in
    let no_space : is_space d ≡ false = ground (arith, low, high) in
    let no_minus : (d == 45) ≡ false = ground (arith, low) in
    let no_plus : (d == 43) ≡ false = ground (arith, low) in
    let digit : is_digit d ≡ true = ground (arith, low, high) in
    let fits : ltb (value n) u64_mod ≡ true = ground (arith, n.fits) in
    rw
      (
        no_space,
        no_minus,
        no_plus,
        digits-append 0 (text_of n) (spaced ns) n.all_digits (starts_spaced ns),
        digit,
        fits,
      )
      refl

skip_numeral : (n : Numeral) (cs : List ℕ) → skip_space (text_of n ++ cs) ≡ text_of n ++ cs
unfolding skip_space
skip_numeral n cs =
    let (low, high, rest) = n.all_digits in
    let no_space : is_space n.first ≡ false = ground (arith, low, high) in rw no_space refl

skip_to_numeral :
    (n : Numeral) (cs : List ℕ) → skip_space (32 ∷ (text_of n ++ cs)) ≡ text_of n ++ cs
unfolding skip_space
skip_to_numeral n cs = skip_numeral n cs

read_values_step :
    (left count : ℕ) (n : Numeral) (ns : List Numeral) (cpu_num run_time : ℕ)
    → read_values (suc left) count (spaced (n ∷ ns)) cpu_num run_time
      ≡ read_values left
          (count + 1)
          (spaced ns)
          (if count == 0 then value n % u32_mod else cpu_num)
          (if count == 7 then value n else run_time)
unfolding read_values
read_values_step left count n ns cpu_num run_time =
    let found : strtoul (skip_space (32 ∷ (text_of n ++ spaced ns))) ≡ some (value n, spaced ns) =
      ap strtoul (skip_to_numeral n (spaced ns)) ∙ strtoul_numeral n ns in
    rw (found, read_values) refl

read_values_after :
    (left count : ℕ) (ns : List Numeral) (cpu_num run_time : ℕ)
    → 8 ≤ count
    → read_values left count (spaced ns) cpu_num run_time ≡ (cpu_num, run_time)
unfolding read_values
read_values_after zero count ns cpu_num run_time h = refl
read_values_after (suc left) count [] cpu_num run_time h = refl
read_values_after (suc left) count (n ∷ ns) cpu_num run_time h =
    let not_first : (count == 0) ≡ false = ground arith in
    let not_time : (count == 7) ≡ false = ground arith in
    read_values_step left count n ns cpu_num run_time
    ∙ rw (not_first, not_time)
        (read_values_after left (count + 1) ns cpu_num run_time (omega arith))

-- The value of number `j` of a list of numbers, if it has that many.
abbrev pub value_at : List Numeral → ℕ → ℕ → ℕ
value_at ns j d = elim (get_elem? ns j) [ none ↦ d | some n ↦ value n ]

read_values_before :
    (j left count : ℕ) (ns : List Numeral) (cpu_num run_time : ℕ)
    → j + count ≡ 7
    → 1 ≤ count
    → j < left
    → read_values left count (spaced ns) cpu_num run_time ≡ (cpu_num, value_at ns j run_time)
unfolding read_values
read_values_before j zero count ns cpu_num run_time at_seven later room = absurd (omega arith)
read_values_before j (suc left) count [] cpu_num run_time at_seven later room = refl
read_values_before zero (suc left) count (n ∷ ns) cpu_num run_time at_seven later room =
    let not_first : (count == 0) ≡ false = ground arith in
    let time : (count == 7) ≡ true = ground arith in
    read_values_step left count n ns cpu_num run_time
    ∙ rw (not_first, time) (read_values_after left (count + 1) ns cpu_num (value n) (omega arith))
read_values_before (suc j) (suc left) count (n ∷ ns) cpu_num run_time at_seven later room =
    let not_first : (count == 0) ≡ false = ground arith in
    let not_time : (count == 7) ≡ false = ground arith in
    read_values_step left count n ns cpu_num run_time
    ∙ rw (not_first, not_time)
        (read_values_before j left (count + 1) ns cpu_num run_time (omega arith) (omega arith)
          (omega arith))

-- What the parser finds in a line that is printed as the code says, a CPU number and any number of
-- values after a space each, all in decimal digits and below 2 ^ 64: the CPU number, cut to 32 bits,
-- and the seventh value, or 0 where there are fewer.
pub read_cpuuse_line-spaced :
    (cpu : Numeral) (values : List Numeral)
    → read_cpuuse_line (text_of cpu ++ spaced values) ≡ (value cpu % u32_mod, value_at values 6 0)
unfolding read_cpuuse_line read_values
read_cpuuse_line-spaced cpu values =
    first_value
    ∙ read_values_before 6 9 1 values (value cpu % u32_mod) 0 (omega arith) (omega arith)
        (omega arith)
  where
    first_value :
        read_values 10 0 (text_of cpu ++ spaced values) (u32_mod - 1) 0
        ≡ read_values 9 1 (spaced values) (value cpu % u32_mod) 0
    first_value =
        let found : strtoul (skip_space (text_of cpu ++ spaced values))
            ≡ some (value cpu, spaced values) =
          ap strtoul (skip_numeral cpu (spaced values)) ∙ strtoul_numeral cpu values in
        rw (found, read_values) refl

-- The lines of the file that begin with "cpu", each with the numbers in its text.
unfoldable pub cpu_lines : List (List ℕ) → List CpuLine
unfolding read_cpuuse_line
cpu_lines [] = []
cpu_lines (text ∷ rest) =
    let lines = cpu_lines rest in
    let (n, t) = read_cpuuse_line (drop 3 text) in
    let is_cpu =
      (get_or text 0 0 == 99) && ((get_or text 1 0 == 112) && (get_or text 2 0 == 117)) in
    if is_cpu then record { cpu_num = n; run_time = t } ∷ lines else lines
