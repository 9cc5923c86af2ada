-- ===== src/StatusText.antt =====
-- fsw/shared/src/cfe_psp_error.c: the text of a status code. Characters are their codes.
pub mod RoundTrip
mod Tests
use fs_nasa_cfs_psp.Base.{
  ℕ, zero, suc, bit_and_low, bit_and_high, ◌+◌, ◌-◌, ◌*◌, ◌/◌, ◌%◌, ◌^◌, ◌≤◌, ◌<◌, min, bit_and,
  bit_or, ◌≡◌, refl, sym, ap, subst, ◌∙◌, ◌≢◌, ◌↔◌, ◌⊎◌, inl, inr, Bool, true, false, not, ◌&&◌,
  ◌||◌, Option, none, some, List, [], ◌∷◌, ◌++◌, map, arith, ltb, leb, ◌==◌, if◌then◌else◌, ltb→lt,
  lt→ltb, leb→le, tests, Bool-cases, Option-cases, length, get_elem?, get_or, set, take, drop,
  replicate, length-append, length-set, length-replicate, length-take, length-drop, drop-append,
  take-append, get_elem?-append_left, get_elem?-append_right, get_elem?-take, get_elem?-drop,
  u32_mod, u64_mod, add32, sub32,
}
use fs_nasa_cfs_psp.Status.{ℤ, pos, negsuc}

abbrev pub status_string_length : ℕ
status_string_length = 12

-- The decimal digits of a number, before those in `acc`. The fuel is the number of digits.
unfoldable pub decimal : ℕ → ℕ → List ℕ → List ℕ
decimal zero n acc = acc
decimal (suc fuel) n acc =
    let more = decimal fuel (n / 10) ((48 + n % 10) ∷ acc) in
    if ltb n 10 then (48 + n) ∷ acc else more

-- What "%ld" prints for an `int32`, of at most ten digits.
unfoldable pub print_status : ℤ → List ℕ
unfolding decimal
print_status (pos n) = decimal 10 n []
print_status (negsuc n) = 45 ∷ decimal 10 (n + 1) []

-- `snprintf` of a text: as much of it as there is room for with the NUL behind it.
unfoldable pub snprintf : List ℕ → ℕ → List ℕ → List ℕ
snprintf buf size text =
    let printed = take (size - 1) text in
    if size == 0 then buf else printed ++ (0 ∷ drop (length printed + 1) buf)

-- `none` for a pointer that is NULL, else the string that is returned.
unfoldable pub status_to_string : ℤ → Option (List ℕ) → Option (List ℕ)
unfolding print_status snprintf
status_to_string status none = none
status_to_string status (some buf) = some (snprintf buf status_string_length (print_status status))
