-- ===== src/ExceptionStorage/Reasons.antt =====
-- The reason in an exception summary: CFE_PSP_ExceptionGetSummary_Impl of
-- fsw/pc-linux/src/cfe_psp_exception.c, with Linux' numbers of the signals and of their codes.
use Prim.Native.Char.{code as char_code}
use Prim.Native.String.{String}
use fs_nasa_cfs_psp.Base.{
  ℕ, zero, suc, ◌+◌, ◌-◌, ◌*◌, ◌/◌, ◌%◌, ◌≡◌, ◌≢◌, List, [], ◌∷◌, ◌++◌, ltb, ◌==◌, if◌then◌else◌,
  get_or,
}
use fs_nasa_cfs_psp.Status.{success, ℤ, pos, negsuc}
use fs_nasa_cfs_psp.StatusText.{decimal, snprintf}
use fs_nasa_cfs_psp.Sysmon.Text.{AllDigits, value_from}
use fs_nasa_cfs_psp.ExceptionStorage.{SummaryImpl}

-- What the code reads of the stored `siginfo_t`.
pub record Siginfo : Type 0 where
  pub si_signo : ℕ
  pub si_code : ℤ
  pub si_addr : ℕ

abbrev pub chars : String → List ℕ
chars String.[] = []
chars (String.◌∷◌ c s) = char_code c ∷ chars s

unfoldable pub computed_reason : ℤ → String
computed_reason (negsuc n) = "Unknown SIGFPE"
computed_reason (pos n) =
    if n == 1
    then "Integer divide by zero"
    else if n == 2
    then "Integer overflow"
    else if n == 3
    then "Floating-point divide by zero"
    else if n == 4
    then "Floating-point overflow"
    else if n == 5
    then "Floating-point underflow"
    else if n == 6
    then "Floating-point inexact result"
    else if n == 7
    then "Invalid floating-point operation"
    else if n == 8
    then "Subscript out of range"
    else "Unknown SIGFPE"

-- The hexadecimal digits of a number, before those in `acc`; an `unsigned long` has 16 at most.
unfoldable pub hexadecimal : ℕ → ℕ → List ℕ → List ℕ
hexadecimal zero n acc = acc
hexadecimal (suc fuel) n acc =
    let d = n % 16 in
    let digits = (if ltb d 10 then 48 + d else 87 + d) ∷ acc in
    let more = hexadecimal fuel (n / 16) digits in if ltb n 16 then digits else more

unfoldable pub summary_text : Siginfo → List ℕ
unfolding computed_reason hexadecimal decimal
summary_text si =
    if si.si_signo == 8
    then chars (computed_reason si.si_code) ++ (chars " at ip 0x" ++ hexadecimal 16 si.si_addr [])
    else if si.si_signo == 2
    then chars "Caught SIGINT"
    else chars "Caught Signal " ++ decimal 10 si.si_signo []

-- `siginfo` takes the fields from the bytes of the context, as the platform lays them out.
unfoldable pub linux_summary : (List ℕ → Siginfo) → SummaryImpl
unfolding summary_text snprintf
linux_summary siginfo buffer buf size =
    (success, snprintf buf size (summary_text (siginfo buffer.context_info)))

-- Linux' names for the codes of SIGFPE, from 1 to 8.
abbrev pub fpe_names : List String
fpe_names =
    "Integer divide by zero" ∷ "Integer overflow" ∷ "Floating-point divide by zero"
    ∷ "Floating-point overflow" ∷ "Floating-point underflow" ∷ "Floating-point inexact result"
    ∷ "Invalid floating-point operation" ∷ "Subscript out of range" ∷ []

abbrev pub fpe_name : ℤ → String
fpe_name (negsuc n) = "Unknown SIGFPE"
fpe_name (pos zero) = "Unknown SIGFPE"
fpe_name (pos (suc n)) = get_or fpe_names n "Unknown SIGFPE"

-- The value of lower-case hexadecimal digits.
abbrev pub hex_digit : ℕ → ℕ
hex_digit c = if ltb c 97 then c - 48 else c - 87

abbrev pub hex_from : ℕ → List ℕ → ℕ
hex_from acc [] = acc
hex_from acc (c ∷ cs) = hex_from (16 * acc + hex_digit c) cs

-- The text on a signal: for SIGFPE the name of its code and the address, for SIGINT its own, and for
-- another signal its number.
pub data IsReason (si : Siginfo) (text : List ℕ) : Type 0 where
  fpe :
      (digits : List ℕ)
      → si.si_signo ≡ 8
      → hex_from 0 digits ≡ si.si_addr
      → text ≡ chars (fpe_name si.si_code) ++ (chars " at ip 0x" ++ digits)
      → IsReason si text
  interrupt : si.si_signo ≡ 2 → text ≡ chars "Caught SIGINT" → IsReason si text
  other :
      (digits : List ℕ)
      → si.si_signo ≢ 8
      → si.si_signo ≢ 2
      → AllDigits digits
      → value_from 0 digits ≡ si.si_signo
      → text ≡ chars "Caught Signal " ++ digits
      → IsReason si text
