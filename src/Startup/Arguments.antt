-- ===== src/Startup/Arguments.antt =====
-- The command line of fsw/pc-linux/src/cfe_psp_start.c, without its flags: each option replaces a
-- setting, which starts from its default.

use fs_nasa_cfs_psp.Base.{
  ℕ, ◌-◌, ◌≤◌, ◌≡◌, refl, ap, ◌∙◌, ◌⊎◌, inl, inr, true, ◌||◌, Option, none, some, List, [], ◌∷◌,
  arith, ltb, if◌then◌else◌, Bool-cases, take,
}
use fs_nasa_cfs_psp.Startup.{
  CommandData, Argument, reset, subtype, cpuname, cpuid, scid, help, unknown, Defaults, same_name,
  po, pr, cpu_name_length, reset_name_length, empty_command_data, process_argument,
  process_arguments, process_argument_defaults, command_line,
}

pub record Settings : Type 0 where
  pub reset_option : Option (List ℕ)
  pub subtype_option : ℕ
  pub name_option : List ℕ
  pub cpu_option : ℕ
  pub spacecraft_option : ℕ

-- A C buffer of that many characters, with the terminating one.
abbrev pub truncated : ℕ → List ℕ → List ℕ
truncated size text = take (size - 1) text

abbrev pub default_settings : Defaults → Settings
default_settings c = record {
  reset_option = none;
  subtype_option = 1;
  name_option = truncated cpu_name_length c.default_cpu_name;
  cpu_option = c.default_cpu_id;
  spacecraft_option = c.default_spacecraft_id;
}

abbrev pub replace : Settings → Argument → Settings
replace s (reset text) = record s { reset_option = some text }
replace s (subtype n) = record s { subtype_option = n }
replace s (cpuname text) = record s { name_option = truncated cpu_name_length text }
replace s (cpuid n) = record s { cpu_option = n }
replace s (scid n) = record s { spacecraft_option = n }
replace s help = s
replace s unknown = s

abbrev pub replace_all : Settings → List Argument → Settings
replace_all s [] = s
replace_all s (a ∷ rest) = replace_all (replace s a) rest

-- The arguments that do not end the program with the usage text.
abbrev pub Accepted : Argument → Type 0
Accepted (reset text) = (text ≡ po) ⊎ (text ≡ pr)
Accepted (subtype n) = (1 ≤ n) × (n ≤ 5)
Accepted (cpuname text) = Unit
Accepted (cpuid n) = Unit
Accepted (scid n) = Unit
Accepted help = ⊥
Accepted unknown = ⊥

abbrev pub AllAccepted : List Argument → Type 0
AllAccepted [] = Unit
AllAccepted (a ∷ rest) = Accepted a × AllAccepted rest

-- The settings that a command record stands for while the loop runs.
abbrev settings : Defaults → CommandData → Settings
settings c d = record {
  reset_option = if d.got_reset_type then some d.reset_type else none;
  subtype_option = if d.got_sub_type then d.sub_type else 1;
  name_option = if d.got_cpu_name then d.cpu_name else truncated cpu_name_length c.default_cpu_name;
  cpu_option = if d.got_cpu_id then d.cpu_id else c.default_cpu_id;
  spacecraft_option = if d.got_spacecraft_id then d.spacecraft_id else c.default_spacecraft_id;
}

-- The settings of a finished command record.
abbrev pub final : CommandData → Settings
final d = record {
  reset_option = if d.got_reset_type then some d.reset_type else none;
  subtype_option = d.sub_type;
  name_option = d.cpu_name;
  cpu_option = d.cpu_id;
  spacecraft_option = d.spacecraft_id;
}

same_name-eq : (xs ys : List ℕ) → same_name xs ys ≡ true → xs ≡ ys
same_name-eq [] [] h = refl
same_name-eq [] (y ∷ ys) h = ground arith
same_name-eq (x ∷ xs) [] h = ground arith
same_name-eq (x ∷ xs) (y ∷ ys) h =
    let head : x ≡ y = ground arith in
    let tail : same_name xs ys ≡ true = ground arith in rw (head, same_name-eq xs ys tail) refl

same_name_self : (xs : List ℕ) → same_name xs xs ≡ true
same_name_self [] = refl
same_name_self (x ∷ xs) = let rest = same_name_self xs in ground arith

-- A text that is truncated after nine characters and then has two had two.
truncated_pair :
    (text : List ℕ) (x y : ℕ) → truncated reset_name_length text ≡ x ∷ y ∷ [] → text ≡ x ∷ y ∷ []
truncated_pair [] x y h = h
truncated_pair (a ∷ []) x y h = h
truncated_pair (a ∷ b ∷ []) x y h = h
truncated_pair (a ∷ b ∷ e ∷ rest) x y h = absurd cc

process_argument-settings :
    (c : Defaults) (d : CommandData) (a : Argument)
    → ((Accepted a)
        × ((d' : CommandData) × (process_argument d a ≡ some d')
            × (settings c d' ≡ replace (settings c d) a)))
      ⊎ ((¬ Accepted a) × (process_argument d a ≡ none))
unfolding process_argument
process_argument-settings c d (reset text) =
    let name = truncated reset_name_length text in
    elim (Bool-cases (same_name name po)) [
      | inl e ↦
          let is = truncated_pair text 80 79 (same_name-eq name po e) in
          rw (e, is) (inl (inl refl, (_, refl, refl)))
      | inr no_po ↦ elim (Bool-cases (same_name name pr)) [
        | inl e ↦
            let is = truncated_pair text 80 82 (same_name-eq name pr e) in
            rw (no_po, e, is) (inl (inr refl, (_, refl, refl)))
        | inr no_pr ↦
            let out : ¬ Accepted (reset text) = λ h. elim h [
              | inl e ↦ let t : same_name name po ≡ true = rw e refl in cc
              | inr e ↦ let t : same_name name pr ≡ true = rw e refl in cc
            ] in
            rw (no_po, no_pr) (inr (out, refl))
      ]
    ]
process_argument-settings c d (subtype n) = elim (Bool-cases (ltb n 1 || ltb 5 n)) [
  | inl bad ↦ let out : ¬ Accepted (subtype n) = λ h. ground arith in rw bad (inr (out, refl))
  | inr good ↦
      let within : Accepted (subtype n) = ground arith in rw good (inl (within, (_, refl, refl)))
]
process_argument-settings c d (cpuname text) = inl (tt, (_, refl, refl))
process_argument-settings c d (cpuid n) = inl (tt, (_, refl, refl))
process_argument-settings c d (scid n) = inl (tt, (_, refl, refl))
process_argument-settings c d help = inr (λ h. h, refl)
process_argument-settings c d unknown = inr (λ h. h, refl)

process_argument_defaults_lem :
    (c : Defaults) (d : CommandData) → final (process_argument_defaults c d) ≡ settings c d
unfolding process_argument_defaults
process_argument_defaults_lem c d = ground arith

process_arguments-settings :
    (c : Defaults) (d : CommandData) (arguments : List Argument)
    → ((AllAccepted arguments)
        × ((d' : CommandData) × (process_arguments d arguments ≡ some d')
            × (settings c d' ≡ replace_all (settings c d) arguments)))
      ⊎ ((¬ AllAccepted arguments) × (process_arguments d arguments ≡ none))
unfolding process_arguments
process_arguments-settings c d [] = inl (tt, (d, refl, refl))
process_arguments-settings c d (a ∷ rest) = elim (process_argument-settings c d a) [
  | inr (out, stop) ↦ rw (stop, process_arguments) (inr (λ h. out h.0, refl))
  | inl (in_range, (d1, go_on, one)) ↦ elim (process_arguments-settings c d1 rest) [
    | inr (out, stop) ↦ rw (go_on, stop, process_arguments) (inr (λ h. out h.1, refl))
    | inl (others, (d2, ends, all)) ↦
        rw (go_on, ends, process_arguments)
          (inl ((in_range, others), (d2, refl, all ∙ ap (λ s. replace_all s rest) one)))
  ]
]

-- The command line, for every list of options: where each is accepted ("PO" or "PR", a subtype from
-- 1 to 5, any name or number), every setting is the last that was given for it, names cut to 31
-- characters, or else its default; where one is not, is unknown, or asks for help, the program
-- ends.
pub command_line-replace_all :
    (c : Defaults) (arguments : List Argument)
    → ((AllAccepted arguments)
        × ((d : CommandData) × (command_line c arguments ≡ some d)
            × (final d ≡ replace_all (default_settings c) arguments)))
      ⊎ ((¬ AllAccepted arguments) × (command_line c arguments ≡ none))
unfolding command_line
command_line-replace_all c arguments =
    elim (process_arguments-settings c empty_command_data arguments) [
      | inl (accepted, (d, e, s)) ↦
          rw (e, command_line)
            (inl (
              accepted,
              (process_argument_defaults c d, refl, process_argument_defaults_lem c d ∙ s),
            ))
      | inr (out, e) ↦ rw (e, command_line) (inr (out, refl))
    ]
