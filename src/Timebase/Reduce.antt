-- ===== src/Timebase/Reduce.antt =====
-- The reduction of the fraction in `timebase_vxworks_Init`, turn by turn.
use native.Mathlib.Decide.{ℕ_discrete}
use fs_nasa_cfs_psp.Base.{
  ℕ, zero, suc, ◌+◌, ◌-◌, ◌*◌, ◌/◌, ◌≤◌, ◌<◌, ◌≡◌, refl, sym, ap, subst, ◌∙◌, inl, inr, true, false,
  ◌&&◌, some, arith, leb, Bool-cases, u32_mod, add32,
}
use native.Mathlib.Nat.{div-mul-le_self, mul-div_left, div-lt_self, div-le_self}
use fs_nasa_cfs_psp.Timebase.{is_common_factor, reduce}

abbrev pub Divides : ℕ → ℕ → Type 0
Divides k n = (q : ℕ) × (n ≡ q * k)

-- No number from 2 below `f` divides both.
abbrev NoneBelow : ℕ → ℕ → ℕ → Type 0
NoneBelow f n d = (k : ℕ) → 2 ≤ k → k < f → Divides k n → ¬ Divides k d

-- A fraction in lowest terms that a number brings back to `n / d`.
abbrev pub Lowest : ℕ → ℕ → ℕ × ℕ → Type 0
Lowest n d (n', d') =
    ((g : ℕ) × (1 ≤ g) × (n ≡ n' * g) × (d ≡ d' * g))
    × ((k : ℕ) → 2 ≤ k → Divides k n' → ¬ Divides k d')

is_common_factor-Divides :
    (n d f : ℕ)
    → n < u32_mod
    → d < u32_mod
    → 2 ≤ f
    → is_common_factor n d f ≡ true
    → (n ≡ n / f * f) × (d ≡ d / f * f)
unfolding is_common_factor
is_common_factor-Divides n d f hn hd hf e =
    ground (arith, e, div-mul-le_self n f, div-mul-le_self d f)

not_common_factor :
    (n d f : ℕ)
    → n < u32_mod
    → d < u32_mod
    → 2 ≤ f
    → is_common_factor n d f ≡ false
    → Divides f n
    → ¬ Divides f d
unfolding is_common_factor
not_common_factor n d f hn hd hf e (a, ea) (b, eb) =
    let whole_n : n / f * f ≡ n =
      ap (λ x. x / f * f) ea ∙ ap (λ x. x * f) (mul-div_left a (omega arith)) ∙ sym ea in
    let whole_d : d / f * f ≡ d =
      ap (λ x. x / f * f) eb ∙ ap (λ x. x * f) (mul-div_left b (omega arith)) ∙ sym eb in
    ground (arith, e, whole_n, whole_d)

Divides-trans : (k f n : ℕ) → Divides k (n / f) → n ≡ n / f * f → Divides k n
Divides-trans k f n (q, e) whole = (q * f, whole ∙ ap (λ x. x * f) e ∙ grind arith)

Divides-le : (k n : ℕ) → 1 ≤ n → Divides k n → k ≤ n
Divides-le k n h (zero, e) = absurd (omega (arith, e, h))
Divides-le k n h (suc q, e) = grind (arith, e)

no_wrap :
    (n d f : ℕ)
    → n < u32_mod
    → d < u32_mod
    → 2 ≤ f
    → f ≤ n
    → f ≤ d
    → is_common_factor n d f ≡ false
    → add32 f 1 ≡ f + 1
no_wrap n d f hn hd hf fn fd e = elim (ℕ_discrete f (u32_mod - 1)) [
  | yes top ↦ absurd (not_common_factor n d f hn hd hf e (1, omega arith) (1, omega arith))
  | no below ↦ omega arith
]

product_positive : (g f : ℕ) → 1 ≤ g → 2 ≤ f → 1 ≤ g * f
product_positive zero f hg hf = absurd (omega arith)
product_positive (suc g) f hg hf = grind arith

reduce_divides :
    (fuel n d f : ℕ)
    → (leb f n && leb f d) ≡ true
    → is_common_factor n d f ≡ true
    → reduce (suc fuel) n d f ≡ reduce fuel (n / f) (d / f) f
unfolding reduce
reduce_divides fuel n d f goes_on common = rw (goes_on, common) refl

reduce_moves_on :
    (fuel n d f : ℕ)
    → (leb f n && leb f d) ≡ true
    → is_common_factor n d f ≡ false
    → add32 f 1 ≡ f + 1
    → reduce (suc fuel) n d f ≡ reduce fuel n d (f + 1)
unfolding reduce
reduce_moves_on fuel n d f goes_on other next = rw (goes_on, other, next) refl

-- The loop of the reduction, from a factor `f` below which nothing divides both numbers.
reduce-Lowest :
    (fuel n d f : ℕ)
    → 1 ≤ n
    → 1 ≤ d
    → n < u32_mod
    → d < u32_mod
    → 2 ≤ f
    → 1 ≤ fuel
    → n + 2 ≤ fuel + f
    → NoneBelow f n d
    → (r : ℕ × ℕ) × (reduce fuel n d f ≡ some r) × Lowest n d r
unfolding reduce
reduce-Lowest zero n d f n1 d1 hn hd hf enough fuel_enough none_below = absurd (omega arith)
reduce-Lowest (suc fuel) n d f n1 d1 hn hd hf enough fuel_enough none_below =
    elim (Bool-cases (leb f n && leb f d)) [
      | inr ends ↦
          let lowest : (k : ℕ) → 2 ≤ k → Divides k n → ¬ Divides k d = λ k hk kn kd.
            none_below k hk (ground (arith, ends, Divides-le k n n1 kn, Divides-le k d d1 kd)) kn
              kd in
          ((n, d), rw ends refl, ((1, omega arith, omega arith, omega arith), lowest))
      | inl goes_on ↦
          let fn : f ≤ n = ground (arith, goes_on) in
          let fd : f ≤ d = ground (arith, goes_on) in
          elim (Bool-cases (is_common_factor n d f)) [
            | inl common ↦
                let (wn, wd) = is_common_factor-Divides n d f hn hd hf common in
                let less : n / f < n = div-lt_self n1 hf in
                let below : NoneBelow f (n / f) (d / f) = λ k hk kf kn kd.
                  none_below k hk kf (Divides-trans k f n kn wn) (Divides-trans k f d kd wd) in
                let (r, e, ((g, g1, en, ed), lowest)) =
                  reduce-Lowest fuel (n / f) (d / f) f (positive n n1 wn) (positive d d1 wd)
                    (omega (arith, less)) (omega (arith, smaller d)) hf (omega arith) (omega arith)
                    below in
                (
                  r,
                  reduce_divides fuel n d f goes_on common ∙ e,
                  (
                    (g * f, product_positive g f g1 hf, scaled n r.0 g wn en, scaled d r.1 g wd ed),
                    lowest,
                  ),
                )
            | inr other ↦
                let next = no_wrap n d f hn hd hf fn fd other in
                let below : NoneBelow (f + 1) n d = λ k hk kf kn kd. elim (ℕ_discrete k f) [
                  | yes e ↦
                      not_common_factor n d f hn hd hf other (subst (λ k. Divides k n) e kn)
                        (subst (λ k. Divides k d) e kd)
                  | no ne ↦ none_below k hk (omega (arith, kf, ne)) kn kd
                ] in
                let (r, e, lowest) =
                  reduce-Lowest fuel n d (f + 1) n1 d1 hn hd (omega arith) (omega arith)
                    (omega arith) below in
                (r, reduce_moves_on fuel n d f goes_on other next ∙ e, lowest)
          ]
    ]
  where
    positive : (x : ℕ) → 1 ≤ x → x ≡ x / f * f → 1 ≤ x / f
    positive x h e = elim (ℕ_discrete (x / f) 0) [
      | yes z ↦
          let none_left : x ≡ 0 * f = e ∙ ap (λ y. y * f) z in absurd (omega (arith, none_left, h))
      | no ne ↦ omega (arith, ne)
    ]

    scaled : (x y g : ℕ) → x ≡ x / f * f → x / f ≡ y * g → x ≡ y * (g * f)
    scaled x y g whole e = whole ∙ ap (λ z. z * f) e ∙ grind arith

    smaller : (x : ℕ) → x / f ≤ x
    smaller x = div-le_self x f

-- The reduction of the fraction, for a numerator and a denominator of at least 1 that fit in 32 bits:
-- with fuel of one more than the numerator the loop ends; the fraction it gives is in lowest terms
-- and, both parts times one number, the given one.
pub reduce_ends :
    (n d : ℕ)
    → 1 ≤ n
    → 1 ≤ d
    → n < u32_mod
    → d < u32_mod
    → (r : ℕ × ℕ) × (reduce (n + 1) n d 2 ≡ some r) × Lowest n d r
reduce_ends n d n1 d1 hn hd =
    reduce-Lowest (n + 1) n d 2 n1 d1 hn hd (omega arith) (omega arith) (omega arith)
      (λ k hk kf. absurd (omega (arith, hk, kf)))
