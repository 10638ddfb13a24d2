-- ===== src/Venues/Spec/Suffixes.antt =====
-- venues/chart_parsing.py: two suffixes make two section names, whatever their case.
use boxoffice.Common.{
  ◌%◌, ◌/◌, ℕ, zero, suc, ◌+◌, ◌<◌, ◌≡◌, refl, sym, ap, ◌∙◌, inl, inr, false, [], ◌∷◌, ◌++◌, arith,
  Bool-cases, ltb,
}
use boxoffice.Common.Text.{Text, codes, text_eq, text_eq_iff, lower, lower_char}
use boxoffice.Common.Decimal.{digits, decimal}
use boxoffice.Common.Decimal.Injective.{decimal_injective}
use boxoffice.Venues.Spec.Validate.{suffixed}

lower-append : (s t : Text) → lower (s ++ t) ≡ lower s ++ lower t
lower-append [] t = refl
lower-append (c ∷ s) t = ap (λ r. lower_char c ∷ r) (lower-append s t)

small_char : (d : ℕ) → d < 10 → lower_char (48 + d) ≡ 48 + d
small_char d h = ground (arith, h)

-- Digits have no case.
lower-digits : (fuel n : ℕ) → lower (digits fuel n) ≡ digits fuel n
lower-digits zero n = refl
lower-digits (suc fuel) n = elim (Bool-cases (ltb n 10)) [
  | inl small ↦ rw small (ap (λ c. c ∷ []) (small_char (n % 10) (omega arith)))
  | inr large ↦ rw large (
      lower-append (digits fuel (n / 10)) ((48 + n % 10) ∷ [])
      ∙ ap (λ s. s ++ lower ((48 + n % 10) ∷ [])) (lower-digits fuel (n / 10))
      ∙ ap (λ c. digits fuel (n / 10) ++ c ∷ []) (small_char (n % 10) (omega arith)))
]

drop_prefix : (p s t : Text) → p ++ s ≡ p ++ t → s ≡ t
drop_prefix [] s t e = e
drop_prefix (c ∷ p) s t e = drop_prefix p s t (cc)

nonempty-append : (s : Text) (c : ℕ) → [] ≡ s ++ c ∷ [] → ⊥
nonempty-append [] c e = cc
nonempty-append (x ∷ s) c e = cc

drop_last : (s t : Text) (c : ℕ) → s ++ c ∷ [] ≡ t ++ c ∷ [] → s ≡ t
drop_last [] [] c e = refl
drop_last [] (y ∷ t) c e = absurd (nonempty-append t c cc)
drop_last (x ∷ s) [] c e = absurd (nonempty-append s c cc)
drop_last (x ∷ s) (y ∷ t) c e =
    let rest : s ≡ t = drop_last s t c cc in let first : x ≡ y = cc in cc

lower-decimal : (n : ℕ) → lower (decimal n) ≡ decimal n
unfolding decimal
lower-decimal n = lower-digits (n + 1) n

lower_form :
    (base : Text) (k : ℕ)
    → lower (suffixed base k) ≡ lower base ++ codes " (" ++ decimal k ++ codes ")"
lower_form base k =
    lower-append (base ++ codes " (" ++ decimal k) (codes ")")
    ∙ ap (λ s. s ++ codes ")") (lower-append (base ++ codes " (") (decimal k))
    ∙ ap (λ s. s ++ lower (decimal k) ++ codes ")") (lower-append base (codes " ("))
    ∙ ap (λ s. lower base ++ codes " (" ++ s ++ codes ")") (lower-decimal k)

-- Two suffixes make two names, whatever their case.
lower-suffixed : (base : Text) (j k : ℕ) → lower (suffixed base j) ≡ lower (suffixed base k) → j ≡ k
lower-suffixed base j k e =
    let same = sym (lower_form base j) ∙ e ∙ lower_form base k in
    let heads =
      drop_last (lower base ++ codes " (" ++ decimal j) (lower base ++ codes " (" ++ decimal k) b')'
        same in
    decimal_injective j k (drop_prefix (lower base ++ codes " (") (decimal j) (decimal k) heads)

pub suffixes_apart :
    (base : Text) (j k : ℕ)
    → j < k
    → text_eq (lower (suffixed base j)) (lower (suffixed base k)) ≡ false
suffixes_apart base j k less =
    elim (Bool-cases (text_eq (lower (suffixed base j)) (lower (suffixed base k)))) [
      | inl same ↦
          let equal =
            lower-suffixed base j k
              ((text_eq_iff (lower (suffixed base j)) (lower (suffixed base k))).0 same) in
          absurd (omega (arith, less, equal))
      | inr apart ↦ apart
    ]
