-- ===== src/Common/Decimal/Injective.antt =====
-- A decimal text reads back as its number, so two numbers have two texts.
use boxoffice.Common.{
  ℕ, zero, suc, ◌+◌, ◌-◌, ◌*◌, ◌/◌, ◌%◌, ◌≤◌, ◌<◌, ◌≡◌, refl, sym, ap, ◌∙◌, inl, inr, [], ◌∷◌, ◌++◌,
  arith, ltb, ltb→lt, Bool-cases,
}
use boxoffice.Common.Text.{Text}
use boxoffice.Common.Decimal.{digits, decimal}

read : ℕ → Text → ℕ
read acc [] = acc
read acc (c ∷ cs) = read (acc * 10 + (c - 48)) cs

read-append : (acc : ℕ) (xs ys : Text) → read acc (xs ++ ys) ≡ read (read acc xs) ys
unfolding read
read-append acc [] ys = refl
read-append acc (x ∷ xs) ys = read-append (acc * 10 + (x - 48)) xs ys

last_digit : (q d : ℕ) → d < 10 → read q ((48 + d) ∷ []) ≡ q * 10 + d
unfolding read
last_digit q d h = omega (arith, h)

read-digits : (fuel n : ℕ) → n < fuel → read 0 (digits fuel n) ≡ n
unfolding read
read-digits zero n h = absurd (omega (arith, h))
read-digits (suc fuel) n h = elim (Bool-cases (ltb n 10)) [
  | inl small ↦ rw small (omega (arith, ltb→lt n 10 small))
  | inr large ↦
      let big : 10 ≤ n = ground (arith, large) in
      rw large (
        read-append 0 (digits fuel (n / 10)) ((48 + n % 10) ∷ [])
        ∙ ap (λ q. read q ((48 + n % 10) ∷ [])) (read-digits fuel (n / 10) (omega (arith, h, big)))
        ∙ last_digit (n / 10) (n % 10) (omega arith)
        ∙ omega arith)
]

read-decimal : (n : ℕ) → read 0 (decimal n) ≡ n
unfolding decimal
read-decimal n = read-digits (n + 1) n (omega arith)

pub decimal_injective : (m n : ℕ) → decimal m ≡ decimal n → m ≡ n
decimal_injective m n e = sym (read-decimal m) ∙ ap (read 0) e ∙ read-decimal n
