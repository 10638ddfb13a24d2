-- ===== src/Common/Updates.antt =====
-- Queries over updated rows: what an update that keeps a test does to counts, sums and searches.
use boxoffice.Common.{
  ℕ, ◌+◌, ◌≤◌, ◌≡◌, refl, inl, inr, Bool, true, false, some, List, [], ◌∷◌, arith, if◌then◌else◌,
  Bool-cases, select, find_first, any, update_where, sum_by, All, count_by,
}
use boxoffice.Common.Counting.{any_of_count, any_of_found}

vacuous {ℓ} :
    {A : Type ℓ}
    → (p : A → Bool) (a : A) (xs : List A) → any p xs ≡ false
    → All (λ x. p x ≡ true → x ≡ a) xs
vacuous p a [] e = tt
vacuous p a (x ∷ xs) e = (λ px. absurd (cc (px, e)), vacuous p a xs (ground (arith, e)))

pub count_of_any {ℓ} :
    {A : Type ℓ} → (p : A → Bool) (xs : List A) → any p xs ≡ true → 1 ≤ count_by p xs
count_of_any p [] e = cc
count_of_any p (x ∷ xs) e = ground (arith, count_of_any p xs)

full : (b : Bool) (n : ℕ) → b ≡ true → 1 ≤ n → (if b then 1 else 0) + n ≤ 1 → ⊥
full b n e le one = ground arith

rest_le {ℓ} :
    {A : Type ℓ} → (p : A → Bool) (x : A) (xs : List A) → count_by p xs ≤ count_by p (x ∷ xs)
rest_le p x xs = omega arith

module _ {ℓ} {A : Type ℓ} where
  -- At most one row passes: it is the one that was found.
  pub only :
      (test p : A → Bool) (xs : List A) (a : A)
      → find_first test xs ≡ some a
      → p a ≡ true
      → count_by p xs ≤ 1
      → All (λ x. p x ≡ true → x ≡ a) xs
  only test p [] a e pa le = tt
  only test p (x ∷ xs) a e pa le = elim (Bool-cases (test x)) [
    | inl here ↦
        let same : x ≡ a = ground (arith, here, e) in
        (λ _. same, vacuous p a xs (ground (arith, same, pa, le, any_of_count p xs)))
    | inr later ↦
        let found : find_first test xs ≡ some a = ground (arith, later, e) in
        let busy = count_of_any p xs (any_of_found test p xs a found pa) in
        (
          λ px. absurd (full (p x) (count_by p xs) px busy le),
          only test p xs a found pa (omega (arith, le, rest_le p x xs)),
        )
  ]

module _ {ℓ} {A : Type ℓ} (p : A → Bool) (f : A → A) where
  pub count_by-update :
      (q : A → Bool) (xs : List A)
      → All (λ x. p x ≡ true → q (f x) ≡ q x) xs
      → count_by q (update_where p f xs) ≡ count_by q xs
  count_by-update q [] h = refl
  count_by-update q (x ∷ xs) h = ground (arith, h.0, count_by-update q xs h.1)

  pub count_by-update-le :
      (q : A → Bool) (xs : List A)
      → All (λ x. p x ≡ true → q (f x) ≡ true → q x ≡ true) xs
      → count_by q (update_where p f xs) ≤ count_by q xs
  count_by-update-le q [] h = omega arith
  count_by-update-le q (x ∷ xs) h = ground (arith, h.0, count_by-update-le q xs h.1)

  pub any-update :
      (q : A → Bool) (xs : List A)
      → All (λ x. p x ≡ true → q (f x) ≡ q x) xs
      → any q (update_where p f xs) ≡ any q xs
  any-update q [] h = refl
  any-update q (x ∷ xs) h = ground (arith, h.0, any-update q xs h.1)

  pub any-update-le :
      (q : A → Bool) (xs : List A)
      → All (λ x. p x ≡ true → q (f x) ≡ true → q x ≡ true) xs
      → any q (update_where p f xs) ≡ true
      → any q xs ≡ true
  any-update-le q [] h e = cc
  any-update-le q (x ∷ xs) h e = ground (arith, h.0, any-update-le q xs h.1)

  pub sum_by-update :
      (g : A → ℕ) (q : A → Bool) (xs : List A)
      → All (λ x. p x ≡ true → (q (f x) ≡ q x) × (g (f x) ≡ g x)) xs
      → sum_by g (select q (update_where p f xs)) ≡ sum_by g (select q xs)
  sum_by-update g q [] h = refl
  sum_by-update g q (x ∷ xs) h = ground (arith, h.0, sum_by-update g q xs h.1)

  pub All-update :
      (P : A → Type 0) (xs : List A)
      → All (λ x. p x ≡ true → P x → P (f x)) xs
      → All P xs
      → All P (update_where p f xs)
  All-update P [] h a = tt
  All-update P (x ∷ xs) h a = (
    elim (Bool-cases (p x)) [ inl hit ↦ rw hit (h.0 hit a.0) | inr miss ↦ rw miss a.0 ],
    All-update P xs h.1 a.1,
  )
