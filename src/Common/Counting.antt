-- ===== src/Common/Counting.antt =====
-- Counts and sums over filtered and updated rows: what a deletion, an insertion or an update does to
-- the result of a query.
use boxoffice.Common.{
  ℕ, ◌+◌, ◌≤◌, ◌≡◌, refl, Bool, true, false, ◌&&◌, ◌||◌, none, some, List, [], ◌∷◌, ◌++◌, arith,
  if◌then◌else◌, &&_split, select, find_first, any, update_where, sum_by, All, count_by,
}

module _ {ℓ} {A : Type ℓ} where
  pub find_first-holds :
      (p : A → Bool) (xs : List A) (a : A) → find_first p xs ≡ some a → p a ≡ true
  find_first-holds p [] a h = cc
  find_first-holds p (x ∷ xs) a h = ground (arith, find_first-holds p xs a)

  -- A row that was found makes a query that it passes non-empty.
  pub any_of_found :
      (test q : A → Bool) (xs : List A) (a : A)
      → find_first test xs ≡ some a
      → q a ≡ true
      → any q xs ≡ true
  any_of_found test q [] a e qa = cc
  any_of_found test q (x ∷ xs) a e qa = ground (arith, any_of_found test q xs a)

  pub All-select : (P : A → Type 0) (q : A → Bool) (xs : List A) → All P xs → All P (select q xs)
  All-select P q [] h = tt
  All-select P q (x ∷ xs) h = ground (arith, All-select P q xs h.1)

  pub All-append : (P : A → Type 0) (xs ys : List A) → All P xs → All P ys → All P (xs ++ ys)
  All-append P [] ys h k = k
  All-append P (x ∷ xs) ys h k = (h.0, All-append P xs ys h.1 k)

  pub sum_by-append : (f : A → ℕ) (xs ys : List A) → sum_by f (xs ++ ys) ≡ sum_by f xs + sum_by f ys
  sum_by-append f [] ys = omega arith
  sum_by-append f (x ∷ xs) ys = omega (arith, sum_by-append f xs ys)

  pub count_by-append :
      (p : A → Bool) (xs ys : List A) → count_by p (xs ++ ys) ≡ count_by p xs + count_by p ys
  count_by-append p [] ys = omega arith
  count_by-append p (x ∷ xs) ys = omega (arith, count_by-append p xs ys)

  pub any-append : (p : A → Bool) (xs ys : List A) → any p (xs ++ ys) ≡ (any p xs || any p ys)
  any-append p [] ys = refl
  any-append p (x ∷ xs) ys = ground (arith, any-append p xs ys)

  pub select-append :
      (p : A → Bool) (xs ys : List A) → select p (xs ++ ys) ≡ select p xs ++ select p ys
  select-append p [] ys = refl
  select-append p (x ∷ xs) ys = ground (arith, select-append p xs ys)

  -- A row that passes `p` passes `q`: the sums and counts follow.
  pub sum_by-select-le :
      (f : A → ℕ) (p q : A → Bool) (xs : List A)
      → All (λ x. p x ≡ true → q x ≡ true) xs
      → sum_by f (select p xs) ≤ sum_by f (select q xs)
  sum_by-select-le f p q [] h = omega arith
  sum_by-select-le f p q (x ∷ xs) h = ground (arith, h.0, sum_by-select-le f p q xs h.1)

  pub count_by-le :
      (p q : A → Bool) (xs : List A)
      → All (λ x. p x ≡ true → q x ≡ true) xs
      → count_by p xs ≤ count_by q xs
  count_by-le p q [] h = omega arith
  count_by-le p q (x ∷ xs) h = ground (arith, h.0, count_by-le p q xs h.1)

  pub any_mono :
      (p q : A → Bool) (xs : List A)
      → All (λ x. p x ≡ true → q x ≡ true) xs
      → any p xs ≡ true
      → any q xs ≡ true
  any_mono p q [] h e = cc
  any_mono p q (x ∷ xs) h e = ground (arith, h.0, any_mono p q xs h.1)

  pub select-select :
      (p q : A → Bool) (xs : List A) → select p (select q xs) ≡ select (λ x. q x && p x) xs
  select-select p q [] = refl
  select-select p q (x ∷ xs) = ground (arith, select-select p q xs)

  pub count_by-select :
      (p q : A → Bool) (xs : List A) → count_by p (select q xs) ≡ count_by (λ x. q x && p x) xs
  count_by-select p q [] = refl
  count_by-select p q (x ∷ xs) = ground (arith, count_by-select p q xs)

  pub any-select : (p q : A → Bool) (xs : List A) → any p (select q xs) ≡ any (λ x. q x && p x) xs
  any-select p q [] = refl
  any-select p q (x ∷ xs) = ground (arith, any-select p q xs)

  -- No row passes exactly if the count is 0.
  pub count_by-zero : (p : A → Bool) (xs : List A) → any p xs ≡ false → count_by p xs ≡ 0
  count_by-zero p [] h = refl
  count_by-zero p (x ∷ xs) h = ground (arith, count_by-zero p xs)

  pub any_of_count : (p : A → Bool) (xs : List A) → count_by p xs ≡ 0 → any p xs ≡ false
  any_of_count p [] h = refl
  any_of_count p (x ∷ xs) h = ground (arith, any_of_count p xs)

  All-right : (p q : A → Bool) (xs : List A) → All (λ x. (p x && q x) ≡ true → q x ≡ true) xs
  All-right p q [] = tt
  All-right p q (x ∷ xs) = (λ h. (&&_split (p x) (q x) h).1, All-right p q xs)

  -- A row that was found is left out by a deletion that fails it.
  pub count_by-delete :
      (test p q : A → Bool) (xs : List A) (a : A)
      → find_first test xs ≡ some a
      → q a ≡ true
      → p a ≡ false
      → count_by (λ x. p x && q x) xs + 1 ≤ count_by q xs
  count_by-delete test p q [] a e qa pa = cc
  count_by-delete test p q (x ∷ xs) a e qa pa =
      ground (
        arith,
        count_by-delete test p q xs a,
        count_by-le (λ x. p x && q x) q xs (All-right p q xs),
      )

  pub sum_by-delete :
      (f : A → ℕ) (test p q : A → Bool) (xs : List A) (a : A)
      → find_first test xs ≡ some a
      → q a ≡ true
      → p a ≡ false
      → sum_by f (select (λ x. p x && q x) xs) + f a ≤ sum_by f (select q xs)
  sum_by-delete f test p q [] a e qa pa = cc
  sum_by-delete f test p q (x ∷ xs) a e qa pa = ground (
    arith,
    sum_by-delete f test p q xs a,
    sum_by-select-le f (λ x. p x && q x) q xs (All-right p q xs),
  )

  -- The first row that passes, after an update that leaves the test alone.
  pub find_first-update :
      (p q : A → Bool) (f : A → A) (xs : List A)
      → ((x : A) → p (f x) ≡ p x)
      → find_first p (update_where q f xs)
        ≡ (elim (find_first p xs) [ none ↦ none | some a ↦ some (if q a then f a else a) ])
  find_first-update p q f [] h = refl
  find_first-update p q f (x ∷ xs) h = ground (arith, h x, find_first-update p q f xs h)
