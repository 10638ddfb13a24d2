-- ===== src/Common/Keys.antt =====
-- Primary keys: each row has its own, and all were handed out before the next one.
use boxoffice.Common.{
  ℕ, ◌+◌, ◌≤◌, ◌<◌, ◌≡◌, refl, ap, inl, inr, Bool, true, List, [], ◌∷◌, ◌++◌, arith, ◌==◌, ==_iff,
  Bool-cases, update_where, All, count_by,
}
use boxoffice.Common.Counting.{All-append, count_by-append}
use boxoffice.Common.Updates.{count_by-update, All-update}

module _ {ℓ} {A : Type ℓ} (key : A → ℕ) where
  pub record Keyed (next : ℕ) (rows : List A) : Type ℓ where
    pub once : (k : ℕ) → count_by (λ x. key x == k) rows ≤ 1
    pub below : All (λ x. key x < next) rows

  below-weaken :
      (n m : ℕ) → n ≤ m → (xs : List A) → All (λ x. key x < n) xs → All (λ x. key x < m) xs
  below-weaken n m le [] a = tt
  below-weaken n m le (x ∷ xs) a = (omega (arith, le, a.0), below-weaken n m le xs a.1)

  none_beyond :
      (n k : ℕ)
      → n ≤ k
      → (xs : List A) → All (λ x. key x < n) xs
      → count_by (λ x. key x == k) xs ≡ 0
  none_beyond n k le [] a = refl
  none_beyond n k le (x ∷ xs) a = ground (arith, none_beyond n k le xs a.1, a.0)

  pub Keyed-weaken : (n m : ℕ) → n ≤ m → (xs : List A) → Keyed n xs → Keyed m xs
  Keyed-weaken n m le xs h = record { once = h.once; below = below-weaken n m le xs h.below }

  -- `create` hands out the next key.
  pub Keyed-create :
      (n : ℕ) (xs : List A) (x : A) → key x ≡ n → Keyed n xs → Keyed (n + 1) (xs ++ x ∷ [])
  Keyed-create n xs x e h = record {
    once = λ k. rw (count_by-append (λ x. key x == k) xs (x ∷ [])) (elim (Bool-cases (key x == k)) [
      | inl same ↦
          let eq = (==_iff (key x) k).0 same in
          rw same (omega (arith, none_beyond n k (omega (arith, eq, e)) xs h.below))
      | inr other ↦ rw other (omega (arith, h.once k))
    ]);
    below =
        All-append (λ x. key x < n + 1) xs (x ∷ [])
          (below-weaken n (n + 1) (omega arith) xs h.below) (omega (arith, e), tt);
  }

  same_keys :
      (k : ℕ) (p : A → Bool) (f : A → A)
      → ((x : A) → key (f x) ≡ key x)
      → (xs : List A) → All (λ x. p x ≡ true → (key (f x) == k) ≡ (key x == k)) xs
  same_keys k p f e [] = tt
  same_keys k p f e (x ∷ xs) = (λ _. ap (λ i. i == k) (e x), same_keys k p f e xs)

  still_below :
      (n : ℕ) (p : A → Bool) (f : A → A)
      → ((x : A) → key (f x) ≡ key x)
      → (xs : List A) → All (λ x. p x ≡ true → key x < n → key (f x) < n) xs
  still_below n p f e [] = tt
  still_below n p f e (x ∷ xs) = (λ _ h. omega (arith, h, e x), still_below n p f e xs)

  -- `update` writes other columns.
  pub Keyed-update :
      (n : ℕ) (p : A → Bool) (f : A → A) (xs : List A)
      → ((x : A) → key (f x) ≡ key x)
      → Keyed n xs
      → Keyed n (update_where p f xs)
  Keyed-update n p f xs e h = record {
    once = λ k. rw (count_by-update p f (λ x. key x == k) xs (same_keys k p f e xs)) (h.once k);
    below = All-update p f (λ x. key x < n) xs (still_below n p f e xs) h.below;
  }
