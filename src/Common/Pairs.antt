-- ===== src/Common/Pairs.antt =====
-- Lists compared row by row, and rows of a list against the list itself.
use boxoffice.Common.{
  ℕ, zero, suc, subst, ◌≤◌, ◌≡◌, refl, Bool, true, false, List, [], ◌∷◌, arith, ◌==◌, ==_iff,
  ==_refl, if◌then◌else◌, update_where, any, count_by, All, take, insert_by, order_by,
}
use boxoffice.Common.Counting.{any_of_count}

module _ {ℓ} {A : Type ℓ} where
  -- The rows of two lists are related one by one.
  abbrev pub Pairs : (A → A → Type 0) → List A → List A → Type 0
  Pairs R [] [] = Unit
  Pairs R [] (y ∷ ys) = ⊥
  Pairs R (x ∷ xs) [] = ⊥
  Pairs R (x ∷ xs) (y ∷ ys) = R x y × Pairs R xs ys

  pub Pairs-update :
      (R : A → A → Type 0) (p : A → Bool) (f : A → A) (xs : List A)
      → ((x : A) → R x (if p x then f x else x))
      → Pairs R xs (update_where p f xs)
  Pairs-update R p f [] h = tt
  Pairs-update R p f (x ∷ xs) h = (h x, Pairs-update R p f xs h)

  pub Pairs-same : (R : A → A → Type 0) (xs : List A) → ((x : A) → R x x) → Pairs R xs xs
  Pairs-same R [] h = tt
  Pairs-same R (x ∷ xs) h = (h x, Pairs-same R xs h)

  pub Pairs-trans :
      (R S T : A → A → Type 0) (xs ys zs : List A)
      → ((x y z : A) → R x y → S y z → T x z)
      → Pairs R xs ys
      → Pairs S ys zs
      → Pairs T xs zs
  Pairs-trans R S T [] [] [] h r s = tt
  Pairs-trans R S T [] [] (z ∷ zs) h r s = absurd s
  Pairs-trans R S T [] (y ∷ ys) zs h r s = absurd r
  Pairs-trans R S T (x ∷ xs) [] zs h r s = absurd r
  Pairs-trans R S T (x ∷ xs) (y ∷ ys) [] h r s = absurd s
  Pairs-trans R S T (x ∷ xs) (y ∷ ys) (z ∷ zs) h r s =
      (h x y z r.0 s.0, Pairs-trans R S T xs ys zs h r.1 s.1)

  pub any-Pairs :
      (R : A → A → Type 0) (p q : A → Bool) (xs ys : List A)
      → ((x y : A) → R x y → q y ≡ p x)
      → Pairs R xs ys
      → any q ys ≡ any p xs
  any-Pairs R p q [] [] h r = refl
  any-Pairs R p q [] (y ∷ ys) h r = absurd r
  any-Pairs R p q (x ∷ xs) [] h r = absurd r
  any-Pairs R p q (x ∷ xs) (y ∷ ys) h r = ground (arith, h x y r.0, any-Pairs R p q xs ys h r.1)

  pub count_by-Pairs :
      (R : A → A → Type 0) (p q : A → Bool) (xs ys : List A)
      → ((x y : A) → R x y → q y ≡ p x)
      → Pairs R xs ys
      → count_by q ys ≡ count_by p xs
  count_by-Pairs R p q [] [] h r = refl
  count_by-Pairs R p q [] (y ∷ ys) h r = absurd r
  count_by-Pairs R p q (x ∷ xs) [] h r = absurd r
  count_by-Pairs R p q (x ∷ xs) (y ∷ ys) h r =
      ground (arith, h x y r.0, count_by-Pairs R p q xs ys h r.1)

  pub any_le-Pairs :
      (R : A → A → Type 0) (p q : A → Bool) (xs ys : List A)
      → ((x y : A) → R x y → q y ≡ true → p x ≡ true)
      → Pairs R xs ys
      → any q ys ≡ true
      → any p xs ≡ true
  any_le-Pairs R p q [] [] h r e = e
  any_le-Pairs R p q [] (y ∷ ys) h r e = absurd r
  any_le-Pairs R p q (x ∷ xs) [] h r e = absurd r
  any_le-Pairs R p q (x ∷ xs) (y ∷ ys) h r e =
      ground (arith, e, h x y r.0, any_le-Pairs R p q xs ys h r.1)

  pub All-imp : (P Q : A → Type 0) (xs : List A) → ((x : A) → P x → Q x) → All P xs → All Q xs
  All-imp P Q [] h a = tt
  All-imp P Q (x ∷ xs) h a = (h x a.0, All-imp P Q xs h a.1)

  pub All-both :
      (P Q R : A → Type 0) (xs : List A)
      → ((x : A) → P x → Q x → R x)
      → All P xs
      → All Q xs
      → All R xs
  All-both P Q R [] h a b = tt
  All-both P Q R (x ∷ xs) h a b = (h x a.0 b.0, All-both P Q R xs h a.1 b.1)

  pub All-always : (P : A → Type 0) (xs : List A) → ((x : A) → P x) → All P xs
  All-always P [] h = tt
  All-always P (x ∷ xs) h = (h x, All-always P xs h)

  pub All-take : (P : A → Type 0) (n : ℕ) (xs : List A) → All P xs → All P (take n xs)
  All-take P n [] a = tt
  All-take P zero (x ∷ xs) a = tt
  All-take P (suc n) (x ∷ xs) a = (a.0, All-take P n xs a.1)

  All-insert_by :
      (P : A → Type 0) (key : A → ℕ) (x : A) (xs : List A)
      → P x
      → All P xs
      → All P (insert_by key x xs)
  All-insert_by P key x [] h a = (h, tt)
  All-insert_by P key x (y ∷ ys) h a = ground (arith, h, a.0, a.1, All-insert_by P key x ys h a.1)

  pub All-order_by :
      (P : A → Type 0) (key : A → ℕ) (xs : List A) → All P xs → All P (order_by key xs)
  All-order_by P key [] a = tt
  All-order_by P key (x ∷ xs) a =
      All-insert_by P key x (order_by key xs) a.0 (All-order_by P key xs a.1)

  -- A row that passes is one of the list's rows that pass.
  pub All-any :
      (r : A → A → Bool) (xs : List A)
      → ((x : A) → r x x ≡ true)
      → All (λ b. any (r b) xs ≡ true) xs
  All-any r [] h = tt
  All-any r (x ∷ xs) h = (
    ground (arith, h x),
    All-imp (λ b. any (r b) xs ≡ true) (λ b. any (r b) (x ∷ xs) ≡ true) xs
        (λ b e. ground (arith, e)) (All-any r xs h),
  )

  none_of_count : (q : A → Bool) (n : ℕ) (xs : List A) → any q xs ≡ true → 1 ≤ count_by q xs
  none_of_count q n [] e = cc
  none_of_count q n (x ∷ xs) e = ground (arith, none_of_count q n xs)

  none_same :
      (key : A → ℕ) (b : A) (xs : List A)
      → any (λ x. key x == key b) xs ≡ false
      → All (λ x. (key x == key b) ≡ true → x ≡ b) xs
  none_same key b [] e = tt
  none_same key b (x ∷ xs) e = (λ h. absurd (cc (h, e)), none_same key b xs (ground (arith, e)))

  meet :
      (key : A → ℕ) (y b : A) (ys : List A)
      → any (λ x. key x == key y) ys ≡ false
      → any (λ x. key x == key b) ys ≡ true
      → (key y == key b) ≡ true
      → ⊥
  meet key y b ys fresh e h =
      let same : key y ≡ key b = (==_iff (key y) (key b)).0 h in
      cc (subst (λ k. any (λ x. key x == k) ys ≡ false) same fresh, e)

  later :
      (key : A → ℕ) (y : A) (ys : List A)
      → any (λ x. key x == key y) ys ≡ false
      → (bs : List A) → All (λ b. any (λ x. key x == key b) ys ≡ true) bs
      → All (λ b. All (λ x. (key x == key b) ≡ true → x ≡ b) ys) bs
      → All (λ b. All (λ x. (key x == key b) ≡ true → x ≡ b) (y ∷ ys)) bs
  later key y ys fresh [] m a = tt
  later key y ys fresh (b ∷ bs) m a =
      ((λ h. absurd (meet key y b ys fresh m.0 h), a.0), later key y ys fresh bs m.1 a.1)

  -- With keys that occur once, rows with one key are one row.
  pub same_of_key :
      (key : A → ℕ) (xs : List A)
      → ((k : ℕ) → count_by (λ x. key x == k) xs ≤ 1)
      → All (λ b. All (λ x. (key x == key b) ≡ true → x ≡ b) xs) xs
  same_of_key key [] once = tt
  same_of_key key (y ∷ ys) once =
      let fresh : any (λ x. key x == key y) ys ≡ false =
        any_of_count (λ x. key x == key y) ys (ground (arith, once (key y), ==_refl (key y))) in
      (
        (λ _. refl, none_same key y ys fresh),
        later key y ys fresh ys (All-any (λ b x. key x == key b) ys (λ x. ==_refl (key x)))
            (same_of_key key ys (λ k. ground (arith, once k))),
      )
