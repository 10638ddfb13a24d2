-- ===== src/Venues/Labels/Distinct.antt =====
-- venues/generation.py: no two rows have one label, and no two seats of a row one number.
use boxoffice.Common.{
  ℕ, zero, suc, ◌+◌, ◌/◌, ◌%◌, ◌<◌, ◌≡◌, refl, sym, ap, ◌∙◌, Bool, true, not, ◌&&◌, ◌||◌, [], ◌∷◌,
  arith, ◌==◌, length, replicate,
}
use boxoffice.Common.Text.{Text}
use boxoffice.Venues.{NumberingScheme, RowLabelScheme}
use boxoffice.Venues.Labels.{
  letter_at, base_letters_all, base_letters_skip_io, row_label, seat_number,
}

-- `all(test(place) for place in range(size))`
every_place : (ℕ → Bool) → ℕ → Bool
every_place test zero = true
every_place test (suc size) = let rest = every_place test size in rest && test size

at_place :
    (test : ℕ → Bool) (size place : ℕ)
    → place < size
    → every_place test size ≡ true
    → test place ≡ true
unfolding every_place
at_place test zero place inside checked = absurd (omega (arith, inside))
at_place test (suc size) place inside checked =
    ground (arith, inside, checked, at_place test size place)

-- Letters at two places of an alphabet differ.
abbrev distinct_letters : Text → Bool
distinct_letters letters =
    every_place
      (λ i.
        every_place (λ j. not (letter_at letters i == letter_at letters j) || i == j)
          (length letters))
      (length letters)

skip_io_letters : distinct_letters base_letters_skip_io ≡ true
unfolding every_place
skip_io_letters = refl

all_letters_letters : distinct_letters base_letters_all ≡ true
unfolding every_place
all_letters_letters = refl

same_place : (a b i j : ℕ) → a ≡ b → (not (a == b) || i == j) ≡ true → i ≡ j
same_place a b i j e h = ground (arith, e, h)

first : Text → ℕ
first [] = 0
first (c ∷ cs) = c

letter_injective :
    (letters : Text) (i j : ℕ)
    → distinct_letters letters ≡ true
    → i < length letters
    → j < length letters
    → letter_at letters i ≡ letter_at letters j
    → i ≡ j
letter_injective letters i j d hi hj e =
    let size = length letters in
    let agree : ℕ → ℕ → Bool = λ i j. not (letter_at letters i == letter_at letters j) || i == j in
    let row = at_place (λ i. every_place (agree i) size) size i hi d in
    let cell = at_place (agree i) size j hj row in
    same_place (letter_at letters i) (letter_at letters j) i j e cell

length-replicate : (n a : ℕ) → length (replicate n a) ≡ n
length-replicate zero a = refl
length-replicate (suc n) a = omega (arith, length-replicate n a)

replicate_injective : (m n a b : ℕ) → replicate (suc m) a ≡ replicate (suc n) b → (m ≡ n) × (a ≡ b)
unfolding first
replicate_injective m n a b e =
    let len : suc m ≡ suc n =
      sym (length-replicate (suc m) a) ∙ ap length e ∙ length-replicate (suc n) b in
    (omega (arith, len), ap first e)

successor : (n a : ℕ) → replicate (n + 1) a ≡ replicate (suc n) a
successor n a = let e : n + 1 ≡ suc n = omega arith in ap (λ k. replicate k a) e

repeated_injective : (m n a b : ℕ) → replicate (m + 1) a ≡ replicate (n + 1) b → (m ≡ n) × (a ≡ b)
repeated_injective m n a b e = replicate_injective m n a b (sym (successor m a) ∙ e ∙ successor n b)

size_skip_io : length base_letters_skip_io ≡ 24
size_skip_io = refl

index_skip_io : (i : ℕ) → i % 24 < length base_letters_skip_io
index_skip_io i = let h : i % 24 < 24 = omega arith in omega (arith, h, size_skip_io)

size_all_letters : length base_letters_all ≡ 26
size_all_letters = refl

index_all_letters : (i : ℕ) → i % 26 < length base_letters_all
index_all_letters i = let h : i % 26 < 26 = omega arith in omega (arith, h, size_all_letters)

by_24 : (i j : ℕ) → i / 24 ≡ j / 24 → i % 24 ≡ j % 24 → i ≡ j
by_24 i j q r = omega (arith, q, r)

by_26 : (i j : ℕ) → i / 26 ≡ j / 26 → i % 26 ≡ j % 26 → i ≡ j
by_26 i j q r = omega (arith, q, r)

pub row_label_injective :
    (scheme : RowLabelScheme) (i j : ℕ) → row_label scheme i ≡ row_label scheme j → i ≡ j
unfolding row_label
row_label_injective RowLabelScheme.skip_io i j e =
    let (q, c) = repeated_injective (i / 24) (j / 24) _ _ e in
    let r : i % 24 ≡ j % 24 =
      letter_injective base_letters_skip_io (i % 24) (j % 24) skip_io_letters (index_skip_io i)
        (index_skip_io j) c in
    by_24 i j q r
row_label_injective RowLabelScheme.all_letters i j e =
    let (q, c) = repeated_injective (i / 26) (j / 26) _ _ e in
    let r : i % 26 ≡ j % 26 =
      letter_injective base_letters_all (i % 26) (j % 26) all_letters_letters (index_all_letters i)
        (index_all_letters j) c in
    by_26 i j q r

pub seat_number_injective :
    (scheme : NumberingScheme) (count row i j : ℕ)
    → i < count
    → j < count
    → seat_number scheme count row i ≡ seat_number scheme count row j
    → i ≡ j
unfolding seat_number
seat_number_injective NumberingScheme.odd_desc_left count row i j hi hj e = omega (arith, e, hi, hj)
seat_number_injective NumberingScheme.even_asc_right count row i j hi hj e = omega (arith, e)
seat_number_injective NumberingScheme.hundreds count row i j hi hj e = omega (arith, e)
seat_number_injective NumberingScheme.hundreds_flat count row i j hi hj e = omega (arith, e)
seat_number_injective NumberingScheme.sequential count row i j hi hj e = omega (arith, e)
