-- ===== src/Venues/Spec/Names.antt =====
-- venues/chart_parsing.py: the loop over suffixes ends with a name that is not taken.
use boxoffice.Common.{
  subst, ==_iff, ℕ, zero, suc, ◌+◌, ◌≤◌, ◌<◌, ◌≡◌, refl, sym, ap, ◌∙◌, inl, inr, Bool, true, false,
  List, [], ◌∷◌, ◌==◌, if◌then◌else◌, length, arith, Bool-cases,
}
use boxoffice.Common.Text.{Text, text_eq, text_eq_iff, lower}
use boxoffice.Venues.Spec.{is_one_of}
use boxoffice.Venues.Spec.Validate.{suffixed, free_name, unique_name}
use boxoffice.Venues.Spec.Suffixes.{suffixes_apart}

-- The list less the first place where a name stands.
drop_name : Text → List Text → List Text
drop_name key [] = []
drop_name key (k ∷ ks) = let rest = drop_name key ks in if text_eq key k then ks else k ∷ rest

length-drop_name :
    (key : Text) (ks : List Text)
    → is_one_of key ks ≡ true
    → length (drop_name key ks) + 1 ≡ length ks
unfolding drop_name
length-drop_name key [] h = cc
length-drop_name key (k ∷ ks) h = ground (arith, h, length-drop_name key ks)

text_eq_refl : (s : Text) → text_eq s s ≡ true
text_eq_refl s = (text_eq_iff s s).1 refl

true-ne-false : true ≡ false → ⊥
true-ne-false e = cc

-- Another name is still there.
still_there :
    (key other : Text) (ks : List Text)
    → text_eq key other ≡ false
    → is_one_of other ks ≡ true
    → is_one_of other (drop_name key ks) ≡ true
unfolding drop_name
still_there key other [] apart h = cc
still_there key other (k ∷ ks) apart h = elim (Bool-cases (text_eq key k)) [
  | inl here ↦ elim (Bool-cases (text_eq other k)) [
    | inl also ↦ absurd (
        true-ne-false (
          sym (text_eq_refl key)
          ∙ ap (text_eq key) ((text_eq_iff key k).0 here ∙ sym ((text_eq_iff other k).0 also))
          ∙ apart))
    | inr not_this ↦ rw here (ground (arith, h, not_this))
  ]
  | inr later ↦ rw later (ground (arith, h, still_there key other ks apart))
]

-- More suffixes than there are taken names cannot all make a taken name.
some_free :
    (base : Text) (n k : ℕ) (seen : List Text)
    → length seen < n
    → ((i : ℕ) → k ≤ i → i < k + n → is_one_of (lower (suffixed base i)) seen ≡ true)
    → ⊥
some_free base zero k seen few taken = absurd (omega (arith, few))
some_free base (suc n) k seen few taken =
    let here = taken k (omega arith) (omega arith) in
    some_free base n (k + 1) (drop_name (lower (suffixed base k)) seen)
      (omega (arith, few, length-drop_name _ seen here))
      (λ i from until.
        still_there _ _ seen (suffixes_apart base k i (omega (arith, from)))
          (taken i (omega (arith, from)) (omega (arith, until))))

-- If the loop ends at a taken name, it has met a taken one at each step.
Taken : ℕ → Text → ℕ → Text → List Text → Type 0
Taken fuel base suffix name seen =
    (is_one_of (lower name) seen ≡ true)
    × ((i : ℕ) → suffix ≤ i → i < suffix + fuel → is_one_of (lower (suffixed base i)) seen ≡ true)

next-Taken :
    (fuel : ℕ) (base : Text) (suffix : ℕ) (name : Text) (seen : List Text)
    → is_one_of (lower name) seen ≡ true
    → Taken fuel base (suffix + 1) (suffixed base suffix) seen
    → Taken (suc fuel) base suffix name seen
unfolding Taken
next-Taken fuel base suffix name seen here later = (
  here,
  λ i from until. elim (Bool-cases (suffix == i)) [
    | inl this ↦
        subst (λ j. is_one_of (lower (suffixed base j)) seen ≡ true) ((==_iff suffix i).0 this)
          later.0
    | inr other ↦ later.1 i (ground (arith, from, other)) (omega (arith, until))
  ],
)

here_only :
    (base : Text) (suffix : ℕ) (name : Text) (seen : List Text)
    → is_one_of (lower name) seen ≡ true
    → Taken zero base suffix name seen
unfolding Taken
here_only base suffix name seen taken = (taken, λ i from until. absurd (omega (arith, from, until)))

skip_taken :
    (b : Bool) (rest name : Text) (seen : List Text)
    → b ≡ true
    → is_one_of (lower (if b then rest else name)) seen ≡ true
    → is_one_of (lower rest) seen ≡ true
skip_taken true rest name seen h e = e
skip_taken false rest name seen h e = cc

stop_free :
    (b : Bool) (rest name : Text) (seen : List Text)
    → b ≡ false
    → is_one_of (lower name) seen ≡ false
    → is_one_of (lower (if b then rest else name)) seen ≡ true
    → ⊥
stop_free true rest name seen h free e = cc
stop_free false rest name seen h free e = true-ne-false (sym e ∙ free)

free_name-Taken :
    (fuel : ℕ) (base : Text) (suffix : ℕ) (name : Text) (seen : List Text)
    → is_one_of (lower (free_name fuel base suffix name seen)) seen ≡ true
    → Taken fuel base suffix name seen
unfolding free_name
free_name-Taken zero base suffix name seen taken = here_only base suffix name seen taken
free_name-Taken (suc fuel) base suffix name seen taken =
    elim (Bool-cases (is_one_of (lower name) seen)) [
      | inl here ↦ next-Taken fuel base suffix name seen here (
          free_name-Taken fuel base (suffix + 1) (suffixed base suffix) seen
            (skip_taken _ _ _ seen here taken))
      | inr free ↦ absurd (stop_free _ _ _ seen free free taken)
    ]

candidates :
    (base : Text) (seen : List Text)
    → is_one_of (lower (free_name (length seen + 2) base 2 base seen)) seen ≡ true
    → (i : ℕ) → 2 ≤ i
    → i < 2 + (length seen + 2)
    → is_one_of (lower (suffixed base i)) seen ≡ true
unfolding Taken
candidates base seen taken = (free_name-Taken (length seen + 2) base 2 base seen taken).1

-- The loop that avoids the names that are taken ends, for every name and whatever is taken: it leaves
-- a name that is not among them.
pub unique_name_free :
    (base : Text) (seen : List Text) → is_one_of (lower (unique_name base seen)) seen ≡ false
unfolding unique_name
unique_name_free base seen = elim (Bool-cases (is_one_of (lower (unique_name base seen)) seen)) [
  | inl taken ↦
      absurd (some_free base (length seen + 2) 2 seen (omega arith) (candidates base seen taken))
  | inr free ↦ free
]
