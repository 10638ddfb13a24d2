-- ===== src/Tests/Staff.antt =====
-- Runs of the model, and the theorems at those inputs: the gates of the staff area and its login form.
use boxoffice.Common.{
  ℕ, ◌+◌, ◌≤◌, ◌≡◌, refl, Bool, true, false, Option, none, some, List, [], ◌∷◌, ◌&&◌, arith,
  if◌then◌else◌, ◌==◌, Bool-cases, inl, inr, ltb, lt→ltb, subst, sym, ◌∙◌,
}
use boxoffice.Common.Results.{some-injective}
use boxoffice.Common.Text.{Text, codes, text_eq, text_eq_iff}
use boxoffice.Accounts.{Role, Membership, is_membership}
use boxoffice.Accounts.Permissions.{
  StaffRequest, Response, Gate, wrapped, is_allowed, is_view, UniqueMemberships, IsFresh,
}
use boxoffice.Accounts.Permissions.Gates.{staff_gates}
use boxoffice.Accounts.Throttle.{Cache, Caller, Limits, Answers}
use boxoffice.Accounts.Throttle.Cap.{live, LawfulCache, Attempt, submissions, guesses, at_most}
use boxoffice.Accounts.Throttle.Cap.Guesses.{capped_guesses}

-- User 1 is a manager of theater 7 and sells tickets in theater 8.
abbrev staff : List Membership
staff =
    record { id = 1; user = 1; organization = 7; role = Role.manager }
    ∷ record { id = 2; user = 1; organization = 8; role = Role.box_office }
    ∷ []

abbrev request_at : Option ℕ → StaffRequest
request_at organization = record {
  organization = organization;
  user = some 1;
  membership_cache = none;
}

manager_at_home : is_view (wrapped Gate.manager_required staff (request_at (some 7))).0 ≡ true
unfolding wrapped boxoffice.Accounts.Permissions.resolve_staff_membership
    boxoffice.Accounts.Permissions.get_membership
manager_at_home = refl

two_theaters :
    (user organization : ℕ)
    → (1 == user && 7 == organization) ≡ true
    → (1 == user && 8 == organization) ≡ false
two_theaters user organization h = ground (arith, h)

one_of_two :
    (a b : Bool) → (a ≡ true → b ≡ false) → (if a then 1 else 0) + ((if b then 1 else 0) + 0) ≤ 1
one_of_two true b h = rw (h refl) (omega arith)
one_of_two false true h = omega arith
one_of_two false false h = omega arith

staff-UniqueMemberships : UniqueMemberships staff
unfolding UniqueMemberships
staff-UniqueMemberships user organization =
    one_of_two (1 == user && 7 == organization) (1 == user && 8 == organization)
      (two_theaters user organization)

-- The cache as a function of the key, with the base class's incr: a failure sets the key again for 300
-- seconds.
abbrev put : (Text → Option (ℕ × ℕ)) → Text → ℕ × ℕ → Text → Option (ℕ × ℕ)
put c k v j = if text_eq k j then some v else c j

abbrev incremented :
    (Text → Option (ℕ × ℕ)) → ℕ → Text → Option (ℕ × ℕ) → Option (ℕ × (Text → Option (ℕ × ℕ)))
incremented c now k none = none
incremented c now k (some (n, end)) =
    if ltb now end then some (n + 1, put c k (n + 1, now + 300)) else none

abbrev table_cache : Cache
table_cache = record {
  C = Text → Option (ℕ × ℕ);
  get = λ c now k. live now (c k);
  incr = λ c now k. incremented c now k (c k);
  set = λ c now k n timeout. put c k (n, now + timeout);
  delete = λ c k j. if text_eq k j then none else c j;
}

same_text : (k : Text) → text_eq k k ≡ true
same_text k = (text_eq_iff k k).1 refl

if_true {ℓ} : {A : Type ℓ} (b : Bool) (o : Option A) → b ≡ true → (if b then o else none) ≡ o
if_true b o h = rw h refl

if_false {ℓ} : {A : Type ℓ} (b : Bool) (o : Option A) → b ≡ false → (if b then o else none) ≡ none
if_false b o h = rw h refl

none-ne-some {ℓ} : {A : Type ℓ} (a : A) → ◌≡◌ {A = Option A} none (some a) → ⊥
none-ne-some a h = cc

incremented_gone :
    (c : Text → Option (ℕ × ℕ)) (now : ℕ) (k : Text) (o : Option (ℕ × ℕ))
    → live now o ≡ none
    → incremented c now k o ≡ none
incremented_gone c now k none h = refl
incremented_gone c now k (some (n, end)) h = ground (arith, h)

incremented_other :
    (c : Text → Option (ℕ × ℕ)) (now : ℕ) (k j : Text) (o : Option (ℕ × ℕ))
    (counted : ℕ × (Text → Option (ℕ × ℕ)))
    → incremented c now k o ≡ some counted
    → text_eq k j ≡ false
    → counted.1 j ≡ c j
incremented_other c now k j none counted h other = cc
incremented_other c now k j (some (n, end)) counted h other = elim (Bool-cases (ltb now end)) [
  | inl in_time ↦
      subst (λ p. p.1 j ≡ c j)
        (some-injective
          (sym (if_true (ltb now end) (some (n + 1, put c k (n + 1, now + 300))) in_time) ∙ h))
        (rw other refl)
  | inr late ↦ absurd (
      none-ne-some counted
        (sym (if_false (ltb now end) (some (n + 1, put c k (n + 1, now + 300))) late) ∙ h))
]

table_laws : LawfulCache table_cache
table_laws = record {
  default_timeout = 300;
  stored = λ c k. c k;
  get-stored = λ c now k. refl;
  incr-gone = λ c now k h. incremented_gone c now k (c k) h;
  incr-live = λ c now k n end h before. (
    put c k (n + 1, now + 300),
    now + 300,
    rw (h, lt→ltb now end before) refl,
    rw (same_text k) refl,
    inr (omega arith),
  );
  incr-other = λ c now k j counted h other. incremented_other c now k j (c k) counted h other;
  set-stored = λ c now k n timeout. rw (same_text k) refl;
  set-other = λ c now k j n timeout other. rw other refl;
  delete-other = λ c k j other. rw other refl;
}

abbrev limits : Limits
limits = record { max_attempts = 2; window_seconds = 900 }

abbrev from_ip : Text → Caller
from_ip ip = record { forwarded_for = ip; remote_addr = codes "127.0.0.1" }

abbrev wrong_at : ℕ → Text → Attempt
wrong_at now ip = record { at = now; caller = from_ip ip; answers = Answers.wrong_password }

abbrev morning : List Attempt
morning =
    wrong_at 100 (codes "9.9.9.9")
    ∷ wrong_at 110 (codes "8.8.8.8, 1.1.1.1")
    ∷ wrong_at 120 (codes "9.9.9.9")
    ∷ wrong_at 130 (codes "9.9.9.9")
    ∷ []

abbrev empty : Text → Option (ℕ × ℕ)
empty k = none

capped_guesses_example :
    guesses table_cache limits (codes "9.9.9.9") empty morning
    ≡ at_most (submissions (codes "9.9.9.9") morning) 2
unfolding table_laws
capped_guesses_example =
    capped_guesses table_cache table_laws limits (codes "9.9.9.9") 100 300 empty morning
      (omega arith) (omega arith) (omega arith) (λ now from. refl)
      (
        (omega arith, omega arith),
        (
          (omega arith, omega arith),
          ((omega arith, omega arith), ((omega arith, omega arith), tt)),
        ),
      )
      ((λ own. refl), ((λ own. refl), ((λ own. refl), ((λ own. refl), tt))))

request_at-IsFresh : IsFresh staff (request_at (some 8))
unfolding IsFresh
request_at-IsFresh user organization found o u set = cc

staff_gates_example :
    (is_view (wrapped Gate.manager_required staff (request_at (some 8))).0 ≡ false)
    × (is_view
          (wrapped Gate.box_office_required staff
            (wrapped Gate.manager_required staff (request_at (some 8))).1).0
        ≡ true)
staff_gates_example =
    staff_gates Gate.manager_required Gate.box_office_required staff (request_at (some 8))
      staff-UniqueMemberships request_at-IsFresh
