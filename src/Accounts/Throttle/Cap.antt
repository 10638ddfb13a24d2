-- ===== src/Accounts/Throttle/Cap.antt =====
-- accounts/throttle.py and the staff login form: how many passwords a client can try in a window.
pub mod Budget
pub mod Guesses
use boxoffice.Common.{
  ℕ, zero, suc, ◌+◌, ◌≤◌, ◌<◌, ◌≡◌, refl, sym, subst, ap, ◌∙◌, ◌⊎◌, inl, inr, Bool, true, false,
  not, ◌&&◌, Option, none, some, List, [], ◌∷◌, ◌++◌, arith, leb, ltb, ◌==◌, if◌then◌else◌, or_else,
  Bool-cases, Option-cases, All,
}
use boxoffice.Common.Text.{Text, codes, text_eq}
use boxoffice.Accounts.Throttle.{
  Cache, Caller, Limits, client_ip, throttle_key, is_locked_out, register_failure, clear, Answers,
  LoginOutcome, try_login, login_post,
}

-- What a cache stores under a key: a number, and the time from which it is gone.
abbrev pub live : ℕ → Option (ℕ × ℕ) → Option ℕ
live now none = none
live now (some (n, end)) = if ltb now end then some n else none

-- What the backends of the framework do. `incr` of a live key stores the next number: a backend of its
-- own code keeps the time that the key ends (or has no earlier one), and the base class's, which the
-- file-based and the database backends have, sets the key again with the default timeout. No entry is evicted before its time.
pub record LawfulCache (cache : Cache) : Type 0 where
  pub default_timeout : ℕ
  pub stored : cache.C → Text → Option (ℕ × ℕ)
  pub get-stored : (c : cache.C) (now : ℕ) (k : Text) → cache.get c now k ≡ live now (stored c k)
  pub incr-gone :
      (c : cache.C) (now : ℕ) (k : Text) → live now (stored c k) ≡ none → cache.incr c now k ≡ none
  pub incr-live :
      (c : cache.C) (now : ℕ) (k : Text) (n end : ℕ)
      → stored c k ≡ some (n, end)
      → now < end
      → (c' : cache.C) × (end' : ℕ) × (cache.incr c now k ≡ some (n + 1, c'))
        × (stored c' k ≡ some (n + 1, end'))
        × ((end ≤ end') ⊎ (now + default_timeout ≤ end'))
  pub incr-other :
      (c : cache.C) (now : ℕ) (k j : Text) (counted : ℕ × cache.C)
      → cache.incr c now k ≡ some counted
      → text_eq k j ≡ false
      → stored counted.1 j ≡ stored c j
  pub set-stored :
      (c : cache.C) (now : ℕ) (k : Text) (n timeout : ℕ)
      → stored (cache.set c now k n timeout) k ≡ some (n, now + timeout)
  pub set-other :
      (c : cache.C) (now : ℕ) (k j : Text) (n timeout : ℕ)
      → text_eq k j ≡ false
      → stored (cache.set c now k n timeout) j ≡ stored c j
  pub delete-other :
      (c : cache.C) (k j : Text) → text_eq k j ≡ false → stored (cache.delete c k) j ≡ stored c j

-- A POST of the login form.
pub record Attempt : Type 0 where
  pub at : ℕ
  pub caller : Caller
  pub answers : Answers

abbrev pub is_filled : Answers → Bool
is_filled Answers.invalid_form = false
is_filled Answers.wrong_password = true
is_filled Answers.other_theater = true
is_filled Answers.accepted = true

abbrev pub is_accepted : Answers → Bool
is_accepted Answers.invalid_form = false
is_accepted Answers.wrong_password = false
is_accepted Answers.other_theater = false
is_accepted Answers.accepted = true

-- The outcomes after `authenticate` was asked.
abbrev pub is_checked : LoginOutcome → Bool
is_checked LoginOutcome.locked = false
is_checked LoginOutcome.form_again = false
is_checked LoginOutcome.incorrect = true
is_checked LoginOutcome.no_access = true
is_checked LoginOutcome.signed_in = true

abbrev pub is_from : Text → Attempt → Bool
is_from ip a = text_eq (client_ip a.caller) ip

-- The attempts of a client that hold an email and a password.
abbrev pub submissions : Text → List Attempt → ℕ
submissions ip [] = 0
submissions ip (a ∷ attempts) =
    (if is_from ip a && is_filled a.answers then 1 else 0) + submissions ip attempts

-- The attempts of a client whose password is checked, in a run of all attempts in turn.
abbrev pub guesses : (cache : Cache) → Limits → Text → cache.C → List Attempt → ℕ
guesses cache limits ip c [] = 0
guesses cache limits ip c (a ∷ attempts) =
    let done = login_post cache limits c a.at a.caller a.answers in
    (if is_from ip a && is_checked done.0 then 1 else 0) + guesses cache limits ip done.1 attempts

abbrev pub at_most : ℕ → ℕ → ℕ
at_most a b = if leb a b then a else b
