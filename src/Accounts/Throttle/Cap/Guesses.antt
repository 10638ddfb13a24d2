-- ===== src/Accounts/Throttle/Cap/Guesses.antt =====
-- accounts/throttle.py and the staff login form: the passwords that are checked in a span of time.
use boxoffice.Common.{
  ℕ, zero, suc, ◌+◌, ◌≤◌, ◌<◌, ◌≡◌, refl, sym, ◌∙◌, inl, inr, Bool, true, false, none, List, [],
  ◌∷◌, arith, ◌==◌, if◌then◌else◌, Bool-cases, All,
}
use boxoffice.Common.Text.{Text, codes, text_eq}
use boxoffice.Accounts.Throttle.{
  Cache, Caller, Limits, client_ip, is_locked_out, Answers, login_post,
}
use boxoffice.Accounts.Throttle.Cap.{
  LawfulCache, Attempt, is_filled, is_accepted, is_checked, is_from, submissions, guesses, at_most,
}
use boxoffice.Accounts.Throttle.Cap.Budget.{key_of, Left, locked-Left, register-Left, other-Left}

abbrev one_if : Bool → ℕ
one_if b = if b then 1 else 0

count_on :
    (g f s b b' : ℕ) → f ≤ 1 → g + b' ≡ b → g ≡ at_most f b → g + at_most s b' ≡ at_most (f + s) b
count_on g f s b b' one sum least = ground (arith, one, sum, least)

one_if-le : (b : Bool) → one_if b ≤ 1
one_if-le b = ground arith

positive : (b : ℕ) → (suc b == 0) ≡ false
positive b = ground arith

least_none : (b : ℕ) → 0 ≡ at_most 0 b
least_none b = ground arith

least_one : (b : ℕ) → 1 ≡ at_most 1 (suc b)
least_one b = ground arith

module _ (cache : Cache) (laws : LawfulCache cache) (limits : Limits) (ip : Text) (start span : ℕ)
    (some_attempts : 1 ≤ limits.max_attempts) (in_window : span ≤ limits.window_seconds)
    (in_default : span ≤ laws.default_timeout) where
  -- An attempt of the client: what is checked is taken from what is left.
  OwnStep : cache.C → ℕ → ℕ → Caller → Answers → Type 0
  OwnStep c b now caller answers =
      (b' : ℕ) × Left cache laws limits ip start span
        (login_post cache limits c now caller answers).1 b'
      × (one_if (is_checked (login_post cache limits c now caller answers).0) + b' ≡ b)
      × (one_if (is_checked (login_post cache limits c now caller answers).0)
          ≡ at_most (one_if (is_filled answers)) b)

  module _ (c : cache.C) (now : ℕ) (caller : Caller) (own : text_eq (client_ip caller) ip ≡ true)
      (from : start ≤ now) (until : now < start + span) where
    login-none-Left :
        (answers : Answers)
        → Left cache laws limits ip start span c 0
        → OwnStep c 0 now caller answers
    unfolding OwnStep login_post
    login-none-Left answers left =
        rw
          (locked-Left cache laws limits ip start span some_attempts in_window in_default c 0 now
            caller own left from until)
          (
            0,
            left,
            refl,
            elim (Bool-cases (is_filled answers)) [
              | inl full ↦ rw full refl
              | inr empty ↦ rw empty refl
            ],
          )

    not_locked :
        (b : ℕ)
        → Left cache laws limits ip start span c (suc b)
        → is_locked_out cache limits c now (codes "staff-login") caller ≡ false
    not_locked b left =
        locked-Left cache laws limits ip start span some_attempts in_window in_default c (suc b) now
          caller own left from until
        ∙ positive b

    login-some-Left :
        (answers : Answers) (b : ℕ)
        → is_accepted answers ≡ false
        → Left cache laws limits ip start span c (suc b)
        → OwnStep c (suc b) now caller answers
    unfolding OwnStep login_post
    login-some-Left Answers.invalid_form b not left =
        rw (not_locked b left) (suc b, left, omega arith, least_none (suc b))
    login-some-Left Answers.wrong_password b not left = rw (not_locked b left) (
      b,
      register-Left cache laws limits ip start span some_attempts in_window in_default c b now
          caller own left from until,
      omega arith,
      least_one b,
    )
    login-some-Left Answers.other_theater b not left = rw (not_locked b left) (
      b,
      register-Left cache laws limits ip start span some_attempts in_window in_default c b now
          caller own left from until,
      omega arith,
      least_one b,
    )
    login-some-Left Answers.accepted b not left = cc

  own_step :
      (c : cache.C) (b now : ℕ) (caller : Caller) (answers : Answers)
      → text_eq (client_ip caller) ip ≡ true
      → start ≤ now
      → now < start + span
      → is_accepted answers ≡ false
      → Left cache laws limits ip start span c b
      → OwnStep c b now caller answers
  own_step c zero now caller answers own from until not left =
      login-none-Left c now caller own from until answers left
  own_step c (suc b) now caller answers own from until not left =
      login-some-Left c now caller own from until answers b not left

  -- From b left: the passwords checked are the submissions, up to b.
  guesses-Left :
      (attempts : List Attempt) (c : cache.C) (b : ℕ)
      → Left cache laws limits ip start span c b
      → All (λ a. (start ≤ a.at) × (a.at < start + span)) attempts
      → All (λ a. is_from ip a ≡ true → is_accepted a.answers ≡ false) attempts
      → guesses cache limits ip c attempts ≡ at_most (submissions ip attempts) b
  unfolding OwnStep
  guesses-Left [] c b left inside refused = ground arith
  guesses-Left (a ∷ attempts) c b left inside refused = elim (Bool-cases (is_from ip a)) [
    | inl own ↦
        let (b', after, sum, least) =
          own_step c b a.at a.caller a.answers own inside.0.0 inside.0.1 (refused.0 own) left in
        let rest =
          guesses-Left attempts (login_post cache limits c a.at a.caller a.answers).1 b' after
            inside.1 refused.1 in
        rw (own, rest)
          (count_on _ _ (submissions ip attempts) b b' (one_if-le (is_filled a.answers)) sum least)
    | inr other ↦
        let rest =
          guesses-Left attempts (login_post cache limits c a.at a.caller a.answers).1 b
            (other-Left cache laws limits ip start span c a.at a.caller other a.answers b left)
            inside.1 refused.1 in
        rw (other, rest)
          (count_on 0 0 (submissions ip attempts) b b (omega arith) (omega arith) (least_none b))
  ]

-- Attempts of many clients in a span of time, none of a given client's being accepted, and nothing
-- counted for it from the start on: if the limit is on and the span is neither longer than the window
-- nor than the cache's default timeout, the passwords of the client that are checked are as many as it
-- submits, up to the limit, whatever the others do.
pub capped_guesses :
    (cache : Cache) (laws : LawfulCache cache) (limits : Limits) (ip : Text) (start span : ℕ)
    (c : cache.C) (attempts : List Attempt)
    → 1 ≤ limits.max_attempts
    → span ≤ limits.window_seconds
    → span ≤ laws.default_timeout
    → ((now : ℕ) → start ≤ now → cache.get c now (key_of ip) ≡ none)
    → All (λ a. (start ≤ a.at) × (a.at < start + span)) attempts
    → All (λ a. is_from ip a ≡ true → is_accepted a.answers ≡ false) attempts
    → guesses cache limits ip c attempts ≡ at_most (submissions ip attempts) limits.max_attempts
unfolding Left
capped_guesses cache laws limits ip start span c attempts on in_window in_default gone inside
      refused =
    guesses-Left cache laws limits ip start span on in_window in_default attempts c
      limits.max_attempts
      (inl (λ now from. sym (laws.get-stored c now (key_of ip)) ∙ gone now from, refl)) inside
      refused
