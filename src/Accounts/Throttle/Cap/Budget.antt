-- ===== src/Accounts/Throttle/Cap/Budget.antt =====
-- accounts/throttle.py: what is left of a client's attempts in a window, and that each failure takes one.
use boxoffice.Common.{
  ℕ, suc, ◌+◌, ◌≤◌, ◌<◌, ◌≡◌, refl, sym, subst, ap, ◌∙◌, ◌⊎◌, inl, inr, true, false, none, some,
  ◌++◌, arith, leb, ltb, ◌==◌, or_else, Bool-cases, Option-cases, lt→ltb,
}
use boxoffice.Common.Text.{Text, codes, text_eq, text_eq_iff}
use boxoffice.Accounts.Throttle.{
  Cache, Caller, Limits, client_ip, throttle_key, is_locked_out, register_failure, clear, Answers,
  try_login, login_post,
}
use boxoffice.Accounts.Throttle.Cap.{live, LawfulCache}

unfoldable pub key_of : Text → Text
key_of ip = codes "loginthrottle:" ++ codes "staff-login" ++ codes ":" ++ ip

-- Clients with two addresses have two keys.
keys_apart :
    (caller : Caller) (ip : Text)
    → text_eq (client_ip caller) ip ≡ false
    → text_eq (throttle_key (codes "staff-login") caller) (key_of ip) ≡ false
unfolding throttle_key key_of
keys_apart caller ip h = h

same_key :
    (caller : Caller) (ip : Text)
    → text_eq (client_ip caller) ip ≡ true
    → throttle_key (codes "staff-login") caller ≡ key_of ip
unfolding throttle_key key_of
same_key caller ip h = ap key_of ((text_eq_iff (client_ip caller) ip).0 h)

live-before : (now n end : ℕ) → now < end → live now (some (n, end)) ≡ some n
live-before now n end h = rw (lt→ltb now end h) refl

module _ (cache : Cache) (laws : LawfulCache cache) (limits : Limits) (ip : Text)
    (start span : ℕ) where
  -- The client has b attempts left: nothing is stored for it from the start of the span on, or a count
  -- that stays to the end of the span.
  unfoldable pub Left : cache.C → ℕ → Type 0
  Left c b =
      (((now : ℕ) → start ≤ now → live now (laws.stored c (key_of ip)) ≡ none)
        × (b ≡ limits.max_attempts))
      ⊎ ((n : ℕ) × (end : ℕ) × (laws.stored c (key_of ip) ≡ some (n, end))
          × (start + span ≤ end)
          × (b + n ≡ limits.max_attempts))

  same_stored :
      (c c' : cache.C) (b : ℕ)
      → laws.stored c' (key_of ip) ≡ laws.stored c (key_of ip)
      → Left c b
      → Left c' b
  unfolding Left
  same_stored c c' b same left = rw same left

  tally :
      (c : cache.C) (b now : ℕ)
      → Left c b
      → start ≤ now
      → now < start + span
      → (n : ℕ) × (or_else (cache.get c now (key_of ip)) 0 ≡ n) × (b + n ≡ limits.max_attempts)
  unfolding Left
  tally c b now (inl (gone, full)) from until = (
    0,
    ap (λ o. or_else o 0) (laws.get-stored c now (key_of ip) ∙ gone now from),
    omega (arith, full),
  )
  tally c b now (inr (n, end, kept, long, sum)) from until = (
    n,
    ap (λ o. or_else o 0)
        (laws.get-stored c now (key_of ip)
          ∙ ap (live now) kept
          ∙ live-before now n end (omega (arith, until, long))),
    sum,
  )

  module _ (some_attempts : 1 ≤ limits.max_attempts) (in_window : span ≤ limits.window_seconds)
      (in_default : span ≤ laws.default_timeout) where
    is_enabled : ltb 0 limits.max_attempts ≡ true
    is_enabled = lt→ltb 0 limits.max_attempts (omega (arith, some_attempts))

    locked_by : (b n max : ℕ) → b + n ≡ max → leb max n ≡ (b == 0)
    locked_by b n max sum = ground (arith, sum)

    -- A client is locked out exactly when nothing is left.
    pub locked-Left :
        (c : cache.C) (b now : ℕ) (caller : Caller)
        → text_eq (client_ip caller) ip ≡ true
        → Left c b
        → start ≤ now
        → now < start + span
        → is_locked_out cache limits c now (codes "staff-login") caller ≡ (b == 0)
    unfolding is_locked_out
    locked-Left c b now caller own left from until =
        let (n, count, sum) = tally c b now left from until in
        rw (is_enabled, same_key caller ip own, count) (locked_by b n limits.max_attempts sum)

    stays :
        (end end' now : ℕ)
        → (end ≤ end') ⊎ (now + laws.default_timeout ≤ end')
        → start + span ≤ end
        → start ≤ now
        → start + span ≤ end'
    stays end end' now (inl kept) long from = omega (arith, kept, long)
    stays end end' now (inr again) long from = omega (arith, again, from, in_default)

    -- A failure takes one.
    pub register-Left :
        (c : cache.C) (b now : ℕ) (caller : Caller)
        → text_eq (client_ip caller) ip ≡ true
        → Left c (suc b)
        → start ≤ now
        → now < start + span
        → Left (register_failure cache limits c now (codes "staff-login") caller).1 b
    unfolding register_failure Left
    register-Left c b now caller own (inl (gone, full)) from until =
        rw (is_enabled, same_key caller ip own, laws.incr-gone c now (key_of ip) (gone now from))
          (inr (
            1,
            now + limits.window_seconds,
            subst
                (λ k.
                  laws.stored (cache.set c now k 1 limits.window_seconds) (key_of ip)
                  ≡ some (1, now + limits.window_seconds))
                (sym (same_key caller ip own))
                (laws.set-stored c now (key_of ip) 1 limits.window_seconds),
            omega (arith, from, in_window),
            omega (arith, full),
          ))
    register-Left c b now caller own (inr (n, end, kept, long, sum)) from until =
        let (c', end', counted, after, later) =
          laws.incr-live c now (key_of ip) n end kept (omega (arith, until, long)) in
        rw (is_enabled, same_key caller ip own, counted)
          (inr (n + 1, end', after, stays end end' now later long from, omega (arith, sum)))

  module _ (c : cache.C) (now : ℕ) (caller : Caller)
      (other : text_eq (client_ip caller) ip ≡ false) where
    apart : text_eq (throttle_key (codes "staff-login") caller) (key_of ip) ≡ false
    apart = keys_apart caller ip other

    register-other :
        laws.stored (register_failure cache limits c now (codes "staff-login") caller).1 (key_of ip)
        ≡ laws.stored c (key_of ip)
    unfolding register_failure
    register-other = elim (Bool-cases (ltb 0 limits.max_attempts)) [
      | inl on ↦
          elim (Option-cases (cache.incr c now (throttle_key (codes "staff-login") caller))) [
            | inl absent ↦
                rw (on, absent) (laws.set-other c now _ (key_of ip) 1 limits.window_seconds apart)
            | inr (counted, got) ↦
                rw (on, got) (laws.incr-other c now _ (key_of ip) counted got apart)
          ]
      | inr off ↦ rw off refl
    ]

    clear-other :
        laws.stored (clear cache limits c (codes "staff-login") caller) (key_of ip)
        ≡ laws.stored c (key_of ip)
    unfolding clear
    clear-other = elim (Bool-cases (ltb 0 limits.max_attempts)) [
      | inl on ↦ rw on (laws.delete-other c _ (key_of ip) apart)
      | inr off ↦ rw off refl
    ]

    try-other :
        (answers : Answers)
        → laws.stored (try_login cache limits c now caller answers).1 (key_of ip)
          ≡ laws.stored c (key_of ip)
    try-other Answers.invalid_form = refl
    try-other Answers.wrong_password = register-other
    try-other Answers.other_theater = register-other
    try-other Answers.accepted = clear-other

    -- The attempt of another client takes nothing.
    pub other-Left :
        (answers : Answers) (b : ℕ)
        → Left c b
        → Left (login_post cache limits c now caller answers).1 b
    unfolding login_post
    other-Left answers b left =
        elim (Bool-cases (is_locked_out cache limits c now (codes "staff-login") caller)) [
          | inl locked ↦ rw locked left
          | inr open_ ↦ rw open_ (
              same_stored c (try_login cache limits c now caller answers).1 b (try-other answers)
                left)
        ]
