-- ===== src/Accounts/Throttle.antt =====
-- accounts/throttle.py: the count of failed attempts of a client, kept in the cache for a window of time.
-- The cache is the web framework's: its operations are a parameter.
pub mod Cap
use boxoffice.Common.{
  ℕ, Bool, false, not, Option, none, some, [], ◌∷◌, ◌++◌, leb, ltb, ◌==◌, if◌then◌else◌, or_else,
}
use boxoffice.Common.Text.{Text, codes, is_blank, strip}

-- `cache.get`, `cache.incr` (none: it raises ValueError), `cache.set` with a timeout, and
-- `cache.delete`, each at a time.
pub record Cache : Type 1 where
  pub C : Type 0
  pub get : C → ℕ → Text → Option ℕ
  pub incr : C → ℕ → Text → Option (ℕ × C)
  pub set : C → ℕ → Text → ℕ → ℕ → C
  pub delete : C → Text → C

-- What the throttle reads of a request's META.
pub record Caller : Type 0 where
  pub forwarded_for : Text
  pub remote_addr : Text

-- LOGIN_RATELIMIT_MAX_ATTEMPTS and LOGIN_RATELIMIT_WINDOW_SECONDS.
pub record Limits : Type 0 where
  pub max_attempts : ℕ
  pub window_seconds : ℕ

-- `text.split(",")[0]`
abbrev pub before_comma : Text → Text
before_comma [] = []
before_comma (c ∷ s) = let rest = before_comma s in if c == b',' then [] else c ∷ rest

-- `a or b`
abbrev pub or_text : Text → Text → Text
or_text a b = if is_blank a then b else a

unfoldable pub client_ip : Caller → Text
client_ip caller =
    if not (is_blank caller.forwarded_for)
    then strip (before_comma caller.forwarded_for)
    else or_text caller.remote_addr (codes "unknown")

unfoldable pub throttle_key : Text → Caller → Text
throttle_key scope caller = codes "loginthrottle:" ++ scope ++ codes ":" ++ client_ip caller

abbrev pub enabled : Limits → Bool
enabled limits = ltb 0 limits.max_attempts

module _ (cache : Cache) (limits : Limits) where
  open cache use {C, get, incr, set, delete}

  unfoldable pub is_locked_out : C → ℕ → Text → Caller → Bool
  is_locked_out c now scope caller =
      let count = or_else (get c now (throttle_key scope caller)) 0 in
      if not (enabled limits) then false else leb limits.max_attempts count

  abbrev pub fresh_window : C → ℕ → Text → ℕ × C
  fresh_window c now key = (1, set c now key 1 limits.window_seconds)

  unfoldable pub register_failure : C → ℕ → Text → Caller → ℕ × C
  register_failure c now scope caller =
      let key = throttle_key scope caller in
      if not (enabled limits)
      then (0, c)
      else elim (incr c now key) [ some counted ↦ counted | none ↦ fresh_window c now key ]

  unfoldable pub clear : C → Text → Caller → C
  clear c scope caller = if not (enabled limits) then c else delete c (throttle_key scope caller)

-- What becomes of a POST of the staff login form: the form, the password and the membership.
pub data Answers : Type 0 where
  invalid_form wrong_password other_theater accepted : Answers

pub data LoginOutcome : Type 0 where
  locked form_again incorrect no_access signed_in : LoginOutcome

module _ (cache : Cache) (limits : Limits) where
  open cache use {C}

  abbrev pub failed : C → ℕ → Caller → LoginOutcome → LoginOutcome × C
  failed c now caller outcome =
      (outcome, (register_failure cache limits c now (codes "staff-login") caller).1)

  abbrev pub try_login : C → ℕ → Caller → Answers → LoginOutcome × C
  try_login c now caller Answers.invalid_form = (LoginOutcome.form_again, c)
  try_login c now caller Answers.wrong_password = failed c now caller LoginOutcome.incorrect
  try_login c now caller Answers.other_theater = failed c now caller LoginOutcome.no_access
  try_login c now caller Answers.accepted =
      (LoginOutcome.signed_in, clear cache limits c (codes "staff-login") caller)

  -- The POST branch of login_view.
  unfoldable pub login_post : C → ℕ → Caller → Answers → LoginOutcome × C
  login_post c now caller answers =
      if is_locked_out cache limits c now (codes "staff-login") caller
      then (LoginOutcome.locked, c)
      else try_login c now caller answers
