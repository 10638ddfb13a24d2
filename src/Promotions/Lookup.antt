-- ===== src/Promotions/Lookup.antt =====
-- promotions/services.py's `get_usable_code` and `record_redemption`.
use boxoffice.Common.{
  ℕ, ◌≡◌, ◌≢◌, Bool, true, ◌&&◌, Option, some, List, [], ◌∷◌, arith, ◌==◌, find_first,
}
use boxoffice.Common.Text.{Text, text_eq, text_eq_iff}
use boxoffice.Promotions.{PromoCode, normalize, get_usable_code}

-- What `first()` returns passes the test of the query.
pub find_first-holds {ℓ} :
    {A : Type ℓ} (p : A → Bool) (xs : List A) (a : A) → find_first p xs ≡ some a → p a ≡ true
find_first-holds p [] a h = cc
find_first-holds p (x ∷ xs) a h = ground (arith, find_first-holds p xs a)

-- A lookup never crosses a tenant: what it finds belongs to the organization, and its stored code is
-- the normalized form of what was typed, which is not blank.
pub get_usable_code_scoped :
    (organization : ℕ) (code : Option Text) (promos : List PromoCode) {p : PromoCode}
    → get_usable_code organization code promos ≡ some p
    → (p.organization ≡ organization) × (p.code ≡ normalize code) × (p.code ≢ [])
unfolding get_usable_code
get_usable_code_scoped organization code promos {p} h = ground (
  arith,
  text_eq_iff p.code (normalize code),
  find_first-holds (λ p. p.organization == organization && text_eq p.code (normalize code)) promos
      p,
)
