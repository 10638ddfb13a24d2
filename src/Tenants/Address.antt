-- ===== src/Tenants/Address.antt =====
-- tenants/middleware.py: the hosts that lead to a theater.
use boxoffice.Common.{
  ℕ, zero, suc, ◌+◌, ◌-◌, ◌≤◌, ◌≡◌, refl, sym, ap, subst, ◌∙◌, inl, inr, ◌↔◌, Bool, true, false,
  ◌||◌, Option, none, some, List, [], ◌∷◌, ◌++◌, if◌then◌else◌, or_else, length, take, find_first,
  any, arith, Bool-cases,
}
use boxoffice.Common.Text.{Text, codes, text_eq, text_eq_iff, is_blank, lower}
use boxoffice.Common.Results.{Result, ok, err, ok-injective, some-injective, err-ne-ok}
use boxoffice.Common.Counting.{find_first-holds}
use boxoffice.Tenants.{
  Tenant, Settings, WebRequest, NotFound, before_colon, ends_with, chop, subdomain_from_host,
  dev_override_subdomain, found_tenant, is_served_on, resolve,
}

length-append : (s t : Text) → length (s ++ t) ≡ length s + length t
length-append [] t = omega arith
length-append (c ∷ s) t = omega (arith, length-append s t)

same_length : (s suffix : Text) → text_eq s suffix ≡ true → length suffix ≤ length s
same_length s suffix h = omega (arith, ap length ((text_eq_iff s suffix).0 h))

later : (a b : Bool) → a ≡ false → (a || b) ≡ true → b ≡ true
later a b h e = ground (arith, h, e)

either_way : (a b : Bool) → a ≡ true → (a || b) ≡ true
either_way a b h = rw h refl

ends_with-length : (s suffix : Text) → ends_with s suffix ≡ true → length suffix ≤ length s
ends_with-length [] suffix h = same_length [] suffix h
ends_with-length (c ∷ s) suffix h = elim (Bool-cases (text_eq (c ∷ s) suffix)) [
  | inl whole ↦ same_length (c ∷ s) suffix whole
  | inr part ↦ omega (arith, ends_with-length s suffix (later _ _ part h))
]

take_none : (n : ℕ) (s : Text) → n ≡ 0 → take n s ≡ []
take_none n [] e = refl
take_none zero (c ∷ s) e = refl
take_none (suc n) (c ∷ s) e = absurd (omega (arith, e))

take_more : (n m c : ℕ) (s : Text) → n ≡ suc m → take n (c ∷ s) ≡ c ∷ take m s
take_more n m c s e = rw e refl

-- A text with the suffix is what is left of it, and the suffix.
chop-append : (s suffix : Text) → ends_with s suffix ≡ true → chop s suffix ++ suffix ≡ s
chop-append [] suffix h = sym ((text_eq_iff [] suffix).0 h)
chop-append (c ∷ s) suffix h = elim (Bool-cases (text_eq (c ∷ s) suffix)) [
  | inl whole ↦
      let same = (text_eq_iff (c ∷ s) suffix).0 whole in
      rw (take_none (suc (length s) - length suffix) (c ∷ s) (omega (arith, ap length same)))
        (sym same)
  | inr part ↦
      let rest = later _ _ part h in
      let fits = ends_with-length s suffix rest in
      rw
        (take_more (suc (length s) - length suffix) (length s - length suffix) c s
          (omega (arith, fits)))
        (ap (λ r. c ∷ r) (chop-append s suffix rest))
]

ends_with-append : (s suffix : Text) → ends_with (s ++ suffix) suffix ≡ true
ends_with-append [] [] = refl
ends_with-append [] (c ∷ suffix) =
    either_way (text_eq (c ∷ suffix) (c ∷ suffix)) (ends_with suffix (c ∷ suffix))
      ((text_eq_iff (c ∷ suffix) (c ∷ suffix)).1 refl)
ends_with-append (c ∷ s) suffix = ground (arith, ends_with-append s suffix)

take-append : (s t : Text) → take (length s) (s ++ t) ≡ s
take-append [] [] = refl
take-append [] (c ∷ t) = refl
take-append (c ∷ s) t = ap (λ r. c ∷ r) (take-append s t)

chop_of_append : (s suffix : Text) → chop (s ++ suffix) suffix ≡ s
chop_of_append s suffix =
    ap (λ n. take n (s ++ suffix)) (omega (arith, length-append s suffix)) ∙ take-append s suffix

abbrev dotted : Settings → Text
dotted settings = codes "." ++ lower settings.base_domain

longer : (s base : Text) → text_eq (s ++ (codes "." ++ base)) base ≡ false
longer s base = elim (Bool-cases (text_eq (s ++ (codes "." ++ base)) base)) [
  | inl same ↦ absurd (
      omega (
        arith,
        ap length ((text_eq_iff (s ++ (codes "." ++ base)) base).0 same),
        length-append s (codes "." ++ base),
      ))
  | inr apart ↦ apart
]

-- The branch that is not blank.
chosen :
    (whole ends : Bool) (left host suffix : Text)
    → (ends ≡ true → left ++ suffix ≡ host)
    → is_blank (if whole then [] else if ends then left else []) ≡ false
    → host ≡ (if whole then [] else if ends then left else []) ++ suffix
chosen true ends left host suffix h full = cc
chosen false true left host suffix h full = sym (h refl)
chosen false false left host suffix h full = cc

-- The theater's own address gives its subdomain, and no other host does.
pub subdomain_from_host-own :
    (settings : Settings) (host s : Text)
    → lower (before_colon host) ≡ s ++ dotted settings
    → subdomain_from_host settings host ≡ s
unfolding subdomain_from_host
subdomain_from_host-own settings host s e =
    rw (e, longer s (lower settings.base_domain), ends_with-append s (dotted settings))
      (chop_of_append s (dotted settings))

pub own-subdomain_from_host :
    (settings : Settings) (host : Text)
    → is_blank (subdomain_from_host settings host) ≡ false
    → lower (before_colon host) ≡ subdomain_from_host settings host ++ dotted settings
unfolding subdomain_from_host
own-subdomain_from_host settings host full =
    let name = lower (before_colon host) in
    chosen (text_eq name (lower settings.base_domain)) (ends_with name (dotted settings))
      (chop name (dotted settings)) name (dotted settings) (chop-append name (dotted settings)) full

-- A row of the theater's subdomain, which is in use.
unfoldable pub IsServed : Settings → List Tenant → Tenant → Type 0
IsServed settings tenants t =
    (find_first (is_served_on t.subdomain) tenants ≡ some t)
    × (t.is_active ≡ true)
    × (is_blank t.subdomain ≡ false)
    × (any (text_eq t.subdomain) settings.reserved_subdomains ≡ false)

none_for_tenant :
    (t : Tenant) → ◌≡◌ {A = Result NotFound (Option Tenant)} (ok none) (ok (some t)) → ⊥
none_for_tenant t e = cc

found_active : (u : Tenant) → u.is_active ≡ true → found_tenant (some u) ≡ ok (some u)
found_active u h = rw h refl

found_inactive :
    (u : Tenant) → u.is_active ≡ false → found_tenant (some u) ≡ err NotFound.inactive_tenant
found_inactive u h = rw h refl

in_use : (u t : Tenant) → found_tenant (some u) ≡ ok (some t) → (u ≡ t) × (u.is_active ≡ true)
in_use u t e = elim (Bool-cases u.is_active) [
  | inl active ↦ (some-injective (ok-injective (sym (found_active u active) ∙ e)), active)
  | inr inactive ↦ absurd (err-ne-ok (sym (found_inactive u inactive) ∙ e))
]

resolved :
    (blank reserved : Bool) (row : Option Tenant) (t : Tenant)
    → (if blank || reserved then ok none else found_tenant row) ≡ ok (some t)
    → (blank ≡ false) × (reserved ≡ false) × (row ≡ some t) × (t.is_active ≡ true)
resolved true reserved row t e = absurd (none_for_tenant t e)
resolved false true row t e = absurd (none_for_tenant t e)
resolved false false none t e = cc
resolved false false (some u) t e =
    let (same, active) = in_use u t e in
    (refl, refl, ap some same, subst (λ v. v.is_active ≡ true) same active)

-- `_resolve` of a subdomain.
abbrev at : Settings → List Tenant → Text → Result NotFound (Option Tenant)
at settings tenants s =
    if is_blank s || any (text_eq s) settings.reserved_subdomains
    then ok none
    else found_tenant (find_first (is_served_on s) tenants)

-- What a resolved request says of its host.
served :
    (settings : Settings) (tenants : List Tenant) (host : Text) (t : Tenant)
    → at settings tenants (subdomain_from_host settings host) ≡ ok (some t)
    → (lower (before_colon host) ≡ t.subdomain ++ dotted settings) × IsServed settings tenants t
unfolding IsServed
served settings tenants host t e =
    let s = subdomain_from_host settings host in
    let (full, free, row, active) =
      resolved (is_blank s) (any (text_eq s) settings.reserved_subdomains)
        (find_first (is_served_on s) tenants) t e in
    let same : t.subdomain ≡ s =
      (text_eq_iff t.subdomain s).0 (find_first-holds (is_served_on s) tenants t row) in
    (
      own-subdomain_from_host settings host full ∙ ap (λ u. u ++ dotted settings) (sym same),
      (
        subst (λ u. find_first (is_served_on u) tenants ≡ some t) (sym same) row,
        active,
        subst (λ u. is_blank u ≡ false) (sym same) full,
        subst (λ u. any (text_eq u) settings.reserved_subdomains ≡ false) (sym same) free,
      ),
    )

no_override :
    (settings : Settings) (request : WebRequest)
    → settings.debug ≡ false
    → dev_override_subdomain settings request ≡ none
unfolding dev_override_subdomain
no_override settings request production = rw production refl

production_resolve :
    (settings : Settings) (tenants : List Tenant) (request : WebRequest)
    → settings.debug ≡ false
    → resolve settings tenants request
      ≡ at settings tenants (subdomain_from_host settings request.host)
unfolding resolve
production_resolve settings tenants request production =
    ap (λ o. at settings tenants (or_else o (subdomain_from_host settings request.host)))
      (no_override settings request production)

-- In production (no DEBUG): a request is for a theater exactly if its host, without a port and in lower case,
-- is the theater's subdomain before the platform's domain, the subdomain is not reserved, and the row that
-- has it is that theater's and is active.
pub resolve_iff :
    (settings : Settings) (tenants : List Tenant) (request : WebRequest) (t : Tenant)
    → settings.debug ≡ false
    → (resolve settings tenants request ≡ ok (some t)) ↔ (
        (lower (before_colon request.host)
          ≡ t.subdomain ++ (codes "." ++ lower settings.base_domain))
        × IsServed settings tenants t)
unfolding IsServed
resolve_iff settings tenants request t production = (
  λ e.
      served settings tenants request.host t
        (sym (production_resolve settings tenants request production) ∙ e),
  λ (own, (row, active, full, free)).
      production_resolve settings tenants request production
      ∙ ap (at settings tenants) (subdomain_from_host-own settings request.host t.subdomain own)
      ∙ rw (full, free, row, active) refl,
)
