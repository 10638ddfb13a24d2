-- ===== src/Tenants.antt =====
-- tenants/middleware.py: the theater that a request is for, by the subdomain of its host, and the time
-- zone that its response is rendered in.
pub mod Address
use boxoffice.Common.{
  ℕ, ◌-◌, Bool, not, ◌||◌, Option, none, some, List, [], ◌∷◌, ◌++◌, ◌==◌, if◌then◌else◌, or_else,
  length, take, find_first, any,
}
use boxoffice.Common.Text.{Text, codes, text_eq, is_blank, lower}
use boxoffice.Common.Results.{Result, ok, err}

-- The columns of Organization that the middleware reads.
pub record Tenant : Type 0 where
  pub id : ℕ
  pub subdomain : Text
  pub timezone : Text
  pub is_active : Bool

pub record Settings : Type 0 where
  pub debug : Bool
  pub base_domain : Text
  pub reserved_subdomains : List Text

-- The host, the query parameter `_tenant` and the header X-Tenant.
pub record WebRequest : Type 0 where
  pub host : Text
  pub tenant_param : Option Text
  pub tenant_header : Option Text

-- Http404 on its two grounds.
pub data NotFound : Type 0 where
  unknown_tenant inactive_tenant : NotFound

-- `s.split(":")[0]`
abbrev pub before_colon : Text → Text
before_colon [] = []
before_colon (c ∷ s) = let rest = before_colon s in if c == b':' then [] else c ∷ rest

-- `s.endswith(suffix)`
abbrev pub ends_with : Text → Text → Bool
ends_with [] suffix = text_eq [] suffix
ends_with (c ∷ s) suffix = text_eq (c ∷ s) suffix || ends_with s suffix

-- `s[:-len(suffix)]`, of a suffix that is not empty.
abbrev pub chop : Text → Text → Text
chop s suffix = take (length s - length suffix) s

unfoldable pub subdomain_from_host : Settings → Text → Text
subdomain_from_host settings raw =
    let host = lower (before_colon raw) in
    let base_domain = lower settings.base_domain in
    let suffix = codes "." ++ base_domain in
    if text_eq host base_domain then [] else if ends_with host suffix then chop host suffix else []

-- `a or b`, where b may be missing too.
abbrev pub first_given : Option Text → Option Text → Option Text
first_given none b = b
first_given (some s) b = if is_blank s then b else some s

unfoldable pub dev_override_subdomain : Settings → WebRequest → Option Text
dev_override_subdomain settings request =
    if not settings.debug then none else first_given request.tenant_param request.tenant_header

abbrev pub found_tenant : Option Tenant → Result NotFound (Option Tenant)
found_tenant none = err NotFound.unknown_tenant
found_tenant (some t) = if not t.is_active then err NotFound.inactive_tenant else ok (some t)

abbrev pub is_served_on : Text → Tenant → Bool
is_served_on subdomain t = text_eq t.subdomain subdomain

unfoldable pub resolve : Settings → List Tenant → WebRequest → Result NotFound (Option Tenant)
resolve settings tenants request =
    let subdomain =
      or_else (dev_override_subdomain settings request)
        (subdomain_from_host settings request.host) in
    if is_blank subdomain || any (text_eq subdomain) settings.reserved_subdomains
    then ok none
    else found_tenant (find_first (is_served_on subdomain) tenants)

-- The zone that `timezone.activate` is given, none where the default stays. ZoneInfo is a parameter: which
-- names it knows.
unfoldable pub activated_zone : (Text → Bool) → Option Tenant → Option Text
activated_zone is_zone none = none
activated_zone is_zone (some t) =
    if is_blank t.timezone then none else if is_zone t.timezone then some t.timezone else none

-- The rest of the program: a response or an exception, of the theater and the active zone.
module _ {ℓ κ} (E : Type ℓ) (R : Type κ) (raise_404 : NotFound → E) where
  -- `__call__`, and the zone of the worker thread before and after it. The 404 of `_resolve` comes before
  -- the `try`.
  unfoldable pub call :
      Settings
      → (Text → Bool)
      → (Option Tenant → Option Text → Result E R)
      → List Tenant
      → WebRequest
      → Option Text
      → Result E R × Option Text
  call settings is_zone get_response tenants request zone =
      elim (resolve settings tenants request) [
        | err e ↦ (err (raise_404 e), zone)
        | ok organization ↦ (get_response organization (activated_zone is_zone organization), none)
      ]
