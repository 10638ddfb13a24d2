-- ===== src/Accounts/Permissions.antt =====
-- accounts/permissions.py: who is let into the staff area. A view behind a gate is run with the caller's
-- membership, or the request is refused.
pub mod Gates
use boxoffice.Common.{
  ℕ, ◌+◌, ◌≤◌, ◌≡◌, refl, Bool, true, false, not, ◌&&◌, Option, none, some, List, [], ◌∷◌, arith,
  inl, inr, leb, find_first, any, count_by, if◌then◌else◌, Bool-cases, Option-cases,
}
use boxoffice.Common.Results.{Result, ok, err}
use boxoffice.Accounts.{
  Role, Membership, is_membership, can_manage_events, can_manage_billing, can_sell_tickets,
  can_scan,
}

-- A request: the theater of its host, its signed-in user, and `_membership_cache` once set.
pub record StaffRequest : Type 0 where
  pub organization : Option ℕ
  pub user : Option ℕ
  pub membership_cache : Option (Option Membership)

pub data Refusal : Type 0 where
  no_tenant login_required no_membership role_denied : Refusal

pub data Response : Type 0 where
  not_found to_login forbidden : Response
  view : Membership → Response

abbrev pub look_up : List Membership → ℕ → ℕ → StaffRequest → Option Membership × StaffRequest
look_up rows user organization r = elim r.membership_cache [
  | none ↦
      let found = find_first (is_membership user organization) rows in
      (found, record r { membership_cache = some found })
  | some found ↦ (found, r)
]

unfoldable pub get_membership : List Membership → StaffRequest → Option Membership × StaffRequest
get_membership rows r = elim r.organization [
  | none ↦ (none, r)
  | some organization ↦ elim r.user [
    | none ↦ (none, r)
    | some user ↦ look_up rows user organization r
  ]
]

-- `role_check is not None and not role_check(membership)`
abbrev pub check_role : Option (Membership → Bool) → Membership → Result Refusal Membership
check_role none m = ok m
check_role (some role_check) m = if not (role_check m) then err Refusal.role_denied else ok m

abbrev pub check_membership :
    Option (Membership → Bool) → Option Membership → Result Refusal Membership
check_membership role_check none = err Refusal.no_membership
check_membership role_check (some m) = check_role role_check m

unfoldable pub resolve_staff_membership :
    List Membership
    → StaffRequest
    → Option (Membership → Bool)
    → Result Refusal Membership × StaffRequest
resolve_staff_membership rows r role_check = elim r.organization [
  | none ↦ (err Refusal.no_tenant, r)
  | some organization ↦ elim r.user [
    | none ↦ (err Refusal.login_required, r)
    | some user ↦ let got = get_membership rows r in (check_membership role_check got.0, got.1)
  ]
]

-- LoginRequired becomes a redirect; the web framework answers the two others with 404 and 403.
abbrev pub respond : Result Refusal Membership → Response
respond (ok m) = Response.view m
respond (err Refusal.no_tenant) = Response.not_found
respond (err Refusal.login_required) = Response.to_login
respond (err Refusal.no_membership) = Response.forbidden
respond (err Refusal.role_denied) = Response.forbidden

pub data Gate : Type 0 where
  tenant_staff_required manager_required billing_required box_office_required : Gate
  scanner_required : Gate

abbrev pub role_check : Gate → Option (Membership → Bool)
role_check Gate.tenant_staff_required = none
role_check Gate.manager_required = some can_manage_events
role_check Gate.billing_required = some can_manage_billing
role_check Gate.box_office_required = some can_sell_tickets
role_check Gate.scanner_required = some can_scan

-- The wrapper of a view, and the request that the view and later gates read.
unfoldable pub wrapped : Gate → List Membership → StaffRequest → Response × StaffRequest
wrapped gate rows r =
    let got = resolve_staff_membership rows r (role_check gate) in (respond got.0, got.1)

-- The ladder of roles: a role may do what the roles below it may.
abbrev pub rank : Role → ℕ
rank Role.scanner = 0
rank Role.box_office = 1
rank Role.manager = 2
rank Role.owner = 3

abbrev pub needed : Gate → ℕ
needed Gate.tenant_staff_required = 0
needed Gate.scanner_required = 0
needed Gate.box_office_required = 1
needed Gate.manager_required = 2
needed Gate.billing_required = 3

-- Somebody with the rank, of the theater and with the user's key, is among the rows.
abbrev pub is_allowed : Gate → List Membership → Option ℕ → Option ℕ → Bool
is_allowed gate rows none user = false
is_allowed gate rows (some organization) none = false
is_allowed gate rows (some organization) (some user) =
    any (λ m. is_membership user organization m && leb (needed gate) (rank m.role)) rows

abbrev pub is_view : Response → Bool
is_view Response.not_found = false
is_view Response.to_login = false
is_view Response.forbidden = false
is_view (Response.view m) = true

-- unique_membership_per_org
unfoldable pub UniqueMemberships : List Membership → Type 0
UniqueMemberships rows =
    (user organization : ℕ) → count_by (is_membership user organization) rows ≤ 1

-- No gate has looked the membership up, or what it found is still there.
unfoldable pub IsFresh : List Membership → StaffRequest → Type 0
IsFresh rows r =
    (user organization : ℕ) (found : Option Membership)
    → r.organization ≡ some organization
    → r.user ≡ some user
    → r.membership_cache ≡ some found
    → found ≡ find_first (is_membership user organization) rows
