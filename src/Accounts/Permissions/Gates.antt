-- ===== src/Accounts/Permissions/Gates.antt =====
-- accounts/permissions.py: a gate lets in whom the ladder of roles lets in, and no other.
use boxoffice.Common.{
  ℕ, ◌≤◌, ◌≡◌, refl, sym, ap, ◌∙◌, Bool, false, ◌&&◌, Option, none, some, List, [], ◌∷◌, arith, inl,
  inr, leb, find_first, any, count_by, if◌then◌else◌, Bool-cases,
}
use boxoffice.Common.Results.{some-injective}
use boxoffice.Accounts.{Role, Membership, is_membership}
use boxoffice.Accounts.Permissions.{
  StaffRequest, Response, get_membership, check_role, check_membership, resolve_staff_membership,
  respond, Gate, role_check, wrapped, rank, needed, is_allowed, is_view, UniqueMemberships, IsFresh,
}

let_in : Gate → Membership → Bool
let_in gate m = leb (needed gate) (rank m.role)

-- The check of a gate reads the rank alone.
role_by_rank :
    (gate : Gate) (id user organization : ℕ) (role : Role)
    → let m : Membership = record {
      id = id;
      user = user;
      organization = organization;
      role = role;
    } in
      respond (check_role (role_check gate) m)
      ≡ (if let_in gate m then Response.view m else Response.forbidden)
unfolding let_in
role_by_rank Gate.tenant_staff_required id user organization role = ground arith
role_by_rank Gate.manager_required id user organization Role.owner = refl
role_by_rank Gate.manager_required id user organization Role.manager = refl
role_by_rank Gate.manager_required id user organization Role.box_office = refl
role_by_rank Gate.manager_required id user organization Role.scanner = refl
role_by_rank Gate.billing_required id user organization Role.owner = refl
role_by_rank Gate.billing_required id user organization Role.manager = refl
role_by_rank Gate.billing_required id user organization Role.box_office = refl
role_by_rank Gate.billing_required id user organization Role.scanner = refl
role_by_rank Gate.box_office_required id user organization Role.owner = refl
role_by_rank Gate.box_office_required id user organization Role.manager = refl
role_by_rank Gate.box_office_required id user organization Role.box_office = refl
role_by_rank Gate.box_office_required id user organization Role.scanner = refl
role_by_rank Gate.scanner_required id user organization Role.owner = refl
role_by_rank Gate.scanner_required id user organization Role.manager = refl
role_by_rank Gate.scanner_required id user organization Role.box_office = refl
role_by_rank Gate.scanner_required id user organization Role.scanner = refl

by_rank :
    (gate : Gate) (m : Membership)
    → respond (check_role (role_check gate) m)
      ≡ (if let_in gate m then Response.view m else Response.forbidden)
by_rank gate m = role_by_rank gate m.id m.user m.organization m.role

abbrev passes : Gate → Option Membership → Bool
passes gate none = false
passes gate (some m) = let_in gate m

none_passes :
    (p q : Membership → Bool) (rows : List Membership)
    → count_by p rows ≤ 0
    → any (λ m. p m && q m) rows ≡ false
none_passes p q [] c = refl
none_passes p q (m ∷ rows) c = ground (arith, c, none_passes p q rows)

-- One row at most passes p, so the first that does is the one to ask.
first_decides :
    (gate : Gate) (p : Membership → Bool) (rows : List Membership)
    → count_by p rows ≤ 1
    → passes gate (find_first p rows) ≡ any (λ m. p m && let_in gate m) rows
first_decides gate p [] c = refl
first_decides gate p (m ∷ rows) c = elim (Bool-cases (p m)) [
  | inl is ↦
      let later : count_by p rows ≤ 0 = ground (arith, c, is) in
      rw is (ground (arith, none_passes p (let_in gate) rows later))
  | inr other ↦
      let later : count_by p rows ≤ 1 = ground (arith, c, other) in
      rw other (first_decides gate p rows later)
]

-- Whatever is found, the response shows it only past the check.
respond_lem :
    (gate : Gate) (found : Option Membership)
    → is_view (respond (check_membership (role_check gate) found)) ≡ passes gate found
respond_lem gate none = refl
respond_lem gate (some m) =
    rw (by_rank gate m)
      (elim (Bool-cases (let_in gate m)) [ inl in_ ↦ rw in_ refl | inr out ↦ rw out refl ])

abbrev request : Option ℕ → Option ℕ → Option (Option Membership) → StaffRequest
request organization user cache = record {
  organization = organization;
  user = user;
  membership_cache = cache;
}

-- A gate decides by the ladder, and leaves the request fresh for the next.
Decides : Gate → List Membership → StaffRequest → Type 0
Decides gate rows r =
    (is_view (wrapped gate rows r).0 ≡ is_allowed gate rows r.organization r.user)
    × IsFresh rows (wrapped gate rows r).1
    × ((wrapped gate rows r).1.organization ≡ r.organization)
    × ((wrapped gate rows r).1.user ≡ r.user)

Decides-request :
    (gate : Gate) (rows : List Membership) (organization user : Option ℕ)
    (cache : Option (Option Membership))
    → UniqueMemberships rows
    → IsFresh rows (request organization user cache)
    → Decides gate rows (request organization user cache)
unfolding Decides wrapped resolve_staff_membership get_membership UniqueMemberships IsFresh let_in
Decides-request gate rows none user cache once fresh = (refl, fresh, refl, refl)
Decides-request gate rows (some o) none cache once fresh = (refl, fresh, refl, refl)
Decides-request gate rows (some o) (some u) none once fresh = (
  respond_lem gate (find_first (is_membership u o) rows)
      ∙ first_decides gate (is_membership u o) rows (once u o),
  λ user organization found o' u' set.
      rw⁻¹ (some-injective o', some-injective u') (sym (some-injective set)),
  refl,
  refl,
)
Decides-request gate rows (some o) (some u) (some found) once fresh = (
  ap (λ f. is_view (respond (check_membership (role_check gate) f)))
        (fresh u o found refl refl refl)
      ∙ respond_lem gate (find_first (is_membership u o) rows)
      ∙ first_decides gate (is_membership u o) rows (once u o),
  fresh,
  refl,
  refl,
)

Decides-wrapped :
    (gate : Gate) (rows : List Membership) (r : StaffRequest)
    → UniqueMemberships rows
    → IsFresh rows r
    → Decides gate rows r
Decides-wrapped gate rows r = Decides-request gate rows r.organization r.user r.membership_cache

-- With one membership for each user and theater, and no stale membership on the request: a gate lets a
-- request in exactly if the memberships have a row of its user in its theater, with a role that stands
-- as high as the gate asks (any role, box office, manager or owner), and a second gate that is asked of
-- the same request afterwards decides by the same rule.
pub staff_gates :
    (first second : Gate) (rows : List Membership) (r : StaffRequest)
    → UniqueMemberships rows
    → IsFresh rows r
    → (is_view (wrapped first rows r).0 ≡ is_allowed first rows r.organization r.user)
      × (is_view (wrapped second rows (wrapped first rows r).1).0
          ≡ is_allowed second rows r.organization r.user)
unfolding Decides
staff_gates first second rows r once fresh =
    let one = Decides-wrapped first rows r once fresh in
    let two = Decides-wrapped second rows (wrapped first rows r).1 once one.1 in
    (
      one.0,
      two.0
          ∙ ap (λ o. is_allowed second rows o (wrapped first rows r).1.user) one.2
          ∙ ap (is_allowed second rows r.organization) one.3,
    )
