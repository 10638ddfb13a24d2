-- ===== src/Accounts.antt =====
-- The accounts app: a staff member's role in a theater and what the role allows (accounts/models.py).

pub mod Permissions
pub mod Throttle
use boxoffice.Common.{ℕ, Bool, ◌&&◌, [], ◌∷◌, List, ◌==◌, any}

pub data Role : Type 0 where
  owner manager box_office scanner : Role

pub record Membership : Type 0 where
  pub id : ℕ
  pub user : ℕ
  pub organization : ℕ
  pub role : Role

abbrev role_code : Role → ℕ
role_code Role.owner = 0
role_code Role.manager = 1
role_code Role.box_office = 2
role_code Role.scanner = 3

-- `self.role in (...)`
abbrev pub role_in : Membership → List Role → Bool
role_in m roles = any (λ role. role_code m.role == role_code role) roles

abbrev pub is_owner : Membership → Bool
is_owner m = role_code m.role == role_code Role.owner

abbrev pub is_manager_or_above : Membership → Bool
is_manager_or_above m = role_in m (Role.owner ∷ Role.manager ∷ [])

abbrev pub is_box_office_or_above : Membership → Bool
is_box_office_or_above m = role_in m (Role.owner ∷ Role.manager ∷ Role.box_office ∷ [])

abbrev pub can_scan : Membership → Bool
can_scan m = role_in m (Role.owner ∷ Role.manager ∷ Role.box_office ∷ Role.scanner ∷ [])

abbrev pub can_manage_events : Membership → Bool
can_manage_events = is_manager_or_above

abbrev pub can_manage_billing : Membership → Bool
can_manage_billing = is_owner

abbrev pub can_sell_tickets : Membership → Bool
can_sell_tickets = is_box_office_or_above

-- A user's row in a theater.
abbrev pub is_membership : ℕ → ℕ → Membership → Bool
is_membership user organization m = m.user == user && m.organization == organization
