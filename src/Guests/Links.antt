-- ===== src/Guests/Links.antt =====
-- The links that are mailed to a guest (guests/tokens.py), the session of a guest and the two-way consent
-- (guests/services.py), and the views that a link leads to (guests/views.py). Signing is the web
-- framework's: `signing.dumps` and `signing.loads` are a parameter.
pub mod Unsubscribe
use boxoffice.Common.{
  ℕ, ◌*◌, Bool, true, false, not, ◌&&◌, Option, none, some, ◌==◌, if◌then◌else◌, find_first,
}
use boxoffice.Common.Text.{Text, codes, text_eq, is_blank}
use boxoffice.Common.Decimal.{decimal}
use boxoffice.Db.{Db, GuestAccount}
use boxoffice.Guests.{save_guest, opted_in}

-- What a token carries: the two keys, or a value that is not a dict.
pub data Payload : Type 0 where
  dict : ℕ → ℕ → Payload
  not_a_dict : Payload

-- Signing with a salt at a time, and reading at a time with an age limit or none: none is BadSignature.
pub record Signing : Type 0 where
  pub dumps : Text → Payload → ℕ → Text
  pub loads : Text → Option ℕ → ℕ → Text → Option Payload

abbrev pub login_salt : Text
login_salt = codes "guests.magic-link"

abbrev pub unsub_salt : Text
unsub_salt = codes "guests.unsubscribe"

abbrev pub default_max_age_seconds : ℕ
default_max_age_seconds = 24 * 60 * 60

-- The checks on what was loaded.
abbrev pub guest_id_of : Option Payload → ℕ → Option ℕ
guest_id_of none organization = none
guest_id_of (some Payload.not_a_dict) organization = none
guest_id_of (some (Payload.dict gid org)) organization =
    if not (text_eq (decimal org) (decimal organization)) then none else some gid

abbrev pub is_guest_row : ℕ → ℕ → GuestAccount → Bool
is_guest_row organization pk g = g.organization == organization && g.id == pk

-- `GuestAccount.objects.for_organization(organization).filter(pk=guest_id).first()`
abbrev pub guest_of : Db → ℕ → Option ℕ → Option GuestAccount
guest_of db organization none = none
guest_of db organization (some pk) = find_first (is_guest_row organization pk) db.guests

abbrev pub opted_out : GuestAccount → GuestAccount
opted_out guest = record guest { marketing_opt_in = false }

unfoldable pub set_marketing_opt_in : Db → Option GuestAccount → Bool → ℕ → Db
set_marketing_opt_in db none consent now = db
set_marketing_opt_in db (some guest) true now =
    if guest.marketing_opt_in then db else save_guest db (opted_in guest now)
set_marketing_opt_in db (some guest) false now =
    if not guest.marketing_opt_in then db else save_guest db (opted_out guest)

-- The session's two keys.
pub record Session : Type 0 where
  pub guest_account_id : Option ℕ
  pub guest_org_id : Option ℕ

abbrev pub login_guest : Session → GuestAccount → Session
login_guest session guest = record session {
  guest_account_id = some guest.id;
  guest_org_id = some guest.organization;
}

abbrev pub logout_guest : Session → Session
logout_guest session = record session { guest_account_id = none; guest_org_id = none }

abbrev pub same_org : Option ℕ → ℕ → Bool
same_org none organization = false
same_org (some org) organization = text_eq (decimal org) (decimal organization)

abbrev pub or_logout : Option GuestAccount → Session → Option GuestAccount × Session
or_logout none session = (none, logout_guest session)
or_logout (some guest) session = (some guest, session)

-- The look-up of a request on a theater's host, which is made once for a request.
unfoldable pub get_current_guest : Db → ℕ → Session → Option GuestAccount × Session
get_current_guest db organization session = elim session.guest_account_id [
  | none ↦ (none, session)
  | some pk ↦
      if same_org session.guest_org_id organization
      then or_logout (guest_of db organization (some pk)) session
      else (none, session)
]

-- A request with a token: in the query, in the body, and the fields of a POST.
pub record LinkRequest : Type 0 where
  pub query_token : Text
  pub body_token : Text
  pub is_post : Bool
  pub list_unsubscribe : Text
  pub action : Text

pub data LinkPage : Type 0 where
  bare_ok invalid_link : LinkPage
  confirm : Bool → LinkPage

module _ (S : Signing) where
  open S use {dumps, loads}

  unfoldable pub make_login_token : GuestAccount → ℕ → Text
  make_login_token guest now = dumps login_salt (Payload.dict guest.id guest.organization) now

  unfoldable pub read_login_token : Text → ℕ → ℕ → Option ℕ
  read_login_token token organization now =
      guest_id_of (loads login_salt (some default_max_age_seconds) now token) organization

  unfoldable pub make_unsubscribe_token : GuestAccount → ℕ → Text
  make_unsubscribe_token guest now = dumps unsub_salt (Payload.dict guest.id guest.organization) now

  unfoldable pub read_unsubscribe_token : Text → ℕ → ℕ → Option ℕ
  read_unsubscribe_token token organization now =
      guest_id_of (loads unsub_salt none now token) organization

  abbrev pub signed_in : Option GuestAccount → Session → Session
  signed_in none session = session
  signed_in (some guest) session = login_guest session guest

  unfoldable pub guest_verify : Db → ℕ → Text → ℕ → Session → Session
  guest_verify db organization token now session =
      signed_in (guest_of db organization (read_login_token token organization now)) session

  abbrev pub token_of : LinkRequest → Text
  token_of request =
      if is_blank request.query_token then request.body_token else request.query_token

  abbrev pub is_one_click : LinkRequest → Bool
  is_one_click request = request.is_post && text_eq request.list_unsubscribe (codes "One-Click")

  abbrev pub is_resubscribe : LinkRequest → Bool
  is_resubscribe request = request.is_post && text_eq request.action (codes "resubscribe")

  abbrev pub page_of : Option GuestAccount → LinkRequest → LinkPage
  page_of guest request = if is_one_click request then LinkPage.bare_ok else elim guest [
    | none ↦ LinkPage.invalid_link
    | some g ↦ LinkPage.confirm (is_resubscribe request)
  ]

  unfoldable pub guest_unsubscribe : Db → ℕ → LinkRequest → ℕ → Db × LinkPage
  guest_unsubscribe db organization request now =
      let guest =
        guest_of db organization (read_unsubscribe_token (token_of request) organization now) in
      (set_marketing_opt_in db guest (is_resubscribe request) now, page_of guest request)
