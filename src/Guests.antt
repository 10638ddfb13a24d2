-- ===== src/Guests.antt =====
-- The guests app: the account that a buyer's email stands for (guests/models.py) and marketing
-- consent (guests/services.py).
pub mod Links
use boxoffice.Common.{
  ℕ, ◌+◌, Bool, true, false, not, ◌&&◌, Option, none, some, [], ◌∷◌, ◌++◌, ◌==◌, if◌then◌else◌,
  or_else, find_first, update_where,
}
use boxoffice.Common.Text.{Text, lower, text_eq, is_blank, strip}
use boxoffice.Db.{Db, GuestAccount}

-- A missing email reads as a blank one.
abbrev pub normalize_email : Option Text → Text
normalize_email email = lower (strip (or_else email []))

abbrev pub is_guest : ℕ → Text → GuestAccount → Bool
is_guest organization email g = g.organization == organization && text_eq g.email email

abbrev pub save_guest : Db → GuestAccount → Db
save_guest db guest = record db {
  guests = update_where (λ g. g.id == guest.id) (λ _. guest) db.guests;
}

abbrev new_guest : ℕ → ℕ → Text → Text → GuestAccount
new_guest id organization email name = record {
  id = id;
  organization = organization;
  email = email;
  name = name;
  marketing_opt_in = false;
  marketing_opt_in_at = none;
}

-- `not created and name.strip() and not guest.name`
abbrev fill_name : Db → GuestAccount → Text → Db × Option GuestAccount × Bool
fill_name db guest name =
    if not (is_blank name) && is_blank guest.name
    then (save_guest db (record guest { name = name }), some (record guest { name = name }), false)
    else (db, some guest, false)

abbrev create_guest : Db → ℕ → Text → Text → Db × Option GuestAccount × Bool
create_guest db organization email name =
    let guest = new_guest db.next_id organization email name in
    (record db { guests = db.guests ++ guest ∷ []; next_id = db.next_id + 1 }, some guest, true)

unfoldable pub get_or_create_for_email :
    Db → ℕ → Option Text → Text → Db × Option GuestAccount × Bool
get_or_create_for_email db organization email name =
    let normalized = normalize_email email in
    if is_blank normalized
    then (db, none, false)
    else elim (find_first (is_guest organization normalized) db.guests) [
      | none ↦ create_guest db organization normalized (strip name)
      | some guest ↦ fill_name db guest (strip name)
    ]

abbrev opted_in : GuestAccount → ℕ → GuestAccount
opted_in guest now = record guest { marketing_opt_in = true; marketing_opt_in_at = some now }

-- One-way: it never takes consent away.
unfoldable pub record_marketing_opt_in : Db → Option GuestAccount → ℕ → Db
record_marketing_opt_in db none now = db
record_marketing_opt_in db (some guest) now =
    if guest.marketing_opt_in then db else save_guest db (opted_in guest now)
