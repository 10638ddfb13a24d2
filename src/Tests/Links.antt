-- ===== src/Tests/Links.antt =====
-- Runs of the model, and the theorem at those inputs: the links that are mailed to a guest.
use boxoffice.Common.{
  ℕ, zero, suc, ◌+◌, ◌≤◌, ◌≡◌, ◌≢◌, refl, Bool, true, false, ◌&&◌, Option, none, some, [], ◌∷◌, leb,
  if◌then◌else◌, find_first, arith,
}
use boxoffice.Common.Text.{Text, text_eq, text_eq_iff}
use boxoffice.Db.{Db}
use boxoffice.Guests.Links.{
  Payload, Signing, Session, is_guest_row, opted_out, make_login_token, make_unsubscribe_token,
  guest_verify, guest_unsubscribe,
}
use boxoffice.Guests.Links.Unsubscribe.{InTime, LawfulSigning, one_click, unsubscribe_link}
use boxoffice.Tests.{shop}
use boxoffice.Tests.Mailing.{guest_at}

-- A signature that anybody can read and forge: the time, the payload and the salt.
abbrev sealed : Text → Payload → ℕ → Text
sealed salt (Payload.dict gid org) made = made ∷ 1 ∷ gid ∷ org ∷ salt
sealed salt Payload.not_a_dict made = made ∷ 0 ∷ 0 ∷ 0 ∷ salt

abbrev in_time : Option ℕ → ℕ → ℕ → Bool
in_time none made now = true
in_time (some age) made now = leb now (made + age)

abbrev payload : ℕ → ℕ → ℕ → Payload
payload zero gid org = Payload.not_a_dict
payload (suc kind) gid org = Payload.dict gid org

abbrev opened : Text → Option ℕ → ℕ → Text → Option Payload
opened salt age now [] = none
opened salt age now (made ∷ []) = none
opened salt age now (made ∷ kind ∷ []) = none
opened salt age now (made ∷ kind ∷ gid ∷ []) = none
opened salt age now (made ∷ kind ∷ gid ∷ org ∷ s) =
    if text_eq s salt && in_time age made now then some (payload kind gid org) else none

abbrev plain : Signing
plain = record { dumps = sealed; loads = opened }

in_time-true : (age : Option ℕ) (made now : ℕ) → InTime age made now → in_time age made now ≡ true
in_time-true none made now h = refl
in_time-true (some age) made now h = ground (arith, h)

opens :
    (salt : Text) (p : Payload) (made now : ℕ) (age : Option ℕ)
    → InTime age made now
    → opened salt age now (sealed salt p made) ≡ some p
opens salt (Payload.dict gid org) made now age h =
    rw ((text_eq_iff salt salt).1 refl, in_time-true age made now h) refl
opens salt Payload.not_a_dict made now age h =
    rw ((text_eq_iff salt salt).1 refl, in_time-true age made now h) refl

stays_shut :
    (salt other : Text) (p : Payload) (made now : ℕ) (age : Option ℕ)
    → text_eq salt other ≡ false
    → opened other age now (sealed salt p made) ≡ none
stays_shut salt other (Payload.dict gid org) made now age h = rw h refl
stays_shut salt other Payload.not_a_dict made now age h = rw h refl

plain_laws : LawfulSigning plain
plain_laws = record { loads-dumps = opens; loads_other_salt = stays_shut }

abbrev readers : Db
readers = record shop { guests = guest_at 31 true ∷ guest_at 32 false ∷ [] }

signs_in :
    guest_verify plain readers 7
      (make_login_token plain (guest_at 31 true) 100)
      200
      (record { guest_account_id = none; guest_org_id = none })
    ≡ record { guest_account_id = some 31; guest_org_id = some 7 }
unfolding guest_verify make_login_token boxoffice.Guests.Links.read_login_token
    boxoffice.Common.Decimal.decimal
signs_in = refl

unsubscribe_link_example :
    let link = one_click (make_unsubscribe_token plain (guest_at 31 true) 100) in
    (find_first (is_guest_row 7 31) (guest_unsubscribe plain readers 7 link 9000000).0.guests
      ≡ some (opted_out (guest_at 31 true)))
    × ((organization : ℕ)
        → organization ≢ 7
        → (guest_unsubscribe plain readers organization link 9000000).0 ≡ readers)
    × ((organization : ℕ) (session : Session)
        → guest_verify plain readers organization
            (make_unsubscribe_token plain (guest_at 31 true) 100)
            9000000
            session
          ≡ session)
unsubscribe_link_example =
    unsubscribe_link plain plain_laws readers (guest_at 31 true) 100 9000000 refl
