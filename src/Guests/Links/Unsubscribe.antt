-- ===== src/Guests/Links/Unsubscribe.antt =====
-- guests/tokens.py and guests/views.py: what the unsubscribe link of a guest does, and where.
use boxoffice.Common.{
  ℕ, ◌+◌, ◌≤◌, ◌≡◌, ◌≢◌, refl, sym, ap, ◌∙◌, inl, inr, Bool, true, false, not, Option, none, some,
  List, [], ◌∷◌, ◌==◌, if◌then◌else◌, find_first, update_where, arith, Bool-cases, ==_refl,
}
use boxoffice.Common.Text.{Text, codes, text_eq, text_eq_iff}
use boxoffice.Common.Decimal.{decimal}
use boxoffice.Common.Decimal.Injective.{decimal_injective}
use boxoffice.Db.{Db, GuestAccount}
use boxoffice.Guests.{save_guest}
use boxoffice.Guests.Links.{
  Payload, Signing, login_salt, unsub_salt, default_max_age_seconds, guest_id_of, is_guest_row,
  guest_of, opted_out, set_marketing_opt_in, Session, LinkRequest, make_unsubscribe_token,
  read_unsubscribe_token, read_login_token, guest_verify, token_of, guest_unsubscribe,
}

-- The age that a reader allows is not over.
abbrev pub InTime : Option ℕ → ℕ → ℕ → Type 0
InTime none made now = Unit
InTime (some age) made now = now ≤ made + age

-- The documented behaviour of signing: a token reads back in time under its salt, and under no other.
pub record LawfulSigning (S : Signing) : Type 0 where
  pub loads-dumps :
      (salt : Text) (p : Payload) (made now : ℕ) (age : Option ℕ)
      → InTime age made now
      → S.loads salt age now (S.dumps salt p made) ≡ some p
  pub loads_other_salt :
      (salt other : Text) (p : Payload) (made now : ℕ) (age : Option ℕ)
      → text_eq salt other ≡ false
      → S.loads other age now (S.dumps salt p made) ≡ none

-- The POST that a mail client sends to the link of a token.
abbrev pub one_click : Text → LinkRequest
one_click token = record {
  query_token = token;
  body_token = [];
  is_post = true;
  list_unsubscribe = codes "One-Click";
  action = [];
}

opted_out_already : (g : GuestAccount) → g.marketing_opt_in ≡ false → opted_out g ≡ g
opted_out_already g h = ap (λ b. record g { marketing_opt_in = b }) (sym h)

if_on : (b : Bool) (x y : Db) → b ≡ true → (if not b then x else y) ≡ y
if_on b x y h = rw h refl

if_off : (b : Bool) (x y : Db) → b ≡ false → (if not b then x else y) ≡ x
if_off b x y h = rw h refl

-- The saved row is the one that is found.
found_saved :
    (organization pk : ℕ) (g new : GuestAccount) (xs : List GuestAccount)
    → is_guest_row organization pk new ≡ true
    → (g.id == pk) ≡ true
    → find_first (is_guest_row organization pk) xs ≡ some g
    → find_first (is_guest_row organization pk) (update_where (λ x. x.id == pk) (λ _. new) xs)
      ≡ some new
found_saved organization pk g new [] h k e = cc
found_saved organization pk g new (x ∷ xs) h k e = elim (Bool-cases (x.id == pk)) [
  | inl this ↦ rw (this, h) refl
  | inr other ↦
      let before : is_guest_row organization pk x ≡ false = ground (arith, other) in
      let rest = found_saved organization pk g new xs h k (rw before at e) in
      rw (other, before) rest
]

token_of-one_click : (S : Signing) (token : Text) → token_of S (one_click token) ≡ token
token_of-one_click S [] = refl
token_of-one_click S (c ∷ token) = refl

own_row : (g : GuestAccount) → is_guest_row g.organization g.id g ≡ true
own_row g = rw (==_refl g.organization, ==_refl g.id) refl

module _ (S : Signing) (laws : LawfulSigning S) (g : GuestAccount) (made now : ℕ) where
  token : Text
  token = make_unsubscribe_token S g made

  read_anywhere :
      (organization : ℕ)
      → read_unsubscribe_token S (token_of S (one_click token)) organization now
        ≡ guest_id_of (some (Payload.dict g.id g.organization)) organization
  unfolding read_unsubscribe_token token make_unsubscribe_token
  read_anywhere organization =
      ap (λ t. guest_id_of (S.loads unsub_salt none now t) organization)
        (token_of-one_click S (S.dumps unsub_salt (Payload.dict g.id g.organization) made))
      ∙ ap (λ p. guest_id_of p organization)
          (laws.loads-dumps unsub_salt (Payload.dict g.id g.organization) made now none tt)

  at_home : guest_id_of (some (Payload.dict g.id g.organization)) g.organization ≡ some g.id
  at_home = rw ((text_eq_iff (decimal g.organization) (decimal g.organization)).1 refl) refl

  away :
      (organization : ℕ)
      → organization ≢ g.organization
      → guest_id_of (some (Payload.dict g.id g.organization)) organization ≡ none
  away organization other =
      elim (Bool-cases (text_eq (decimal g.organization) (decimal organization))) [
        | inl same ↦ absurd (
            other (
              sym (
                decimal_injective g.organization organization
                  ((text_eq_iff (decimal g.organization) (decimal organization)).0 same))))
        | inr apart ↦ rw apart refl
      ]

  -- The guest's row after consent is taken away.
  opts_out :
      (db : Db)
      → find_first (is_guest_row g.organization g.id) db.guests ≡ some g
      → find_first
          (is_guest_row g.organization g.id)
          (set_marketing_opt_in db (some g) false now).guests
        ≡ some (opted_out g)
  unfolding set_marketing_opt_in
  opts_out db row = elim (Bool-cases g.marketing_opt_in) [
    | inl subscribed ↦
        ap (λ (d : Db). find_first (is_guest_row g.organization g.id) d.guests)
          (if_on g.marketing_opt_in db (save_guest db (opted_out g)) subscribed)
        ∙ found_saved g.organization g.id g (opted_out g) db.guests (own_row g) (==_refl g.id) row
    | inr already ↦
        ap (λ (d : Db). find_first (is_guest_row g.organization g.id) d.guests)
          (if_off g.marketing_opt_in db (save_guest db (opted_out g)) already)
        ∙ row
        ∙ ap some (sym (opted_out_already g already))
  ]

-- A guest's row is in the table and its unsubscribe link was made at any time, however long ago. The POST
-- that a mail client sends to the link on the guest's theater takes the guest's consent away and keeps the
-- time at which it was given; on another theater's host it changes nothing; and on no host, at no time, does the link's
-- token sign a session in.
pub unsubscribe_link :
    (S : Signing) (laws : LawfulSigning S) (db : Db) (g : GuestAccount) (made now : ℕ)
    → find_first (is_guest_row g.organization g.id) db.guests ≡ some g
    → let link = one_click (make_unsubscribe_token S g made) in
      (find_first
          (is_guest_row g.organization g.id)
          (guest_unsubscribe S db g.organization link now).0.guests
        ≡ some (opted_out g))
      × ((organization : ℕ)
          → organization ≢ g.organization
          → (guest_unsubscribe S db organization link now).0 ≡ db)
      × ((organization : ℕ) (session : Session)
          → guest_verify S db organization (make_unsubscribe_token S g made) now session ≡ session)
unfolding guest_unsubscribe guest_verify read_login_token make_unsubscribe_token token
    set_marketing_opt_in
unsubscribe_link S laws db g made now row = (
  ap
        (λ k.
          find_first (is_guest_row g.organization g.id)
            (set_marketing_opt_in db (guest_of db g.organization k) false now).guests)
        (read_anywhere S laws g made now g.organization ∙ at_home S laws g made now)
      ∙ ap
          (λ o.
            find_first (is_guest_row g.organization g.id)
              (set_marketing_opt_in db o false now).guests)
          row
      ∙ opts_out S laws g made now db row,
  λ organization other.
      ap (λ k. set_marketing_opt_in db (guest_of db organization k) false now)
        (read_anywhere S laws g made now organization ∙ away S laws g made now organization other),
  λ organization session.
      rw
        (laws.loads_other_salt unsub_salt login_salt (Payload.dict g.id g.organization) made now
          (some default_max_age_seconds) refl)
        refl,
)
