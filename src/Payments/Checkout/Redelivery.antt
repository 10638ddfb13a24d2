-- ===== src/Payments/Checkout/Redelivery.antt =====
-- payments/services.py's fulfill_checkout_session when Stripe delivers a session again.
use boxoffice.Guests.{get_or_create_for_email, record_marketing_opt_in}
use boxoffice.Payments.Fulfill.{
  FulfillError, Purchase, create_order, order_clashes, fulfill_hold, fulfill_tickets, has_session,
  link_guest, attach_guest, order_of, settle,
}
use boxoffice.Payments.Purchases.{plain_order, fulfill_donation, fulfill_pass_purchase}
use boxoffice.Payments.Checkout.{
  Session, SessionKind, purchase_of, order_of_session, product_of, hold_of, or_winner, dispatch,
  fulfill_checkout_session, campaign_of,
}
use boxoffice.Payments.PassRedemption.Minted.{fulfill_tickets-MintsFor}
use boxoffice.Common.Counting.{find_first-holds}
use boxoffice.Common.{
  ℕ, ◌+◌, ◌≡◌, refl, ap, subst, ◌∙◌, inl, inr, Bool, true, false, not, ◌&&◌, Option, none, some,
  List, [], ◌∷◌, ◌++◌, arith, leb, ◌==◌, if◌then◌else◌, ==_iff, ==_refl, &&_split, Bool-cases,
  Option-cases, is_key, is_some, find_first,
}
use boxoffice.Common.Int.{ℤ}
use boxoffice.Common.Text.{Text, text_eq_iff}
use boxoffice.Common.Results.{Result, ok, err, Result-cases}
use boxoffice.Db.{Db, Hold, Order, PassProduct}

-- After a success, the session's order is the one that was returned.
abbrev Answers : ℕ → Text → Result FulfillError (Db × Order) → Type 0
Answers organization session (ok (db, o)) = order_of_session db organization session ≡ some o
Answers organization session (err e) = Unit

abbrev AnswersAgain : ℕ → Text → Result FulfillError (Db × (Order × Bool)) → Type 0
AnswersAgain organization session (ok (db, (o, created))) =
    order_of_session db organization session ≡ some o
AnswersAgain organization session (err e) = Unit

find_last_of {ℓ} :
    {A : Type ℓ}
    → (p : A → Bool) (xs : List A) (x : A) → find_first p xs ≡ none
    → p x ≡ true
    → find_first p (xs ++ x ∷ []) ≡ some x
find_last_of p [] x h e = rw e refl
find_last_of p (y ∷ xs) x h e = ground (arith, find_last_of p xs x)

link_guest-orders :
    (db : Db) (organization : ℕ) (purchase : Purchase) (now : ℕ)
    → (link_guest db organization purchase now).0.orders ≡ db.orders
unfolding get_or_create_for_email record_marketing_opt_in
link_guest-orders db organization purchase now = ground arith

settle-orders :
    (db : Db) (hold : Hold) (order : Order) (purchase : Purchase)
    → (settle db hold order purchase).orders ≡ db.orders
settle-orders db hold order purchase = ground arith

module _ (new_token : ℕ → Text) (db : Db) (organization : ℕ) (s : Session)
    (new : order_of_session db organization s.id ≡ none) where
  -- A new order of the session is the one that is found.
  placed :
      (orders : List Order) (o : Order)
      → orders ≡ db.orders
      → o.organization ≡ organization
      → o.stripe_checkout_session_id ≡ some s.id
      → find_first (has_session organization s.id) (orders ++ o ∷ []) ≡ some o
  placed orders o e org session =
      find_last_of (has_session organization s.id) orders o (rw e new)
        (rw (org, session) (ground (arith, ==_refl organization, text_eq_iff s.id s.id)))

  donation-Answers :
      (amount : ℤ) (campaign : Option ℕ) (now : ℕ)
      → Answers organization s.id
          (fulfill_donation new_token db organization amount campaign (purchase_of s) now)
  unfolding fulfill_donation create_order
  donation-Answers amount campaign now =
      elim (Bool-cases (
        order_clashes (link_guest db organization (purchase_of s) now).0 (
          plain_order new_token (link_guest db organization (purchase_of s) now).0 organization
            (purchase_of s) (link_guest db organization (purchase_of s) now).1 amount))) [
              | inl taken ↦ rw taken tt
              | inr free ↦ rw free (
                  placed (link_guest db organization (purchase_of s) now).0.orders _
                    (link_guest-orders db organization (purchase_of s) now) refl refl)
            ]

  pass-Answers :
      (product : PassProduct) (now : ℕ)
      → Answers organization s.id
          (fulfill_pass_purchase new_token db organization product (purchase_of s) now)
  unfolding fulfill_pass_purchase create_order
  pass-Answers product now = elim (Bool-cases product.is_active) [
    | inr archived ↦ rw archived tt
    | inl active ↦
        rw active
          (elim (Bool-cases (
            order_clashes (link_guest db organization (purchase_of s) now).0 (
              plain_order new_token (link_guest db organization (purchase_of s) now).0 organization
                (purchase_of s) (link_guest db organization (purchase_of s) now).1
                product.price))) [
                  | inl taken ↦ rw taken tt
                  | inr free ↦ rw free (
                      placed (link_guest db organization (purchase_of s) now).0.orders _
                        (link_guest-orders db organization (purchase_of s) now) refl refl)
                ])
  ]

  hold-Answers :
      (hold : Hold) (now : ℕ)
      → hold.organization ≡ organization
      → Answers organization s.id (fulfill_hold new_token db hold (purchase_of s) now)
  unfolding fulfill_hold create_order
  hold-Answers hold now org =
      let guested = (attach_guest db hold (purchase_of s) now).0 in
      let order =
        order_of new_token db guested hold (purchase_of s)
          (attach_guest db hold (purchase_of s) now).1 in
      let ordered = record guested {
        orders = guested.orders ++ order ∷ [];
        next_id = guested.next_id + 1;
      } in
      elim (Bool-cases (leb hold.expires_at now)) [
        | inl expired ↦ rw expired tt
        | inr running ↦ rw running (elim (Bool-cases (order_clashes guested order)) [
          | inl taken ↦ rw taken tt
          | inr free ↦ rw free (elim (Result-cases (fulfill_tickets new_token ordered hold order)) [
            | inl (failure, e) ↦ rw e tt
            | inr (minted, e) ↦ rw e (
                ap (find_first (has_session organization s.id)) (
                  settle-orders minted hold order (purchase_of s)
                  ∙ (fulfill_tickets-MintsFor new_token hold order ordered minted e).orders)
                ∙ placed guested.orders order
                    (link_guest-orders db hold.organization (purchase_of s) now) org refl)
          ])
        ])
      ]

  or_winner-AnswersAgain :
      (otherwise : FulfillError) (r : Result FulfillError (Db × Order))
      → Answers organization s.id r
      → AnswersAgain organization s.id (or_winner db organization s.id otherwise r)
  or_winner-AnswersAgain otherwise (ok (db', o)) a = a
  or_winner-AnswersAgain otherwise (err FulfillError.integrity_error) a = rw (new, AnswersAgain) tt
  or_winner-AnswersAgain otherwise (err FulfillError.hold_gone) a = tt
  or_winner-AnswersAgain otherwise (err (FulfillError.availability_changed ids)) a = tt
  or_winner-AnswersAgain otherwise (err FulfillError.allocation_missing) a = tt
  or_winner-AnswersAgain otherwise (err FulfillError.donation_data) a = tt
  or_winner-AnswersAgain otherwise (err FulfillError.pass_data) a = tt
  or_winner-AnswersAgain otherwise (err FulfillError.tenant_mismatch) a = tt

  guarded :
      (b : Bool) (e : FulfillError) (r : Result FulfillError (Db × (Order × Bool)))
      → AnswersAgain organization s.id r
      → AnswersAgain organization s.id (if b then err e else r)
  guarded true e r a = tt
  guarded false e r a = a

  hold_of-organization :
      (hold_id : Option ℕ) (hold : Hold)
      → hold_of db organization hold_id ≡ some hold
      → hold.organization ≡ organization
  hold_of-organization hold_id hold e =
      (==_iff hold.organization organization).0
        (&&_split (hold.organization == organization) (is_key hold_id hold.id) (
          find_first-holds (λ h. h.organization == organization && is_key hold_id h.id) db.holds
            hold e)).0

  module _ (campaign_exists : ℕ → ℕ → Bool) (now : ℕ) where
    dispatch-AnswersAgain :
        (kind : SessionKind)
        → AnswersAgain organization s.id
            (dispatch new_token campaign_exists db organization s kind now)
    unfolding dispatch
    dispatch-AnswersAgain (SessionKind.donation none campaign) = tt
    dispatch-AnswersAgain (SessionKind.donation (some amount) campaign) =
        or_winner-AnswersAgain FulfillError.integrity_error _
          (donation-Answers amount (campaign_of campaign_exists organization campaign) now)
    dispatch-AnswersAgain (SessionKind.pass product) =
        elim (Option-cases (product_of db organization product)) [
          | inl missing ↦ rw (missing, AnswersAgain, dispatch) tt
          | inr (p, found) ↦
              rw (found, AnswersAgain, dispatch)
                (or_winner-AnswersAgain FulfillError.integrity_error _ (pass-Answers p now))
        ]
    dispatch-AnswersAgain (SessionKind.tickets hold_id) =
        elim (Option-cases (hold_of db organization hold_id)) [
          | inl missing ↦ rw (missing, AnswersAgain, dispatch) tt
          | inr (hold, found) ↦
              rw (found, AnswersAgain, dispatch)
                (guarded (leb hold.expires_at now) FulfillError.hold_gone _ (
                  or_winner-AnswersAgain (FulfillError.availability_changed []) _
                    (hold-Answers hold now (hold_of-organization hold_id hold found))))
        ]

answered :
    (new_token : ℕ → Text) (campaign_exists : ℕ → ℕ → Bool) (db : Db) (organization : ℕ)
    (s : Session) (now : ℕ)
    → AnswersAgain organization s.id
        (fulfill_checkout_session new_token campaign_exists db organization s now)
unfolding fulfill_checkout_session
answered new_token campaign_exists db organization s now =
    elim (Option-cases (order_of_session db organization s.id)) [
      | inr (existing, e) ↦ rw (e, AnswersAgain, fulfill_checkout_session) e
      | inl new ↦
          rw (new, AnswersAgain, fulfill_checkout_session)
            (elim (Bool-cases
              (is_some s.organization_id && not (is_key s.organization_id organization))) [
                | inl mismatch ↦ rw (mismatch, AnswersAgain) tt
                | inr same ↦
                    rw (same, AnswersAgain)
                      (dispatch-AnswersAgain new_token db organization s new campaign_exists now
                        s.kind)
              ])
    ]

AnswersAgain-ok :
    (organization : ℕ) (session : Text) (r : Result FulfillError (Db × (Order × Bool))) {db : Db}
    {o : Order} {created : Bool}
    → AnswersAgain organization session r
    → r ≡ ok (db, (o, created))
    → order_of_session db organization session ≡ some o
AnswersAgain-ok organization session r a e = subst (AnswersAgain organization session) e a

-- Once a session has its order, a redelivery of the session at any later time returns that order, says
-- that it made none, and changes nothing.
pub fulfill_checkout_session_idempotent :
    (new_token : ℕ → Text) (campaign_exists : ℕ → ℕ → Bool) (db : Db) (organization : ℕ)
    (s : Session) (now later : ℕ) {db' : Db} {o : Order} {created : Bool}
    → fulfill_checkout_session new_token campaign_exists db organization s now
      ≡ ok (db', (o, created))
    → fulfill_checkout_session new_token campaign_exists db' organization s later
      ≡ ok (db', (o, false))
unfolding fulfill_checkout_session
fulfill_checkout_session_idempotent new_token campaign_exists db organization s now later e =
    rw
      (
        AnswersAgain-ok organization s.id _
            (answered new_token campaign_exists db organization s now) e,
        fulfill_checkout_session,
      )
      refl
