-- ===== src/System/Reachable.antt =====
-- What holds in every state that the box office can reach.
use boxoffice.Orders.Holds.{release_hold}
use boxoffice.Payments.Fulfill.{Purchase, fulfill_hold}
use boxoffice.System.{State, Step, Run}
use boxoffice.Orders.Availability.{is_active, get_allocation}
use boxoffice.Inventory.{IsSound, ga_held}
use boxoffice.Inventory.Changes.{later-IsSound}
use boxoffice.Inventory.Holds.{set_ga_hold-IsSound, clear-IsSound, release_hold_by_id-IsSound}
use boxoffice.Inventory.Seats.{set_reserved_hold-IsSound}
use boxoffice.Inventory.Cart.{
  apply_promo_code-IsSound, remove_promo_code-IsSound, set_hold_donation-IsSound,
  clear_hold_donation-IsSound,
}
use boxoffice.Inventory.Fulfilled.{fulfill_hold-IsSound}
use boxoffice.Inventory.Voids.{void_order-IsSound}
use boxoffice.Inventory.Scans.{redeem_ticket-IsSound}
use boxoffice.Inventory.Checkouts.{fulfill_checkout_session-OnOk}
use boxoffice.Inventory.PassRedemptions.{fulfill_hold_with_pass-OnOk}
use boxoffice.Inventory.Refunds.{refund_order-OnOk}
use boxoffice.Payments.PassRedemption.{fulfill_hold_with_pass, check_hold}
use boxoffice.Inventory.Counted.{is_ga_live, IsCounted}
use boxoffice.Inventory.Counted.Voided.{void_order-IsCounted}
use boxoffice.Inventory.Counted.Written.{
  clear-IsCounted, release_hold_by_id-IsCounted, set_ga_hold-IsCounted, set_reserved_hold-IsCounted,
  apply_promo_code-IsCounted, set_hold_donation-IsCounted, remove_promo_code-IsCounted,
  clear_hold_donation-IsCounted,
}
use boxoffice.Inventory.Counted.Reversed.{redeem_ticket-IsCounted, refund_order-IsCounted}
use boxoffice.Inventory.Counted.Placed.{fulfill_hold-IsCounted, fulfill_hold_with_pass-IsCounted}
use boxoffice.Inventory.Counted.Delivered.{fulfill_checkout_session-IsCounted}
use boxoffice.Common.{
  ◌+◌, ◌≤◌, some, count_by, ℕ, ◌≡◌, inl, inr, Bool, true, Option, List, arith, leb, Bool-cases,
}
use boxoffice.Common.Text.{Text}
use boxoffice.Common.Results.{ok, OnOk-ok, err-ne-ok}
use boxoffice.Db.{Db, GaAllocation, Hold, Order}

-- The live general-admission tickets of a performance and the places that are held fit into its
-- allocation.
abbrev pub NotOversold : ℕ → Db → Type 0
NotOversold now db =
    (p : ℕ) (a : GaAllocation)
    → get_allocation db p ≡ some a
    → count_by (is_ga_live p) db.tickets + ga_held db p now ≤ a.capacity

within : (now : ℕ) (db : Db) → IsSound now db → IsCounted db → NotOversold now db
within now db v c p a e = omega (arith, v.ga_fits p a e, c.counted p a e)

-- fulfill_hold itself refuses a hold that has run out.
fulfilled-is_active :
    (new_token : ℕ → Text) (now : ℕ) (db : Db) (hold : Hold) (purchase : Purchase) {db' : Db}
    {order : Order}
    → fulfill_hold new_token db hold purchase now ≡ ok (db', order)
    → is_active now hold ≡ true
unfolding fulfill_hold
fulfilled-is_active new_token now db hold purchase e = elim (Bool-cases (leb hold.expires_at now)) [
  | inl expired ↦ absurd (err-ne-ok (rw (expired, fulfill_hold) at e))
  | inr running ↦ ground (arith, running)
]

-- So does fulfill_hold_with_pass.
redeemed-is_active :
    (new_token : ℕ → Text) (now : ℕ) (db : Db) (hold : Hold) (pass : ℕ) (email name : Text)
    (opt_in : Bool) {db' : Db} {order : Order}
    → fulfill_hold_with_pass new_token db hold pass email name opt_in now ≡ ok (db', order)
    → is_active now hold ≡ true
unfolding fulfill_hold_with_pass check_hold
redeemed-is_active new_token now db hold pass email name opt_in e =
    elim (Bool-cases (leb hold.expires_at now)) [
      | inl expired ↦ absurd (err-ne-ok (rw (expired, fulfill_hold_with_pass, check_hold) at e))
      | inr running ↦ ground (arith, running)
    ]

module _ (new_token : ℕ → Text) (secret_key : Text) (hmac_sha256 : Text → Text → List ℕ)
    (campaign_exists : ℕ → ℕ → Bool) (stripe_refund : Text → Option Text) where
  pub Step-IsSound :
      (s t : State)
      → Step new_token secret_key hmac_sha256 campaign_exists stripe_refund s t
      → IsSound s.now s.db
      → IsSound t.now t.db
  unfolding release_hold
  Step-IsSound s t (Step.time later le) v = later-IsSound s.now later le s.db v
  Step-IsSound s t (Step.held_ga o p k u tier q own e) v =
      set_ga_hold-IsSound s.now s.db o p k u tier q own v e
  Step-IsSound s t (Step.held_reserved o p k u ids own e) v =
      set_reserved_hold-IsSound s.now s.db o p k u ids own v e
  Step-IsSound s t (Step.released o p k) v = clear-IsSound s.now s.db o p k v
  Step-IsSound s t (Step.released_by_id o k id) v = release_hold_by_id-IsSound s.now s.db o k id v
  Step-IsSound s t (Step.promo_applied o k id code e) v =
      apply_promo_code-IsSound s.now s.db o k id v code e
  Step-IsSound s t (Step.promo_removed o k id) v = remove_promo_code-IsSound s.now s.db o k id v
  Step-IsSound s t (Step.donation_set o k id amount c e) v =
      set_hold_donation-IsSound s.now s.db o k id v amount c e
  Step-IsSound s t (Step.donation_cleared o k id) v =
      clear_hold_donation-IsSound s.now s.db o k id v
  Step-IsSound s t (Step.fulfilled test hold purchase found e) v =
      fulfill_hold-IsSound new_token s.now s.db hold purchase v
        (record {
          test = test;
          found = found;
          active = fulfilled-is_active new_token s.now s.db hold purchase e;
        })
        e
  Step-IsSound s t (Step.checked_out o session e) v =
      OnOk-ok (IsSound s.now) _
        (fulfill_checkout_session-OnOk new_token s.now s.db v campaign_exists o session) e
  Step-IsSound s t (Step.pass_redeemed test hold pass email name opt_in found e) v =
      OnOk-ok (IsSound s.now) _
        (fulfill_hold_with_pass-OnOk new_token s.now s.db hold pass email name opt_in v (record {
          test = test;
          found = found;
          active = redeemed-is_active new_token s.now s.db hold pass email name opt_in e;
        }))
        e
  Step-IsSound s t (Step.refunded order e) v =
      OnOk-ok (IsSound s.now) _ (refund_order-OnOk s.now s.db v stripe_refund order) e
  Step-IsSound s t (Step.voided test order found) v = void_order-IsSound s.now s.db order v
  Step-IsSound s t (Step.scanned o token sig by) v =
      redeem_ticket-IsSound secret_key hmac_sha256 s.now s.db o token sig by s.now v

  Step-IsCounted :
      (s t : State)
      → Step new_token secret_key hmac_sha256 campaign_exists stripe_refund s t
      → IsSound s.now s.db
      → IsCounted s.db
      → IsCounted t.db
  unfolding release_hold
  Step-IsCounted s t (Step.time later le) v c = c
  Step-IsCounted s t (Step.held_ga o p k u tier q own e) v c =
      OnOk-ok IsCounted _ (set_ga_hold-IsCounted s.db o c p k u tier q s.now) e
  Step-IsCounted s t (Step.held_reserved o p k u ids own e) v c =
      OnOk-ok IsCounted _ (set_reserved_hold-IsCounted s.db o c p k u ids s.now) e
  Step-IsCounted s t (Step.released o p k) v c = clear-IsCounted s.db o c p k
  Step-IsCounted s t (Step.released_by_id o k id) v c = release_hold_by_id-IsCounted s.db o c k id
  Step-IsCounted s t (Step.promo_applied o k id code e) v c =
      apply_promo_code-IsCounted s.db o k id c s.now code e
  Step-IsCounted s t (Step.promo_removed o k id) v c = remove_promo_code-IsCounted s.db o k id c
  Step-IsCounted s t (Step.donation_set o k id amount campaign e) v c =
      set_hold_donation-IsCounted s.db o k id c s.now amount campaign e
  Step-IsCounted s t (Step.donation_cleared o k id) v c =
      clear_hold_donation-IsCounted s.db o k id c
  Step-IsCounted s t (Step.fulfilled test hold purchase found e) v c =
      OnOk-ok IsCounted _ (fulfill_hold-IsCounted new_token s.now s.db c hold purchase) e
  Step-IsCounted s t (Step.checked_out o session e) v c =
      OnOk-ok IsCounted _
        (fulfill_checkout_session-IsCounted new_token s.now s.db c campaign_exists o session) e
  Step-IsCounted s t (Step.pass_redeemed test hold pass email name opt_in found e) v c =
      OnOk-ok IsCounted _
        (fulfill_hold_with_pass-IsCounted new_token s.now s.db c hold pass email name opt_in) e
  Step-IsCounted s t (Step.refunded order e) v c =
      OnOk-ok IsCounted _ (refund_order-IsCounted s.db c stripe_refund order) e
  Step-IsCounted s t (Step.voided test order found) v c =
      void_order-IsCounted s.db order test found c
  Step-IsCounted s t (Step.scanned o token sig by) v c =
      redeem_ticket-IsCounted secret_key hmac_sha256 s.now s.db o token sig by s.now v c

  both_kept :
      (start s : State)
      → IsSound start.now start.db
      → IsCounted start.db
      → Run new_token secret_key hmac_sha256 campaign_exists stripe_refund start s
      → IsSound s.now s.db × IsCounted s.db
  both_kept start s v c Run.begin = (v, c)
  both_kept start s v c (Run.then r step) =
      let (v', c') = both_kept start _ v c r in
      (Step-IsSound _ s step v', Step-IsCounted _ s step v' c')

  -- Every sequence of transactions, with any time between them, keeps the two invariants of the tables:
  -- a seat of a performance is in one active hold or has one live ticket at most, and the sold places of
  -- an allocation count its live general-admission tickets. So no performance is oversold: its live
  -- general-admission tickets and the places that active holds have are within its capacity.
  pub Run-IsSound :
      (start s : State)
      → IsSound start.now start.db
      → IsCounted start.db
      → Run new_token secret_key hmac_sha256 campaign_exists stripe_refund start s
      → IsSound s.now s.db × IsCounted s.db × NotOversold s.now s.db
  Run-IsSound start s v c r =
      let (v', c') = both_kept start s v c r in (v', c', within s.now s.db v' c')
