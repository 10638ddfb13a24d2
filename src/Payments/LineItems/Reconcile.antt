-- ===== src/Payments/LineItems/Reconcile.antt =====
-- The lines of the checkout page, less the coupon, come to what the order records.
use boxoffice.Common.{
  ℕ, ◌≡◌, sym, ap, subst, ◌∙◌, ◌⊎◌, inl, inr, false, none, some, List, [], ◌∷◌, ◌++◌, arith,
  Bool-cases, Option-cases, All,
}
use boxoffice.Common.Int.{ℤ, pos, ◌+ℤ◌, ◌-ℤ◌, ◌≤ℤ◌, leb_ℤ, scale, max_ℤ, eq_of_parts, int_laws}
use boxoffice.Common.Text.{Text}
use boxoffice.Db.{Db, HoldSeat, Hold}
use boxoffice.Common.Scale.{scale_comm, scale_one, scale-add, scale-sub}
use boxoffice.Orders.Money.{
  ga_parts, ga_unit_amount, hold_currency, hold_donation, hold_discount, hold_total,
  hold_grand_total, sum_seats,
}
use boxoffice.Payments.Units.{to_minor_units, is_zero_decimal}
use boxoffice.Payments.Units.Exact.{per_hundredth, to_minor_units_exact}
use boxoffice.Payments.LineItems.{
  LineItem, seat_currency, seat_lines, donation_lines, ga_line, line_items_for_hold, charge,
}

-- The currency has k minor units to a hundredth of its major unit; no zero-decimal currency does.
abbrev pub ChargesIn : ℕ → Text → Type 0
ChargesIn k currency = (is_zero_decimal currency ≡ false) × (per_hundredth currency ≡ k)

-- Every line of the hold is in such a currency: the tier of a general-admission hold, the tiers of
-- the seats, and the currency of the donation.
pub record IsUniform (k : ℕ) (db : Db) (hold : Hold) : Type 0 where
  pub whole : ChargesIn k (hold_currency db hold)
  pub seats : All (λ hs. ChargesIn k (seat_currency db hold hs)) hold.hold_seats

module _ (k : ℕ) (small : (k ≡ 1) ⊎ (k ≡ 10)) (db : Db) (hold : Hold) where
  minor :
      (amount : ℤ) (currency : Text)
      → ChargesIn k currency
      → to_minor_units amount currency ≡ scale k amount
  minor amount currency (major, e) =
      to_minor_units_exact amount currency major ∙ ap (λ j. scale j amount) e

  scale_zero : scale k (pos 0) ≡ pos 0
  unfolding scale
  scale_zero = elim small [ inl e ↦ rw e | inr e ↦ rw e ]

  charge-append : (xs ys : List LineItem) → charge (xs ++ ys) ≡ charge xs +ℤ charge ys
  charge-append [] ys = omega int_laws
  charge-append (x ∷ xs) ys = rw (charge-append xs ys) (omega int_laws)

  charge-seat_lines :
      (seats : List HoldSeat)
      → All (λ hs. ChargesIn k (seat_currency db hold hs)) seats
      → charge (seat_lines db hold seats) ≡ scale k (sum_seats seats)
  charge-seat_lines [] u = sym scale_zero
  charge-seat_lines (hs ∷ rest) u = rw (
    scale_one,
    minor hs.unit_amount (seat_currency db hold hs) u.0,
    charge-seat_lines rest u.1,
    scale-add k hs.unit_amount (sum_seats rest) small,
  )

  charge-donation_lines :
      ChargesIn k (hold_currency db hold)
      → pos 0 ≤ℤ hold_donation hold
      → charge (donation_lines db hold) ≡ scale k (hold_donation hold)
  charge-donation_lines u gift = elim (Bool-cases (leb_ℤ (hold_donation hold) (pos 0))) [
    | inl nothing ↦
        let zero_gift : hold_donation hold ≡ pos 0 =
          eq_of_parts (hold_donation hold) (pos 0) (ground (arith, nothing, gift)) in
        rw nothing (sym scale_zero ∙ ap (scale k) (sym zero_gift))
    | inr something ↦
        rw (something, scale_one, minor (hold_donation hold) (hold_currency db hold) u)
          (omega int_laws)
  ]

  ga_currency :
      (tier q : ℕ)
      → ga_parts hold ≡ some (tier, q)
      → (db.tier tier).currency ≡ hold_currency db hold
  unfolding hold_currency
  ga_currency tier q e = ground arith

  charge-ga_line :
      (tier q : ℕ)
      → ga_parts hold ≡ some (tier, q)
      → ChargesIn k (hold_currency db hold)
      → scale q (ga_line db hold tier q).unit_amount
        ≡ scale k (scale q (ga_unit_amount db hold tier))
  charge-ga_line tier q e u =
      ap (scale q) (
        minor (ga_unit_amount db hold tier) (db.tier tier).currency
          (subst (ChargesIn k) (sym (ga_currency tier q e)) u))
      ∙ scale_comm q k (ga_unit_amount db hold tier)

  total-ga :
      (tier q : ℕ)
      → ga_parts hold ≡ some (tier, q)
      → hold_total db hold ≡ scale q (ga_unit_amount db hold tier)
  unfolding hold_total
  total-ga tier q e = rw (e, hold_total)

  lines-ga :
      (tier q : ℕ)
      → ga_parts hold ≡ some (tier, q)
      → line_items_for_hold db hold ≡ ga_line db hold tier q ∷ donation_lines db hold
  unfolding line_items_for_hold
  lines-ga tier q e = rw (e, line_items_for_hold)

  total-reserved : ga_parts hold ≡ none → hold_total db hold ≡ sum_seats hold.hold_seats
  unfolding hold_total
  total-reserved e = rw (e, hold_total)

  lines-reserved :
      ga_parts hold ≡ none
      → line_items_for_hold db hold ≡ seat_lines db hold hold.hold_seats ++ donation_lines db hold
  unfolding line_items_for_hold
  lines-reserved e = rw (e, line_items_for_hold)

  -- The lines come to the gross tickets and the gift.
  charge-line_items :
      IsUniform k db hold
      → pos 0 ≤ℤ hold_donation hold
      → charge (line_items_for_hold db hold) ≡ scale k (hold_total db hold +ℤ hold_donation hold)
  charge-line_items u gift =
      rw (scale-add k (hold_total db hold) (hold_donation hold) small)
        (elim (Option-cases (ga_parts hold)) [
          | inl reserved ↦ rw (
            total-reserved reserved,
            lines-reserved reserved,
            charge-append (seat_lines db hold hold.hold_seats) (donation_lines db hold),
            charge-seat_lines hold.hold_seats u.seats,
            charge-donation_lines u.whole gift,
          )
          | inr ((tier, q), ga) ↦ rw (
            total-ga tier q ga,
            lines-ga tier q ga,
            charge-ga_line tier q ga u.whole,
            charge-donation_lines u.whole gift,
          )
        ])

-- A discount of at most the tickets comes off in full.
max_nonneg : (a : ℤ) → pos 0 ≤ℤ a → max_ℤ a (pos 0) ≡ a
max_nonneg a h = ground arith

net_charge :
    (db : Db) (hold : Hold)
    → hold_discount hold ≤ℤ hold_total db hold
    → hold_total db hold +ℤ hold_donation hold -ℤ hold_discount hold ≡ hold_grand_total db hold
unfolding hold_grand_total
net_charge db hold within =
    rw (max_nonneg (hold_total db hold -ℤ hold_discount hold) (omega int_laws)) (omega int_laws)

-- Where a hundredth of every line's currency is k minor units, what the page charges for, less the
-- coupon, is what the order will record, provided that the gift is not negative and the discount at
-- most the tickets.
pub line_items_reconcile :
    (k : ℕ) (db : Db) (hold : Hold)
    → (k ≡ 1) ⊎ (k ≡ 10)
    → IsUniform k db hold
    → pos 0 ≤ℤ hold_donation hold
    → hold_discount hold ≤ℤ hold_total db hold
    → charge (line_items_for_hold db hold)
        -ℤ to_minor_units (hold_discount hold) (hold_currency db hold)
      ≡ to_minor_units (hold_grand_total db hold) (hold_currency db hold)
line_items_reconcile k db hold small u gift within =
    rw
      (
        charge-line_items k small db hold u gift,
        minor k small db hold (hold_discount hold) (hold_currency db hold) u.whole,
        minor k small db hold (hold_grand_total db hold) (hold_currency db hold) u.whole,
      )
      (sym (scale-sub k (hold_total db hold +ℤ hold_donation hold) (hold_discount hold) small)
        ∙ ap (scale k) (net_charge db hold within))
