-- ===== src/Scanning/Admission.antt =====
-- scanning/services.py's redeem_ticket: whom it admits, and that it admits a code once.
use boxoffice.Scanning.{wrong_time_result, has_token, redeem_found, redeem_ticket}
use boxoffice.Orders.Tokens.{verify_ticket_sig}
use boxoffice.Common.Results.{some-injective}
use boxoffice.Common.{
  ℕ, ◌+◌, ◌≤◌, ◌≡◌, refl, sym, subst, inl, inr, ◌↔◌, true, Option, some, List, arith, Bool-cases,
  Option-cases, find_first,
}
use boxoffice.Common.Text.{Text}
use boxoffice.Db.{Db, TicketStatus, Ticket}

-- From an hour before the performance starts to four hours after.
abbrev pub IsShowtime : Db → Ticket → ℕ → Type 0
IsShowtime db ticket now =
    let starts_at = (db.performance ticket.performance).starts_at in
    (starts_at ≤ now + 3600) × (now ≤ starts_at + 14400)

-- What a code needs to be admitted.
abbrev pub IsAdmissible : Db → Ticket → ℕ → Type 0
IsAdmissible db ticket now = (ticket.status ≡ TicketStatus.valid) × IsShowtime db ticket now

redeem_found_iff :
    (db : Db) (ticket : Ticket) (now scanned_by : ℕ)
    → ((redeem_found db ticket now scanned_by).1.ok ≡ true) ↔ IsAdmissible db ticket now
unfolding redeem_found wrong_time_result
redeem_found_iff db ticket now scanned_by = (λ h. ground arith, λ h. ground arith)

module _ (secret_key : Text) (hmac_sha256 : Text → Text → List ℕ) where
  -- A scan admits exactly if the signature is the token's, the theater has a ticket with the token, and
  -- that ticket is valid, neither used nor void, and scanned from an hour before its performance
  -- starts to four hours after.
  pub redeem_ticket_admits_iff :
      (db : Db) (organization : ℕ) (token : Text) (sig : Option Text) (scanned_by now : ℕ)
      → ((redeem_ticket secret_key hmac_sha256 db organization token sig scanned_by now).1.ok
          ≡ true)
        ↔ ((verify_ticket_sig secret_key hmac_sha256 token sig organization ≡ true)
            × ((ticket : Ticket) × (find_first (has_token organization token) db.tickets
                  ≡ some ticket)
                × IsAdmissible db ticket now))
  unfolding redeem_ticket
  redeem_ticket_admits_iff db organization token sig scanned_by now =
      elim (Bool-cases (verify_ticket_sig secret_key hmac_sha256 token sig organization)) [
        | inr forged ↦ rw forged (λ h. cc, λ h. cc h.0)
        | inl genuine ↦ elim (Option-cases (find_first (has_token organization token) db.tickets)) [
          | inl missing ↦ rw (genuine, missing) (λ h. cc, λ (u, (t, e, a)). cc e)
          | inr (ticket, found) ↦
              rw (genuine, found)
                (
                  λ h. (refl, (ticket, refl, (redeem_found_iff db ticket now scanned_by).0 h)),
                  λ (u, (t, e, a)).
                      (redeem_found_iff db ticket now scanned_by).1
                        (subst (λ t. IsAdmissible db t now) (sym (some-injective e)) a),
                )
        ]
      ]
