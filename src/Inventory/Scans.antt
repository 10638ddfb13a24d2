-- ===== src/Inventory/Scans.antt =====
-- scanning/services.py's redeem_ticket keeps the inventory's invariant: a used ticket is as live as a
-- valid one.
use boxoffice.Scanning.{use_ticket, save_used, has_token, redeem_ticket}
use boxoffice.Scanning.Once.{redeem_found-cases}
use boxoffice.Orders.Tokens.{verify_ticket_sig}
use boxoffice.Orders.Availability.{is_ticketed, is_live_for}
use boxoffice.Common.Updates.{only, count_by-update, any-update}
use boxoffice.Common.Keys.{Keyed-update}
use boxoffice.Inventory.{IsSound, ga_held}
use boxoffice.Common.{
  ℕ, ◌≡◌, refl, ap, ◌∙◌, inl, inr, Bool, true, Option, some, List, [], ◌∷◌, ◌==◌, ==_refl,
  Bool-cases, Option-cases, find_first, All,
}
use boxoffice.Common.Text.{Text}
use boxoffice.Db.{Db, TicketStatus, Ticket}

module _ (now : ℕ) (db : Db) (ticket : Ticket) (scanned_by at : ℕ) (test : Ticket → Bool)
    (found : find_first test db.tickets ≡ some ticket) (unused : ticket.status ≡ TicketStatus.valid)
    (v : IsSound now db) where
  over_ticket : All (λ t. (t.id == ticket.id) ≡ true → t ≡ ticket) db.tickets
  over_ticket =
      only test (λ t. t.id == ticket.id) db.tickets ticket found (==_refl ticket.id)
        (v.tickets_keyed.once ticket.id)

  as_live :
      (p s : ℕ) (ts : List Ticket)
      → All (λ t. (t.id == ticket.id) ≡ true → t ≡ ticket) ts
      → All
          (λ t.
            (t.id == ticket.id) ≡ true
            → is_live_for p s (use_ticket at scanned_by t) ≡ is_live_for p s t)
          ts
  as_live p s [] h = tt
  as_live p s (t ∷ ts) h = (
    λ e.
        let valid : t.status ≡ TicketStatus.valid =
          ap (λ (t : Ticket). t.status) (h.0 e) ∙ unused in
        rw valid refl,
    as_live p s ts h.1,
  )

  ticketed-kept :
      (p s : ℕ) → is_ticketed (save_used db ticket at scanned_by) p s ≡ is_ticketed db p s
  ticketed-kept p s =
      any-update (λ t. t.id == ticket.id) (use_ticket at scanned_by) (is_live_for p s) db.tickets
        (as_live p s db.tickets over_ticket)

  save_used-IsSound : IsSound now (save_used db ticket at scanned_by)
  unfolding ga_held
  save_used-IsSound = record {
    scoped = v.scoped;
    ga_fits = v.ga_fits;
    held_once = v.held_once;
    held_not_sold = λ p s e. ticketed-kept p s ∙ v.held_not_sold p s e;
    sold_once = λ p s.
        rw
          (count_by-update (λ t. t.id == ticket.id) (use_ticket at scanned_by) (is_live_for p s)
            db.tickets (as_live p s db.tickets over_ticket))
          (v.sold_once p s);
    key_once = v.key_once;
    keys = v.keys;
    tickets_keyed =
        Keyed-update (λ (t : Ticket). t.id) db.next_id (λ t. t.id == ticket.id)
          (use_ticket at scanned_by) db.tickets (λ _. refl) v.tickets_keyed;
  }

-- A scan keeps the invariant, whatever its verdict.
pub redeem_ticket-IsSound :
    (secret_key : Text) (hmac_sha256 : Text → Text → List ℕ) (now : ℕ) (db : Db) (organization : ℕ)
    (token : Text) (sig : Option Text) (scanned_by at : ℕ)
    → IsSound now db
    → IsSound now (redeem_ticket secret_key hmac_sha256 db organization token sig scanned_by at).0
unfolding redeem_ticket
redeem_ticket-IsSound secret_key hmac_sha256 now db organization token sig scanned_by at v =
    elim (Bool-cases (verify_ticket_sig secret_key hmac_sha256 token sig organization)) [
      | inr forged ↦ rw forged v
      | inl genuine ↦ elim (Option-cases (find_first (has_token organization token) db.tickets)) [
        | inl missing ↦ rw (genuine, missing) v
        | inr (ticket, found) ↦ elim (redeem_found-cases db ticket at scanned_by) [
          | inl same ↦ rw (genuine, found, same.0) v
          | inr (saved, unused) ↦
              rw (genuine, found, saved)
                (save_used-IsSound now db ticket scanned_by at (has_token organization token) found
                  unused v)
        ]
      ]
    ]
