-- ===== src/Scanning/Once.antt =====
-- scanning/services.py's redeem_ticket over any sequence of scans, in the order in which their
-- transactions commit: a code is admitted at most once.
use boxoffice.Scanning.{
  ScanResult, use_ticket, save_used, has_token, redeem_found, redeem_ticket, wrong_time_result,
}
use boxoffice.Common.Counting.{find_first-update}
use boxoffice.Orders.Tokens.{verify_ticket_sig}
use boxoffice.Scanning.Admission.{redeem_ticket_admits_iff}
use boxoffice.Common.Results.{some-injective}
use boxoffice.Common.{
  ℕ, ◌+◌, ◌≤◌, ◌≡◌, refl, sym, ap, subst, ◌∙◌, ◌≢◌, ◌⊎◌, inl, inr, Bool, true, false, ◌&&◌, Option,
  some, List, [], ◌∷◌, arith, ◌==◌, if◌then◌else◌, ==_iff, ==_refl, &&_split, Bool-cases,
  Option-cases, find_first,
}
use boxoffice.Common.Text.{Text, text_eq, text_eq_iff}
use boxoffice.Db.{Db, TicketStatus, Ticket}

-- The arguments of one call.
pub record Scan : Type 0 where
  pub organization : ℕ
  pub token : Text
  pub sig : Option Text
  pub scanned_by : ℕ
  pub now : ℕ

-- The ticket that a code names is used.
abbrev pub IsUsed : ℕ → Text → Db → Type 0
IsUsed organization token db =
    (t : Ticket) × (find_first (has_token organization token) db.tickets ≡ some t)
    × (t.status ≡ TicketStatus.used)

abbrev pub is_scan_of : ℕ → Text → Scan → Bool
is_scan_of organization token s = s.organization == organization && text_eq s.token token

IsUsed-saved :
    (organization : ℕ) (token : Text) (db : Db) (ticket : Ticket) (now scanned_by : ℕ)
    → IsUsed organization token db
    → IsUsed organization token (save_used db ticket now scanned_by)
IsUsed-saved organization token db ticket now scanned_by (t, found, used) = (
  if t.id == ticket.id then use_ticket now scanned_by t else t,
  find_first-update (has_token organization token) (λ t. t.id == ticket.id)
        (use_ticket now scanned_by) db.tickets (λ _. refl)
      ∙ rw found refl,
  ground (arith, used),
)

-- The ticket that is admitted is the one that its code names afterwards.
saved-IsUsed :
    (organization : ℕ) (token : Text) (db : Db) (ticket : Ticket) (now scanned_by : ℕ)
    → find_first (has_token organization token) db.tickets ≡ some ticket
    → IsUsed organization token (save_used db ticket now scanned_by)
saved-IsUsed organization token db ticket now scanned_by found = (
  use_ticket now scanned_by ticket,
  find_first-update (has_token organization token) (λ t. t.id == ticket.id)
        (use_ticket now scanned_by) db.tickets (λ _. refl)
      ∙ rw (found, ==_refl ticket.id) refl,
  refl,
)

-- The verdict on a ticket and what it writes.
pub redeem_found-cases :
    (db : Db) (ticket : Ticket) (now scanned_by : ℕ)
    → (((redeem_found db ticket now scanned_by).0 ≡ db)
        × ((redeem_found db ticket now scanned_by).1.ok ≡ false))
      ⊎ (((redeem_found db ticket now scanned_by).0 ≡ save_used db ticket now scanned_by)
          × (ticket.status ≡ TicketStatus.valid))
unfolding redeem_found wrong_time_result
redeem_found-cases db ticket now scanned_by = ground arith

redeem_found-IsUsed :
    (organization : ℕ) (token : Text) (db : Db) (ticket : Ticket) (now scanned_by : ℕ)
    → IsUsed organization token db
    → IsUsed organization token (redeem_found db ticket now scanned_by).0
redeem_found-IsUsed organization token db ticket now scanned_by u =
    elim (redeem_found-cases db ticket now scanned_by) [
      | inl same ↦ rw same.0 u
      | inr saved ↦ rw saved.0 (IsUsed-saved organization token db ticket now scanned_by u)
    ]

module _ (secret_key : Text) (hmac_sha256 : Text → Text → List ℕ) where
  abbrev pub redeem : Db → Scan → Db × ScanResult
  redeem db s =
      redeem_ticket secret_key hmac_sha256 db s.organization s.token s.sig s.scanned_by s.now

  -- The admissions of a code in a sequence of scans.
  abbrev pub admissions : ℕ → Text → Db → List Scan → ℕ
  admissions organization token db [] = 0
  admissions organization token db (s ∷ scans) =
      let (db', result) = redeem db s in
      (if is_scan_of organization token s && result.ok then 1 else 0)
      + admissions organization token db' scans

  -- A used ticket stays used.
  redeem-IsUsed :
      (organization : ℕ) (token : Text) (db : Db) (s : Scan)
      → IsUsed organization token db
      → IsUsed organization token (redeem db s).0
  unfolding redeem_ticket
  redeem-IsUsed organization token db s u =
      elim (Bool-cases (verify_ticket_sig secret_key hmac_sha256 s.token s.sig s.organization)) [
        | inr forged ↦ rw forged u
        | inl genuine ↦
            elim (Option-cases (find_first (has_token s.organization s.token) db.tickets)) [
              | inl missing ↦ rw (genuine, missing) u
              | inr (ticket, found) ↦
                  rw (genuine, found)
                    (redeem_found-IsUsed organization token db ticket s.now s.scanned_by u)
            ]
      ]

  -- What a scan of a code does: it is refused, or its ticket is now used.
  redeem_once :
      (db : Db) (s : Scan)
      → ((redeem db s).1.ok ≡ false) ⊎ IsUsed s.organization s.token (redeem db s).0
  unfolding redeem_ticket
  redeem_once db s =
      elim (Bool-cases (verify_ticket_sig secret_key hmac_sha256 s.token s.sig s.organization)) [
        | inr forged ↦ inl (rw forged refl)
        | inl genuine ↦
            elim (Option-cases (find_first (has_token s.organization s.token) db.tickets)) [
              | inl missing ↦ inl (rw (genuine, missing) refl)
              | inr (ticket, found) ↦ elim (redeem_found-cases db ticket s.now s.scanned_by) [
                | inl same ↦ inl (rw (genuine, found) same.1)
                | inr saved ↦ inr (
                    rw (genuine, found, saved.0)
                      (saved-IsUsed s.organization s.token db ticket s.now s.scanned_by found))
              ]
            ]
      ]

used_valid : TicketStatus.used ≢ TicketStatus.valid
used_valid h = cc

same_scan :
    (organization : ℕ) (token : Text) (s : Scan)
    → is_scan_of organization token s ≡ true
    → (s.organization ≡ organization) × (s.token ≡ token)
same_scan organization token s e =
    let (a, b) = &&_split (s.organization == organization) (text_eq s.token token) e in
    ((==_iff s.organization organization).0 a, (text_eq_iff s.token token).0 b)

module _ (secret_key : Text) (hmac_sha256 : Text → Text → List ℕ) where
  used_refused :
      (db : Db) (s : Scan)
      → IsUsed s.organization s.token db
      → (redeem secret_key hmac_sha256 db s).1.ok ≡ false
  used_refused db s (t, found, used) =
      elim (Bool-cases ((redeem secret_key hmac_sha256 db s).1.ok)) [
        | inl admitted_again ↦
            let (genuine, (t', found', admissible)) =
              (redeem_ticket_admits_iff secret_key hmac_sha256 db s.organization s.token s.sig
                  s.scanned_by s.now).0
                admitted_again in
            absurd (
              used_valid (
                sym used
                ∙ ap (λ (t : Ticket). t.status) (some-injective (sym found ∙ found'))
                ∙ admissible.0))
        | inr refused ↦ refused
      ]

  admissions_none :
      (organization : ℕ) (token : Text) (db : Db) (scans : List Scan)
      → IsUsed organization token db
      → admissions secret_key hmac_sha256 organization token db scans ≡ 0
  admissions_none organization token db [] u = refl
  admissions_none organization token db (s ∷ scans) u =
      let rest =
        admissions_none organization token (redeem secret_key hmac_sha256 db s).0 scans
          (redeem-IsUsed secret_key hmac_sha256 organization token db s u) in
      elim (Bool-cases (is_scan_of organization token s)) [
        | inr other ↦ ground (arith, other, rest)
        | inl same ↦
            let (o, t) = same_scan organization token s same in
            let u' =
              subst (λ k. IsUsed s.organization k db) (sym t)
                (subst (λ k. IsUsed k token db) (sym o) u) in
            ground (arith, used_refused db s u', rest)
      ]

  -- Over any sequence of scans of any codes, by any staff at any times, a code is admitted at most once.
  pub admissions_at_most_once :
      (organization : ℕ) (token : Text) (db : Db) (scans : List Scan)
      → admissions secret_key hmac_sha256 organization token db scans ≤ 1
  admissions_at_most_once organization token db [] = omega arith
  admissions_at_most_once organization token db (s ∷ scans) =
      let next = (redeem secret_key hmac_sha256 db s).0 in
      let rest = admissions_at_most_once organization token next scans in
      elim (redeem_once secret_key hmac_sha256 db s) [
        | inl refused ↦ ground (arith, refused, rest)
        | inr used ↦ elim (Bool-cases (is_scan_of organization token s)) [
          | inr other ↦ ground (arith, other, rest)
          | inl same ↦
              let (o, t) = same_scan organization token s same in
              let u =
                subst (λ k. IsUsed organization k next) t
                  (subst (λ k. IsUsed k s.token next) o used) in
              ground (arith, admissions_none organization token next scans u)
        ]
      ]
