-- ===== src/Campaigns/Start.antt =====
-- campaigns/services.py, start_campaign: what is queued, and that it happens once.
use boxoffice.Common.{
  ℕ, ◌≤◌, ◌≡◌, refl, sym, ap, ◌∙◌, inl, inr, Bool, true, false, ◌&&◌, some, List, [], ◌∷◌, arith,
  ◌==◌, ==_iff, ==_refl, update_where, any, count_by, find_first, length,
}
use boxoffice.Common.Counting.{count_by-zero, find_first-holds}
use boxoffice.Common.Pairs.{All-always}
use boxoffice.Common.Results.{ok, err, Result-cases, ok-injective, err-ne-ok}
use boxoffice.Db.{GuestAccount}
use boxoffice.Campaigns.{
  EmailCampaign, CampaignSend, CampaignError, Mail, is_draft, is_pending, segment_guests, is_send,
  new_send, queue_guest, queue_sends, started, save_campaign, locked_draft, start_campaign,
}
use boxoffice.Campaigns.Queue.{
  of_campaign, IsKeyed, AreFresh, segment-IsKeyed, queued-count, queued_unique,
}

queued_campaigns :
    (c : EmailCampaign) (gs : List GuestAccount) (m : Mail)
    → (queue_sends m c gs).campaigns ≡ m.campaigns
unfolding queue_sends
queued_campaigns c [] m = refl
queued_campaigns c (g ∷ gs) m = queued_campaigns c gs (queue_guest m c g) ∙ ground arith

overwritten :
    (c c' : EmailCampaign) (pk : ℕ) (xs : List EmailCampaign)
    → find_first (λ (x : EmailCampaign). x.id == pk) xs ≡ some c
    → c'.id ≡ pk
    → find_first
        (λ (x : EmailCampaign). x.id == pk)
        (update_where (λ (x : EmailCampaign). x.id == c'.id) (λ _. c') xs)
      ≡ some c'
overwritten c c' pk [] e i = cc
overwritten c c' pk (x ∷ xs) e i = ground (arith, e, i, ==_refl pk, overwritten c c' pk xs)

none_by_campaign :
    (pk k : ℕ) (sends : List CampaignSend)
    → any (of_campaign pk) sends ≡ false
    → any (is_send pk k) sends ≡ false
none_by_campaign pk k [] e = refl
none_by_campaign pk k (s ∷ sends) e = ground (arith, e, none_by_campaign pk k sends)

started-not_draft :
    (count now : ℕ) (c : EmailCampaign) → is_draft (started count now c).status ≡ false
started-not_draft count now c = ground arith

-- What a successful call read and wrote.
pub record Start (m : Mail) (pk now : ℕ) (m' : Mail) (count : ℕ) : Type 0 where
  pub campaign : EmailCampaign
  pub guests : List GuestAccount
  pub found : find_first (λ (x : EmailCampaign). x.id == pk) m.campaigns ≡ some campaign
  pub draft : is_draft campaign.status ≡ true
  pub segment : segment_guests m.db campaign ≡ ok guests
  pub size : length guests ≡ count
  pub wrote :
      save_campaign (queue_sends m campaign guests) (started (length guests) now campaign) ≡ m'

locked-found :
    (m : Mail) (pk : ℕ) (c : EmailCampaign)
    → locked_draft m pk ≡ ok c
    → (find_first (λ (x : EmailCampaign). x.id == pk) m.campaigns ≡ some c)
      × (is_draft c.status ≡ true)
locked-found m pk c e = ground (arith, e)

locked-refused :
    (m : Mail) (pk : ℕ) (c : EmailCampaign)
    → find_first (λ (x : EmailCampaign). x.id == pk) m.campaigns ≡ some c
    → is_draft c.status ≡ false
    → locked_draft m pk ≡ err CampaignError.not_a_draft
locked-refused m pk c found old = ground (arith, found, old)

pub Start-Start :
    (m : Mail) (pk now : ℕ) {m' : Mail} {count : ℕ}
    → start_campaign m pk now ≡ ok (m', count)
    → Start m pk now m' count
unfolding start_campaign
Start-Start m pk now e = elim (Result-cases (locked_draft m pk)) [
  | inl (failure, bad) ↦ absurd (err-ne-ok (rw bad at e))
  | inr (c, locked) ↦ elim (Result-cases (segment_guests m.db c)) [
    | inl (failure, bad) ↦ absurd (err-ne-ok (rw (locked, bad) at e))
    | inr (gs, good) ↦
        let pair = ok-injective (rw (locked, good) at e) in
        let (there, draft) = locked-found m pk c locked in
        record {
          campaign = c;
          guests = gs;
          found = there;
          draft = draft;
          segment = good;
          size = ap (λ (p : Mail × ℕ). p.1) pair;
          wrote = ap (λ (p : Mail × ℕ). p.0) pair;
        }
  ]
]

rows_counted :
    (m : Mail) (pk : ℕ) (q : CampaignSend → Bool) (c : EmailCampaign) (gs : List GuestAccount)
    (m' : Mail) {count : ℕ}
    → m'.sends ≡ (queue_sends m c gs).sends
    → length gs ≡ count
    → AreFresh c.id m.sends gs
    → ((n : ℕ) (g : GuestAccount) → q (new_send n c g) ≡ true)
    → count_by q m.sends ≡ 0
    → count_by q m'.sends ≡ count
rows_counted m pk q c gs m' sends size fresh new none_yet =
    ap (count_by q) sends ∙ omega (arith, queued-count q c gs m new fresh, size, none_yet)

none_pending :
    (pk : ℕ) (sends : List CampaignSend)
    → any (of_campaign pk) sends ≡ false
    → any (λ s. of_campaign pk s && is_pending s.status) sends ≡ false
none_pending pk [] e = refl
none_pending pk (s ∷ sends) e = ground (arith, e, none_pending pk sends)

kept_id : (count now : ℕ) (c : EmailCampaign) → (started count now c).id ≡ c.id
kept_id count now c = ground arith

saved :
    (m : Mail) (pk : ℕ) (c new : EmailCampaign) (gs : List GuestAccount)
    → find_first (λ (x : EmailCampaign). x.id == pk) m.campaigns ≡ some c
    → new.id ≡ pk
    → find_first
        (λ (x : EmailCampaign). x.id == pk)
        (save_campaign (queue_sends m c gs) new).campaigns
      ≡ some new
saved m pk c new gs found own =
    rw (queued_campaigns c gs m) (overwritten c new pk m.campaigns found own)

refused :
    (m : Mail) (pk later : ℕ) (c : EmailCampaign)
    → find_first (λ (x : EmailCampaign). x.id == pk) m.campaigns ≡ some c
    → is_draft c.status ≡ false
    → start_campaign m pk later ≡ err CampaignError.not_a_draft
unfolding start_campaign
refused m pk later c found old = rw (locked-refused m pk c found old) refl

-- A campaign is started once: where guests have pks of their own and a draft has no rows yet, its rows are
-- afterwards as many as the count that is shown, all of them pending, with one row for a guest at most,
-- and a second call is refused, at any time.
pub start_campaign_once :
    (m : Mail) (pk now later : ℕ) {m' : Mail} {count : ℕ}
    → IsKeyed m.db.guests
    → any (of_campaign pk) m.sends ≡ false
    → start_campaign m pk now ≡ ok (m', count)
    → (count_by (of_campaign pk) m'.sends ≡ count)
      × (count_by (λ s. of_campaign pk s && is_pending s.status) m'.sends ≡ count)
      × ((guest : ℕ) → count_by (is_send pk guest) m'.sends ≤ 1)
      × (start_campaign m' pk later ≡ err CampaignError.not_a_draft)
start_campaign_once m pk now later {m'} {count} keyed clean e =
    let s = Start-Start m pk now e in
    let c = s.campaign in
    let own =
      (==_iff c.id pk).0
        (find_first-holds (λ (x : EmailCampaign). x.id == pk) m.campaigns c s.found) in
    let sends : m'.sends ≡ (queue_sends m c s.guests).sends =
      ap (λ (n : Mail). n.sends) (sym s.wrote) in
    let new : EmailCampaign = started (length s.guests) now c in
    let fresh : AreFresh c.id m.sends s.guests = record {
      keyed = segment-IsKeyed m.db c s.guests keyed s.segment;
      fresh = All-always _ s.guests (λ g. none_by_campaign c.id g.id m.sends (rw own clean));
    } in
    (
      rows_counted m pk (of_campaign pk) c s.guests m' sends s.size fresh
          (λ n g. (==_iff c.id pk).1 own) (count_by-zero (of_campaign pk) m.sends clean),
      rows_counted m pk (λ s. of_campaign pk s && is_pending s.status) c s.guests m' sends s.size
          fresh (λ n g. rw ((==_iff c.id pk).1 own) refl)
          (count_by-zero _ m.sends (none_pending pk m.sends clean)),
      λ guest. rw sends (
          queued_unique c pk guest s.guests m (
            omega (
              arith,
              count_by-zero (is_send pk guest) m.sends (none_by_campaign pk guest m.sends clean),
            ))),
      refused m' pk later new
          (ap (λ (n : Mail). find_first (λ (x : EmailCampaign). x.id == pk) n.campaigns)
              (sym s.wrote)
            ∙ saved m pk c new s.guests s.found (kept_id (length s.guests) now c ∙ own))
          (started-not_draft (length s.guests) now c),
    )
