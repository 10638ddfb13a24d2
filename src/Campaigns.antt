-- ===== src/Campaigns.antt =====
-- The campaigns app: campaigns/models.py and campaigns/services.py. The subject and the body of a
-- mail are not read here.

pub mod Queue
pub mod Start
pub mod Sender
use boxoffice.Common.{
  ℕ, ◌+◌, Bool, true, false, not, ◌&&◌, ◌||◌, Option, none, some, List, [], ◌∷◌, ◌++◌, map, ltb,
  leb, ◌==◌, if◌then◌else◌, is_key, is_some, or_else, length, select, find_first, any, update_where,
  sum_by,
}
use boxoffice.Common.Int.{ℤ, pos, ◌+ℤ◌, leb_ℤ}
use boxoffice.Common.Text.{Text, is_blank}
use boxoffice.Common.Results.{Result, ok, err, ◌>>=◌, ◌>>◌, raise_if}
use boxoffice.Db.{Db, Order, OrderStatus, GuestAccount}

pub data CampaignStatus : Type 0 where
  draft sending sent cancelled : CampaignStatus

pub data SegmentKind : Type 0 where
  all event min_spend : SegmentKind

pub record EmailCampaign : Type 0 where
  pub id : ℕ
  pub organization : ℕ
  pub segment_kind : SegmentKind
  pub segment_event : Option ℕ
  pub segment_min_spend : Option ℤ
  pub status : CampaignStatus
  pub recipient_count : ℕ
  pub sent_at : Option ℕ

pub data SendStatus : Type 0 where
  pending sending sent failed skipped : SendStatus

pub record CampaignSend : Type 0 where
  pub id : ℕ
  pub organization : ℕ
  pub campaign : ℕ
  pub guest : ℕ
  pub email : Text
  pub status : SendStatus
  pub error : Text
  pub sent_at : Option ℕ

-- The tables of the app beside the ticket path's.
pub record Mail : Type 0 where
  pub db : Db
  pub campaigns : List EmailCampaign
  pub sends : List CampaignSend

abbrev pub is_draft : CampaignStatus → Bool
is_draft CampaignStatus.draft = true
is_draft other = false

abbrev pub is_running : CampaignStatus → Bool
is_running CampaignStatus.sending = true
is_running other = false

abbrev pub is_pending : SendStatus → Bool
is_pending SendStatus.pending = true
is_pending other = false

abbrev pub is_claimed : SendStatus → Bool
is_claimed SendStatus.sending = true
is_claimed other = false

-- CampaignStateError; besides it, what `get` raises without a row, and the filter
-- `spend__gte=None`.
pub data CampaignError : Type 0 where
  not_a_draft no_campaign no_minimum : CampaignError

abbrev pub is_paid_order : OrderStatus → Bool
is_paid_order OrderStatus.paid = true
is_paid_order other = false

-- `performance__event` of an order: a null performance has no event.
abbrev pub order_event : Db → Order → Option ℕ
order_event db o = elim o.performance [ none ↦ none | some p ↦ some (db.performance p).event ]

-- `filter(field=value)`, where None asks for IS NULL.
abbrev pub matches_key : Option ℕ → Option ℕ → Bool
matches_key none none = true
matches_key none (some k) = false
matches_key (some k) wanted = is_key wanted k

abbrev pub paid_orders : Db → GuestAccount → List Order
paid_orders db g = select (λ o. is_key o.guest g.id && is_paid_order o.status) db.orders

abbrev pub bought : Db → Option ℕ → GuestAccount → Bool
bought db wanted g = any (λ o. matches_key (order_event db o) wanted) (paid_orders db g)

-- `Sum`, which is null over no rows.
abbrev pub sum_totals : List Order → Option ℤ
sum_totals [] = none
sum_totals (o ∷ orders) = elim (sum_totals orders) [
  | none ↦ some o.total
  | some t ↦ some (o.total +ℤ t)
]

abbrev pub spent_at_least : Db → ℤ → GuestAccount → Bool
spent_at_least db minimum g = elim (sum_totals (paid_orders db g)) [
  | none ↦ false
  | some spend ↦ leb_ℤ minimum spend
]

-- Opted in and with an address, in the campaign's theater.
abbrev pub is_mailable : ℕ → GuestAccount → Bool
is_mailable organization g =
    g.organization == organization && g.marketing_opt_in && not (is_blank g.email)

abbrev pub segment_of :
    Db → SegmentKind → EmailCampaign → List GuestAccount → Result CampaignError (List GuestAccount)
segment_of db SegmentKind.all campaign base = ok base
segment_of db SegmentKind.event campaign base = ok (select (bought db campaign.segment_event) base)
segment_of db SegmentKind.min_spend campaign base = elim campaign.segment_min_spend [
  | none ↦ err CampaignError.no_minimum
  | some minimum ↦ ok (select (spent_at_least db minimum) base)
]

unfoldable pub segment_guests : Db → EmailCampaign → Result CampaignError (List GuestAccount)
segment_guests db campaign =
    segment_of db campaign.segment_kind campaign
      (select (is_mailable campaign.organization) db.guests)

unfoldable pub segment_recipient_count : Db → EmailCampaign → Result CampaignError ℕ
unfolding segment_guests
segment_recipient_count db campaign = do guests ← segment_guests db campaign; ok (length guests)

abbrev pub is_send : ℕ → ℕ → CampaignSend → Bool
is_send campaign guest s = s.campaign == campaign && s.guest == guest

abbrev pub new_send : ℕ → EmailCampaign → GuestAccount → CampaignSend
new_send id campaign guest = record {
  id = id;
  organization = campaign.organization;
  campaign = campaign.id;
  guest = guest.id;
  email = guest.email;
  status = SendStatus.pending;
  error = [];
  sent_at = none;
}

abbrev pub insert_send : Mail → CampaignSend → Mail
insert_send m s = record m {
  sends = m.sends ++ s ∷ [];
  db = record m.db { next_id = m.db.next_id + 1 };
}

abbrev pub queue_guest : Mail → EmailCampaign → GuestAccount → Mail
queue_guest m campaign guest =
    if any (is_send campaign.id guest.id) m.sends
    then m
    else insert_send m (new_send m.db.next_id campaign guest)

-- `bulk_create(sends, ignore_conflicts=True)`: a row that unique_send_per_campaign_guest refuses is
-- left out.
unfoldable pub queue_sends : Mail → EmailCampaign → List GuestAccount → Mail
queue_sends m campaign [] = m
queue_sends m campaign (g ∷ guests) = queue_sends (queue_guest m campaign g) campaign guests

abbrev pub started : ℕ → ℕ → EmailCampaign → EmailCampaign
started count now c =
    if count == 0
    then record c { recipient_count = count; status = CampaignStatus.sent; sent_at = some now }
    else record c { recipient_count = count; status = CampaignStatus.sending }

abbrev pub save_campaign : Mail → EmailCampaign → Mail
save_campaign m campaign = record m {
  campaigns = update_where (λ c. c.id == campaign.id) (λ _. campaign) m.campaigns;
}

-- The campaign that `select_for_update().get(pk=...)` reads, which has to be a draft.
abbrev pub locked_draft : Mail → ℕ → Result CampaignError EmailCampaign
locked_draft m pk = elim (find_first (λ (c : EmailCampaign). c.id == pk) m.campaigns) [
  | none ↦ err CampaignError.no_campaign
  | some c ↦ if is_draft c.status then ok c else err CampaignError.not_a_draft
]

unfoldable pub start_campaign : Mail → ℕ → ℕ → Result CampaignError (Mail × ℕ)
unfolding segment_guests queue_sends
start_campaign m pk now = do
  locked ← locked_draft m pk
  guests ← segment_guests m.db locked
  ok (
    save_campaign (queue_sends m locked guests) (started (length guests) now locked),
    length guests,
  )
