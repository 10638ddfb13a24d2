-- ===== src/Campaigns/Sender.antt =====
-- campaigns/management/commands/send_campaign_emails.py: the batch that cron runs. Its statements commit
-- one by one, and two runs may overlap. What the mail server does is a parameter: the text of the
-- exception for the pk of a row, or none where the mail went out. The settings are parameters too.

pub mod Batch
pub mod Finish
pub mod Settling
pub mod Progress
pub mod Drain
pub mod Overlap
pub mod Statements
pub mod Exclusive
use boxoffice.Common.{
  find_first, true, false, ℕ, Bool, not, ◌&&◌, ◌||◌, Option, none, some, List, [], ◌∷◌, ◌==◌,
  if◌then◌else◌, select, any, update_where, order_by, take,
}
use boxoffice.Common.Text.{Text}
use boxoffice.Db.{GuestAccount}
use boxoffice.Campaigns.{
  CampaignStatus, EmailCampaign, SendStatus, CampaignSend, Mail, is_running, is_pending, is_claimed,
}

abbrev pub is_open : SendStatus → Bool
is_open status = is_pending status || is_claimed status

abbrev pub campaign_runs : Mail → ℕ → Bool
campaign_runs m campaign =
    any (λ (c : EmailCampaign). c.id == campaign && is_running c.status) m.campaigns

abbrev pub is_queued : Mail → CampaignSend → Bool
is_queued m s = is_pending s.status && campaign_runs m s.campaign

abbrev pub send_key : CampaignSend → ℕ
send_key s = s.id

-- The rows of one run, in the order of their pks.
abbrev pub next_batch : ℕ → Mail → List CampaignSend
next_batch batch_size m = take batch_size (order_by send_key (select (is_queued m) m.sends))

abbrev pub is_waiting : ℕ → CampaignSend → Bool
is_waiting pk s = s.id == pk && is_pending s.status

abbrev pub set_send : Mail → ℕ → (CampaignSend → CampaignSend) → Mail
set_send m pk f = record m { sends = update_where (λ s. s.id == pk) f m.sends }

-- PENDING to SENDING, with the number of rows that changed read as a Boolean.
abbrev pub claim : Mail → ℕ → Mail × Bool
claim m pk = (
  record m {
    sends = update_where (is_waiting pk) (λ s. record s { status = SendStatus.sending }) m.sends;
  },
  any (is_waiting pk) m.sends,
)

-- The guest of the row as it is now, who may have withdrawn consent.
abbrev pub still_consents : Mail → ℕ → Bool
still_consents m guest = elim (find_first (λ (g : GuestAccount). g.id == guest) m.db.guests) [
  | none ↦ false
  | some g ↦ g.marketing_opt_in
]

abbrev pub skip_send : Mail → ℕ → Mail
skip_send m pk = set_send m pk (λ s. record s { status = SendStatus.skipped })

-- `str(exc)[:2000]`
abbrev pub delivered : ℕ → Option Text → CampaignSend → CampaignSend
delivered now none s = record s { status = SendStatus.sent; sent_at = some now }
delivered now (some exc) s = record s { status = SendStatus.failed; error = take 2000 exc }

abbrev pub record_outcome : Mail → ℕ → ℕ → Option Text → Mail
record_outcome m now pk outcome = set_send m pk (delivered now outcome)

-- "A campaign is DONE once none of its sends are still PENDING/SENDING."
abbrev pub finish_campaign : ℕ → Mail → ℕ → Mail
finish_campaign now m campaign =
    if any (λ (s : CampaignSend). s.campaign == campaign && is_open s.status) m.sends
    then m
    else record m {
      campaigns =
          update_where (λ (c : EmailCampaign). c.id == campaign && is_running c.status)
            (λ c. record c { status = CampaignStatus.sent; sent_at = some now }) m.campaigns;
    }

abbrev pub finish_campaigns : ℕ → Mail → List ℕ → Mail
finish_campaigns now m [] = m
finish_campaigns now m (c ∷ campaigns) = finish_campaigns now (finish_campaign now m c) campaigns

abbrev pub touched : List CampaignSend → List ℕ
touched [] = []
touched (s ∷ sends) = s.campaign ∷ touched sends

-- The body of the loop, for a row as it was read.
abbrev pub send_one : (ℕ → Option Text) → ℕ → Mail → CampaignSend → Mail
send_one deliver now m send =
    if (claim m send.id).1
    then (if still_consents (claim m send.id).0 send.guest
        then record_outcome (claim m send.id).0 now send.id (deliver send.id)
        else skip_send (claim m send.id).0 send.id)
    else m

abbrev pub send_all : (ℕ → Option Text) → ℕ → Mail → List CampaignSend → Mail
send_all deliver now m [] = m
send_all deliver now m (s ∷ sends) = send_all deliver now (send_one deliver now m s) sends

-- One run that no other overlaps.
unfoldable pub handle : Bool → ℕ → (ℕ → Option Text) → ℕ → Mail → Mail
handle delivery_configured batch_size deliver now m =
    if not delivery_configured
    then m
    else finish_campaigns now (send_all deliver now m (next_batch batch_size m))
        (touched (next_batch batch_size m))
