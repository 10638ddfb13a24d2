-- ===== src/Tests/Mailing.antt =====
-- Runs of the model, and the theorems at those inputs: a campaign and its mails.
use boxoffice.Common.{
  ℕ, ◌≤◌, ◌≡◌, refl, Bool, true, false, ◌&&◌, Option, none, some, List, [], ◌∷◌, arith, ◌==◌, any,
  count_by, All,
}
use boxoffice.Common.Int.{pos}
use boxoffice.Common.Text.{Text, codes}
use boxoffice.Common.Results.{ok, err}
use boxoffice.Db.{Order, OrderStatus, GuestAccount}
use boxoffice.Campaigns.{
  CampaignStatus, SegmentKind, EmailCampaign, SendStatus, CampaignSend, CampaignError, Mail,
  is_pending, is_running, is_claimed, is_send, segment_guests, segment_recipient_count, queue_sends,
  start_campaign,
}
use boxoffice.Campaigns.Queue.{of_campaign}
use boxoffice.Campaigns.Start.{start_campaign_once}
use boxoffice.Campaigns.Sender.{send_key, handle}
use boxoffice.Campaigns.Sender.Finish.{IsSettled}
use boxoffice.Campaigns.Sender.Drain.{runs, runs_finish_campaigns}
use boxoffice.Campaigns.Sender.Overlap.{Phase, Worker, System, Step, Reach, advance}
use boxoffice.Campaigns.Sender.Statements.{IsTable}
use boxoffice.Campaigns.Sender.Exclusive.{mails_to, mailed_at_most_once}
use boxoffice.Tests.{shop}

abbrev pub guest_at : ℕ → Bool → GuestAccount
guest_at n opted = record {
  id = n;
  organization = 7;
  email = codes "a@b.c";
  name = [];
  marketing_opt_in = opted;
  marketing_opt_in_at = none;
}

-- Guest 31 bought a ticket to the gala, and guest 32 has not consented.
abbrev gala_order : Order
gala_order = record {
  id = 40;
  organization = 7;
  performance = some 1;
  buyer_email = codes "a@b.c";
  buyer_name = [];
  guest = some 31;
  promo_code_text = [];
  discount_amount = pos 0;
  total = pos 5000;
  status = OrderStatus.paid;
  stripe_checkout_session_id = none;
  token = codes "FGHJ";
}

abbrev news : SegmentKind → EmailCampaign
news kind = record {
  id = 60;
  organization = 7;
  segment_kind = kind;
  segment_event = some (shop.performance 1).event;
  segment_min_spend = none;
  status = CampaignStatus.draft;
  recipient_count = 0;
  sent_at = none;
}

abbrev list_of : SegmentKind → Mail
list_of kind = record {
  db = record shop {
    guests = guest_at 31 true ∷ guest_at 32 false ∷ guest_at 33 true ∷ [];
    orders = gala_order ∷ [];
  };
  campaigns = news kind ∷ [];
  sends = [];
}

abbrev row : ℕ → ℕ → CampaignSend
row id guest = record {
  id = id;
  organization = 7;
  campaign = 60;
  guest = guest;
  email = codes "a@b.c";
  status = SendStatus.pending;
  error = [];
  sent_at = none;
}

abbrev going : EmailCampaign
going = record (news SegmentKind.all) { status = CampaignStatus.sending; recipient_count = 2 }

abbrev under_way : Mail
under_way = record {
  db = record shop {
    guests = guest_at 31 true ∷ guest_at 32 false ∷ guest_at 33 true ∷ [];
    orders = gala_order ∷ [];
    next_id = 52;
  };
  campaigns = going ∷ [];
  sends = row 50 31 ∷ row 51 33 ∷ [];
}

start_run : start_campaign (list_of SegmentKind.all) 60 900 ≡ ok (under_way, 2)
unfolding start_campaign segment_guests queue_sends
start_run = refl

-- Only the buyer of the event is in its segment, and a minimum has to be given.
buyers : segment_recipient_count (list_of SegmentKind.event).db (news SegmentKind.event) ≡ ok 1
unfolding segment_recipient_count
buyers = refl

no_minimum : start_campaign (list_of SegmentKind.min_spend) 60 900 ≡ err CampaignError.no_minimum
unfolding start_campaign segment_guests
no_minimum = refl

start_campaign_once_example :
    (count_by (of_campaign 60) under_way.sends ≡ 2)
    × (count_by (λ s. of_campaign 60 s && is_pending s.status) under_way.sends ≡ 2)
    × ((guest : ℕ) → count_by (is_send 60 guest) under_way.sends ≤ 1)
    × (start_campaign under_way 60 901 ≡ err CampaignError.not_a_draft)
start_campaign_once_example =
    start_campaign_once (list_of SegmentKind.all) 60 900 901 (λ k. ground arith) refl start_run

under_way-IsSettled : IsSettled under_way
under_way-IsSettled = record { once = λ k. ground arith; unclaimed = refl; live = (λ _. refl, tt) }

-- The mail server refuses the second mail.
abbrev server : ℕ → Option Text
server k = elim (k == 51) [ true ↦ some (codes "refused") | false ↦ none ]

-- Two runs with room for one row each.
runs_finish_campaigns_example :
    All
      (λ c. is_running c.status ≡ false)
      (runs 1 ((910, server) ∷ (920, server) ∷ []) under_way).campaigns
    × (any (λ s. is_claimed s.status) (runs 1 ((910, server) ∷ (920, server) ∷ []) under_way).sends
        ≡ false)
runs_finish_campaigns_example =
    runs_finish_campaigns 1 ((910, server) ∷ (920, server) ∷ []) under_way (omega arith)
      under_way-IsSettled (omega arith)

outcomes :
    (handle true 50 server 910 under_way).sends
    ≡ record (row 50 31) { status = SendStatus.sent; sent_at = some 910 }
      ∷ record (row 51 33) { status = SendStatus.failed; error = codes "refused" }
      ∷ []
unfolding handle
outcomes = refl

under_way-IsTable : IsTable under_way
under_way-IsTable = record {
  keyed = record { once = λ k. ground arith; below = (omega arith, (omega arith, tt)) };
  unique = λ c g. ground arith;
}

abbrev before : System
before = record { mail = under_way; workers = []; mailed = [] }

abbrev worker : List CampaignSend → Phase → Worker
worker rows phase = record { rows = rows; phase = phase }

abbrev both_rows : List CampaignSend
both_rows = row 50 31 ∷ row 51 33 ∷ []

abbrev two_runs : System
two_runs = record before {
  workers = worker both_rows Phase.at_head ∷ worker both_rows Phase.at_head ∷ [];
}

first_begun : Step before (record before { workers = worker both_rows Phase.at_head ∷ [] })
first_begun = Step.begun 50

second_begun : Step (record before { workers = worker both_rows Phase.at_head ∷ [] }) two_runs
second_begun = Step.begun 50

abbrev one_claimed : System
one_claimed = record {
  mail = record under_way {
    sends = record (row 50 31) { status = SendStatus.sending } ∷ row 51 33 ∷ [];
  };
  workers = worker both_rows Phase.at_head ∷ worker (row 51 33 ∷ []) (Phase.owns (row 50 31)) ∷ [];
  mailed = [];
}

-- The second run claims the first row.
claimed : Step two_runs one_claimed
unfolding advance
claimed =
    Step.advanced server 910 (worker both_rows Phase.at_head ∷ []) []
      (worker both_rows Phase.at_head) refl

-- It finds that the guest consents, and hands the mail over.
abbrev phase_of : Phase → List ℕ → System
phase_of phase mailed = record one_claimed {
  workers = worker both_rows Phase.at_head ∷ worker (row 51 33 ∷ []) phase ∷ [];
  mailed = mailed;
}

agreed : Step one_claimed (phase_of (Phase.agreed (row 50 31)) [])
unfolding advance
agreed =
    Step.advanced server 910 (worker both_rows Phase.at_head ∷ []) []
      (worker (row 51 33 ∷ []) (Phase.owns (row 50 31))) refl

answered :
    Step
      (phase_of (Phase.agreed (row 50 31)) [])
      (phase_of (Phase.answered (row 50 31) none) (50 ∷ []))
unfolding advance
answered =
    Step.advanced server 910 (worker both_rows Phase.at_head ∷ []) []
      (worker (row 51 33 ∷ []) (Phase.agreed (row 50 31))) refl

abbrev one_mailed : System
one_mailed = phase_of (Phase.answered (row 50 31) none) (50 ∷ [])

mailed_at_most_once_example :
    ((campaign guest : ℕ) → mails_to one_mailed campaign guest ≤ 1)
    × ((k : ℕ)
        → count_by (λ j. j == k) one_mailed.mailed
          ≤ count_by (λ r. send_key r == k) one_mailed.mail.sends)
mailed_at_most_once_example = mailed_at_most_once under_way-IsTable refl refl (
    Reach.next
      (Reach.next (Reach.next (Reach.next (Reach.next Reach.here first_begun) second_begun) claimed)
        agreed)
      answered)
