-- ===== src/Campaigns/Sender/Overlap.antt =====
-- send_campaign_emails.py with runs that overlap: each run goes statement by statement, with the statements
-- of other runs, of start_campaign and of the rest of the program between two of its own.
use boxoffice.Common.{ℕ, ◌≤◌, ◌≡◌, Option, List, [], ◌∷◌, ◌++◌, if◌then◌else◌}
use boxoffice.Common.Text.{Text}
use boxoffice.Common.Results.{ok}
use boxoffice.Db.{Db}
use boxoffice.Campaigns.{EmailCampaign, CampaignSend, Mail, start_campaign}
use boxoffice.Campaigns.Sender.{
  next_batch, claim, still_consents, skip_send, record_outcome, finish_campaign,
}

-- Where a run is: at the head of its loop, or between two statements of the body for a row.
pub data Phase : Type 0 where
  at_head : Phase
  owns agreed : CampaignSend → Phase
  answered : CampaignSend → Option Text → Phase

pub record Worker : Type 0 where
  pub rows : List CampaignSend
  pub phase : Phase

-- `mailed` holds the pk of the row for each mail that was handed to the mail server.
pub record System : Type 0 where
  pub mail : Mail
  pub workers : List Worker
  pub mailed : List ℕ

abbrev pub next_row : Mail → List CampaignSend → Mail × Worker × List ℕ
next_row m [] = (m, record { rows = []; phase = Phase.at_head }, [])
next_row m (s ∷ rows) =
    if (claim m s.id).1
    then ((claim m s.id).0, record { rows = rows; phase = Phase.owns s }, [])
    else (m, record { rows = rows; phase = Phase.at_head }, [])

abbrev pub next_statement :
    (ℕ → Option Text) → ℕ → Mail → List CampaignSend → Phase → Mail × Worker × List ℕ
next_statement deliver now m rows Phase.at_head = next_row m rows
next_statement deliver now m rows (Phase.owns s) =
    if still_consents m s.guest
    then (m, record { rows = rows; phase = Phase.agreed s }, [])
    else (skip_send m s.id, record { rows = rows; phase = Phase.at_head }, [])
next_statement deliver now m rows (Phase.agreed s) =
    (m, record { rows = rows; phase = Phase.answered s (deliver s.id) }, s.id ∷ [])
next_statement deliver now m rows (Phase.answered s outcome) =
    (record_outcome m now s.id outcome, record { rows = rows; phase = Phase.at_head }, [])

-- The tables, the run and the mail that one statement of a run leaves.
unfoldable pub advance : (ℕ → Option Text) → ℕ → Mail → Worker → Mail × Worker × List ℕ
advance deliver now m w = next_statement deliver now m w.rows w.phase

pub data Step (s : System) : System → Type 0 where
  begun :
      (batch_size : ℕ)
      → Step s (record s {
        workers =
            s.workers ++ record { rows = next_batch batch_size s.mail; phase = Phase.at_head } ∷ [];
      })
  advanced :
      (deliver : ℕ → Option Text) (now : ℕ) (before after : List Worker) (w : Worker)
      → s.workers ≡ before ++ w ∷ after
      → Step s (record {
        mail = (advance deliver now s.mail w).0;
        workers = before ++ (advance deliver now s.mail w).1 ∷ after;
        mailed = (advance deliver now s.mail w).2 ++ s.mailed;
      })
  -- A run ends, by itself or by a crash.
  ended :
      (before after : List Worker) (w : Worker)
      → s.workers ≡ before ++ w ∷ after
      → Step s (record s { workers = before ++ after })
  finished : (now campaign : ℕ) → Step s (record s { mail = finish_campaign now s.mail campaign })
  triggered :
      (pk now : ℕ) {m : Mail} {count : ℕ}
      → start_campaign s.mail pk now ≡ ok (m, count)
      → Step s (record s { mail = m })
  -- The rest of the program: guests change their consent, orders come in, staff edit and cancel campaigns.
  edited :
      (db : Db) (campaigns : List EmailCampaign)
      → s.mail.db.next_id ≤ db.next_id
      → Step s (record s { mail = record s.mail { db = db; campaigns = campaigns } })

pub data Reach (start : System) : System → Type 0 where
  here : Reach start start
  next : {s t : System} → Reach start s → Step s t → Reach start t
