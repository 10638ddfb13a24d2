-- ===== src/Campaigns/Sender/Statements.antt =====
-- send_campaign_emails.py: what each statement of a run does to the rows.
use boxoffice.Common.{
  ℕ, ◌+◌, ◌≤◌, ◌≡◌, refl, sym, subst, inl, inr, Bool, true, false, ◌&&◌, not, Option, none, some,
  List, [], ◌∷◌, arith, ◌==◌, ==_iff, Bool-cases, if◌then◌else◌, update_where, any, count_by,
  sum_by,
}
use boxoffice.Common.Text.{Text}
use boxoffice.Common.Results.{ok}
use boxoffice.Common.Counting.{count_by-append}
use boxoffice.Common.Updates.{count_by-update}
use boxoffice.Common.Pairs.{All-always}
use boxoffice.Common.Keys.{Keyed, Keyed-create, Keyed-update, Keyed-weaken}
use boxoffice.Db.{GuestAccount}
use boxoffice.Campaigns.{
  EmailCampaign, SendStatus, CampaignSend, Mail, is_pending, is_send, new_send, insert_send,
  queue_sends, start_campaign,
}
use boxoffice.Campaigns.Queue.{queued_unique, queue_fresh, queue_old}
use boxoffice.Campaigns.Start.{Start-Start}
use boxoffice.Campaigns.Sender.{
  is_waiting, send_key, claim, still_consents, skip_send, delivered, record_outcome,
}
use boxoffice.Campaigns.Sender.Overlap.{next_statement, Phase, Worker, System, next_row}

-- A row that is past its claim.
abbrev pub is_taken : ℕ → CampaignSend → Bool
is_taken k s = s.id == k && not (is_pending s.status)

-- A run that may still hand over the mail of a row.
abbrev pub holds : ℕ → Phase → ℕ
holds k Phase.at_head = 0
holds k (Phase.owns s) = if s.id == k then 1 else 0
holds k (Phase.agreed s) = if s.id == k then 1 else 0
holds k (Phase.answered s outcome) = 0

abbrev pub held : ℕ → Worker → ℕ
held k w = holds k w.phase

-- The rows of the table: pks, and unique_send_per_campaign_guest.
pub record IsTable (m : Mail) : Type 0 where
  pub keyed : Keyed send_key m.db.next_id m.sends
  pub unique : (campaign guest : ℕ) → count_by (is_send campaign guest) m.sends ≤ 1

-- Each row was mailed, or is held by a run, once at most, and after it was claimed.
pub record IsExclusive (s : System) : Type 0 where
  pub table : IsTable s.mail
  pub once :
      (k : ℕ)
      → count_by (λ j. j == k) s.mailed + sum_by (held k) s.workers
        ≤ count_by (is_taken k) s.mail.sends

-- What a statement does to the table.
pub record Writes (m m' : Mail) : Type 0 where
  pub table : IsTable m → IsTable m'
  pub taken : (k : ℕ) → count_by (is_taken k) m.sends ≤ count_by (is_taken k) m'.sends

taken_up :
    (p : CampaignSend → Bool) (f : CampaignSend → CampaignSend) (k : ℕ)
    → ((s : CampaignSend) → ((f s).id ≡ s.id) × (is_pending (f s).status ≡ false))
    → (xs : List CampaignSend)
    → count_by (is_taken k) xs ≤ count_by (is_taken k) (update_where p f xs)
taken_up p f k h [] = omega arith
taken_up p f k h (x ∷ xs) = ground (arith, h x, taken_up p f k h xs)

update-Writes :
    (m : Mail) (p : CampaignSend → Bool) (f : CampaignSend → CampaignSend)
    → ((s : CampaignSend)
        → ((f s).id ≡ s.id)
          × ((f s).campaign ≡ s.campaign)
          × ((f s).guest ≡ s.guest)
          × (is_pending (f s).status ≡ false))
    → Writes m (record m { sends = update_where p f m.sends })
update-Writes m p f h = record {
  table = λ t. record {
    keyed = Keyed-update send_key m.db.next_id p f m.sends (λ s. (h s).0) t.keyed;
    unique = λ c g.
        rw
          (count_by-update p f (is_send c g) m.sends
            (All-always _ m.sends (λ s e. rw ((h s).1, (h s).2) refl)))
          (t.unique c g);
  };
  taken = λ k. taken_up p f k (λ s. ((h s).0, (h s).3)) m.sends;
}

-- A claim that succeeds takes one row more.
taken-claim :
    (k : ℕ) (xs : List CampaignSend)
    → any (is_waiting k) xs ≡ true
    → count_by (is_taken k) xs + 1
      ≤ count_by
          (is_taken k)
          (update_where (is_waiting k) (λ s. record s { status = SendStatus.sending }) xs)
taken-claim k [] e = cc
taken-claim k (x ∷ xs) e = ground (
  arith,
  e,
  taken-claim k xs,
  taken_up (is_waiting k) (λ s. record s { status = SendStatus.sending }) k (λ s. (refl, refl)) xs,
)

pub same-Writes : (m m' : Mail) → m'.sends ≡ m.sends → m.db.next_id ≤ m'.db.next_id → Writes m m'
same-Writes m m' e le = record {
  table = λ t. record {
    keyed =
        subst (λ (xs : List CampaignSend). Keyed send_key m'.db.next_id xs) (sym e)
          (Keyed-weaken send_key m.db.next_id m'.db.next_id le m.sends t.keyed);
    unique = λ c g. rw e (t.unique c g);
  };
  taken = λ k. rw e (omega arith);
}

-- The run's statement moves a row from the run to the mailed ones, and takes a row for what it gains.
pub record Fair (m : Mail) (w : Worker) (m' : Mail) (w' : Worker) (out : List ℕ) : Type 0 where
  pub table : IsTable m → IsTable m'
  pub gain :
      (k : ℕ)
      → count_by (λ j. j == k) out + held k w' + count_by (is_taken k) m.sends
        ≤ held k w + count_by (is_taken k) m'.sends

claim-Writes : (m : Mail) (k : ℕ) → Writes m (claim m k).0
claim-Writes m k =
    update-Writes m (is_waiting k) (λ s. record s { status = SendStatus.sending })
      (λ s. (refl, refl, refl, refl))

claimed_gain :
    (m : Mail) (i k : ℕ)
    → (claim m i).1 ≡ true
    → (if i == k then 1 else 0) + count_by (is_taken k) m.sends
      ≤ count_by (is_taken k) (claim m i).0.sends
claimed_gain m i k won = elim (Bool-cases (i == k)) [
  | inr other ↦ rw other (omega (arith, (claim-Writes m i).taken k))
  | inl same ↦
      let e = (==_iff i k).0 same in
      rw same (
        omega (
          arith,
          subst (λ k. count_by (is_taken k) m.sends + 1 ≤ count_by (is_taken k) (claim m i).0.sends)
              e (taken-claim i m.sends won),
        ))
]

next_row-Fair :
    (m : Mail) (rows : List CampaignSend)
    → Fair m
        (record { rows = rows; phase = Phase.at_head })
        (next_row m rows).0
        (next_row m rows).1
        (next_row m rows).2
next_row-Fair m [] = record { table = λ t. t; gain = λ k. omega arith }
next_row-Fair m (s ∷ rows) = elim (Bool-cases (any (is_waiting s.id) m.sends)) [
  | inr lost ↦ rw lost (record { table = λ t. t; gain = λ k. omega arith })
  | inl won ↦ rw won (record {
    table = (claim-Writes m s.id).table;
    gain = λ k. omega (arith, claimed_gain m s.id k won);
  })
]

written :
    (now : ℕ) (o : Option Text) (s : CampaignSend)
    → ((delivered now o s).id ≡ s.id)
      × ((delivered now o s).campaign ≡ s.campaign)
      × ((delivered now o s).guest ≡ s.guest)
      × (is_pending (delivered now o s).status ≡ false)
written now none s = (refl, refl, refl, refl)
written now (some exc) s = (refl, refl, refl, refl)

skip-Writes : (m : Mail) (k : ℕ) → Writes m (skip_send m k)
skip-Writes m k =
    update-Writes m (λ s. s.id == k) (λ s. record s { status = SendStatus.skipped })
      (λ s. (refl, refl, refl, refl))

outcome-Writes : (m : Mail) (now k : ℕ) (o : Option Text) → Writes m (record_outcome m now k o)
outcome-Writes m now k o = update-Writes m (λ s. s.id == k) (delivered now o) (written now o)

abbrev advanced-Fair : (ℕ → Option Text) → ℕ → Mail → List CampaignSend → Phase → Type 0
advanced-Fair deliver now m rows phase =
    let r = next_statement deliver now m rows phase in
    Fair m (record { rows = rows; phase = phase }) r.0 r.1 r.2

pub next_statement-Fair :
    (deliver : ℕ → Option Text) (now : ℕ) (m : Mail) (rows : List CampaignSend) (phase : Phase)
    → advanced-Fair deliver now m rows phase
next_statement-Fair deliver now m rows Phase.at_head = next_row-Fair m rows
next_statement-Fair deliver now m rows (Phase.owns s) =
    elim (Bool-cases (still_consents m s.guest)) [
      | inl consents ↦ rw consents (record { table = λ t. t; gain = λ k. omega arith })
      | inr withdrawn ↦ rw withdrawn (record {
        table = (skip-Writes m s.id).table;
        gain = λ k. omega (arith, (skip-Writes m s.id).taken k);
      })
    ]
next_statement-Fair deliver now m rows (Phase.agreed s) = record {
  table = λ t. t;
  gain = λ k. omega arith;
}
next_statement-Fair deliver now m rows (Phase.answered s o) = record {
  table = (outcome-Writes m now s.id o).table;
  gain = λ k. omega (arith, (outcome-Writes m now s.id o).taken k);
}

queue_guest-Writes :
    (c : EmailCampaign) (g : GuestAccount) (m : Mail)
    → any (is_send c.id g.id) m.sends ≡ false
    → Writes m (insert_send m (new_send m.db.next_id c g))
unfolding queue_sends
queue_guest-Writes c g m fresh = record {
  table = λ t. record {
    keyed = Keyed-create send_key m.db.next_id m.sends (new_send m.db.next_id c g) refl t.keyed;
    unique = λ i k.
        subst (λ (n : Mail). count_by (is_send i k) n.sends ≤ 1) (queue_fresh m c g [] fresh)
          (queued_unique c i k (g ∷ []) m (t.unique i k));
  };
  taken = λ k. omega (arith, count_by-append (is_taken k) m.sends (new_send m.db.next_id c g ∷ []));
}

Writes-trans : (l m n : Mail) → Writes l m → Writes m n → Writes l n
Writes-trans l m n a b = record {
  table = λ t. b.table (a.table t);
  taken = λ k. omega (arith, a.taken k, b.taken k);
}

queue_sends-Writes :
    (c : EmailCampaign) (gs : List GuestAccount) (m : Mail) → Writes m (queue_sends m c gs)
unfolding queue_sends
queue_sends-Writes c [] m = same-Writes m m refl (omega arith)
queue_sends-Writes c (g ∷ gs) m = elim (Bool-cases (any (is_send c.id g.id) m.sends)) [
  | inl old ↦
      subst (λ (n : Mail). Writes m n) (sym (queue_old m c g gs old)) (queue_sends-Writes c gs m)
  | inr fresh ↦
      let m' = insert_send m (new_send m.db.next_id c g) in
      subst (λ (n : Mail). Writes m n) (sym (queue_fresh m c g gs fresh))
        (Writes-trans m m' (queue_sends m' c gs) (queue_guest-Writes c g m fresh)
          (queue_sends-Writes c gs m'))
]

pub start-Writes :
    (m : Mail) (pk now : ℕ) {m' : Mail} {count : ℕ}
    → start_campaign m pk now ≡ ok (m', count)
    → Writes m m'
start-Writes m pk now {m'} e =
    let s = Start-Start m pk now e in
    let w = queue_sends-Writes s.campaign s.guests m in
    subst (λ (n : Mail). Writes m n) s.wrote
      (record {
        table = λ t. (let u = w.table t in record { keyed = u.keyed; unique = u.unique });
        taken = w.taken;
      })
