-- ===== src/Campaigns/Sender/Exclusive.antt =====
-- send_campaign_emails.py: no overlap of runs mails a guest twice for a campaign.
use boxoffice.Campaigns.Sender.Statements.{
  Fair, IsExclusive, IsTable, Writes, held, is_taken, next_statement-Fair, same-Writes,
  start-Writes,
}
use boxoffice.Common.{
  ℕ, ◌+◌, ◌≤◌, ◌≡◌, refl, ap, ◌∙◌, Bool, Option, List, [], ◌∷◌, ◌++◌, arith, ◌==◌, count_by, sum_by,
  select,
}
use boxoffice.Common.Text.{Text}
use boxoffice.Common.Counting.{count_by-append, sum_by-append}
use boxoffice.Campaigns.{CampaignSend, Mail, is_send}
use boxoffice.Campaigns.Sender.{next_batch, send_key, finish_campaign}
use boxoffice.Campaigns.Sender.Overlap.{Phase, Worker, System, advance, Step, Reach}

-- Room is kept by a change of the table, the runs and the mailed ones staying as they are.
written-IsExclusive :
    (s : System) (m : Mail) → Writes s.mail m → IsExclusive s → IsExclusive (record s { mail = m })
written-IsExclusive s m w v = record {
  table = w.table v.table;
  once = λ k. omega (arith, v.once k, w.taken k);
}

workers_split :
    (k : ℕ) (ws before after : List Worker) (w : Worker)
    → ws ≡ before ++ w ∷ after
    → sum_by (held k) ws ≡ sum_by (held k) before + (held k w + sum_by (held k) after)
workers_split k ws before after w e =
    ap (sum_by (held k)) e ∙ sum_by-append (held k) before (w ∷ after)

advance-Fair :
    (deliver : ℕ → Option Text) (now : ℕ) (m : Mail) (w : Worker)
    → Fair m w (advance deliver now m w).0 (advance deliver now m w).1 (advance deliver now m w).2
unfolding advance
advance-Fair deliver now m w = next_statement-Fair deliver now m w.rows w.phase

Step-IsExclusive : {s t : System} → Step s t → IsExclusive s → IsExclusive t
Step-IsExclusive {s} (Step.begun batch_size) v = record {
  table = v.table;
  once = λ k. omega (
    arith,
    v.once k,
    sum_by-append (held k) s.workers
        (record { rows = next_batch batch_size s.mail; phase = Phase.at_head } ∷ []),
  );
}
Step-IsExclusive {s} (Step.advanced deliver now before after w e) v =
    let f = advance-Fair deliver now s.mail w in
    record {
      table = f.table v.table;
      once = λ k. omega (
        arith,
        v.once k,
        f.gain k,
        workers_split k s.workers before after w e,
        sum_by-append (held k) before ((advance deliver now s.mail w).1 ∷ after),
        count_by-append (λ j. j == k) (advance deliver now s.mail w).2 s.mailed,
      );
    }
Step-IsExclusive {s} (Step.ended before after w e) v = record {
  table = v.table;
  once = λ k. omega (
    arith,
    v.once k,
    workers_split k s.workers before after w e,
    sum_by-append (held k) before after,
  );
}
Step-IsExclusive {s} (Step.finished now campaign) v =
    written-IsExclusive s (finish_campaign now s.mail campaign)
      (same-Writes s.mail (finish_campaign now s.mail campaign) (ground arith) (ground arith)) v
Step-IsExclusive {s} (Step.triggered pk now {m} e) v =
    written-IsExclusive s m (start-Writes s.mail pk now e) v
Step-IsExclusive {s} (Step.edited db campaigns le) v =
    written-IsExclusive s (record s.mail { db = db; campaigns = campaigns })
      (same-Writes s.mail (record s.mail { db = db; campaigns = campaigns }) refl le) v

pub Reach-IsExclusive : {s t : System} → IsExclusive s → Reach s t → IsExclusive t
Reach-IsExclusive v Reach.here = v
Reach-IsExclusive v (Reach.next r step) = Step-IsExclusive step (Reach-IsExclusive v r)

-- The mails of a campaign to a guest.
abbrev pub mails_to : System → ℕ → ℕ → ℕ
mails_to s campaign guest =
    sum_by (λ (r : CampaignSend). count_by (λ j. j == r.id) s.mailed)
      (select (is_send campaign guest) s.mail.sends)

sum_of_few :
    (f : CampaignSend → ℕ) (p : CampaignSend → Bool) (xs : List CampaignSend)
    → ((x : CampaignSend) → f x ≤ 1)
    → sum_by f (select p xs) ≤ count_by p xs
sum_of_few f p [] h = omega arith
sum_of_few f p (x ∷ xs) h = ground (arith, h x, sum_of_few f p xs h)

taken-le :
    (k : ℕ) (xs : List CampaignSend) → count_by (is_taken k) xs ≤ count_by (λ s. send_key s == k) xs
taken-le k [] = omega arith
taken-le k (x ∷ xs) = ground (arith, taken-le k xs)

-- A guest gets a campaign once at most: from a table whose rows have pks of their own, one for a campaign and a
-- guest, with no run under way, every interleaving of runs, crashes, triggers and edits has mailed it once at
-- most, and mailed nothing but rows of the table.
pub mailed_at_most_once :
    {s t : System}
    → IsTable s.mail
    → s.workers ≡ []
    → s.mailed ≡ []
    → Reach s t
    → ((campaign guest : ℕ) → mails_to t campaign guest ≤ 1)
      × ((k : ℕ) → count_by (λ j. j == k) t.mailed ≤ count_by (λ r. send_key r == k) t.mail.sends)
mailed_at_most_once {s} {t} table idle none_yet run =
    let start : IsExclusive s = record {
      table = table;
      once = λ k. omega (arith, ap (count_by (λ j. j == k)) none_yet, ap (sum_by (held k)) idle);
    } in
    let v = Reach-IsExclusive start run in
    (
      λ c g. omega (
        arith,
        v.table.unique c g,
        sum_of_few (λ r. count_by (λ j. j == r.id) t.mailed) (is_send c g) t.mail.sends
            (λ r. omega (arith, v.once r.id, taken-le r.id t.mail.sends, v.table.keyed.once r.id)),
      ),
      λ k. omega (arith, v.once k, taken-le k t.mail.sends),
    )
