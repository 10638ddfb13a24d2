-- ===== src/Campaigns/Sender/Drain.antt =====
-- send_campaign_emails.py: runs of the command, one after another, until nothing is queued.
use boxoffice.Campaigns.Sender.Progress.{queue_falls, freed, queue_length}
use boxoffice.Campaigns.Sender.Finish.{waits, IsSettled}
use boxoffice.Campaigns.Sender.Settling.{handle-IsSettled}
use boxoffice.Common.{
  ℕ, zero, suc, ◌≤◌, ◌≡◌, refl, sym, subst, inl, inr, Bool, true, false, ◌&&◌, ◌||◌, not, Option,
  List, [], ◌∷◌, arith, ◌==◌, ==_iff, ==_refl, &&_split, Bool-cases, any, All, select, length,
}
use boxoffice.Common.Text.{Text}
use boxoffice.Common.Counting.{any_mono, any_of_count, count_by-zero}
use boxoffice.Common.Pairs.{All-imp, All-both, All-always, All-any}
use boxoffice.Campaigns.{EmailCampaign, CampaignSend, Mail, is_running, is_pending, is_claimed}
use boxoffice.Campaigns.Sender.{campaign_runs, is_queued, handle}

select-none :
    (p : CampaignSend → Bool) (xs : List CampaignSend) → any p xs ≡ false → select p xs ≡ []
select-none p [] e = refl
select-none p (x ∷ xs) e = ground (arith, e, select-none p xs)

queued_of :
    (m : Mail) (c : ℕ) (x : CampaignSend)
    → waits c x ≡ true
    → campaign_runs m c ≡ true
    → is_queued m x ≡ true
queued_of m c x w r =
    let (mine, p) = &&_split (x.campaign == c) (is_pending x.status) w in
    let s : campaign_runs m x.campaign ≡ true =
      subst (λ k. campaign_runs m k ≡ true) (sym ((==_iff x.campaign c).0 mine)) r in
    rw (p, s) refl

self_runs :
    (m : Mail) → All (λ c. is_running c.status ≡ true → campaign_runs m c.id ≡ true) m.campaigns
self_runs m =
    All-imp _ (λ c. is_running c.status ≡ true → campaign_runs m c.id ≡ true) m.campaigns
      (λ c e r.
        freed (is_running c.status) (λ (x : EmailCampaign). x.id == c.id && is_running x.status)
          m.campaigns e r)
      (All-any
        (λ (c x : EmailCampaign).
          not (is_running c.status) || (x.id == c.id && is_running x.status))
        m.campaigns (λ c. ground (arith, ==_refl c.id)))

-- The runs of cron, each with its own time and with what the mail server does then.
unfoldable pub runs : ℕ → List (ℕ × (ℕ → Option Text)) → Mail → Mail
runs batch_size [] m = m
runs batch_size ((now, deliver) ∷ more) m =
    runs batch_size more (handle true batch_size deliver now m)

no_queue-idle :
    (n now : ℕ) (deliver : ℕ → Option Text) (m : Mail)
    → any (is_queued m) m.sends ≡ false
    → handle true (suc n) deliver now m ≡ m
unfolding handle
no_queue-idle n now deliver m e = rw (select-none (is_queued m) m.sends e) refl

drained :
    (n : ℕ) (rs : List (ℕ × (ℕ → Option Text))) (m : Mail)
    → IsSettled m
    → queue_length m ≤ length rs
    → IsSettled (runs (suc n) rs m)
      × (any (is_queued (runs (suc n) rs m)) (runs (suc n) rs m).sends ≡ false)
unfolding runs
drained n [] m v le = (v, any_of_count (is_queued m) m.sends (omega (arith, le)))
drained n ((now, deliver) ∷ rs) m v le = elim (Bool-cases (any (is_queued m) m.sends)) [
  | inl busy ↦
      drained n rs (handle true (suc n) deliver now m) (handle-IsSettled (suc n) now deliver m v)
        (omega (arith, le, queue_falls n now deliver m v busy))
  | inr idle ↦
      drained n rs (handle true (suc n) deliver now m) (handle-IsSettled (suc n) now deliver m v) (
        rw (no_queue-idle n now deliver m idle)
          (omega (arith, count_by-zero (is_queued m) m.sends idle)))
]

quiet :
    (m : Mail)
    → IsSettled m
    → any (is_queued m) m.sends ≡ false
    → All (λ c. is_running c.status ≡ false) m.campaigns
quiet m v idle =
    All-both (λ c. is_running c.status ≡ true → any (waits c.id) m.sends ≡ true)
      (λ c. is_running c.status ≡ true → campaign_runs m c.id ≡ true)
      (λ c. is_running c.status ≡ false) m.campaigns
      (λ c live here. elim (Bool-cases (is_running c.status)) [
        | inr stopped ↦ stopped
        | inl going ↦ absurd (
            cc (
              idle,
              any_mono (waits c.id) (is_queued m) m.sends
                  (All-always _ m.sends (λ x w. queued_of m c.id x w (here going))) (live going),
            ))
      ])
      v.live (self_runs m)

-- Every campaign that is being sent comes to its end, if no row is left claimed and each such campaign has
-- a pending row: with room for a row in a batch, as many runs as there are queued rows leave no campaign
-- sending, whatever the mail server answers, and no row claimed.
pub runs_finish_campaigns :
    (batch_size : ℕ) (rs : List (ℕ × (ℕ → Option Text))) (m : Mail)
    → 1 ≤ batch_size
    → IsSettled m
    → queue_length m ≤ length rs
    → All (λ c. is_running c.status ≡ false) (runs batch_size rs m).campaigns
      × (any (λ s. is_claimed s.status) (runs batch_size rs m).sends ≡ false)
runs_finish_campaigns zero rs m room v le = absurd (omega (arith, room))
runs_finish_campaigns (suc n) rs m room v le =
    let (w, idle) = drained n rs m v le in (quiet (runs (suc n) rs m) w idle, w.unclaimed)
