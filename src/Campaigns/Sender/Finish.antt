-- ===== src/Campaigns/Sender/Finish.antt =====
-- send_campaign_emails.py: which campaigns a run finishes, and what holds between two runs.
use boxoffice.Common.{
  ℕ, ◌≤◌, ◌≡◌, refl, sym, ap, subst, ◌∙◌, inl, inr, Bool, true, false, ◌&&◌, some, List, [], ◌∷◌,
  arith, ◌==◌, ==_iff, Bool-cases, update_where, any, count_by, All, contains,
}
use boxoffice.Common.Updates.{All-update}
use boxoffice.Common.Pairs.{All-imp, All-both, All-always}
use boxoffice.Campaigns.{
  CampaignStatus, EmailCampaign, CampaignSend, Mail, is_running, is_pending, is_claimed,
}
use boxoffice.Campaigns.Sender.{is_open, send_key, finish_campaign, finish_campaigns}

abbrev pub waits : ℕ → CampaignSend → Bool
waits campaign s = s.campaign == campaign && is_pending s.status

-- Between two runs: rows have pks of their own, no row is left claimed, and a campaign that is sending has
-- a row that waits.
pub record IsSettled (m : Mail) : Type 0 where
  pub once : (k : ℕ) → count_by (λ s. send_key s == k) m.sends ≤ 1
  pub unclaimed : any (λ s. is_claimed s.status) m.sends ≡ false
  pub live : All (λ c. is_running c.status ≡ true → any (waits c.id) m.sends ≡ true) m.campaigns

-- A campaign that still runs has a claim on `Q`.
abbrev pub Runs : (ℕ → Type 0) → EmailCampaign → Type 0
Runs Q c = is_running c.status ≡ true → Q c.id

abbrev pub has_open : Mail → ℕ → Bool
has_open m campaign = any (λ (s : CampaignSend). s.campaign == campaign && is_open s.status) m.sends

module _ (now : ℕ) where
  finish-Runs :
      (Q : ℕ → Type 0) (m : Mail) (k : ℕ)
      → All (Runs Q) m.campaigns
      → All (Runs Q) (finish_campaign now m k).campaigns
  finish-Runs Q m k a = elim (Bool-cases (has_open m k)) [
    | inl busy ↦ rw busy a
    | inr done ↦ rw done (
        All-update (λ (c : EmailCampaign). c.id == k && is_running c.status)
          (λ c. record c { status = CampaignStatus.sent; sent_at = some now }) (Runs Q) m.campaigns
          (All-always _ m.campaigns (λ c e h r. cc r)) a)
  ]

  stopped :
      (k : ℕ) (cs : List EmailCampaign)
      → All
          (λ c. is_running c.status ≡ true → (c.id == k) ≡ false)
          (update_where
            (λ (c : EmailCampaign). c.id == k && is_running c.status)
            (λ c. record c { status = CampaignStatus.sent; sent_at = some now })
            cs)
  stopped k [] = tt
  stopped k (c ∷ cs) = (λ r. ground (arith, r), stopped k cs)

  abbrev pub Kept : Mail → List ℕ → ℕ → Type 0
  Kept m ks c = contains c ks ≡ true → has_open m c ≡ true

  finish_sends : (m : Mail) (k : ℕ) → (finish_campaign now m k).sends ≡ m.sends
  finish_sends m k = ground arith

  finish_db : (m : Mail) (k : ℕ) → (finish_campaign now m k).db ≡ m.db
  finish_db m k = ground arith

  pub finish_all_sends : (ks : List ℕ) (m : Mail) → (finish_campaigns now m ks).sends ≡ m.sends
  finish_all_sends [] m = refl
  finish_all_sends (k ∷ ks) m = finish_all_sends ks (finish_campaign now m k) ∙ finish_sends m k

  finish_one :
      (m : Mail) (k : ℕ)
      → All
          (λ c. is_running c.status ≡ true → (c.id == k) ≡ true → has_open m k ≡ true)
          (finish_campaign now m k).campaigns
  finish_one m k = elim (Bool-cases (has_open m k)) [
    | inl busy ↦ rw busy (All-always _ m.campaigns (λ c r e. refl))
    | inr done ↦ rw done (All-imp _ _ _ (λ c h r e. absurd (cc (h r, e))) (stopped k m.campaigns))
  ]

  pub finish_all-Runs :
      (Q : ℕ → Type 0) (ks : List ℕ) (m : Mail)
      → All (Runs Q) m.campaigns
      → All (Runs Q) (finish_campaigns now m ks).campaigns
  finish_all-Runs Q [] m a = a
  finish_all-Runs Q (k ∷ ks) m a =
      finish_all-Runs Q ks (finish_campaign now m k) (finish-Runs Q m k a)

  same_open : (m m' : Mail) (c : ℕ) → m'.sends ≡ m.sends → has_open m' c ≡ has_open m c
  same_open m m' c e =
      ap (λ (xs : List CampaignSend). any (λ s. s.campaign == c && is_open s.status) xs) e

  pub kept : (ks : List ℕ) (m : Mail) → All (Runs (Kept m ks)) (finish_campaigns now m ks).campaigns
  kept [] m = All-always (Runs (Kept m [])) m.campaigns (λ c r e. cc e)
  kept (k ∷ ks) m =
      let m' = finish_campaign now m k in
      All-both (Runs (λ c. (c == k) ≡ true → has_open m k ≡ true)) (Runs (Kept m' ks))
        (Runs (Kept m (k ∷ ks))) (finish_campaigns now m' ks).campaigns
        (λ c here rest r e. elim (Bool-cases (c.id == k)) [
          | inl same ↦ subst (λ i. has_open m i ≡ true) (sym ((==_iff c.id k).0 same)) (here r same)
          | inr other ↦
              sym (same_open m m' c.id (finish_sends m k)) ∙ rest r (ground (arith, e, other))
        ])
        (finish_all-Runs (λ c. (c == k) ≡ true → has_open m k ≡ true) ks m' (finish_one m k))
        (kept ks m')
