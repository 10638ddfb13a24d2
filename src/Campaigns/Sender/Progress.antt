-- ===== src/Campaigns/Sender/Progress.antt =====
-- send_campaign_emails.py: a run works off a row at least, where one is queued.
use boxoffice.Campaigns.Sender.Finish.{IsSettled, has_open}
use boxoffice.Campaigns.Sender.Settling.{passing, batch, worked, rows, ran, ran_sends}
use boxoffice.Common.{
  ℕ, suc, ◌+◌, ◌≤◌, ◌≡◌, refl, subst, ◌∙◌, inl, inr, Bool, true, false, ◌&&◌, ◌||◌, not, Option,
  some, List, [], ◌∷◌, arith, ◌==◌, is_empty, insert_by, ==_refl, &&_split, Bool-cases, any,
  count_by, All, contains, select, take, order_by,
}
use boxoffice.Common.Text.{Text}
use boxoffice.Common.Counting.{count_by-le, any_mono, All-select}
use boxoffice.Common.Updates.{any-update-le}
use boxoffice.Common.Pairs.{
  count_by-Pairs, All-imp, All-both, All-always, All-take, All-order_by, All-any,
}
use boxoffice.Campaigns.{CampaignStatus, EmailCampaign, CampaignSend, Mail, is_running, is_pending}
use boxoffice.Campaigns.Sender.{
  campaign_runs, is_queued, send_key, finish_campaign, finish_campaigns, touched, handle,
}
use boxoffice.Campaigns.Sender.Batch.{keys, Settled, send_all_tables}

-- The rows that the next runs have to work off.
abbrev pub queue_length : Mail → ℕ
queue_length m = count_by (is_queued m) m.sends

fewer_run :
    (now k c : ℕ) (m : Mail)
    → campaign_runs (finish_campaign now m k) c ≡ true
    → campaign_runs m c ≡ true
fewer_run now k c m e = elim (Bool-cases (has_open m k)) [
  | inl busy ↦ rw busy at e
  | inr done ↦
      any-update-le (λ (c : EmailCampaign). c.id == k && is_running c.status)
        (λ c. record c { status = CampaignStatus.sent; sent_at = some now })
        (λ (x : EmailCampaign). x.id == c && is_running x.status) m.campaigns
        (All-always _ m.campaigns (λ x h r. ground (arith, r))) (rw done at e)
]

pub fewer_run_all :
    (now : ℕ) (ks : List ℕ) (c : ℕ) (m : Mail)
    → campaign_runs (finish_campaigns now m ks) c ≡ true
    → campaign_runs m c ≡ true
fewer_run_all now [] c m e = e
fewer_run_all now (k ∷ ks) c m e =
    fewer_run now k c m (fewer_run_all now ks c (finish_campaign now m k) e)

module _ {ℓ} {A : Type ℓ} where
  split_count :
      (p q : A → Bool) (xs : List A)
      → any (λ x. p x && q x) xs ≡ true
      → count_by (λ x. p x && not (q x)) xs + 1 ≤ count_by p xs
  split_count p q [] e = cc
  split_count p q (x ∷ xs) e = ground (
    arith,
    e,
    split_count p q xs,
    count_by-le (λ x. p x && not (q x)) p xs
        (All-always (λ x. (p x && not (q x)) ≡ true → p x ≡ true) xs
          (λ x h. (&&_split (p x) (not (q x)) h).0)),
  )

  is_empty-take : (n : ℕ) (xs : List A) → is_empty (take (suc n) xs) ≡ is_empty xs
  is_empty-take n [] = refl
  is_empty-take n (x ∷ xs) = refl

  is_empty-insert_by : (key : A → ℕ) (x : A) (xs : List A) → is_empty (insert_by key x xs) ≡ false
  is_empty-insert_by key x [] = refl
  is_empty-insert_by key x (y ∷ ys) = ground arith

  is_empty-order_by : (key : A → ℕ) (xs : List A) → is_empty (order_by key xs) ≡ is_empty xs
  is_empty-order_by key [] = refl
  is_empty-order_by key (x ∷ xs) = is_empty-insert_by key x (order_by key xs)

  is_empty-select : (p : A → Bool) (xs : List A) → is_empty (select p xs) ≡ not (any p xs)
  is_empty-select p [] = refl
  is_empty-select p (x ∷ xs) = ground (arith, is_empty-select p xs)

hits :
    (p : CampaignSend → Bool) (sends bs : List CampaignSend)
    → is_empty bs ≡ false
    → All (λ b. any (λ x. p x && x.id == b.id) sends ≡ true) bs
    → any (λ x. p x && contains x.id (keys bs)) sends ≡ true
hits p sends [] e a = cc
hits p sends (b ∷ bs) e a =
    any_mono (λ x. p x && x.id == b.id) (λ x. p x && contains x.id (keys (b ∷ bs))) sends
      (All-always _ sends (λ x h. ground (arith, h))) a.0

pub freed {ℓ} :
    {A : Type ℓ} (b : Bool) (q : A → Bool) (xs : List A)
    → any (λ x. not b || q x) xs ≡ true
    → b ≡ true
    → any q xs ≡ true
freed b q xs e h = rw h at e

module _ (n now : ℕ) (deliver : ℕ → Option Text) (m : Mail) (v : IsSettled m) where
  abbrev Hit : CampaignSend → Type 0
  Hit b = any (λ x. is_queued m x && x.id == b.id) m.sends ≡ true

  own-Hit : All (λ b. is_queued m b ≡ true → Hit b) m.sends
  own-Hit =
      All-imp _ (λ b. is_queued m b ≡ true → Hit b) m.sends
        (λ b e q. freed (is_queued m b) (λ x. is_queued m x && x.id == b.id) m.sends e q)
        (All-any (λ b x. not (is_queued m b) || (is_queued m x && x.id == b.id)) m.sends
          (λ x. ground (arith, ==_refl x.id)))

  batch-Hit : All Hit (batch (suc n) now deliver m v)
  batch-Hit = All-take Hit (suc n) (order_by send_key (select (is_queued m) m.sends)) (
      All-order_by Hit send_key (select (is_queued m) m.sends) (
        All-both (λ b. is_queued m b ≡ true → Hit b) (λ b. is_queued m b ≡ true) Hit
          (select (is_queued m) m.sends) (λ b h q. h q) (All-select _ (is_queued m) m.sends own-Hit)
          (passing (is_queued m) m.sends)))

  batch-ne-empty :
      any (is_queued m) m.sends ≡ true → is_empty (batch (suc n) now deliver m v) ≡ false
  batch-ne-empty e =
      is_empty-take n (order_by send_key (select (is_queued m) m.sends))
      ∙ is_empty-order_by send_key (select (is_queued m) m.sends)
      ∙ is_empty-select (is_queued m) m.sends
      ∙ rw e refl

  flipped :
      (ks : List ℕ) (x y : CampaignSend)
      → Settled ks x y
      → is_queued m y ≡ (is_queued m x && not (contains x.id ks))
  flipped ks x y r = elim (Bool-cases (contains x.id ks)) [
    | inl inside ↦ ground (arith, inside, r.worked inside)
    | inr outside ↦ rw (outside, r.outside outside, r.campaign) (ground arith)
  ]

  less :
      (x : CampaignSend) → is_queued (ran (suc n) now deliver m v) x ≡ true → is_queued m x ≡ true
  less x q =
      let b = batch (suc n) now deliver m v in
      let w = worked (suc n) now deliver m v in
      let (p, r) =
        &&_split (is_pending x.status) (campaign_runs (ran (suc n) now deliver m v) x.campaign) q in
      let s : campaign_runs m x.campaign ≡ true =
        subst
          (λ (cs : List EmailCampaign).
            any (λ (c : EmailCampaign). c.id == x.campaign && is_running c.status) cs ≡ true)
          (send_all_tables deliver now b m).0 (fewer_run_all now (touched b) x.campaign w r) in
      rw (p, s) refl

  queue-after :
      queue_length (handle true (suc n) deliver now m)
      ≤ count_by
          (λ x. is_queued m x && not (contains x.id (keys (batch (suc n) now deliver m v))))
          m.sends
  unfolding handle
  queue-after =
      let b = batch (suc n) now deliver m v in
      let w = worked (suc n) now deliver m v in
      rw (ran_sends (suc n) now deliver m v) (
        subst (λ k. count_by (is_queued (ran (suc n) now deliver m v)) w.sends ≤ k)
          (count_by-Pairs (Settled (keys b)) (λ x. is_queued m x && not (contains x.id (keys b)))
            (is_queued m) m.sends w.sends (flipped (keys b)) (rows (suc n) now deliver m v))
          (count_by-le (is_queued (ran (suc n) now deliver m v)) (is_queued m) w.sends
            (All-always _ w.sends less)))

  -- A run with room for a row works off one at least.
  pub queue_falls :
      any (is_queued m) m.sends ≡ true
      → queue_length (handle true (suc n) deliver now m) + 1 ≤ queue_length m
  queue_falls e = omega (
    arith,
    queue-after,
    split_count (is_queued m) (λ x. contains x.id (keys (batch (suc n) now deliver m v))) m.sends
        (hits (is_queued m) m.sends (batch (suc n) now deliver m v) (batch-ne-empty e) batch-Hit),
  )
