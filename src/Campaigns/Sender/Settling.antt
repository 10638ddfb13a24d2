-- ===== src/Campaigns/Sender/Settling.antt =====
-- send_campaign_emails.py: a run leaves no row claimed and no campaign without a row that waits.
use boxoffice.Campaigns.Sender.Finish.{
  waits, IsSettled, Runs, Kept, finish_all_sends, finish_all-Runs, kept,
}
use boxoffice.Common.{
  ℕ, ◌≤◌, ◌≡◌, sym, ap, subst, ◌∙◌, inl, inr, Bool, true, false, ◌&&◌, not, Option, List, [], ◌∷◌,
  arith, ◌==◌, ==_iff, ==_refl, &&_split, Bool-cases, any, count_by, All, contains, select,
  order_by,
}
use boxoffice.Common.Text.{Text}
use boxoffice.Common.Counting.{any_mono, All-select}
use boxoffice.Common.Pairs.{
  Pairs, any-Pairs, count_by-Pairs, any_le-Pairs, All-imp, All-both, All-always, All-take,
  All-order_by, same_of_key,
}
use boxoffice.Campaigns.{EmailCampaign, CampaignSend, Mail, is_running, is_pending, is_claimed}
use boxoffice.Campaigns.Sender.{
  is_open, is_queued, send_key, next_batch, finish_campaigns, touched, send_all, handle,
}
use boxoffice.Campaigns.Sender.Batch.{keys, Settled, send_all-Settled, send_all_tables}

-- A waiting row of a campaign that the batch has nothing of is not in the batch.
spared :
    (c : ℕ) (bs : List CampaignSend) (x : CampaignSend)
    → (contains x.id (keys bs) ≡ true → contains x.campaign (touched bs) ≡ true)
    → waits c x ≡ true
    → contains c (touched bs) ≡ false
    → (waits c x && not (contains x.id (keys bs))) ≡ true
spared c bs x cover w out = elim (Bool-cases (contains x.id (keys bs))) [
  | inr free ↦ rw (w, free)
  | inl taken ↦
      let mine : x.campaign ≡ c =
        (==_iff x.campaign c).0 (&&_split (x.campaign == c) (is_pending x.status) w).0 in
      absurd (cc (subst (λ k. contains k (touched bs) ≡ true) mine (cover taken), out))
]

pub passing :
    (p : CampaignSend → Bool) (xs : List CampaignSend) → All (λ x. p x ≡ true) (select p xs)
passing p [] = tt
passing p (x ∷ xs) = elim (Bool-cases (p x)) [
  | inl yes_p ↦ rw yes_p (yes_p, passing p xs)
  | inr no_p ↦ rw no_p (passing p xs)
]

covers :
    (sends bs : List CampaignSend)
    → All (λ b. All (λ x. (send_key x == send_key b) ≡ true → x ≡ b) sends) bs
    → All (λ x. contains x.id (keys bs) ≡ true → contains x.campaign (touched bs) ≡ true) sends
covers sends [] a = All-always _ sends (λ x e. cc e)
covers sends (b ∷ bs) a =
    All-both (λ x. (send_key x == send_key b) ≡ true → x ≡ b)
      (λ x. contains x.id (keys bs) ≡ true → contains x.campaign (touched bs) ≡ true)
      (λ x. contains x.id (keys (b ∷ bs)) ≡ true → contains x.campaign (touched (b ∷ bs)) ≡ true)
      sends
      (λ x same rest e. elim (Bool-cases (x.id == b.id)) [
        | inl here ↦ rw (same here) (ground (arith, ==_refl b.campaign))
        | inr later ↦ ground (arith, rest (ground (arith, e, later)))
      ])
      a.0 (covers sends bs a.1)

open_waits :
    (c : ℕ) (xs : List CampaignSend)
    → any (λ s. s.campaign == c && is_open s.status) xs ≡ true
    → any (λ s. is_claimed s.status) xs ≡ false
    → any (waits c) xs ≡ true
open_waits c [] e none_claimed = cc
open_waits c (x ∷ xs) e none_claimed = ground (arith, e, none_claimed, open_waits c xs)

module _ (batch_size now : ℕ) (deliver : ℕ → Option Text) (m : Mail) (v : IsSettled m) where
  abbrev pub batch : List CampaignSend
  batch = next_batch batch_size m

  abbrev pub worked : Mail
  worked = send_all deliver now m batch

  pub rows : Pairs (Settled (keys batch)) m.sends worked.sends
  rows = send_all-Settled deliver now batch m

  abbrev pub OfBatch : CampaignSend → Type 0
  OfBatch b = All (λ x. (send_key x == send_key b) ≡ true → x ≡ b) m.sends

  pub origin : All OfBatch batch
  origin = All-take OfBatch batch_size (order_by send_key (select (is_queued m) m.sends)) (
      All-order_by OfBatch send_key (select (is_queued m) m.sends)
        (All-select OfBatch (is_queued m) m.sends (same_of_key send_key m.sends v.once)))

  pub left :
      (p : ℕ → Bool) (x y : CampaignSend)
      → Settled (keys batch) x y
      → (p y.campaign && is_pending y.status)
        ≡ ((p x.campaign && is_pending x.status) && not (contains x.id (keys batch)))
  left p x y r = ground (arith, r.outside, r.worked)

  after-unclaimed : any (λ s. is_claimed s.status) worked.sends ≡ false
  after-unclaimed = elim (Bool-cases (any (λ s. is_claimed s.status) worked.sends)) [
    | inr none_left ↦ none_left
    | inl some_left ↦ absurd (
        cc (
          v.unclaimed,
          any_le-Pairs (Settled (keys batch)) (λ s. is_claimed s.status) (λ s. is_claimed s.status)
              m.sends worked.sends (λ x y r. r.released) rows some_left,
        ))
  ]

  abbrev Waiting : ℕ → Type 0
  Waiting c = contains c (touched batch) ≡ false → any (waits c) worked.sends ≡ true

  still_waits : (c : ℕ) → any (waits c) m.sends ≡ true → Waiting c
  still_waits c e out =
      any-Pairs (Settled (keys batch)) (λ x. waits c x && not (contains x.id (keys batch)))
        (waits c) m.sends worked.sends (left (λ k. k == c)) rows
      ∙ any_mono (waits c) (λ x. waits c x && not (contains x.id (keys batch))) m.sends
          (All-imp _ _ m.sends (λ x cover w. spared c batch x cover w out)
            (covers m.sends batch origin))
          e

  abbrev pub ran : Mail
  ran = finish_campaigns now worked (touched batch)

  pub ran_sends : ran.sends ≡ worked.sends
  ran_sends = finish_all_sends now (touched batch) worked

  ran-live :
      All (λ c. is_running c.status ≡ true → any (waits c.id) worked.sends ≡ true) ran.campaigns
  ran-live =
      All-both (Runs Waiting) (Runs (Kept now worked (touched batch)))
        (λ c. is_running c.status ≡ true → any (waits c.id) worked.sends ≡ true) ran.campaigns
        (λ c waiting busy r. elim (Bool-cases (contains c.id (touched batch))) [
          | inr out ↦ waiting r out
          | inl hit ↦ open_waits c.id worked.sends (busy r hit) after-unclaimed
        ])
        (finish_all-Runs now Waiting (touched batch) worked (
          subst (λ (cs : List EmailCampaign). All (Runs Waiting) cs)
            (sym (send_all_tables deliver now batch m).0)
            (All-imp _ (Runs Waiting) m.campaigns (λ c h r. still_waits c.id (h r)) v.live)))
        (kept now (touched batch) worked)

  ran-once : (k : ℕ) → count_by (λ s. send_key s == k) worked.sends ≤ 1
  ran-once k =
      rw
        (count_by-Pairs (Settled (keys batch)) (λ s. send_key s == k) (λ s. send_key s == k) m.sends
          worked.sends (λ x y r. ap (λ i. i == k) r.id) rows)
        (v.once k)

  pub handle-IsSettled : IsSettled (handle true batch_size deliver now m)
  unfolding handle
  handle-IsSettled = record {
    once = λ k. rw ran_sends (ran-once k);
    unclaimed = rw ran_sends after-unclaimed;
    live = rw ran_sends ran-live;
  }
