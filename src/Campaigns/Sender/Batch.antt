-- ===== src/Campaigns/Sender/Batch.antt =====
-- send_campaign_emails.py: what the loop over a batch leaves of the rows.
use boxoffice.Common.{
  ℕ, ◌≡◌, refl, inl, inr, true, false, Option, none, some, List, [], ◌∷◌, arith, ◌==◌, Bool-cases,
  if◌then◌else◌, any, contains,
}
use boxoffice.Common.Text.{Text}
use boxoffice.Common.Pairs.{Pairs, Pairs-update, Pairs-same, Pairs-trans}
use boxoffice.Campaigns.{SendStatus, CampaignSend, Mail, is_pending, is_claimed}
use boxoffice.Campaigns.Sender.{
  is_waiting, set_send, claim, still_consents, delivered, send_one, send_all,
}

abbrev pub keys : List CampaignSend → List ℕ
keys [] = []
keys (s ∷ sends) = s.id ∷ keys sends

-- The rows of `ks` are no longer pending and are not left claimed; the others are as they were.
pub record Settled (ks : List ℕ) (s s' : CampaignSend) : Type 0 where
  pub id : s'.id ≡ s.id
  pub campaign : s'.campaign ≡ s.campaign
  pub guest : s'.guest ≡ s.guest
  pub outside : contains s.id ks ≡ false → s'.status ≡ s.status
  pub worked : contains s.id ks ≡ true → is_pending s'.status ≡ false
  pub released : is_claimed s'.status ≡ true → is_claimed s.status ≡ true

-- Claimed: the row is in neither of the two states between which the others stay.
record Claimed (k : ℕ) (s s' : CampaignSend) : Type 0 where
  id : s'.id ≡ s.id
  campaign : s'.campaign ≡ s.campaign
  guest : s'.guest ≡ s.guest
  outside : (s.id == k) ≡ false → s'.status ≡ s.status

Claimed-claim : (k : ℕ) (m : Mail) → Pairs (Claimed k) m.sends (claim m k).0.sends
Claimed-claim k m =
    Pairs-update (Claimed k) (is_waiting k) (λ s. record s { status = SendStatus.sending }) m.sends
      (λ s. ground arith)

finished_row :
    (k : ℕ) (f : CampaignSend → CampaignSend)
    → ((s : CampaignSend)
        → ((f s).id ≡ s.id)
          × ((f s).campaign ≡ s.campaign)
          × ((f s).guest ≡ s.guest)
          × (is_pending (f s).status ≡ false)
          × (is_claimed (f s).status ≡ false))
    → (s t u : CampaignSend) → Claimed k s t
    → u ≡ (if t.id == k then f t else t)
    → Settled (k ∷ []) s u
finished_row k f h s t u c e = ground (arith, h t)

closed :
    (k : ℕ) (f : CampaignSend → CampaignSend)
    → ((s : CampaignSend)
        → ((f s).id ≡ s.id)
          × ((f s).campaign ≡ s.campaign)
          × ((f s).guest ≡ s.guest)
          × (is_pending (f s).status ≡ false)
          × (is_claimed (f s).status ≡ false))
    → (m : Mail) → Pairs (Settled (k ∷ [])) m.sends (set_send (claim m k).0 k f).sends
closed k f h m =
    Pairs-trans (Claimed k) (λ t u. u ≡ (if t.id == k then f t else t)) (Settled (k ∷ [])) m.sends
      (claim m k).0.sends _ (finished_row k f h) (Claimed-claim k m)
      (Pairs-update (λ t u. u ≡ (if t.id == k then f t else t)) (λ s. s.id == k) f
        (claim m k).0.sends (λ t. refl))

-- A row that another run has claimed is not pending any more.
unclaimed :
    (k : ℕ) (sends : List CampaignSend)
    → any (is_waiting k) sends ≡ false
    → Pairs (Settled (k ∷ [])) sends sends
unclaimed k [] e = tt
unclaimed k (s ∷ sends) e = (ground (arith, e), unclaimed k sends (ground (arith, e)))

skipped :
    (s : CampaignSend)
    → ((record s { status = SendStatus.skipped }).id ≡ s.id)
      × (s.campaign ≡ s.campaign)
      × (s.guest ≡ s.guest)
      × (is_pending SendStatus.skipped ≡ false)
      × (is_claimed SendStatus.skipped ≡ false)
skipped s = (refl, refl, refl, refl, refl)

written :
    (now : ℕ) (o : Option Text) (s : CampaignSend)
    → ((delivered now o s).id ≡ s.id)
      × ((delivered now o s).campaign ≡ s.campaign)
      × ((delivered now o s).guest ≡ s.guest)
      × (is_pending (delivered now o s).status ≡ false)
      × (is_claimed (delivered now o s).status ≡ false)
written now none s = (refl, refl, refl, refl, refl)
written now (some exc) s = (refl, refl, refl, refl, refl)

module _ (deliver : ℕ → Option Text) (now : ℕ) where
  send_one-Settled :
      (m : Mail) (s : CampaignSend)
      → Pairs (Settled (s.id ∷ [])) m.sends (send_one deliver now m s).sends
  send_one-Settled m s = elim (Bool-cases (any (is_waiting s.id) m.sends)) [
    | inr lost ↦ rw lost (unclaimed s.id m.sends lost)
    | inl won ↦ rw won (elim (Bool-cases (still_consents (claim m s.id).0 s.guest)) [
      | inl consents ↦
          rw consents (closed s.id (delivered now (deliver s.id)) (written now (deliver s.id)) m)
      | inr withdrawn ↦
          rw withdrawn (closed s.id (λ s. record s { status = SendStatus.skipped }) skipped m)
    ])
  ]

  both :
      (k : ℕ) (ks : List ℕ) (x y z : CampaignSend)
      → Settled (k ∷ []) x y
      → Settled ks y z
      → Settled (k ∷ ks) x z
  both k ks x y z r s = ground arith

  -- The loop settles the rows of the batch, and touches no other.
  pub send_all-Settled :
      (batch : List CampaignSend) (m : Mail)
      → Pairs (Settled (keys batch)) m.sends (send_all deliver now m batch).sends
  send_all-Settled [] m = Pairs-same (Settled []) m.sends (λ x. ground arith)
  send_all-Settled (s ∷ batch) m =
      Pairs-trans (Settled (s.id ∷ [])) (Settled (keys batch)) (Settled (s.id ∷ keys batch)) m.sends
        (send_one deliver now m s).sends (send_all deliver now m (s ∷ batch)).sends
        (both s.id (keys batch)) (send_one-Settled m s)
        (send_all-Settled batch (send_one deliver now m s))

  send_one_tables :
      (m : Mail) (s : CampaignSend)
      → ((send_one deliver now m s).campaigns ≡ m.campaigns)
        × ((send_one deliver now m s).db ≡ m.db)
  send_one_tables m s = ground arith

  -- It reads the other tables only.
  pub send_all_tables :
      (batch : List CampaignSend) (m : Mail)
      → ((send_all deliver now m batch).campaigns ≡ m.campaigns)
        × ((send_all deliver now m batch).db ≡ m.db)
  send_all_tables [] m = (refl, refl)
  send_all_tables (s ∷ batch) m =
      ground (arith, send_one_tables m s, send_all_tables batch (send_one deliver now m s))
