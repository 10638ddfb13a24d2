-- ===== src/Campaigns/Queue.antt =====
-- campaigns/services.py, the loop of start_campaign: the guests that are queued, once each.
use boxoffice.Common.{
  ℕ, ◌+◌, ◌≤◌, ◌≡◌, refl, sym, ap, subst, ◌∙◌, inl, inr, Bool, true, false, ◌&&◌, List, [], ◌∷◌,
  ◌++◌, arith, ◌==◌, ==_iff, ==_refl, &&_split, Bool-cases, Option-cases, if◌then◌else◌, any,
  count_by, All, select, length,
}
use boxoffice.Common.Counting.{
  count_by-append, any-append, count_by-select, count_by-le, any_of_count, count_by-zero,
}
use boxoffice.Common.Pairs.{All-both, All-always}
use boxoffice.Common.Results.{ok, ok-injective, err-ne-ok}
use boxoffice.Db.{Db, GuestAccount}
use boxoffice.Campaigns.{
  EmailCampaign, CampaignSend, SegmentKind, Mail, is_mailable, segment_of, segment_guests, is_send,
  new_send, insert_send, queue_guest, queue_sends, bought, spent_at_least,
}

abbrev pub of_campaign : ℕ → CampaignSend → Bool
of_campaign pk s = s.campaign == pk

-- Guests have pks of their own.
abbrev pub IsKeyed : List GuestAccount → Type 0
IsKeyed guests = (k : ℕ) → count_by (λ (g : GuestAccount). g.id == k) guests ≤ 1

select-IsKeyed :
    (p : GuestAccount → Bool) (xs : List GuestAccount) → IsKeyed xs → IsKeyed (select p xs)
select-IsKeyed p xs h k = rw (count_by-select (λ (g : GuestAccount). g.id == k) p xs) (
    omega (
      arith,
      h k,
      count_by-le (λ x. p x && x.id == k) (λ x. x.id == k) xs
          (All-always _ xs (λ x e. (&&_split (p x) (x.id == k) e).1)),
    ))

segment_of-OnOk :
    (db : Db) (kind : SegmentKind) (c : EmailCampaign) (base gs : List GuestAccount)
    → IsKeyed base
    → segment_of db kind c base ≡ ok gs
    → IsKeyed gs
segment_of-OnOk db SegmentKind.all c base gs h e = subst IsKeyed (ok-injective e) h
segment_of-OnOk db SegmentKind.event c base gs h e =
    subst IsKeyed (ok-injective e) (select-IsKeyed (bought db c.segment_event) base h)
segment_of-OnOk db SegmentKind.min_spend c base gs h e = elim (Option-cases c.segment_min_spend) [
  | inl missing ↦ absurd (err-ne-ok (rw missing at e))
  | inr (minimum, there) ↦
      subst IsKeyed (ok-injective (rw there at e))
        (select-IsKeyed (spent_at_least db minimum) base h)
]

pub segment-IsKeyed :
    (db : Db) (c : EmailCampaign) (gs : List GuestAccount)
    → IsKeyed db.guests
    → segment_guests db c ≡ ok gs
    → IsKeyed gs
unfolding segment_guests
segment-IsKeyed db c gs h e =
    segment_of-OnOk db c.segment_kind c (select (is_mailable c.organization) db.guests) gs
      (select-IsKeyed (is_mailable c.organization) db.guests h) e

-- Guests that are not queued yet, once each.
pub record AreFresh (pk : ℕ) (sends : List CampaignSend) (gs : List GuestAccount) : Type 0 where
  pub keyed : IsKeyed gs
  pub fresh : All (λ g. any (is_send pk g.id) sends ≡ false) gs

apart :
    (k : ℕ) (gs : List GuestAccount)
    → any (λ (g : GuestAccount). g.id == k) gs ≡ false
    → All (λ g. (g.id == k) ≡ false) gs
apart k [] e = tt
apart k (g ∷ gs) e = (ground (arith, e), apart k gs (ground (arith, e)))

still_fresh :
    (c : EmailCampaign) (next : ℕ) (g h : GuestAccount) (sends : List CampaignSend)
    → (h.id == g.id) ≡ false
    → any (is_send c.id h.id) sends ≡ false
    → any (is_send c.id h.id) (sends ++ new_send next c g ∷ []) ≡ false
still_fresh c next g h sends other e =
    any-append (is_send c.id h.id) sends (new_send next c g ∷ [])
    ∙ rw e (ground (arith, other, ==_iff h.id g.id, ==_iff g.id h.id))

AreFresh-next :
    (c : EmailCampaign) (m : Mail) (g : GuestAccount) (gs : List GuestAccount)
    → AreFresh c.id m.sends (g ∷ gs)
    → AreFresh c.id (insert_send m (new_send m.db.next_id c g)).sends gs
AreFresh-next c m g gs f = record {
  keyed = λ k. omega (arith, f.keyed k);
  fresh =
      All-both (λ h. (h.id == g.id) ≡ false) (λ h. any (is_send c.id h.id) m.sends ≡ false) _ gs
        (λ h other e. still_fresh c m.db.next_id g h m.sends other e)
        (apart g.id gs
          (any_of_count (λ h. h.id == g.id) gs (ground (arith, f.keyed g.id, ==_refl g.id))))
        f.fresh.1;
}

pub queue_fresh :
    (m : Mail) (c : EmailCampaign) (g : GuestAccount) (gs : List GuestAccount)
    → any (is_send c.id g.id) m.sends ≡ false
    → queue_sends m c (g ∷ gs) ≡ queue_sends (insert_send m (new_send m.db.next_id c g)) c gs
unfolding queue_sends
queue_fresh m c g gs e =
    ap (λ (n : Mail). queue_sends n c gs)
      (let step : queue_guest m c g ≡ insert_send m (new_send m.db.next_id c g) = rw e refl in step)

pub queue_old :
    (m : Mail) (c : EmailCampaign) (g : GuestAccount) (gs : List GuestAccount)
    → any (is_send c.id g.id) m.sends ≡ true
    → queue_sends m c (g ∷ gs) ≡ queue_sends m c gs
unfolding queue_sends
queue_old m c g gs e =
    ap (λ (n : Mail). queue_sends n c gs) (let step : queue_guest m c g ≡ m = rw e refl in step)

-- Each is queued: the rows that a test of pending rows of the campaign counts go up by one for each guest.
pub queued-count :
    (q : CampaignSend → Bool) (c : EmailCampaign) (gs : List GuestAccount) (m : Mail)
    → ((n : ℕ) (g : GuestAccount) → q (new_send n c g) ≡ true)
    → AreFresh c.id m.sends gs
    → count_by q (queue_sends m c gs).sends ≡ count_by q m.sends + length gs
unfolding queue_sends
queued-count q c [] m h f = omega arith
queued-count q c (g ∷ gs) m h f =
    ap (λ (n : Mail). count_by q n.sends) (queue_fresh m c g gs f.fresh.0)
    ∙ (queued-count q c gs (insert_send m (new_send m.db.next_id c g)) h (AreFresh-next c m g gs f)
        ∙ omega (
          arith,
          count_by-append q m.sends (new_send m.db.next_id c g ∷ []),
          ap {B = ℕ} (λ (b : Bool). if b then 1 else 0) (h m.db.next_id g),
        ))

-- The unique constraint holds, whoever is queued.
pub queued_unique :
    (c : EmailCampaign) (i k : ℕ) (gs : List GuestAccount) (m : Mail)
    → count_by (is_send i k) m.sends ≤ 1
    → count_by (is_send i k) (queue_sends m c gs).sends ≤ 1
unfolding queue_sends
queued_unique c i k [] m le = le
queued_unique c i k (g ∷ gs) m le = elim (Bool-cases (any (is_send c.id g.id) m.sends)) [
  | inl there ↦
      subst (λ (n : Mail). count_by (is_send i k) n.sends ≤ 1) (sym (queue_old m c g gs there))
        (queued_unique c i k gs m le)
  | inr fresh ↦
      subst (λ (n : Mail). count_by (is_send i k) n.sends ≤ 1) (sym (queue_fresh m c g gs fresh))
        (queued_unique c i k gs (insert_send m (new_send m.db.next_id c g)) (
          rw (count_by-append (is_send i k) m.sends (new_send m.db.next_id c g ∷ []))
            (elim (Bool-cases (c.id == i && g.id == k)) [
              | inr other ↦ rw other (omega (arith, le))
              | inl hit ↦
                  let (a, b) = &&_split (c.id == i) (g.id == k) hit in
                  rw hit (
                    subst (λ n. count_by (is_send n k) m.sends + (1 + 0) ≤ 1) ((==_iff c.id i).0 a)
                      (subst (λ n. count_by (is_send c.id n) m.sends + (1 + 0) ≤ 1)
                        ((==_iff g.id k).0 b)
                        (omega (arith, count_by-zero (is_send c.id g.id) m.sends fresh))))
            ])))
]
