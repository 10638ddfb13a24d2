-- ===== src/Inventory/Released.antt =====
-- orders/services.py's release_hold_by_id: what it deletes, and whose.
use boxoffice.Common.{
  ℕ, ◌≡◌, refl, inl, inr, Bool, true, false, not, ◌&&◌, ◌||◌, Option, some, List, [], ◌∷◌, arith,
  ◌==◌, ◌≢◌, Bool-cases, is_key, is_some, select, any, count_by,
}
use boxoffice.Db.{Db, Hold}
use boxoffice.Orders.Holds.{release_hold_by_id}
use boxoffice.Inventory.{IsSound}
use boxoffice.Inventory.Holds.{release_hold_by_id-IsSound}

-- A hold of the session, on the theater.
abbrev pub is_own : ℕ → ℕ → Hold → Bool
is_own organization session_key h = h.organization == organization && h.session_key == session_key

module _ (organization session_key : ℕ) (hold_id : Option ℕ) where
  abbrev is_released : Hold → Bool
  is_released h =
      h.organization == organization && h.session_key == session_key && is_key hold_id h.id

  -- What a call does: `db` before, `db'` after.
  pub record Released (now : ℕ) (db db' : Db) : Type 0 where
    pub sound : IsSound now db'
    -- The named hold of the session is gone.
    pub gone :
        (k : ℕ)
        → hold_id ≡ some k
        → k ≢ 0
        → any (λ h. is_own organization session_key h && h.id == k) db'.holds ≡ false
    -- As many holds as before pass a test that no hold of the session with that pk passes.
    pub others :
        (test : Hold → Bool)
        → ((h : Hold)
            → test h ≡ true
            → (is_own organization session_key h && is_key hold_id h.id) ≡ false)
        → count_by test db'.holds ≡ count_by test db.holds
    pub rest : db' ≡ record db { holds = db'.holds }

  none_named :
      (k : ℕ) (hs : List Hold)
      → hold_id ≡ some k
      → any
          (λ h. is_own organization session_key h && h.id == k)
          (select (λ h. not (is_released h)) hs)
        ≡ false
  none_named k [] e = refl
  none_named k (h ∷ hs) e = ground (arith, none_named k hs e, e)

  others_stay :
      (test : Hold → Bool)
      → ((h : Hold)
          → test h ≡ true
          → (is_own organization session_key h && is_key hold_id h.id) ≡ false)
      → (hs : List Hold) → count_by test (select (λ h. not (is_released h)) hs) ≡ count_by test hs
  others_stay test apart [] = refl
  others_stay test apart (h ∷ hs) = ground (arith, apart h, others_stay test apart hs)

not_named :
    (hold_id : Option ℕ) (k : ℕ)
    → (is_key hold_id 0 || not (is_some hold_id)) ≡ true
    → hold_id ≡ some k
    → k ≡ 0
not_named hold_id k e named = ground (arith, e, named)

-- Releasing by pk deletes the hold with that pk if it is the session's own on the theater; every other
-- hold stays, those of other sessions and theaters among them, nothing else changes, and the
-- inventory's invariant is kept.
pub release_hold_by_id_scoped :
    (now : ℕ) (db : Db) (organization session_key : ℕ) (hold_id : Option ℕ)
    → IsSound now db
    → Released organization session_key hold_id now db
        (release_hold_by_id db organization session_key hold_id)
unfolding release_hold_by_id
release_hold_by_id_scoped now db organization session_key hold_id v =
    let sound = release_hold_by_id-IsSound now db organization session_key hold_id v in
    elim (Bool-cases (is_key hold_id 0 || not (is_some hold_id))) [
      | inl blank ↦ rw blank (record {
        sound = v;
        gone = λ k named positive. absurd (positive (not_named hold_id k blank named));
        others = λ test apart. refl;
        rest = refl;
      })
      | inr named ↦ rw named (record {
        sound = rw named at sound;
        gone = λ k e positive. none_named organization session_key hold_id k db.holds e;
        others = λ test apart. others_stay organization session_key hold_id test apart db.holds;
        rest = refl;
      })
    ]
