-- ===== src/Ratchet/Limits.antt =====
-- The guards keep the number of active ratchets down.
use phantom_skills.Prelude.{
  ℕ, suc, ◌+◌, ◌≤◌, ◌≡◌, refl, inl, inr, String, Bool, true, false, ◌&&◌, Option, none, some, List,
  [], ◌∷◌, ◌++◌, length, length-append, select, select-append, ltb, leb, ◌==◌, if◌then◌else◌,
  Bool-cases, Option-cases, arith, pos, eq_iff,
}
use phantom_skills.Ratchet.Ledger.{
  RatchetRun, Ledger, in_flight, inserted, kind_allowed, record_ratchet, is_active, is_active_in,
  has_in_flight_ratchet, count_in_flight_ratchets,
}
use phantom_skills.Ratchet.Improver.{
  Improver, Brainbox, World, Candidate, RatchetResult, spec_for, run_for, suppression, cooling,
  saturated, launch, fire_with, fire_if_wired, auto_fire_ratchet, dispatch_ratchet, dispatch_all,
}

-- What the guards have found where they let a candidate pass.
pub suppression-none :
    (d : Improver) (now : ℕ) (profile skill : String) (l : Ledger)
    → suppression d now profile skill l ≡ none
    → (has_in_flight_ratchet profile skill l ≡ false)
      × (cooling now profile skill d.config.ratchet_cooldown_hours l ≡ false)
      × (saturated d.config.max_concurrent_ratchets (count_in_flight_ratchets profile l) ≡ false)
unfolding suppression
suppression-none d now profile skill l h = ground arith

-- One attempt to fire: the ledger stays, or the guards have passed and one row is appended.
data Attempt (d : Improver) (now : ℕ) (profile : String) (c : Candidate) (l l' : Ledger)
    : Type 0 where
  kept : l' ≡ l → Attempt d now profile c l l'
  grown :
      (res : RatchetResult)
      → suppression d now profile c.skill_name l ≡ none
      → l'.runs ≡ l.runs ++ inserted now l.next_run profile (run_for d c res) ∷ []
      → Attempt d now profile c l l'

launch-Attempt :
    (d : Improver) (bbox : Brainbox) (now : ℕ) (profile : String) (c : Candidate) (w : World)
    → suppression d now profile c.skill_name w.ledger ≡ none
    → Attempt d now profile c w.ledger (launch d bbox now profile c w).1.ledger
unfolding launch record_ratchet
launch-Attempt d bbox now profile c w passed =
    elim (Option-cases (bbox w.launched (spec_for d profile c))) [
      | inl e ↦ rw (e, launch) (kept refl)
      | inr (res, e) ↦ elim (Bool-cases (kind_allowed c.kind)) [
        | inl f ↦ rw (e, launch, f, record_ratchet) (grown res passed refl)
        | inr f ↦ rw (e, launch, f, record_ratchet) (kept refl)
      ]
    ]

fire_with-Attempt :
    (d : Improver) (bbox : Option Brainbox) (now : ℕ) (profile : String) (c : Candidate) (w : World)
    → Attempt d now profile c w.ledger (fire_if_wired d bbox now profile c w).1.ledger
unfolding fire_if_wired fire_with
fire_with-Attempt d none now profile c w = kept refl
fire_with-Attempt d (some bbox) now profile c w =
    elim (Option-cases (suppression d now profile c.skill_name w.ledger)) [
      | inl f ↦ rw (f, fire_with) (launch-Attempt d bbox now profile c w f)
      | inr (reason, f) ↦ rw (f, fire_with) (kept refl)
    ]

length-select-snoc :
    (q : RatchetRun → Bool) (rs : List RatchetRun) (r : RatchetRun)
    → length (select q (rs ++ r ∷ [])) ≡ length (select q rs) + (if q r then 1 else 0)
length-select-snoc q rs r =
    rw (select-append q rs (r ∷ []), length-append (select q rs) (select q (r ∷ [])))
      (elim (Bool-cases (q r)) [ inl e ↦ rw e refl | inr e ↦ rw e refl ])

module _ (d : Improver) (m : ℕ) (limit : d.config.max_concurrent_ratchets ≡ pos (suc m))
    (p : String) where
  -- At most the configured number of active ratchets of the profile, and at most one of a skill.
  pub record Limited (l : Ledger) : Type 0 where
    pub few : count_in_flight_ratchets p l ≤ suc m
    pub single : (skill : String) → length (select (is_active p skill) l.runs) ≤ 1

  Attempt-Limited :
      (now : ℕ) (profile : String) (c : Candidate) (l l' : Ledger)
      → Attempt d now profile c l l'
      → Limited l
      → Limited l'
  unfolding count_in_flight_ratchets has_in_flight_ratchet run_for in_flight
  Attempt-Limited now profile c l l' (kept same) h = rw same h
  Attempt-Limited now profile c l l' (grown res passed runs) h =
      let (inactive, warm, free) = suppression-none d now profile c.skill_name l passed in
      record {
        few =
            rw
              (
                runs,
                length-select-snoc (is_active_in p) l.runs
                    (inserted now l.next_run profile (run_for d c res)),
              )
              (elim (Bool-cases (profile == p)) [
                | inl e ↦
                    let same : profile ≡ p = (eq_iff profile p).0 e in
                    let room : leb (suc m) (length (select (is_active_in p) l.runs)) ≡ false =
                      rw (limit, same) at free in
                    rw e (ground arith)
                | inr e ↦ rw e (omega (arith, h.few))
              ]);
        single = λ skill.
            rw
              (
                runs,
                length-select-snoc (is_active p skill) l.runs
                    (inserted now l.next_run profile (run_for d c res)),
              )
              (elim (Bool-cases (profile == p && c.skill_name == skill)) [
                | inl e ↦
                    let this : profile == p ≡ true = ground arith in
                    let that : c.skill_name == skill ≡ true = ground arith in
                    let same : profile ≡ p = (eq_iff profile p).0 this in
                    let also : c.skill_name ≡ skill = (eq_iff c.skill_name skill).0 that in
                    let none_yet : ltb 0 (length (select (is_active p skill) l.runs)) ≡ false =
                      rw (same, also, has_in_flight_ratchet) at inactive in
                    rw (this, that) (ground arith)
                | inr e ↦
                    let before : length (select (is_active p skill) l.runs) ≤ 1 = h.single skill in
                    ground arith
              ]);
      }

  -- However often candidates are dispatched, for whichever scopes and whatever brainbox answers, a
  -- profile that has at most the configured number of ratchets in flight, and no more than one of a
  -- skill, stays so: the cap on concurrent ratchets and the one-per-skill rule hold of every ledger
  -- that the worker reaches. It is asked that the cap is positive, as a cap of 0 becomes 2 and a
  -- negative one is no cap.
  pub dispatch_all-Limited :
      (profiles : List String) (cs : List (ℕ × Candidate)) (w : World)
      → Limited w.ledger
      → Limited (dispatch_all d profiles cs w).ledger
  unfolding dispatch_all dispatch_ratchet auto_fire_ratchet
  dispatch_all-Limited profiles [] w h = h
  dispatch_all-Limited [] ((now, c) ∷ cs) w h = dispatch_all-Limited [] cs w h
  dispatch_all-Limited (profile ∷ others) ((now, c) ∷ cs) w h =
      let v : World = dispatch_ratchet d now (profile ∷ others) c w in
      dispatch_all-Limited (profile ∷ others) cs v (
        Attempt-Limited now profile c w.ledger v.ledger (fire_with-Attempt d d.bbox now profile c w)
          h)
