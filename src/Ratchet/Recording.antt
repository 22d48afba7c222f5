-- ===== src/Ratchet/Recording.antt =====
-- What is launched is recorded, unless the ledger refuses the row.
use phantom_skills.Prelude.{
  ℕ, zero, suc, ◌+◌, ◌*◌, ◌^◌, ◌≤◌, ◌≡◌, refl, ap, ◌∙◌, inl, inr, String, true, false, Option, none,
  some, List, [], ◌∷◌, ◌++◌, map, All, length, length-append, select, Option-cases, arith, ℤ, pos,
  negsuc,
}
use phantom_skills.Ratchet.Ledger.{
  RatchetRun, Ledger, inserted, kind_allowed, record_ratchet, is_recent, recently_ratcheted,
}
use phantom_skills.Ratchet.Improver.{
  Improver, Brainbox, RatchetSpec, World, Candidate, RatchetResult, spec_for, run_for, suppression,
  cooling, launch, fire_with, fire_if_wired, auto_fire_ratchet, dispatch_ratchet, dispatch_all,
}

-- As many rows are new in the ledger as ratchets were launched.
abbrev pub Recorded : World → World → Type 0
Recorded w v = length v.launched + length w.ledger.runs ≡ length w.launched + length v.ledger.runs

launch-Recorded :
    (d : Improver) (bbox : Brainbox) (now : ℕ) (profile : String) (c : Candidate) (w : World)
    → kind_allowed c.kind ≡ true
    → Recorded w (launch d bbox now profile c w).1
unfolding launch record_ratchet run_for
launch-Recorded d bbox now profile c w h =
    elim (Option-cases (bbox w.launched (spec_for d profile c))) [
      | inl e ↦ rw (e, launch) refl
      | inr (res, e) ↦
          let row : RatchetRun = inserted now w.ledger.next_run profile (run_for d c res) in
          let spec : RatchetSpec = spec_for d profile c in
          rw (e, launch, h, record_ratchet)
            (omega
              (arith, length-append w.ledger.runs (row ∷ []), length-append w.launched (spec ∷ [])))
    ]

fire-Recorded :
    (d : Improver) (bbox : Option Brainbox) (now : ℕ) (profile : String) (c : Candidate) (w : World)
    → kind_allowed c.kind ≡ true
    → Recorded w (fire_if_wired d bbox now profile c w).1
unfolding fire_if_wired fire_with
fire-Recorded d none now profile c w h = refl
fire-Recorded d (some bbox) now profile c w h =
    elim (Option-cases (suppression d now profile c.skill_name w.ledger)) [
      | inl f ↦ rw (f, fire_with) (launch-Recorded d bbox now profile c w h)
      | inr (reason, f) ↦ rw (f, fire_with) refl
    ]

module _ (d : Improver) (profiles : List String) where
  -- Where every candidate is a create, edit, prune or merge, the worker records one row in the ledger
  -- for each ratchet that brainbox has accepted, whatever was suppressed or failed in between.
  pub dispatch_all-Recorded :
      (cs : List (ℕ × Candidate)) (w : World)
      → All (λ t. kind_allowed t.1.kind ≡ true) cs
      → Recorded w (dispatch_all d profiles cs w)
  unfolding dispatch_all dispatch_ratchet auto_fire_ratchet
  dispatch_all-Recorded [] w h = refl
  dispatch_all-Recorded ((now, c) ∷ cs) w h =
      let v : World = dispatch_ratchet d now profiles c w in
      let here : Recorded w v = first_step profiles in
      let rest : Recorded v (dispatch_all d profiles cs v) = dispatch_all-Recorded cs v h.1 in
      omega arith
    where
      first_step : (ps : List String) → Recorded w (dispatch_ratchet d now ps c w)
      first_step [] = refl
      first_step (profile ∷ others) = fire-Recorded d d.bbox now profile c w h.0

recently-later :
    (now later : ℕ) (profile skill : String) (within : ℕ) (rs : List RatchetRun)
    → now ≤ later
    → length (select (is_recent now profile skill within) rs) ≡ 0
    → length (select (is_recent later profile skill within) rs) ≡ 0
recently-later now later profile skill within [] le h = refl
recently-later now later profile skill within (r ∷ rs) le h =
    ground (arith, recently-later now later profile skill within rs le)

cooling-later :
    (now later : ℕ) (profile skill : String) (hours : ℤ) (l : Ledger)
    → now ≤ later
    → cooling now profile skill hours l ≡ false
    → cooling later profile skill hours l ≡ false
unfolding recently_ratcheted
cooling-later now later profile skill (pos zero) l le h = refl
cooling-later now later profile skill (pos (suc n)) l le h =
    ground (arith, recently-later now later profile skill (suc n * (3600 * 10 ^ 9)) l.runs le)
cooling-later now later profile skill (negsuc n) l le h = refl

suppression-later :
    (d : Improver) (now later : ℕ) (profile skill : String) (l : Ledger)
    → now ≤ later
    → suppression d now profile skill l ≡ none
    → suppression d later profile skill l ≡ none
unfolding suppression
suppression-later d now later profile skill l le h =
    ground (arith, cooling-later now later profile skill d.config.ratchet_cooldown_hours l le)

module _ (d : Improver) (bbox : Brainbox) (profile : String) (others : List String)
    (c : Candidate) where
  fire-refused :
      (now : ℕ) (w : World)
      → ((history : List RatchetSpec) (spec : RatchetSpec)
          → (res : RatchetResult) × (bbox history spec ≡ some res))
      → kind_allowed c.kind ≡ false
      → suppression d now profile c.skill_name w.ledger ≡ none
      → (fire_if_wired d (some bbox) now profile c w).1
        ≡ record w { launched = w.launched ++ spec_for d profile c ∷ [] }
  unfolding fire_if_wired fire_with launch record_ratchet run_for
  fire-refused now w accepts refused passed =
      let (res, e) = accepts w.launched (spec_for d profile c) in
      rw (passed, fire_with, e, launch, refused, record_ratchet) refl

  -- If brainbox accepts every ratchet, a candidate whose kind the ledger's check refuses, such as
  -- `promote`, and which the guards let pass once is launched again at every later tick: the ledger
  -- stays as it was, so no guard ever holds it back.
  pub dispatch_all-unrecorded :
      d.bbox ≡ some bbox
      → ((history : List RatchetSpec) (spec : RatchetSpec)
          → (res : RatchetResult) × (bbox history spec ≡ some res))
      → kind_allowed c.kind ≡ false
      → (now : ℕ) (ticks : List ℕ) (w : World)
      → suppression d now profile c.skill_name w.ledger ≡ none
      → All (λ t. now ≤ t) ticks
      → (length (dispatch_all d (profile ∷ others) (map (λ t. (t, c)) ticks) w).launched
          ≡ length w.launched + length ticks)
        × ((dispatch_all d (profile ∷ others) (map (λ t. (t, c)) ticks) w).ledger ≡ w.ledger)
  unfolding dispatch_all dispatch_ratchet auto_fire_ratchet
  dispatch_all-unrecorded wired accepts refused now [] w passed later = (omega arith, refl)
  dispatch_all-unrecorded wired accepts refused now (t ∷ ts) w passed later =
      let v : World = record w { launched = w.launched ++ spec_for d profile c ∷ [] } in
      let step : dispatch_ratchet d t (profile ∷ others) c w ≡ v =
        ap (λ b. (fire_if_wired d b t profile c w).1) wired
        ∙ fire-refused t w accepts refused
            (suppression-later d now t profile c.skill_name w.ledger later.0 passed) in
      let (count, same) = dispatch_all-unrecorded wired accepts refused now ts v passed later.1 in
      let onward = ap (dispatch_all d (profile ∷ others) (map (λ x. (x, c)) ts)) step in
      (
        ap (λ u. length u.launched) onward
            ∙ count
            ∙ omega (arith, length-append w.launched (spec_for d profile c ∷ [])),
        ap (λ u. u.ledger) onward ∙ same,
      )
