-- ===== src/Store/Gate.antt =====
-- The human gate: a proposal is decided once, an approval applies exactly what was proposed, and a
-- failed one applies nothing.
use phantom_skills.Prelude.{
  ℕ, ◌≡◌, refl, ap, String, Bool, true, false, Option, none, some, List, [], ◌∷◌, first, exists,
  update_where, arith, inl, inr, Bool-cases,
}
use phantom_skills.Prelude.Keys.{exists_of_none}
use phantom_skills.Store.Tables.{Db, Proposal, Codecs, Stamp, not_found, Result, ok, err, settle}
use phantom_skills.Store.Proposals.{
  is_proposal, is_pending, rejected, reject_tx, reject_proposal, apply_proposal, approved,
  approve_row, approve_proposal,
}
use phantom_skills.Store.Valid.{Post, Post-bind}

Post-any : {A : Type 0} (m : Result (A × Db)) → Post m (λ _ _. Unit {0})
Post-any (ok (a, db)) = tt
Post-any (err e) = tt

module _ (profile : String) (id : ℕ) where
  -- No proposal of that id is pending.
  abbrev pub IsDecided : Db → Type 0
  IsDecided db = first (is_pending profile id) db.proposals ≡ none

  approved-none :
      (st : Stamp) (by : String) (ps : List Proposal)
      → first (is_pending profile id) (update_where (is_proposal profile id) (approved st by) ps)
        ≡ none
  approved-none st by [] = refl
  approved-none st by (p ∷ ps) = elim (Bool-cases (is_proposal profile id p)) [
    | inl e ↦ rw (e, e) (approved-none st by ps)
    | inr e ↦ rw (e, e) (approved-none st by ps)
  ]

  rejected-none :
      (st : Stamp) (by reason : String) (ps : List Proposal)
      → first
          (is_pending profile id)
          (update_where (is_pending profile id) (rejected st by reason) ps)
        ≡ none
  rejected-none st by reason [] = refl
  rejected-none st by reason (p ∷ ps) = elim (Bool-cases (is_pending profile id p)) [
    | inl e ↦ rw e (ground (arith, rejected-none st by reason ps))
    | inr e ↦ rw (e, e) (rejected-none st by reason ps)
  ]

  approve_decided :
      (c : Codecs) (st : Stamp) (by : String) (source : ℕ → String) (db : Db)
      → IsDecided db
      → approve_proposal c st profile id by source db ≡ (err not_found, db)
  unfolding approve_proposal
  approve_decided c st by source db d = rw (d, approve_row) refl

  reject_decided :
      (st : Stamp) (by reason : String) (db : Db)
      → IsDecided db
      → reject_proposal st profile id by reason db ≡ (err not_found, db)
  unfolding reject_proposal
  reject_decided st by reason db d =
      rw (exists_of_none (is_pending profile id) db.proposals d, reject_tx) refl

  module _ (c : Codecs) (st : Stamp) (by : String) (source : ℕ → String) where
    approve_row-IsDecided :
        (o : Option Proposal) (db : Db)
        → Post (approve_row c st profile id by source o db) (λ _ db'. IsDecided db')
    unfolding approve_row
    approve_row-IsDecided none db = tt
    approve_row-IsDecided (some p) db =
        Post-bind (apply_proposal c st profile by (source p.id) p db) _ (λ _ _. Unit {0})
          (λ _ db'. IsDecided db') (Post-any (apply_proposal c st profile by (source p.id) p db))
          (λ res db' _. approved-none st by db'.proposals)

  reject_tx-IsDecided :
      (st : Stamp) (by reason : String) (db : Db)
      → Post (reject_tx st profile id by reason db) (λ _ db'. IsDecided db')
  unfolding reject_tx
  reject_tx-IsDecided st by reason db =
      elim (Bool-cases (exists (is_pending profile id) db.proposals)) [
        | inl e ↦ rw e (rejected-none st by reason db.proposals)
        | inr e ↦ rw e tt
      ]

  -- The two ways to decide a proposal, with what each is given.
  pub data Decision : Type 0 where
    approve : Codecs → Stamp → String → (ℕ → String) → Decision
    reject : Stamp → String → String → Decision

  -- Whether the decision was accepted, and the tables after it.
  abbrev succeeded : {A : Type 0} → Result A × Db → Bool × Db
  succeeded (ok a, db) = (true, db)
  succeeded (err e, db) = (false, db)

  unfoldable pub decide : Decision → Db → Bool × Db
  unfolding approve_proposal reject_proposal
  decide (approve c st by source) db = succeeded (approve_proposal c st profile id by source db)
  decide (reject st by reason) db = succeeded (reject_proposal st profile id by reason db)

  settled :
      {A : Type 0} (m : Result (A × Db)) (db db' : Db)
      → Post m (λ _ d. IsDecided d)
      → succeeded (settle db m) ≡ (true, db')
      → IsDecided db'
  settled (ok (a, d)) db db' h e =
      let same : d ≡ db' = ap (λ (x : Bool × Db). x.1) e in rw (← same) h
  settled (err x) db db' h e = let wrong : false ≡ true = ap (λ (x : Bool × Db). x.0) e in cc

  decide-IsDecided : (d : Decision) (db db' : Db) → decide d db ≡ (true, db') → IsDecided db'
  unfolding decide
  decide-IsDecided (approve c st by source) db db' e =
      settled
        (approve_row c st profile id by source (first (is_pending profile id) db.proposals) db) db
        db' (approve_row-IsDecided c st by source (first (is_pending profile id) db.proposals) db) e
  decide-IsDecided (reject st by reason) db db' e =
      settled (reject_tx st profile id by reason db) db db' (reject_tx-IsDecided st by reason db) e

  refused : (d : Decision) (db : Db) → IsDecided db → decide d db ≡ (false, db)
  unfolding decide
  refused (approve c st by source) db h = rw (approve_decided c st by source db h) refl
  refused (reject st by reason) db h = rw (reject_decided st by reason db h) refl

  -- Once a decision on a proposal has been accepted, approval or rejection, every later decision on
  -- it, of either kind, by anyone, is refused and changes nothing.
  pub decided_once :
      (earlier later : Decision) (db db' : Db)
      → decide earlier db ≡ (true, db')
      → decide later db' ≡ (false, db')
  decided_once earlier later db db' e = refused later db' (decide-IsDecided earlier db db' e)
