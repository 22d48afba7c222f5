-- ===== src/Store/Tenants/Writes.antt =====
-- Every call of the store that writes, and the rows of other profiles.
use phantom_skills.Prelude.{
  ℕ, ◌+◌, ◌≡◌, refl, sym, ◌∙◌, String, false, ◌&&◌, Option, none, some, List, [], ◌∷◌, ◌==◌,
  eq_refl, first, select, exists, All, arith, inl, inr, Bool-cases,
}
use mathlib.Core.List.{append-nil}
use phantom_skills.Prelude.Parts.{select-update, select-append_out}
use phantom_skills.Store.Tables.{
  Skill, Proposal, Db, Codecs, Stamp, Tx, Result, ok, err, ◌>>◌, pure, settle,
}
use phantom_skills.Store.Register.{
  is_named, register_version_tx, register_version, with_status, set_status_tx, retire_skill,
}
use phantom_skills.Store.Proposals.{
  ProposalInput, ApplyResult, new_proposal, valid_proposal_kind, create_proposal_tx,
  create_proposal, is_proposal, is_pending, create_input, promote_row, apply_proposal, applied,
  approved, mark_approved, approve_row, approve_proposal, rejected, reject_tx, reject_proposal,
}
use phantom_skills.Store.Valid.{IsValid, Post, Post-bind}
use phantom_skills.Store.Reach.{Call, register, retire, propose, approve, reject, perform}
use phantom_skills.Store.Tenants.{
  foreign_skill, foreign_proposal, Apart, named_are_own, unchanged-Apart, register_version_tx-Apart,
}

module _ (profile : String) where
  -- A write of proposals alone.
  proposals-Apart :
      (before db : Db) (ps : List Proposal) (n : ℕ)
      → Apart profile before db
      → select (foreign_proposal profile) ps ≡ select (foreign_proposal profile) db.proposals
      → Apart profile before (record db { proposals = ps; next_proposal = n })
  proposals-Apart before db ps n a e = record {
    skills = a.skills;
    proposals = e ∙ a.proposals;
    added = a.added;
    versions = a.versions;
    own = a.own;
  }

  promotions-Apart :
      (st : Stamp) (by : String) (o : Option Skill) (before db : Db)
      → Apart profile before db
      → Post (promote_row st by o db) (λ _ after. Apart profile before after)
  unfolding promote_row
  promotions-Apart st by none before db a = a
  promotions-Apart st by (some s) before db a = record {
    skills = a.skills;
    proposals = a.proposals;
    added = a.added;
    versions = a.versions;
    own = a.own;
  }

  set_status_tx-Apart :
      (st : Stamp) (name status : String) (db : Db)
      → Post (set_status_tx st profile name status db) (λ _ after. Apart profile db after)
  unfolding set_status_tx
  set_status_tx-Apart st name status db =
      elim (Bool-cases (exists (is_named profile name) db.skills)) [
        | inl e ↦ rw e (record {
          skills =
              select-update (foreign_skill profile) (is_named profile name)
                (with_status st.now status) db.skills (λ x. refl)
                (named_are_own profile name db.skills);
          proposals = refl;
          added = [];
          versions = sym (append-nil db.versions);
          own = tt;
        })
        | inr e ↦ rw e tt
      ]

  proposals_are_own :
      (id : ℕ) (ps : List Proposal)
      → All (λ p. (is_proposal profile id p && foreign_proposal profile p) ≡ false) ps
  proposals_are_own id [] = tt
  proposals_are_own id (p ∷ ps) = (ground arith, proposals_are_own id ps)

  pending_are_own :
      (id : ℕ) (ps : List Proposal)
      → All (λ p. (is_pending profile id p && foreign_proposal profile p) ≡ false) ps
  pending_are_own id [] = tt
  pending_are_own id (p ∷ ps) = (ground arith, pending_are_own id ps)

  module _ (c : Codecs) (st : Stamp) (by source : String) (p : Proposal) where
    promote_rest : Unit {0} → Tx ApplyResult
    promote_rest _ = do
      λ d. promote_row st by (first (is_named profile p.skill_name) d.skills) d
      pure (applied p 0 "promoted")

    apply_proposal-Apart :
        (db : Db)
        → IsValid db
        → Post (apply_proposal c st profile by source p db) (λ _ after. Apart profile db after)
    unfolding apply_proposal create_input promote_rest
    apply_proposal-Apart db v = elim (Bool-cases (p.kind == "create")) [
      | inl e ↦ rw e (
          Post-bind (register_version_tx c st (create_input profile source p) db)
            (λ vb. pure (applied p vb.0.version "local")) (λ _ d. Apart profile db d)
            (λ _ d. Apart profile db d)
            (register_version_tx-Apart c st (create_input profile source p) db v) (λ _ d h. h))
      | inr e ↦ elim (Bool-cases (p.kind == "promote")) [
        | inl f ↦
            rw (e, f)
              (Post-bind (set_status_tx st profile p.skill_name "promoted" db) promote_rest
                (λ _ d. Apart profile db d) (λ _ d. Apart profile db d)
                (set_status_tx-Apart st p.skill_name "promoted" db)
                (λ _ d h.
                  Post-bind (promote_row st by (first (is_named profile p.skill_name) d.skills) d)
                    (λ _. pure (applied p 0 "promoted")) (λ _ d'. Apart profile db d')
                    (λ _ d'. Apart profile db d')
                    (promotions-Apart st by (first (is_named profile p.skill_name) d.skills) db d h)
                    (λ _ d' h'. h')))
        | inr f ↦ elim (Bool-cases (p.kind == "prune")) [
          | inl g ↦
              rw (e, f, g)
                (Post-bind (set_status_tx st profile p.skill_name "retired" db)
                  (λ _. pure (applied p 0 "retired")) (λ _ d. Apart profile db d)
                  (λ _ d. Apart profile db d) (set_status_tx-Apart st p.skill_name "retired" db)
                  (λ _ d h. h))
          | inr g ↦ rw (e, f, g) tt
        ]
      ]
    ]

  approve_row-Apart :
      (c : Codecs) (st : Stamp) (id : ℕ) (by : String) (source : ℕ → String) (o : Option Proposal)
      (db : Db)
      → IsValid db
      → Post (approve_row c st profile id by source o db) (λ _ after. Apart profile db after)
  unfolding approve_row
  approve_row-Apart c st id by source none db v = tt
  approve_row-Apart c st id by source (some p) db v =
      Post-bind (apply_proposal c st profile by (source p.id) p db) marked
        (λ _ d. Apart profile db d) (λ _ d. Apart profile db d)
        (apply_proposal-Apart c st by (source p.id) p db v)
        (λ res d h. proposals-Apart db d _ d.next_proposal h (
          select-update (foreign_proposal profile) (is_proposal profile id) (approved st by)
            d.proposals (λ x. refl) (proposals_are_own id d.proposals)))
    where
      marked : ApplyResult → Tx ApplyResult
      marked res = do mark_approved st profile id by; pure res

  reject_tx-Apart :
      (st : Stamp) (id : ℕ) (by reason : String) (db : Db)
      → Post (reject_tx st profile id by reason db) (λ _ after. Apart profile db after)
  unfolding reject_tx
  reject_tx-Apart st id by reason db =
      elim (Bool-cases (exists (is_pending profile id) db.proposals)) [
        | inl e ↦ rw e (
            proposals-Apart db db _ db.next_proposal (unchanged-Apart profile db) (
              select-update (foreign_proposal profile) (is_pending profile id)
                (rejected st by reason) db.proposals (λ x. refl) (pending_are_own id db.proposals)))
        | inr e ↦ rw e tt
      ]

  settle-Apart :
      {A : Type 0} (db : Db) (r : Result (A × Db))
      → Post r (λ _ after. Apart profile db after)
      → Apart profile db (settle db r).1
  settle-Apart db (ok (a, after)) h = h
  settle-Apart db (err e) h = unchanged-Apart profile db

create_proposal_tx-Apart :
    (st : Stamp) (r : ProposalInput) (db : Db)
    → Post (create_proposal_tx st r db) (λ _ after. Apart r.profile db after)
unfolding create_proposal_tx
create_proposal_tx-Apart st r db = elim (Bool-cases (valid_proposal_kind r.kind)) [
  | inl e ↦ elim (Bool-cases (r.skill_name == "")) [
    | inl f ↦ rw (e, f) tt
    | inr f ↦
        rw (e, f)
          (proposals-Apart r.profile db db _ (db.next_proposal + 1) (unchanged-Apart r.profile db) (
            select-append_out (foreign_proposal r.profile) db.proposals (new_proposal st r db)
              (ground (arith, eq_refl r.profile))))
  ]
  | inr e ↦ rw e tt
]

-- The profile that a call is made for.
abbrev pub profile_of : Call → String
profile_of (register st r) = r.profile
profile_of (retire st profile name) = profile
profile_of (propose st r) = r.profile
profile_of (approve st profile id by) = profile
profile_of (reject st profile id by reason) = profile

-- A call for one profile leaves the rows of all others.
pub perform-Apart :
    (c : Codecs) (source : ℕ → String) (call : Call) (db : Db)
    → IsValid db
    → Apart (profile_of call) db (perform c source call db)
unfolding perform register_version retire_skill create_proposal approve_proposal reject_proposal
perform-Apart c source (register st r) db v =
    settle-Apart r.profile db (register_version_tx c st r db)
      (register_version_tx-Apart c st r db v)
perform-Apart c source (retire st profile name) db v =
    settle-Apart profile db (set_status_tx st profile name "retired" db)
      (set_status_tx-Apart profile st name "retired" db)
perform-Apart c source (propose st r) db v =
    settle-Apart r.profile db (create_proposal_tx st r db) (create_proposal_tx-Apart st r db)
perform-Apart c source (approve st profile id by) db v =
    settle-Apart profile db
      (approve_row c st profile id by source (first (is_pending profile id) db.proposals) db)
      (approve_row-Apart profile c st id by source (first (is_pending profile id) db.proposals) db
        v)
perform-Apart c source (reject st profile id by reason) db v =
    settle-Apart profile db (reject_tx st profile id by reason db)
      (reject_tx-Apart profile st id by reason db)
