-- ===== src/Store/Reach.antt =====
-- Every operation of the registry, in any order, from an empty database: the constraints hold.
use phantom_skills.Prelude.{
  ℕ, ◌+◌, String, Option, none, some, List, [], ◌∷◌, ◌==◌, first, exists, inl, inr, Bool-cases,
}
use phantom_skills.Store.Tables.{
  Skill, Db, Proposal, Promotion, Codecs, Stamp, empty_db, Tx, ◌>>◌, pure,
}
use phantom_skills.Store.Register.{
  RegisterInput, is_named, register_version_tx, register_version, set_status_tx, retire_skill,
}
use phantom_skills.Store.Proposals.{
  ProposalInput, ApplyResult, valid_proposal_kind, is_pending, create_input, promote_row,
  apply_proposal, applied, mark_approved, approve_row, approve_proposal, create_proposal, reject_tx,
  reject_proposal,
}
use phantom_skills.Store.Valid.{IsValid, Post, Post-bind, transaction-Post}
use phantom_skills.Store.Valid.Registering.{
  register_version_tx-IsValid, register_version-IsValid, set_status_tx-IsValid,
}

-- The invariant reads skills and versions, and the counters of their ids, alone.
IsValid-other :
    (db : Db) (ps : List Proposal) (ms : List Promotion) (n : ℕ)
    → IsValid db
    → IsValid (record db { proposals = ps; promotions = ms; next_proposal = n })
IsValid-other db ps ms n v = record {
  skill_below = v.skill_below;
  skill_ids = v.skill_ids;
  skill_names = v.skill_names;
  version_below = v.version_below;
  numbers = v.numbers;
  contents = v.contents;
  owned = v.owned;
  currents = v.currents;
}

module _ (c : Codecs) (st : Stamp) (profile by source : String) where
  promote_row-IsValid :
      (o : Option Skill) (db : Db) → IsValid db → Post (promote_row st by o db) (λ _ d. IsValid d)
  unfolding promote_row
  promote_row-IsValid none db v = v
  promote_row-IsValid (some s) db v = IsValid-other db db.proposals _ db.next_proposal v

  apply_proposal-IsValid :
      (p : _) (db : Db)
      → IsValid db
      → Post (apply_proposal c st profile by source p db) (λ _ d. IsValid d)
  unfolding apply_proposal
  apply_proposal-IsValid p db v = elim (Bool-cases (p.kind == "create")) [
    | inl e ↦ rw e (
        Post-bind (register_version_tx c st (create_input profile source p) db)
          (λ vb. pure (applied p vb.0.version "local")) (λ _ d. IsValid d) (λ _ d. IsValid d)
          (register_version_tx-IsValid c st (create_input profile source p) db v) (λ _ d h. h))
    | inr e ↦ elim (Bool-cases (p.kind == "promote")) [
      | inl f ↦
          rw (e, f)
            (Post-bind (set_status_tx st profile p.skill_name "promoted" db) (promote_rest p)
              (λ _ d. IsValid d) (λ _ d. IsValid d)
              (set_status_tx-IsValid st profile p.skill_name "promoted" db v)
              (λ _ d h.
                Post-bind (promote_row st by (first (is_named profile p.skill_name) d.skills) d)
                  (λ _. pure (applied p 0 "promoted")) (λ _ d'. IsValid d') (λ _ d'. IsValid d')
                  (promote_row-IsValid (first (is_named profile p.skill_name) d.skills) d h)
                  (λ _ d' h'. h')))
      | inr f ↦ elim (Bool-cases (p.kind == "prune")) [
        | inl g ↦
            rw (e, f, g)
              (Post-bind (set_status_tx st profile p.skill_name "retired" db)
                (λ _. pure (applied p 0 "retired")) (λ _ d. IsValid d) (λ _ d. IsValid d)
                (set_status_tx-IsValid st profile p.skill_name "retired" db v) (λ _ d h. h))
        | inr g ↦ rw (e, f, g) tt
      ]
    ]
  ]
    where
      promote_rest : Proposal → Unit {0} → Tx ApplyResult
      promote_rest p _ = do
        λ d. promote_row st by (first (is_named profile p.skill_name) d.skills) d
        pure (applied p 0 "promoted")

module _ (c : Codecs) (st : Stamp) (profile : String) (id : ℕ) (by : String)
    (source : ℕ → String) where
  approve_row-IsValid :
      (o : Option Proposal) (db : Db)
      → IsValid db
      → Post (approve_row c st profile id by source o db) (λ _ d. IsValid d)
  unfolding approve_row
  approve_row-IsValid none db v = tt
  approve_row-IsValid (some p) db v =
      Post-bind (apply_proposal c st profile by (source p.id) p db) marked (λ _ d. IsValid d)
        (λ _ d. IsValid d) (apply_proposal-IsValid c st profile by (source p.id) p db v)
        (λ res d h. IsValid-other d _ d.promotions d.next_proposal h)
    where
      marked : ApplyResult → Tx ApplyResult
      marked res = do mark_approved st profile id by; pure res

  approve_proposal-IsValid :
      (db : Db) → IsValid db → IsValid (approve_proposal c st profile id by source db).1
  unfolding approve_proposal
  approve_proposal-IsValid db v =
      transaction-Post IsValid
        (λ d. approve_row c st profile id by source (first (is_pending profile id) d.proposals) d)
        db v (approve_row-IsValid (first (is_pending profile id) db.proposals) db v)

reject_proposal-IsValid :
    (st : Stamp) (profile : String) (id : ℕ) (by reason : String) (db : Db)
    → IsValid db
    → IsValid (reject_proposal st profile id by reason db).1
unfolding reject_proposal
reject_proposal-IsValid st profile id by reason db v =
    elim (Bool-cases (exists (is_pending profile id) db.proposals)) [
      | inl e ↦ rw (e, reject_tx) (IsValid-other db _ db.promotions db.next_proposal v)
      | inr e ↦ rw (e, reject_tx) v
    ]

create_proposal-IsValid :
    (st : Stamp) (r : ProposalInput) (db : Db) → IsValid db → IsValid (create_proposal st r db).1
unfolding create_proposal
create_proposal-IsValid st r db v = elim (Bool-cases (valid_proposal_kind r.kind)) [
  | inl e ↦ elim (Bool-cases (r.skill_name == "")) [
    | inl f ↦ rw (e, f) v
    | inr f ↦ rw (e, f) (IsValid-other db _ db.promotions (db.next_proposal + 1) v)
  ]
  | inr e ↦ rw e v
]

retire_skill-IsValid :
    (st : Stamp) (profile name : String) (db : Db)
    → IsValid db
    → IsValid (retire_skill st profile name db).1
unfolding retire_skill
retire_skill-IsValid st profile name db v =
    transaction-Post IsValid (set_status_tx st profile name "retired") db v
      (set_status_tx-IsValid st profile name "retired" db v)

-- A call of the store that writes, with the transaction's clock and identity.
pub data Call : Type 0 where
  register : Stamp → RegisterInput → Call
  retire : Stamp → String → String → Call
  propose : Stamp → ProposalInput → Call
  approve : Stamp → String → ℕ → String → Call
  reject : Stamp → String → ℕ → String → String → Call

module _ (c : Codecs) (source : ℕ → String) where
  unfoldable pub perform : Call → Db → Db
  perform (register st r) db = (register_version c st r db).1
  perform (retire st profile name) db = (retire_skill st profile name db).1
  perform (propose st r) db = (create_proposal st r db).1
  perform (approve st profile id by) db = (approve_proposal c st profile id by source db).1
  perform (reject st profile id by reason) db = (reject_proposal st profile id by reason db).1

  pub perform-IsValid : (call : Call) (db : Db) → IsValid db → IsValid (perform call db)
  unfolding perform
  perform-IsValid (register st r) db v = register_version-IsValid c st r db v
  perform-IsValid (retire st profile name) db v = retire_skill-IsValid st profile name db v
  perform-IsValid (propose st r) db v = create_proposal-IsValid st r db v
  perform-IsValid (approve st profile id by) db v =
      approve_proposal-IsValid c st profile id by source db v
  perform-IsValid (reject st profile id by reason) db v =
      reject_proposal-IsValid st profile id by reason db v

  unfoldable pub perform_all : List Call → Db → Db
  unfolding perform
  perform_all [] db = db
  perform_all (call ∷ calls) db = perform_all calls (perform call db)

  perform_all-keeps : (calls : List Call) (db : Db) → IsValid db → IsValid (perform_all calls db)
  unfolding perform_all
  perform_all-keeps [] db v = v
  perform_all-keeps (call ∷ calls) db v =
      perform_all-keeps calls (perform call db) (perform-IsValid call db v)

  -- Whatever calls are made on an empty database, and whichever of them fail, ids, (profile, name)
  -- pairs, version numbers and contents are unique, every version belongs to a skill, and every
  -- current version is a version of its own skill.
  pub perform_all-IsValid : (calls : List Call) → IsValid (perform_all calls empty_db)
  perform_all-IsValid calls = perform_all-keeps calls empty_db (record {
    skill_below = tt;
    skill_ids = tt;
    skill_names = tt;
    version_below = tt;
    numbers = tt;
    contents = tt;
    owned = tt;
    currents = tt;
  })
