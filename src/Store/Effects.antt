-- ===== src/Store/Effects.antt =====
-- What an approval does to the skill that it names, and what it reports.
use phantom_skills.Prelude.{
  ℕ, ◌≡◌, refl, ◌∙◌, String, Option, none, some, [], ◌==◌, if◌then◌else◌, first, inl, inr,
  Bool-cases, Option-cases,
}
use phantom_skills.Prelude.Keys.{exists_of_none, first_passes, first-update}
use phantom_skills.Store.Tables.{Skill, Db, Proposal, Codecs, Stamp, ok, Tx, ◌>>◌, pure}
use phantom_skills.Store.Register.{is_named, register_version_tx, set_status_tx, with_status}
use phantom_skills.Store.Proposals.{
  ApplyResult, is_pending, create_input, promote_row, apply_proposal, applied, mark_approved,
  approve_row, approve_proposal,
}
use phantom_skills.Store.Valid.{Post, Post-bind}
use phantom_skills.Store.Versions.Outcome.{
  Registered, register_version_tx-Registered, settle_ok, status_of,
}

-- The skill of that name is there with that status.
record HasStatus (profile name status : String) (db : Db) : Type 0 where
  skill : Skill
  named : first (is_named profile name) db.skills ≡ some skill
  has : skill.status ≡ status

set_status_tx-HasStatus :
    (st : Stamp) (profile name status : String) (db : Db)
    → Post (set_status_tx st profile name status db) (λ _ db'. HasStatus profile name status db')
unfolding set_status_tx
set_status_tx-HasStatus st profile name status db =
    elim (Option-cases (first (is_named profile name) db.skills)) [
      | inl e ↦ rw (exists_of_none (is_named profile name) db.skills e) tt
      | inr (s, e) ↦
          rw (phantom_skills.Prelude.Keys.exists_first (is_named profile name) db.skills s e)
            (record {
              skill = with_status st.now status s;
              named =
                  first-update (is_named profile name) (is_named profile name)
                    (with_status st.now status) (λ _. refl) db.skills
                  ∙ rw (e, first_passes (is_named profile name) db.skills s e) refl;
              has = refl;
            })
    ]

-- The status after an approval, given the skill of that name before it.
abbrev pub status_after : Proposal → Option Skill → String
status_after p old =
    if p.kind == "create"
    then elim old [ none ↦ "local" | some s ↦ s.status ]
    else if p.kind == "promote"
    then "promoted"
    else "retired"

-- The `new_status` of the reply.
abbrev pub reported : Proposal → String
reported p =
    if p.kind == "create" then "local" else if p.kind == "promote" then "promoted" else "retired"

module _ (c : Codecs) (st : Stamp) (profile by source : String) where
  record Applied (p : Proposal) (before : Db) (res : ApplyResult) (db : Db) : Type 0 where
    status :
        HasStatus profile p.skill_name
          (status_after p (first (is_named profile p.skill_name) before.skills))
          db
    reply : res.new_status ≡ reported p

  promote_row-HasStatus :
      (name status : String) (o : Option Skill) (db : Db)
      → HasStatus profile name status db
      → Post (promote_row st by o db) (λ _ db'. HasStatus profile name status db')
  unfolding promote_row
  promote_row-HasStatus name status none db h = h
  promote_row-HasStatus name status (some s) db h = record {
    skill = h.skill;
    named = h.named;
    has = h.has;
  }

  local_or_kept :
      (p : Proposal) (o : Option Skill)
      → status_of (create_input profile source p) o ≡ elim o [ none ↦ "local" | some s ↦ s.status ]
  unfolding create_input
  local_or_kept p none = refl
  local_or_kept p (some s) = refl

  abbrev promote_rest : Proposal → Unit {0} → Tx ApplyResult
  promote_rest p _ = do
    λ d. promote_row st by (first (is_named profile p.skill_name) d.skills) d
    pure (applied p 0 "promoted")

  apply_proposal-Applied :
      (p : Proposal) (db : Db) → Post (apply_proposal c st profile by source p db) (Applied p db)
  unfolding apply_proposal create_input
  apply_proposal-Applied p db = elim (Bool-cases (p.kind == "create")) [
    | inl e ↦ rw e (
        Post-bind (register_version_tx c st (create_input profile source p) db)
          (λ vb. pure (applied p vb.0.version "local"))
          (λ vb d. Registered c (create_input profile source p) st db vb.0 vb.1 d) (Applied p db)
          (register_version_tx-Registered c (create_input profile source p) st db)
          (λ vb d g. record {
            status = record {
              skill = g.skill;
              named = g.named;
              has =
                  rw e
                    (g.status ∙ local_or_kept p (first (is_named profile p.skill_name) db.skills));
            };
            reply = rw e refl;
          }))
    | inr e ↦ elim (Bool-cases (p.kind == "promote")) [
      | inl f ↦
          rw (e, f)
            (Post-bind (set_status_tx st profile p.skill_name "promoted" db) (promote_rest p)
              (λ _ d. HasStatus profile p.skill_name "promoted" d) (Applied p db)
              (set_status_tx-HasStatus st profile p.skill_name "promoted" db)
              (λ _ d h.
                Post-bind (promote_row st by (first (is_named profile p.skill_name) d.skills) d)
                  (λ _. pure (applied p 0 "promoted"))
                  (λ _ d'. HasStatus profile p.skill_name "promoted" d') (Applied p db)
                  (promote_row-HasStatus p.skill_name "promoted"
                    (first (is_named profile p.skill_name) d.skills) d h)
                  (λ _ d' h'. record { status = rw (e, f) h'; reply = rw (e, f) refl })))
      | inr f ↦ elim (Bool-cases (p.kind == "prune")) [
        | inl g ↦
            rw (e, f, g)
              (Post-bind (set_status_tx st profile p.skill_name "retired" db)
                (λ _. pure (applied p 0 "retired"))
                (λ _ d. HasStatus profile p.skill_name "retired" d) (Applied p db)
                (set_status_tx-HasStatus st profile p.skill_name "retired" db)
                (λ _ d h. record { status = rw (e, f) h; reply = rw (e, f) refl }))
        | inr g ↦ rw (e, f, g) tt
      ]
    ]
  ]

-- What a committed approval came from, and what it left: the status of the skill, and the reply.
pub record Approved (profile : String) (id : ℕ) (db : Db) (res : ApplyResult) (db' : Db)
    : Type 0 where
  pub proposal : Proposal
  pub was_pending : first (is_pending profile id) db.proposals ≡ some proposal
  pub skill : Skill
  pub named : first (is_named profile proposal.skill_name) db'.skills ≡ some skill
  pub status :
      skill.status ≡ status_after proposal (first (is_named profile proposal.skill_name) db.skills)
  pub reply : res.new_status ≡ reported proposal

module _ (c : Codecs) (st : Stamp) (profile : String) (id : ℕ) (by : String) (source : ℕ → String)
    (db : Db) where
  approve_row-Approved :
      (o : Option Proposal)
      → first (is_pending profile id) db.proposals ≡ o
      → Post (approve_row c st profile id by source o db) (Approved profile id db)
  unfolding approve_row
  approve_row-Approved none e = tt
  approve_row-Approved (some p) e =
      Post-bind (apply_proposal c st profile by (source p.id) p db) (marked p)
        (Applied c st profile by (source p.id) p db) (Approved profile id db)
        (apply_proposal-Applied c st profile by (source p.id) p db)
        (λ res d h. record {
          proposal = p;
          was_pending = e;
          skill = h.status.skill;
          named = h.status.named;
          status = h.status.has;
          reply = h.reply;
        })
    where
      marked : Proposal → ApplyResult → Tx ApplyResult
      marked p res = do mark_approved st profile id by; pure res

  -- A committed approval was of a pending proposal. It leaves the skill that the proposal names
  -- promoted or retired for those kinds. For a creation it leaves the skill local if there was
  -- none of that name, and with the status that it had otherwise. The reply names the status
  -- `local` for every creation, and the new status for the other kinds.
  pub approve_effect :
      (res : ApplyResult) (db' : Db)
      → approve_proposal c st profile id by source db ≡ (ok res, db')
      → Approved profile id db res db'
  unfolding approve_proposal
  approve_effect res db' done =
      settle_ok (Approved profile id db) db db' res
        (approve_row c st profile id by source (first (is_pending profile id) db.proposals) db)
        (approve_row-Approved (first (is_pending profile id) db.proposals) refl) done
