-- ===== src/Store/Versions/Outcome.antt =====
-- What a registration that commits has stored, and which skill it is stored for.
use phantom_skills.Prelude.{
  ℕ, ◌≡◌, refl, ap, ◌∙◌, String, Bool, true, ◌||◌, Option, none, some, [], ◌∷◌, ◌++◌, eqb_refl,
  eq_refl, first, arith, inl, inr, Bool-cases, Option-cases,
}
use phantom_skills.Prelude.Keys.{first_passes, first-append_none, first-update}
use phantom_skills.Text.{is_blank}
use phantom_skills.Store.Tables.{
  Skill, Version, Db, Codecs, Stamp, Result, ok, err, settle, or_else, status_allowed,
  origin_allowed,
}
use phantom_skills.Store.Register.{
  RegisterInput, is_named, touch, upsert_skill, upsert_row, has_content, new_version, has_id,
  set_current, append_version, existing_or_new, register_version_tx, found_or_new, canonical_sha,
}
use phantom_skills.Store.Valid.{Post, Post-bind}

-- The status of the skill that a registration leaves: the input's only if the skill is new.
abbrev pub status_of : RegisterInput → Option Skill → String
status_of r none = or_else r.status "draft"
status_of r (some s) = s.status

module _ (c : Codecs) (r : RegisterInput) where
  -- After the upsert: the skill of that name has the id returned; versions are as before.
  record Upserted (before : Db) (id : ℕ) (db : Db) : Type 0 where
    skill : Skill
    named : first (is_named r.profile r.name) db.skills ≡ some skill
    same_id : skill.id ≡ id
    same_versions : db.versions ≡ before.versions
    same_next : db.next_version ≡ before.next_version
    same_proposals : db.proposals ≡ before.proposals
    status : skill.status ≡ status_of r (first (is_named r.profile r.name) before.skills)

  -- What holds once a version has been registered: the skill of that name is there, and so is a
  -- version with the content's hash, which the call returned; a new version is the current one.
  pub record Registered (st : Stamp) (before : Db) (v : Version) (created : Bool) (db : Db)
      : Type 0 where
    pub skill : Skill
    pub named : first (is_named r.profile r.name) db.skills ≡ some skill
    pub stored : Version
    pub found :
        first (has_content skill.id (canonical_sha c r.frontmatter r.body)) db.versions
        ≡ some stored
    pub returned : v ≡ record stored { frontmatter = r.frontmatter }
    pub same_proposals : db.proposals ≡ before.proposals
    pub status : skill.status ≡ status_of r (first (is_named r.profile r.name) before.skills)
    pub made_current :
        created ≡ true
        → (skill.current ≡ some stored.id)
          × (stored ≡ new_version st r (canonical_sha c r.frontmatter r.body) skill.id before)
          × (db.versions ≡ before.versions ++ stored ∷ [])

  module _ (st : Stamp) where
    upsert_row-Upserted :
        (origin : String) (o : Option Skill) (db : Db)
        → first (is_named r.profile r.name) db.skills ≡ o
        → Post (upsert_row c st r (or_else r.status "draft") origin o db) (Upserted db)
    unfolding upsert_row
    upsert_row-Upserted origin (some s) db e = record {
      skill = touch st.now s;
      named =
          first-update (is_named r.profile r.name) (is_named r.profile r.name) (touch st.now)
            (λ _. refl) db.skills
          ∙ rw (e, first_passes (is_named r.profile r.name) db.skills s e) refl;
      same_id = refl;
      same_versions = refl;
      same_next = refl;
      same_proposals = refl;
      status = rw e refl;
    }
    upsert_row-Upserted origin none db e = record {
      skill = _;
      named =
          first-append_none (is_named r.profile r.name) db.skills _ e
            (ground (arith, eq_refl r.profile, eq_refl r.name));
      same_id = refl;
      same_versions = refl;
      same_next = refl;
      same_proposals = refl;
      status = rw e refl;
    }

    upsert_skill-Upserted : (db : Db) → Post (upsert_skill c st r db) (Upserted db)
    unfolding upsert_skill
    upsert_skill-Upserted db =
        let status = or_else r.status "draft" in
        let origin = or_else r.origin "authored" in
        elim (Bool-cases (status_allowed status)) [
          | inl e ↦ elim (Bool-cases (origin_allowed origin)) [
            | inl f ↦
                rw (e, f)
                  (upsert_row-Upserted origin (first (is_named r.profile r.name) db.skills) db refl)
            | inr f ↦ rw (e, f) tt
          ]
          | inr e ↦ rw e tt
        ]

    found_or_new-Registered :
        (before : Db) (id : ℕ) (db : Db)
        → Upserted before id db
        → Post (found_or_new c st r id db) (λ vb db'. Registered st before vb.0 vb.1 db')
    unfolding found_or_new append_version
    found_or_new-Registered before id db u =
        let sha = canonical_sha c r.frontmatter r.body in
        let new = new_version st r sha id db in
        elim (Option-cases (first (has_content id sha) db.versions)) [
          | inl e ↦
              rw (e, existing_or_new)
                (record {
                  skill = set_current st.now new.id u.skill;
                  named =
                      first-update (is_named r.profile r.name) (has_id id)
                        (set_current st.now new.id) (λ _. refl) db.skills
                      ∙ rw (u.named, here id u.skill u.same_id) refl;
                  stored = new;
                  found = rw u.same_id (
                      first-append_none (has_content id sha) db.versions new e
                        (ground (arith, eqb_refl id, eq_refl sha)));
                  returned = refl;
                  same_proposals = u.same_proposals;
                  status = u.status;
                  made_current = λ _. (
                    refl,
                    rw (u.same_id, u.same_next, u.same_versions) refl,
                    rw u.same_versions refl,
                  );
                })
          | inr (w, e) ↦
              rw (e, existing_or_new)
                (record {
                  skill = u.skill;
                  named = u.named;
                  stored = w;
                  found = rw u.same_id e;
                  returned = refl;
                  same_proposals = u.same_proposals;
                  status = u.status;
                  made_current = λ f. cc;
                })
        ]
      where
        here : (i : ℕ) (s : Skill) → s.id ≡ i → has_id i s ≡ true
        here i s e = ground arith

    pub register_version_tx-Registered :
        (db : Db) → Post (register_version_tx c st r db) (λ vb db'. Registered st db vb.0 vb.1 db')
    unfolding register_version_tx
    register_version_tx-Registered db = elim (Bool-cases (is_blank r.name || is_blank r.profile)) [
      | inl e ↦ rw e tt
      | inr e ↦ rw e (
          Post-bind (upsert_skill c st r db) (found_or_new c st r) (Upserted db)
            (λ vb db'. Registered st db vb.0 vb.1 db') (upsert_skill-Upserted db)
            (found_or_new-Registered db))
    ]

-- What a transaction that committed established.
pub settle_ok :
    {A : Type 0} (Q : A → Db → Type 0) (db db' : Db) (a : A) (m : Result (A × Db))
    → Post m Q
    → settle db m ≡ (ok a, db')
    → Q a db'
settle_ok {A} Q db db' a (ok (b, db₁)) h e =
    let results : ok b ≡ ok a = ap (λ (p : Result A × Db). p.0) e in
    let same : b ≡ a = cc in
    let tables : db₁ ≡ db' = ap (λ (p : Result A × Db). p.1) e in rw (← same, ← tables) h
settle_ok {A} Q db db' a (err x) h e =
    let results : err x ≡ ok a = ap (λ (p : Result A × Db). p.0) e in cc
