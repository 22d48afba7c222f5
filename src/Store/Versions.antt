-- ===== src/Store/Versions.antt =====
-- What registering a version does: content addressing, version numbers, and what is current.
pub mod Outcome
use phantom_skills.Prelude.{
  ℕ, ◌+◌, ◌<◌, ◌≡◌, refl, sym, ap, ◌∙◌, Bool, true, false, ◌||◌, none, some, List, [], ◌∷◌, eqb,
  eqb_refl, first, update_where, All, arith, inl, inr, Bool-cases,
}
use phantom_skills.Prelude.Keys.{first-append_none}
use phantom_skills.Text.{is_blank}
use phantom_skills.Store.Tables.{
  Skill, Version, Db, Codecs, Stamp, Result, ok, err, or_else, status_allowed, origin_allowed,
}
use phantom_skills.Store.Register.{
  RegisterInput, is_named, touch, upsert_skill, upsert_row, max_version, new_version,
  existing_or_new, register_version_tx, register_version, found_or_new, canonical_sha,
}
use phantom_skills.Store.Queries.{get_skill, current_version, view}
use phantom_skills.Store.Valid.{IsValid, Post, Post-bind}
use phantom_skills.Store.Versions.Outcome.{Registered, register_version_tx-Registered, settle_ok}

Post-const : {A : Type 0} {P : Type 0} (m : Result (A × Db)) → P → Post m (λ _ _. P)
Post-const (ok (a, db)) h = h
Post-const (err e) h = tt

-- The three checks that an accepted input has passed.
pub record IsAccepted (r : RegisterInput) : Type 0 where
  pub named : (is_blank r.name || is_blank r.profile) ≡ false
  pub status : status_allowed (or_else r.status "draft") ≡ true
  pub origin : origin_allowed (or_else r.origin "authored") ≡ true

module _ (c : Codecs) (r : RegisterInput) where
  upsert_skill-IsAccepted :
      (st : Stamp) (db : Db)
      → (is_blank r.name || is_blank r.profile) ≡ false
      → Post (upsert_skill c st r db) (λ _ _. IsAccepted r)
  unfolding upsert_skill
  upsert_skill-IsAccepted st db n =
      let status = or_else r.status "draft" in
      let origin = or_else r.origin "authored" in
      elim (Bool-cases (status_allowed status)) [
        | inl e ↦ elim (Bool-cases (origin_allowed origin)) [
          | inl f ↦
              rw (e, f)
                (Post-const
                  (upsert_row c st r status origin (first (is_named r.profile r.name) db.skills) db)
                  (record { named = n; status = e; origin = f }))
          | inr f ↦ rw (e, f) tt
        ]
        | inr e ↦ rw e tt
      ]

  register_version_tx-IsAccepted :
      (st : Stamp) (db : Db) → Post (register_version_tx c st r db) (λ _ _. IsAccepted r)
  unfolding register_version_tx
  register_version_tx-IsAccepted st db = elim (Bool-cases (is_blank r.name || is_blank r.profile)) [
    | inl e ↦ rw e tt
    | inr e ↦ rw e (
        Post-bind (upsert_skill c st r db) (found_or_new c st r) (λ _ _. IsAccepted r)
          (λ _ _. IsAccepted r) (upsert_skill-IsAccepted st db e)
          (λ id db' h. Post-const (found_or_new c st r id db') h))
  ]

  -- Registering content that is stored for the skill answers with the stored version, and only
  -- touches the skill.
  register_stored :
      (st st' : Stamp) (before db : Db) (v : Version) (b : Bool)
      → IsAccepted r
      → Registered c r st before v b db
      → register_version_tx c st' r db
        ≡ ok (
          (v, false),
          record db { skills = update_where (is_named r.profile r.name) (touch st'.now) db.skills },
        )
  unfolding register_version_tx
  register_stored st st' before db v b a g = rw a.named (
      rw a.status (
        rw a.origin
          (rw (g.named, upsert_row) (rw (g.found, existing_or_new) (rw g.returned refl)))))

none_below :
    (n : ℕ) (vs : List Version) → All (λ v. v.id < n) vs → first (λ v. eqb v.id n) vs ≡ none
none_below n [] h = refl
none_below n (v ∷ vs) h = ground (arith, h.0, none_below n vs h.1)

module _ (c : Codecs) (st later : Stamp) (r : RegisterInput) (db db' : Db) (v : Version)
    (created : Bool) (first_time : register_version c st r db ≡ (ok (v, created), db')) where
  outcome : Registered c r st db v created db'
  unfolding register_version
  outcome =
      settle_ok (λ vb d. Registered c r st db vb.0 vb.1 d) db db' (v, created)
        (register_version_tx c st r db) (register_version_tx-Registered c r st db) first_time

  accepted : IsAccepted r
  unfolding register_version
  accepted =
      settle_ok (λ _ _. IsAccepted r) db db' (v, created) (register_version_tx c st r db)
        (register_version_tx-IsAccepted c r st db) first_time

  -- Once a version has been registered, registering the same input again, at any later time, returns
  -- the same version, says that none was created, and leaves all versions as they are.
  pub register_version_idem :
      ((register_version c later r db').0 ≡ ok (v, false))
      × ((register_version c later r db').1.versions ≡ db'.versions)
  unfolding register_version
  register_version_idem =
      rw (register_stored c r st later db db' v created accepted outcome) (refl, refl)

  stored_row :
      created ≡ true
      → IsValid db
      → first (λ w. eqb w.id outcome.stored.id) db'.versions ≡ some outcome.stored
  stored_row new valid =
      let (current, fresh, grown) = outcome.made_current new in
      rw (grown, fresh)
        (first-append_none (λ (w : Version). eqb w.id db.next_version) db.versions
          (new_version st r (canonical_sha c r.frontmatter r.body) outcome.skill.id db)
          (none_below db.next_version db.versions valid.version_below) (eqb_refl db.next_version))

  returned_row :
      created ≡ true
      → v ≡ new_version st r (canonical_sha c r.frontmatter r.body) outcome.skill.id db
  returned_row new = outcome.returned ∙ rw ((outcome.made_current new).1) refl

  current_row : created ≡ true → IsValid db → current_version db' outcome.skill ≡ some v
  unfolding current_version
  current_row new valid =
      let (current, fresh, grown) = outcome.made_current new in
      rw (current, current_version)
        (stored_row new valid ∙ ap some (fresh ∙ sym (returned_row new)))

  -- After a registration that created a version, in valid tables, `GetSkill` shows that version as
  -- the current one, with its number and hash; its body and hash are those of the input, and its
  -- number is one more than the largest that the skill had.
  pub get_skill-register :
      created ≡ true
      → IsValid db
      → (s : Skill) × (get_skill r.profile r.name db'
          ≡ ok (record { skill = s; version = v.version; sha = v.sha }, some v))
        × (v.body ≡ r.body)
        × (v.sha ≡ canonical_sha c r.frontmatter r.body)
        × (v.version ≡ max_version s.id db.versions + 1)
  unfolding get_skill
  get_skill-register new valid = (
    outcome.skill,
    rw (outcome.named, get_skill) (rw (current_row new valid, view) refl),
    ap (λ (w : Version). w.body) (returned_row new),
    ap (λ (w : Version). w.sha) (returned_row new),
    ap (λ (w : Version). w.version) (returned_row new),
  )
