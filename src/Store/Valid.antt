-- ===== src/Store/Valid.antt =====
-- The invariant of the registry's tables: the constraints of migrations/0001 and 0002, and that
-- current_version_id names a version of its own skill. Every operation of `Register` keeps it.
pub mod Registering
use phantom_skills.Prelude.{
  ℕ, ◌+◌, ◌<◌, ◌≡◌, Bool, true, ◌&&◌, Option, none, some, List, [], ◌∷◌, ◌++◌, eqb, exists,
  update_where, All,
}
use phantom_skills.Prelude.Keys.{
  Distinct, Distinct-update, exists-append, exists-update, All-update,
}
use phantom_skills.Store.Tables.{
  Skill, Version, Db, Result, ok, err, Tx, ◌>>=◌, and_then, settle, transaction,
}
use phantom_skills.Store.Register.{is_named, of_skill, has_content, has_id}

abbrev pub same_skill_id : Skill → Skill → Bool
same_skill_id a b = eqb a.id b.id

-- skills_uniq
abbrev pub same_name : Skill → Skill → Bool
same_name a b = is_named b.profile b.name a

-- skill_versions_uniq_ver and skill_versions_uniq_sha
abbrev pub same_number : Version → Version → Bool
same_number a b = of_skill b.skill_id a && eqb a.version b.version

abbrev pub same_content : Version → Version → Bool
same_content a b = has_content b.skill_id b.sha a

abbrev pub is_version_of : ℕ → ℕ → Version → Bool
is_version_of skill_id v w = eqb w.id v && of_skill skill_id w

abbrev pub Refers : List Version → ℕ → Option ℕ → Type 0
Refers vs id none = Unit
Refers vs id (some v) = exists (is_version_of id v) vs ≡ true

abbrev pub CurrentIn : List Version → Skill → Type 0
CurrentIn vs s = Refers vs s.id s.current

pub record IsValid (db : Db) : Type 0 where
  pub skill_below : All (λ s. s.id < db.next_skill) db.skills
  pub skill_ids : Distinct same_skill_id db.skills
  pub skill_names : Distinct same_name db.skills
  pub version_below : All (λ v. v.id < db.next_version) db.versions
  pub numbers : Distinct same_number db.versions
  pub contents : Distinct same_content db.versions
  pub owned : All (λ v. exists (has_id v.skill_id) db.skills ≡ true) db.versions
  pub currents : All (CurrentIn db.versions) db.skills

-- What holds of a result if it is no error.
abbrev pub Post : {A : Type 0} → Result (A × Db) → (A → Db → Type 0) → Type 0
Post (ok (a, db)) Q = Q a db
Post (err e) Q = Unit

pub Post-bind :
    {A B : Type 0} (m : Result (A × Db)) (f : A → Tx B) (P : A → Db → Type 0) (Q : B → Db → Type 0)
    → Post m P
    → ((a : A) (db : Db) → P a db → Post (f a db) Q)
    → Post (and_then m (λ r. f r.0 r.1)) Q
Post-bind (ok (a, db)) f P Q h k = k a db h
Post-bind (err e) f P Q h k = tt

settle-Post :
    {A : Type 0} (P : Db → Type 0) (db : Db) (r : Result (A × Db))
    → P db
    → Post r (λ a db'. P db')
    → P (settle db r).1
settle-Post P db (ok (a, db')) h k = k
settle-Post P db (err e) h k = h

-- What every step of a transaction keeps, the transaction keeps, committed or rolled back.
pub transaction-Post :
    {A : Type 0} (P : Db → Type 0) (m : Tx A) (db : Db)
    → P db
    → Post (m db) (λ a db'. P db')
    → P (transaction m db).1
transaction-Post P m db h k = settle-Post P db (m db) h k

-- What a caller of a step that settled on a skill may use: the tables are valid, and the skill is
-- in them.
pub record HasSkill (id : ℕ) (db : Db) : Type 0 where
  pub valid : IsValid db
  pub present : exists (has_id id) db.skills ≡ true

pub Refers-append :
    (vs ws : List Version) (id : ℕ) (o : Option ℕ) → Refers vs id o → Refers (vs ++ ws) id o
Refers-append vs ws id none h = tt
Refers-append vs ws id (some v) h = rw (exists-append (is_version_of id v) vs ws, h)

module _ (f : Skill → Skill) (keep_id : (s : Skill) → (f s).id ≡ s.id) (w : Skill → Bool) where
  owned-update :
      (skills : List Skill) (vs : List Version)
      → All (λ v. exists (has_id v.skill_id) skills ≡ true) vs
      → All (λ v. exists (has_id v.skill_id) (update_where w f skills) ≡ true) vs
  owned-update skills [] h = tt
  owned-update skills (v ∷ vs) h = (
    rw (exists-update (has_id v.skill_id) w f (λ s. rw (keep_id s)) skills) h.0,
    owned-update skills vs h.1,
  )

-- An UPDATE of skills that leaves id, profile and name, and current_version_id valid.
pub update-IsValid :
    (w : Skill → Bool) (f : Skill → Skill)
    → ((s : Skill) → ((f s).id ≡ s.id) × ((f s).profile ≡ s.profile) × ((f s).name ≡ s.name))
    → (db : Db) → ((s : Skill) → w s ≡ true → CurrentIn db.versions s → CurrentIn db.versions (f s))
    → IsValid db
    → IsValid (record db { skills = update_where w f db.skills })
update-IsValid w f keep db cur v = record {
  skill_below =
      All-update (λ s. s.id < db.next_skill) w f db.skills (λ s _ h. rw (keep s).0 h) v.skill_below;
  skill_ids =
      Distinct-update same_skill_id w f (λ x y. rw (keep x).0) (λ x y. rw (keep y).0) db.skills
        v.skill_ids;
  skill_names =
      Distinct-update same_name w f (λ x y. rw ((keep x).1, (keep x).2))
        (λ x y. rw ((keep y).1, (keep y).2)) db.skills v.skill_names;
  version_below = v.version_below;
  numbers = v.numbers;
  contents = v.contents;
  owned = owned-update f (λ s. (keep s).0) w db.skills db.versions v.owned;
  currents = All-update (CurrentIn db.versions) w f db.skills cur v.currents;
}
