-- ===== src/Nodesync/Copying.antt =====
-- What importing one version adds, and that it adds nothing where the version is present.
use mathlib.Core.List.{append-nil}
use phantom_skills.Prelude.{
  ℕ, ◌≡◌, refl, sym, ap, ◌∙◌, ◌⊎◌, inl, inr, Bool, true, false, some, List, [], ◌∷◌, ◌++◌, Elem,
  length, first, exists, All, eq_refl, ◌==◌, Bool-cases, Option-cases, arith,
}
use phantom_skills.Prelude.Keys.{
  exists-append, first-append_some, first-append_none, exists_first, exists_of_none,
}
use phantom_skills.Store.Tables.{Skill, Version, Db}
use phantom_skills.Store.Register.{is_named}
use phantom_skills.Nodesync.{
  SyncedVersion, new_skill, ensure_skill, is_known, received, insert_version, insert_into,
  import_version,
}

-- The version has no identity; or its skill stands, and there is a version with this identity, of
-- whatever skill, or with this content in the skill.
abbrev pub Present : SyncedVersion → Db → Type 0
Present v db =
    (v.row_ulid == "" ≡ true)
    ⊎ ((s : Skill) × (first (is_named v.profile v.name) db.skills ≡ some s)
        × (exists (is_known v s.id) db.versions ≡ true))

-- The row is this version in its skill; its number, id and time are the node's own.
pub record IsCopy (v : SyncedVersion) (db : Db) (row : Version) : Type 0 where
  pub skill : Skill
  pub named : first (is_named v.profile v.name) db.skills ≡ some skill
  pub owner : row.skill_id ≡ skill.id
  pub sha : row.sha ≡ v.sha
  pub frontmatter : row.frontmatter ≡ v.frontmatter
  pub body : row.body ≡ v.body
  pub author : row.author ≡ v.author
  pub source : row.source ≡ v.source
  pub identity : row.row_ulid ≡ some v.row_ulid

abbrev pub CopyOf : List SyncedVersion → Db → Version → Type 0
CopyOf vs db row = (v : SyncedVersion) × Elem v vs × IsCopy v db row

-- The stored versions are as they were, and behind them are as many copies as the count says.
abbrev pub Adds : List SyncedVersion → Db → ℕ × Db → Type 0
Adds vs db (n, db') =
    (added : List Version) × (db'.versions ≡ db.versions ++ added)
    × (length added ≡ n)
    × All (CopyOf vs db') added

-- Rows are only added.
pub record Extends (db db' : Db) : Type 0 where
  pub firsts :
      (p : Skill → Bool) (s : Skill) → first p db.skills ≡ some s → first p db'.skills ≡ some s
  pub versions : (q : Version → Bool) → exists q db.versions ≡ true → exists q db'.versions ≡ true

pub Present-Extends :
    (v : SyncedVersion) (db db' : Db) → Extends db db' → Present v db → Present v db'
Present-Extends v db db' x (inl e) = inl e
Present-Extends v db db' x (inr (s, found, known)) =
    inr (s, x.firsts (is_named v.profile v.name) s found, x.versions (is_known v s.id) known)

pub Extends-trans : (a b c : Db) → Extends a b → Extends b c → Extends a c
Extends-trans a b c x y = record {
  firsts = λ p s h. y.firsts p s (x.firsts p s h);
  versions = λ q h. y.versions q (x.versions q h);
}

pub IsCopy-Extends :
    (v : SyncedVersion) (db db' : Db) (row : Version)
    → Extends db db'
    → IsCopy v db row
    → IsCopy v db' row
IsCopy-Extends v db db' row x c = record {
  skill = c.skill;
  named = x.firsts (is_named v.profile v.name) c.skill c.named;
  owner = c.owner;
  sha = c.sha;
  frontmatter = c.frontmatter;
  body = c.body;
  author = c.author;
  source = c.source;
  identity = c.identity;
}

-- A version that is present changes nothing.
pub import_version-Present :
    (now : ℕ) (v : SyncedVersion) (db : Db) → Present v db → import_version now v db ≡ (0, db)
unfolding import_version ensure_skill insert_into insert_version
import_version-Present now v db (inl e) = rw (e, import_version) refl
import_version-Present now v db (inr (s, found, known)) = elim (Bool-cases (v.row_ulid == "")) [
  | inl e ↦ rw (e, import_version) refl
  | inr e ↦
      rw
        (
          e,
          import_version,
          exists_first (is_named v.profile v.name) db.skills s found,
          ensure_skill,
          found,
          insert_into,
          known,
          insert_version,
        )
        refl
]

pub Extends-refl : (db : Db) → Extends db db
Extends-refl db = record { firsts = λ p s h. h; versions = λ q h. h }

ensure_skill-Extends : (now : ℕ) (v : SyncedVersion) (db : Db) → Extends db (ensure_skill now v db)
unfolding ensure_skill
ensure_skill-Extends now v db = elim (Bool-cases (exists (is_named v.profile v.name) db.skills)) [
  | inl e ↦ rw (e, ensure_skill) (Extends-refl db)
  | inr e ↦
      rw (e, ensure_skill)
        (record { firsts = λ p s h. first-append_some p db.skills _ s h; versions = λ q h. h })
]

ensure_skill-first :
    (now : ℕ) (v : SyncedVersion) (db : Db)
    → (s : Skill) × (first (is_named v.profile v.name) (ensure_skill now v db).skills ≡ some s)
      × ((ensure_skill now v db).versions ≡ db.versions)
unfolding ensure_skill
ensure_skill-first now v db = elim (Option-cases (first (is_named v.profile v.name) db.skills)) [
  | inl e ↦
      let absent : exists (is_named v.profile v.name) db.skills ≡ false =
        exists_of_none (is_named v.profile v.name) db.skills e in
      let row : Skill = new_skill now v db.next_skill in
      let named : is_named v.profile v.name row ≡ true =
        ground (arith, eq_refl v.profile, eq_refl v.name) in
      (
        row,
        rw (absent, ensure_skill)
            (first-append_none (is_named v.profile v.name) db.skills row e named),
        rw (absent, ensure_skill) refl,
      )
  | inr (s, e) ↦
      let there : exists (is_named v.profile v.name) db.skills ≡ true =
        exists_first (is_named v.profile v.name) db.skills s e in
      (s, rw (there, ensure_skill) e, rw (there, ensure_skill) refl)
]

pub record Imported (v : SyncedVersion) (db : Db) (n : ℕ) (db' : Db) : Type 0 where
  pub present : Present v db'
  pub extends : Extends db db'
  pub added : List Version
  pub grown : db'.versions ≡ db.versions ++ added
  pub counted : length added ≡ n
  pub copies : All (IsCopy v db') added

insert_version-Imported :
    (now : ℕ) (v : SyncedVersion) (s : Skill) (db : Db)
    → first (is_named v.profile v.name) db.skills ≡ some s
    → Imported v db (insert_version now v s.id db).0 (insert_version now v s.id db).1
unfolding insert_version
insert_version-Imported now v s db found =
    elim (Bool-cases (exists (is_known v s.id) db.versions)) [
      | inl e ↦
          rw (e, insert_version)
            (record {
              present = inr (s, found, e);
              extends = Extends-refl db;
              added = [];
              grown = sym (append-nil db.versions);
              counted = refl;
              copies = tt;
            })
      | inr e ↦
          let row : Version = received now v s.id db in
          let known : is_known v s.id row ≡ true = ground (arith, eq_refl v.row_ulid) in
          rw (e, insert_version)
            (record {
              present = inr (
                s,
                found,
                rw (exists-append (is_known v s.id) db.versions (row ∷ []), known) (ground arith),
              );
              extends = record {
                firsts = λ p x h. h;
                versions = λ q h. rw (exists-append q db.versions (row ∷ []), h) refl;
              };
              added = row ∷ [];
              grown = refl;
              counted = refl;
              copies = (
                record {
                  skill = s;
                  named = found;
                  owner = refl;
                  sha = refl;
                  frontmatter = refl;
                  body = refl;
                  author = refl;
                  source = refl;
                  identity = refl;
                },
                tt,
              );
            })
    ]

pub import_version-Imported :
    (now : ℕ) (v : SyncedVersion) (db : Db)
    → Imported v db (import_version now v db).0 (import_version now v db).1
unfolding import_version insert_into
import_version-Imported now v db = elim (Bool-cases (v.row_ulid == "")) [
  | inl e ↦
      rw (e, import_version)
        (record {
          present = inl e;
          extends = Extends-refl db;
          added = [];
          grown = sym (append-nil db.versions);
          counted = refl;
          copies = tt;
        })
  | inr e ↦
      let db' : Db = ensure_skill now v db in
      let (s, found, same) = ensure_skill-first now v db in
      let step = insert_version-Imported now v s db' found in
      rw (e, import_version, found, insert_into)
        (record {
          present = step.present;
          extends =
              Extends-trans db db' (insert_version now v s.id db').1 (ensure_skill-Extends now v db)
                step.extends;
          added = step.added;
          grown = step.grown ∙ ap (λ vs. vs ++ step.added) same;
          counted = step.counted;
          copies = step.copies;
        })
]
