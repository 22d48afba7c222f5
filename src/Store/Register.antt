-- ===== src/Store/Register.antt =====
-- `registerVersionTx`, `RegisterVersion` and `RetireSkill` of internal/pgstore/pgstore.go, and
-- `CanonicalSHA` of internal/skillfile/skillfile.go.
use Prim.Native.Nat.{max}
use phantom_skills.Prelude.{
  ℕ, ◌+◌, String, Bool, true, false, ◌&&◌, ◌||◌, not, Option, none, some, List, [], ◌∷◌, ◌++◌, eqb,
  ◌==◌, if◌then◌else◌, first, exists, update_where, codes,
}
use phantom_skills.Text.{is_blank}
use phantom_skills.Skillfile.Values.{Fields, without}
use phantom_skills.Skillfile.Codec.{marker_key}
use phantom_skills.Skillfile.Slug.{slugify}
use phantom_skills.Store.Tables.{
  Skill, Version, Db, Codecs, Stamp, not_found, invalid, constraint, Result, ok, err, Tx, ◌>>=◌,
  ◌>>◌, pure, require, transaction, or_else, status_allowed, origin_allowed,
}

unfoldable pub canonical_sha : Codecs → Fields → String → String
unfolding without
canonical_sha c frontmatter body =
    c.sha256_hex (c.json (without marker_key frontmatter) ++ 0 ∷ codes body)

pub record RegisterInput : Type 0 where
  pub profile : String
  pub name : String
  pub frontmatter : Fields
  pub body : String
  pub author : String
  pub source : String
  pub origin : String
  pub status : String
  pub tags : List String

abbrev pub is_named : String → String → Skill → Bool
is_named profile name s = s.profile == profile && s.name == name

abbrev pub touch : ℕ → Skill → Skill
touch now s = record s { updated_at = now }

-- INSERT INTO skills … ON CONFLICT (profile, name) DO UPDATE SET updated_at = now() RETURNING id.
-- The checks are made on the row proposed for insertion, before the conflict is looked for.
unfoldable pub upsert_row : Codecs → Stamp → RegisterInput → String → String → Option Skill → Tx ℕ
upsert_row c st r status origin (some s) db =
    ok (
      s.id,
      record db { skills = update_where (is_named r.profile r.name) (touch st.now) db.skills },
    )
upsert_row c st r status origin none db = ok (
  db.next_skill,
  record db {
    skills =
        db.skills
        ++ record {
          id = db.next_skill;
          profile = r.profile;
          name = r.name;
          slug = slugify c.unicode (codes r.name);
          status = status;
          origin = origin;
          tags = r.tags;
          current = none;
          created_at = st.now;
          updated_at = st.now;
        }
          ∷ [];
    next_skill = db.next_skill + 1;
  },
)

unfoldable pub upsert_skill : Codecs → Stamp → RegisterInput → Tx ℕ
unfolding upsert_row
upsert_skill c st r = do
  let status = or_else r.status "draft"
  let origin = or_else r.origin "authored"
  require (status_allowed status) (constraint "skills_status_chk")
  require (origin_allowed origin) (constraint "skills_origin_chk")
  λ db. upsert_row c st r status origin (first (is_named r.profile r.name) db.skills) db

abbrev pub of_skill : ℕ → Version → Bool
of_skill id v = eqb v.skill_id id

abbrev pub has_content : ℕ → String → Version → Bool
has_content id sha v = eqb v.skill_id id && v.sha == sha

-- SELECT COALESCE(MAX(version), 0) … WHERE skill_id = id
unfoldable pub max_version : ℕ → List Version → ℕ
max_version id [] = 0
max_version id (v ∷ vs) =
    if of_skill id v then max v.version (max_version id vs) else max_version id vs

abbrev pub new_version : Stamp → RegisterInput → String → ℕ → Db → Version
new_version st r sha skill_id db = record {
  id = db.next_version;
  skill_id = skill_id;
  version = max_version skill_id db.versions + 1;
  sha = sha;
  frontmatter = r.frontmatter;
  body = r.body;
  author = r.author;
  source = r.source;
  created_at = st.now;
  row_ulid = some st.ulid;
}

abbrev pub has_id : ℕ → Skill → Bool
has_id id s = eqb s.id id

-- UPDATE skills SET current_version_id; the trigger sets updated_at.
abbrev pub set_current : ℕ → ℕ → Skill → Skill
set_current now v s = record s { current = some v; updated_at = now }

unfoldable pub append_version : Stamp → RegisterInput → String → ℕ → Tx (Version × Bool)
unfolding max_version
append_version st r sha skill_id db =
    let v = new_version st r sha skill_id db in
    ok (
      (v, true),
      record db {
        versions = db.versions ++ v ∷ [];
        skills = update_where (has_id skill_id) (set_current st.now v.id) db.skills;
        next_version = db.next_version + 1;
      },
    )

-- Identical content for this skill returns the existing version.
unfoldable pub existing_or_new :
    Stamp → RegisterInput → String → ℕ → Option Version → Tx (Version × Bool)
existing_or_new st r sha skill_id (some v) = pure (record v { frontmatter = r.frontmatter }, false)
existing_or_new st r sha skill_id none = append_version st r sha skill_id

unfoldable pub found_or_new : Codecs → Stamp → RegisterInput → ℕ → Tx (Version × Bool)
unfolding existing_or_new
found_or_new c st r skill_id db =
    let sha = canonical_sha c r.frontmatter r.body in
    existing_or_new st r sha skill_id (first (has_content skill_id sha) db.versions) db

unfoldable pub register_version_tx : Codecs → Stamp → RegisterInput → Tx (Version × Bool)
unfolding upsert_skill found_or_new append_version
register_version_tx c st r = do
  require (not (is_blank r.name || is_blank r.profile)) (invalid "profile and name are required")
  skill_id ← upsert_skill c st r
  found_or_new c st r skill_id

unfoldable pub register_version : Codecs → Stamp → RegisterInput → Db → Result (Version × Bool) × Db
unfolding register_version_tx
register_version c st r = transaction (register_version_tx c st r)

abbrev pub with_status : ℕ → String → Skill → Skill
with_status now status s = record s { status = status; updated_at = now }

-- UPDATE skills SET status WHERE profile AND name; no row is ErrNotFound.
unfoldable pub set_status_tx : Stamp → String → String → String → Tx (Unit {0})
set_status_tx st profile name status db =
    if exists (is_named profile name) db.skills
    then ok (
      tt,
      record db {
        skills = update_where (is_named profile name) (with_status st.now status) db.skills;
      },
    )
    else err not_found

unfoldable pub retire_skill : Stamp → String → String → Db → Result (Unit {0}) × Db
unfolding set_status_tx
retire_skill st profile name = transaction (set_status_tx st profile name "retired")
