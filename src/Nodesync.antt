-- ===== src/Nodesync.antt =====
-- internal/nodesync/nodesync.go: the exchange of skill versions between nodes, on the registry's
-- tables. The columns node_id and sync_updated_ms, which are only carried along, are left out.
pub mod Copying
pub mod Merge
pub mod Exchange
use phantom_skills.Prelude.{
  ℕ, ◌+◌, String, Bool, false, ◌&&◌, ◌||◌, Option, none, some, List, [], ◌∷◌, ◌++◌, take, select,
  first, exists, ◌==◌, if◌then◌else◌, codes,
}
use phantom_skills.Prelude.Order.{sort_by}
use phantom_skills.Text.{Text, is_empty}
use phantom_skills.Skillfile.Values.{Fields}
use phantom_skills.Store.Tables.{Skill, Version, Db}
use phantom_skills.Store.Register.{is_named, has_id, has_content, max_version}

-- `nodesync.SkillVersion`
pub record SyncedVersion : Type 0 where
  pub profile : String
  pub name : String
  pub slug : Text
  pub sha : String
  pub frontmatter : Fields
  pub body : String
  pub author : String
  pub source : String
  pub row_ulid : String

abbrev pub has_ulid : String → Version → Bool
has_ulid ulid v = elim v.row_ulid [ none ↦ false | some u ↦ u == ulid ]

abbrev pub non_empty : Text → Text → Text
non_empty s fallback = if is_empty s then fallback else s

-- The columns that are not given have the defaults of migrations/0001_skills.
abbrev pub new_skill : ℕ → SyncedVersion → ℕ → Skill
new_skill now v id = record {
  id = id;
  profile = v.profile;
  name = v.name;
  slug = non_empty v.slug (codes v.name);
  status = "draft";
  origin = "authored";
  tags = [];
  current = none;
  created_at = now;
  updated_at = now;
}

-- INSERT INTO skills … ON CONFLICT (profile, name) DO NOTHING
unfoldable pub ensure_skill : ℕ → SyncedVersion → Db → Db
ensure_skill now v db = if exists (is_named v.profile v.name) db.skills then db else record db {
  skills = db.skills ++ new_skill now v db.next_skill ∷ [];
  next_skill = db.next_skill + 1;
}

abbrev pub is_known : SyncedVersion → ℕ → Version → Bool
is_known v skill_id w = has_ulid v.row_ulid w || has_content skill_id v.sha w

abbrev pub received : ℕ → SyncedVersion → ℕ → Db → Version
received now v skill_id db = record {
  id = db.next_version;
  skill_id = skill_id;
  version = max_version skill_id db.versions + 1;
  sha = v.sha;
  frontmatter = v.frontmatter;
  body = v.body;
  author = v.author;
  source = v.source;
  created_at = now;
  row_ulid = some v.row_ulid;
}

unfoldable pub insert_version : ℕ → SyncedVersion → ℕ → Db → ℕ × Db
unfolding max_version
insert_version now v skill_id db = if exists (is_known v skill_id) db.versions then (0, db) else (
  1,
  record db {
    versions = db.versions ++ received now v skill_id db ∷ [];
    next_version = db.next_version + 1;
  },
)

-- The skill's row was just seen to, so the search finds it.
unfoldable pub insert_into : ℕ → SyncedVersion → Option Skill → Db → ℕ × Db
unfolding insert_version
insert_into now v none db = (0, db)
insert_into now v (some s) db = insert_version now v s.id db

unfoldable pub import_version : ℕ → SyncedVersion → Db → ℕ × Db
unfolding ensure_skill insert_into
import_version now v db =
    if v.row_ulid == ""
    then (0, db)
    else let db' : Db = ensure_skill now v db in
      insert_into now v (first (is_named v.profile v.name) db'.skills) db'

-- `ImportSkillVersions`
unfoldable pub import_versions : ℕ → List SyncedVersion → Db → ℕ × Db
unfolding import_version
import_versions now [] db = (0, db)
import_versions now (v ∷ vs) db =
    let step : ℕ × Db = import_version now v db in
    let rest : ℕ × Db = import_versions now vs step.1 in (step.0 + rest.0, rest.1)

-- A row of the join of skill_versions with its skill, where it has an identity.
abbrev projected : Skill → Version → Option String → List SyncedVersion
projected s v none = []
projected s v (some ulid) =
    record {
      profile = s.profile;
      name = s.name;
      slug = s.slug;
      sha = v.sha;
      frontmatter = v.frontmatter;
      body = v.body;
      author = v.author;
      source = v.source;
      row_ulid = ulid;
    }
    ∷ []

abbrev joined_with : Option Skill → Version → List SyncedVersion
joined_with none v = []
joined_with (some s) v = projected s v v.row_ulid

-- FROM skill_versions JOIN skills ON s.id = sv.skill_id … row_ulid IS NOT NULL; ids of skills are unique.
unfoldable pub synced_rows : List Skill → List Version → List SyncedVersion
synced_rows skills [] = []
synced_rows skills (v ∷ vs) =
    joined_with (first (has_id v.skill_id) skills) v ++ synced_rows skills vs

-- `row_ulid > $2` and the order of the rows are those of the column's collation.
abbrev pub exported : (String → String → Bool) → String → String → SyncedVersion → Bool
exported lt profile since v = v.profile == profile && (since == "" || lt since v.row_ulid)

abbrev pub by_ulid : (String → String → Bool) → SyncedVersion → SyncedVersion → Bool
by_ulid lt v w = v.row_ulid == w.row_ulid || lt v.row_ulid w.row_ulid

-- `ExportSkillVersions`, and without its limit.
unfoldable pub export_all : (String → String → Bool) → String → String → Db → List SyncedVersion
unfolding synced_rows
export_all lt profile since db =
    sort_by (by_ulid lt) (select (exported lt profile since) (synced_rows db.skills db.versions))

unfoldable pub export_versions :
    (String → String → Bool) → String → String → ℕ → Db → List SyncedVersion
unfolding export_all
export_versions lt profile since limit db = take limit (export_all lt profile since db)
