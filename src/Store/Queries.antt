-- ===== src/Store/Queries.antt =====
-- The reads of internal/pgstore/pgstore.go: `ListSkills`, `GetSkill`, `ListVersions`, `SyncFeed`.
use phantom_skills.Prelude.{
  ℕ, String, Bool, ◌&&◌, ◌||◌, Option, none, some, List, [], ◌∷◌, eqb, leb, ltb, ◌==◌,
  if◌then◌else◌, first, select, exists, take, map, ℤ, pos, negsuc,
}
use phantom_skills.Prelude.Int.{ltz, eqz}
use phantom_skills.Prelude.Order.{sort_by}
use phantom_skills.Skillfile.Values.{Fields, end}
use phantom_skills.Text.{Text}
use phantom_skills.Store.Tables.{Skill, Version, Db, not_found, Result, ok, err}
use phantom_skills.Store.Register.{is_named, of_skill}

-- LEFT JOIN skill_versions v ON v.id = s.current_version_id
abbrev pub joined : List Version → Option ℕ → Option Version
joined vs none = none
joined vs (some id) = first (λ v. eqb v.id id) vs

unfoldable pub current_version : Db → Skill → Option Version
current_version db s = joined db.versions s.current

-- `Skill` as the API shows it: COALESCE(v.version, 0) and COALESCE(v.sha, '').
pub record SkillView : Type 0 where
  pub skill : Skill
  pub version : ℕ
  pub sha : String

view_with : Skill → Option Version → SkillView
view_with s none = record { skill = s; version = 0; sha = "" }
view_with s (some v) = record { skill = s; version = v.version; sha = v.sha }

unfoldable pub view : Db → Skill → SkillView
unfolding view_with current_version
view db s = view_with s (current_version db s)

-- `if limit <= 0 || limit > 500 { limit = 100 }`
abbrev pub page_limit : ℕ → ℕ
page_limit n = if eqb n 0 || ltb 500 n then 100 else n

unfoldable pub page_size : ℤ → ℕ
page_size (pos n) = page_limit n
page_size (negsuc n) = 100

pub record ListOpts : Type 0 where
  pub status : String
  pub tag : String
  pub after_id : ℤ
  pub limit : ℤ

abbrev pub listed : String → ListOpts → Skill → Bool
listed profile o s =
    s.profile == profile
    && ltz o.after_id (pos s.id)
    && (o.status == "" || s.status == o.status)
    && (o.tag == "" || exists (λ t. t == o.tag) s.tags)

abbrev pub by_id : Skill → Skill → Bool
by_id a b = leb a.id b.id

unfoldable pub list_skills : String → ListOpts → Db → List SkillView
unfolding view page_size
list_skills profile o db =
    map (view db) (take (page_size o.limit) (sort_by by_id (select (listed profile o) db.skills)))

-- A skill without a current version comes with none.
abbrev pub shown : Db → Option Skill → Result (SkillView × Option Version)
shown db none = err not_found
shown db (some s) = ok (view db s, current_version db s)

unfoldable pub get_skill : String → String → Db → Result (SkillView × Option Version)
unfolding view current_version
get_skill profile name db = shown db (first (is_named profile name) db.skills)

abbrev pub by_version_desc : Version → Version → Bool
by_version_desc a b = leb b.version a.version

-- The inner join with skills on (profile, name), newest first; the listing has no content.
abbrev pub without_content : Version → Version
without_content v = record v { frontmatter = end; body = "" }

unfoldable pub versions_of : String → String → Db → List Version
versions_of profile name db = map without_content (
    sort_by by_version_desc (
      select (λ v. exists (λ s. is_named profile name s && of_skill s.id v) db.skills) db.versions))

-- An empty listing is an error only if there is no such skill.
abbrev pub listing : Result (SkillView × Option Version) → List Version → Result (List Version)
listing (ok s) [] = ok []
listing (err e) [] = err e
listing s (v ∷ vs) = ok (v ∷ vs)

unfoldable pub list_versions : String → String → Db → Result (List Version)
unfolding versions_of get_skill
list_versions profile name db = listing (get_skill profile name db) (versions_of profile name db)

pub record SyncRow : Type 0 where
  pub id : ℕ
  pub name : String
  pub slug : Text
  pub status : String
  pub origin : String
  pub sha : String
  pub frontmatter : Fields
  pub body : String
  pub updated_at : ℕ

-- (updated_at, id) > (ts, id'), in row order
abbrev pub after : ℤ → ℤ → ℕ → ℕ → Bool
after ts id' updated_at id =
    ltz ts (pos updated_at) || (eqz ts (pos updated_at) && ltz id' (pos id))

abbrev pub by_update : Skill → Skill → Bool
by_update a b = ltb a.updated_at b.updated_at || (eqb a.updated_at b.updated_at && leb a.id b.id)

row_with : Skill → Option Version → SyncRow
row_with s none = record {
  id = s.id;
  name = s.name;
  slug = s.slug;
  status = s.status;
  origin = s.origin;
  sha = "";
  frontmatter = end;
  body = "";
  updated_at = s.updated_at;
}
row_with s (some v) = record {
  id = s.id;
  name = s.name;
  slug = s.slug;
  status = s.status;
  origin = s.origin;
  sha = v.sha;
  frontmatter = v.frontmatter;
  body = v.body;
  updated_at = s.updated_at;
}

unfoldable pub sync_row : Db → Skill → SyncRow
unfolding row_with current_version
sync_row db s = row_with s (current_version db s)

abbrev pub changed : String → ℤ → ℤ → Skill → Bool
changed profile ts id s = s.profile == profile && after ts id s.updated_at s.id

unfoldable pub sync_feed : String → ℤ → ℤ → ℤ → Db → List SyncRow
unfolding sync_row page_size
sync_feed profile ts id limit db =
    map (sync_row db)
      (take (page_size limit) (sort_by by_update (select (changed profile ts id) db.skills)))
