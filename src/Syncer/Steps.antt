-- ===== src/Syncer/Steps.antt =====
-- `materialize`, `remove` and `writeAtomic` of internal/syncer/syncer.go.
use phantom_skills.Prelude.{
  ℕ, suc, String, Bool, true, false, Option, none, some, List, [], ◌∷◌, ◌++◌, ◌==◌, if◌then◌else◌,
  codes,
}
use phantom_skills.Text.{Text, Unicode, is_empty}
use phantom_skills.Skillfile.Values.{Fields}
use phantom_skills.Skillfile.Slug.{slugify}
use phantom_skills.Skillfile.Codec.{Yaml, Marker, render, parse, marker_of}
use phantom_skills.Syncer.Disk.{
  FilePath, Disk, Faults, making_dir, writing, renaming, removing, join, erase, put, erase_tree,
  Read, missing, unreadable, contents, read_file,
}

-- `client.SyncSkill`
pub record SyncSkill : Type 0 where
  pub name : String
  pub slug : Text
  pub status : String
  pub origin : String
  pub sha : String
  pub frontmatter : Fields
  pub body : String

-- `Syncer`, and the file system's failures. The daemon is an argument of the run.
pub record Syncer : Type 0 where
  pub skills_dir : FilePath
  pub state_dir : FilePath
  pub yaml : Yaml
  pub unicode : Unicode
  pub fails : Faults

-- `Result`
pub record Report : Type 0 where
  pub written : ℕ
  pub up_to_date : ℕ
  pub deleted : ℕ
  pub skipped_unmanaged : ℕ
  pub cursor : Text
  pub changes : List Text

pub record World : Type 0 where
  pub disk : Disk
  pub report : Report

pub data Fault : Type 0 where
  stat_failed : FilePath → Fault
  render_failed : Fault
  mkdir_failed : FilePath → Fault
  write_failed : FilePath → Fault
  rename_failed : FilePath → Fault
  remove_failed : FilePath → Fault
  request_failed : Fault

-- The result so far is returned beside an error.
pub data Outcome : Type 0 where
  ok : World → Outcome
  err : Fault → World → Outcome

abbrev pub world_of : Outcome → World
world_of (ok w) = w
world_of (err f w) = w

abbrev pub and_then : Outcome → (World → Outcome) → Outcome
and_then (ok w) k = k w
and_then (err f w) k = err f w

abbrev pub skill_md : Text
skill_md = codes "SKILL.md"

abbrev pub temporary : Text → Text
temporary name = name ++ codes ".tmp"

-- A call that fails leaves the disk as it was.
unfoldable pub write_atomic : Faults → FilePath → Text → Text → World → Outcome
unfolding put erase
write_atomic fails dir name content w =
    let tmp : FilePath = dir ++ temporary name ∷ [] in
    let path : FilePath = dir ++ name ∷ [] in
    elim (fails writing tmp) [
      | true ↦ err (write_failed tmp) w
      | false ↦ elim (fails renaming path) [
        | true ↦ err (rename_failed path) (record w { disk = put tmp content w.disk })
        | false ↦ ok (record w { disk = put path content (erase tmp (put tmp content w.disk)) })
      ]
    ]

-- What is to be done about a SKILL.md that is there.
pub data Verdict : Type 0 where
  replace : Verdict
  unmanaged : Verdict
  current : Verdict

abbrev judge : String → Option Marker → Verdict
judge sha none = unmanaged
judge sha (some m) = if m.sha == sha then current else replace

-- A file whose frontmatter does not parse is replaced.
unfoldable pub verdict : Yaml → String → Text → Verdict
unfolding parse marker_of
verdict y sha content = elim (parse y content) [
  | none ↦ replace
  | some (frontmatter, body) ↦ judge sha (marker_of frontmatter)
]

abbrev pub skipped : World → World
skipped w = record w {
  report = record w.report { skipped_unmanaged = suc w.report.skipped_unmanaged };
}

abbrev pub left_current : World → World
left_current w = record w { report = record w.report { up_to_date = suc w.report.up_to_date } }

abbrev pub count_written : World → World
count_written w = record w { report = record w.report { written = suc w.report.written } }

abbrev pub count_deleted : World → World
count_deleted w = record w { report = record w.report { deleted = suc w.report.deleted } }

abbrev pub announce : Text → World → World
announce s w = record w { report = record w.report { changes = w.report.changes ++ s ∷ [] } }

unfoldable pub slug_of : Unicode → SyncSkill → Text
unfolding slugify
slug_of u sk = if is_empty sk.slug then slugify u (codes sk.name) else sk.slug

unfoldable pub write_skill : Syncer → SyncSkill → Bool → World → Outcome
unfolding render slug_of join write_atomic
write_skill s sk dry_run w =
    let slug : Text = slug_of s.unicode sk in
    let dir : FilePath = join s.skills_dir slug in
    elim (render s.yaml sk.frontmatter sk.body
      (record { origin = sk.origin; status = sk.status; sha = sk.sha })) [
        | none ↦ err render_failed w
        | some content ↦ elim dry_run [
          | true ↦ ok (count_written (announce (codes "write " ++ slug) w))
          | false ↦ elim (s.fails making_dir dir) [
            | true ↦ err (mkdir_failed dir) w
            | false ↦
                and_then (write_atomic s.fails dir skill_md content w) (λ v. ok (count_written v))
          ]
        ]
      ]

unfoldable pub settle : Syncer → SyncSkill → Bool → World → Verdict → Outcome
unfolding write_skill
settle s sk dry_run w unmanaged = ok (skipped w)
settle s sk dry_run w current = ok (left_current w)
settle s sk dry_run w replace = write_skill s sk dry_run w

unfoldable pub materialize_read : Syncer → SyncSkill → Bool → World → FilePath → Read → Outcome
unfolding verdict settle write_skill
materialize_read s sk dry_run w path unreadable = err (stat_failed path) w
materialize_read s sk dry_run w path missing = write_skill s sk dry_run w
materialize_read s sk dry_run w path (contents content) =
    settle s sk dry_run w (verdict s.yaml sk.sha content)

unfoldable pub materialize : Syncer → SyncSkill → Bool → World → Outcome
unfolding read_file materialize_read join slug_of
materialize s sk dry_run w =
    let path : FilePath = join s.skills_dir (slug_of s.unicode sk) ++ skill_md ∷ [] in
    materialize_read s sk dry_run w path (read_file s.fails path w.disk)

-- Whether the file parses, and bears the marker.
pub data Owner : Type 0 where
  unknown : Owner
  author : Owner
  syncer : Owner

unfoldable pub owner : Yaml → Text → Owner
unfolding parse marker_of
owner y content = elim (parse y content) [
  | none ↦ unknown
  | some (frontmatter, body) ↦ elim (marker_of frontmatter) [ none ↦ author | some m ↦ syncer ]
]

unfoldable pub delete_skill : Syncer → Text → Bool → World → Outcome
unfolding join erase_tree
delete_skill s slug dry_run w =
    let dir : FilePath = join s.skills_dir slug in
    elim dry_run [
      | true ↦ ok (count_deleted (announce (codes "delete " ++ slug) w))
      | false ↦ elim (s.fails removing dir) [
        | true ↦ err (remove_failed dir) w
        | false ↦ ok (count_deleted (record w { disk = erase_tree dir w.disk }))
      ]
    ]

unfoldable pub remove_owned : Syncer → Text → Bool → World → Owner → Outcome
unfolding delete_skill
remove_owned s slug dry_run w unknown = ok w
remove_owned s slug dry_run w author = ok (skipped w)
remove_owned s slug dry_run w syncer = delete_skill s slug dry_run w

unfoldable pub remove_read : Syncer → Text → Bool → World → FilePath → Read → Outcome
unfolding owner remove_owned
remove_read s slug dry_run w path missing = ok w
remove_read s slug dry_run w path unreadable = err (stat_failed path) w
remove_read s slug dry_run w path (contents content) =
    remove_owned s slug dry_run w (owner s.yaml content)

unfoldable pub remove : Syncer → String → Bool → World → Outcome
unfolding read_file remove_read slugify join
remove s name dry_run w =
    let slug : Text = slugify s.unicode (codes name) in
    let path : FilePath = join s.skills_dir slug ++ skill_md ∷ [] in
    remove_read s slug dry_run w path (read_file s.fails path w.disk)
