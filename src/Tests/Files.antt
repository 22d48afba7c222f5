-- ===== src/Tests/Files.antt =====
-- The codec and the syncer at concrete inputs.
use phantom_skills.Prelude.{
  ℕ, ◌<◌, ◌&&◌, ◌+◌, ◌≡◌, ◌⊎◌, refl, Bool, true, false, Option, none, some, [], ◌∷◌, ◌++◌, leb,
  if◌then◌else◌, codes, arith,
}
use phantom_skills.Text.{Text, Unicode, text_eq, trim_space, split_at, trim_right}
use phantom_skills.Skillfile.Values.{Fields, end, field, str}
use phantom_skills.Skillfile.Slug.{slugify}
use phantom_skills.Skillfile.Slug.{is_hyphen}
use phantom_skills.Skillfile.Slug.Shape.{IsSlug, begins, slugify-shape}
use mathlib.Core.List.{reverse}
use phantom_skills.Skillfile.Codec.{Yaml, parse, render, marked, marker_of, is_newline, newline}
use phantom_skills.Skillfile.Codec.Trip.{parse-render}
use phantom_skills.Syncer.Disk.{FilePath, Disk, content_at}
use phantom_skills.Syncer.Steps.{
  Syncer, SyncSkill, World, Outcome, ok, err, request_failed, world_of, materialize, skipped,
  left_current, owner, author,
}
use phantom_skills.Syncer.Run.{SyncResponse, Daemon, sync}
use phantom_skills.Syncer.Kept.{Stands, home}
use phantom_skills.Syncer.Kept.Whole.{Named, sync-keeps}
use phantom_skills.Syncer.Effects.{sync-dry_run}
use phantom_skills.Syncer.Again.{marker_for, materialize_again}

abbrev ascii_lower : ℕ → ℕ
ascii_lower c = if leb 65 c then (if leb c 90 then c + 32 else c) else c

pub lower_ascii : (c : ℕ) → c < 128 → ascii_lower c ≡ (if leb 65 c && leb c 90 then c + 32 else c)
lower_ascii c h = ground arith

abbrev unicode : Unicode
unicode = record { to_lower = ascii_lower; to_lower_ascii = lower_ascii }

abbrev pub lint : SyncSkill
lint = record {
  name = "lint";
  slug = codes "lint";
  status = "promoted";
  origin = "authored";
  sha = "3f";
  frontmatter = field "name" (str "lint") end;
  body = "Run the linter.\n";
}

abbrev pub written : Fields
written = marked lint.frontmatter (marker_for lint)

abbrev pub block : Text
block = codes "name: lint"

-- A YAML package that knows one map.
abbrev pub yaml : Yaml
yaml = record {
  marshal = λ fs. some (block ++ newline ∷ []);
  unmarshal = λ s. if text_eq s block then some written else none;
}

abbrev skills_dir : FilePath
skills_dir = codes "skills" ∷ []

abbrev pub agent : Syncer
agent = record {
  skills_dir = skills_dir;
  state_dir = codes "state" ∷ [];
  yaml = yaml;
  unicode = unicode;
  fails = λ call path. false;
}

abbrev note : Text
note = codes "# Mine\n"

-- A hand-authored skill that has the name of one of the feed.
abbrev pub disk : Disk
disk = record { path = home agent (codes "lint") ++ codes "SKILL.md" ∷ []; content = note } ∷ []

abbrev page : SyncResponse
page = record { skills = lint ∷ []; deletes = "Lint" ∷ []; cursor = codes "7" }

abbrev daemon : Daemon
daemon n cursor = some page

abbrev run : Bool → Option Outcome
run dry_run = sync 3 agent daemon (record { dry_run = dry_run; reset = false }) disk

abbrev outcome : Bool → Outcome
outcome dry_run = elim (run dry_run) [
  | none ↦ err request_failed (record {
    disk = [];
    report = record {
      written = 0;
      up_to_date = 0;
      deleted = 0;
      skipped_unmanaged = 0;
      cursor = [];
      changes = [];
    };
  })
  | some o ↦ o
]

ran : run false ≡ some (outcome false)
unfolding sync
ran = refl

ran_dry : run true ≡ some (outcome true)
unfolding sync
ran_dry = refl

page-Named : Named agent daemon
unfolding slugify
page-Named n cursor resp e =
    let same : page ≡ resp = cc in
    rw (← same)
      ((λ f. let wrong : ◌≡◌ {A = Text} (codes "lint") [] = f in absurd (ground arith)), tt)

note_unmarked : owner yaml note ≡ author
unfolding owner
note_unmarked = refl

sync-keeps_example : Stands (home agent (codes "lint")) note (world_of (outcome false)).disk
unfolding content_at
sync-keeps_example =
    sync-keeps agent (codes "lint") note note_unmarked daemon page-Named 3
      (record { dry_run = false; reset = false }) disk (outcome false) refl ran

sync-dry_run_example : (world_of (outcome true)).disk ≡ disk
sync-dry_run_example =
    sync-dry_run agent daemon 3 (record { dry_run = true; reset = false }) disk (outcome true) refl
      ran_dry

parse-render_example :
    (text : Text) × (render yaml lint.frontmatter lint.body (marker_for lint) ≡ some text)
    × (parse yaml text ≡ some (written, trim_right is_newline (codes lint.body) ++ newline ∷ []))
    × (marker_of written ≡ some (marker_for lint))
unfolding trim_space split_at text_eq
parse-render_example =
    parse-render yaml lint.frontmatter lint.body (marker_for lint) block refl refl refl refl

abbrev before : World
before = record {
  disk = [];
  report = record {
    written = 0;
    up_to_date = 0;
    deleted = 0;
    skipped_unmanaged = 0;
    cursor = [];
    changes = [];
  };
}

abbrev after : World
after = world_of (materialize agent lint false before)

materialized : materialize agent lint false before ≡ ok after
unfolding materialize
materialized = refl

materialize_again_example :
    (after ≡ skipped before)
    ⊎ ((dry_run : Bool) → materialize agent lint dry_run after ≡ ok (left_current after))
unfolding trim_space split_at text_eq
materialize_again_example =
    materialize_again agent lint block refl refl refl refl refl before after materialized

slug_of_name : slugify unicode (codes " -Lint_ It!") ≡ codes "lint-it"
unfolding slugify
slug_of_name = refl

slugify-shape_example :
    IsSlug (slugify unicode (codes " -Lint_ It!"))
    × (begins is_hyphen (slugify unicode (codes " -Lint_ It!")) ≡ false)
    × (begins is_hyphen (reverse (slugify unicode (codes " -Lint_ It!"))) ≡ false)
slugify-shape_example = slugify-shape unicode (codes " -Lint_ It!")
