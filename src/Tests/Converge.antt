-- ===== src/Tests/Converge.antt =====
-- A run of the agent against the daemon at a concrete input.
use phantom_skills.Prelude.{
  ◌≡◌, refl, inl, inr, true, false, Option, none, some, [], ◌∷◌, ◌++◌, arith, codes, pos, All,
}
use phantom_skills.Text.{Text, text_eq, trim_space, split_at}
use phantom_skills.Skillfile.Values.{field, str, end}
use phantom_skills.Skillfile.Slug.{slugify}
use phantom_skills.Skillfile.Slug.Shape.{is_slug_char}
use phantom_skills.Store.Tables.{Skill, Version, Db, empty_db}
use phantom_skills.Store.Queries.{SyncRow, sync_feed}
use phantom_skills.Server.Cursor.{decode_cursor, encode_cursor}
use phantom_skills.Server.Feed.{handle_sync}
use phantom_skills.Server.Feed.Paging.{feed_rows}
use phantom_skills.Server.Feed.Agent.{feed_daemon}
use phantom_skills.Server.Feed.Fresh.{RowTolerates}
use phantom_skills.Server.Feed.Fresh.Runs.{sync-Fresh}
use phantom_skills.Server.Feed.Fresh.Delivered.{sync-delivers}
use phantom_skills.Syncer.Faultless.{Faultless}
use phantom_skills.Skillfile.Codec.{newline}
use phantom_skills.Syncer.Disk.{join}
use phantom_skills.Syncer.Steps.{Outcome, World, ok, slug_of}
use phantom_skills.Syncer.Run.{sync, load_cursor, Options}
use phantom_skills.Syncer.Fresh.{Fresh, Beside, Same, Printable}
use phantom_skills.Tests.Files.{agent, block, lint}

abbrev version : Version
version = record {
  id = 1;
  skill_id = 1;
  version = 1;
  sha = "3f";
  frontmatter = field "name" (str "lint") end;
  body = "Run the linter.\n";
  author = "me";
  source = "cli";
  created_at = 10;
  row_ulid = some "01";
}

abbrev promoted : Skill
promoted = record {
  id = 1;
  profile = "personal";
  name = "lint";
  slug = codes "lint";
  status = "promoted";
  origin = "authored";
  tags = [];
  current = some 1;
  created_at = 10;
  updated_at = 30;
}

abbrev gone : Skill
gone = record promoted {
  id = 2;
  name = "test";
  slug = codes "test";
  status = "retired";
  current = none;
  updated_at = 20;
}

abbrev registry : Db
registry = record empty_db {
  skills = promoted ∷ gone ∷ [];
  versions = version ∷ [];
  next_skill = 3;
  next_version = 2;
}

program : Unit {0}
unfolding sync load_cursor handle_sync feed_rows sync_feed decode_cursor encode_cursor is_slug_char
    slugify text_eq trim_space split_at join slug_of
program = tt

abbrev opts : Options
opts = record { dry_run = false; reset = true }

abbrev outcome : Option Outcome
outcome = sync 4 agent (feed_daemon "personal" (pos 1) registry) opts []

abbrev world : Option Outcome → World
world (some (ok w)) = w
world _ = record {
  disk = [];
  report = record {
    written = 0;
    up_to_date = 0;
    deleted = 0;
    skipped_unmanaged = 0;
    cursor = [];
    changes = [];
  };
}

ended_well : outcome ≡ some (ok (world outcome))
unfolding program
ended_well = refl

test-Beside : Beside (codes "lint") (codes "test")
unfolding program
test-Beside = record {
  shape = (refl, (refl, (refl, (refl, tt))));
  filled = λ e. let wrong : ◌≡◌ {A = Text} (codes "test") [] = e in absurd (ground arith);
  other = refl;
}

lint-Printable : Printable agent lint
unfolding program
lint-Printable = record {
  block = block;
  written = refl;
  nonblank = refl;
  clear = refl;
  read = refl;
}

lint-Same : Same agent (codes "lint") "3f" lint
unfolding program
lint-Same = record { place = refl; version = refl; printable = lint-Printable }

abbrev row : SyncRow
row = record {
  id = 1;
  name = "lint";
  slug = codes "lint";
  status = "promoted";
  origin = "authored";
  sha = "3f";
  frontmatter = field "name" (str "lint") end;
  body = "Run the linter.\n";
  updated_at = 30;
}

rows_tolerated :
    All (RowTolerates agent (codes "lint") "3f") (feed_rows "personal" registry (decode_cursor []))
unfolding program
rows_tolerated = (inl (test-Beside, test-Beside), (inr (refl, lint-Same), tt))

sync-Fresh_example : Fresh agent (codes "lint") "3f" (world outcome).disk
unfolding program
sync-Fresh_example =
    sync-Fresh "personal" (pos 1) registry ((refl, tt), (tt, tt))
      ((omega arith, omega arith), ((omega arith, omega arith), tt)) agent (codes "lint") "3f" refl
      row refl lint-Same 4 opts [] (world outcome) refl rows_tolerated (inr (inl refl)) ended_well

agent_fine : Faultless agent
agent_fine = record { calm = λ call path. refl; marshals = λ fs. (block ++ newline ∷ [], refl) }

sync-delivers_example :
    (v : World) × (sync 4 agent (feed_daemon "personal" (pos 1) registry) opts [] ≡ some (ok v))
    × Fresh agent (codes "lint") "3f" v.disk
unfolding program
sync-delivers_example =
    sync-delivers "personal" (pos 1) registry ((refl, tt), (tt, tt))
      ((omega arith, omega arith), ((omega arith, omega arith), tt)) agent agent_fine (codes "lint")
      "3f" row 4 opts [] refl lint-Same refl (omega arith) rows_tolerated (inr (inl refl))
