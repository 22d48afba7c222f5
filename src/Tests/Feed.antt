-- ===== src/Tests/Feed.antt =====
-- The feed and its cursor at concrete inputs.
use phantom_skills.Prelude.{
  ℕ, ◌++◌, ◌≡◌, refl, String, some, none, true, false, [], ◌∷◌, arith, codes, length, min, pos,
}
use phantom_skills.Text.{Text}
use phantom_skills.Store.Tables.{Skill, Db, empty_db}
use phantom_skills.Store.Queries.{page_size, sync_feed}
use phantom_skills.Server.Cursor.{Position, encode_cursor, decode_cursor, decode-encode}
use phantom_skills.Server.Feed.{last_position, page_rows}
use phantom_skills.Server.Feed.Paging.{feed_rows, feed_page}
use phantom_skills.Server.Feed.Agent.{feed_daemon, sync-feed_daemon_ends}
use phantom_skills.Syncer.Steps.{Outcome}
use phantom_skills.Syncer.Run.{sync}
use phantom_skills.Tests.Files.{agent, disk}

abbrev cursor_here : Position
cursor_here = record { ts = pos 1700; id = pos 2 }

written_cursor : encode_cursor cursor_here ≡ codes "1700.2"
unfolding encode_cursor
written_cursor = refl

-- A cursor that is malformed is the start of the feed.
unread_cursor : decode_cursor (codes "17x0.2") ≡ record { ts = pos 0; id = pos 0 }
unfolding decode_cursor
unread_cursor = refl

decode-encode_example : decode_cursor (encode_cursor cursor_here) ≡ cursor_here
decode-encode_example = decode-encode cursor_here (omega arith, omega arith)

abbrev skill : ℕ → String → Text → String → ℕ → Skill
skill id name slug status updated_at = record {
  id = id;
  profile = "personal";
  name = name;
  slug = slug;
  status = status;
  origin = "authored";
  tags = [];
  current = none;
  created_at = 10;
  updated_at = updated_at;
}

-- Three skills, two of which changed at the same time.
abbrev registry : Db
registry = record empty_db {
  skills =
      skill 1 "lint" (codes "lint") "promoted" 30
      ∷ skill 2 "test" (codes "test") "retired" 20
      ∷ skill 3 "ship" (codes "ship") "promoted" 30
      ∷ [];
  next_skill = 4;
}

abbrev cursor_before : Position
cursor_before = record { ts = pos 20; id = pos 1 }

first_page : length (page_rows "personal" (pos 2) registry (record { ts = pos 0; id = pos 0 })) ≡ 2
unfolding sync_feed
first_page = refl

feed_page_example :
    (page_rows "personal" (pos 2) registry cursor_before
        ++ feed_rows "personal" registry
            (last_position cursor_before (page_rows "personal" (pos 2) registry cursor_before))
      ≡ feed_rows "personal" registry cursor_before)
    × (length (page_rows "personal" (pos 2) registry cursor_before)
        ≡ min (page_size (pos 2)) (length (feed_rows "personal" registry cursor_before)))
feed_page_example =
    feed_page "personal" (pos 2) registry ((refl, (refl, tt)), ((refl, tt), (tt, tt))) cursor_before

sync-feed_daemon_ends_example :
    (o : Outcome) × (sync 5 agent
        (feed_daemon "personal" (pos 2) registry)
        (record { dry_run = false; reset = true })
        disk
      ≡ some o)
sync-feed_daemon_ends_example =
    sync-feed_daemon_ends agent "personal" (pos 2) registry 5
      (record { dry_run = false; reset = true }) disk ((refl, (refl, tt)), ((refl, tt), (tt, tt)))
      ((omega arith, omega arith), ((omega arith, omega arith), ((omega arith, omega arith), tt)))
      (omega arith)
