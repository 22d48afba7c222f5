-- ===== src/Server/Feed.antt =====
-- `handleSync` of internal/server/handlers_sync.go, for a scope that is authenticated and a daemon
-- with a store.
pub mod Paging
pub mod Agent
pub mod Fresh
use phantom_skills.Prelude.{String, List, [], ◌∷◌, ◌==◌, if◌then◌else◌, ℤ, pos}
use phantom_skills.Text.{Text}
use phantom_skills.Store.Tables.{Db}
use phantom_skills.Store.Queries.{SyncRow, sync_feed}
use phantom_skills.Server.Cursor.{Position, encode_cursor, decode_cursor}
use phantom_skills.Syncer.Steps.{SyncSkill}
use phantom_skills.Syncer.Run.{SyncResponse}

abbrev pub sync_skill : SyncRow → SyncSkill
sync_skill r = record {
  name = r.name;
  slug = r.slug;
  status = r.status;
  origin = r.origin;
  sha = r.sha;
  frontmatter = r.frontmatter;
  body = r.body;
}

-- The `switch` on the status; a row of any other status only moves the cursor.
unfoldable pub promoted_rows : List SyncRow → List SyncSkill
promoted_rows [] = []
promoted_rows (r ∷ rs) =
    if r.status == "promoted" then sync_skill r ∷ promoted_rows rs else promoted_rows rs

unfoldable pub retired_rows : List SyncRow → List String
retired_rows [] = []
retired_rows (r ∷ rs) = if r.status == "retired" then r.name ∷ retired_rows rs else retired_rows rs

abbrev pub row_position : SyncRow → Position
row_position r = record { ts = pos r.updated_at; id = pos r.id }

-- The cursor is that of the last row, or the one that was read.
abbrev pub last_position : Position → List SyncRow → Position
last_position p [] = p
last_position p (r ∷ rs) = last_position (row_position r) rs

abbrev pub page_rows : String → ℤ → Db → Position → List SyncRow
page_rows profile page db p = sync_feed profile p.ts p.id page db

-- The reply, from the position that was read and the rows behind it.
abbrev pub feed_reply : Position → List SyncRow → SyncResponse
feed_reply p rows = record {
  skills = promoted_rows rows;
  deletes = retired_rows rows;
  cursor = encode_cursor (last_position p rows);
}

unfoldable pub handle_sync : String → ℤ → Db → Text → SyncResponse
unfolding decode_cursor encode_cursor promoted_rows retired_rows sync_feed
handle_sync profile page db since =
    let p : Position = decode_cursor since in feed_reply p (page_rows profile page db p)
