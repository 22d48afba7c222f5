-- ===== src/Server/Feed/Agent.antt =====
-- The agent's loop over the daemon's feed comes to an end.
use phantom_skills.Prelude.{
  ℕ, suc, ◌+◌, ◌≤◌, ◌<◌, ◌≡◌, refl, ap, sym, subst, String, false, some, List, [], ◌∷◌, map, select,
  take, length, length-append, length-map, length-select-le, All, All-take, All-select,
  if◌then◌else◌, arith, ℤ,
}
use phantom_skills.Prelude.Keys.{Distinct}
use phantom_skills.Prelude.Order.{sort_by, length-sort_by, All-sort_by}
use phantom_skills.Text.{Text, text_eq}
use phantom_skills.Text.Laws.{text_eq_refl}
use phantom_skills.Text.Decimal.{max_int64}
use phantom_skills.Store.Tables.{Skill, Db}
use phantom_skills.Store.Queries.{SyncRow, by_update, changed, sync_row, page_size}
use phantom_skills.Store.Valid.{same_skill_id}
use phantom_skills.Server.Cursor.{
  Position, encode_cursor, decode_cursor, InRange, decode-encode, decode_cursor-InRange,
}
use phantom_skills.Server.Feed.{row_position, last_position, page_rows, handle_sync}
use phantom_skills.Server.Feed.Paging.{
  pending, feed_rows, feed_page, page_rows-pending, row_position-sync_row,
}
use phantom_skills.Syncer.Disk.{Disk}
use phantom_skills.Syncer.Steps.{Syncer, Outcome}
use phantom_skills.Syncer.Run.{Daemon, Options, caught_up, sync}
use phantom_skills.Syncer.Effects.{Advances, start, sync-ends}

-- The daemon that serves the feed of one registry.
abbrev pub feed_daemon : String → ℤ → Db → Daemon
feed_daemon profile page db n cursor = some (handle_sync profile page db cursor)

-- The times and the ids are those of 64-bit columns.
abbrev pub Fits : Skill → Type 0
Fits s = (s.updated_at ≤ max_int64) × (s.id ≤ max_int64)

-- The rows that are left, and one more for a cursor that the daemon would not have written.
unfoldable pub rows_left : String → Db → Text → ℕ
unfolding feed_rows decode_cursor encode_cursor text_eq
rows_left profile db cursor =
    length (feed_rows profile db (decode_cursor cursor))
    + (if text_eq (encode_cursor (decode_cursor cursor)) cursor then 0 else 1)

last_position-InRange :
    (p : Position) (rs : List SyncRow)
    → InRange p
    → All (λ r. InRange (row_position r)) rs
    → InRange (last_position p rs)
last_position-InRange p [] h a = h
last_position-InRange p (r ∷ rs) h a = last_position-InRange (row_position r) rs a.0 a.1

rows-InRange :
    (db : Db) (ss : List Skill)
    → All Fits ss
    → All (λ r. InRange (row_position r)) (map (sync_row db) ss)
rows-InRange db [] a = tt
rows-InRange db (s ∷ ss) a =
    (subst InRange (sym (row_position-sync_row db s)) a.0, rows-InRange db ss a.1)

module _ (profile : String) (page : ℤ) (db : Db) (distinct : Distinct same_skill_id db.skills)
    (fits : All Fits db.skills) where
  page_rows-InRange :
      (p : Position) → All (λ r. InRange (row_position r)) (page_rows profile page db p)
  unfolding pending
  page_rows-InRange p = rw (page_rows-pending profile page db distinct p) (
      rows-InRange db (take (page_size page) (pending profile db p)) (
        All-take Fits (page_size page) (pending profile db p) (
          All-sort_by by_update Fits (select (changed profile p.ts p.id) db.skills)
            (All-select Fits (changed profile p.ts p.id) db.skills fits))))

  abbrev pub next_position : Text → Position
  next_position cursor =
      last_position (decode_cursor cursor) (page_rows profile page db (decode_cursor cursor))

  pub next-InRange : (cursor : Text) → InRange (next_position cursor)
  next-InRange cursor =
      last_position-InRange (decode_cursor cursor) _ (decode_cursor-InRange cursor)
        (page_rows-InRange (decode_cursor cursor))

  rows_left-next :
      (cursor : Text)
      → rows_left profile db (encode_cursor (next_position cursor))
        ≡ length (feed_rows profile db (next_position cursor))
  unfolding rows_left
  rows_left-next cursor =
      let back : decode_cursor (encode_cursor (next_position cursor)) ≡ next_position cursor =
        decode-encode (next_position cursor) (next-InRange cursor) in
      rw (back, text_eq_refl (encode_cursor (next_position cursor))) (omega arith)

  -- Behind the page are fewer rows, where the page has one.
  fewer :
      (p : Position)
      → 0 < length (page_rows profile page db p)
      → length (feed_rows profile db (last_position p (page_rows profile page db p)))
        < length (feed_rows profile db p)
  fewer p h =
      let split = ap length (feed_page profile page db distinct p).0 in
      omega (
        arith,
        split,
        h,
        length-append (page_rows profile page db p)
            (feed_rows profile db (last_position p (page_rows profile page db p))),
      )

  rows_left-above :
      (cursor : Text)
      → length (feed_rows profile db (decode_cursor cursor)) ≤ rows_left profile db cursor
  unfolding rows_left
  rows_left-above cursor = omega arith

  -- An agent that is not at the end of the feed gets nearer to it.
  advances :
      (cursor : Text) (rows : List SyncRow)
      → page_rows profile page db (decode_cursor cursor) ≡ rows
      → text_eq (encode_cursor (last_position (decode_cursor cursor) rows)) cursor ≡ false
      → length (feed_rows profile db (last_position (decode_cursor cursor) rows))
        < rows_left profile db cursor
  unfolding rows_left
  advances cursor [] e h = rw (h, rows_left) (omega arith)
  advances cursor (r ∷ rs) e h =
      let p : Position = decode_cursor cursor in
      let less =
        subst
          (λ l.
            0 < length l
            → length (feed_rows profile db (last_position p l)) < length (feed_rows profile db p))
          e (fewer p) in
      omega (arith, less (omega arith), rows_left-above cursor)

  pub feed-Advances : Advances (rows_left profile db) (feed_daemon profile page db)
  unfolding handle_sync caught_up
  feed-Advances n cursor resp e more =
      let same : handle_sync profile page db cursor ≡ resp = cc in
      let more_left : caught_up cursor (handle_sync profile page db cursor) ≡ false =
        subst (λ r. caught_up cursor r ≡ false) (sym same) more in
      subst (λ r. rows_left profile db r.cursor < rows_left profile db cursor) same
        (subst (λ k. k < rows_left profile db cursor) (sym (rows_left-next cursor))
          (advances cursor (page_rows profile page db (decode_cursor cursor)) refl
            (ground (arith, more_left))))

-- The rank is bounded by the number of skills.
pub rows_left-bound :
    (profile : String) (db : Db) (cursor : Text)
    → rows_left profile db cursor ≤ suc (length db.skills)
unfolding rows_left feed_rows pending
rows_left-bound profile db cursor =
    let p : Position = decode_cursor cursor in
    let found : List Skill = select (changed profile p.ts p.id) db.skills in
    ground (
      arith,
      length-map (sync_row db) (sort_by by_update found),
      length-sort_by by_update found,
      length-select-le (changed profile p.ts p.id) db.skills,
    )

-- A sync run of the agent against the daemon comes to an end, whatever the cursor on disk, the size of
-- the pages and the state of the disk: it asks for at most two pages more than the registry has skills.
-- It is asked that no two skills have the same id, and that times and ids are 64-bit.
pub sync-feed_daemon_ends :
    (s : Syncer) (profile : String) (page : ℤ) (db : Db) (fuel : ℕ) (opts : Options) (disk : Disk)
    → Distinct same_skill_id db.skills
    → All Fits db.skills
    → suc (length db.skills) < fuel
    → (o : Outcome) × (sync fuel s (feed_daemon profile page db) opts disk ≡ some o)
sync-feed_daemon_ends s profile page db fuel opts disk distinct fits enough =
    sync-ends s (rows_left profile db) (feed_daemon profile page db)
      (feed-Advances profile page db distinct fits) fuel opts disk
      (omega (arith, enough, rows_left-bound profile db (start s opts disk)))
