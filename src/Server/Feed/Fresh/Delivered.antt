-- ===== src/Server/Feed/Fresh/Delivered.antt =====
-- A promoted version reaches the agent's disk.
use phantom_skills.Prelude.{
  ℕ, suc, ◌<◌, ◌≡◌, refl, String, false, some, All, Elem, length, arith, ℤ,
}
use phantom_skills.Prelude.Keys.{Distinct}
use phantom_skills.Text.{Text}
use phantom_skills.Store.Tables.{Db}
use phantom_skills.Store.Queries.{SyncRow}
use phantom_skills.Store.Valid.{same_skill_id}
use phantom_skills.Server.Cursor.{decode_cursor}
use phantom_skills.Server.Feed.{sync_skill, handle_sync}
use phantom_skills.Server.Feed.Paging.{feed_rows}
use phantom_skills.Server.Feed.Agent.{feed_daemon, Fits, rows_left, rows_left-bound, feed-Advances}
use phantom_skills.Server.Feed.Fresh.{RowTolerates}
use phantom_skills.Server.Feed.Fresh.Runs.{sync-Fresh}
use phantom_skills.Syncer.Disk.{Disk, reading}
use phantom_skills.Syncer.Steps.{Syncer, World, ok}
use phantom_skills.Syncer.Run.{Options, sync}
use phantom_skills.Syncer.Kept.{file_of, home}
use phantom_skills.Syncer.Effects.{start}
use phantom_skills.Syncer.Fresh.{Fresh, Same}
use phantom_skills.Syncer.Faultless.{Faultless, sync-EndsWell}

module _ (profile : String) (page : ℤ) (db : Db) (distinct : Distinct same_skill_id db.skills)
    (fits : All Fits db.skills) (s : Syncer) (fine : Faultless s) where
  -- Where no call on the file system fails and every frontmatter can be written as YAML, a run of the
  -- agent against the daemon that is no dry run ends without an error, and then each version that the
  -- feed promotes behind the cursor on the disk stands in its directory, with the marker that bears
  -- its hash, or a hand-authored SKILL.md does. It is asked that the ids of skills differ and times
  -- and ids are 64-bit, that the YAML package reads that version's frontmatter back as it wrote it,
  -- and that the other rows of the feed are for other directories.
  pub sync-delivers :
      (d : Text) (sha : String) (r : SyncRow) (fuel : ℕ) (opts : Options) (disk : Disk)
      → r.status ≡ "promoted"
      → Same s d sha (sync_skill r)
      → opts.dry_run ≡ false
      → suc (length db.skills) < fuel
      → All (RowTolerates s d sha) (feed_rows profile db (decode_cursor (start s opts disk)))
      → Elem r (feed_rows profile db (decode_cursor (start s opts disk)))
      → (v : World) × (sync fuel s (feed_daemon profile page db) opts disk ≡ some (ok v))
        × Fresh s d sha v.disk
  sync-delivers d sha r fuel opts disk promoted same wet enough tolerated here =
      let (v, e) =
        sync-EndsWell s fine (rows_left profile db) (feed_daemon profile page db)
          (feed-Advances profile page db distinct fits)
          (λ n cursor. (handle_sync profile page db cursor, refl)) fuel opts disk wet
          (omega (arith, enough, rows_left-bound profile db (start s opts disk))) in
      (
        v,
        e,
        sync-Fresh profile page db distinct fits s d sha (fine.calm reading (file_of (home s d))) r
            promoted same fuel opts disk v wet tolerated here e,
      )
