-- ===== src/Server/Feed/Fresh/Runs.antt =====
-- A whole run of the agent: every version that the feed promotes is on the disk.
use phantom_skills.Prelude.{
  ◌⊎◌, ℕ, zero, suc, ◌≡◌, refl, sym, ap, ◌∙◌, subst, String, true, false, Option, some, List, [],
  ◌++◌, All, Elem, length, length-append, arith, inl, inr, Bool-cases, ℤ,
}
use phantom_skills.Prelude.Keys.{Distinct}
use phantom_skills.Text.{Text}
use phantom_skills.Text.Decimal.{format_int}
use phantom_skills.Text.Laws.{text_eq-true}
use phantom_skills.Store.Tables.{Db}
use phantom_skills.Store.Queries.{SyncRow}
use phantom_skills.Store.Valid.{same_skill_id}
use phantom_skills.Server.Cursor.{Position, encode_cursor, decode_cursor, decode-encode}
use phantom_skills.Server.Feed.{sync_skill, last_position, page_rows, handle_sync}
use phantom_skills.Server.Feed.Paging.{feed_rows, feed_page, page_size_pos}
use phantom_skills.Server.Feed.Agent.{feed_daemon, Fits, next_position, next-InRange}
use phantom_skills.Server.Feed.Fresh.{
  RowTolerates, promoted-Tolerates, retired-Beside, Elem-promoted, Elem-append, All-left, All-right,
  empty_of_length, is_empty-dotted,
}
use phantom_skills.Syncer.Disk.{Disk, reading}
use phantom_skills.Syncer.Steps.{Syncer, World, Outcome, ok, err, world_of}
use phantom_skills.Syncer.Run.{
  SyncResponse, Options, apply_page, caught_up, finish, sync_loop, sync,
}
use phantom_skills.Syncer.Kept.{Stands, file_of, home}
use phantom_skills.Syncer.Kept.Whole.{Outcome-cases, finish-keeps}
use phantom_skills.Syncer.Effects.{start}
use phantom_skills.Syncer.Fresh.{Fresh, Same}
use phantom_skills.Syncer.Fresh.Pages.{PageTolerates, apply_page-keeps_fresh, apply_page-Fresh}

module _ (profile : String) (page : ℤ) (db : Db) (distinct : Distinct same_skill_id db.skills)
    (fits : All Fits db.skills) where
  abbrev rest_of : Text → List SyncRow
  rest_of cursor = feed_rows profile db (decode_cursor cursor)

  abbrev page_of : Text → List SyncRow
  page_of cursor = page_rows profile page db (decode_cursor cursor)

  abbrev next : Text → Text
  next cursor = encode_cursor (next_position profile page db distinct fits cursor)

  next-decodes :
      (cursor : Text)
      → decode_cursor (next cursor) ≡ last_position (decode_cursor cursor) (page_of cursor)
  next-decodes cursor =
      decode-encode (next_position profile page db distinct fits cursor)
        (next-InRange profile page db distinct fits cursor)

  -- What is left at a cursor is the page and what is left at the next one.
  page-rest : (cursor : Text) → page_of cursor ++ rest_of (next cursor) ≡ rest_of cursor
  page-rest cursor =
      ap (λ p. page_of cursor ++ feed_rows profile db p) (next-decodes cursor)
      ∙ (feed_page profile page db distinct (decode_cursor cursor)).0

  cursor-next : (cursor : Text) → (handle_sync profile page db cursor).cursor ≡ next cursor
  unfolding handle_sync
  cursor-next cursor = refl

  -- A run stops only where nothing is left.
  caught_up-end :
      (cursor : Text)
      → caught_up cursor (handle_sync profile page db cursor) ≡ true
      → rest_of (next cursor) ≡ []
  unfolding caught_up handle_sync encode_cursor
  caught_up-end cursor h =
      let p : Position = last_position (decode_cursor cursor) (page_of cursor) in
      let same : encode_cursor p ≡ cursor =
        text_eq-true (encode_cursor p) cursor
          (ground (arith, h, is_empty-dotted (format_int p.ts) (format_int p.id) b'.')) in
      let still : rest_of (next cursor) ≡ rest_of cursor = ap rest_of same in
      let split = ap length (page-rest cursor) in
      let sized = (feed_page profile page db distinct (decode_cursor cursor)).1 in
      empty_of_length (rest_of (next cursor)) (
        omega (
          arith,
          ap length still,
          split,
          sized,
          page_size_pos page,
          length-append (page_of cursor) (rest_of (next cursor)),
        ))

  module _ (s : Syncer) (d : Text) (sha : String)
      (readable : s.fails reading (file_of (home s d)) ≡ false) where
    page-Tolerates :
        (cursor : Text)
        → All (RowTolerates s d sha) (rest_of cursor)
        → PageTolerates s d sha (handle_sync profile page db cursor)
    unfolding handle_sync
    page-Tolerates cursor a =
        let rows : All (RowTolerates s d sha) (page_of cursor) =
          All-left (RowTolerates s d sha) (page_of cursor) (rest_of (next cursor))
            (subst (All (RowTolerates s d sha)) (sym (page-rest cursor)) a) in
        record {
          skills = promoted-Tolerates s d sha (page_of cursor) rows;
          deletes = retired-Beside s d sha (page_of cursor) rows;
        }

    -- The version is on the disk already, or is still to come.
    abbrev Coming : SyncRow → Text → Disk → Type 0
    Coming r cursor disk = Fresh s d sha disk ⊎ Elem r (rest_of cursor)

    finish-Fresh :
        (cursor : Text) (w v : World)
        → finish s false cursor w ≡ ok v
        → Fresh s d sha w.disk
        → Fresh s d sha v.disk
    finish-Fresh cursor w v e (text, stands, judged) = (
      text,
      subst (λ (o : Outcome). Stands (home s d) text (world_of o).disk) e
          (finish-keeps s d text false cursor w stands),
      judged,
    )

    module _ (r : SyncRow) (promoted : r.status ≡ "promoted")
        (same : Same s d sha (sync_skill r)) where
      in_page :
          (c : Text)
          → Elem r (page_of c)
          → Elem (sync_skill r) (handle_sync profile page db c).skills
      unfolding handle_sync
      in_page c now = Elem-promoted s d sha r (page_of c) now promoted

      page-Coming :
          (cursor : Text) (w u : World)
          → All (RowTolerates s d sha) (rest_of cursor)
          → apply_page s false (handle_sync profile page db cursor) w ≡ ok u
          → Coming r cursor w.disk
          → Coming r (next cursor) u.disk
      page-Coming cursor w u a e (inl f) = inl (
          apply_page-keeps_fresh s d sha readable (handle_sync profile page db cursor) w u
            (page-Tolerates cursor a) e f)
      page-Coming cursor w u a e (inr here) =
          elim (Elem-append r (page_of cursor) (rest_of (next cursor))
            (subst (Elem r) (sym (page-rest cursor)) here)) [
              | inl now ↦ inl (
                  apply_page-Fresh s d sha readable (handle_sync profile page db cursor)
                    (sync_skill r) w u (page-Tolerates cursor a) (in_page cursor now) same e)
              | inr later ↦ inr later
            ]

      sync_loop-Fresh :
          (fuel n : ℕ) (cursor : Text) (w v : World)
          → All (RowTolerates s d sha) (rest_of cursor)
          → sync_loop fuel s (feed_daemon profile page db) false n cursor w ≡ some (ok v)
          → Coming r cursor w.disk
          → Fresh s d sha v.disk
      unfolding sync_loop
      sync_loop-Fresh zero n cursor w v a e c = cc
      sync_loop-Fresh (suc fuel) n cursor w v a e c =
          let resp : SyncResponse = handle_sync profile page db cursor in
          elim (Outcome-cases (apply_page s false resp w)) [
            | inr (x, u, g) ↦
                let last : ◌≡◌ {A = Option Outcome} (some (err x u)) (some (ok v)) =
                  rw (g, sync_loop) at e in
                absurd (ground arith)
            | inl (u, g) ↦
                let then_on : Coming r (next cursor) u.disk = page-Coming cursor w u a g c in
                elim (Bool-cases (caught_up cursor resp)) [
                  | inl k ↦
                      let last : ◌≡◌ {A = Option Outcome} (some (finish s false cursor u))
                          (some (ok v)) =
                        rw (g, k, sync_loop) at e in
                      let done : finish s false cursor u ≡ ok v = cc in
                      elim then_on [
                        | inl f ↦ finish-Fresh cursor u v done f
                        | inr left ↦ absurd (subst (Elem r) (caught_up-end cursor k) left)
                      ]
                  | inr k ↦
                      let left : All (RowTolerates s d sha) (rest_of (next cursor)) =
                        All-right (RowTolerates s d sha) (page_of cursor) (rest_of (next cursor))
                          (subst (All (RowTolerates s d sha)) (sym (page-rest cursor)) a) in
                      sync_loop-Fresh fuel (suc n) (next cursor) u v left
                        (subst
                          (λ c.
                            sync_loop fuel s (feed_daemon profile page db) false (suc n) c u
                            ≡ some (ok v))
                          (cursor-next cursor) (rw (g, k, sync_loop) at e))
                        then_on
                ]
          ]

      -- After a run of the agent against the daemon that ended without an error and was no dry run, from
      -- whatever cursor and on whatever disk, each version that the feed promotes behind that cursor
      -- stands on the disk: the SKILL.md in its directory bears the marker with the version's hash, or
      -- is hand-authored. It is asked that the ids of skills differ and times and ids are 64-bit, that
      -- the file can be read, that the YAML package writes its frontmatter faithfully, and that the
      -- other rows of the feed are for other directories.
      pub sync-Fresh :
          (fuel : ℕ) (opts : Options) (disk : Disk) (v : World)
          → opts.dry_run ≡ false
          → All (RowTolerates s d sha) (feed_rows profile db (decode_cursor (start s opts disk)))
          → Elem r (feed_rows profile db (decode_cursor (start s opts disk)))
          → sync fuel s (feed_daemon profile page db) opts disk ≡ some (ok v)
          → Fresh s d sha v.disk
      unfolding sync
      sync-Fresh fuel opts disk v wet a here e =
          sync_loop-Fresh fuel 0 (start s opts disk) _ v a
            (subst
              (λ dry.
                sync_loop fuel s (feed_daemon profile page db) dry 0 (start s opts disk) (record {
                  disk = disk;
                  report = record {
                    written = 0;
                    up_to_date = 0;
                    deleted = 0;
                    skipped_unmanaged = 0;
                    cursor = [];
                    changes = [];
                  };
                })
                ≡ some (ok v))
              wet e)
            (inr here)
