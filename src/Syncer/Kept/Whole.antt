-- ===== src/Syncer/Kept/Whole.antt =====
-- The ownership rule for a whole run of Sync.
use phantom_skills.Prelude.{
  ◌⊎◌, ℕ, zero, suc, ◌≡◌, ◌≢◌, refl, ◌∙◌, Bool, true, false, Option, some, [], ◌∷◌, ◌++◌, All,
  if◌then◌else◌, Bool-cases, Option-cases, inl, inr, codes,
}
use phantom_skills.Text.{Text}
use phantom_skills.Skillfile.Slug.{slugify}
use phantom_skills.Syncer.Disk.{Disk, making_dir}
use phantom_skills.Syncer.Disk.Laws.{path_eq-names}
use phantom_skills.Syncer.Steps.{
  Syncer, request_failed, Fault, World, Outcome, ok, err, world_of, skill_md, temporary, owner,
  author,
}
use phantom_skills.Syncer.Run.{
  SyncResponse, Daemon, Options, apply_page, save_cursor, finish, cursor_file, sync_loop, sync,
  load_cursor, caught_up,
}
use phantom_skills.Syncer.Kept.{Stands, file_of, home, write_atomic-elsewhere}
use phantom_skills.Syncer.Kept.Removing.{apply_page-keeps}

pub Outcome-cases :
    (o : Outcome) → ((w : World) × (o ≡ ok w)) ⊎ ((f : Fault) × (w : World) × (o ≡ err f w))
Outcome-cases (ok w) = inl (w, refl)
Outcome-cases (err f w) = inr (f, w, refl)

-- Each page deletes only names whose slug is not empty.
abbrev pub Named : Syncer → Daemon → Type 0
Named s daemon =
    (n : ℕ) (cursor : Text) (resp : SyncResponse)
    → daemon n cursor ≡ some resp
    → All (λ name. slugify s.unicode (codes name) ≢ []) resp.deletes

module _ (s : Syncer) (d content : Text) where
  save_cursor-keeps :
      (cursor : Text) (w : World)
      → Stands (home s d) content w.disk
      → Stands (home s d) content (world_of (save_cursor s cursor w)).disk
  unfolding save_cursor
  save_cursor-keeps cursor w h = elim (Bool-cases (s.fails making_dir s.state_dir)) [
    | inl e ↦ rw (e, save_cursor) h
    | inr e ↦
        rw (e, save_cursor)
          (write_atomic-elsewhere s.fails s.state_dir cursor_file (cursor ++ 10 ∷ []) w
              (file_of (home s d))
              (path_eq-names (home s d) s.state_dir skill_md (temporary cursor_file) refl)
              (path_eq-names (home s d) s.state_dir skill_md cursor_file refl)
            ∙ h)
  ]

  pub finish-keeps :
      (dry_run : Bool) (cursor : Text) (w : World)
      → Stands (home s d) content w.disk
      → Stands (home s d) content (world_of (finish s dry_run cursor w)).disk
  finish-keeps true cursor w h = h
  finish-keeps false cursor w h =
      save_cursor-keeps cursor (record w { report = record w.report { cursor = cursor } }) h

module _ (s : Syncer) (d content : Text) (unmarked : owner s.yaml content ≡ author) where
  sync_loop-keeps :
      (fuel : ℕ) (daemon : Daemon) (dry_run : Bool) (n : ℕ) (cursor : Text) (w : World)
      (o : Outcome)
      → Named s daemon
      → Stands (home s d) content w.disk
      → sync_loop fuel s daemon dry_run n cursor w ≡ some o
      → Stands (home s d) content (world_of o).disk
  unfolding sync_loop
  sync_loop-keeps zero daemon dry_run n cursor w o named h e = cc
  sync_loop-keeps (suc fuel) daemon dry_run n cursor w o named h e =
      elim (Option-cases (daemon n cursor)) [
        | inl f ↦
            let last : ◌≡◌ {A = Option Outcome} (some (err request_failed w)) (some o) =
              rw (f, sync_loop) at e in
            let same : err request_failed w ≡ o = cc in rw (← same) h
        | inr (resp, f) ↦
            let page : Stands (home s d) content (world_of (apply_page s dry_run resp w)).disk =
              apply_page-keeps s d content resp dry_run w unmarked (named n cursor resp f) h in
            elim (Outcome-cases (apply_page s dry_run resp w)) [
              | inl (v, g) ↦ elim (Bool-cases (caught_up cursor resp)) [
                | inl c ↦
                    let last : ◌≡◌ {A = Option Outcome} (some (finish s dry_run cursor v))
                        (some o) =
                      rw (f, g, c, sync_loop) at e in
                    let same : finish s dry_run cursor v ≡ o = cc in
                    rw (← same) (finish-keeps s d content dry_run cursor v (rw g at page))
                | inr c ↦
                    sync_loop-keeps fuel daemon dry_run (suc n) resp.cursor v o named (rw g at page)
                      (rw (f, g, c, sync_loop) at e)
              ]
              | inr (x, v, g) ↦
                  let last : ◌≡◌ {A = Option Outcome} (some (err x v)) (some o) =
                    rw (f, g, sync_loop) at e in
                  let same : err x v ≡ o = cc in rw (← same) (rw g at page)
            ]
      ]

  -- A SKILL.md directly in a directory of the skills directory, that parses and has no ownership
  -- marker, is the same after any run of Sync that comes to an end, whatever the daemon answers,
  -- whichever calls on the file system fail, and whether the run ends in an error or not, provided
  -- every name that the daemon asks to delete has a slug that is not empty.
  pub sync-keeps :
      (daemon : Daemon)
      → Named s daemon
      → (fuel : ℕ) (opts : Options) (disk : Disk) (o : Outcome) → Stands (home s d) content disk
      → sync fuel s daemon opts disk ≡ some o
      → Stands (home s d) content (world_of o).disk
  unfolding sync
  sync-keeps daemon named fuel opts disk o h e =
      sync_loop-keeps fuel daemon opts.dry_run 0 (if opts.reset then [] else load_cursor s disk)
        (record {
          disk = disk;
          report = record {
            written = 0;
            up_to_date = 0;
            deleted = 0;
            skipped_unmanaged = 0;
            cursor = [];
            changes = [];
          };
        })
        o named h e
