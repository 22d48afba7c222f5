-- ===== src/Syncer/Faultless.antt =====
-- Runs on a file system where no call fails.
use phantom_skills.Prelude.{
  ℕ, zero, suc, ◌<◌, ◌≡◌, refl, sym, subst, ap, String, false, Option, none, some, List, [], ◌∷◌,
  ◌++◌, arith, Bool-cases, inl, inr, codes,
}
use phantom_skills.Text.{Text}
use phantom_skills.Skillfile.Values.{Fields}
use phantom_skills.Skillfile.Slug.{slugify}
use phantom_skills.Skillfile.Codec.{render, layout, marked}
use phantom_skills.Syncer.Disk.{
  FilePath, Disk, Call, join, reading, making_dir, writing, renaming, removing, content_at, put,
  erase, erase_tree, found, read_file,
}
use phantom_skills.Syncer.Steps.{
  SyncSkill, Syncer, World, Outcome, ok, err, Verdict, replace, unmanaged, current, skill_md,
  count_written, slug_of, temporary, count_deleted, write_atomic, write_skill, settle,
  materialize_read, materialize, verdict, Owner, unknown, author, syncer, owner, delete_skill,
  remove_owned, remove_read, remove, and_then,
}
use phantom_skills.Syncer.Run.{
  SyncResponse, Daemon, Options, materialize_all, remove_all, apply_page, save_cursor, cursor_file,
  finish, caught_up, sync_loop, sync,
}
use phantom_skills.Syncer.Effects.{Advances, start}
use phantom_skills.Syncer.Again.{marker_for}

-- No call on the file system fails, and every frontmatter can be written as YAML.
pub record Faultless (s : Syncer) : Type 0 where
  pub calm : (call : Call) (path : FilePath) → s.fails call path ≡ false
  pub marshals : (fs : Fields) → (t : Text) × (s.yaml.marshal fs ≡ some t)

-- It ends without an error.
abbrev pub EndsWell : Outcome → Type 0
EndsWell o = (v : World) × (o ≡ ok v)

module _ (s : Syncer) (fine : Faultless s) where
  write_atomic-EndsWell :
      (dir : FilePath) (name content : Text) (w : World)
      → EndsWell (write_atomic s.fails dir name content w)
  unfolding write_atomic
  write_atomic-EndsWell dir name content w =
      let tmp : FilePath = dir ++ temporary name ∷ [] in
      let path : FilePath = dir ++ name ∷ [] in
      (
        record w { disk = put path content (erase tmp (put tmp content w.disk)) },
        rw (fine.calm writing tmp, write_atomic, fine.calm renaming path) refl,
      )

  renders :
      (sk : SyncSkill)
      → (t : Text) × (render s.yaml sk.frontmatter sk.body (marker_for sk) ≡ some t)
  unfolding render
  renders sk =
      let (t, e) = fine.marshals (marked sk.frontmatter (marker_for sk)) in
      (layout t sk.body, rw (e, render) refl)

  and_then-EndsWell :
      (o : Outcome) (k : World → Outcome)
      → EndsWell o
      → ((v : World) → EndsWell (k v))
      → EndsWell (and_then o k)
  and_then-EndsWell (ok w) k h step = step w
  and_then-EndsWell (err f w) k (v, e) step = absurd (ground arith)

  write_skill-EndsWell : (sk : SyncSkill) (w : World) → EndsWell (write_skill s sk false w)
  unfolding write_skill
  write_skill-EndsWell sk w =
      let dir : FilePath = join s.skills_dir (slug_of s.unicode sk) in
      let (t, e) = renders sk in
      rw (e, write_skill, fine.calm making_dir dir)
        (and_then-EndsWell (write_atomic s.fails dir skill_md t w) (λ v. ok (count_written v))
          (write_atomic-EndsWell dir skill_md t w) (λ v. (count_written v, refl)))

  settle-EndsWell : (sk : SyncSkill) (w : World) (x : Verdict) → EndsWell (settle s sk false w x)
  unfolding settle
  settle-EndsWell sk w unmanaged = (_, refl)
  settle-EndsWell sk w current = (_, refl)
  settle-EndsWell sk w replace = write_skill-EndsWell sk w

  -- A read finds the file or that there is none.
  readable : (path : FilePath) (d : Disk) → read_file s.fails path d ≡ found (content_at path d)
  unfolding read_file
  readable path d = rw (fine.calm reading path, read_file) refl

  materialize_found :
      (sk : SyncSkill) (w : World) (path : FilePath) (o : Option Text)
      → EndsWell (materialize_read s sk false w path (found o))
  unfolding materialize_read
  materialize_found sk w path none = write_skill-EndsWell sk w
  materialize_found sk w path (some text) = settle-EndsWell sk w (verdict s.yaml sk.sha text)

  materialize-EndsWell : (sk : SyncSkill) (w : World) → EndsWell (materialize s sk false w)
  unfolding materialize
  materialize-EndsWell sk w =
      let path : FilePath = join s.skills_dir (slug_of s.unicode sk) ++ skill_md ∷ [] in
      subst (λ r. EndsWell (materialize_read s sk false w path r)) (sym (readable path w.disk))
        (materialize_found sk w path (content_at path w.disk))

  remove_owned-EndsWell :
      (slug : Text) (w : World) (o : Owner) → EndsWell (remove_owned s slug false w o)
  unfolding remove_owned delete_skill
  remove_owned-EndsWell slug w unknown = (_, refl)
  remove_owned-EndsWell slug w author = (_, refl)
  remove_owned-EndsWell slug w syncer =
      let dir : FilePath = join s.skills_dir slug in
      (
        count_deleted (record w { disk = erase_tree dir w.disk }),
        rw (fine.calm removing dir, delete_skill) refl,
      )

  remove_found :
      (slug : Text) (w : World) (path : FilePath) (o : Option Text)
      → EndsWell (remove_read s slug false w path (found o))
  unfolding remove_read
  remove_found slug w path none = (w, refl)
  remove_found slug w path (some text) = remove_owned-EndsWell slug w (owner s.yaml text)

  remove-EndsWell : (name : String) (w : World) → EndsWell (remove s name false w)
  unfolding remove
  remove-EndsWell name w =
      let slug : Text = slugify s.unicode (codes name) in
      let path : FilePath = join s.skills_dir slug ++ skill_md ∷ [] in
      subst (λ r. EndsWell (remove_read s slug false w path r)) (sym (readable path w.disk))
        (remove_found slug w path (content_at path w.disk))

  materialize_all-EndsWell :
      (sks : List SyncSkill) (w : World) → EndsWell (materialize_all s false sks w)
  unfolding materialize_all
  materialize_all-EndsWell [] w = (w, refl)
  materialize_all-EndsWell (sk ∷ sks) w =
      and_then-EndsWell (materialize s sk false w) (λ v. materialize_all s false sks v)
        (materialize-EndsWell sk w) (λ v. materialize_all-EndsWell sks v)

  remove_all-EndsWell : (ns : List String) (w : World) → EndsWell (remove_all s false ns w)
  unfolding remove_all
  remove_all-EndsWell [] w = (w, refl)
  remove_all-EndsWell (n ∷ ns) w =
      and_then-EndsWell (remove s n false w) (λ v. remove_all s false ns v) (remove-EndsWell n w)
        (λ v. remove_all-EndsWell ns v)

  apply_page-EndsWell : (resp : SyncResponse) (w : World) → EndsWell (apply_page s false resp w)
  unfolding apply_page
  apply_page-EndsWell resp w =
      and_then-EndsWell (materialize_all s false resp.skills w)
        (λ v. remove_all s false resp.deletes v) (materialize_all-EndsWell resp.skills w)
        (λ v. remove_all-EndsWell resp.deletes v)

  finish-EndsWell : (cursor : Text) (w : World) → EndsWell (finish s false cursor w)
  unfolding save_cursor
  finish-EndsWell cursor w =
      rw (fine.calm making_dir s.state_dir, save_cursor)
        (write_atomic-EndsWell s.state_dir cursor_file (cursor ++ 10 ∷ [])
          (record w { report = record w.report { cursor = cursor } }))

  module _ (rank : Text → ℕ) (daemon : Daemon) (down : Advances rank daemon)
      (answers : (n : ℕ) (cursor : Text)
        → (resp : SyncResponse) × (daemon n cursor ≡ some resp)) where
    sync_loop-EndsWell :
        (fuel n : ℕ) (cursor : Text) (w : World)
        → rank cursor < fuel
        → (v : World) × (sync_loop fuel s daemon false n cursor w ≡ some (ok v))
    unfolding sync_loop
    sync_loop-EndsWell zero n cursor w h = absurd (omega (arith, h))
    sync_loop-EndsWell (suc fuel) n cursor w h =
        let (resp, e) = answers n cursor in
        let (u, g) = apply_page-EndsWell resp w in
        elim (Bool-cases (caught_up cursor resp)) [
          | inl k ↦
              let (v, f) = finish-EndsWell cursor u in (v, rw (e, sync_loop, g, k) (ap some f))
          | inr k ↦
              let less = down n cursor resp e k in
              let (v, f) = sync_loop-EndsWell fuel (suc n) resp.cursor u (omega (arith, h, less)) in
              (v, rw (e, sync_loop, g, k) f)
        ]

    -- Against a daemon that answers every request with pages that advance, a run with enough fuel ends
    -- without an error.
    pub sync-EndsWell :
        (fuel : ℕ) (opts : Options) (disk : Disk)
        → opts.dry_run ≡ false
        → rank (start s opts disk) < fuel
        → (v : World) × (sync fuel s daemon opts disk ≡ some (ok v))
    unfolding sync
    sync-EndsWell fuel opts disk wet h =
        let begin : World = record {
          disk = disk;
          report = record {
            written = 0;
            up_to_date = 0;
            deleted = 0;
            skipped_unmanaged = 0;
            cursor = [];
            changes = [];
          };
        } in
        let (v, e) = sync_loop-EndsWell fuel 0 (start s opts disk) begin h in
        (
          v,
          subst (λ dry. sync_loop fuel s daemon dry 0 (start s opts disk) begin ≡ some (ok v))
              (sym wet) e,
        )
