-- ===== src/Syncer/Again.antt =====
-- A skill that was written is current.
use phantom_skills.Prelude.{
  ◌⊎◌, ◌≡◌, refl, sym, Bool, false, none, some, [], ◌∷◌, ◌++◌, arith, Bool-cases, Option-cases, inl,
  inr, eq_refl,
}
use phantom_skills.Text.{Text, is_empty, trim_space, split_at}
use phantom_skills.Skillfile.Codec.{Marker, render, parse, marker_of, marked, newline, closing}
use phantom_skills.Skillfile.Codec.Trip.{parse-render}
use phantom_skills.Syncer.Disk.{
  FilePath, join, reading, making_dir, writing, renaming, content_at, put, erase, read_file,
}
use phantom_skills.Syncer.Disk.Laws.{content_at-put_same}
use phantom_skills.Syncer.Steps.{
  SyncSkill, Syncer, World, Outcome, ok, err, Verdict, mkdir_failed, write_failed, rename_failed,
  skill_md, temporary, skipped, left_current, count_written, slug_of, materialize, and_then,
  materialize_read, settle, verdict, write_skill, write_atomic, replace, unmanaged, current,
}

-- The marker that a skill of the feed gets, and the file it is written to.
abbrev pub marker_for : SyncSkill → Marker
marker_for sk = record { origin = sk.origin; status = sk.status; sha = sk.sha }

abbrev pub file_for : Syncer → SyncSkill → FilePath
file_for s sk = join s.skills_dir (slug_of s.unicode sk) ++ skill_md ∷ []

write_atomic-writes :
    (s : Syncer) (dir : FilePath) (name text : Text) (w v : World)
    → write_atomic s.fails dir name text w ≡ ok v
    → content_at (dir ++ name ∷ []) v.disk ≡ some text
unfolding write_atomic
write_atomic-writes s dir name text w v h =
    let tmp : FilePath = dir ++ temporary name ∷ [] in
    let path : FilePath = dir ++ name ∷ [] in
    elim (Bool-cases (s.fails writing tmp)) [
      | inl e ↦
          let wrong : err (write_failed tmp) w ≡ ok v = rw (e, write_atomic) at h in
          absurd (ground arith)
      | inr e ↦ elim (Bool-cases (s.fails renaming path)) [
        | inl f ↦
            let wrong : err (rename_failed path) (record w { disk = put tmp text w.disk }) ≡ ok v =
              rw (e, f, write_atomic) at h in
            absurd (ground arith)
        | inr f ↦
            let done : ok (record w { disk = put path text (erase tmp (put tmp text w.disk)) })
                ≡ ok v =
              rw (e, f, write_atomic) at h in
            let same : record w { disk = put path text (erase tmp (put tmp text w.disk)) } ≡ v =
              cc in
            rw (← same) (content_at-put_same path text (erase tmp (put tmp text w.disk)))
      ]
    ]

counted-disk :
    (o : Outcome) (v : World)
    → and_then o (λ u. ok (count_written u)) ≡ ok v
    → (u : World) × (o ≡ ok u) × (v ≡ count_written u)
counted-disk (ok w) v h = (w, refl, let same : count_written w ≡ v = cc in sym same)
counted-disk (err f w) v h = absurd (ground arith)

pub write_skill-writes :
    (s : Syncer) (sk : SyncSkill) (w v : World) (text : Text)
    → render s.yaml sk.frontmatter sk.body (marker_for sk) ≡ some text
    → write_skill s sk false w ≡ ok v
    → content_at (file_for s sk) v.disk ≡ some text
unfolding write_skill
write_skill-writes s sk w v text rendered h =
    let dir : FilePath = join s.skills_dir (slug_of s.unicode sk) in
    elim (Bool-cases (s.fails making_dir dir)) [
      | inl e ↦
          let wrong : err (mkdir_failed dir) w ≡ ok v = rw (rendered, e, write_skill) at h in
          absurd (ground arith)
      | inr e ↦
          let (u, wrote, same) =
            counted-disk (write_atomic s.fails dir skill_md text w) v
              (rw (rendered, e, write_skill) at h) in
          rw same (write_atomic-writes s dir skill_md text w u wrote)
    ]

pub verdict-current :
    (s : Syncer) (sk : SyncSkill) (text body : Text)
    → parse s.yaml text ≡ some (marked sk.frontmatter (marker_for sk), body)
    → marker_of (marked sk.frontmatter (marker_for sk)) ≡ some (marker_for sk)
    → verdict s.yaml sk.sha text ≡ current
unfolding verdict
verdict-current s sk text body parsed owned = rw (parsed, owned, eq_refl sk.sha, verdict) refl

materialize-current :
    (s : Syncer) (sk : SyncSkill) (dry_run : Bool) (v : World) (text : Text)
    → s.fails reading (file_for s sk) ≡ false
    → content_at (file_for s sk) v.disk ≡ some text
    → verdict s.yaml sk.sha text ≡ current
    → materialize s sk dry_run v ≡ ok (left_current v)
unfolding materialize read_file materialize_read settle
materialize-current s sk dry_run v text readable stands same =
    rw (readable, materialize, read_file, stands, materialize_read, same, settle) refl

module _ (s : Syncer) (sk : SyncSkill) (block : Text) where
  -- Once materialize has ended without an error, and has not skipped the directory because a
  -- hand-authored SKILL.md stands there, the file holds the marker with the version's hash: the next
  -- materialize of this version, dry or not, only counts it as up to date. It is asked that the file
  -- can be read, and of the YAML package that the block it writes for this frontmatter with its
  -- marker ends in a newline, is not blank, has no line that begins with three dashes, and is read
  -- back as it was.
  pub materialize_again :
      s.yaml.marshal (marked sk.frontmatter (marker_for sk)) ≡ some (block ++ newline ∷ [])
      → is_empty (trim_space block) ≡ false
      → split_at closing (block ++ newline ∷ []) ≡ none
      → s.yaml.unmarshal block ≡ some (marked sk.frontmatter (marker_for sk))
      → s.fails reading (file_for s sk) ≡ false
      → (w v : World) → materialize s sk false w ≡ ok v
      → (v ≡ skipped w) ⊎ ((dry_run : Bool) → materialize s sk dry_run v ≡ ok (left_current v))
  unfolding materialize read_file materialize_read settle
  materialize_again written nonblank clear read readable w v h =
      elim (Option-cases (content_at (file_for s sk) w.disk)) [
        | inl e ↦ inr (after (rw (readable, materialize, read_file, e, materialize_read) at h))
        | inr (text, e) ↦
            settled (verdict s.yaml sk.sha text) text e refl
              (rw (readable, materialize, read_file, e, materialize_read) at h)
      ]
    where
      after :
          write_skill s sk false w ≡ ok v
          → (dry_run : Bool) → materialize s sk dry_run v ≡ ok (left_current v)
      after wrote dry_run =
          let (text, rendered, parsed, owned) =
            parse-render s.yaml sk.frontmatter sk.body (marker_for sk) block written nonblank clear
              read in
          materialize-current s sk dry_run v text readable
            (write_skill-writes s sk w v text rendered wrote)
            (verdict-current s sk text _ parsed owned)

      settled :
          (x : Verdict) (text : Text)
          → content_at (file_for s sk) w.disk ≡ some text
          → verdict s.yaml sk.sha text ≡ x
          → settle s sk false w x ≡ ok v
          → (v ≡ skipped w) ⊎ ((dry_run : Bool) → materialize s sk dry_run v ≡ ok (left_current v))
      settled unmanaged text stands e k = inl (let same : skipped w ≡ v = cc in sym same)
      settled current text stands e k =
          let same : left_current w ≡ v = cc in
          inr (λ dry_run.
            rw (← same) (materialize-current s sk dry_run (left_current w) text readable stands e))
      settled replace text stands e k = inr (after k)
