-- ===== src/Syncer/Kept.antt =====
-- The ownership rule: a SKILL.md without the marker is never changed.
pub mod Removing
pub mod Whole
use phantom_skills.Prelude.{
  ◌⊎◌, ◌≡◌, refl, ◌∙◌, String, Bool, false, some, [], ◌∷◌, ◌++◌, arith, Bool-cases, Option-cases,
  inl, inr,
}
use phantom_skills.Text.{Text}
use phantom_skills.Skillfile.Codec.{Yaml, parse, render, marker_of}
use phantom_skills.Syncer.Disk.{
  FilePath, Disk, Faults, making_dir, writing, renaming, path_eq, join, content_at, put, erase,
  read_file, Read, reading, missing, unreadable, contents,
}
use phantom_skills.Syncer.Disk.Laws.{path_eq-true, path_eq-names, content_at-put, content_at-erase}
use phantom_skills.Syncer.Steps.{
  materialize_read, settle, SyncSkill, Syncer, World, Outcome, ok, err, world_of, and_then,
  skill_md, temporary, write_atomic, verdict, unmanaged, replace, current, slug_of, write_skill,
  materialize, owner, author, syncer, unknown,
}

write_atomic-elsewhere :
    (fails : Faults) (dir : FilePath) (name : Text) (content : Text) (w : World) (q : FilePath)
    → path_eq q (dir ++ temporary name ∷ []) ≡ false
    → path_eq q (dir ++ name ∷ []) ≡ false
    → content_at q (world_of (write_atomic fails dir name content w)).disk ≡ content_at q w.disk
unfolding write_atomic
write_atomic-elsewhere fails dir name content w q other_tmp other =
    let tmp : FilePath = dir ++ temporary name ∷ [] in
    elim (Bool-cases (fails writing tmp)) [
      | inl e ↦ rw (e, write_atomic) refl
      | inr e ↦ elim (Bool-cases (fails renaming (dir ++ name ∷ []))) [
        | inl f ↦ rw (e, f, write_atomic) (content_at-put tmp q content w.disk other_tmp)
        | inr f ↦
            rw (e, f, write_atomic)
              (content_at-put (dir ++ name ∷ []) q content (erase tmp (put tmp content w.disk))
                  other
                ∙ content_at-erase tmp q (put tmp content w.disk) other_tmp
                ∙ content_at-put tmp q content w.disk other_tmp)
      ]
    ]

verdict-author :
    (y : Yaml) (sha : String) (content : Text)
    → owner y content ≡ author
    → verdict y sha content ≡ unmanaged
unfolding owner verdict
verdict-author y sha content h = elim (Option-cases (parse y content)) [
  | inl e ↦ let wrong : unknown ≡ author = rw (e, owner) at h in absurd (ground arith)
  | inr (r, e) ↦ elim (Option-cases (marker_of r.0)) [
    | inl f ↦ rw (e, f, verdict) refl
    | inr (m, f) ↦ let wrong : syncer ≡ author = rw (e, f, owner) at h in absurd (ground arith)
  ]
]

-- A world that is kept through one step is kept through the next.
pub and_then-keeps :
    (P : Disk → Type 0) (o : Outcome) (k : World → Outcome)
    → P (world_of o).disk
    → ((v : World) → P v.disk → P (world_of (k v)).disk)
    → P (world_of (and_then o k)).disk
and_then-keeps P (ok w) k h step = step w h
and_then-keeps P (err f w) k h step = h

-- The SKILL.md of a directory, and that it holds a text.
abbrev pub file_of : FilePath → FilePath
file_of dir = dir ++ skill_md ∷ []

abbrev pub Stands : FilePath → Text → Disk → Type 0
Stands dir content d = content_at (file_of dir) d ≡ some content

-- The directory of a name in the skills directory.
abbrev pub home : Syncer → Text → FilePath
home s d = s.skills_dir ++ d ∷ []

module _ (s : Syncer) (base : FilePath) (content : Text) where
  pub write_skill-elsewhere :
      (sk : SyncSkill) (dry_run : Bool) (w : World)
      → path_eq (file_of base) (join s.skills_dir (slug_of s.unicode sk) ++ skill_md ∷ []) ≡ false
      → Stands base content w.disk
      → Stands base content (world_of (write_skill s sk dry_run w)).disk
  unfolding write_skill
  write_skill-elsewhere sk dry_run w other h =
      let dir : FilePath = join s.skills_dir (slug_of s.unicode sk) in
      elim (Option-cases (
        render s.yaml sk.frontmatter sk.body
          (record { origin = sk.origin; status = sk.status; sha = sk.sha }))) [
            | inl e ↦ rw (e, write_skill) h
            | inr (text, e) ↦ elim (Bool-cases dry_run) [
              | inl f ↦ rw (e, f, write_skill) h
              | inr f ↦ elim (Bool-cases (s.fails making_dir dir)) [
                | inl g ↦ rw (e, f, g, write_skill) h
                | inr g ↦
                    rw (e, f, g, write_skill)
                      (and_then-keeps (Stands base content)
                        (write_atomic s.fails dir skill_md text w) _
                        (write_atomic-elsewhere s.fails dir skill_md text w (file_of base)
                            (path_eq-names base dir skill_md (temporary skill_md) refl) other
                          ∙ h)
                        (λ v k. k))
              ]
            ]
          ]

  pub materialize_read-elsewhere :
      (sk : SyncSkill) (dry_run : Bool) (w : World) (r : Read)
      → path_eq (file_of base) (join s.skills_dir (slug_of s.unicode sk) ++ skill_md ∷ []) ≡ false
      → Stands base content w.disk
      → Stands base content
          (world_of (
            materialize_read s sk dry_run w
              (join s.skills_dir (slug_of s.unicode sk) ++ skill_md ∷ [])
              r)).disk
  unfolding materialize_read settle
  materialize_read-elsewhere sk dry_run w missing other h =
      write_skill-elsewhere sk dry_run w other h
  materialize_read-elsewhere sk dry_run w unreadable other h = h
  materialize_read-elsewhere sk dry_run w (contents text) other h =
      elim (verdict s.yaml sk.sha text)
        as (λ v. Stands base content (world_of (settle s sk dry_run w v)).disk) [
          | unmanaged ↦ h
          | current ↦ h
          | replace ↦ write_skill-elsewhere sk dry_run w other h
        ]

  -- What a read gives where the file stands.
  pub read_file-kept :
      (d : Disk)
      → Stands base content d
      → (read_file s.fails (file_of base) d ≡ unreadable)
        ⊎ (read_file s.fails (file_of base) d ≡ contents content)
  unfolding read_file
  read_file-kept d h = elim (Bool-cases (s.fails reading (file_of base))) [
    | inl e ↦ inl (rw (e, read_file) refl)
    | inr e ↦ inr (rw (e, h, read_file) refl)
  ]

  module _ (unmarked : owner s.yaml content ≡ author) where
    pub materialize-keeps :
        (sk : SyncSkill) (dry_run : Bool) (w : World)
        → Stands base content w.disk
        → Stands base content (world_of (materialize s sk dry_run w)).disk
    unfolding materialize materialize_read settle
    materialize-keeps sk dry_run w h =
        let path : FilePath = join s.skills_dir (slug_of s.unicode sk) ++ skill_md ∷ [] in
        elim (Bool-cases (path_eq (file_of base) path)) [
          | inl e ↦
              let same : (file_of base) ≡ path = path_eq-true (file_of base) path e in
              elim (read_file-kept w.disk h) [
                | inl r ↦ rw (rw same at r, materialize) h
                | inr r ↦
                    rw
                      (
                        rw same at r,
                        materialize,
                        materialize_read,
                        verdict-author s.yaml sk.sha content unmarked,
                        settle,
                      )
                      h
              ]
          | inr e ↦ materialize_read-elsewhere sk dry_run w (read_file s.fails path w.disk) e h
        ]
