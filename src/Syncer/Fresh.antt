-- ===== src/Syncer/Fresh.antt =====
-- What one step of a run establishes for one skill, and what a step for another skill leaves of it.
pub mod Pages
use phantom_skills.Prelude.{
  ◌⊎◌, ◌≡◌, ◌≢◌, refl, sym, ap, ◌∙◌, subst, String, false, none, some, [], ◌∷◌, ◌++◌, arith, inl,
  inr, Option-cases, codes,
}
use phantom_skills.Text.{Text, text_eq, is_empty, trim_space, split_at}
use phantom_skills.Text.Laws.{text_eq_refl}
use phantom_skills.Skillfile.Slug.{slugify}
use phantom_skills.Skillfile.Slug.Shape.{IsSlug}
use phantom_skills.Skillfile.Codec.{marked, newline, closing}
use phantom_skills.Skillfile.Codec.Trip.{parse-render}
use phantom_skills.Syncer.Disk.{
  FilePath, Disk, path_eq, under, join, reading, read_file, content_at,
}
use phantom_skills.Syncer.Disk.Laws.{join-slug}
use phantom_skills.Syncer.Steps.{
  SyncSkill, Syncer, World, ok, Verdict, replace, unmanaged, current, world_of, skill_md, slug_of,
  materialize, materialize_read, settle, verdict, write_skill, skipped, left_current, remove,
}
use phantom_skills.Syncer.Kept.{Stands, file_of, home, materialize_read-elsewhere}
use phantom_skills.Syncer.Kept.Removing.{remove_read-elsewhere, under-sibling}
use phantom_skills.Syncer.Again.{marker_for, file_for, write_skill-writes, verdict-current}

-- The SKILL.md in that directory is this version, or hand-authored.
abbrev pub Fresh : Syncer → Text → String → Disk → Type 0
Fresh s d sha disk =
    (text : Text) × Stands (home s d) text disk
    × ((verdict s.yaml sha text ≡ current) ⊎ (verdict s.yaml sha text ≡ unmanaged))

-- What is asked of the YAML package for a skill: the block that it writes for the frontmatter with
-- its marker ends in a newline, is not blank, has no line that begins with three dashes, and is read
-- back as it was.
pub record Printable (s : Syncer) (sk : SyncSkill) : Type 0 where
  pub block : Text
  pub written :
      s.yaml.marshal (marked sk.frontmatter (marker_for sk)) ≡ some (block ++ newline ∷ [])
  pub nonblank : is_empty (trim_space block) ≡ false
  pub clear : split_at closing (block ++ newline ∷ []) ≡ none
  pub read : s.yaml.unmarshal block ≡ some (marked sk.frontmatter (marker_for sk))

-- A slug of another directory of the skills directory.
pub record Beside (d slug : Text) : Type 0 where
  pub shape : IsSlug slug
  pub filled : slug ≢ []
  pub other : text_eq slug d ≡ false

path_eq-siblings :
    (dir : FilePath) (a b c : Text)
    → path_eq ((dir ++ a ∷ []) ++ c ∷ []) ((dir ++ b ∷ []) ++ c ∷ []) ≡ text_eq a b
unfolding path_eq
path_eq-siblings [] a b c = rw (text_eq_refl c) (ground arith)
path_eq-siblings (e ∷ dir) a b c = rw (text_eq_refl e, path_eq) (path_eq-siblings dir a b c)

module _ (s : Syncer) (d : Text) (sha : String) where
  -- The skill is for this directory, as this version.
  pub record Same (sk : SyncSkill) : Type 0 where
    pub place : file_for s sk ≡ file_of (home s d)
    pub version : sk.sha ≡ sha
    pub printable : Printable s sk

  module _ (readable : s.fails reading (file_of (home s d)) ≡ false) where
    written-Fresh :
        (sk : SyncSkill) (w v : World)
        → Same sk
        → write_skill s sk false w ≡ ok v
        → Fresh s d sha v.disk
    written-Fresh sk w v same e =
        let p = same.printable in
        let (text, rendered, parsed, owned) =
          parse-render s.yaml sk.frontmatter sk.body (marker_for sk) p.block p.written p.nonblank
            p.clear p.read in
        (
          text,
          subst (λ path. content_at path v.disk ≡ some text) same.place
              (write_skill-writes s sk w v text rendered e),
          inl (
              subst (λ h. verdict s.yaml h text ≡ current) same.version
                (verdict-current s sk text _ parsed owned)),
        )

    settled-Fresh :
        (sk : SyncSkill) (w v : World) (x : Verdict) (text : Text)
        → Same sk
        → Stands (home s d) text w.disk
        → verdict s.yaml sha text ≡ x
        → settle s sk false w x ≡ ok v
        → Fresh s d sha v.disk
    unfolding settle
    settled-Fresh sk w v unmanaged text same stands e k =
        let end : skipped w ≡ v = cc in rw (← end) (text, stands, inr e)
    settled-Fresh sk w v current text same stands e k =
        let end : left_current w ≡ v = cc in rw (← end) (text, stands, inl e)
    settled-Fresh sk w v replace text same stands e k = written-Fresh sk w v same k

    pub materialize-Fresh :
        (sk : SyncSkill) (w v : World)
        → Same sk
        → materialize s sk false w ≡ ok v
        → Fresh s d sha v.disk
    unfolding materialize read_file materialize_read settle
    materialize-Fresh sk w v same h =
        let able : s.fails reading (file_for s sk) ≡ false = rw same.place readable in
        elim (Option-cases (content_at (file_for s sk) w.disk)) [
          | inl e ↦
              written-Fresh sk w v same
                (rw (able, materialize, read_file, e, materialize_read) at h)
          | inr (text, e) ↦
              settled-Fresh sk w v (verdict s.yaml sk.sha text) text same
                (subst (λ path. content_at path w.disk ≡ some text) same.place e)
                (ap (λ k. verdict s.yaml k text) (sym same.version))
                (rw (able, materialize, read_file, e, materialize_read) at h)
        ]

  kept :
      (o : Disk) (d' : Disk)
      → ((text : Text) → Stands (home s d) text o → Stands (home s d) text d')
      → Fresh s d sha o
      → Fresh s d sha d'
  kept o d' keep (text, stands, judged) = (text, keep text stands, judged)

  home_of : (slug : Text) → Beside d slug → join s.skills_dir slug ≡ s.skills_dir ++ slug ∷ []
  home_of slug b = join-slug s.skills_dir slug b.shape b.filled

  text_eq_comm : (a b : Text) → text_eq a b ≡ text_eq b a
  unfolding text_eq
  text_eq_comm [] [] = refl
  text_eq_comm [] (y ∷ b) = refl
  text_eq_comm (x ∷ a) [] = refl
  text_eq_comm (x ∷ a) (y ∷ b) = ground (arith, text_eq_comm a b)

  pub materialize-beside :
      (sk : SyncSkill) (w : World)
      → Beside d (slug_of s.unicode sk)
      → Fresh s d sha w.disk
      → Fresh s d sha (world_of (materialize s sk false w)).disk
  unfolding materialize
  materialize-beside sk w b f =
      let slug : Text = slug_of s.unicode sk in
      let elsewhere : path_eq (file_of (home s d)) (join s.skills_dir slug ++ skill_md ∷ [])
          ≡ false =
        subst (λ dir. path_eq (file_of (home s d)) (dir ++ skill_md ∷ []) ≡ false)
          (sym (home_of slug b))
          (path_eq-siblings s.skills_dir d slug skill_md ∙ text_eq_comm d slug ∙ b.other) in
      kept w.disk _
        (λ text stands.
          materialize_read-elsewhere s (home s d) text sk false w
            (read_file s.fails (join s.skills_dir slug ++ skill_md ∷ []) w.disk) elsewhere stands)
        f

  pub remove-beside :
      (name : String) (w : World)
      → Beside d (slugify s.unicode (codes name))
      → Fresh s d sha w.disk
      → Fresh s d sha (world_of (remove s name false w)).disk
  unfolding remove
  remove-beside name w b f =
      let slug : Text = slugify s.unicode (codes name) in
      let path : FilePath = join s.skills_dir slug ++ skill_md ∷ [] in
      let elsewhere : under (join s.skills_dir slug) (file_of (home s d)) ≡ false =
        subst (λ dir. under dir (file_of (home s d)) ≡ false) (sym (home_of slug b))
          (under-sibling s.skills_dir slug d skill_md ∙ b.other) in
      kept w.disk _
        (λ text stands.
          remove_read-elsewhere s d text slug false w path (read_file s.fails path w.disk) elsewhere
            stands)
        f
