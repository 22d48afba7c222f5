-- ===== src/Syncer/Kept/Removing.antt =====
-- Removals, and pages of the feed.
use phantom_skills.Prelude.{
  ◌≡◌, ◌≢◌, refl, ◌∙◌, String, Bool, true, false, List, [], ◌∷◌, ◌++◌, All, arith, Bool-cases, inl,
  inr, codes,
}
use phantom_skills.Text.{Text, text_eq}
use phantom_skills.Skillfile.Slug.{slugify}
use phantom_skills.Skillfile.Slug.Shape.{slugify-IsSlug}
use phantom_skills.Syncer.Disk.{
  FilePath, removing, under, join, read_file, Read, missing, unreadable, contents,
}
use phantom_skills.Text.Laws.{text_eq_refl, text_eq-true}
use phantom_skills.Syncer.Disk.Laws.{content_at-erase_tree, join-slug}
use phantom_skills.Syncer.Steps.{
  remove_read, remove_owned, SyncSkill, Syncer, World, world_of, skill_md, materialize, owner,
  author, syncer, unknown, remove, delete_skill,
}
use phantom_skills.Syncer.Run.{SyncResponse, materialize_all, remove_all, apply_page}
use phantom_skills.Syncer.Kept.{
  file_of, Stands, home, and_then-keeps, read_file-kept, materialize-keeps,
}

pub under-sibling :
    (dir : FilePath) (a b c : Text)
    → under (dir ++ a ∷ []) ((dir ++ b ∷ []) ++ c ∷ []) ≡ text_eq a b
unfolding under
under-sibling [] a b c = ground arith
under-sibling (e ∷ dir) a b c = rw (text_eq_refl e, under) (under-sibling dir a b c)

module _ (s : Syncer) (d content : Text) where
  pub remove_read-elsewhere :
      (slug : Text) (dry_run : Bool) (w : World) (path : FilePath) (r : Read)
      → under (join s.skills_dir slug) (file_of (home s d)) ≡ false
      → Stands (home s d) content w.disk
      → Stands (home s d) content (world_of (remove_read s slug dry_run w path r)).disk
  unfolding remove_read remove_owned delete_skill
  remove_read-elsewhere slug dry_run w path missing other h = h
  remove_read-elsewhere slug dry_run w path unreadable other h = h
  remove_read-elsewhere slug dry_run w path (contents text) other h =
      elim (owner s.yaml text)
        as (λ o. Stands (home s d) content (world_of (remove_owned s slug dry_run w o)).disk) [
          | unknown ↦ h
          | author ↦ h
          | syncer ↦ deleted dry_run
        ]
    where
      deleted : (dry : Bool) → Stands (home s d) content (world_of (delete_skill s slug dry w)).disk
      deleted true = h
      deleted false = elim (Bool-cases (s.fails removing (join s.skills_dir slug))) [
        | inl e ↦ rw (e, delete_skill) h
        | inr e ↦
            rw (e, delete_skill)
              (content_at-erase_tree (join s.skills_dir slug) (file_of (home s d)) w.disk other ∙ h)
      ]

  remove-keeps :
      (name : String) (dry_run : Bool) (w : World)
      → owner s.yaml content ≡ author
      → slugify s.unicode (codes name) ≢ []
      → Stands (home s d) content w.disk
      → Stands (home s d) content (world_of (remove s name dry_run w)).disk
  unfolding remove remove_read remove_owned
  remove-keeps name dry_run w unmarked named h =
      let slug : Text = slugify s.unicode (codes name) in
      let path : FilePath = join s.skills_dir slug ++ skill_md ∷ [] in
      let dir : join s.skills_dir slug ≡ s.skills_dir ++ slug ∷ [] =
        join-slug s.skills_dir slug (slugify-IsSlug s.unicode (codes name)) named in
      elim (Bool-cases (text_eq slug d)) [
        | inl e ↦
            let same : slug ≡ d = text_eq-true slug d e in
            let at : file_of (home s d) ≡ path = rw (dir, same) refl in
            elim (read_file-kept s (home s d) content w.disk h) [
              | inl r ↦ rw (rw at at r, remove, remove_read) h
              | inr r ↦ rw (rw at at r, remove, remove_read, unmarked, remove_owned) h
            ]
        | inr e ↦
            remove_read-elsewhere slug dry_run w path (read_file s.fails path w.disk)
              (rw dir (under-sibling s.skills_dir slug d skill_md ∙ e)) h
      ]

  pub materialize_all-keeps :
      (sks : List SyncSkill) (dry_run : Bool) (w : World)
      → owner s.yaml content ≡ author
      → Stands (home s d) content w.disk
      → Stands (home s d) content (world_of (materialize_all s dry_run sks w)).disk
  unfolding materialize_all
  materialize_all-keeps [] dry_run w unmarked h = h
  materialize_all-keeps (sk ∷ sks) dry_run w unmarked h =
      and_then-keeps (Stands (home s d) content) (materialize s sk dry_run w)
        (λ v. materialize_all s dry_run sks v)
        (materialize-keeps s (home s d) content unmarked sk dry_run w h)
        (λ v k. materialize_all-keeps sks dry_run v unmarked k)

  pub remove_all-keeps :
      (ns : List String) (dry_run : Bool) (w : World)
      → owner s.yaml content ≡ author
      → All (λ n. slugify s.unicode (codes n) ≢ []) ns
      → Stands (home s d) content w.disk
      → Stands (home s d) content (world_of (remove_all s dry_run ns w)).disk
  unfolding remove_all
  remove_all-keeps [] dry_run w unmarked named h = h
  remove_all-keeps (n ∷ ns) dry_run w unmarked named h =
      and_then-keeps (Stands (home s d) content) (remove s n dry_run w)
        (λ v. remove_all s dry_run ns v) (remove-keeps n dry_run w unmarked named.0 h)
        (λ v k. remove_all-keeps ns dry_run v unmarked named.1 k)

  pub apply_page-keeps :
      (resp : SyncResponse) (dry_run : Bool) (w : World)
      → owner s.yaml content ≡ author
      → All (λ n. slugify s.unicode (codes n) ≢ []) resp.deletes
      → Stands (home s d) content w.disk
      → Stands (home s d) content (world_of (apply_page s dry_run resp w)).disk
  unfolding apply_page
  apply_page-keeps resp dry_run w unmarked named h =
      and_then-keeps (Stands (home s d) content) (materialize_all s dry_run resp.skills w)
        (λ v. remove_all s dry_run resp.deletes v)
        (materialize_all-keeps resp.skills dry_run w unmarked h)
        (λ v k. remove_all-keeps resp.deletes dry_run v unmarked named k)
