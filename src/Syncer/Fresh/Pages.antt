-- ===== src/Syncer/Fresh/Pages.antt =====
-- What a whole page of the change feed establishes and keeps for one skill.
use phantom_skills.Prelude.{
  ◌⊎◌, ◌≡◌, subst, String, false, List, [], ◌∷◌, All, Elem, arith, inl, inr, codes,
}
use phantom_skills.Text.{Text}
use phantom_skills.Skillfile.Slug.{slugify}
use phantom_skills.Syncer.Disk.{reading}
use phantom_skills.Syncer.Steps.{
  SyncSkill, Syncer, World, Outcome, ok, err, world_of, slug_of, materialize, remove,
}
use phantom_skills.Syncer.Run.{SyncResponse, materialize_all, remove_all, apply_page}
use phantom_skills.Syncer.Kept.{file_of, home}
use phantom_skills.Syncer.Kept.Whole.{Outcome-cases}
use phantom_skills.Syncer.Fresh.{
  Fresh, Beside, Same, materialize-Fresh, materialize-beside, remove-beside,
}

module _ (s : Syncer) (d : Text) (sha : String) where
  -- A skill of the feed is for another directory, or is this version.
  abbrev pub Tolerates : SyncSkill → Type 0
  Tolerates sk = Beside d (slug_of s.unicode sk) ⊎ Same s d sha sk

  module _ (readable : s.fails reading (file_of (home s d)) ≡ false) where
    tolerated :
        (sk : SyncSkill) (w v : World)
        → Tolerates sk
        → materialize s sk false w ≡ ok v
        → Fresh s d sha w.disk
        → Fresh s d sha v.disk
    tolerated sk w v (inl b) e f =
        subst (λ (o : Outcome). Fresh s d sha (world_of o).disk) e
          (materialize-beside s d sha sk w b f)
    tolerated sk w v (inr same) e f = materialize-Fresh s d sha readable sk w v same e

    materialize_all-keeps_fresh :
        (sks : List SyncSkill) (w v : World)
        → All Tolerates sks
        → materialize_all s false sks w ≡ ok v
        → Fresh s d sha w.disk
        → Fresh s d sha v.disk
    unfolding materialize_all
    materialize_all-keeps_fresh [] w v a e f = let end : w ≡ v = cc in rw (← end) f
    materialize_all-keeps_fresh (sk ∷ sks) w v a e f =
        elim (Outcome-cases (materialize s sk false w)) [
          | inl (u, g) ↦
              materialize_all-keeps_fresh sks u v a.1 (rw (g, materialize_all) at e)
                (tolerated sk w u a.0 g f)
          | inr (x, u, g) ↦
              let wrong : err x u ≡ ok v = rw (g, materialize_all) at e in absurd (ground arith)
        ]

    materialize_all-Fresh :
        (sks : List SyncSkill) (sk : SyncSkill) (w v : World)
        → All Tolerates sks
        → Elem sk sks
        → Same s d sha sk
        → materialize_all s false sks w ≡ ok v
        → Fresh s d sha v.disk
    unfolding materialize_all
    materialize_all-Fresh [] sk w v a here same e = absurd here
    materialize_all-Fresh (x ∷ sks) sk w v a here same e =
        elim (Outcome-cases (materialize s x false w)) [
          | inl (u, g) ↦
              let onward : materialize_all s false sks u ≡ ok v = rw (g, materialize_all) at e in
              elim here [
                | inl at_head ↦
                    materialize_all-keeps_fresh sks u v a.1 onward (
                      materialize-Fresh s d sha readable x w u (subst (Same s d sha) at_head same)
                        g)
                | inr later ↦ materialize_all-Fresh sks sk u v a.1 later same onward
              ]
          | inr (y, u, g) ↦
              let wrong : err y u ≡ ok v = rw (g, materialize_all) at e in absurd (ground arith)
        ]

  remove_all-keeps_fresh :
      (ns : List String) (w v : World)
      → All (λ n. Beside d (slugify s.unicode (codes n))) ns
      → remove_all s false ns w ≡ ok v
      → Fresh s d sha w.disk
      → Fresh s d sha v.disk
  unfolding remove_all
  remove_all-keeps_fresh [] w v a e f = let end : w ≡ v = cc in rw (← end) f
  remove_all-keeps_fresh (n ∷ ns) w v a e f = elim (Outcome-cases (remove s n false w)) [
    | inl (u, g) ↦ remove_all-keeps_fresh ns u v a.1 (rw (g, remove_all) at e) (
        subst (λ (o : Outcome). Fresh s d sha (world_of o).disk) g
          (remove-beside s d sha n w a.0 f))
    | inr (x, u, g) ↦ let wrong : err x u ≡ ok v = rw (g, remove_all) at e in absurd (ground arith)
  ]

  -- What is asked of a page.
  pub record PageTolerates (resp : SyncResponse) : Type 0 where
    pub skills : All Tolerates resp.skills
    pub deletes : All (λ n. Beside d (slugify s.unicode (codes n))) resp.deletes

  module _ (readable : s.fails reading (file_of (home s d)) ≡ false) where
    page_parts :
        (resp : SyncResponse) (w v : World)
        → apply_page s false resp w ≡ ok v
        → (u : World) × (materialize_all s false resp.skills w ≡ ok u)
          × (remove_all s false resp.deletes u ≡ ok v)
    unfolding apply_page
    page_parts resp w v e = elim (Outcome-cases (materialize_all s false resp.skills w)) [
      | inl (u, g) ↦ (u, g, rw (g, apply_page) at e)
      | inr (x, u, g) ↦
          let wrong : err x u ≡ ok v = rw (g, apply_page) at e in absurd (ground arith)
    ]

    pub apply_page-keeps_fresh :
        (resp : SyncResponse) (w v : World)
        → PageTolerates resp
        → apply_page s false resp w ≡ ok v
        → Fresh s d sha w.disk
        → Fresh s d sha v.disk
    apply_page-keeps_fresh resp w v a e f =
        let (u, first, second) = page_parts resp w v e in
        remove_all-keeps_fresh resp.deletes u v a.deletes second
          (materialize_all-keeps_fresh readable resp.skills w u a.skills first f)

    pub apply_page-Fresh :
        (resp : SyncResponse) (sk : SyncSkill) (w v : World)
        → PageTolerates resp
        → Elem sk resp.skills
        → Same s d sha sk
        → apply_page s false resp w ≡ ok v
        → Fresh s d sha v.disk
    apply_page-Fresh resp sk w v a here same e =
        let (u, first, second) = page_parts resp w v e in
        remove_all-keeps_fresh resp.deletes u v a.deletes second
          (materialize_all-Fresh readable resp.skills sk w u a.skills here same first)
