-- ===== src/Syncer/Effects.antt =====
-- What a run does besides: it ends, a dry run writes nothing, and a skill is written once.
use phantom_skills.Prelude.{
  ℕ, zero, suc, ◌<◌, ◌≡◌, refl, ◌∙◌, String, Bool, true, false, Option, some, List, [], ◌∷◌, ◌++◌,
  arith, if◌then◌else◌, Bool-cases, Option-cases, inl, inr, codes,
}
use phantom_skills.Text.{Text}
use phantom_skills.Syncer.Disk.{Disk}
use phantom_skills.Syncer.Steps.{
  SyncSkill, Syncer, World, Outcome, ok, err, world_of, and_then, materialize, remove, verdict,
  materialize_read, settle, remove_read, remove_owned, delete_skill, write_skill, request_failed,
  slug_of, owner, unknown, author, syncer, current, replace, unmanaged,
}
use phantom_skills.Syncer.Disk.{read_file, missing, unreadable, contents, join}
use phantom_skills.Skillfile.Codec.{render}
use phantom_skills.Skillfile.Slug.{slugify}
use phantom_skills.Syncer.Run.{
  SyncResponse, Daemon, Options, materialize_all, remove_all, apply_page, finish, sync_loop, sync,
  load_cursor, caught_up,
}
use phantom_skills.Syncer.Kept.Whole.{Outcome-cases}

-- A page that does not end the run brings the cursor down in some order.
abbrev pub Advances : (Text → ℕ) → Daemon → Type 0
Advances rank daemon =
    (n : ℕ) (cursor : Text) (resp : SyncResponse)
    → daemon n cursor ≡ some resp
    → caught_up cursor resp ≡ false
    → rank resp.cursor < rank cursor

-- The cursor that a run begins with.
abbrev pub start : Syncer → Options → Disk → Text
start s opts disk = if opts.reset then [] else load_cursor s disk

module _ (s : Syncer) where
  sync_loop-ends :
      (rank : Text → ℕ) (daemon : Daemon)
      → Advances rank daemon
      → (fuel : ℕ) (dry_run : Bool) (n : ℕ) (cursor : Text) (w : World) → rank cursor < fuel
      → (o : Outcome) × (sync_loop fuel s daemon dry_run n cursor w ≡ some o)
  unfolding sync_loop
  sync_loop-ends rank daemon down zero dry_run n cursor w h = absurd (omega arith)
  sync_loop-ends rank daemon down (suc fuel) dry_run n cursor w h =
      elim (Option-cases (daemon n cursor)) [
        | inl f ↦ (err request_failed w, rw (f, sync_loop) refl)
        | inr (resp, f) ↦ elim (Outcome-cases (apply_page s dry_run resp w)) [
          | inl (v, g) ↦ elim (Bool-cases (caught_up cursor resp)) [
            | inl c ↦ (finish s dry_run cursor v, rw (f, g, c, sync_loop) refl)
            | inr c ↦
                let less : rank resp.cursor < rank cursor = down n cursor resp f c in
                let (o, e) =
                  sync_loop-ends rank daemon down fuel dry_run (suc n) resp.cursor v
                    (omega arith) in
                (o, rw (f, g, c, sync_loop) e)
          ]
          | inr (x, v, g) ↦ (err x v, rw (f, g, sync_loop) refl)
        ]
      ]

  -- If every page either ends the run or brings the cursor down in some order, then a run that has
  -- more fuel than the rank of its first cursor comes to an end.
  pub sync-ends :
      (rank : Text → ℕ) (daemon : Daemon)
      → Advances rank daemon
      → (fuel : ℕ) (opts : Options) (disk : Disk) → rank (start s opts disk) < fuel
      → (o : Outcome) × (sync fuel s daemon opts disk ≡ some o)
  unfolding sync
  sync-ends rank daemon down fuel opts disk h =
      sync_loop-ends rank daemon down fuel opts.dry_run 0 (start s opts disk) _ h

and_then-disk :
    (d : Disk) (o : Outcome) (k : World → Outcome)
    → (world_of o).disk ≡ d
    → ((v : World) → v.disk ≡ d → (world_of (k v)).disk ≡ d)
    → (world_of (and_then o k)).disk ≡ d
and_then-disk d (ok w) k h step = step w h
and_then-disk d (err f w) k h step = h

module _ (s : Syncer) where
  write_skill-dry :
      (sk : SyncSkill) (w : World) → (world_of (write_skill s sk true w)).disk ≡ w.disk
  unfolding write_skill
  write_skill-dry sk w =
      elim (Option-cases (
        render s.yaml sk.frontmatter sk.body
          (record { origin = sk.origin; status = sk.status; sha = sk.sha }))) [
            | inl e ↦ rw (e, write_skill) refl
            | inr (text, e) ↦ rw (e, write_skill) refl
          ]

  materialize-dry :
      (sk : SyncSkill) (w : World) → (world_of (materialize s sk true w)).disk ≡ w.disk
  unfolding materialize materialize_read settle
  materialize-dry sk w =
      elim (read_file s.fails (join s.skills_dir (slug_of s.unicode sk) ++ codes "SKILL.md" ∷ [])
          w.disk)
        as (λ r.
          (world_of (
            materialize_read s sk true w
              (join s.skills_dir (slug_of s.unicode sk) ++ codes "SKILL.md" ∷ []) r)).disk
          ≡ w.disk) [
            | missing ↦ write_skill-dry sk w
            | unreadable ↦ refl
            | contents text ↦
                elim (verdict s.yaml sk.sha text)
                  as (λ v. (world_of (settle s sk true w v)).disk ≡ w.disk) [
                    | unmanaged ↦ refl
                    | current ↦ refl
                    | replace ↦ write_skill-dry sk w
                  ]
          ]

  remove-dry : (name : String) (w : World) → (world_of (remove s name true w)).disk ≡ w.disk
  unfolding remove remove_read remove_owned delete_skill
  remove-dry name w =
      let slug : Text = slugify s.unicode (codes name) in
      elim (read_file s.fails (join s.skills_dir slug ++ codes "SKILL.md" ∷ []) w.disk)
        as (λ r.
          (world_of
            (remove_read s slug true w (join s.skills_dir slug ++ codes "SKILL.md" ∷ []) r)).disk
          ≡ w.disk) [
            | missing ↦ refl
            | unreadable ↦ refl
            | contents text ↦
                elim (owner s.yaml text)
                  as (λ o. (world_of (remove_owned s slug true w o)).disk ≡ w.disk) [
                    | unknown ↦ refl
                    | author ↦ refl
                    | syncer ↦ refl
                  ]
          ]

  materialize_all-dry :
      (sks : List SyncSkill) (w : World) → (world_of (materialize_all s true sks w)).disk ≡ w.disk
  unfolding materialize_all
  materialize_all-dry [] w = refl
  materialize_all-dry (sk ∷ sks) w =
      and_then-disk w.disk (materialize s sk true w) (λ v. materialize_all s true sks v)
        (materialize-dry sk w) (λ v h. materialize_all-dry sks v ∙ h)

  remove_all-dry :
      (ns : List String) (w : World) → (world_of (remove_all s true ns w)).disk ≡ w.disk
  unfolding remove_all
  remove_all-dry [] w = refl
  remove_all-dry (n ∷ ns) w =
      and_then-disk w.disk (remove s n true w) (λ v. remove_all s true ns v) (remove-dry n w)
        (λ v h. remove_all-dry ns v ∙ h)

  apply_page-dry :
      (resp : SyncResponse) (w : World) → (world_of (apply_page s true resp w)).disk ≡ w.disk
  unfolding apply_page
  apply_page-dry resp w =
      and_then-disk w.disk (materialize_all s true resp.skills w)
        (λ v. remove_all s true resp.deletes v) (materialize_all-dry resp.skills w)
        (λ v h. remove_all-dry resp.deletes v ∙ h)

  sync_loop-dry :
      (fuel : ℕ) (daemon : Daemon) (n : ℕ) (cursor : Text) (w : World) (o : Outcome)
      → sync_loop fuel s daemon true n cursor w ≡ some o
      → (world_of o).disk ≡ w.disk
  unfolding sync_loop
  sync_loop-dry zero daemon n cursor w o e = cc
  sync_loop-dry (suc fuel) daemon n cursor w o e = elim (Option-cases (daemon n cursor)) [
    | inl f ↦
        let last : ◌≡◌ {A = Option Outcome} (some (err request_failed w)) (some o) =
          rw (f, sync_loop) at e in
        let same : err request_failed w ≡ o = cc in rw (← same) refl
    | inr (resp, f) ↦
        let page : (world_of (apply_page s true resp w)).disk ≡ w.disk = apply_page-dry resp w in
        elim (Outcome-cases (apply_page s true resp w)) [
          | inl (v, g) ↦ elim (Bool-cases (caught_up cursor resp)) [
            | inl c ↦
                let last : ◌≡◌ {A = Option Outcome} (some (finish s true cursor v)) (some o) =
                  rw (f, g, c, sync_loop) at e in
                let same : finish s true cursor v ≡ o = cc in rw (← same) (rw g at page)
            | inr c ↦
                sync_loop-dry fuel daemon (suc n) resp.cursor v o (rw (f, g, c, sync_loop) at e)
                ∙ (rw g at page)
          ]
          | inr (x, v, g) ↦
              let last : ◌≡◌ {A = Option Outcome} (some (err x v)) (some o) =
                rw (f, g, sync_loop) at e in
              let same : err x v ≡ o = cc in rw (← same) (rw g at page)
        ]
  ]

  -- A dry run that comes to an end leaves every file as it was, the cursor's file too, whether it
  -- ends in an error or not.
  pub sync-dry_run :
      (daemon : Daemon) (fuel : ℕ) (opts : Options) (disk : Disk) (o : Outcome)
      → opts.dry_run ≡ true
      → sync fuel s daemon opts disk ≡ some o
      → (world_of o).disk ≡ disk
  unfolding sync
  sync-dry_run daemon fuel opts disk o dry e =
      sync_loop-dry fuel daemon 0 (start s opts disk) _ o (rw dry at e)
