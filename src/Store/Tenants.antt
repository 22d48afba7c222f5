-- ===== src/Store/Tenants.antt =====
-- What the writes of one profile leave of the rows of all other profiles.
pub mod Writes
pub mod Reads
use phantom_skills.Prelude.{
  ℕ, ◌<◌, ◌≡◌, refl, sym, ap, ◌∙◌, String, Bool, false, ◌&&◌, ◌||◌, not, Option, none, some, List,
  [], ◌∷◌, ◌++◌, eq_refl, ◌==◌, first, select, exists, All, All-append, arith, inl, inr, Bool-cases,
}
use mathlib.Core.List.{append-nil}
use phantom_skills.Prelude.Keys.{Distinct, All-update, All-map}
use phantom_skills.Prelude.Parts.{select-update, select-append_out, exists-All, All_first}
use phantom_skills.Text.{is_blank}
use phantom_skills.Store.Tables.{
  Skill, Version, Proposal, Db, Codecs, Stamp, or_else, status_allowed, origin_allowed,
}
use phantom_skills.Store.Register.{
  RegisterInput, is_named, touch, upsert_skill, upsert_row, has_content, has_id, set_current,
  new_version, append_version, existing_or_new, register_version_tx, found_or_new, canonical_sha,
}
use phantom_skills.Store.Valid.{IsValid, Post, Post-bind, same_skill_id}

-- A row of another profile.
abbrev pub foreign_skill : String → Skill → Bool
foreign_skill profile s = not (s.profile == profile)

abbrev pub foreign_proposal : String → Proposal → Bool
foreign_proposal profile p = not (p.profile == profile)

-- The skill that a version belongs to, if it is another profile's.
abbrev pub owner_is_foreign : String → ℕ → Skill → Bool
owner_is_foreign profile id s = has_id id s && foreign_skill profile s

-- From `before` to `after`, skills and proposals of other profiles are the same rows, no version has
-- changed, and each one added belongs to no skill of another profile.
pub record Apart (profile : String) (before after : Db) : Type 0 where
  pub skills :
      select (foreign_skill profile) after.skills ≡ select (foreign_skill profile) before.skills
  pub proposals :
      select (foreign_proposal profile) after.proposals
      ≡ select (foreign_proposal profile) before.proposals
  pub added : List Version
  pub versions : after.versions ≡ before.versions ++ added
  pub own : All (λ v. exists (owner_is_foreign profile v.skill_id) after.skills ≡ false) added

module _ (profile : String) where
  named_is_own :
      (name : String) (s : Skill) → (is_named profile name s && foreign_skill profile s) ≡ false
  named_is_own name s = ground arith

  pub named_are_own :
      (name : String) (skills : List Skill)
      → All (λ s. (is_named profile name s && foreign_skill profile s) ≡ false) skills
  named_are_own name [] = tt
  named_are_own name (s ∷ skills) = (named_is_own name s, named_are_own name skills)

  -- No skill of another profile has this id.
  abbrev pub IsOwn : ℕ → Db → Type 0
  IsOwn id db = All (λ s. owner_is_foreign profile id s ≡ false) db.skills

  IsOwn-here :
      (name : String) (s : Skill) (skills : List Skill)
      → Distinct same_skill_id skills
      → first (is_named profile name) skills ≡ some s
      → All (λ t. owner_is_foreign profile s.id t ≡ false) skills
  IsOwn-here name s [] d e = tt
  IsOwn-here name s (x ∷ skills) d e = elim (Bool-cases (is_named profile name x)) [
    | inl f ↦
        let k : ◌≡◌ {A = Option Skill} (some x) (some s) = rw f at e in
        let same : x ≡ s = cc in
        rw (← same) (
          ground arith,
          All-map (λ y. same_skill_id x y ≡ false) skills (λ y h. ground (arith, h)) d.0,
        )
    | inr f ↦
        let later : first (is_named profile name) skills ≡ some s = rw f at e in
        let other : same_skill_id x s ≡ false =
          All_first (λ y. same_skill_id x y ≡ false) (is_named profile name) skills s d.0 later in
        (ground (arith, other), IsOwn-here name s skills d.1 later)
  ]

  IsOwn-next :
      (n : ℕ) (skills : List Skill)
      → All (λ s. s.id < n) skills
      → All (λ s. owner_is_foreign profile n s ≡ false) skills
  IsOwn-next n [] h = tt
  IsOwn-next n (s ∷ skills) h = (ground (arith, h.0), IsOwn-next n skills h.1)

  -- What the upsert establishes for the skill that it returns.
  record Owned (before : Db) (id : ℕ) (db : Db) : Type 0 where
    skills : select (foreign_skill profile) db.skills ≡ select (foreign_skill profile) before.skills
    same_versions : db.versions ≡ before.versions
    same_proposals : db.proposals ≡ before.proposals
    own : IsOwn id db

  pub unchanged-Apart : (db : Db) → Apart profile db db
  unchanged-Apart db = record {
    skills = refl;
    proposals = refl;
    added = [];
    versions = sym (append-nil db.versions);
    own = tt;
  }

module _ (c : Codecs) (st : Stamp) (r : RegisterInput) where
  upsert_row-Owned :
      (status origin : String) (o : Option Skill) (db : Db)
      → IsValid db
      → first (is_named r.profile r.name) db.skills ≡ o
      → Post (upsert_row c st r status origin o db) (Owned r.profile db)
  unfolding upsert_row
  upsert_row-Owned status origin (some s) db v e = record {
    skills =
        select-update (foreign_skill r.profile) (is_named r.profile r.name) (touch st.now) db.skills
          (λ x. refl) (named_are_own r.profile r.name db.skills);
    same_versions = refl;
    same_proposals = refl;
    own =
        All-update _ (is_named r.profile r.name) (touch st.now) db.skills (λ x k h. h)
          (IsOwn-here r.profile r.name s db.skills v.skill_ids e);
  }
  upsert_row-Owned status origin none db v e = record {
    skills =
        select-append_out (foreign_skill r.profile) db.skills _ (ground (arith, eq_refl r.profile));
    same_versions = refl;
    same_proposals = refl;
    own =
        All-append _ db.skills _ (IsOwn-next r.profile db.next_skill db.skills v.skill_below)
          (ground (arith, eq_refl r.profile), tt);
  }

  upsert_skill-Owned : (db : Db) → IsValid db → Post (upsert_skill c st r db) (Owned r.profile db)
  unfolding upsert_skill
  upsert_skill-Owned db v =
      let status = or_else r.status "draft" in
      let origin = or_else r.origin "authored" in
      elim (Bool-cases (status_allowed status)) [
        | inl e ↦ elim (Bool-cases (origin_allowed origin)) [
          | inl f ↦
              rw (e, f)
                (upsert_row-Owned status origin (first (is_named r.profile r.name) db.skills) db v
                  refl)
          | inr f ↦ rw (e, f) tt
        ]
        | inr e ↦ rw e tt
      ]

  existing_or_new-Apart :
      (before db : Db) (id : ℕ) (sha : String) (o : Option Version)
      → Owned r.profile before id db
      → Post (existing_or_new st r sha id o db) (λ _ after. Apart r.profile before after)
  unfolding existing_or_new append_version
  existing_or_new-Apart before db id sha (some w) h = record {
    skills = h.skills;
    proposals = ap (select (foreign_proposal r.profile)) h.same_proposals;
    added = [];
    versions = h.same_versions ∙ sym (append-nil before.versions);
    own = tt;
  }
  existing_or_new-Apart before db id sha none h =
      let new = new_version st r sha id db in
      record {
        skills =
            select-update (foreign_skill r.profile) (has_id id) (set_current st.now new.id)
              db.skills (λ x. refl) h.own
            ∙ h.skills;
        proposals = ap (select (foreign_proposal r.profile)) h.same_proposals;
        added = new ∷ [];
        versions = ap (λ vs. vs ++ new ∷ []) h.same_versions;
        own = (
          exists-All (owner_is_foreign r.profile id) _
              (All-update _ (has_id id) (set_current st.now new.id) db.skills (λ x _ k. k) h.own),
          tt,
        );
      }

  pub register_version_tx-Apart :
      (db : Db)
      → IsValid db
      → Post (register_version_tx c st r db) (λ _ after. Apart r.profile db after)
  unfolding register_version_tx found_or_new
  register_version_tx-Apart db v = elim (Bool-cases (is_blank r.name || is_blank r.profile)) [
    | inl e ↦ rw e tt
    | inr e ↦ rw e (
        Post-bind (upsert_skill c st r db) (found_or_new c st r) (Owned r.profile db)
          (λ _ after. Apart r.profile db after) (upsert_skill-Owned db v)
          (λ id d h.
            existing_or_new-Apart db d id (canonical_sha c r.frontmatter r.body)
              (first (has_content id (canonical_sha c r.frontmatter r.body)) d.versions) h))
  ]
