-- ===== src/Store/Tenants/Reads.antt =====
-- Every read of the store, for another profile than the one that wrote.
use phantom_skills.Prelude.{
  ℕ, ◌≡◌, refl, sym, ap, ◌∙◌, String, Bool, true, false, ◌&&◌, Option, none, some, List, [], ◌∷◌,
  ◌++◌, ◌==◌, eqb, eq_iff, first, select, exists, map, take, All, All-take, All-select, arith, inl,
  inr, Bool-cases, Option-cases, ℤ, select-append,
}
use mathlib.Core.List.{append-nil}
use phantom_skills.Prelude.Keys.{exists_of_none, first-append_some, All-map}
use phantom_skills.Prelude.Order.{sort_by, All-sort_by}
use phantom_skills.Prelude.Parts.{first-select, exists-select, select-within, All_first}
use phantom_skills.Store.Tables.{Skill, Version, Proposal, Db}
use phantom_skills.Store.Register.{is_named, of_skill}
use phantom_skills.Store.Queries.{
  ListOpts, joined, current_version, view, shown, listing, page_size, by_id, listed, list_skills,
  get_skill, versions_of, list_versions, by_version_desc, without_content, by_update, changed,
  sync_row, sync_feed,
}
use phantom_skills.Store.Proposals.{
  is_proposal, proposal_or_missing, get_proposal, proposal_listed, by_id_desc, summary,
  list_proposals,
}
use phantom_skills.Store.Valid.{IsValid, Refers, CurrentIn, is_version_of}
use phantom_skills.Store.Tenants.{foreign_skill, foreign_proposal, owner_is_foreign, Apart}

exists_implied :
    {A : Type 0} (p q : A → Bool)
    → ((x : A) → p x ≡ true → q x ≡ true)
    → (xs : List A) → exists p xs ≡ true
    → exists q xs ≡ true
exists_implied p q k [] h = h
exists_implied p q k (x ∷ xs) h = elim (Bool-cases (p x)) [
  | inl e ↦ rw (k x e) refl
  | inr e ↦ ground (arith, exists_implied p q k xs (rw e at h))
]

exists_agree :
    {A : Type 0} (p q : A → Bool)
    → ((x : A) → p x ≡ q x)
    → (xs : List A) → exists p xs ≡ exists q xs
exists_agree p q k [] = refl
exists_agree p q k (x ∷ xs) = rw (k x, exists_agree p q k xs) refl

map-agree :
    {A B : Type 0} (f g : A → B) (P : A → Type 0)
    → ((x : A) → P x → f x ≡ g x)
    → (xs : List A) → All P xs
    → map f xs ≡ map g xs
map-agree f g P k [] h = refl
map-agree f g P k (x ∷ xs) h = rw (k x h.0, map-agree f g P k xs h.1) refl

select-none :
    {A : Type 0} (p : A → Bool) (xs : List A) → All (λ x. p x ≡ false) xs → select p xs ≡ []
select-none p [] h = refl
select-none p (x ∷ xs) h = rw h.0 (select-none p xs h.1)

select-agree :
    {A : Type 0} (p q : A → Bool)
    → ((x : A) → p x ≡ q x)
    → (xs : List A) → select p xs ≡ select q xs
select-agree p q k [] = refl
select-agree p q k (x ∷ xs) = rw (k x, select-agree p q k xs) refl

joined-append :
    (vs ws : List Version) (id : ℕ) (o : Option ℕ)
    → Refers vs id o
    → joined (vs ++ ws) o ≡ joined vs o
joined-append vs ws id none h = refl
joined-append vs ws id (some n) h = elim (Option-cases (first (λ (v : Version). eqb v.id n) vs)) [
  | inl e ↦
      let there : exists (λ (v : Version). eqb v.id n) vs ≡ true =
        exists_implied (is_version_of id n) (λ v. eqb v.id n) (λ x k. ground (arith, k)) vs h in
      let missing : exists (λ (v : Version). eqb v.id n) vs ≡ false =
        exists_of_none (λ v. eqb v.id n) vs e in
      absurd (ground (arith, there, missing))
  | inr (w, e) ↦ first-append_some (λ v. eqb v.id n) vs ws w e ∙ sym e
]

module _ (profile q : String) (other : (q == profile) ≡ false) (before after : Db)
    (a : Apart profile before after) (v : IsValid before) where
  skill_within : (s : Skill) → (s.profile == q) ≡ true → foreign_skill profile s ≡ true
  skill_within s h = let same : s.profile ≡ q = (eq_iff s.profile q).0 h in rw (same, other) refl

  proposal_within : (p : Proposal) → (p.profile == q) ≡ true → foreign_proposal profile p ≡ true
  proposal_within p h = let same : p.profile ≡ q = (eq_iff p.profile q).0 h in rw (same, other) refl

  named_within :
      (name : String) (s : Skill) → is_named q name s ≡ true → foreign_skill profile s ≡ true
  named_within name s h = skill_within s (ground (arith, h))

  -- The joined version of a skill that was there.
  current_version-Apart :
      (s : Skill) → CurrentIn before.versions s → current_version after s ≡ current_version before s
  unfolding current_version
  current_version-Apart s h =
      ap (λ vs. joined vs s.current) a.versions
      ∙ joined-append before.versions a.added s.id s.current h

  same_selected :
      (p : Skill → Bool)
      → ((s : Skill) → p s ≡ true → foreign_skill profile s ≡ true)
      → select p after.skills ≡ select p before.skills
  same_selected p k =
      sym (select-within (foreign_skill profile) p k after.skills)
      ∙ ap (select p) a.skills
      ∙ select-within (foreign_skill profile) p k before.skills

  currents_of : (p : Skill → Bool) → All (CurrentIn before.versions) (select p before.skills)
  currents_of p = All-select (CurrentIn before.versions) p before.skills v.currents

  view-Apart : (s : Skill) → CurrentIn before.versions s → view after s ≡ view before s
  unfolding view
  view-Apart s h = rw (current_version-Apart s h) refl

  sync_row-Apart : (s : Skill) → CurrentIn before.versions s → sync_row after s ≡ sync_row before s
  unfolding sync_row
  sync_row-Apart s h = rw (current_version-Apart s h) refl

  shown-Apart :
      (o : Option Skill)
      → ((s : Skill) → o ≡ some s → CurrentIn before.versions s)
      → shown after o ≡ shown before o
  shown-Apart none h = refl
  shown-Apart (some s) h = rw (view-Apart s (h s refl), current_version-Apart s (h s refl)) refl

  pub get_skill-Apart : (name : String) → get_skill q name after ≡ get_skill q name before
  unfolding get_skill
  get_skill-Apart name =
      let found : first (is_named q name) after.skills ≡ first (is_named q name) before.skills =
        sym
          (first-select (foreign_skill profile) (is_named q name) (named_within name) after.skills)
        ∙ ap (first (is_named q name)) a.skills
        ∙ first-select (foreign_skill profile) (is_named q name) (named_within name)
            before.skills in
      ap (shown after) found
      ∙ shown-Apart (first (is_named q name) before.skills) (λ s e.
        All_first (CurrentIn before.versions) (is_named q name) before.skills s v.currents e)

  pub list_skills-Apart : (o : ListOpts) → list_skills q o after ≡ list_skills q o before
  unfolding list_skills
  list_skills-Apart o =
      ap (λ ss. map (view after) (take (page_size o.limit) (sort_by by_id ss)))
        (same_selected (listed q o) (λ s h. skill_within s (ground (arith, h))))
      ∙ map-agree (view after) (view before) (CurrentIn before.versions) view-Apart _ (
          All-take (CurrentIn before.versions) (page_size o.limit) _
            (All-sort_by by_id (CurrentIn before.versions) _ (currents_of (listed q o))))

  pub sync_feed-Apart :
      (ts id limit : ℤ) → sync_feed q ts id limit after ≡ sync_feed q ts id limit before
  unfolding sync_feed
  sync_feed-Apart ts id limit =
      ap (λ ss. map (sync_row after) (take (page_size limit) (sort_by by_update ss)))
        (same_selected (changed q ts id) (λ s h. skill_within s (ground (arith, h))))
      ∙ map-agree (sync_row after) (sync_row before) (CurrentIn before.versions) sync_row-Apart _ (
          All-take (CurrentIn before.versions) (page_size limit) _
            (All-sort_by by_update (CurrentIn before.versions) _ (currents_of (changed q ts id))))

  pub get_proposal-Apart : (id : ℕ) → get_proposal q id after ≡ get_proposal q id before
  unfolding get_proposal
  get_proposal-Apart id =
      let within : (p : Proposal) → is_proposal q id p ≡ true → foreign_proposal profile p ≡ true =
        λ p h. proposal_within p (ground (arith, h)) in
      ap proposal_or_missing (
        sym (first-select (foreign_proposal profile) (is_proposal q id) within after.proposals)
        ∙ ap (first (is_proposal q id)) a.proposals
        ∙ first-select (foreign_proposal profile) (is_proposal q id) within before.proposals)

  pub list_proposals-Apart :
      (status kind : String)
      → list_proposals q status kind after ≡ list_proposals q status kind before
  unfolding list_proposals
  list_proposals-Apart status kind =
      let within : (p : Proposal)
          → proposal_listed q status kind p ≡ true
          → foreign_proposal profile p ≡ true =
        λ p h. proposal_within p (ground (arith, h)) in
      ap (λ ps. map summary (take 500 (sort_by by_id_desc ps)))
        (sym (
            select-within (foreign_proposal profile) (proposal_listed q status kind) within
              after.proposals)
          ∙ ap (select (proposal_listed q status kind)) a.proposals
          ∙ select-within (foreign_proposal profile) (proposal_listed q status kind) within
              before.proposals)

  -- The versions of a skill are those of the row's own skill.
  version_joins :
      (name : String) (w : Version)
      → exists (λ s. is_named q name s && of_skill s.id w) after.skills
        ≡ exists (λ s. is_named q name s && of_skill s.id w) before.skills
  version_joins name w =
      let within : (s : Skill)
          → (is_named q name s && of_skill s.id w) ≡ true
          → foreign_skill profile s ≡ true =
        λ s h. skill_within s (ground (arith, h)) in
      sym (
        exists-select (foreign_skill profile) (λ s. is_named q name s && of_skill s.id w) within
          after.skills)
      ∙ ap (exists (λ s. is_named q name s && of_skill s.id w)) a.skills
      ∙ exists-select (foreign_skill profile) (λ s. is_named q name s && of_skill s.id w) within
          before.skills

  unjoined :
      (name : String) (w : Version)
      → exists (owner_is_foreign profile w.skill_id) after.skills ≡ false
      → exists (λ s. is_named q name s && of_skill s.id w) after.skills ≡ false
  unjoined name w h =
      elim (Bool-cases (exists (λ s. is_named q name s && of_skill s.id w) after.skills)) [
        | inr e ↦ e
        | inl e ↦
            let foreign : exists (owner_is_foreign profile w.skill_id) after.skills ≡ true =
              exists_implied (λ s. is_named q name s && of_skill s.id w)
                (owner_is_foreign profile w.skill_id)
                (λ s k. ground (arith, k, skill_within s (ground (arith, k)))) after.skills e in
            absurd (ground (arith, h, foreign))
      ]

  versions_of-Apart : (name : String) → versions_of q name after ≡ versions_of q name before
  unfolding versions_of
  versions_of-Apart name =
      let joins : Version → Bool =
        λ w. exists (λ s. is_named q name s && of_skill s.id w) after.skills in
      ap (λ vs. map without_content (sort_by by_version_desc vs))
        (ap (select joins) a.versions
          ∙ select-append joins before.versions a.added
          ∙ ap (λ vs. select joins before.versions ++ vs)
              (select-none joins a.added (
                All-map (λ w. exists (owner_is_foreign profile w.skill_id) after.skills ≡ false)
                  a.added (λ w h. unjoined name w h) a.own))
          ∙ append-nil (select joins before.versions)
          ∙ select-agree joins _ (version_joins name) before.versions)

  pub list_versions-Apart :
      (name : String) → list_versions q name after ≡ list_versions q name before
  unfolding list_versions
  list_versions-Apart name =
      ap (λ r. listing r (versions_of q name after)) (get_skill-Apart name)
      ∙ ap (listing (get_skill q name before)) (versions_of-Apart name)
