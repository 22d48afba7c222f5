-- ===== src/Store/Valid/Registering.antt =====
-- `registerVersionTx`, `RetireSkill` and `setStatusTx` keep the invariant of the registry's tables.
use Prim.Native.Nat.{max}
use phantom_skills.Prelude.{
  ℕ, ◌+◌, ◌≤◌, ◌<◌, ◌≡◌, refl, ◌∙◌, String, true, false, ◌&&◌, ◌||◌, Option, none, some, List, [],
  ◌∷◌, ◌++◌, eqb, eqb_refl, first, exists, All, All-append, arith, inl, inr, Bool-cases,
  Option-cases,
}
use phantom_skills.Prelude.Keys.{
  Distinct-append, Distinct-update, first-none, exists_other, exists-append, exists-update,
  All-update, All-map,
}
use phantom_skills.Store.Tables.{
  Skill, Version, Db, Codecs, Stamp, or_else, status_allowed, origin_allowed,
}
use phantom_skills.Text.{is_blank}
use phantom_skills.Store.Register.{
  found_or_new, canonical_sha, RegisterInput, is_named, touch, upsert_skill, upsert_row, of_skill,
  has_content, max_version, new_version, has_id, set_current, append_version, existing_or_new,
  register_version_tx, register_version, with_status, set_status_tx,
}
use phantom_skills.Store.Valid.{
  IsValid, HasSkill, same_skill_id, same_name, same_number, same_content, is_version_of, CurrentIn,
  Refers-append, Post, Post-bind, transaction-Post, update-IsValid, owned-update,
}

below_apart : (n : ℕ) (ss : List Skill) → All (λ s. s.id < n) ss → All (λ s. eqb s.id n ≡ false) ss
below_apart n [] h = tt
below_apart n (s ∷ ss) h = (ground (arith, h.0), below_apart n ss h.1)

below_suc : (n : ℕ) (ss : List Skill) → All (λ s. s.id < n) ss → All (λ s. s.id < n + 1) ss
below_suc n [] h = tt
below_suc n (s ∷ ss) h = (omega (arith, h.0), below_suc n ss h.1)

version_suc : (n : ℕ) (vs : List Version) → All (λ v. v.id < n) vs → All (λ v. v.id < n + 1) vs
version_suc n [] h = tt
version_suc n (v ∷ vs) h = (omega (arith, h.0), version_suc n vs h.1)

owned-append :
    (ss : List Skill) (x : Skill) (vs : List Version)
    → All (λ v. exists (has_id v.skill_id) ss ≡ true) vs
    → All (λ v. exists (has_id v.skill_id) (ss ++ x ∷ []) ≡ true) vs
owned-append ss x [] h = tt
owned-append ss x (v ∷ vs) h =
    (rw (exists-append (has_id v.skill_id) ss (x ∷ []), h.0), owned-append ss x vs h.1)

module _ (c : Codecs) (st : Stamp) (r : RegisterInput) where
  upsert_row-HasSkill :
      (status origin : String) (o : Option Skill) (db : Db)
      → first (is_named r.profile r.name) db.skills ≡ o
      → IsValid db
      → Post (upsert_row c st r status origin o db) HasSkill
  unfolding upsert_row
  upsert_row-HasSkill status origin (some s) db e v = record {
    valid =
        update-IsValid (is_named r.profile r.name) (touch st.now) (λ s. (refl, refl, refl)) db
          (λ s _ h. h) v;
    present =
        exists-update (has_id s.id) (is_named r.profile r.name) (touch st.now) (λ _. refl) db.skills
        ∙ exists_other (has_id s.id) (is_named r.profile r.name) db.skills s e (eqb_refl s.id);
  }
  upsert_row-HasSkill status origin none db e v = record {
    valid = record {
      skill_below =
          All-append (λ (s : Skill). s.id < db.next_skill + 1) db.skills _
            (below_suc db.next_skill db.skills v.skill_below) (omega arith, tt);
      skill_ids =
          Distinct-append same_skill_id db.skills _
            (below_apart db.next_skill db.skills v.skill_below) v.skill_ids;
      skill_names =
          Distinct-append same_name db.skills _ (first-none (is_named r.profile r.name) db.skills e)
            v.skill_names;
      version_below = v.version_below;
      numbers = v.numbers;
      contents = v.contents;
      owned = owned-append db.skills _ db.versions v.owned;
      currents = All-append (CurrentIn db.versions) db.skills _ v.currents (tt, tt);
    };
    present =
        exists-append (has_id db.next_skill) db.skills _ ∙ ground (arith, eqb_refl db.next_skill);
  }

  pub upsert_skill-HasSkill : (db : Db) → IsValid db → Post (upsert_skill c st r db) HasSkill
  unfolding upsert_skill
  upsert_skill-HasSkill db v =
      let status = or_else r.status "draft" in
      let origin = or_else r.origin "authored" in
      elim (Bool-cases (status_allowed status)) [
        | inl e ↦ elim (Bool-cases (origin_allowed origin)) [
          | inl f ↦
              rw (e, f)
                (upsert_row-HasSkill status origin (first (is_named r.profile r.name) db.skills) db
                  refl v)
          | inr f ↦ rw (e, f) tt
        ]
        | inr e ↦ rw e tt
      ]

-- No version of the skill has the number that comes next.
number_fresh :
    (id m : ℕ) (vs : List Version)
    → max_version id vs ≤ m
    → All (λ w. (of_skill id w && eqb w.version (m + 1)) ≡ false) vs
unfolding max_version
number_fresh id m [] h = tt
number_fresh id m (w ∷ ws) h = elim (Bool-cases (of_skill id w)) [
  | inl e ↦
      let here : max w.version (max_version id ws) ≤ m = rw (e, max_version) at h in
      (ground arith, number_fresh id m ws (omega arith))
  | inr e ↦
      let rest : max_version id ws ≤ m = rw (e, max_version) at h in
      (rw e refl, number_fresh id m ws rest)
]

module _ (st : Stamp) (r : RegisterInput) (sha : String) (id : ℕ) where
  append_version-IsValid :
      (db : Db)
      → HasSkill id db
      → first (has_content id sha) db.versions ≡ none
      → Post (append_version st r sha id db) (λ _ db'. IsValid db')
  unfolding append_version
  append_version-IsValid db v e =
      let new = new_version st r sha id db in
      let grown = db.versions ++ new ∷ [] in
      record {
        skill_below =
            All-update (λ s. s.id < db.next_skill) (has_id id) (set_current st.now new.id) db.skills
              (λ s _ h. h) v.valid.skill_below;
        skill_ids =
            Distinct-update same_skill_id (has_id id) (set_current st.now new.id) (λ _ _. refl)
              (λ _ _. refl) db.skills v.valid.skill_ids;
        skill_names =
            Distinct-update same_name (has_id id) (set_current st.now new.id) (λ _ _. refl)
              (λ _ _. refl) db.skills v.valid.skill_names;
        version_below =
            All-append (λ (w : Version). w.id < db.next_version + 1) db.versions (new ∷ [])
              (version_suc db.next_version db.versions v.valid.version_below) (omega arith, tt);
        numbers =
            Distinct-append same_number db.versions new
              (number_fresh id (max_version id db.versions) db.versions (omega arith))
              v.valid.numbers;
        contents =
            Distinct-append same_content db.versions new
              (first-none (has_content id sha) db.versions e) v.valid.contents;
        owned =
            owned-update (set_current st.now new.id) (λ _. refl) (has_id id) db.skills grown
              (All-append (λ (w : Version). exists (has_id w.skill_id) db.skills ≡ true) db.versions
                (new ∷ []) v.valid.owned (v.present, tt));
        currents =
            All-update (CurrentIn grown) (has_id id) (set_current st.now new.id) db.skills
              (λ s here _. refers_new s here)
              (All-map (CurrentIn db.versions) db.skills
                (λ s h. Refers-append db.versions (new ∷ []) s.id s.current h) v.valid.currents);
      }
    where
      refers_new :
          (s : Skill)
          → has_id id s ≡ true
          → exists
              (is_version_of s.id db.next_version)
              (db.versions ++ new_version st r sha id db ∷ [])
            ≡ true
      refers_new s here =
          exists-append (is_version_of s.id db.next_version) db.versions _ ∙ ground arith

  pub existing_or_new-IsValid :
      (db : Db)
      → HasSkill id db
      → Post
          (existing_or_new st r sha id (first (has_content id sha) db.versions) db)
          (λ _ db'. IsValid db')
  unfolding existing_or_new
  existing_or_new-IsValid db v = elim (Option-cases (first (has_content id sha) db.versions)) [
    | inl e ↦ rw e (append_version-IsValid db v e)
    | inr (x, e) ↦ rw e v.valid
  ]

module _ (c : Codecs) (st : Stamp) (r : RegisterInput) where
  pub register_version_tx-IsValid :
      (db : Db) → IsValid db → Post (register_version_tx c st r db) (λ _ db'. IsValid db')
  unfolding register_version_tx
  register_version_tx-IsValid db v = elim (Bool-cases (is_blank r.name || is_blank r.profile)) [
    | inl e ↦ rw e tt
    | inr e ↦ rw e (
        Post-bind (upsert_skill c st r db) (found_or_new c st r) HasSkill (λ _ db'. IsValid db')
          (upsert_skill-HasSkill c st r db v)
          (λ id db' h.
            existing_or_new-IsValid st r (canonical_sha c r.frontmatter r.body) id db' h))
  ]

  -- Registering a version keeps the registry's constraints: ids, names, version numbers and contents
  -- stay unique, versions belong to skills, and a current version belongs to its skill.
  pub register_version-IsValid : (db : Db) → IsValid db → IsValid (register_version c st r db).1
  unfolding register_version
  register_version-IsValid db v =
      transaction-Post IsValid (register_version_tx c st r) db v (register_version_tx-IsValid db v)

module _ (st : Stamp) (profile name status : String) where
  pub set_status_tx-IsValid :
      (db : Db) → IsValid db → Post (set_status_tx st profile name status db) (λ _ db'. IsValid db')
  unfolding set_status_tx
  set_status_tx-IsValid db v = elim (Bool-cases (exists (is_named profile name) db.skills)) [
    | inl e ↦ rw e (
        update-IsValid (is_named profile name) (with_status st.now status) (λ s. (refl, refl, refl))
          db (λ s _ h. h) v)
    | inr e ↦ rw e tt
  ]
