-- ===== src/Nodesync/Merge/Arrived.antt =====
-- An import brings every version's content to its skill, where the identities of rows are global.
use phantom_skills.Prelude.{
  ℕ, ◌≡◌, refl, sym, ap, ◌∙◌, subst, Bool, true, false, ◌⊎◌, some, List, [], ◌∷◌, ◌==◌, Elem, first,
  exists, All, All-append, arith, inl, inr, Bool-cases, eq_iff, eq_refl, eqb_refl,
}
use phantom_skills.Prelude.Keys.{Distinct, All-map, All-Elem, Elem-self}
use phantom_skills.Store.Tables.{Skill, Version, Db}
use phantom_skills.Store.Register.{is_named, has_content}
use phantom_skills.Nodesync.{SyncedVersion, has_ulid, is_known, import_versions}
use phantom_skills.Nodesync.Copying.{Present, CopyOf}
use phantom_skills.Nodesync.Merge.{AllPresent, ImportedAll, import_versions-ImportedAll}

abbrev pub same_ulid : SyncedVersion → SyncedVersion → Bool
same_ulid v w = v.row_ulid == w.row_ulid

-- The skill of this profile and name has a version with this hash.
abbrev pub Has : Db → SyncedVersion → Type 0
Has db v =
    (s : Skill) × (first (is_named v.profile v.name) db.skills ≡ some s)
    × (exists (has_content s.id v.sha) db.versions ≡ true)

-- A row of this node that bears the version's identity is of its skill and has its hash.
abbrev pub Agrees : Db → SyncedVersion → Type 0
Agrees db v =
    All
      (λ row.
        (has_ulid v.row_ulid row ≡ false)
        ⊎ ((s : Skill) × (first (is_named v.profile v.name) db.skills ≡ some s)
            × (has_content s.id v.sha row ≡ true)))
      db.versions

apart :
    (x v w : SyncedVersion) (vs : List SyncedVersion)
    → All (λ y. same_ulid x y ≡ false) vs
    → v ≡ x
    → Elem w vs
    → same_ulid v w ≡ true
    → v ≡ w
apart x v w vs h e there same =
    let other : same_ulid x w ≡ false = All-Elem (λ y. same_ulid x y ≡ false) vs w h there in
    let equal : same_ulid x w ≡ true = rw (← e) same in absurd (ground arith)

same_flip : (v w : SyncedVersion) → same_ulid v w ≡ true → same_ulid w v ≡ true
same_flip v w h = (eq_iff w.row_ulid v.row_ulid).1 (sym ((eq_iff v.row_ulid w.row_ulid).0 h))

-- An identity determines the version that bears it.
identified :
    (vs : List SyncedVersion) (v w : SyncedVersion)
    → Distinct same_ulid vs
    → Elem v vs
    → Elem w vs
    → same_ulid v w ≡ true
    → v ≡ w
identified [] v w d e f same = absurd e
identified (x ∷ vs) v w d (inl e) (inl f) same = e ∙ sym f
identified (x ∷ vs) v w d (inl e) (inr f) same = apart x v w vs d.0 e f same
identified (x ∷ vs) v w d (inr e) (inl f) same = sym (apart x w v vs d.0 f e (same_flip v w same))
identified (x ∷ vs) v w d (inr e) (inr f) same = identified vs v w d.1 e f same

-- Where a row that bears the identity has the content, a row that is known has it.
by_content :
    (v : SyncedVersion) (s : Skill) (rows : List Version)
    → All (λ row. (has_ulid v.row_ulid row ≡ false) ⊎ (has_content s.id v.sha row ≡ true)) rows
    → exists (is_known v s.id) rows ≡ true
    → exists (has_content s.id v.sha) rows ≡ true
by_content v s [] h e = e
by_content v s (row ∷ rows) h e = elim (Bool-cases (has_content s.id v.sha row)) [
  | inl f ↦ rw f refl
  | inr f ↦ elim h.0 [
    | inl g ↦ rw f (by_content v s rows h.1 (rw (g, f) at e))
    | inr g ↦ absurd (ground arith)
  ]
]

module _ (vs : List SyncedVersion) (db db' : Db) (n : ℕ) (imported : ImportedAll vs db n db')
    (distinct : Distinct same_ulid vs) where
  module _ (v : SyncedVersion) (there : Elem v vs) (s : Skill)
      (named : first (is_named v.profile v.name) db'.skills ≡ some s) where
    Settled : Version → Type 0
    Settled row = (has_ulid v.row_ulid row ≡ false) ⊎ (has_content s.id v.sha row ≡ true)

    copy-Settled : (row : Version) → CopyOf vs db' row → Settled row
    unfolding Settled
    copy-Settled row (w, also, copy) = elim (Bool-cases (w.row_ulid == v.row_ulid)) [
      | inr e ↦ inl (rw copy.identity e)
      | inl e ↦
          let same : w ≡ v = identified vs w v distinct also there e in
          let one : some copy.skill ≡ some s =
            sym copy.named ∙ ap (λ x. first (is_named x.profile x.name) db'.skills) same ∙ named in
          let skill : copy.skill ≡ s = cc in
          let owner : row.skill_id ≡ s.id = copy.owner ∙ ap (λ (x : Skill). x.id) skill in
          let sha : row.sha ≡ v.sha = copy.sha ∙ ap (λ (x : SyncedVersion). x.sha) same in
          inr (rw (owner, sha) (ground (arith, eqb_refl s.id, eq_refl v.sha)))
    ]

    old-Settled :
        (rows : List Version)
        → All
            (λ row.
              (has_ulid v.row_ulid row ≡ false)
              ⊎ ((x : Skill) × (first (is_named v.profile v.name) db.skills ≡ some x)
                  × (has_content x.id v.sha row ≡ true)))
            rows
        → All Settled rows
    unfolding Settled
    old-Settled [] h = tt
    old-Settled (row ∷ rows) h = (
      elim h.0 [
        | inl e ↦ inl e
        | inr (x, found, content) ↦
            let one : some x ≡ some s =
              sym (imported.extends.firsts (is_named v.profile v.name) x found) ∙ named in
            let skill : x ≡ s = cc in
            inr (subst (λ (y : Skill). has_content y.id v.sha row ≡ true) skill content)
      ],
      old-Settled rows h.1,
    )

    arrived : Agrees db v → exists (is_known v s.id) db'.versions ≡ true → Has db' v
    unfolding Settled
    arrived agrees known = (
      s,
      named,
      by_content v s db'.versions
          (subst (All Settled) (sym imported.grown) (
            All-append Settled db.versions imported.added (old-Settled db.versions agrees)
              (All-map (CopyOf vs db') imported.added copy-Settled imported.copies)))
          known,
    )

  one-Has :
      (v : SyncedVersion)
      → Elem v vs
      → (v.row_ulid == "") ≡ false
      → Agrees db v
      → Present v db'
      → Has db' v
  one-Has v there filled agrees (inl e) = absurd (ground arith)
  one-Has v there filled agrees (inr (s, named, known)) = arrived v there s named agrees known

  rest-Has :
      (ws : List SyncedVersion)
      → All (λ v. Elem v vs) ws
      → All (λ v. (v.row_ulid == "") ≡ false) ws
      → All (Agrees db) ws
      → AllPresent ws db'
      → All (Has db') ws
  rest-Has [] e f a p = tt
  rest-Has (w ∷ ws) e f a p = (one-Has w e.0 f.0 a.0 p.0, rest-Has ws e.1 f.1 a.1 p.1)

pub import_versions-Has :
    (now : ℕ) (vs : List SyncedVersion) (db : Db)
    → Distinct same_ulid vs
    → All (λ v. (v.row_ulid == "") ≡ false) vs
    → All (Agrees db) vs
    → All (Has (import_versions now vs db).1) vs
import_versions-Has now vs db d filled agrees =
    let imported = import_versions-ImportedAll now vs db in
    rest-Has vs db (import_versions now vs db).1 (import_versions now vs db).0 imported d vs
      (Elem-self vs) filled agrees imported.present
