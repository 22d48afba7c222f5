-- ===== src/Nodesync/Merge.antt =====
-- Importing again, and importing more.
pub mod Arrived
use mathlib.Core.List.{append-nil, append_assoc}
use phantom_skills.Prelude.{
  ℕ, ◌+◌, ◌≡◌, refl, sym, ap, ◌∙◌, inl, inr, List, [], ◌∷◌, ◌++◌, All-append, length, length-append,
  All, arith,
}
use phantom_skills.Prelude.Keys.{All-map}
use phantom_skills.Store.Tables.{Version, Db}
use phantom_skills.Nodesync.{SyncedVersion, import_version, import_versions}
use phantom_skills.Nodesync.Copying.{
  Present, Present-Extends, IsCopy, IsCopy-Extends, CopyOf, Adds, Extends, Extends-refl,
  Extends-trans, import_version-Present, import_version-Imported,
}

abbrev pub AllPresent : List SyncedVersion → Db → Type 0
AllPresent vs db = All (λ v. Present v db) vs

AllPresent-Extends :
    (vs : List SyncedVersion) (db db' : Db) → Extends db db' → AllPresent vs db → AllPresent vs db'
AllPresent-Extends [] db db' x h = tt
AllPresent-Extends (v ∷ vs) db db' x h =
    (Present-Extends v db db' x h.0, AllPresent-Extends vs db db' x h.1)

pub record ImportedAll (vs : List SyncedVersion) (db : Db) (n : ℕ) (db' : Db) : Type 0 where
  pub present : AllPresent vs db'
  pub extends : Extends db db'
  pub added : List Version
  pub grown : db'.versions ≡ db.versions ++ added
  pub counted : length added ≡ n
  pub copies : All (CopyOf vs db') added

pub import_versions-ImportedAll :
    (now : ℕ) (vs : List SyncedVersion) (db : Db)
    → ImportedAll vs db (import_versions now vs db).0 (import_versions now vs db).1
unfolding import_versions
import_versions-ImportedAll now [] db = record {
  present = tt;
  extends = Extends-refl db;
  added = [];
  grown = sym (append-nil db.versions);
  counted = refl;
  copies = tt;
}
import_versions-ImportedAll now (v ∷ vs) db =
    let step = import_version-Imported now v db in
    let between : Db = (import_version now v db).1 in
    let rest = import_versions-ImportedAll now vs between in
    let final : Db = (import_versions now vs between).1 in
    record {
      present = (Present-Extends v between final rest.extends step.present, rest.present);
      extends = Extends-trans db between final step.extends rest.extends;
      added = step.added ++ rest.added;
      grown =
          rest.grown
          ∙ ap (λ vs. vs ++ rest.added) step.grown
          ∙ append_assoc db.versions step.added rest.added;
      counted = length-append step.added rest.added ∙ omega (arith, step.counted, rest.counted);
      copies =
          All-append (CopyOf (v ∷ vs) final) step.added rest.added
            (All-map (IsCopy v between) step.added
              (λ row c. (v, inl refl, IsCopy-Extends v between final row rest.extends c))
              step.copies)
            (All-map (CopyOf vs final) rest.added (λ row c. (c.0, inr c.1, c.2)) rest.copies);
    }

import_versions-AllPresent :
    (now : ℕ) (vs : List SyncedVersion) (db : Db)
    → AllPresent vs db
    → import_versions now vs db ≡ (0, db)
unfolding import_versions
import_versions-AllPresent now [] db h = refl
import_versions-AllPresent now (v ∷ vs) db h =
    rw
      (
        import_version-Present now v db h.0,
        import_versions,
        import_versions-AllPresent now vs db h.1,
      )
      refl

-- An import leaves the stored versions as they are and adds, behind them, as many rows as it reports.
-- Each of these is a version of the batch in the skill of its profile and name, with its hash,
-- frontmatter, body, author, source and identity. Afterwards every version of the batch that bears
-- an identity has its skill, and a row has its identity or, in this skill, its hash. Importing the
-- batch again, at whatever time and after whatever other imports, reports 0 and changes nothing.
pub import_again :
    (now later : ℕ) (vs ws : List SyncedVersion) (db : Db)
    → Adds vs db (import_versions now vs db)
      × AllPresent vs (import_versions now vs db).1
      × (import_versions later vs (import_versions later ws (import_versions now vs db).1).1
          ≡ (0, (import_versions later ws (import_versions now vs db).1).1))
import_again now later vs ws db =
    let once = import_versions-ImportedAll now vs db in
    let others = import_versions-ImportedAll later ws (import_versions now vs db).1 in
    (
      (once.added, once.grown, once.counted, once.copies),
      once.present,
      import_versions-AllPresent later vs _ (AllPresent-Extends vs _ _ others.extends once.present),
    )
