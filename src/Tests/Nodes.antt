-- ===== src/Tests/Nodes.antt =====
-- The exchange of versions between nodes at a concrete input.
use phantom_skills.Prelude.{
  ℕ, ◌≡◌, refl, String, false, All, ◌==◌, ◌++◌, List, [], ◌∷◌, length, inl, inr,
}
use phantom_skills.Skillfile.Values.{end}
use phantom_skills.Store.Tables.{Db, empty_db}
use phantom_skills.Prelude.Keys.{Distinct}
use phantom_skills.Nodesync.{
  SyncedVersion, import_versions, synced_rows, export_all, export_versions,
}
use phantom_skills.Nodesync.Exchange.{cursor_after, exchange_page}
use phantom_skills.Tests.Collation.{lex, lex-IsCollation}
use phantom_skills.Nodesync.Copying.{Adds}
use phantom_skills.Nodesync.Merge.{AllPresent, import_again}
use phantom_skills.Nodesync.Merge.Arrived.{same_ulid, Agrees, Has}

abbrev remote : String → String → SyncedVersion
remote sha ulid = record {
  profile = "personal";
  name = "lint";
  slug = [];
  sha = sha;
  frontmatter = end;
  body = "Run the linter.";
  author = "other node";
  source = "";
  row_ulid = ulid;
}

-- The third has the content of the first, and the fourth has no identity.
abbrev batch : List SyncedVersion
batch = remote "3f" "01A" ∷ remote "9c" "01B" ∷ remote "3f" "01C" ∷ remote "77" "" ∷ []

abbrev merged : ℕ × Db
merged = import_versions 5 batch empty_db

two_new : merged.0 ≡ 2
unfolding import_versions
two_new = refl

import_again_example :
    Adds batch empty_db merged
    × AllPresent batch merged.1
    × (import_versions 9 batch (import_versions 9 (remote "d0" "01D" ∷ []) merged.1).1
        ≡ (0, (import_versions 9 (remote "d0" "01D" ∷ []) merged.1).1))
import_again_example = import_again 5 9 batch (remote "d0" "01D" ∷ []) empty_db

abbrev node : Db
node = merged.1

page_sent : length (export_versions lex "personal" "" 1 node) ≡ 1
unfolding export_versions import_versions
page_sent = refl

identities : Distinct same_ulid (synced_rows node.skills node.versions)
unfolding synced_rows import_versions
identities = ((refl, tt), (tt, tt))

identities_filled : All (λ v. (v.row_ulid == "") ≡ false) (synced_rows node.skills node.versions)
unfolding synced_rows import_versions
identities_filled = (refl, (refl, tt))

-- A node that has the first version under its identity, and one of its own.
abbrev peer : Db
peer = (import_versions 3 (remote "3f" "01A" ∷ remote "d0" "01D" ∷ []) empty_db).1

peer-Agrees : All (Agrees peer) (export_versions lex "personal" "" 1 node)
unfolding export_versions import_versions
peer-Agrees = ((inr (_, refl, refl), (inl refl, tt)), tt)

exchange_page_example :
    (export_versions lex "personal" "" 1 node
        ++ export_all lex "personal"
            (cursor_after "" (export_versions lex "personal" "" 1 node))
            node
      ≡ export_all lex "personal" "" node)
    × Adds
        (export_versions lex "personal" "" 1 node)
        peer
        (import_versions 9 (export_versions lex "personal" "" 1 node) peer)
    × All
        (Has (import_versions 9 (export_versions lex "personal" "" 1 node) peer).1)
        (export_versions lex "personal" "" 1 node)
exchange_page_example =
    exchange_page lex lex-IsCollation "personal" node identities identities_filled "" 0 9 peer
      peer-Agrees
