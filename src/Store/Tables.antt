-- ===== src/Store/Tables.antt =====
-- The rows of migrations/0001 to 0007 that internal/pgstore reads and writes, and transactions.
use phantom_skills.Prelude.{ℕ, String, Bool, ◌||◌, Option, List, [], ◌==◌, if◌then◌else◌}
use phantom_skills.Text.{Text, Unicode}
use phantom_skills.Skillfile.Values.{Fields}

-- `Skill`, with the column current_version_id in place of the joined version and sha.
pub record Skill : Type 0 where
  pub id : ℕ
  pub profile : String
  pub name : String
  pub slug : Text
  pub status : String
  pub origin : String
  pub tags : List String
  pub current : Option ℕ
  pub created_at : ℕ
  pub updated_at : ℕ

-- A row of skill_versions; row_ulid is filled by the trigger ps_stamp_sync.
pub record Version : Type 0 where
  pub id : ℕ
  pub skill_id : ℕ
  pub version : ℕ
  pub sha : String
  pub frontmatter : Fields
  pub body : String
  pub author : String
  pub source : String
  pub created_at : ℕ
  pub row_ulid : Option String

-- A row of proposals. The JSON columns that are only carried along are `Option Fields`.
pub record Proposal : Type 0 where
  pub id : ℕ
  pub profile : String
  pub kind : String
  pub skill_name : String
  pub proposed_frontmatter : Option Fields
  pub proposed_body : String
  pub diff : String
  pub rationale : String
  pub evidence : Option Fields
  pub score : Option String
  pub verifier_report : Option Fields
  pub status : String
  pub created_by : String
  pub decided_by : Option String
  pub decided_reason : Option String
  pub decided_at : Option ℕ
  pub created_at : ℕ

pub record Promotion : Type 0 where
  pub skill_id : ℕ
  pub promoted_at : ℕ
  pub promoted_by : String
  pub demoted_at : Option ℕ

pub record Db : Type 0 where
  pub skills : List Skill
  pub versions : List Version
  pub proposals : List Proposal
  pub promotions : List Promotion
  pub next_skill : ℕ
  pub next_version : ℕ
  pub next_proposal : ℕ

abbrev pub empty_db : Db
empty_db = record {
  skills = [];
  versions = [];
  proposals = [];
  promotions = [];
  next_skill = 1;
  next_version = 1;
  next_proposal = 1;
}

-- What the packages encoding/json and crypto/sha256 compute for `CanonicalSHA`, and the tables of
-- package unicode.
pub record Codecs : Type 0 where
  pub json : Fields → Text
  pub sha256_hex : Text → String
  pub unicode : Unicode

-- What a transaction is given from outside: `now()`, fixed for the transaction, and the identity
-- that the trigger draws for a new row of skill_versions.
pub record Stamp : Type 0 where
  pub now : ℕ
  pub ulid : String

pub data StoreError : Type 0 where
  not_found : StoreError
  invalid : String → StoreError
  constraint : String → StoreError

pub data Result {ℓ} (A : Type ℓ) : Type ℓ where
  ok : A → Result A
  err : StoreError → Result A

-- A statement inside a transaction; an error carries no database, since it is rolled back.
abbrev pub Tx : Type 0 → Type 0
Tx A = Db → Result (A × Db)

abbrev pub and_then {ℓ} : {A B : Type ℓ} → Result A → (A → Result B) → Result B
and_then (ok a) f = f a
and_then (err e) f = err e

infixl 5 ◌>>=◌ ◌>>◌
abbrev pub ◌>>=◌ : {A B : Type 0} → Tx A → (A → Tx B) → Tx B
◌>>=◌ m f db = and_then (m db) (λ r. f r.0 r.1)

abbrev pub ◌>>◌ : {B : Type 0} → Tx (Unit {0}) → Tx B → Tx B
m >> n = m >>= λ _. n

abbrev pub pure : {A : Type 0} → A → Tx A
pure a db = ok (a, db)

abbrev pub raise : {A : Type 0} → StoreError → Tx A
raise e db = err e

abbrev pub require : Bool → StoreError → Tx (Unit {0})
require b e db = if b then ok (tt, db) else err e

abbrev pub settle : {A : Type 0} → Db → Result (A × Db) → Result A × Db
settle db (ok (a, db')) = (ok a, db')
settle db (err e) = (err e, db)

-- BEGIN … COMMIT, with the deferred ROLLBACK.
abbrev pub transaction : {A : Type 0} → Tx A → Db → Result A × Db
transaction m db = settle db (m db)

abbrev pub or_else : String → String → String
or_else s d = if s == "" then d else s

-- skills_status_chk and skills_origin_chk
abbrev pub status_allowed : String → Bool
status_allowed s = s == "draft" || s == "local" || s == "promoted" || s == "retired"

abbrev pub origin_allowed : String → Bool
origin_allowed s = s == "authored" || s == "proposed" || s == "imported"
