-- ===== src/Tests/Registry.antt =====
-- The registry and the gate at concrete inputs.
use phantom_skills.Prelude.{
  arith, ℕ, ◌<◌, ◌&&◌, ◌+◌, ◌≡◌, refl, true, false, none, some, [], ◌∷◌, leb, if◌then◌else◌,
}
use phantom_skills.Text.{Unicode, is_blank}
use phantom_skills.Skillfile.Values.{end, field, str}
use phantom_skills.Skillfile.Slug.{slugify}
use phantom_skills.Store.Tables.{Skill, Version, Db, Codecs, Stamp, empty_db, ok}
use phantom_skills.Store.Register.{
  RegisterInput, canonical_sha, register_version, set_status_tx, max_version,
}
use phantom_skills.Store.Queries.{get_skill}
use phantom_skills.Store.Proposals.{
  ProposalInput, ApplyResult, create_proposal, approve_proposal, apply_proposal,
}
use phantom_skills.Store.Valid.{IsValid}
use phantom_skills.Store.Versions.{register_version_idem, get_skill-register}
use phantom_skills.Store.Gate.{Decision, approve, reject, decide, decided_once}
use phantom_skills.Store.Effects.{Approved, approve_effect}
use phantom_skills.Store.Reach
use phantom_skills.Store.Reach.{perform_all, perform_all-IsValid}

abbrev ascii_lower : ℕ → ℕ
ascii_lower c = if leb 65 c then (if leb c 90 then c + 32 else c) else c

pub lower_ascii : (c : ℕ) → c < 128 → ascii_lower c ≡ (if leb 65 c && leb c 90 then c + 32 else c)
lower_ascii c h = ground arith

abbrev unicode : Unicode
unicode = record { to_lower = ascii_lower; to_lower_ascii = lower_ascii }

-- A hash that tells bodies apart by whether they are empty.
abbrev pub codecs : Codecs
codecs = record {
  json = λ fs. [];
  sha256_hex = λ t. elim t [ [] ↦ "e0" | c ∷ rest ↦ elim rest [ [] ↦ "e1" | _ ↦ "e2" ] ];
  unicode = unicode;
}

abbrev at : ℕ → Stamp
at t = record { now = t; ulid = "01" }

abbrev lint : RegisterInput
lint = record {
  profile = "personal";
  name = "lint";
  frontmatter = field "name" (str "lint") end;
  body = "Run the linter.";
  author = "me";
  source = "cli";
  origin = "";
  status = "";
  tags = [];
}

program : Unit {0}
unfolding register_version create_proposal approve_proposal apply_proposal set_status_tx decide
    is_blank canonical_sha slugify perform_all
program = tt

abbrev registered : Db
registered = (register_version codecs (at 10) lint empty_db).1

abbrev lint_version : Version
lint_version = record {
  id = 1;
  skill_id = 1;
  version = 1;
  sha = "e2";
  frontmatter = field "name" (str "lint") end;
  body = "Run the linter.";
  author = "me";
  source = "cli";
  created_at = 10;
  row_ulid = some "01";
}

first_time : register_version codecs (at 10) lint empty_db ≡ (ok (lint_version, true), registered)
unfolding program
first_time = refl

register_version_idem_example :
    ((register_version codecs (at 20) lint registered).0 ≡ ok (lint_version, false))
    × ((register_version codecs (at 20) lint registered).1.versions ≡ registered.versions)
register_version_idem_example =
    register_version_idem codecs (at 10) (at 20) lint empty_db registered lint_version true
      first_time

pub empty-IsValid : IsValid empty_db
unfolding perform_all
empty-IsValid = perform_all-IsValid codecs (λ n. "proposal") []

get_skill-register_example :
    (s : Skill) × (get_skill "personal" "lint" registered
      ≡ ok (record { skill = s; version = 1; sha = "e2" }, some lint_version))
    × (lint_version.body ≡ "Run the linter.")
    × (lint_version.sha ≡ canonical_sha codecs lint.frontmatter lint.body)
    × (lint_version.version ≡ max_version s.id empty_db.versions + 1)
get_skill-register_example =
    get_skill-register codecs (at 10) (at 20) lint empty_db registered lint_version true first_time
      refl empty-IsValid

abbrev promote_lint : ProposalInput
promote_lint = record {
  profile = "personal";
  kind = "promote";
  skill_name = "lint";
  proposed_frontmatter = none;
  proposed_body = "";
  diff = "";
  rationale = "";
  evidence = none;
  score = none;
  verifier_report = none;
  created_by = "agent";
}

abbrev proposed : Db
proposed = (create_proposal (at 30) promote_lint registered).1

abbrev promoted : Db
promoted = (approve_proposal codecs (at 40) "personal" 1 "operator" (λ n. "proposal:1") proposed).1

abbrev promote_reply : ApplyResult
promote_reply = record {
  kind = "promote";
  skill_name = "lint";
  version = 0;
  new_status = "promoted";
}

promotes :
    approve_proposal codecs (at 40) "personal" 1 "operator" (λ n. "proposal:1") proposed
    ≡ (ok promote_reply, promoted)
unfolding program
promotes = refl

approve_effect_example : Approved "personal" 1 proposed promote_reply promoted
approve_effect_example =
    approve_effect codecs (at 40) "personal" 1 "operator" (λ n. "proposal:1") proposed promote_reply
      promoted promotes

abbrev approval : Decision "personal" 1
approval = approve codecs (at 40) "operator" (λ n. "proposal:1")

approved_first : decide "personal" 1 approval proposed ≡ (true, promoted)
unfolding program
approved_first = refl

decided_once_example :
    decide "personal" 1 (reject (at 50) "operator" "late") promoted ≡ (false, promoted)
decided_once_example =
    decided_once "personal" 1 approval (reject (at 50) "operator" "late") proposed promoted
      approved_first

perform_all-IsValid_example : IsValid (
    perform_all codecs
      (λ n. "proposal:1")
      (Reach.register (at 10) lint
        ∷ Reach.propose (at 30) promote_lint
        ∷ Reach.approve (at 40) "personal" 1 "operator"
        ∷ Reach.approve (at 50) "personal" 1 "operator"
        ∷ [])
      empty_db)
perform_all-IsValid_example =
    perform_all-IsValid codecs (λ n. "proposal:1")
      (Reach.register (at 10) lint
        ∷ Reach.propose (at 30) promote_lint
        ∷ Reach.approve (at 40) "personal" 1 "operator"
        ∷ Reach.approve (at 50) "personal" 1 "operator"
        ∷ [])
