-- ===== src/Store/Proposals.antt =====
-- internal/pgstore/proposals.go: the gate between a proposal and the registry.
use phantom_skills.Prelude.{
  ℕ, ◌+◌, String, Bool, ◌&&◌, ◌||◌, not, Option, none, some, List, [], ◌∷◌, ◌++◌, eqb, leb, take,
  map, select, ◌==◌, if◌then◌else◌, first, exists, update_where,
}
use phantom_skills.Prelude.Order.{sort_by}
use phantom_skills.Skillfile.Values.{Fields, end}
use phantom_skills.Store.Tables.{
  Skill, Proposal, Promotion, Db, Codecs, Stamp, not_found, invalid, Result, ok, err, Tx, ◌>>=◌,
  ◌>>◌, pure, raise, require, transaction,
}
use phantom_skills.Store.Register.{RegisterInput, is_named, register_version_tx, set_status_tx}

pub record ProposalInput : Type 0 where
  pub profile : String
  pub kind : String
  pub skill_name : String
  pub proposed_frontmatter : Option Fields
  pub proposed_body : String
  pub diff : String
  pub rationale : String
  pub evidence : Option Fields
  pub score : Option String
  pub verifier_report : Option Fields
  pub created_by : String

pub record ApplyResult : Type 0 where
  pub kind : String
  pub skill_name : String
  pub version : ℕ
  pub new_status : String

unfoldable pub valid_proposal_kind : String → Bool
valid_proposal_kind k = k == "create" || k == "prune" || k == "promote"

abbrev pub new_proposal : Stamp → ProposalInput → Db → Proposal
new_proposal st r db = record {
  id = db.next_proposal;
  profile = r.profile;
  kind = r.kind;
  skill_name = r.skill_name;
  proposed_frontmatter = r.proposed_frontmatter;
  proposed_body = r.proposed_body;
  diff = r.diff;
  rationale = r.rationale;
  evidence = r.evidence;
  score = r.score;
  verifier_report = r.verifier_report;
  status = "pending";
  created_by = r.created_by;
  decided_by = none;
  decided_reason = none;
  decided_at = none;
  created_at = st.now;
}

unfoldable pub create_proposal_tx : Stamp → ProposalInput → Tx ℕ
unfolding valid_proposal_kind
create_proposal_tx st r = do
  require (valid_proposal_kind r.kind) (invalid "invalid proposal kind")
  require (not (r.skill_name == "")) (invalid "proposal skill_name required")
  λ db. ok (
    db.next_proposal,
    record db {
      proposals = db.proposals ++ new_proposal st r db ∷ [];
      next_proposal = db.next_proposal + 1;
    },
  )

unfoldable pub create_proposal : Stamp → ProposalInput → Db → Result ℕ × Db
unfolding create_proposal_tx
create_proposal st r = transaction (create_proposal_tx st r)

abbrev pub is_proposal : String → ℕ → Proposal → Bool
is_proposal profile id p = p.profile == profile && eqb p.id id

abbrev pub is_pending : String → ℕ → Proposal → Bool
is_pending profile id p = is_proposal profile id p && p.status == "pending"

abbrev pub proposal_or_missing : Option Proposal → Result Proposal
proposal_or_missing none = err not_found
proposal_or_missing (some p) = ok p

unfoldable pub get_proposal : String → ℕ → Db → Result Proposal
get_proposal profile id db = proposal_or_missing (first (is_proposal profile id) db.proposals)

abbrev pub by_id_desc : Proposal → Proposal → Bool
by_id_desc p q = leb q.id p.id

abbrev pub proposal_listed : String → String → String → Proposal → Bool
proposal_listed profile status kind p =
    p.profile == profile && (status == "" || p.status == status) && (kind == "" || p.kind == kind)

-- The columns that the listing selects.
abbrev pub summary : Proposal → Proposal
summary p = record p {
  proposed_frontmatter = none;
  proposed_body = "";
  diff = "";
  evidence = none;
  verifier_report = none;
}

-- ORDER BY id DESC LIMIT 500
unfoldable pub list_proposals : String → String → String → Db → List Proposal
list_proposals profile status kind db =
    map summary
      (take 500 (sort_by by_id_desc (select (proposal_listed profile status kind) db.proposals)))

abbrev pub rejected : Stamp → String → String → Proposal → Proposal
rejected st by reason p = record p {
  status = "rejected";
  decided_by = some by;
  decided_reason = some reason;
  decided_at = some st.now;
}

unfoldable pub reject_tx : Stamp → String → ℕ → String → String → Tx (Unit {0})
reject_tx st profile id by reason db =
    if exists (is_pending profile id) db.proposals
    then ok (
      tt,
      record db {
        proposals = update_where (is_pending profile id) (rejected st by reason) db.proposals;
      },
    )
    else err not_found

unfoldable pub reject_proposal : Stamp → String → ℕ → String → String → Db → Result (Unit {0}) × Db
unfolding reject_tx
reject_proposal st profile id by reason = transaction (reject_tx st profile id by reason)

abbrev or_empty : Option Fields → Fields
or_empty none = end
or_empty (some fs) = fs

-- `create`: the new version's input. Status and origin are used only if the skill is new.
unfoldable pub create_input : String → String → Proposal → RegisterInput
create_input profile source p = record {
  profile = profile;
  name = p.skill_name;
  frontmatter = or_empty p.proposed_frontmatter;
  body = p.proposed_body;
  author = p.created_by;
  source = source;
  origin = "proposed";
  status = "local";
  tags = [];
}

abbrev promoted_row : Stamp → String → ℕ → Promotion
promoted_row st by id = record {
  skill_id = id;
  promoted_at = st.now;
  promoted_by = by;
  demoted_at = none;
}

-- INSERT INTO promotion_state … ON CONFLICT (skill_id) DO UPDATE, for the skill of that name
unfoldable pub record_promotion : Stamp → String → ℕ → List Promotion → List Promotion
record_promotion st by id ps =
    if exists (λ p. eqb p.skill_id id) ps
    then update_where (λ p. eqb p.skill_id id) (λ _. promoted_row st by id) ps
    else ps ++ promoted_row st by id ∷ []

unfoldable pub promote_row : Stamp → String → Option Skill → Tx (Unit {0})
promote_row st by none db = ok (tt, db)
promote_row st by (some s) db =
    ok (tt, record db { promotions = record_promotion st by s.id db.promotions })

abbrev pub applied : Proposal → ℕ → String → ApplyResult
applied p version status = record {
  kind = p.kind;
  skill_name = p.skill_name;
  version = version;
  new_status = status;
}

-- The `switch` on the kind. `source` is `"proposal:" + fmt.Sprint(id)`.
unfoldable pub apply_proposal :
    Codecs → Stamp → String → String → String → Proposal → Tx ApplyResult
unfolding create_input promote_row record_promotion
apply_proposal c st profile by source p =
    if p.kind == "create"
    then (do
      (ver, _) ← register_version_tx c st (create_input profile source p)
      pure (applied p ver.version "local"))
    else if p.kind == "promote"
    then (do
      set_status_tx st profile p.skill_name "promoted"
      λ db. promote_row st by (first (is_named profile p.skill_name) db.skills) db
      pure (applied p 0 "promoted"))
    else if p.kind == "prune"
    then (do set_status_tx st profile p.skill_name "retired"; pure (applied p 0 "retired"))
    else raise (invalid "unknown proposal kind")

abbrev pub approved : Stamp → String → Proposal → Proposal
approved st by p = record p { status = "approved"; decided_by = some by; decided_at = some st.now }

-- UPDATE proposals SET status='approved' … WHERE profile AND id
abbrev pub mark_approved : Stamp → String → ℕ → String → Tx (Unit {0})
mark_approved st profile id by db = ok (
  tt,
  record db { proposals = update_where (is_proposal profile id) (approved st by) db.proposals },
)

unfoldable pub approve_row :
    Codecs → Stamp → String → ℕ → String → (ℕ → String) → Option Proposal → Tx ApplyResult
approve_row c st profile id by source none = raise not_found
approve_row c st profile id by source (some p) = do
  res ← apply_proposal c st profile by (source p.id) p
  mark_approved st profile id by
  pure res

unfoldable pub approve_proposal :
    Codecs → Stamp → String → ℕ → String → (ℕ → String) → Db → Result ApplyResult × Db
unfolding approve_row
approve_proposal c st profile id by source =
    transaction
      (λ db. approve_row c st profile id by source (first (is_pending profile id) db.proposals) db)
