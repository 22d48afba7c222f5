-- ===== src/Server/Api.antt =====
-- The requests of internal/server/server.go's router, as chi and encoding/json hand them to the
-- handlers, and the replies of internal/server/errors.go. A body that is no JSON of its type is `none`.
use phantom_skills.Prelude.{ℕ, String, Bool, Option, List, ℤ}
use phantom_skills.Text.{Text}
use phantom_skills.Skillfile.Values.{Fields}
use phantom_skills.Store.Tables.{Db, Version, Proposal, Codecs, Stamp}
use phantom_skills.Store.Queries.{SkillView}
use phantom_skills.Store.Proposals.{ApplyResult}
use phantom_skills.Usage.{UsageEvent, UsageRow}
use phantom_skills.Scopes.{ScopeKey, Registry}
use phantom_skills.Syncer.Run.{SyncResponse}

pub record RegisterReq : Type 0 where
  pub name : String
  pub frontmatter : Fields
  pub body : String
  pub author : String
  pub source : String
  pub origin : String
  pub status : String
  pub tags : List String

pub record CreateProposalReq : Type 0 where
  pub kind : String
  pub skill_name : String
  pub proposed_frontmatter : Option Fields
  pub proposed_body : String
  pub diff : String
  pub rationale : String
  pub session_id : String

-- What decoding leaves in the struct, an error included, which the handlers ignore.
pub record DecideReq : Type 0 where
  pub by : String
  pub reason : String

-- The query of `GET /skills`.
pub record SkillQuery : Type 0 where
  pub status : String
  pub tag : String
  pub after_id : Text
  pub limit : Text

-- The routes whose handlers begin with `requireStore`.
pub data StoreRequest : Type 0 where
  get_skills : SkillQuery → StoreRequest
  post_skill : Option RegisterReq → StoreRequest
  get_one_skill : String → StoreRequest
  put_skill : String → Option RegisterReq → StoreRequest
  delete_one_skill : String → StoreRequest
  get_versions : String → StoreRequest
  get_sync : Text → StoreRequest
  post_usage : Option (List UsageEvent) → StoreRequest
  get_proposals : String → String → StoreRequest
  post_proposal : Option CreateProposalReq → StoreRequest
  get_one_proposal : Text → StoreRequest
  post_approve : Text → DecideReq → StoreRequest
  post_reject : Text → DecideReq → StoreRequest

pub data Request : Type 0 where
  get_health : Request
  get_whoami : Request
  stored : StoreRequest → Request

pub data Body : Type 0 where
  failure : String → Body
  health : String → Bool → ℕ → Body
  scope : ScopeKey → Body
  skill_page : List SkillView → ℕ → Body
  skill_detail : SkillView → Option Version → Body
  registered : String → ℕ → String → Bool → Body
  version_list : List Version → Body
  retired : String → Body
  feed : SyncResponse → Body
  usage_counts : ℕ → ℕ → Body
  proposal_list : List Proposal → Body
  proposal_detail : Proposal → Body
  proposal_created : ℕ → Body
  approval : ℕ → ApplyResult → Body
  rejection : ℕ → Body

pub record Response : Type 0 where
  pub status : ℕ
  pub body : Body

-- `WriteErrorEnvelope` without the message.
abbrev pub write_error_envelope : ℕ → String → Response
write_error_envelope status code = record { status = status; body = failure code }

-- `writeJSON`; the bodies that the handlers give it can all be encoded.
abbrev pub write_json : ℕ → Body → Response
write_json status body = record { status = status; body = body }

-- The arguments of a `RecordDecision` that goes out to phantom-brain.
pub record Learned : Type 0 where
  pub decision : String
  pub kind : String
  pub skill_name : String
  pub by : String

-- What requests change: the tables in Postgres, and what has been sent to phantom-brain.
pub record State : Type 0 where
  pub db : Db
  pub usage : List UsageRow
  pub learned : List Learned

-- The daemon as `Start` has wired it. The store is there if a dsn was configured, and `records` is
-- that a brain was with record_learnings.
pub record Wiring : Type 0 where
  pub registry : Registry
  pub has_store : Bool
  pub brain_enabled : Bool
  pub records : Bool
  pub page : ℤ
  pub codecs : Codecs
  pub folds_to_bearer : Text → Bool
  pub source : ℕ → String

-- What a request is given from outside: the stamps of its transaction, the clock, and whether the
-- database answers a ping.
pub record Moment : Type 0 where
  pub stamp : Stamp
  pub clock : ℕ → ℕ
  pub pings : Bool
