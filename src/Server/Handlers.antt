-- ===== src/Server/Handlers.antt =====
-- The handlers of internal/server/handlers_skills.go, handlers_proposals.go, handlers_usage.go and
-- server.go, for a daemon with a store and a scope that is authenticated.
use phantom_skills.Prelude.{
  ℕ, String, Bool, true, ◌&&◌, Option, none, some, List, [], ◌∷◌, ◌++◌, ◌==◌, if◌then◌else◌, ℤ, pos,
  negsuc,
}
use phantom_skills.Prelude.Strings.{concat}
use phantom_skills.Text.{Text}
use phantom_skills.Text.Decimal.{Parsed, parse_int}
use phantom_skills.Store.Tables.{
  Db, Version, Proposal, StoreError, not_found, invalid, constraint, Result, ok, err,
}
use phantom_skills.Store.Register.{RegisterInput, register_version, retire_skill}
use phantom_skills.Store.Queries.{ListOpts, SkillView, list_skills, get_skill, list_versions}
use phantom_skills.Store.Proposals.{
  ProposalInput, ApplyResult, create_proposal, list_proposals, get_proposal, approve_proposal,
  reject_proposal,
}
use phantom_skills.Usage.{UsageEvent, handle_usage}
use phantom_skills.Usage as Usage
use phantom_skills.Server.Api.{
  RegisterReq, CreateProposalReq, DecideReq, SkillQuery, skill_page, skill_detail, registered,
  version_list, retired, usage_counts, proposal_list, proposal_detail, proposal_created, approval,
  rejection, Response, write_error_envelope, write_json, Learned, State, Wiring, Moment,
}

abbrev pub not_found_reply : Response
not_found_reply = write_error_envelope 404 "NOT_FOUND"

abbrev pub bad_request : Response
bad_request = write_error_envelope 400 "BAD_REQUEST"

abbrev pub internal_error : Response
internal_error = write_error_envelope 500 "INTERNAL_ERROR"

-- `errors.Is(err, pgstore.ErrNotFound)` and any other error.
abbrev pub store_error : StoreError → Response
store_error not_found = not_found_reply
store_error (invalid what) = internal_error
store_error (constraint what) = internal_error

abbrev last_id : List SkillView → ℕ
last_id [] = 0
last_id (v ∷ []) = v.skill.id
last_id (v ∷ w ∷ vs) = last_id (w ∷ vs)

abbrev pub listed_reply : List SkillView → Response
listed_reply skills = write_json 200 (skill_page skills (last_id skills))

-- The errors of the two conversions are ignored.
abbrev pub list_opts : SkillQuery → ListOpts
list_opts q = record {
  status = q.status;
  tag = q.tag;
  after_id = (parse_int q.after_id).value;
  limit = (parse_int q.limit).value;
}

unfoldable pub handle_list_skills : String → SkillQuery → Db → Response
unfolding parse_int list_skills
handle_list_skills profile q db = listed_reply (list_skills profile (list_opts q) db)

abbrev pub skill_reply : Result (SkillView × Option Version) → Response
skill_reply (ok (sk, ver)) = write_json 200 (skill_detail sk ver)
skill_reply (err e) = store_error e

unfoldable pub handle_get_skill : String → String → Db → Response
unfolding get_skill
handle_get_skill profile name db = skill_reply (get_skill profile name db)

abbrev pub versions_reply : Result (List Version) → Response
versions_reply (ok vs) = write_json 200 (version_list vs)
versions_reply (err e) = store_error e

unfoldable pub handle_list_versions : String → String → Db → Response
unfolding list_versions
handle_list_versions profile name db = versions_reply (list_versions profile name db)

abbrev pub register_input : String → String → RegisterReq → RegisterInput
register_input profile name req = record {
  profile = profile;
  name = name;
  frontmatter = req.frontmatter;
  body = req.body;
  author = req.author;
  source = req.source;
  origin = req.origin;
  status = req.status;
  tags = req.tags;
}

-- Any error of RegisterVersion is a 500.
abbrev pub registered_reply : String → Result (Version × Bool) → Response
registered_reply name (ok (ver, created)) =
    write_json (if created then 201 else 200) (registered name ver.version ver.sha created)
registered_reply name (err e) = internal_error

abbrev pub with_db : State → Response → Db → Response × State
with_db s r db = (r, record s { db = db })

-- `registerVersion`, where `path_name` is empty for a POST: the name of the path wins.
unfoldable pub handle_register :
    Wiring → Moment → String → String → Option RegisterReq → State → Response × State
unfolding register_version
handle_register w m profile path_name none s = (bad_request, s)
handle_register w m profile path_name (some req) s =
    let name = if path_name == "" then req.name else path_name in
    if name == ""
    then (bad_request, s)
    else (let r = register_version w.codecs m.stamp (register_input profile name req) s.db in
        with_db s (registered_reply name r.0) r.1)

abbrev pub retired_reply : String → Result (Unit {0}) → Response
retired_reply name (ok u) = write_json 200 (retired name)
retired_reply name (err e) = store_error e

unfoldable pub handle_retire : Moment → String → String → State → Response × State
unfolding retire_skill
handle_retire m profile name s =
    let r = retire_skill m.stamp profile name s.db in with_db s (retired_reply name r.0) r.1

abbrev pub usage_reply : Usage.Reply → Response
usage_reply Usage.unavailable = write_error_envelope 503 "STORAGE_BACKEND_ERROR"
usage_reply Usage.bad_request = bad_request
usage_reply Usage.internal_error = internal_error
usage_reply (Usage.accepted k n) = write_json 200 (usage_counts k n)

unfoldable pub handle_events : Moment → String → Option (List UsageEvent) → State → Response × State
unfolding handle_usage
handle_events m profile body s =
    let r = handle_usage true m.clock profile body s.usage in
    (usage_reply r.0, record s { usage = r.1 })

unfoldable pub handle_list_proposals : String → String → String → Db → Response
unfolding list_proposals
handle_list_proposals profile status kind db =
    write_json 200 (proposal_list (list_proposals profile status kind db))

abbrev pub proposal_reply : Result Proposal → Response
proposal_reply (ok p) = write_json 200 (proposal_detail p)
proposal_reply (err e) = store_error e

-- `createdBy`
abbrev pub created_by : String → String
created_by session = if session == "" then "agent" else concat "agent:" session

abbrev pub proposal_input : String → CreateProposalReq → ProposalInput
proposal_input profile req = record {
  profile = profile;
  kind = if req.kind == "" then "create" else req.kind;
  skill_name = req.skill_name;
  proposed_frontmatter = req.proposed_frontmatter;
  proposed_body = req.proposed_body;
  diff = req.diff;
  rationale = req.rationale;
  evidence = none;
  score = none;
  verifier_report = none;
  created_by = created_by req.session_id;
}

-- Any error of CreateProposal is a 400.
abbrev pub created_reply : Result ℕ → Response
created_reply (ok id) = write_json 201 (proposal_created id)
created_reply (err e) = bad_request

unfoldable pub handle_create_proposal :
    Moment → String → Option CreateProposalReq → State → Response × State
unfolding create_proposal
handle_create_proposal m profile none s = (bad_request, s)
handle_create_proposal m profile (some req) s =
    if req.skill_name == ""
    then (bad_request, s)
    else (let r = create_proposal m.stamp (proposal_input profile req) s.db in
        with_db s (created_reply r.0) r.1)

-- `proposalID`: an id of the path that is a 64-bit number is `some`.
abbrev id_of : Parsed → Option ℤ
id_of p = if p.valid then some p.value else none

unfoldable pub proposal_id : Text → Option ℤ
unfolding parse_int
proposal_id text = id_of (parse_int text)

-- The store with an id: identity columns are positive, so that a negative one has no row.
abbrev pub get_with : String → Db → Option ℤ → Response
get_with profile db none = bad_request
get_with profile db (some (pos id)) = proposal_reply (get_proposal profile id db)
get_with profile db (some (negsuc n)) = store_error not_found

unfoldable pub handle_get_proposal : String → Text → Db → Response
unfolding proposal_id get_proposal
handle_get_proposal profile id db = get_with profile db (proposal_id id)

-- `decideBy`
abbrev pub decide_by : DecideReq → String
decide_by body = if body.by == "" then "operator" else body.by

-- `RecordDecision`, after the transaction has committed.
abbrev pub record_decision : Wiring → String → ApplyResult → List Learned → List Learned
record_decision w by res ls =
    if w.brain_enabled && w.records
    then ls
      ++ record { decision = "approved"; kind = res.kind; skill_name = res.skill_name; by = by }
        ∷ []
    else ls

abbrev pub approve_reply : Wiring → ℕ → String → State → Result ApplyResult → Db → Response × State
approve_reply w id by s (ok res) db = (
  write_json 200 (approval id res),
  record s { db = db; learned = record_decision w by res s.learned },
)
approve_reply w id by s (err e) db = with_db s (store_error e) db

abbrev pub approve_with : Wiring → Moment → String → String → State → Option ℤ → Response × State
approve_with w m profile by s none = (bad_request, s)
approve_with w m profile by s (some (pos id)) =
    let r = approve_proposal w.codecs m.stamp profile id by w.source s.db in
    approve_reply w id by s r.0 r.1
approve_with w m profile by s (some (negsuc n)) = (store_error not_found, s)

unfoldable pub handle_approve :
    Wiring → Moment → String → Text → DecideReq → State → Response × State
unfolding proposal_id approve_proposal
handle_approve w m profile id body s = approve_with w m profile (decide_by body) s (proposal_id id)

abbrev pub reject_reply : ℕ → Result (Unit {0}) → Response
reject_reply id (ok u) = write_json 200 (rejection id)
reject_reply id (err e) = store_error e

abbrev pub reject_with : Moment → String → DecideReq → State → Option ℤ → Response × State
reject_with m profile body s none = (bad_request, s)
reject_with m profile body s (some (pos id)) =
    let r = reject_proposal m.stamp profile id (decide_by body) body.reason s.db in
    with_db s (reject_reply id r.0) r.1
reject_with m profile body s (some (negsuc n)) = (store_error not_found, s)

unfoldable pub handle_reject : Moment → String → Text → DecideReq → State → Response × State
unfolding proposal_id reject_proposal
handle_reject m profile id body s = reject_with m profile body s (proposal_id id)
