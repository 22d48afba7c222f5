-- ===== src/Server/Routes.antt =====
-- The router of internal/server/server.go with the guards of internal/server/auth.go and
-- `requireStore`: the reply to a request, and the state after it.
pub mod Refused
pub mod Calls
pub mod Isolation
pub mod Registering
use phantom_skills.Prelude.{String, Bool, true, false, Option, none, some, if◌then◌else◌, length}
use phantom_skills.Text.{Text}
use phantom_skills.Scopes.{ScopeBinding, authenticate}
use phantom_skills.Server.Feed.{handle_sync}
use phantom_skills.Server.Api.{
  StoreRequest, Request, get_health, get_whoami, stored, get_skills, post_skill, get_one_skill,
  put_skill, delete_one_skill, get_versions, get_sync, post_usage, get_proposals, post_proposal,
  get_one_proposal, post_approve, post_reject, health, scope, feed, Response, write_error_envelope,
  write_json, State, Wiring, Moment,
}
use phantom_skills.Server.Handlers.{
  handle_list_skills, handle_get_skill, handle_list_versions, handle_register, handle_retire,
  handle_events, handle_list_proposals, handle_create_proposal, handle_get_proposal, handle_approve,
  handle_reject,
}

-- `pg` of handleHealth
abbrev postgres_state : Bool → Bool → String
postgres_state false pings = "disabled"
postgres_state true pings = if pings then "ok" else "unreachable"

unfoldable pub handle_health : Wiring → Moment → Response
handle_health w m =
    write_json 200
      (health (postgres_state w.has_store m.pings) w.brain_enabled (length w.registry.by_scope))

abbrev pub unauthorized : Response
unauthorized = write_error_envelope 401 "INVALID_TOKEN"

abbrev pub no_store : Response
no_store = write_error_envelope 503 "STORAGE_BACKEND_ERROR"

-- What the routes do once `requireStore` has let them.
unfoldable pub with_store : Wiring → Moment → String → StoreRequest → State → Response × State
unfolding handle_list_skills handle_get_skill handle_list_versions handle_register handle_retire
    handle_sync handle_events handle_list_proposals handle_create_proposal handle_get_proposal
    handle_approve handle_reject
with_store w m profile (get_skills q) s = (handle_list_skills profile q s.db, s)
with_store w m profile (post_skill body) s = handle_register w m profile "" body s
with_store w m profile (get_one_skill name) s = (handle_get_skill profile name s.db, s)
with_store w m profile (put_skill name body) s = handle_register w m profile name body s
with_store w m profile (delete_one_skill name) s = handle_retire m profile name s
with_store w m profile (get_versions name) s = (handle_list_versions profile name s.db, s)
with_store w m profile (get_sync since) s =
    (write_json 200 (feed (handle_sync profile w.page s.db since)), s)
with_store w m profile (post_usage body) s = handle_events m profile body s
with_store w m profile (get_proposals status kind) s =
    (handle_list_proposals profile status kind s.db, s)
with_store w m profile (post_proposal body) s = handle_create_proposal m profile body s
with_store w m profile (get_one_proposal id) s = (handle_get_proposal profile id s.db, s)
with_store w m profile (post_approve id body) s = handle_approve w m profile id body s
with_store w m profile (post_reject id body) s = handle_reject m profile id body s

-- `requireStore`
unfoldable pub require_store : Wiring → Moment → String → StoreRequest → State → Response × State
unfolding with_store
require_store w m profile req s =
    if w.has_store then with_store w m profile req s else (no_store, s)

-- The scope that the middleware has put into the context.
abbrev pub authorized : Wiring → Moment → Request → State → ScopeBinding → Response × State
unfolding require_store handle_health
authorized w m get_health s b = (handle_health w m, s)
authorized w m get_whoami s b = (write_json 200 (scope b.key), s)
authorized w m (stored req) s b = require_store w m b.key.profile req s

abbrev pub guarded : Wiring → Moment → Request → State → Option ScopeBinding → Response × State
guarded w m req s none = (unauthorized, s)
guarded w m req s (some b) = authorized w m req s b

-- A request with its Authorization header; all but the liveness check pass the middleware.
unfoldable pub serve : Wiring → Moment → Text → Request → State → Response × State
unfolding handle_health require_store authenticate
serve w m header get_health s = (handle_health w m, s)
serve w m header req s = guarded w m req s (authenticate w.folds_to_bearer w.registry header)
