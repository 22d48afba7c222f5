-- ===== src/Server/Routes/Calls.antt =====
-- What the router does to the registry, in terms of the store's own calls.
use phantom_skills.Prelude.{
  ℕ, ◌≡◌, refl, sym, subst, String, Bool, true, false, Option, none, some, List, [], ◌∷◌, ◌==◌,
  if◌then◌else◌, ℤ, pos, negsuc,
}
use phantom_skills.Text.{Text}
use phantom_skills.Store.Tables.{Db, Result, ok, err}
use phantom_skills.Store.Proposals.{ApplyResult, approve_proposal}
use phantom_skills.Store.Valid.{IsValid}
use phantom_skills.Store.Reach.{
  Call, register, retire, propose, approve, reject, perform, perform-IsValid,
}
use phantom_skills.Store.Tenants.Writes.{profile_of}
use phantom_skills.Scopes.{ScopeBinding, authenticate}
use phantom_skills.Server.Api.{
  RegisterReq, CreateProposalReq, DecideReq, StoreRequest, Request, get_health, get_whoami, stored,
  get_skills, post_skill, get_one_skill, put_skill, delete_one_skill, get_versions, get_sync,
  post_usage, get_proposals, post_proposal, get_one_proposal, post_approve, post_reject, Response,
  State, Wiring, Moment,
}
use phantom_skills.Server.Handlers.{
  register_input, handle_register, handle_retire, proposal_input, handle_create_proposal, decide_by,
  approve_reply, approve_with, handle_approve, reject_with, handle_reject, proposal_id,
  handle_events,
}
use phantom_skills.Server.Routes.{with_store, require_store, authorized, guarded, serve}

-- The store's call, if there is one.
abbrev pub perform_maybe : Wiring → Option Call → Db → Db
perform_maybe w none db = db
perform_maybe w (some call) db = perform w.codecs w.source call db

abbrev pub IsFor : String → Option Call → Type 0
IsFor profile none = Unit
IsFor profile (some call) = profile_of call ≡ profile

-- A step on the state is one call at most, for the profile.
abbrev pub Refines : Wiring → String → State → State → Type 0
Refines w profile s t =
    (call : Option Call) × (t.db ≡ perform_maybe w call s.db) × IsFor profile call

module _ (w : Wiring) (m : Moment) (profile : String) where
  either-Refines :
      (b : Bool) (s : State) (q r : Response × State)
      → Refines w profile s q.1
      → Refines w profile s r.1
      → Refines w profile s ((if b then q else r).1)
  either-Refines true s q r h k = h
  either-Refines false s q r h k = k

  register-Refines :
      (name : String) (body : Option RegisterReq) (s : State)
      → Refines w profile s (handle_register w m profile name body s).1
  unfolding handle_register perform
  register-Refines name none s = (none, refl, tt)
  register-Refines name (some req) s =
      let given = if name == "" then req.name else name in
      either-Refines (given == "") s (_, s) _ (none, refl, tt)
        (some (register m.stamp (register_input profile given req)), refl, refl)

  create-Refines :
      (body : Option CreateProposalReq) (s : State)
      → Refines w profile s (handle_create_proposal m profile body s).1
  unfolding handle_create_proposal perform
  create-Refines none s = (none, refl, tt)
  create-Refines (some req) s =
      either-Refines (req.skill_name == "") s (_, s) _ (none, refl, tt)
        (some (propose m.stamp (proposal_input profile req)), refl, refl)

  approve_reply-db :
      (id : ℕ) (by : String) (s : State) (r : Result ApplyResult) (db : Db)
      → (approve_reply w id by s r db).1.db ≡ db
  approve_reply-db id by s (ok res) db = refl
  approve_reply-db id by s (err e) db = refl

  approve-Refines :
      (by : String) (s : State) (id : Option ℤ)
      → Refines w profile s (approve_with w m profile by s id).1
  unfolding perform
  approve-Refines by s none = (none, refl, tt)
  approve-Refines by s (some (pos id)) =
      let r = approve_proposal w.codecs m.stamp profile id by w.source s.db in
      (some (approve m.stamp profile id by), approve_reply-db id by s r.0 r.1, refl)
  approve-Refines by s (some (negsuc n)) = (none, refl, tt)

  reject-Refines :
      (body : DecideReq) (s : State) (id : Option ℤ)
      → Refines w profile s (reject_with m profile body s id).1
  unfolding perform
  reject-Refines body s none = (none, refl, tt)
  reject-Refines body s (some (pos id)) =
      (some (reject m.stamp profile id (decide_by body) body.reason), refl, refl)
  reject-Refines body s (some (negsuc n)) = (none, refl, tt)

  with_store-Refines :
      (req : StoreRequest) (s : State) → Refines w profile s (with_store w m profile req s).1
  unfolding with_store handle_approve handle_reject handle_retire handle_events perform
  with_store-Refines (get_skills q) s = (none, refl, tt)
  with_store-Refines (post_skill body) s = register-Refines "" body s
  with_store-Refines (get_one_skill name) s = (none, refl, tt)
  with_store-Refines (put_skill name body) s = register-Refines name body s
  with_store-Refines (delete_one_skill name) s = (some (retire m.stamp profile name), refl, refl)
  with_store-Refines (get_versions name) s = (none, refl, tt)
  with_store-Refines (get_sync since) s = (none, refl, tt)
  with_store-Refines (post_usage body) s = (none, refl, tt)
  with_store-Refines (get_proposals status kind) s = (none, refl, tt)
  with_store-Refines (post_proposal body) s = create-Refines body s
  with_store-Refines (get_one_proposal id) s = (none, refl, tt)
  with_store-Refines (post_approve id body) s = approve-Refines (decide_by body) s (proposal_id id)
  with_store-Refines (post_reject id body) s = reject-Refines body s (proposal_id id)

  require_store-Refines :
      (req : StoreRequest) (s : State) → Refines w profile s (require_store w m profile req s).1
  unfolding require_store
  require_store-Refines req s =
      either-Refines w.has_store s (with_store w m profile req s) (_, s) (with_store-Refines req s)
        (none, refl, tt)

-- Which calls a request with that scope may make: none without a scope, and those for the scope's
-- profile with one.
abbrev pub Permits : Option ScopeBinding → Option Call → Type 0
Permits b none = Unit
Permits none (some call) = ⊥
Permits (some b) (some call) = profile_of call ≡ b.key.profile

abbrev pub Serves : Wiring → Option ScopeBinding → State → State → Type 0
Serves w b s t = (call : Option Call) × (t.db ≡ perform_maybe w call s.db) × Permits b call

module _ (w : Wiring) (m : Moment) (s : State) where
  permitted :
      (b : ScopeBinding) (call : Option Call) → IsFor b.key.profile call → Permits (some b) call
  permitted b none h = tt
  permitted b (some call) h = h

  guarded-Serves : (req : Request) (b : Option ScopeBinding) → Serves w b s (guarded w m req s b).1
  unfolding authorized
  guarded-Serves req none = (none, refl, tt)
  guarded-Serves get_health (some b) = (none, refl, tt)
  guarded-Serves get_whoami (some b) = (none, refl, tt)
  guarded-Serves (stored req) (some b) =
      let (call, e, own) = require_store-Refines w m b.key.profile req s in
      (call, e, permitted b call own)

-- On the registry's tables a request does what one call of the store does, or nothing. The call is
-- made for the profile of the scope whose token the request bears, and without such a token there is
-- none.
pub serve-Serves :
    (w : Wiring) (m : Moment) (header : Text) (req : Request) (s : State)
    → Serves w (authenticate w.folds_to_bearer w.registry header) s (serve w m header req s).1
unfolding serve
serve-Serves w m header get_health s = (none, refl, tt)
serve-Serves w m header get_whoami s =
    guarded-Serves w m s get_whoami (authenticate w.folds_to_bearer w.registry header)
serve-Serves w m header (stored req) s =
    guarded-Serves w m s (stored req) (authenticate w.folds_to_bearer w.registry header)

-- Requests one after the other.
unfoldable pub serve_all : Wiring → List (Moment × Text × Request) → State → State
unfolding serve
serve_all w [] s = s
serve_all w ((m, header, req) ∷ reqs) s = serve_all w reqs (serve w m header req s).1

perform_maybe-IsValid :
    (w : Wiring) (call : Option Call) (db : Db) → IsValid db → IsValid (perform_maybe w call db)
perform_maybe-IsValid w none db v = v
perform_maybe-IsValid w (some call) db v = perform-IsValid w.codecs w.source call db v

pub serve-IsValid :
    (w : Wiring) (m : Moment) (header : Text) (req : Request) (s : State)
    → IsValid s.db
    → IsValid (serve w m header req s).1.db
serve-IsValid w m header req s v =
    let (call, e, own) = serve-Serves w m header req s in
    subst IsValid (sym e) (perform_maybe-IsValid w call s.db v)

-- Whatever requests the daemon serves, with whatever tokens, the constraints of the registry's tables
-- hold afterwards if they held before: unique ids, names, version numbers and contents, and every
-- current version a version of its own skill.
pub serve_all-IsValid :
    (w : Wiring) (reqs : List (Moment × Text × Request)) (s : State)
    → IsValid s.db
    → IsValid (serve_all w reqs s).db
unfolding serve_all
serve_all-IsValid w [] s v = v
serve_all-IsValid w ((m, header, req) ∷ reqs) s v =
    serve_all-IsValid w reqs (serve w m header req s).1 (serve-IsValid w m header req s v)
