-- ===== src/Server/Routes/Refused.antt =====
-- What a request that is refused leaves.
use phantom_skills.Prelude.{
  ℕ, ◌≤◌, ◌<◌, ◌≡◌, refl, String, Bool, true, false, Option, none, some, first, List, [], ◌∷◌,
  length, arith, inl, inr, Bool-cases, if◌then◌else◌, ◌==◌, ℤ, pos, negsuc,
}
use phantom_skills.Text.{Text}
use phantom_skills.Store.Tables.{Version, Db, Result, ok, err, settle}
use phantom_skills.Store.Register.{
  register_version_tx, register_version, set_status_tx, retire_skill,
}
use phantom_skills.Store.Proposals.{
  ApplyResult, create_proposal_tx, create_proposal, is_pending, approve_row, approve_proposal,
  reject_tx, reject_proposal,
}
use phantom_skills.Usage.{
  UsageEvent, UsageRow, ingest_all, ingest_usage, handle_usage, commit, replied,
}
use phantom_skills.Scopes.{ScopeBinding, authenticate}
use phantom_skills.Server.Api.{
  RegisterReq, CreateProposalReq, DecideReq, StoreRequest, Request, get_health, get_whoami, stored,
  get_skills, post_skill, get_one_skill, put_skill, delete_one_skill, get_versions, get_sync,
  post_usage, get_proposals, post_proposal, get_one_proposal, post_approve, post_reject, Response,
  State, Wiring, Moment,
}
use phantom_skills.Server.Handlers.{
  register_input, registered_reply, handle_register, retired_reply, handle_retire, handle_events,
  usage_reply, proposal_input, created_reply, handle_create_proposal, decide_by, approve_reply,
  approve_with, handle_approve, reject_reply, reject_with, handle_reject, proposal_id, with_db,
  bad_request,
}
use phantom_skills.Server.Routes.{with_store, require_store, authorized, guarded, serve}

-- A refusal leaves the state.
abbrev Calm : State → Response × State → Type 0
Calm s r = 400 ≤ r.0.status → r.1 ≡ s

-- A transaction that is answered with an error has been rolled back.
settled-Calm :
    {A : Type 0} (reply : Result A → Response)
    → ((a : A) → (reply (ok a)).status < 400)
    → (s : State) (m : Result (A × Db))
    → Calm s (with_db s (reply (settle s.db m).0) (settle s.db m).1)
settled-Calm reply fine s (ok (a, db)) = λ h. absurd (omega (arith, fine a, h))
settled-Calm reply fine s (err e) = λ h. refl

either-Calm :
    (b : Bool) (s : State) (q r : Response × State)
    → Calm s q
    → Calm s r
    → Calm s (if b then q else r)
either-Calm true s q r h k = h
either-Calm false s q r h k = k

registered_fine :
    (name : String) (v : Version) (created : Bool)
    → (registered_reply name (ok (v, created))).status < 400
registered_fine name v true = omega arith
registered_fine name v false = omega arith

module _ (w : Wiring) (m : Moment) (profile : String) where
  register-Calm :
      (name : String) (body : Option RegisterReq) (s : State)
      → Calm s (handle_register w m profile name body s)
  unfolding handle_register register_version
  register-Calm name none s = λ h. refl
  register-Calm name (some req) s =
      let given = if name == "" then req.name else name in
      either-Calm (given == "") s (bad_request, s) _ (λ h. refl)
        (settled-Calm (registered_reply given) (λ vb. registered_fine given vb.0 vb.1) s
          (register_version_tx w.codecs m.stamp (register_input profile given req) s.db))

  retire-Calm : (name : String) (s : State) → Calm s (handle_retire m profile name s)
  unfolding handle_retire retire_skill
  retire-Calm name s =
      settled-Calm (retired_reply name) (λ u. omega arith) s
        (set_status_tx m.stamp profile name "retired" s.db)

  commit-Calm :
      (n : ℕ) (s : State) (r : Result (ℕ × List UsageRow))
      → Calm s (
        usage_reply (replied n (commit s.usage r)).0,
        record s { usage = (replied n (commit s.usage r)).1 },
      )
  commit-Calm n s (ok (k, rows)) = λ h. absurd (omega (arith, h))
  commit-Calm n s (err e) = λ h. refl

  events-Calm :
      (body : Option (List UsageEvent)) (s : State) → Calm s (handle_events m profile body s)
  unfolding handle_events handle_usage ingest_usage
  events-Calm none s = λ h. refl
  events-Calm (some []) s = λ h. refl
  events-Calm (some (e ∷ es)) s =
      commit-Calm (length (e ∷ es)) s (ingest_all m.clock 0 profile (e ∷ es) s.usage)

  create-Calm :
      (body : Option CreateProposalReq) (s : State)
      → Calm s (handle_create_proposal m profile body s)
  unfolding handle_create_proposal create_proposal
  create-Calm none s = λ h. refl
  create-Calm (some req) s =
      either-Calm (req.skill_name == "") s (bad_request, s) _ (λ h. refl)
        (settled-Calm created_reply (λ id. omega arith) s
          (create_proposal_tx m.stamp (proposal_input profile req) s.db))

  approve_reply-Calm :
      (id : ℕ) (by : String) (s : State) (r : Result (ApplyResult × Db))
      → Calm s (approve_reply w id by s (settle s.db r).0 (settle s.db r).1)
  approve_reply-Calm id by s (ok (res, db)) = λ h. absurd (omega (arith, h))
  approve_reply-Calm id by s (err e) = λ h. refl

  approve_with-Calm :
      (by : String) (s : State) (id : Option ℤ) → Calm s (approve_with w m profile by s id)
  unfolding approve_proposal
  approve_with-Calm by s none = λ h. refl
  approve_with-Calm by s (some (pos id)) = approve_reply-Calm id by s (
      approve_row w.codecs m.stamp profile id by w.source
        (first (is_pending profile id) s.db.proposals) s.db)
  approve_with-Calm by s (some (negsuc n)) = λ h. refl

  reject_with-Calm :
      (body : DecideReq) (s : State) (id : Option ℤ) → Calm s (reject_with m profile body s id)
  unfolding reject_proposal
  reject_with-Calm body s none = λ h. refl
  reject_with-Calm body s (some (pos id)) =
      settled-Calm (reject_reply id) (λ u. omega arith) s
        (reject_tx m.stamp profile id (decide_by body) body.reason s.db)
  reject_with-Calm body s (some (negsuc n)) = λ h. refl

  with_store-Calm : (req : StoreRequest) (s : State) → Calm s (with_store w m profile req s)
  unfolding with_store handle_approve handle_reject
  with_store-Calm (get_skills q) s = λ h. refl
  with_store-Calm (post_skill body) s = register-Calm "" body s
  with_store-Calm (get_one_skill name) s = λ h. refl
  with_store-Calm (put_skill name body) s = register-Calm name body s
  with_store-Calm (delete_one_skill name) s = retire-Calm name s
  with_store-Calm (get_versions name) s = λ h. refl
  with_store-Calm (get_sync since) s = λ h. refl
  with_store-Calm (post_usage body) s = events-Calm body s
  with_store-Calm (get_proposals status kind) s = λ h. refl
  with_store-Calm (post_proposal body) s = create-Calm body s
  with_store-Calm (get_one_proposal id) s = λ h. refl
  with_store-Calm (post_approve id body) s = approve_with-Calm (decide_by body) s (proposal_id id)
  with_store-Calm (post_reject id body) s = reject_with-Calm body s (proposal_id id)

module _ (w : Wiring) (m : Moment) where
  require_store-Calm :
      (profile : String) (req : StoreRequest) (s : State) → Calm s (require_store w m profile req s)
  unfolding require_store
  require_store-Calm profile req s = elim (Bool-cases w.has_store) [
    | inl e ↦ rw (e, require_store) (with_store-Calm w m profile req s)
    | inr e ↦ rw (e, require_store) (λ h. refl)
  ]

  guarded-Calm :
      (req : Request) (s : State) (b : Option ScopeBinding) → Calm s (guarded w m req s b)
  unfolding authorized
  guarded-Calm req s none = λ h. refl
  guarded-Calm get_health s (some b) = λ h. refl
  guarded-Calm get_whoami s (some b) = λ h. refl
  guarded-Calm (stored req) s (some b) = require_store-Calm b.key.profile req s

-- A request that is answered with an error status, on any route and for whatever reason, has changed
-- nothing: not the registry, not the usage events, and nothing has been sent to phantom-brain.
pub serve-refused :
    (w : Wiring) (m : Moment) (header : Text) (req : Request) (s : State)
    → 400 ≤ (serve w m header req s).0.status
    → (serve w m header req s).1 ≡ s
unfolding serve
serve-refused w m header get_health s h = refl
serve-refused w m header get_whoami s h =
    guarded-Calm w m get_whoami s (authenticate w.folds_to_bearer w.registry header) h
serve-refused w m header (stored req) s h =
    guarded-Calm w m (stored req) s (authenticate w.folds_to_bearer w.registry header) h
