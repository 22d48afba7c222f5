-- ===== src/Tests/Http.antt =====
-- Requests to the daemon at concrete inputs.
use phantom_skills.Prelude.{
  ℕ, ◌≤◌, ◌≡◌, refl, true, false, some, List, [], ◌∷◌, ◌==◌, codes, pos, arith,
}
use phantom_skills.Text.{Text, text_eq, is_blank}
use phantom_skills.Skillfile.Values.{end, field, str}
use phantom_skills.Skillfile.Slug.{slugify}
use phantom_skills.Store.Tables.{Version, empty_db}
use phantom_skills.Store.Register.{register_version, canonical_sha}
use phantom_skills.Store.Queries.{SkillView}
use phantom_skills.Store.Valid.{IsValid}
use phantom_skills.Scopes.{ScopeBinding, load, binding_of, authenticate, bearer_from_header}
use phantom_skills.Server.Api.{
  RegisterReq, StoreRequest, Request, stored, put_skill, get_one_skill, post_approve, skill_detail,
  registered, write_json, State, Wiring, Moment,
}
use phantom_skills.Server.Routes.{serve}
use phantom_skills.Server.Routes.Refused.{serve-refused}
use phantom_skills.Server.Routes.Calls.{Serves, serve-Serves, serve_all, serve_all-IsValid}
use phantom_skills.Server.Routes.Isolation.{serve-isolated}
use phantom_skills.Server.Routes.Registering.{put-get}
use phantom_skills.Tests.Registry.{codecs, empty-IsValid}
use phantom_skills.Tests.Tokens.{
  registry, folds, defaults, personal, no_overrides, personal_auth, work, work_overrides, work_auth,
}

abbrev daemon : Wiring
daemon = record {
  registry = registry;
  has_store = true;
  brain_enabled = false;
  records = false;
  page = pos 100;
  codecs = codecs;
  folds_to_bearer = folds;
  source = λ n. "proposal";
}

abbrev at : ℕ → Moment
at t = record { stamp = record { now = t; ulid = "01" }; clock = λ i. t; pings = true }

abbrev idle : State
idle = record { db = empty_db; usage = []; learned = [] }

abbrev lint : RegisterReq
lint = record {
  name = "";
  frontmatter = field "name" (str "lint") end;
  body = "Run the linter.";
  author = "me";
  source = "cli";
  origin = "";
  status = "";
  tags = [];
}

abbrev personal_header : Text
personal_header = codes "bearer s3cret"

abbrev work_header : Text
work_header = codes "bearer 0ther"

abbrev personal_scope : ScopeBinding
personal_scope = binding_of defaults personal no_overrides personal_auth

abbrev work_scope : ScopeBinding
work_scope = binding_of defaults work work_overrides work_auth

program : Unit {0}
unfolding load binding_of serve register_version is_blank canonical_sha slugify text_eq
    bearer_from_header authenticate serve_all
program = tt

abbrev put_lint : Request
put_lint = stored (put_skill "lint" (some lint))

abbrev after_put : State
after_put = (serve daemon (at 10) personal_header put_lint idle).1

put_status : (serve daemon (at 10) personal_header put_lint idle).0.status ≡ 201
unfolding program
put_status = refl

-- A decision on a proposal that is not there.
refused_status :
    (serve daemon
      (at 10)
      personal_header
      (stored (post_approve (codes "7") (record { by = ""; reason = "" })))
      idle).0.status
    ≡ 404
unfolding program
refused_status = refl

abbrev approve_missing : Request
approve_missing = stored (post_approve (codes "7") (record { by = ""; reason = "" }))

not_found_status : 400 ≤ (serve daemon (at 20) personal_header approve_missing after_put).0.status
unfolding program
not_found_status = omega arith

serve-refused_example :
    (serve daemon (at 20) personal_header approve_missing after_put).1 ≡ after_put
serve-refused_example =
    serve-refused daemon (at 20) personal_header approve_missing after_put not_found_status

serve-Serves_example :
    Serves daemon
      (authenticate folds registry work_header)
      idle
      (serve daemon (at 10) work_header put_lint idle).1
serve-Serves_example = serve-Serves daemon (at 10) work_header put_lint idle

abbrev reqs : List (Moment × Text × Request)
reqs =
    (at 10, personal_header, put_lint)
    ∷ (at 20, work_header, put_lint)
    ∷ (at 30, personal_header, approve_missing)
    ∷ []

serve_all-IsValid_example : IsValid (serve_all daemon reqs idle).db
serve_all-IsValid_example = serve_all-IsValid daemon reqs idle empty-IsValid

personal_known : authenticate folds registry personal_header ≡ some personal_scope
unfolding program
personal_known = refl

work_known : authenticate folds registry work_header ≡ some work_scope
unfolding program
work_known = refl

other_profile : (work_scope.key.profile == personal_scope.key.profile) ≡ false
unfolding program
other_profile = refl

abbrev get_lint : StoreRequest
get_lint = get_one_skill "lint"

serve-isolated_example :
    (serve daemon
      (at 20)
      work_header
      (stored get_lint)
      (serve daemon (at 10) personal_header put_lint idle).1).0
    ≡ (serve daemon (at 20) work_header (stored get_lint) idle).0
serve-isolated_example =
    serve-isolated daemon (at 10) (at 20) personal_header work_header put_lint get_lint idle
      personal_scope work_scope personal_known work_known other_profile empty-IsValid refl

put-get_example :
    (v : Version) × (sk : SkillView) × ((serve daemon (at 10) personal_header put_lint idle).0
      ≡ write_json 201 (registered "lint" v.version v.sha true))
    × ((serve daemon (at 20) personal_header (stored get_lint) after_put).0
        ≡ write_json 200 (skill_detail sk (some v)))
    × (v.body ≡ "Run the linter.")
    × (v.sha ≡ canonical_sha codecs lint.frontmatter lint.body)
    × ((serve daemon (at 20) personal_header put_lint after_put).0
        ≡ write_json 200 (registered "lint" v.version v.sha false))
    × ((serve daemon (at 20) personal_header put_lint after_put).1.db.versions
        ≡ after_put.db.versions)
put-get_example =
    put-get daemon personal_header personal_scope personal_known refl (at 10) (at 20) "lint" lint
      idle refl empty-IsValid put_status
