-- ===== src/Pipeline.antt =====
-- The pipeline's worker: internal/server/workers.go with the stages of internal/server/pipeline.go,
-- which are functions given; a stage that fails gives `none`.
pub mod Gated
use phantom_skills.Prelude.{
  ℕ, suc, ◌+◌, String, Bool, true, false, not, ◌&&◌, Option, none, some, List, [], ◌∷◌, ◌++◌, ◌==◌,
  if◌then◌else◌,
}
use phantom_skills.Skillfile.Values.{
  Fields, end, field, str, number, boolean, arr, Elements, no_more, element,
}
use phantom_skills.Store.Tables.{Db, Stamp}
use phantom_skills.Store.Proposals.{ProposalInput, create_proposal}
use phantom_skills.Ratchet.Improver.{
  Improver, Brainbox, Candidate, Fire, suppressed, fired, fire_failed, record_failed, World,
  auto_fire_ratchet,
}
use phantom_skills.Server.Api.{Learned}

pub record VerifierReport : Type 0 where
  pub score : String
  pub passed : Bool
  pub findings : List String

-- `Detect` is given the time since which to look, `Author` a candidate, and `Verify` a name and the
-- content.
abbrev pub Author : Type 0
Author = Candidate → Option (Option Fields × String)

abbrev pub Verifier : Type 0
Verifier = String → Option Fields → String → Option VerifierReport

-- The stages that the worker calls.
pub record Pipeline : Type 0 where
  pub detector : Option (ℕ → Option (List Candidate))
  pub author : Option Author
  pub verifier : Option Verifier

-- The daemon as the worker uses it. `profiles` are those of Scopes(), in the order that it gives.
pub record Worker : Type 0 where
  pub pipeline : Pipeline
  pub improver : Improver
  pub profiles : List String
  pub records : Bool

pub record State : Type 0 where
  pub db : Db
  pub ratchets : World
  pub learned : List Learned

abbrev findings_list : List String → Elements
findings_list [] = no_more
findings_list (s ∷ ss) = element (str s) (findings_list ss)

abbrev pub report_fields : VerifierReport → Fields
report_fields r =
    field "score" (number r.score)
      (field "passed" (boolean r.passed) (field "findings" (arr (findings_list r.findings)) end))

-- The input before the author and the verifier; the profile is still to be filled in.
abbrev pub pipeline_input : Candidate → ProposalInput
pipeline_input c = record {
  profile = "";
  kind = c.kind;
  skill_name = c.skill_name;
  proposed_frontmatter = c.frontmatter;
  proposed_body = c.body;
  diff = "";
  rationale = c.rationale;
  evidence = c.evidence;
  score = c.score;
  verifier_report = none;
  created_by = "pipeline";
}

abbrev pub with_content : ProposalInput → Option (Option Fields × String) → Option ProposalInput
with_content r none = none
with_content r (some (fm, body)) =
    some (record r { proposed_frontmatter = fm; proposed_body = body })

-- Only an empty body is authored.
unfoldable pub authored : Option Author → Candidate → ProposalInput → Option ProposalInput
authored none c r = some r
authored (some author) c r = if r.proposed_body == "" then with_content r (author c) else some r

-- What becomes of a candidate: an error, dropped by the verifier, or an input for CreateProposal.
pub data Verdict : Type 0 where
  stage_failed : Verdict
  dropped : Verdict
  surfaced : ProposalInput → Verdict

abbrev pub verdict_of : ProposalInput → Option VerifierReport → Verdict
verdict_of r none = stage_failed
verdict_of r (some report) =
    if report.passed
    then surfaced (record r { verifier_report = some (report_fields report) })
    else dropped

abbrev pub verified : Option Verifier → Option ProposalInput → Verdict
verified v none = stage_failed
verified none (some r) = surfaced r
verified (some verify) (some r) =
    verdict_of r (verify r.skill_name r.proposed_frontmatter r.proposed_body)

unfoldable pub assess : Pipeline → Candidate → Verdict
unfolding authored
assess p c =
    if c.kind == "create"
    then verified p.verifier (authored p.author c (pipeline_input c))
    else surfaced (pipeline_input c)

-- The first scope's profile, if there is a scope. An error is only logged.
abbrev pub record_verdict : Stamp → List String → Verdict → Db → Db
record_verdict st profiles stage_failed db = db
record_verdict st profiles dropped db = db
record_verdict st [] (surfaced r) db = db
record_verdict st (profile ∷ _) (surfaced r) db =
    (create_proposal st (record r { profile = profile }) db).1

unfoldable pub propose_candidate : Worker → Stamp → Candidate → Db → Db
unfolding assess create_proposal
propose_candidate k st c db = record_verdict st k.profiles (assess k.pipeline c) db

-- What was fired goes to phantom-brain.
abbrev pub tell_fired : Bool → Candidate → Fire → List Learned → List Learned
tell_fired records c (fired task) ls =
    if records
    then ls
      ++ record { decision = "fired"; kind = c.kind; skill_name = c.skill_name; by = "pipeline" }
        ∷ []
    else ls
tell_fired records c (suppressed reason) ls = ls
tell_fired records c fire_failed ls = ls
tell_fired records c (record_failed e) ls = ls

-- `dispatchRatchet`, with what it tells.
unfoldable pub dispatch_and_tell : Worker → ℕ → List String → Candidate → State → State
unfolding auto_fire_ratchet
dispatch_and_tell k now [] c s = s
dispatch_and_tell k now (profile ∷ _) c s =
    let r = auto_fire_ratchet k.improver now profile c s.ratchets in
    record s { ratchets = r.1; learned = tell_fired k.records c r.0 s.learned }

abbrev bbox_wired : Option Brainbox → Bool
bbox_wired none = false
bbox_wired (some bbox) = true

-- `optionB`
abbrev pub option_b : Worker → Bool
option_b k = bbox_wired k.improver.bbox && not (k.improver.config.repo_url == "")

unfoldable pub handle_candidate : Worker → Stamp → Candidate → State → State
unfolding propose_candidate dispatch_and_tell
handle_candidate k st c s =
    if option_b k
    then dispatch_and_tell k st.now k.profiles c s
    else record s { db = propose_candidate k st c s.db }

-- The candidates of one tick, each with the stamp of its transaction; `i` counts those before it.
unfoldable pub handle_candidates : Worker → (ℕ → Stamp) → ℕ → List Candidate → State → State
unfolding handle_candidate
handle_candidates k stamps i [] s = s
handle_candidates k stamps i (c ∷ cs) s =
    handle_candidates k stamps (suc i) cs (handle_candidate k (stamps i) c s)

abbrev pub detected : Worker → (ℕ → Stamp) → Option (List Candidate) → State → State
detected k stamps none s = s
detected k stamps (some cs) s = handle_candidates k stamps 0 cs s

abbrev pub detect_with :
    Worker → Option (ℕ → Option (List Candidate)) → (ℕ → Stamp) → ℕ → State → State
detect_with k none stamps since s = s
detect_with k (some detect) stamps since s =
    if k.improver.has_store then detected k stamps (detect since) s else s

unfoldable pub run_pipeline_once : Worker → (ℕ → Stamp) → ℕ → State → State
unfolding handle_candidates
run_pipeline_once k stamps since s = detect_with k k.pipeline.detector stamps since s

-- A tick: its time, and the stamps of its transactions.
pub record Tick : Type 0 where
  pub now : ℕ
  pub stamps : ℕ → Stamp

-- The loop of `startWorkers`: a tick looks at what is new since the one before it, whether or not
-- that one failed.
unfoldable pub run_ticks : Worker → ℕ → List Tick → State → State
unfolding run_pipeline_once
run_ticks k last [] s = s
run_ticks k last (t ∷ ts) s = run_ticks k t.now ts (run_pipeline_once k t.stamps last s)
