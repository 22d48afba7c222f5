-- ===== src/Ratchet/Improver.antt =====
-- `autoFireRatchet` and `composeRatchetTask` of internal/server/improver.go, and `dispatchRatchet` of
-- internal/server/workers.go. Brainbox is a function of the ratchets it has accepted so far and the
-- new one, with `none` for an error.
use phantom_skills.Prelude.{
  ℕ, suc, zero, ◌*◌, ◌^◌, String, Bool, false, not, Option, none, some, List, [], ◌∷◌, ◌++◌, leb,
  ◌==◌, if◌then◌else◌, codes, ℤ, pos, negsuc,
}
use phantom_skills.Text.{Text, Unicode, is_blank}
use phantom_skills.Skillfile.Values.{Fields, end, field}
use phantom_skills.Skillfile.Slug.{slugify}
use phantom_skills.Store.Tables.{Result, ok, err, StoreError}
use phantom_skills.Ratchet.Ledger.{
  RatchetRun, Ledger, record_ratchet, has_in_flight_ratchet, recently_ratcheted,
  count_in_flight_ratchets,
}

-- A nil map is `none`, and so is the score 0.
pub record Candidate : Type 0 where
  pub kind : String
  pub skill_name : String
  pub rationale : String
  pub frontmatter : Option Fields
  pub body : String
  pub evidence : Option Fields
  pub score : Option String

pub record RatchetSpec : Type 0 where
  pub repo_url : String
  pub task : Text
  pub branch : Text
  pub profile : String

pub record RatchetResult : Type 0 where
  pub job_id : String
  pub task_id : String

abbrev pub Brainbox : Type 0
Brainbox = List RatchetSpec → RatchetSpec → Option RatchetResult

-- `d.cfg.Registry`
pub record RegistryConfig : Type 0 where
  pub repo_url : String
  pub max_concurrent_ratchets : ℤ
  pub ratchet_cooldown_hours : ℤ

-- What of the daemon the improver uses; `print` is how package fmt prints a map with `%v`.
pub record Improver : Type 0 where
  pub bbox : Option Brainbox
  pub has_store : Bool
  pub config : RegistryConfig
  pub unicode : Unicode
  pub print : Fields → Text

pub record World : Type 0 where
  pub ledger : Ledger
  pub launched : List RatchetSpec

pub data Fire : Type 0 where
  suppressed : String → Fire
  fired : String → Fire
  fire_failed : Fire
  record_failed : StoreError → Fire

abbrev hour : ℕ
hour = 3600 * 10 ^ 9

-- `cooldown > 0 && …`
abbrev pub cooling : ℕ → String → String → ℤ → Ledger → Bool
cooling now profile skill (pos zero) l = false
cooling now profile skill (pos (suc h)) l = recently_ratcheted now profile skill (suc h * hour) l
cooling now profile skill (negsuc h) l = false

-- `max > 0 && n >= max`
abbrev pub saturated : ℤ → ℕ → Bool
saturated (pos zero) n = false
saturated (pos (suc m)) n = leb (suc m) n
saturated (negsuc m) n = false

-- The reason not to fire, if a guard finds one.
unfoldable pub suppression : Improver → ℕ → String → String → Ledger → Option String
unfolding is_blank has_in_flight_ratchet recently_ratcheted count_in_flight_ratchets
suppression d now profile skill l =
    if is_blank d.config.repo_url
    then some "auto-fire not configured"
    else if not d.has_store
    then some "no store"
    else if has_in_flight_ratchet profile skill l
    then some "in-flight ratchet exists"
    else if cooling now profile skill d.config.ratchet_cooldown_hours l
    then some "within cooldown"
    else if saturated d.config.max_concurrent_ratchets (count_in_flight_ratchets profile l)
    then some "rate-limited"
    else none

-- `len(c.Evidence) > 0`, and the map as it is printed.
abbrev evidence_note : (Fields → Text) → Option Fields → Text
evidence_note print none = []
evidence_note print (some end) = []
evidence_note print (some (field k v fs)) =
    codes "\nEvidence: " ++ (print (field k v fs) ++ codes "\n")

invariants : Text → Text
invariants slug =
    codes "Keep the format valid: frontmatter starts at byte 0; `name` equals the directory "
    ++ (slug
        ++ codes
            " (^[a-z0-9-]+$, ≤64 chars); `description` states WHAT it does AND WHEN to use it (≤1024 chars — this is the trigger); include the `x-phantom-skills` marker; body <500 lines. Run `python3 .github/lint_skills.py` and ensure it prints OK before opening the PR.")

what_to_do : Text → Text → Candidate → Text
what_to_do slug path c =
    let why : Text = codes c.rationale ++ codes "\n\n" in
    if c.kind == "create"
    then codes "Author a new skill at " ++ (path ++ (codes ".\n\nWhat it should capture: " ++ why))
    else if c.kind == "edit"
    then codes "Improve the existing skill at "
      ++ (path ++ (codes ".\n\nWhat needs fixing: " ++ why))
    else if c.kind == "prune"
    then codes "Retire the stale/superseded skill "
      ++ (codes c.skill_name
          ++ (codes ": delete its directory skills/" ++ (slug ++ (codes "/.\n\nWhy: " ++ why))))
    else if c.kind == "merge"
    then codes "Merge near-duplicate skills into "
      ++ (path
          ++ (codes
                " (fold the others' triggers into its description, then delete the redundant directories).\n\nWhy: "
              ++ why))
    else codes "Update the skill at " ++ (path ++ (codes ".\n\n" ++ why))

unfoldable pub compose_ratchet_task : Improver → Candidate → Text
unfolding slugify what_to_do invariants
compose_ratchet_task d c =
    let slug : Text = slugify d.unicode (codes c.skill_name) in
    let path : Text = codes "skills/" ++ (slug ++ codes "/SKILL.md") in
    what_to_do slug path c
    ++ ((if c.kind == "prune" then [] else invariants slug ++ codes "\n")
        ++ (evidence_note d.print c.evidence
            ++ (codes "\nOpen a PR titled \"skill: "
                ++ (codes c.kind
                    ++ (codes " "
                        ++ (codes c.skill_name ++ codes "\" with the evidence in the body."))))))

unfoldable pub branch_for : Improver → Candidate → Text
unfolding slugify
branch_for d c =
    codes "skill/" ++ (codes c.kind ++ (codes "-" ++ slugify d.unicode (codes c.skill_name)))

unfoldable pub spec_for : Improver → String → Candidate → RatchetSpec
unfolding compose_ratchet_task branch_for
spec_for d profile c = record {
  repo_url = d.config.repo_url;
  task = compose_ratchet_task d c;
  branch = branch_for d c;
  profile = profile;
}

unfoldable pub run_for : Improver → Candidate → RatchetResult → RatchetRun
unfolding branch_for
run_for d c res = record {
  id = 0;
  profile = "";
  skill_name = c.skill_name;
  kind = c.kind;
  task_id = res.task_id;
  job_id = res.job_id;
  branch = branch_for d c;
  status = "fired";
  pr_url = "";
  rationale = c.rationale;
  created_at = 0;
  updated_at = 0;
}

abbrev pub reply : RatchetResult → Result ℕ → Fire
reply res (ok id) = fired res.task_id
reply res (err e) = record_failed e

unfoldable pub launch : Improver → Brainbox → ℕ → String → Candidate → World → Fire × World
unfolding spec_for run_for record_ratchet
launch d bbox now profile c w =
    let spec : RatchetSpec = spec_for d profile c in
    elim (bbox w.launched spec) [
      | none ↦ (fire_failed, w)
      | some res ↦
          let (recorded, ledger) = record_ratchet now profile (run_for d c res) w.ledger in
          (reply res recorded, record { ledger = ledger; launched = w.launched ++ spec ∷ [] })
    ]

unfoldable pub fire_with : Improver → Brainbox → ℕ → String → Candidate → World → Fire × World
unfolding suppression launch
fire_with d bbox now profile c w = elim (suppression d now profile c.skill_name w.ledger) [
  | some reason ↦ (suppressed reason, w)
  | none ↦ launch d bbox now profile c w
]

unfoldable pub fire_if_wired :
    Improver → Option Brainbox → ℕ → String → Candidate → World → Fire × World
unfolding fire_with
fire_if_wired d none now profile c w = (suppressed "auto-fire not configured", w)
fire_if_wired d (some bbox) now profile c w = fire_with d bbox now profile c w

unfoldable pub auto_fire_ratchet : Improver → ℕ → String → Candidate → World → Fire × World
unfolding fire_if_wired
auto_fire_ratchet d now profile c w = fire_if_wired d d.bbox now profile c w

-- The first scope's profile, if there is a scope; what was fired is only logged.
unfoldable pub dispatch_ratchet : Improver → ℕ → List String → Candidate → World → World
unfolding auto_fire_ratchet
dispatch_ratchet d now [] c w = w
dispatch_ratchet d now (profile ∷ _) c w = (auto_fire_ratchet d now profile c w).1

-- The candidates of the ticks of the worker, each with the time it is dispatched at.
unfoldable pub dispatch_all : Improver → List String → List (ℕ × Candidate) → World → World
unfolding dispatch_ratchet
dispatch_all d profiles [] w = w
dispatch_all d profiles ((now, c) ∷ cs) w =
    dispatch_all d profiles cs (dispatch_ratchet d now profiles c w)
