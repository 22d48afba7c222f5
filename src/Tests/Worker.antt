-- ===== src/Tests/Worker.antt =====
-- The ledger, the improver and the telemetry at concrete inputs.
use phantom_skills.Prelude.{
  ℕ, ◌<◌, ◌+◌, ◌&&◌, ◌≡◌, refl, String, true, none, some, List, [], ◌∷◌, map, leb, if◌then◌else◌,
  length, pos, arith,
}
use phantom_skills.Store.Tables.{ok}
use phantom_skills.Usage.{UsageEvent, UsageRow, ingest_usage}
use phantom_skills.Usage.Dedup.{ingest_again, ingest_batches}
use phantom_skills.Ratchet.Ledger.{count_in_flight_ratchets}
use phantom_skills.Ratchet.Improver.{
  Improver, Brainbox, RatchetSpec, RatchetResult, World, Candidate, dispatch_all, suppression,
}
use phantom_skills.Ratchet.Limits.{Limited, dispatch_all-Limited}
use phantom_skills.Ratchet.Recording.{Recorded, dispatch_all-Recorded, dispatch_all-unrecorded}

abbrev ascii_lower : ℕ → ℕ
ascii_lower c = if leb 65 c then (if leb c 90 then c + 32 else c) else c

pub lower_ascii : (c : ℕ) → c < 128 → ascii_lower c ≡ (if leb 65 c && leb c 90 then c + 32 else c)
lower_ascii c h = ground arith

abbrev bbox : Brainbox
bbox history spec = some (record { job_id = "j"; task_id = "t" })

accepts :
    (history : List RatchetSpec) (spec : RatchetSpec)
    → (res : RatchetResult) × (bbox history spec ≡ some res)
accepts history spec = (record { job_id = "j"; task_id = "t" }, refl)

abbrev pub daemon : Improver
daemon = record {
  bbox = some bbox;
  has_store = true;
  config = record {
    repo_url = "git@example.org:skills";
    max_concurrent_ratchets = pos 1;
    ratchet_cooldown_hours = pos 24;
  };
  unicode = record { to_lower = ascii_lower; to_lower_ascii = lower_ascii };
  print = λ fs. [];
}

abbrev pub idle : World
idle = record { ledger = record { runs = []; next_run = 1 }; launched = [] }

abbrev edit : String → Candidate
edit name = record {
  kind = "edit";
  skill_name = name;
  rationale = "stale";
  frontmatter = none;
  body = "";
  evidence = none;
  score = none;
}

abbrev promote : Candidate
promote = record (edit "lint") { kind = "promote"; rationale = "used" }

-- The second and the third are held back: one is in flight already, and one is the cap.
abbrev candidates : List (ℕ × Candidate)
candidates = (5, edit "lint") ∷ (6, edit "lint") ∷ (7, edit "review") ∷ []

one_launched : length (dispatch_all daemon ("personal" ∷ []) candidates idle).launched ≡ 1
unfolding dispatch_all
one_launched = refl

idle-Limited : Limited daemon 0 refl "personal" idle.ledger
unfolding count_in_flight_ratchets
idle-Limited = record { few = omega arith; single = λ skill. omega arith }

dispatch_all-Limited_example :
    Limited daemon 0 refl "personal" (dispatch_all daemon ("personal" ∷ []) candidates idle).ledger
dispatch_all-Limited_example =
    dispatch_all-Limited daemon 0 refl "personal" ("personal" ∷ []) candidates idle idle-Limited

dispatch_all-Recorded_example :
    Recorded idle (dispatch_all daemon ("personal" ∷ []) candidates idle)
dispatch_all-Recorded_example =
    dispatch_all-Recorded daemon ("personal" ∷ []) candidates idle (refl, (refl, (refl, tt)))

abbrev ticks : List ℕ
ticks = 5 ∷ 65 ∷ 125 ∷ []

passes : suppression daemon 5 "personal" "lint" idle.ledger ≡ none
unfolding suppression
passes = refl

dispatch_all-unrecorded_example :
    (length (dispatch_all daemon ("personal" ∷ []) (map (λ t. (t, promote)) ticks) idle).launched
      ≡ length idle.launched + length ticks)
    × ((dispatch_all daemon ("personal" ∷ []) (map (λ t. (t, promote)) ticks) idle).ledger
        ≡ idle.ledger)
dispatch_all-unrecorded_example =
    dispatch_all-unrecorded daemon bbox "personal" [] promote refl accepts refl 5 ticks idle passes
      (omega arith, (omega arith, (omega arith, tt)))

abbrev observed : String → String → ℕ → UsageEvent
observed name event ts = record {
  skill_name = name;
  session_id = "s";
  machine = "m";
  event = event;
  context = none;
  ts = ts;
}

-- The second is a duplicate of the first, and the third has no name.
abbrev batch : List UsageEvent
batch = observed "lint" "invoked" 70 ∷ observed "lint" "invoked" 70 ∷ observed "" "helpful" 80 ∷ []

abbrev clock : ℕ → ℕ
clock i = 100 + i

abbrev rows : List UsageRow
rows = record { profile = "personal"; observed = observed "lint" "invoked" 70 } ∷ []

posted : ingest_usage clock "personal" batch [] ≡ (ok 1, rows)
unfolding ingest_usage
posted = refl

abbrev others : List (String × List UsageEvent)
others =
    ("work", observed "lint" "error" 0 ∷ []) ∷ ("personal", observed "lint" "no-such" 5 ∷ []) ∷ []

ingest_again_example :
    (length rows ≡ length {A = UsageRow} [] + 1)
    × (ingest_usage clock "personal" batch (ingest_batches clock others rows)
        ≡ (ok 0, ingest_batches clock others rows))
ingest_again_example =
    ingest_again clock clock "personal" batch [] 1 rows (refl, (refl, (refl, tt))) posted others
