-- ===== src/Tests/Ticks.antt =====
-- The pipeline's worker at a concrete input.
use phantom_skills.Prelude.{◌≡◌, refl, String, true, none, some, List, [], ◌∷◌, ◌==◌, length}
use phantom_skills.Store.Tables.{empty_db}
use phantom_skills.Store.Proposals.{create_proposal}
use phantom_skills.Ratchet.Improver.{Candidate}
use phantom_skills.Pipeline.{Author, Verifier, Worker, State, Tick, run_ticks}
use phantom_skills.Pipeline.Gated.{Gated, run_ticks-Gated}
use phantom_skills.Tests.Worker.{daemon, idle}

abbrev idea : String → String → Candidate
idea kind name = record {
  kind = kind;
  skill_name = name;
  rationale = "seen often";
  frontmatter = none;
  body = "";
  evidence = none;
  score = none;
}

abbrev author : Author
author c = some (none, "Do it.")

-- A verifier that refuses one name.
abbrev verifier : Verifier
verifier name fm body = some (record { score = "0.8"; passed = name == "lint"; findings = [] })

abbrev worker : Worker
worker = record {
  pipeline = record {
    detector =
        some
          (λ since. some (idea "create" "lint" ∷ idea "create" "noise" ∷ idea "prune" "old" ∷ []));
    author = some author;
    verifier = some verifier;
  };
  improver = record daemon { bbox = none };
  profiles = "personal" ∷ [];
  records = true;
}

abbrev fresh : State
fresh = record { db = empty_db; ratchets = idle; learned = [] }

abbrev ticks : List Tick
ticks = record { now = 60; stamps = λ i. record { now = 60; ulid = "01" } } ∷ []

two_surfaced : length (run_ticks worker 0 ticks fresh).db.proposals ≡ 2
unfolding run_ticks create_proposal
two_surfaced = refl

run_ticks-Gated_example : Gated (some verifier) empty_db (run_ticks worker 0 ticks fresh).db
run_ticks-Gated_example = run_ticks-Gated worker 0 ticks fresh
