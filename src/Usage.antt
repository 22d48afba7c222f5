-- ===== src/Usage.antt =====
-- Usage telemetry: `IngestUsage` of internal/pgstore/usage.go with the table of the migration
-- 0003_usage_events, and `handleUsage` of internal/server/handlers_usage.go. Times are in the
-- microseconds that timestamptz keeps, 0 for the zero time.
pub mod Taken
pub mod Dedup
use phantom_skills.Prelude.{
  ℕ, suc, ◌+◌, String, Bool, true, false, ◌&&◌, ◌||◌, not, Option, none, some, List, [], ◌∷◌, ◌++◌,
  length, exists, eqb, ◌==◌, if◌then◌else◌,
}
use phantom_skills.Skillfile.Values.{Fields}
use phantom_skills.Store.Tables.{Result, ok, err, constraint, and_then}

pub record UsageEvent : Type 0 where
  pub skill_name : String
  pub session_id : String
  pub machine : String
  pub event : String
  pub context : Option Fields
  pub ts : ℕ

pub record UsageRow : Type 0 where
  pub profile : String
  pub observed : UsageEvent

-- usage_event_chk
abbrev pub event_allowed : String → Bool
event_allowed e = e == "invoked" || e == "helpful" || e == "ignored" || e == "error"

-- usage_dedup
abbrev pub same_usage : UsageRow → UsageRow → Bool
same_usage a b =
    a.profile == b.profile
    && a.observed.skill_name == b.observed.skill_name
    && a.observed.session_id == b.observed.session_id
    && a.observed.event == b.observed.event
    && eqb a.observed.ts b.observed.ts

-- The clock is read for an event without a time; `i` counts the events before it.
abbrev pub row_for : (ℕ → ℕ) → ℕ → String → UsageEvent → UsageRow
row_for clock i profile e = record {
  profile = profile;
  observed = record e { ts = if eqb e.ts 0 then clock i else e.ts };
}

-- INSERT … ON CONFLICT DO NOTHING, with the number of rows that are new.
unfoldable pub insert_usage : UsageRow → List UsageRow → Result (ℕ × List UsageRow)
insert_usage r rows =
    if not (event_allowed r.observed.event)
    then err (constraint "usage_event_chk")
    else if exists (same_usage r) rows
    then ok (0, rows)
    else ok (1, rows ++ r ∷ [])

abbrev pub is_skipped : UsageEvent → Bool
is_skipped e = e.event == "" || e.skill_name == ""

unfoldable pub ingest_all :
    (ℕ → ℕ) → ℕ → String → List UsageEvent → List UsageRow → Result (ℕ × List UsageRow)
unfolding insert_usage
ingest_all clock i profile [] rows = ok (0, rows)
ingest_all clock i profile (e ∷ es) rows = elim (is_skipped e) [
  | true ↦ ingest_all clock (suc i) profile es rows
  | false ↦
      and_then (insert_usage (row_for clock i profile e) rows)
        (λ r. and_then (ingest_all clock (suc i) profile es r.1) (λ s. ok (r.0 + s.0, s.1)))
]

abbrev pub commit : List UsageRow → Result (ℕ × List UsageRow) → Result ℕ × List UsageRow
commit rows (ok (n, rows')) = (ok n, rows')
commit rows (err e) = (err e, rows)

unfoldable pub ingest_usage :
    (ℕ → ℕ) → String → List UsageEvent → List UsageRow → Result ℕ × List UsageRow
unfolding ingest_all
ingest_usage clock profile [] rows = (ok 0, rows)
ingest_usage clock profile (e ∷ es) rows = commit rows (ingest_all clock 0 profile (e ∷ es) rows)

pub data Reply : Type 0 where
  unavailable : Reply
  bad_request : Reply
  internal_error : Reply
  accepted : ℕ → ℕ → Reply

abbrev pub replied : ℕ → Result ℕ × List UsageRow → Reply × List UsageRow
replied n (ok k, rows) = (accepted k n, rows)
replied n (err e, rows) = (internal_error, rows)

-- The decoded body is `none` where it is not JSON for a batch.
unfoldable pub handle_usage :
    Bool → (ℕ → ℕ) → String → Option (List UsageEvent) → List UsageRow → Reply × List UsageRow
unfolding ingest_usage
handle_usage false clock profile body rows = (unavailable, rows)
handle_usage true clock profile none rows = (bad_request, rows)
handle_usage true clock profile (some events) rows =
    replied (length events) (ingest_usage clock profile events rows)
