-- ===== src/Ratchet/Ledger.antt =====
-- internal/pgstore/ratchets.go: the table ratchet_runs, its checks from the migration
-- 0006_ratchet_runs, and the operations on it. Rows stand in order of id.
use phantom_skills.Prelude.{
  ℕ, suc, ◌+◌, String, Bool, ◌&&◌, ◌||◌, not, List, [], ◌∷◌, ◌++◌, length, select, take, exists,
  update_where, ltb, leb, eqb, ◌==◌, if◌then◌else◌,
}
use phantom_skills.Prelude.Order.{sort_by}
use phantom_skills.Text.{Text}
use phantom_skills.Store.Tables.{Result, ok, err, constraint, or_else}

pub record RatchetRun : Type 0 where
  pub id : ℕ
  pub profile : String
  pub skill_name : String
  pub kind : String
  pub task_id : String
  pub job_id : String
  pub branch : Text
  pub status : String
  pub pr_url : String
  pub rationale : String
  pub created_at : ℕ
  pub updated_at : ℕ

pub record Ledger : Type 0 where
  pub runs : List RatchetRun
  pub next_run : ℕ

-- ratchet_kind_chk and ratchet_status_chk
abbrev pub kind_allowed : String → Bool
kind_allowed k = k == "create" || k == "edit" || k == "prune" || k == "merge"

abbrev pub run_status_allowed : String → Bool
run_status_allowed s =
    s == "fired" || s == "pr_open" || s == "merged" || s == "closed" || s == "failed"

-- `inFlightStatuses`
unfoldable pub in_flight : RatchetRun → Bool
in_flight r = r.status == "fired" || r.status == "pr_open"

abbrev pub inserted : ℕ → ℕ → String → RatchetRun → RatchetRun
inserted now id profile r = record r {
  id = id;
  profile = profile;
  status = or_else r.status "fired";
  pr_url = "";
  created_at = now;
  updated_at = now;
}

unfoldable pub record_ratchet : ℕ → String → RatchetRun → Ledger → Result ℕ × Ledger
record_ratchet now profile r l =
    if kind_allowed r.kind && run_status_allowed (or_else r.status "fired")
    then (
      ok l.next_run,
      record { runs = l.runs ++ inserted now l.next_run profile r ∷ []; next_run = suc l.next_run },
    )
    else (err (constraint "ratchet_runs"), l)

abbrev pub is_active : String → String → RatchetRun → Bool
is_active profile skill r = r.profile == profile && r.skill_name == skill && in_flight r

abbrev pub is_active_in : String → RatchetRun → Bool
is_active_in profile r = r.profile == profile && in_flight r

-- `created_at > now - within`
abbrev pub is_recent : ℕ → String → String → ℕ → RatchetRun → Bool
is_recent now profile skill within r =
    r.profile == profile && r.skill_name == skill && ltb now (r.created_at + within)

unfoldable pub has_in_flight_ratchet : String → String → Ledger → Bool
unfolding in_flight
has_in_flight_ratchet profile skill l = ltb 0 (length (select (is_active profile skill) l.runs))

unfoldable pub recently_ratcheted : ℕ → String → String → ℕ → Ledger → Bool
recently_ratcheted now profile skill within l =
    ltb 0 (length (select (is_recent now profile skill within) l.runs))

unfoldable pub count_in_flight_ratchets : String → Ledger → ℕ
unfolding in_flight
count_in_flight_ratchets profile l = length (select (is_active_in profile) l.runs)

-- The check is made on the rows that are updated.
unfoldable pub update_ratchet_status : ℕ → ℕ → String → String → Ledger → Result (Unit {0}) × Ledger
update_ratchet_status now id status pr_url l =
    if exists (λ r. eqb r.id id) l.runs && not (run_status_allowed status)
    then (err (constraint "ratchet_status_chk"), l)
    else (
      ok tt,
      record l {
        runs =
            update_where (λ r. eqb r.id id)
              (λ r. record r {
                status = status;
                pr_url = or_else pr_url r.pr_url;
                updated_at = now;
              })
              l.runs;
      },
    )

-- Newest first, at most 500.
unfoldable pub list_ratchets : String → String → Ledger → List RatchetRun
list_ratchets profile status l = take 500 (
    sort_by (λ a b. leb b.id a.id)
      (select (λ r. r.profile == profile && (status == "" || r.status == status)) l.runs))
