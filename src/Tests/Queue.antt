-- ===== src/Tests/Queue.antt =====
-- The queue, the drainer and the writes at concrete inputs.
use mathlib.Core.Option
use phantom_skills.Prelude.{
  ℕ, ◌+◌, ◌-◌, codes, ◌*◌, ◌^◌, ◌≤◌, ◌≡◌, refl, inl, String, true, false, none, some, List, [], ◌∷◌,
  ◌++◌, leb, min, Elem, pos, arith, ◌≢◌, first, length, All, ◌==◌, if◌then◌else◌,
}
use phantom_skills.Wqueue.{
  Item, Queue, valid, max_attempts, has_id, enqueue, next_eligible, backoff_for, backoff_cap, base,
}
use phantom_skills.Wqueue.Backoff.{exponent}
use phantom_skills.Wqueue.Backoff.Bounds.{backoff_exact, backoff_mono}
use phantom_skills.Wqueue.Table.{IsValid, Ascending, enqueue-IsValid}
use phantom_skills.Wqueue.Due.{Allows, IsDue, Accounted, next_eligible_exact}
use phantom_skills.Wqueue.Retry.{fail_all, retry_ceiling}
use phantom_skills.Client.{
  Agent, Daemon, Connectivity, posted, queued, conn_snapshot, note_failure, replay, drain_once,
  enqueue_and_attempt,
}
use phantom_skills.Client.Drain.{sent, stuck, expected, read, drain_once_exact}
use phantom_skills.Client.{snapshot}
use phantom_skills.Client.Drain.Online.{is_online, error_of, failed_at, drain_once-online}
use phantom_skills.Client.Notice.{day, humanize_age}
use phantom_skills.Client.Writes.{kept, live_count, write_delivered_or_kept}

-- What an oversized float converts to on amd64.
abbrev sat : ℕ
sat = 2 ^ 63

abbrev empty : Queue
empty = record { rows = []; next_id = 1 }

empty-IsValid : IsValid empty
empty-IsValid = record { each = tt; ascending = tt }

abbrev one : Queue
one = (enqueue "usage" "{}" 100 empty).1

abbrev two : Queue
two = (enqueue "proposal" "{}" 200 one).1

two-IsValid : IsValid two
two-IsValid =
    enqueue-IsValid "proposal" "{}" 200 one (enqueue-IsValid "usage" "{}" 100 empty empty-IsValid)

abbrev conn : Connectivity
conn = record { last_success = 0; last_failure = 0; last_err = "" }

abbrev agent : Agent
agent = record { queue = two; conn = conn }

-- A daemon that takes usage reports and refuses proposals.
abbrev picky : Daemon
picky path payload = if path == "/api/skills/usage" then none else some "down"

abbrev clock : ℕ → ℕ
clock i = 1_000 + i

backoff_first : backoff_for sat (pos 1) ≡ 2_000_000_000
unfolding backoff_for
backoff_first = refl

backoff_fifth : backoff_for sat (pos 5) ≡ 32_000_000_000
unfolding backoff_for
backoff_fifth = refl

backoff_late : backoff_for sat (pos 40) ≡ 1_800_000_000_000
unfolding backoff_for
backoff_late = refl

-- The eleven waits before the twelfth attempt add up to 3846 s, about 64 minutes.
waits : ℕ → ℕ
waits ℕ.zero = 0
waits (ℕ.suc n) = waits n + backoff_for sat (pos (ℕ.suc n))

total_wait : waits 11 ≡ 3_846 * 1_000_000_000
unfolding waits backoff_for
total_wait = refl

backoff_exact_example : backoff_for sat (pos 3) ≡ min (2 ^ exponent (pos 3) * base) backoff_cap
backoff_exact_example = backoff_exact sat (pos 3) (inl refl)

backoff_mono_example :
    (backoff_for sat (pos 3) ≤ backoff_for sat (pos 7))
    × (base ≤ backoff_for sat (pos 3))
    × (backoff_for sat (pos 7) ≤ backoff_cap)
backoff_mono_example = backoff_mono sat 3 7 (inl refl) (omega arith)

next_eligible_exact_example :
    (n : ℕ) × Allows (pos 1) n
    × (length (next_eligible 500 (pos 1) two) ≤ n)
    × Ascending (next_eligible 500 (pos 1) two)
    × All (λ r. Elem r two.rows × IsDue 500 r) (next_eligible 500 (pos 1) two)
    × All (Accounted 500 n (next_eligible 500 (pos 1) two)) two.rows
next_eligible_exact_example = next_eligible_exact 500 (pos 1) two two-IsValid

abbrev fails : List (ℕ × String)
fails = (300, "down") ∷ (400, "down") ∷ []

abbrev first_row : Item
first_row = record {
  id = 1;
  kind = "usage";
  payload = "{}";
  attempts = 0;
  created_at = 100;
  next_attempt_at = 0;
  last_error = "";
  dead = false;
}

found : first (has_id 1) two.rows ≡ some first_row
unfolding enqueue
found = refl

retry_ceiling_example :
    (s : Item) × (first (has_id 1) (fail_all sat 1 fails two).rows ≡ some s)
    × (s.attempts ≡ 0 + 2)
    × (s.dead ≡ leb max_attempts (0 + 2))
retry_ceiling_example = retry_ceiling sat 1 fails two first_row two-IsValid found

drain_once_exact_example :
    ((drain_once sat picky clock agent).0
      ≡ length (sent (replay picky) (read sat picky clock agent)))
    × ((j : ℕ)
        → first (has_id j) (drain_once sat picky clock agent).1.queue.rows
          ≡ expected sat
              (clock (1 + length (sent (replay picky) (read sat picky clock agent))))
              j
              (sent (replay picky) (read sat picky clock agent))
              (stuck (replay picky) (read sat picky clock agent))
              (first (has_id j) two.rows))
drain_once_exact_example = drain_once_exact sat picky clock agent

drained : (drain_once sat picky clock agent).0 ≡ 1
unfolding drain_once enqueue next_eligible replay
drained = refl

known : valid "usage" ≡ true
unfolding valid
known = refl

write_delivered_or_kept_example :
    ((enqueue_and_attempt sat "usage" "{}" 300 301 none
        (record { queue = some two; conn = none })).0
      ≡ posted)
    × ((enqueue_and_attempt sat "usage" "{}" 300 301 none
          (record { queue = some two; conn = none })).1.queue
        ≡ some (record { rows = two.rows; next_id = two.next_id + 1 }))
    × ((e : String)
        → enqueue_and_attempt sat "usage" "{}" 300 301
            (some e)
            (record { queue = some two; conn = none })
          ≡ (
            queued
                (conn_snapshot (Option.map (note_failure 301 (some e)) none))
                (live_count two.rows + 1),
            record {
              queue = some (record {
                rows = two.rows ++ kept sat two.next_id "usage" "{}" 300 301 e ∷ [];
                next_id = two.next_id + 1;
              });
              conn = Option.map (note_failure 301 (some e)) none;
            },
          ))
write_delivered_or_kept_example =
    write_delivered_or_kept sat "usage" "{}" 300 301 two none two-IsValid known

something_read : read sat picky clock agent ≢ []
unfolding enqueue next_eligible
something_read = ground arith

drain_once-online_example :
    ((snapshot (drain_once sat picky clock agent).1.conn).online
      ≡ is_online (stuck (replay picky) (read sat picky clock agent)))
    × ((snapshot (drain_once sat picky clock agent).1.conn).last_error
        ≡ error_of (stuck (replay picky) (read sat picky clock agent)))
    × ((snapshot (drain_once sat picky clock agent).1.conn).last_failure_at
        ≡ failed_at agent.conn.last_failure
            (clock (1 + length (sent (replay picky) (read sat picky clock agent))))
            (stuck (replay picky) (read sat picky clock agent)))
drain_once-online_example =
    drain_once-online sat picky clock agent (λ i. omega arith) (omega arith) (omega arith)
      something_read

-- The float64 of the hours is already that of 171 days.
rounded_up : humanize_age (pos (171 * day - 1)) ≡ codes "171d"
unfolding humanize_age
rounded_up = refl

not_yet : humanize_age (pos (170 * day - 1)) ≡ codes "169d"
unfolding humanize_age
not_yet = refl
