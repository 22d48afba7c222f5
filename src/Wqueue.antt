-- ===== src/Wqueue.antt =====
-- internal/client/wqueue/wqueue.go: the agent's write-ahead queue. The SQLite table is the list
-- of its rows, in order of insertion, with the AUTOINCREMENT counter. Times are UnixNano values;
-- 0 stands for the zero time. Each statement is one function on the table.
pub mod Backoff
pub mod Table
pub mod Due
pub mod Retry
pub use Backoff.{base, backoff_cap}
unfoldable pub use Backoff.{backoff_for, pow2_int64}
use phantom_skills.Prelude.{
  ℕ, ◌+◌, String, Bool, true, false, ◌&&◌, ◌||◌, not, Option, none, some, List, [], ◌∷◌, ◌++◌, leb,
  eqb, ◌==◌, if◌then◌else◌, length, take, select, update_where, ℤ, pos, or_default,
}
use phantom_skills.Prelude.Order.{sort_by}

abbrev pub max_attempts : ℕ
max_attempts = 12

abbrev pub kind_usage : String
kind_usage = "usage"

abbrev pub kind_proposal : String
kind_proposal = "proposal"

unfoldable pub valid : String → Bool
valid k = k == kind_usage || k == kind_proposal

pub record Item : Type 0 where
  pub id : ℕ
  pub kind : String
  pub payload : String
  pub attempts : ℕ
  pub created_at : ℕ
  pub next_attempt_at : ℕ
  pub last_error : String
  pub dead : Bool

pub record Queue : Type 0 where
  pub rows : List Item
  pub next_id : ℕ

-- The error of `Enqueue` is `none`; the table is then left alone.
unfoldable pub enqueue : String → String → ℕ → Queue → Option Item × Queue
unfolding valid
enqueue kind payload now q =
    if valid kind
    then (let item : Item = record {
      id = q.next_id;
      kind = kind;
      payload = payload;
      attempts = 0;
      created_at = now;
      next_attempt_at = 0;
      last_error = "";
      dead = false;
    } in
        (some item, record { rows = q.rows ++ item ∷ []; next_id = q.next_id + 1 }))
    else (none, q)

unfoldable pub depth : Queue → ℕ
depth q = length (select (λ r. not r.dead) q.rows)

abbrev pub by_id : Item → Item → Bool
by_id a b = leb a.id b.id

-- `WHERE dead = 0 AND next_attempt_at <= now`
abbrev pub eligible : ℕ → Item → Bool
eligible now r = not r.dead && leb r.next_attempt_at now

unfoldable pub next_eligible : ℕ → ℤ → Queue → List Item
next_eligible now limit q =
    take (or_default limit 50) (sort_by by_id (select (eligible now) q.rows))

-- `attemptErr` may be nil.
abbrev pub message : Option String → String
message none = ""
message (some e) = e

-- The two UPDATEs of `MarkAttempt`: the dead letter at the ceiling, and the next try.
unfoldable pub bump : ℕ → ℕ → Option String → Item → Item
bump sat now err r =
    let attempts = r.attempts + 1 in
    if leb max_attempts attempts
    then record r { attempts = attempts; last_error = message err; dead = true }
    else record r {
      attempts = attempts;
      next_attempt_at = now + backoff_for sat (pos attempts);
      last_error = message err;
    }

abbrev pub has_id : ℕ → Item → Bool
has_id id r = eqb r.id id

-- A row that is gone is no error and no change.
unfoldable pub mark_attempt : ℕ → ℕ → ℕ → Option String → Queue → Queue
unfolding bump
mark_attempt sat id now err q = record q {
  rows = update_where (has_id id) (bump sat now err) q.rows;
}

unfoldable pub delete : ℕ → Queue → Queue
delete id q = record q { rows = select (λ r. not (has_id id r)) q.rows }

unfoldable pub list : Bool → ℤ → Queue → List Item
list include_dead limit q =
    take (or_default limit 100) (sort_by by_id (select (λ r. include_dead || not r.dead) q.rows))

-- The result is the number of rows removed.
unfoldable pub purge : Bool → Bool → Queue → ℕ × Queue
purge dead_only all q =
    if all
    then (length q.rows, record q { rows = [] })
    else (length (select (λ r. r.dead) q.rows), record q { rows = select (λ r. not r.dead) q.rows })
