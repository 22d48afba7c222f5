-- ===== src/Client.antt =====
-- internal/client: connectivity.go and drainer.go, and the write helper of
-- internal/mcp/wqueue_helper.go, over the queue of `Wqueue`. The daemon's answer to a post is a
-- parameter, `none` for success. The clock is the list of readings still to come.
pub mod Drain
pub mod Writes
pub mod Http
pub mod Notice
use mathlib.Core.Option
use phantom_skills.Prelude.{
  ℕ, ◌+◌, ◌/◌, String, Bool, false, not, Option, none, some, List, [], ◌∷◌, ltb, ◌==◌,
  if◌then◌else◌, ℤ, pos,
}
use phantom_skills.Prelude.Strings.{concat}
use phantom_skills.Wqueue.{
  Item, Queue, kind_usage, kind_proposal, enqueue, depth, next_eligible, mark_attempt, delete,
}

pub record Connectivity : Type 0 where
  pub last_success : ℕ
  pub last_failure : ℕ
  pub last_err : String

pub record Snapshot : Type 0 where
  pub last_success_at : ℕ
  pub last_failure_at : ℕ
  pub last_error : String
  pub online : Bool

unfoldable pub note_success : ℕ → Connectivity → Connectivity
note_success t c = record c { last_success = t; last_err = "" }

unfoldable pub note_failure : ℕ → Option String → Connectivity → Connectivity
note_failure t none c = record c { last_failure = t }
note_failure t (some e) c = record c { last_failure = t; last_err = e }

-- `Online` is `!lastFailure.After(lastSuccess)`.
unfoldable pub snapshot : Connectivity → Snapshot
snapshot c = record {
  last_success_at = c.last_success;
  last_failure_at = c.last_failure;
  last_error = c.last_err;
  online = not (ltb c.last_success c.last_failure);
}

-- What the agent keeps: the queue on disk, and whether the daemon answered.
pub record Agent : Type 0 where
  pub queue : Queue
  pub conn : Connectivity

-- The daemon: an endpoint and a payload to the error of the post, if any.
abbrev pub Daemon : Type 0
Daemon = String → String → Option String

abbrev pub usage_path : String
usage_path = "/api/skills/usage"

abbrev pub proposals_path : String
proposals_path = "/api/skills/proposals"

-- `%q` of a kind that has nothing to escape.
unfoldable pub replay : Daemon → Item → Option String
replay post it =
    if it.kind == kind_usage
    then post usage_path it.payload
    else if it.kind == kind_proposal
    then post proposals_path it.payload
    else some (concat "drainer: unknown kind \"" (concat it.kind "\""))

abbrev pub batch : ℤ
batch = pos 50

-- The loop of `DrainOnce` over the items read; `now i` is the clock's reading for the i-th of them.
-- The outcome of each replay is bound first, so that the rest of the loop waits for it.
module _ (sat : ℕ) (answer : Item → Option String) (now : ℕ → ℕ) where
  unfoldable pub drain_items : ℕ → List Item → ℕ → Agent → ℕ × Agent
  drain_items i [] drained a = (drained, a)
  drain_items i (it ∷ rest) drained a =
      let go_on =
        drain_items (i + 1) rest (drained + 1)
          (record { queue = delete it.id a.queue; conn = note_success (now i) a.conn }) in
      elim (answer it) [
        | none ↦ go_on
        | some e ↦ (
          drained,
          record {
            queue = mark_attempt sat it.id (now i) (some e) a.queue;
            conn = note_failure (now i) (some e) a.conn;
          },
        )
      ]

unfoldable pub drain_once : ℕ → Daemon → (ℕ → ℕ) → Agent → ℕ × Agent
unfolding drain_items
drain_once sat post now a =
    drain_items sat (replay post) now 1 (next_eligible (now 0) batch a.queue) 0 a

-- What the MCP server may have wired: `deps.Queue` and `deps.Conn`, either of them nil.
pub record Deps : Type 0 where
  pub queue : Option Queue
  pub conn : Option Connectivity

pub data WriteError : Type 0 where
  queue_error : WriteError
  daemon_error : String → WriteError

-- A write that was posted, or queued with the snapshot and the depth that its notice shows.
pub data Write : Type 0 where
  failed : WriteError → Write
  posted : Write
  queued : Snapshot → ℕ → Write

-- `connSnapshot`; the zero `Snapshot` where no tracker is wired.
unfoldable pub conn_snapshot : Option Connectivity → Snapshot
unfolding snapshot
conn_snapshot none = record {
  last_success_at = 0;
  last_failure_at = 0;
  last_error = "";
  online = false;
}
conn_snapshot (some c) = snapshot c

abbrev attempt_directly : Option String → Write
attempt_directly none = posted
attempt_directly (some e) = failed (daemon_error e)

after_enqueue : ℕ → ℕ → Option String → Option Connectivity → Option Item × Queue → Write × Deps
unfolding conn_snapshot
after_enqueue sat now outcome conn (none, q) =
    (failed queue_error, record { queue = some q; conn = conn })
after_enqueue sat now none conn (some it, q) =
    (posted, record { queue = some (delete it.id q); conn = Option.map (note_success now) conn })
after_enqueue sat now (some e) conn (some it, q) =
    let q' = mark_attempt sat it.id now (some e) q in
    let conn' = Option.map (note_failure now (some e)) conn in
    (queued (conn_snapshot conn') (depth q'), record { queue = some q'; conn = conn' })

attempt_with :
    ℕ → String → String → ℕ → ℕ → Option String → Option Queue → Option Connectivity → Write × Deps
attempt_with sat kind payload created now outcome none conn =
    (attempt_directly outcome, record { queue = none; conn = conn })
attempt_with sat kind payload created now outcome (some q) conn =
    after_enqueue sat now outcome conn (enqueue kind payload created q)

-- `outcome` is what the closure `op` returns; `created` and `now` are the two clock readings.
unfoldable pub enqueue_and_attempt :
    ℕ → String → String → ℕ → ℕ → Option String → Deps → Write × Deps
unfolding after_enqueue attempt_with
enqueue_and_attempt sat kind payload created now outcome d =
    attempt_with sat kind payload created now outcome d.queue d.conn
