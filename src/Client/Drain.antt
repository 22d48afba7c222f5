-- ===== src/Client/Drain.antt =====
-- `DrainOnce`: which rows it takes out, which one it reschedules, and that it leaves the rest.
pub mod Online
use mathlib.Core.Option
use native.Mathlib.Nat.{add-zero}
use phantom_skills.Prelude.{
  ℕ, suc, ◌+◌, ◌≡◌, refl, ◌∙◌, String, Bool, true, false, Option, none, some, List, [], ◌∷◌, eqb,
  if◌then◌else◌, length, first, exists, arith, inl, inr, Option-cases, Bool-cases,
}
use phantom_skills.Wqueue.{Item, Queue, bump, has_id, next_eligible, delete}
use phantom_skills.Wqueue.Table.{
  IsValid, mark_attempt-IsValid, delete-IsValid, first-mark_attempt, first-delete,
}
use phantom_skills.Client.{Agent, Daemon, batch, replay, note_success, drain_items, drain_once}

module _ (answer : Item → Option String) where
  -- The items of a batch before the first one that fails, and that one.
  abbrev pub sent : List Item → List Item
  sent [] = []
  sent (it ∷ rest) = elim (answer it) [ none ↦ it ∷ sent rest | some e ↦ [] ]

  abbrev pub stuck : List Item → Option (Item × String)
  stuck [] = none
  stuck (it ∷ rest) = elim (answer it) [ none ↦ stuck rest | some e ↦ some (it, e) ]

-- What becomes of the row with id `j`: `t` is the time at which the batch stopped.
abbrev pub rescheduled : ℕ → ℕ → ℕ → Option (Item × String) → Option Item → Option Item
rescheduled sat t j none row = row
rescheduled sat t j (some (it, e)) row =
    if eqb j it.id then Option.map (bump sat t (some e)) row else row

abbrev pub expected : ℕ → ℕ → ℕ → List Item → Option (Item × String) → Option Item → Option Item
expected sat t j done stop row =
    if exists (has_id j) done then none else rescheduled sat t j stop row

module _ (sat : ℕ) (answer : Item → Option String) (now : ℕ → ℕ) where
  rescheduled-none :
      (t j : ℕ) (stop : Option (Item × String)) → rescheduled sat t j stop none ≡ none
  rescheduled-none t j none = refl
  rescheduled-none t j (some (it, e)) = ground arith

  abbrev after_success : ℕ → Item → Agent → Agent
  after_success i it a = record { queue = delete it.id a.queue; conn = note_success (now i) a.conn }

  emptied : (b : Bool) {o : Option Item} → o ≡ none → (if b then none else o) ≡ none
  emptied true e = refl
  emptied false e = e

  deleted_first :
      (t j : ℕ) (it : Item) (done : List Item) (stop : Option (Item × String)) (q : Queue)
      → expected sat t j done stop (first (has_id j) (delete it.id q).rows)
        ≡ expected sat t j (it ∷ done) stop (first (has_id j) q.rows)
  deleted_first t j it done stop q = elim (Bool-cases (eqb it.id j)) [
    | inl e ↦
        let same : eqb j it.id ≡ true = ground arith in
        rw (e, first-delete it.id j q, same)
          (emptied (exists (has_id j) done) (rescheduled-none t j stop))
    | inr e ↦
        let other : eqb j it.id ≡ false = ground arith in rw (e, first-delete it.id j q, other) refl
  ]

  drain_items-count :
      (i : ℕ) (items : List Item) (n : ℕ) (a : Agent)
      → (drain_items sat answer now i items n a).0 ≡ n + length (sent answer items)
  unfolding drain_items
  drain_items-count i [] n a = omega arith
  drain_items-count i (it ∷ rest) n a = elim (Option-cases (answer it)) [
    | inl e ↦
        rw (e, drain_items, sent)
          (omega (arith, drain_items-count (i + 1) rest (n + 1) (after_success i it a)))
    | inr (x, e) ↦ rw (e, drain_items, sent) (omega arith)
  ]

  drain_items-first :
      (j i : ℕ) (items : List Item) (n : ℕ) (a : Agent)
      → first (has_id j) (drain_items sat answer now i items n a).1.queue.rows
        ≡ expected sat
            (now (i + length (sent answer items)))
            j
            (sent answer items)
            (stuck answer items)
            (first (has_id j) a.queue.rows)
  unfolding drain_items
  drain_items-first j i [] n a = ground arith
  drain_items-first j i (it ∷ rest) n a = elim (Option-cases (answer it)) [
    | inl e ↦
        let shift : i + suc (length (sent answer rest)) ≡ (i + 1) + length (sent answer rest) =
          omega arith in
        rw (e, drain_items, sent, stuck)
          (rw shift (
            drain_items-first j (i + 1) rest (n + 1) (after_success i it a)
            ∙ deleted_first (now ((i + 1) + length (sent answer rest))) j it (sent answer rest)
                (stuck answer rest) a.queue))
    | inr (x, e) ↦
        rw (e, drain_items, sent, stuck)
          (rw add-zero (first-mark_attempt sat (now i) (some x) it.id j a.queue))
  ]

module _ (sat : ℕ) (post : Daemon) (now : ℕ → ℕ) (a : Agent) where
  abbrev pub read : List Item
  read = next_eligible (now 0) batch a.queue

  -- One run of `DrainOnce` posts the eligible rows it read, in their order, up to the first post
  -- that fails. It returns the number of successful posts. Each row posted successfully is
  -- deleted; the row whose post failed has one more attempt recorded, with that error, at the
  -- time of the failure; every other row is unchanged.
  pub drain_once_exact :
      ((drain_once sat post now a).0 ≡ length (sent (replay post) read))
      × ((j : ℕ)
          → first (has_id j) (drain_once sat post now a).1.queue.rows
            ≡ expected sat
                (now (1 + length (sent (replay post) read)))
                j
                (sent (replay post) read)
                (stuck (replay post) read)
                (first (has_id j) a.queue.rows))
  unfolding drain_once
  drain_once_exact = (
    drain_items-count sat (replay post) now 1 read 0 a ∙ omega arith,
    λ j. drain_items-first sat (replay post) now j 1 read 0 a,
  )

module _ (sat : ℕ) (answer : Item → Option String) (now : ℕ → ℕ) where
  pub drain_items-IsValid :
      (i : ℕ) (items : List Item) (n : ℕ) (a : Agent)
      → IsValid a.queue
      → IsValid (drain_items sat answer now i items n a).1.queue
  unfolding drain_items
  drain_items-IsValid i [] n a v = v
  drain_items-IsValid i (it ∷ rest) n a v = elim (Option-cases (answer it)) [
    | inl e ↦
        rw (e, drain_items)
          (drain_items-IsValid (i + 1) rest (n + 1)
            (record { queue = delete it.id a.queue; conn = note_success (now i) a.conn })
            (delete-IsValid it.id a.queue v))
    | inr (x, e) ↦ rw (e, drain_items) (mark_attempt-IsValid sat (now i) (some x) it.id a.queue v)
  ]
