-- ===== src/Wqueue/Retry.antt =====
-- When a row that keeps failing is dead-lettered.
use phantom_skills.Prelude.{
  ℕ, ◌+◌, ◌≡◌, refl, ◌∙◌, String, some, List, [], ◌∷◌, leb, eqb_refl, length, first, first-All,
  arith,
}
use phantom_skills.Wqueue.{Item, Queue, max_attempts, bump, has_id, mark_attempt}
use phantom_skills.Wqueue.Table.{
  IsRow, IsValid, first-mark_attempt, attempts-bump, mark_attempt-IsValid,
}

-- Failed attempts on one row, each with its time and its error.
pub fail_all : ℕ → ℕ → List (ℕ × String) → Queue → Queue
fail_all sat id [] q = q
fail_all sat id ((now, e) ∷ fails) q = fail_all sat id fails (mark_attempt sat id now (some e) q)

module _ (sat id : ℕ) where
  marked_self :
      (now : ℕ) (e : String) (q : Queue) (r : Item)
      → first (has_id id) q.rows ≡ some r
      → first (has_id id) (mark_attempt sat id now (some e) q).rows ≡ some (bump sat now (some e) r)
  marked_self now e q r h = first-mark_attempt sat now (some e) id id q ∙ rw (eqb_refl id, h) refl

  fail_all-first :
      (fails : List (ℕ × String)) (q : Queue) (r : Item)
      → first (has_id id) q.rows ≡ some r
      → (s : Item) × (first (has_id id) (fail_all sat id fails q).rows ≡ some s)
        × (s.attempts ≡ r.attempts + length fails)
  unfolding fail_all
  fail_all-first [] q r h = (r, h, omega arith)
  fail_all-first ((now, e) ∷ fails) q r h =
      let (s, found, count) =
        fail_all-first fails (mark_attempt sat id now (some e) q) (bump sat now (some e) r)
          (marked_self now e q r h) in
      (s, found, count ∙ omega (arith, attempts-bump sat now (some e) r))

  pub fail_all-IsValid :
      (fails : List (ℕ × String)) (q : Queue) → IsValid q → IsValid (fail_all sat id fails q)
  unfolding fail_all
  fail_all-IsValid [] q v = v
  fail_all-IsValid ((now, e) ∷ fails) q v =
      fail_all-IsValid fails (mark_attempt sat id now (some e) q)
        (mark_attempt-IsValid sat now (some e) id q v)

-- In a valid table, after any further failed attempts on a row, whatever their times and errors,
-- the row is still there with those attempts counted, and it is dead exactly if the count has
-- reached the ceiling of 12.
pub retry_ceiling :
    (sat id : ℕ) (fails : List (ℕ × String)) (q : Queue) (r : Item)
    → IsValid q
    → first (has_id id) q.rows ≡ some r
    → (s : Item) × (first (has_id id) (fail_all sat id fails q).rows ≡ some s)
      × (s.attempts ≡ r.attempts + length fails)
      × (s.dead ≡ leb max_attempts (r.attempts + length fails))
retry_ceiling sat id fails q r v h =
    let (s, found, count) = fail_all-first sat id fails q r h in
    let valid = fail_all-IsValid sat id fails q v in
    let row =
      first-All (IsRow (fail_all sat id fails q).next_id) (has_id id) _ s valid.each found in
    (s, found, count, row.ceiling ∙ rw count refl)
