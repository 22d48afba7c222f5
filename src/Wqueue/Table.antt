-- ===== src/Wqueue/Table.antt =====
-- The invariant of the queue's table, and what each statement does to the row of an id.
use mathlib.Core.Option
use phantom_skills.Prelude.{
  inl, inr, Bool-cases, ℕ, ◌+◌, ◌<◌, ◌≡◌, refl, String, Bool, true, false, not, Option, none, List,
  [], ◌∷◌, ◌++◌, leb, eqb, if◌then◌else◌, select, first, update_where, All, All-append, All-select,
  arith,
}
use phantom_skills.Wqueue.{
  Item, Queue, max_attempts, valid, enqueue, bump, has_id, mark_attempt, delete, purge,
}

-- What holds of each row, given the counter of ids.
pub record IsRow (next_id : ℕ) (r : Item) : Type 0 where
  pub below : r.id < next_id
  -- dead-lettered exactly at the ceiling
  pub ceiling : r.dead ≡ leb max_attempts r.attempts
  pub known_kind : valid r.kind ≡ true

-- Ids rise along the table, so they are distinct and the order of insertion is the order of ids.
abbrev pub Ascending : List Item → Type 0
Ascending [] = Unit
Ascending (r ∷ rs) = All (λ s. r.id < s.id) rs × Ascending rs

pub record IsValid (q : Queue) : Type 0 where
  pub each : All (IsRow q.next_id) q.rows
  pub ascending : Ascending q.rows

IsRow-weaken : (n : ℕ) (rs : List Item) → All (IsRow n) rs → All (IsRow (n + 1)) rs
IsRow-weaken n [] h = tt
IsRow-weaken n (r ∷ rs) h = (
  record { below = omega (arith, h.0.below); ceiling = h.0.ceiling; known_kind = h.0.known_kind },
  IsRow-weaken n rs h.1,
)

below-append :
    (k : ℕ) (rs : List Item) (x : Item)
    → All (λ s. k < s.id) rs
    → k < x.id
    → All (λ s. k < s.id) (rs ++ x ∷ [])
below-append k rs x h e = All-append _ rs (x ∷ []) h (e, tt)

Ascending-append :
    (rs : List Item) (x : Item) → All (IsRow x.id) rs → Ascending rs → Ascending (rs ++ x ∷ [])
Ascending-append [] x h a = (tt, tt)
Ascending-append (r ∷ rs) x h a =
    (below-append r.id rs x a.0 h.0.below, Ascending-append rs x h.1 a.1)

pub Ascending-select : (p : Item → Bool) (rs : List Item) → Ascending rs → Ascending (select p rs)
Ascending-select p [] a = tt
Ascending-select p (r ∷ rs) a =
    ground (arith, Ascending-select p rs a.1, All-select (λ (s : Item). r.id < s.id) p rs a.0)

module _ (sat now : ℕ) (err : Option String) where
  pub id-bump : (r : Item) → (bump sat now err r).id ≡ r.id
  unfolding bump
  id-bump r = ground arith

  pub bump-IsRow : (n : ℕ) (r : Item) → IsRow n r → IsRow n (bump sat now err r)
  unfolding bump
  bump-IsRow n r h = ground arith

  pub attempts-bump : (r : Item) → (bump sat now err r).attempts ≡ r.attempts + 1
  unfolding bump
  attempts-bump r = ground arith

  module _ (id : ℕ) where
    update-IsRow :
        (n : ℕ) (rs : List Item)
        → All (IsRow n) rs
        → All (IsRow n) (update_where (has_id id) (bump sat now err) rs)
    update-IsRow n [] h = tt
    update-IsRow n (r ∷ rs) h = elim (Bool-cases (eqb r.id id)) [
      | inl e ↦ rw e (bump-IsRow n r h.0, update-IsRow n rs h.1)
      | inr e ↦ rw e (h.0, update-IsRow n rs h.1)
    ]

    update-below :
        (k : ℕ) (rs : List Item)
        → All (λ s. k < s.id) rs
        → All (λ s. k < s.id) (update_where (has_id id) (bump sat now err) rs)
    update-below k [] h = tt
    update-below k (r ∷ rs) h = ground (arith, id-bump r, update-below k rs h.1)

    update-Ascending :
        (rs : List Item) → Ascending rs → Ascending (update_where (has_id id) (bump sat now err) rs)
    update-Ascending [] h = tt
    update-Ascending (r ∷ rs) h = elim (Bool-cases (eqb r.id id)) [
      | inl e ↦ rw (e, id-bump r) (update-below r.id rs h.0, update-Ascending rs h.1)
      | inr e ↦ rw e (update-below r.id rs h.0, update-Ascending rs h.1)
    ]

    pub mark_attempt-IsValid : (q : Queue) → IsValid q → IsValid (mark_attempt sat id now err q)
    unfolding mark_attempt
    mark_attempt-IsValid q v = record {
      each = update-IsRow q.next_id q.rows v.each;
      ascending = update-Ascending q.rows v.ascending;
    }

    first-update :
        (j : ℕ) (rs : List Item)
        → first (has_id j) (update_where (has_id id) (bump sat now err) rs) ≡ (
            if eqb j id
            then Option.map (bump sat now err) (first (has_id j) rs)
            else first (has_id j) rs)
    first-update j [] = ground arith
    first-update j (r ∷ rs) = ground (arith, id-bump r, first-update j rs)

    -- The row of each id after a failed attempt.
    pub first-mark_attempt :
        (j : ℕ) (q : Queue)
        → first (has_id j) (mark_attempt sat id now err q).rows ≡ (
            if eqb j id
            then Option.map (bump sat now err) (first (has_id j) q.rows)
            else first (has_id j) q.rows)
    unfolding mark_attempt
    first-mark_attempt j q = first-update j q.rows

pub enqueue-IsValid :
    (kind payload : String) (now : ℕ) (q : Queue)
    → IsValid q
    → IsValid (enqueue kind payload now q).1
unfolding enqueue
enqueue-IsValid kind payload now q v = elim (Bool-cases (valid kind)) [
  | inl e ↦ rw e (record {
    each =
        All-append (IsRow (q.next_id + 1)) q.rows _ (IsRow-weaken q.next_id q.rows v.each)
          (record { below = omega arith; ceiling = refl; known_kind = e }, tt);
    ascending = Ascending-append q.rows _ v.each v.ascending;
  })
  | inr e ↦ rw e v
]

pub delete-IsValid : (id : ℕ) (q : Queue) → IsValid q → IsValid (delete id q)
unfolding delete
delete-IsValid id q v = record {
  each = All-select (IsRow q.next_id) _ q.rows v.each;
  ascending = Ascending-select _ q.rows v.ascending;
}

pub purge-IsValid :
    (dead_only all : Bool) (q : Queue) → IsValid q → IsValid (purge dead_only all q).1
unfolding purge
purge-IsValid dead_only true q v = record { each = tt; ascending = tt }
purge-IsValid dead_only false q v = record {
  each = All-select (IsRow q.next_id) _ q.rows v.each;
  ascending = Ascending-select _ q.rows v.ascending;
}

first-select :
    (id j : ℕ) (rs : List Item)
    → first (has_id j) (select (λ r. not (has_id id r)) rs)
      ≡ (if eqb j id then none else first (has_id j) rs)
first-select id j [] = ground arith
first-select id j (r ∷ rs) = ground (arith, first-select id j rs)

-- The row of each id after a delete.
pub first-delete :
    (id j : ℕ) (q : Queue)
    → first (has_id j) (delete id q).rows ≡ (if eqb j id then none else first (has_id j) q.rows)
unfolding delete
first-delete id j q = first-select id j q.rows
