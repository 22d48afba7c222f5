-- ===== src/Client/Writes.antt =====
-- `enqueueAndAttempt`: a write is delivered or kept, never lost.
use mathlib.Core.Option
use phantom_skills.Prelude.{
  ℕ, ◌+◌, ◌≡◌, refl, ◌∙◌, String, true, false, not, Option, none, some, List, [], ◌∷◌, ◌++◌, length,
  first, select, All, update_where, arith, pos, length-append, select-append,
}
use phantom_skills.Wqueue.{
  Item, Queue, valid, enqueue, depth, bump, has_id, mark_attempt, delete, backoff_for,
}
use phantom_skills.Wqueue.Table.{IsRow, IsValid}
use phantom_skills.Client.{
  Connectivity, posted, queued, note_failure, conn_snapshot, enqueue_and_attempt,
}

-- A delete or an update at an id that no row has.
select_below : (n : ℕ) (rs : List Item) → All (IsRow n) rs → select (λ r. not (has_id n r)) rs ≡ rs
select_below n [] h = refl
select_below n (r ∷ rs) h = ground (arith, h.0.below, select_below n rs h.1)

update_below :
    (n : ℕ) (f : Item → Item) (rs : List Item)
    → All (IsRow n) rs
    → update_where (has_id n) f rs ≡ rs
update_below n f [] h = refl
update_below n f (r ∷ rs) h = ground (arith, h.0.below, update_below n f rs h.1)

first_append_self :
    (n : ℕ) (rs : List Item) (x : Item)
    → All (IsRow n) rs
    → x.id ≡ n
    → first (has_id n) (rs ++ x ∷ []) ≡ some x
first_append_self n [] x h e = ground arith
first_append_self n (r ∷ rs) x h e = ground (arith, h.0.below, first_append_self n rs x h.1 e)

update_append :
    (n : ℕ) (f : Item → Item) (rs : List Item) (x : Item)
    → All (IsRow n) rs
    → x.id ≡ n
    → update_where (has_id n) f (rs ++ x ∷ []) ≡ rs ++ f x ∷ []
update_append n f [] x h e = ground arith
update_append n f (r ∷ rs) x h e = ground (arith, h.0.below, update_append n f rs x h.1 e)

select_append :
    (n : ℕ) (rs : List Item) (x : Item)
    → All (IsRow n) rs
    → x.id ≡ n
    → select (λ r. not (has_id n r)) (rs ++ x ∷ []) ≡ rs
select_append n [] x h e = ground arith
select_append n (r ∷ rs) x h e = ground (arith, h.0.below, select_append n rs x h.1 e)

-- The row that a write leaves in the queue if its post fails with `e` at `now`.
abbrev pub kept : ℕ → ℕ → String → String → ℕ → ℕ → String → Item
kept sat id kind payload created now e = record {
  id = id;
  kind = kind;
  payload = payload;
  attempts = 1;
  created_at = created;
  next_attempt_at = now + backoff_for sat (pos 1);
  last_error = e;
  dead = false;
}

abbrev fresh : ℕ → String → String → ℕ → Item
fresh id kind payload created = record {
  id = id;
  kind = kind;
  payload = payload;
  attempts = 0;
  created_at = created;
  next_attempt_at = 0;
  last_error = "";
  dead = false;
}

abbrev pub live_count : List Item → ℕ
live_count rs = length (select (λ r. not r.dead) rs)

delete_fresh :
    (n : ℕ) (rs : List Item) (x : Item)
    → All (IsRow n) rs
    → x.id ≡ n
    → delete n (record { rows = rs ++ x ∷ []; next_id = n + 1 })
      ≡ record { rows = rs; next_id = n + 1 }
unfolding delete
delete_fresh n rs x h e = rw (select_append n rs x h e)

mark_fresh :
    (sat n : ℕ) (rs : List Item) (kind payload : String) (created now : ℕ) (e : String)
    → All (IsRow n) rs
    → mark_attempt sat n now
        (some e)
        (record { rows = rs ++ fresh n kind payload created ∷ []; next_id = n + 1 })
      ≡ record { rows = rs ++ kept sat n kind payload created now e ∷ []; next_id = n + 1 }
unfolding mark_attempt bump
mark_fresh sat n rs kind payload created now e h =
    rw (update_append n (bump sat now (some e)) rs (fresh n kind payload created) h refl) refl

depth_kept :
    (m : ℕ) (rs : List Item) (x : Item)
    → x.dead ≡ false
    → depth (record { rows = rs ++ x ∷ []; next_id = m }) ≡ live_count rs + 1
unfolding depth
depth_kept m rs x e =
    rw (select-append (λ (r : Item). not r.dead) rs (x ∷ []))
      (length-append _ (select (λ (r : Item). not r.dead) (x ∷ [])) ∙ ground arith)

module _ (sat : ℕ) (kind payload : String) (created now : ℕ) (q : Queue)
    (conn : Option Connectivity) (v : IsValid q) where
  -- With a queue wired, a write of a known kind whose post succeeds is reported as posted and
  -- leaves the rows of the queue exactly as they were; one whose post fails is reported as queued
  -- and leaves exactly one row more, live, with the error and one attempt, and the depth in its
  -- notice counts that row.
  pub write_delivered_or_kept :
      valid kind ≡ true
      → ((enqueue_and_attempt sat kind payload created now none
            (record { queue = some q; conn = conn })).0
          ≡ posted)
        × ((enqueue_and_attempt sat kind payload created now none
              (record { queue = some q; conn = conn })).1.queue
            ≡ some (record { rows = q.rows; next_id = q.next_id + 1 }))
        × ((e : String)
            → (enqueue_and_attempt sat kind payload created now
                (some e)
                (record { queue = some q; conn = conn }))
              ≡ (
                queued
                    (conn_snapshot (Option.map (note_failure now (some e)) conn))
                    (live_count q.rows + 1),
                record {
                  queue = some (record {
                    rows = q.rows ++ kept sat q.next_id kind payload created now e ∷ [];
                    next_id = q.next_id + 1;
                  });
                  conn = Option.map (note_failure now (some e)) conn;
                },
              ))
  unfolding enqueue_and_attempt enqueue
  write_delivered_or_kept known = rw known (
    refl,
    rw (delete_fresh q.next_id q.rows (fresh q.next_id kind payload created) v.each refl) refl,
    λ e.
        rw
          (
            mark_fresh sat q.next_id q.rows kind payload created now e v.each,
            depth_kept (q.next_id + 1) q.rows (kept sat q.next_id kind payload created now e) refl,
          )
          refl,
  )
