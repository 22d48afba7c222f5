-- ===== src/Wqueue/Due.antt =====
-- Which rows `NextEligible` hands out.
use phantom_skills.Prelude.{
  ℕ, zero, suc, ◌≤◌, ◌<◌, ◌≡◌, ◌⊎◌, refl, ap, true, false, List, [], ◌∷◌, leb, length, take, select,
  All, All-take, All-select, Elem, ℤ, pos, negsuc, or_default, arith, inl, inr, Bool-cases,
  length-take,
}
use phantom_skills.Prelude.Keys.{All-map, All-Elem, All-both, Elem-self, Elem-select}
use phantom_skills.Prelude.Order.{IsSortedBy, sort_by_of_IsSortedBy}
use phantom_skills.Wqueue.{Item, Queue, by_id, eligible, next_eligible}
use phantom_skills.Wqueue.Table.{IsValid, Ascending, Ascending-select}

-- `n` is the number of rows that a limit allows: itself, or 50 if it is not positive.
abbrev pub Allows : ℤ → ℕ → Type 0
Allows (pos zero) n = n ≡ 50
Allows (pos (suc k)) n = n ≡ suc k
Allows (negsuc k) n = n ≡ 50

-- The row is alive, and its next try is at `now` or before.
abbrev pub IsDue : ℕ → Item → Type 0
IsDue now r = (r.dead ≡ false) × (r.next_attempt_at ≤ now)

-- The row is dead, or early, or handed out, or the `n` rows handed out are full and all before it.
abbrev pub Accounted : ℕ → ℕ → List Item → Item → Type 0
Accounted now n out r =
    (r.dead ≡ true)
    ⊎ (now < r.next_attempt_at)
    ⊎ Elem r out
    ⊎ ((length out ≡ n) × All (λ s. s.id < r.id) out)

later : (k : ℕ) (rs : List Item) → All (λ s. k < s.id) rs → All (λ s. leb k s.id ≡ true) rs
later k [] h = tt
later k (r ∷ rs) h = (ground arith, later k rs h.1)

Ascending-IsSortedBy : (rs : List Item) → Ascending rs → IsSortedBy by_id rs
Ascending-IsSortedBy [] h = tt
Ascending-IsSortedBy (r ∷ rs) h = (later r.id rs h.0, Ascending-IsSortedBy rs h.1)

select-IsDue : (now : ℕ) (rs : List Item) → All (IsDue now) (select (eligible now) rs)
select-IsDue now [] = tt
select-IsDue now (r ∷ rs) = ground (arith, select-IsDue now rs)

Ascending-take : (n : ℕ) (rs : List Item) → Ascending rs → Ascending (take n rs)
Ascending-take zero rs a = tt
Ascending-take (suc n) [] a = tt
Ascending-take (suc n) (r ∷ rs) a = (All-take (λ s. r.id < s.id) n rs a.0, Ascending-take n rs a.1)

-- A row that the filter passes is among the first `n`, or behind them.
taken_or_behind :
    (n : ℕ) (rs : List Item) (r : Item)
    → Ascending rs
    → Elem r rs
    → Elem r (take n rs) ⊎ ((length (take n rs) ≡ n) × All (λ s. s.id < r.id) (take n rs))
taken_or_behind zero rs r a e = inr (refl, tt)
taken_or_behind (suc n) [] r a e = absurd e
taken_or_behind (suc n) (x ∷ rs) r a (inl e) = inl (inl e)
taken_or_behind (suc n) (x ∷ rs) r a (inr e) = elim (taken_or_behind n rs r a.1 e) [
  | inl f ↦ inl (inr f)
  | inr (full, before) ↦ inr (ap suc full, (All-Elem (λ s. x.id < s.id) rs r a.0 e, before))
]

judged :
    (now : ℕ) (r : Item) → (r.dead ≡ true) ⊎ (now < r.next_attempt_at) ⊎ (eligible now r ≡ true)
judged now r = elim (Bool-cases r.dead) [
  | inl e ↦ inl e
  | inr e ↦ elim (Bool-cases (leb r.next_attempt_at now)) [
    | inl f ↦ inr (inr (ground arith))
    | inr f ↦ inr (inl (ground arith))
  ]
]

take-Accounted :
    (now n : ℕ) (rows : List Item)
    → Ascending (select (eligible now) rows)
    → All (Accounted now n (take n (select (eligible now) rows))) rows
take-Accounted now n rows a =
    All-map (λ r. Elem r rows) rows
      (λ r there. elim (judged now r) [
        | inl dead ↦ inl dead
        | inr (inl early) ↦ inr (inl early)
        | inr (inr due) ↦ inr (
            inr (
              taken_or_behind n (select (eligible now) rows) r a
                (Elem-select (eligible now) rows r due there)))
      ])
      (Elem-self rows)

allowed : (limit : ℤ) → Allows limit (or_default limit 50)
allowed (pos zero) = refl
allowed (pos (suc k)) = refl
allowed (negsuc k) = refl

-- On a valid table `NextEligible` returns rows of the table that are not dead and whose next try is
-- now or before, in ascending order of id, and at most as many as the limit allows (50 if it is not
-- positive). A row of the table that is not returned is dead, or its next try is still to come, or
-- as many as allowed are returned and all of them have smaller ids.
pub next_eligible_exact :
    (now : ℕ) (limit : ℤ) (q : Queue)
    → IsValid q
    → (n : ℕ) × Allows limit n
      × (length (next_eligible now limit q) ≤ n)
      × Ascending (next_eligible now limit q)
      × All (λ r. Elem r q.rows × IsDue now r) (next_eligible now limit q)
      × All (Accounted now n (next_eligible now limit q)) q.rows
unfolding next_eligible
next_eligible_exact now limit q v =
    let due : List Item = select (eligible now) q.rows in
    let n : ℕ = or_default limit 50 in
    let ascending : Ascending due = Ascending-select (eligible now) q.rows v.ascending in
    let sorted = sort_by_of_IsSortedBy by_id due (Ascending-IsSortedBy due ascending) in
    rw sorted (
      n,
      allowed limit,
      rw (length-take n due) (ground arith),
      Ascending-take n due ascending,
      All-take (λ r. Elem r q.rows × IsDue now r) n due
          (All-both (λ r. Elem r q.rows) (IsDue now) due
            (All-select (λ r. Elem r q.rows) (eligible now) q.rows (Elem-self q.rows))
            (select-IsDue now q.rows)),
      take-Accounted now n q.rows ascending,
    )
