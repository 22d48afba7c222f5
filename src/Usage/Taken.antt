-- ===== src/Usage/Taken.antt =====
-- What taking in a batch does to the table.
use phantom_skills.Prelude.{
  ℕ, suc, ◌+◌, ◌≡◌, refl, ap, ◌⊎◌, inl, inr, String, true, List, [], ◌∷◌, ◌++◌, length,
  length-append, exists, eqb_refl, eq_refl, Bool-cases, arith,
}
use phantom_skills.Prelude.Keys.{exists-append}
use phantom_skills.Store.Tables.{Result, ok, err, StoreError, constraint}
use phantom_skills.Usage.{
  UsageEvent, UsageRow, event_allowed, same_usage, row_for, insert_usage, is_skipped, ingest_all,
}

pub Result-cases :
    {A : Type 0} (r : Result A) → ((a : A) × (r ≡ ok a)) ⊎ ((e : StoreError) × (r ≡ err e))
Result-cases (ok a) = inl (a, refl)
Result-cases (err e) = inr (e, refl)

-- Every event of a batch that is not skipped stands in the table, and may stand there.
abbrev pub Stored : (ℕ → ℕ) → ℕ → String → List UsageEvent → List UsageRow → Type 0
Stored clock i profile [] rows = Unit
Stored clock i profile (e ∷ es) rows =
    ((is_skipped e ≡ true)
      ⊎ ((event_allowed e.event ≡ true)
          × (exists (same_usage (row_for clock i profile e)) rows ≡ true)))
    × Stored clock (suc i) profile es rows

-- A stored batch changes nothing.
pub Stored-again :
    (clock : ℕ → ℕ) (i : ℕ) (profile : String) (es : List UsageEvent) (rows : List UsageRow)
    → Stored clock i profile es rows
    → ingest_all clock i profile es rows ≡ ok (0, rows)
unfolding ingest_all insert_usage
Stored-again clock i profile [] rows h = refl
Stored-again clock i profile (e ∷ es) rows h = elim h.0 [
  | inl skip ↦ rw (skip, ingest_all) (Stored-again clock (suc i) profile es rows h.1)
  | inr (fine, there) ↦ elim (Bool-cases (is_skipped e)) [
    | inl skip ↦ rw (skip, ingest_all) (Stored-again clock (suc i) profile es rows h.1)
    | inr take ↦
        rw (take, ingest_all, fine, insert_usage, there)
          (rw (Stored-again clock (suc i) profile es rows h.1) refl)
  ]
]

-- What stands in the table goes on standing there.
unfoldable pub Grows : List UsageRow → List UsageRow → Type 0
Grows rows rows' =
    (x : UsageRow) → exists (same_usage x) rows ≡ true → exists (same_usage x) rows' ≡ true

same_usage_refl : (r : UsageRow) → same_usage r r ≡ true
same_usage_refl r = ground (
  arith,
  eq_refl r.profile,
  eq_refl r.observed.skill_name,
  eq_refl r.observed.session_id,
  eq_refl r.observed.event,
  eqb_refl r.observed.ts,
)

-- A row that was inserted, or dropped as a duplicate.
record Inserted (r : UsageRow) (rows : List UsageRow) (k : ℕ) (rows' : List UsageRow) : Type 0 where
  allowed : event_allowed r.observed.event ≡ true
  there : exists (same_usage r) rows' ≡ true
  grows : Grows rows rows'
  counted : length rows' ≡ length rows + k

insert_usage-Inserted :
    (r : UsageRow) (rows : List UsageRow) (k : ℕ) (rows' : List UsageRow)
    → insert_usage r rows ≡ ok (k, rows')
    → Inserted r rows k rows'
unfolding insert_usage Grows
insert_usage-Inserted r rows k rows' h = elim (Bool-cases (event_allowed r.observed.event)) [
  | inr e ↦
      let bad : ◌≡◌ {A = Result (ℕ × List UsageRow)} (err (constraint "usage_event_chk"))
          (ok (k, rows')) =
        rw (e, insert_usage) at h in
      absurd (ground arith)
  | inl e ↦ elim (Bool-cases (exists (same_usage r) rows)) [
    | inl f ↦
        let done : ◌≡◌ {A = Result (ℕ × List UsageRow)} (ok (0, rows)) (ok (k, rows')) =
          rw (e, insert_usage, f) at h in
        let pair : ◌≡◌ {A = ℕ × List UsageRow} (0, rows) (k, rows') = cc in
        let none_new : 0 ≡ k = ap (λ p. p.0) pair in
        let same : rows ≡ rows' = ap (λ p. p.1) pair in
        rw (← same, ← none_new)
          (record { allowed = e; there = f; grows = λ x g. g; counted = omega arith })
    | inr f ↦
        let done : ◌≡◌ {A = Result (ℕ × List UsageRow)} (ok (1, rows ++ r ∷ [])) (ok (k, rows')) =
          rw (e, insert_usage, f) at h in
        let pair : ◌≡◌ {A = ℕ × List UsageRow} (1, rows ++ r ∷ []) (k, rows') = cc in
        let one_new : 1 ≡ k = ap (λ p. p.0) pair in
        let same : rows ++ r ∷ [] ≡ rows' = ap (λ p. p.1) pair in
        rw (← same, ← one_new)
          (record {
            allowed = e;
            there =
                rw (exists-append (same_usage r) rows (r ∷ []), same_usage_refl r) (ground arith);
            grows = λ x g. rw (exists-append (same_usage x) rows (r ∷ []), g) refl;
            counted = length-append rows (r ∷ []);
          })
  ]
]

-- A batch that is taken in.
pub record Taken (clock : ℕ → ℕ) (i : ℕ) (profile : String) (es : List UsageEvent)
    (rows : List UsageRow) (n : ℕ) (rows' : List UsageRow) : Type 0 where
  pub stored : Stored clock i profile es rows'
  pub grows : Grows rows rows'
  pub counted : length rows' ≡ length rows + n

pub ingest_all-Taken :
    (clock : ℕ → ℕ) (i : ℕ) (profile : String) (es : List UsageEvent) (rows : List UsageRow) (n : ℕ)
    (rows' : List UsageRow)
    → ingest_all clock i profile es rows ≡ ok (n, rows')
    → Taken clock i profile es rows n rows'
unfolding ingest_all Grows
ingest_all-Taken clock i profile [] rows n rows' h =
    let pair : ◌≡◌ {A = ℕ × List UsageRow} (0, rows) (n, rows') = cc in
    let zero_new : 0 ≡ n = ap (λ p. p.0) pair in
    let same : rows ≡ rows' = ap (λ p. p.1) pair in
    rw (← same, ← zero_new) (record { stored = tt; grows = λ x g. g; counted = omega arith })
ingest_all-Taken clock i profile (e ∷ es) rows n rows' h = elim (Bool-cases (is_skipped e)) [
  | inl skip ↦
      let rest =
        ingest_all-Taken clock (suc i) profile es rows n rows' (rw (skip, ingest_all) at h) in
      record { stored = (inl skip, rest.stored); grows = rest.grows; counted = rest.counted }
  | inr take ↦ elim (Result-cases (insert_usage (row_for clock i profile e) rows)) [
    | inr (x, f) ↦
        let bad : ◌≡◌ {A = Result (ℕ × List UsageRow)} (err x) (ok (n, rows')) =
          rw (take, ingest_all, f) at h in
        absurd (ground arith)
    | inl (r, f) ↦ elim (Result-cases (ingest_all clock (suc i) profile es r.1)) [
      | inr (x, g) ↦
          let bad : ◌≡◌ {A = Result (ℕ × List UsageRow)} (err x) (ok (n, rows')) =
            rw (take, ingest_all, f, g) at h in
          absurd (ground arith)
      | inl (t, g) ↦
          let done : ◌≡◌ {A = Result (ℕ × List UsageRow)} (ok (r.0 + t.0, t.1)) (ok (n, rows')) =
            rw (take, ingest_all, f, g) at h in
          let pair : ◌≡◌ {A = ℕ × List UsageRow} (r.0 + t.0, t.1) (n, rows') = cc in
          let total : r.0 + t.0 ≡ n = ap (λ p. p.0) pair in
          let same : t.1 ≡ rows' = ap (λ p. p.1) pair in
          let first_one = insert_usage-Inserted (row_for clock i profile e) rows r.0 r.1 f in
          let rest = ingest_all-Taken clock (suc i) profile es r.1 t.0 t.1 g in
          rw (← same, ← total)
            (record {
              stored = (
                inr (first_one.allowed, rest.grows (row_for clock i profile e) first_one.there),
                rest.stored,
              );
              grows = λ x k. rest.grows x (first_one.grows x k);
              counted = omega (arith, first_one.counted, rest.counted);
            })
    ]
  ]
]
