-- ===== src/Usage/Dedup.antt =====
-- Posting a batch again counts nothing twice.
use phantom_skills.Prelude.{
  ℕ, suc, ◌+◌, ◌≡◌, refl, ap, inl, inr, String, false, List, [], ◌∷◌, length, eqb, All, arith,
}
use phantom_skills.Store.Tables.{Result, ok, err}
use phantom_skills.Usage.{UsageEvent, UsageRow, row_for, ingest_all, ingest_usage}
use phantom_skills.Usage.Taken.{Result-cases, Stored, Stored-again, Grows, ingest_all-Taken}

Stored-Grows :
    (clock : ℕ → ℕ) (i : ℕ) (profile : String) (es : List UsageEvent) (rows rows' : List UsageRow)
    → Grows rows rows'
    → Stored clock i profile es rows
    → Stored clock i profile es rows'
unfolding Grows
Stored-Grows clock i profile [] rows rows' grows h = tt
Stored-Grows clock i profile (e ∷ es) rows rows' grows h = (
  elim h.0 [
    | inl skip ↦ inl skip
    | inr (fine, there) ↦ inr (fine, grows (row_for clock i profile e) there)
  ],
  Stored-Grows clock (suc i) profile es rows rows' grows h.1,
)

-- With a time in every event the clock is not read.
abbrev pub Timed : List UsageEvent → Type 0
Timed es = All (λ e. eqb e.ts 0 ≡ false) es

Stored-clock :
    (clock clock' : ℕ → ℕ) (i : ℕ) (profile : String) (es : List UsageEvent) (rows : List UsageRow)
    → Timed es
    → Stored clock i profile es rows
    → Stored clock' i profile es rows
Stored-clock clock clock' i profile [] rows timed h = tt
Stored-clock clock clock' i profile (e ∷ es) rows timed h = (
  elim h.0 [
    | inl skip ↦ inl skip
    | inr (fine, there) ↦ inr (fine, rw timed.0 (rw timed.0 at there))
  ],
  Stored-clock clock clock' (suc i) profile es rows timed.1 h.1,
)

ingest_usage-Grows :
    (clock : ℕ → ℕ) (profile : String) (es : List UsageEvent) (rows : List UsageRow)
    → Grows rows (ingest_usage clock profile es rows).1
unfolding ingest_usage Grows
ingest_usage-Grows clock profile [] rows = λ x g. g
ingest_usage-Grows clock profile (e ∷ es) rows =
    elim (Result-cases (ingest_all clock 0 profile (e ∷ es) rows)) [
      | inl (r, f) ↦
          rw (f, ingest_usage) (ingest_all-Taken clock 0 profile (e ∷ es) rows r.0 r.1 f).grows
      | inr (x, f) ↦ rw (f, ingest_usage) (λ x g. g)
    ]

ingest_usage-Stored :
    (clock : ℕ → ℕ) (profile : String) (es : List UsageEvent) (rows : List UsageRow) (n : ℕ)
    (rows' : List UsageRow)
    → ingest_usage clock profile es rows ≡ (ok n, rows')
    → Stored clock 0 profile es rows' × (length rows' ≡ length rows + n)
unfolding ingest_usage
ingest_usage-Stored clock profile [] rows n rows' h =
    let done : ok 0 ≡ ok n = ap (λ p. p.0) h in
    let zero_new : 0 ≡ n = cc in
    let same : rows ≡ rows' = ap (λ p. p.1) h in rw (← same, ← zero_new) (tt, omega arith)
ingest_usage-Stored clock profile (e ∷ es) rows n rows' h =
    elim (Result-cases (ingest_all clock 0 profile (e ∷ es) rows)) [
      | inl (r, f) ↦
          let done : ◌≡◌ {A = Result ℕ × List UsageRow} (ok r.0, r.1) (ok n, rows') =
            rw (ingest_usage, f) at h in
          let count : ok r.0 ≡ ok n = ap (λ p. p.0) done in
          let new : r.0 ≡ n = cc in
          let same : r.1 ≡ rows' = ap (λ p. p.1) done in
          let all = ingest_all-Taken clock 0 profile (e ∷ es) rows r.0 r.1 f in
          rw (← same, ← new) (all.stored, all.counted)
      | inr (x, f) ↦
          let bad : ◌≡◌ {A = Result ℕ × List UsageRow} (err x, rows) (ok n, rows') =
            rw (ingest_usage, f) at h in
          let wrong : err x ≡ ok n = ap (λ p. p.0) bad in absurd (ground arith)
    ]

-- Any further batches, of any profile, whatever becomes of each.
unfoldable pub ingest_batches :
    (ℕ → ℕ) → List (String × List UsageEvent) → List UsageRow → List UsageRow
ingest_batches clock [] rows = rows
ingest_batches clock ((profile, es) ∷ bs) rows =
    ingest_batches clock bs (ingest_usage clock profile es rows).1

ingest_batches-Grows :
    (clock : ℕ → ℕ) (bs : List (String × List UsageEvent)) (rows : List UsageRow)
    → Grows rows (ingest_batches clock bs rows)
unfolding ingest_batches Grows
ingest_batches-Grows clock [] rows = λ x g. g
ingest_batches-Grows clock ((profile, es) ∷ bs) rows = λ x g.
    ingest_batches-Grows clock bs (ingest_usage clock profile es rows).1 x
      (ingest_usage-Grows clock profile es rows x g)

-- A batch whose events all bear a time and which was taken in adds as many rows as it reports. If it is
-- posted again, at whatever time and after whatever other batches, it reports 0 and changes nothing:
-- the drainer may send what the first attempt has already delivered.
pub ingest_again :
    (clock later : ℕ → ℕ) (profile : String) (es : List UsageEvent) (rows : List UsageRow) (n : ℕ)
    (rows' : List UsageRow)
    → Timed es
    → ingest_usage clock profile es rows ≡ (ok n, rows')
    → (bs : List (String × List UsageEvent))
    → (length rows' ≡ length rows + n)
      × (ingest_usage later profile es (ingest_batches later bs rows')
          ≡ (ok 0, ingest_batches later bs rows'))
unfolding ingest_usage Grows
ingest_again clock later profile es rows n rows' timed done bs =
    let (stored, counted) = ingest_usage-Stored clock profile es rows n rows' done in
    let final : List UsageRow = ingest_batches later bs rows' in
    let still : Stored later 0 profile es final =
      Stored-clock clock later 0 profile es final timed (
        Stored-Grows clock 0 profile es rows' final (ingest_batches-Grows later bs rows') stored) in
    (counted, unchanged es still)
  where
    unchanged :
        (xs : List UsageEvent)
        → Stored later 0 profile xs (ingest_batches later bs rows')
        → ingest_usage later profile xs (ingest_batches later bs rows')
          ≡ (ok 0, ingest_batches later bs rows')
    unchanged [] h = refl
    unchanged (x ∷ xs) h =
        rw (Stored-again later 0 profile (x ∷ xs) (ingest_batches later bs rows') h, ingest_usage)
          refl
