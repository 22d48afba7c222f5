-- ===== src/Server/Feed/Fresh.antt =====
-- The agent's disk after a run against the daemon's feed.
pub mod Runs
pub mod Delivered
use phantom_skills.Prelude.{
  ◌⊎◌, ℕ, ◌+◌, ◌≡◌, refl, sym, ap, ◌∙◌, subst, String, true, false, List, [], ◌∷◌, ◌++◌, ◌==◌, All,
  Elem, length, arith, inl, inr, Bool-cases, codes,
}
use phantom_skills.Text.{Text, is_empty}
use phantom_skills.Skillfile.Slug.{slugify}
use phantom_skills.Store.Queries.{SyncRow}
use phantom_skills.Server.Feed.{sync_skill, promoted_rows, retired_rows}
use phantom_skills.Syncer.Steps.{Syncer, slug_of}
use phantom_skills.Syncer.Fresh.{Beside, Same}
use phantom_skills.Syncer.Fresh.Pages.{Tolerates}

Elem-append : {A : Type 0} (x : A) (xs ys : List A) → Elem x (xs ++ ys) → Elem x xs ⊎ Elem x ys
Elem-append x [] ys h = inr h
Elem-append x (z ∷ xs) ys (inl e) = inl (inl e)
Elem-append x (z ∷ xs) ys (inr h) = elim (Elem-append x xs ys h) [
  | inl a ↦ inl (inr a)
  | inr b ↦ inr b
]

All-left : {A : Type 0} (P : A → Type 0) (xs ys : List A) → All P (xs ++ ys) → All P xs
All-left P [] ys h = tt
All-left P (x ∷ xs) ys h = (h.0, All-left P xs ys h.1)

All-right : {A : Type 0} (P : A → Type 0) (xs ys : List A) → All P (xs ++ ys) → All P ys
All-right P [] ys h = h
All-right P (x ∷ xs) ys h = All-right P xs ys h.1

empty_of_length : {A : Type 0} (xs : List A) → length xs ≡ 0 → xs ≡ []
empty_of_length [] h = refl
empty_of_length (x ∷ xs) h = absurd (omega (arith, h))

is_empty-dotted : (s t : Text) (c : ℕ) → is_empty (s ++ c ∷ t) ≡ false
is_empty-dotted [] t c = refl
is_empty-dotted (x ∷ s) t c = refl

module _ (s : Syncer) (d : Text) (sha : String) where
  -- A row of the feed is for other directories, as a skill and as a name to delete, or it promotes this
  -- version.
  abbrev pub RowTolerates : SyncRow → Type 0
  RowTolerates q =
      (Beside d (slug_of s.unicode (sync_skill q)) × Beside d (slugify s.unicode (codes q.name)))
      ⊎ ((q.status ≡ "promoted") × Same s d sha (sync_skill q))

  promoted-Tolerates :
      (rows : List SyncRow) → All RowTolerates rows → All (Tolerates s d sha) (promoted_rows rows)
  unfolding promoted_rows
  promoted-Tolerates [] a = tt
  promoted-Tolerates (q ∷ rows) a = elim (Bool-cases (q.status == "promoted")) [
    | inl e ↦ rw (e, promoted_rows) (one a.0, promoted-Tolerates rows a.1)
    | inr e ↦ rw (e, promoted_rows) (promoted-Tolerates rows a.1)
  ]
    where
      one : RowTolerates q → Tolerates s d sha (sync_skill q)
      one (inl b) = inl b.0
      one (inr h) = inr h.1

  retired-Beside :
      (rows : List SyncRow)
      → All RowTolerates rows
      → All (λ n. Beside d (slugify s.unicode (codes n))) (retired_rows rows)
  unfolding retired_rows
  retired-Beside [] a = tt
  retired-Beside (q ∷ rows) a = elim (Bool-cases (q.status == "retired")) [
    | inl e ↦ rw (e, retired_rows) (one e a.0, retired-Beside rows a.1)
    | inr e ↦ rw (e, retired_rows) (retired-Beside rows a.1)
  ]
    where
      one :
          (q.status == "retired") ≡ true
          → RowTolerates q
          → Beside d (slugify s.unicode (codes q.name))
      one e (inl b) = b.1
      one e (inr h) =
          let wrong : ("promoted" == "retired") ≡ true =
            subst (λ k. (k == "retired") ≡ true) h.0 e in
          absurd (ground arith)

  Elem-promoted :
      (r : SyncRow) (rows : List SyncRow)
      → Elem r rows
      → r.status ≡ "promoted"
      → Elem (sync_skill r) (promoted_rows rows)
  unfolding promoted_rows
  Elem-promoted r [] here h = absurd here
  Elem-promoted r (q ∷ rows) (inl e) h =
      let found : (q.status == "promoted") ≡ true =
        subst (λ k. (k == "promoted") ≡ true) (sym h ∙ ap (λ (x : SyncRow). x.status) e) refl in
      rw (found, promoted_rows) (inl (ap sync_skill e))
  Elem-promoted r (q ∷ rows) (inr later) h = elim (Bool-cases (q.status == "promoted")) [
    | inl f ↦ rw (f, promoted_rows) (inr (Elem-promoted r rows later h))
    | inr f ↦ rw (f, promoted_rows) (Elem-promoted r rows later h)
  ]
