-- ===== src/Prelude/Order/Keyset.antt =====
-- Paging through a sorted list by the key of the last row seen.
use phantom_skills.Prelude.Tests.{if◌then◌else◌, Bool-cases}
use phantom_skills.Prelude.Lists.{All, All-take, select, take, drop}
use phantom_skills.Prelude.Keys.{Distinct}
use phantom_skills.Prelude.Order.{
  insert_by, sort_by, IsSortedBy, IsOrder, sort_by-IsSortedBy, insert_by_first, All-insert_by,
  All-sort_by, All-trans,
}
use mathlib.Core.Bool.{Bool, true, false, ◌&&◌}
use mathlib.Core.Logic.{inl, inr}
use mathlib.Core.Path.{◌≡◌, refl, ◌∙◌, sym}
use mathlib.Core.List.{List, [], ◌∷◌}
use native.Mathlib.Omega.{arith}
use Prim.Native.Nat.{ℕ, zero, suc}

module _ {ℓ} {A : Type ℓ} where
  abbrev pub last_of : A → List A → A
  last_of d [] = d
  last_of d (x ∷ xs) = last_of x xs

  pub last_of-All {κ} : (P : A → Type κ) (x : A) (xs : List A) → P x → All P xs → P (last_of x xs)
  last_of-All P x [] h a = h
  last_of-All P x (y ∷ ys) h a = last_of-All P y ys a.0 a.1

  pub select-passes : (p : A → Bool) (xs : List A) → All (λ x. p x ≡ true) (select p xs)
  select-passes p [] = tt
  select-passes p (x ∷ xs) = elim (Bool-cases (p x)) [
    | inl e ↦ rw e (e, select-passes p xs)
    | inr e ↦ rw e (select-passes p xs)
  ]

  pub select-all : (p : A → Bool) (xs : List A) → All (λ x. p x ≡ true) xs → select p xs ≡ xs
  select-all p [] a = refl
  select-all p (x ∷ xs) a = rw (a.0, select-all p xs a.1) refl

  -- A finer filter may be put behind a coarser one.
  pub select-select :
      (p q r : A → Bool) (xs : List A)
      → ((x : A) → r x ≡ (p x && q x))
      → select r xs ≡ select p (select q xs)
  select-select p q r [] h = refl
  select-select p q r (x ∷ xs) h = ground (arith, h x, select-select p q r xs h)

module _ {ℓ} {A : Type ℓ} (le : A → A → Bool) (o : IsOrder le) (q : A → Bool) where
  All-select_le :
      (x : A) (ys : List A) → All (λ y. le x y ≡ true) ys → All (λ y. le x y ≡ true) (select q ys)
  All-select_le x [] a = tt
  All-select_le x (y ∷ ys) a = elim (Bool-cases (q y)) [
    | inl e ↦ rw e (a.0, All-select_le x ys a.1)
    | inr e ↦ rw e (All-select_le x ys a.1)
  ]

  select-insert_by :
      (x : A) (ys : List A)
      → IsSortedBy le ys
      → select q (insert_by le x ys) ≡ (if q x then insert_by le x (select q ys) else select q ys)
  select-insert_by x [] s = refl
  select-insert_by x (y ∷ ys) s = elim (Bool-cases (le x y)) [
    | inl e ↦ elim (Bool-cases (q x)) [
      | inl f ↦
          rw (e, f)
            (sym (
              insert_by_first le x (select q (y ∷ ys))
                (All-select_le x (y ∷ ys) (e, All-trans le o x y ys e s.0))))
      | inr f ↦ rw (e, f) refl
    ]
    | inr e ↦ elim (Bool-cases (q y)) [
      | inl g ↦ rw (e, g) (ground (arith, select-insert_by x ys s.1))
      | inr g ↦ rw (e, g) (select-insert_by x ys s.1)
    ]
  ]

  -- Filtering and sorting commute.
  pub select-sort_by : (xs : List A) → select q (sort_by le xs) ≡ sort_by le (select q xs)
  select-sort_by [] = refl
  select-sort_by (x ∷ xs) =
      select-insert_by x (sort_by le xs) (sort_by-IsSortedBy le o xs)
      ∙ ground (arith, select-sort_by xs)

module _ {ℓ} {A : Type ℓ} (same : A → A → Bool) (q : A → Bool) where
  apart-select :
      (x : A) (ys : List A)
      → All (λ y. same x y ≡ false) ys
      → All (λ y. same x y ≡ false) (select q ys)
  apart-select x [] a = tt
  apart-select x (y ∷ ys) a = elim (Bool-cases (q y)) [
    | inl e ↦ rw e (a.0, apart-select x ys a.1)
    | inr e ↦ rw e (apart-select x ys a.1)
  ]

  pub Distinct-select : (xs : List A) → Distinct same xs → Distinct same (select q xs)
  Distinct-select [] d = tt
  Distinct-select (x ∷ xs) d = elim (Bool-cases (q x)) [
    | inl e ↦ rw e (apart-select x xs d.0, Distinct-select xs d.1)
    | inr e ↦ rw e (Distinct-select xs d.1)
  ]

module _ {ℓ} {A : Type ℓ} (same : A → A → Bool) where
  pub Distinct-take : (n : ℕ) (xs : List A) → Distinct same xs → Distinct same (take n xs)
  Distinct-take zero xs d = tt
  Distinct-take (suc n) [] d = tt
  Distinct-take (suc n) (x ∷ xs) d =
      (All-take (λ y. same x y ≡ false) n xs d.0, Distinct-take n xs d.1)

module _ {ℓ} {A : Type ℓ} (same : A → A → Bool) (comm : (x y : A) → same x y ≡ same y x) where
  Distinct-insert_by :
      (le : A → A → Bool) (x : A) (ys : List A)
      → All (λ y. same x y ≡ false) ys
      → Distinct same ys
      → Distinct same (insert_by le x ys)
  Distinct-insert_by le x [] a d = (tt, tt)
  Distinct-insert_by le x (y ∷ ys) a d = elim (Bool-cases (le x y)) [
    | inl e ↦ rw e (a, d)
    | inr e ↦ rw e (
      All-insert_by le (λ z. same y z ≡ false) x ys (comm y x ∙ a.0) d.0,
      Distinct-insert_by le x ys a.1 d.1,
    )
  ]

  pub Distinct-sort_by :
      (le : A → A → Bool) (xs : List A) → Distinct same xs → Distinct same (sort_by le xs)
  Distinct-sort_by le [] d = tt
  Distinct-sort_by le (x ∷ xs) d =
      Distinct-insert_by le x (sort_by le xs) (All-sort_by le (λ y. same x y ≡ false) xs d.0)
        (Distinct-sort_by le xs d.1)

-- A strict order.
pub record IsStrict {ℓ} {A : Type ℓ} (lt : A → A → Bool) : Type ℓ where
  pub irrefl : (x : A) → lt x x ≡ false
  pub asym : (x y : A) → lt x y ≡ true → lt y x ≡ false

module _ {ℓ} {A : Type ℓ} (lt : A → A → Bool) (o : IsStrict lt) where
  -- The rows behind the last of the first `n + 1` are what those leave.
  pub select-last_of :
      (n : ℕ) (x : A) (xs : List A)
      → IsSortedBy lt (x ∷ xs)
      → select (lt (last_of x (take n xs))) (x ∷ xs) ≡ drop n xs
  select-last_of zero x xs s = rw (o.irrefl x) (select-all (lt x) xs s.0)
  select-last_of (suc n) x [] s = rw (o.irrefl x) refl
  select-last_of (suc n) x (y ∷ ys) s =
      let m : A = last_of y (take n ys) in
      let later : lt x m ≡ true =
        last_of-All (λ z. lt x z ≡ true) y (take n ys) s.0.0
          (All-take (λ z. lt x z ≡ true) n ys s.0.1) in
      rw (o.asym x m later) (select-last_of n y ys s.1)
