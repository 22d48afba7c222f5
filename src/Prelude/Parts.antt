-- ===== src/Prelude/Parts.antt =====
-- Reading a part of a list: what a filter keeps, and what is asked of that part alone.
use phantom_skills.Prelude.Tests.{Bool-cases}
use phantom_skills.Prelude.Lists.{All, select, first, exists, update_where}
use mathlib.Core.Bool.{Bool, true, false, ◌&&◌}
use mathlib.Core.Logic.{inl, inr}
use mathlib.Core.Option.{Option, some}
use mathlib.Core.Path.{◌≡◌, refl}
use mathlib.Core.List.{List, [], ◌∷◌, ◌++◌}
use native.Mathlib.Omega.{arith}

module _ {ℓ} {A : Type ℓ} (r : A → Bool) where
  -- An update outside the part.
  pub select-update :
      (p : A → Bool) (f : A → A) (xs : List A)
      → ((x : A) → r (f x) ≡ r x)
      → All (λ x. (p x && r x) ≡ false) xs
      → select r (update_where p f xs) ≡ select r xs
  select-update p f [] keep h = refl
  select-update p f (x ∷ xs) keep h = elim (Bool-cases (p x)) [
    | inl e ↦
        let outside : r x ≡ false = ground (arith, h.0) in
        rw (e, keep x, outside) (select-update p f xs keep h.1)
    | inr e ↦ rw (e, select-update p f xs keep h.1) refl
  ]

  pub select-append_out :
      (xs : List A) (x : A) → r x ≡ false → select r (xs ++ x ∷ []) ≡ select r xs
  select-append_out [] x h = rw h refl
  select-append_out (y ∷ xs) x h = ground (arith, select-append_out xs x h)

  module _ (p : A → Bool) (within : (x : A) → p x ≡ true → r x ≡ true) where
    pub first-select : (xs : List A) → first p (select r xs) ≡ first p xs
    first-select [] = refl
    first-select (x ∷ xs) = elim (Bool-cases (p x)) [
      | inl e ↦ rw (within x e, e) refl
      | inr e ↦ elim (Bool-cases (r x)) [
        | inl f ↦ rw (f, e) (first-select xs)
        | inr f ↦ rw (f, e) (first-select xs)
      ]
    ]

    pub exists-select : (xs : List A) → exists p (select r xs) ≡ exists p xs
    exists-select [] = refl
    exists-select (x ∷ xs) = elim (Bool-cases (p x)) [
      | inl e ↦ rw (within x e, e) refl
      | inr e ↦ elim (Bool-cases (r x)) [
        | inl f ↦ rw (f, e) (exists-select xs)
        | inr f ↦ rw (f, e) (exists-select xs)
      ]
    ]

    pub select-within : (xs : List A) → select p (select r xs) ≡ select p xs
    select-within [] = refl
    select-within (x ∷ xs) = elim (Bool-cases (p x)) [
      | inl e ↦ rw (within x e, e, select-within xs) refl
      | inr e ↦ elim (Bool-cases (r x)) [
        | inl f ↦ rw (f, e) (select-within xs)
        | inr f ↦ rw (f, e) (select-within xs)
      ]
    ]

-- Where a predicate holds of nothing.
pub exists-All :
    {A : Type 0} (p : A → Bool) (xs : List A) → All (λ x. p x ≡ false) xs → exists p xs ≡ false
exists-All p [] h = refl
exists-All p (x ∷ xs) h = rw (h.0, exists-All p xs h.1) refl

pub All_first :
    {A : Type 0} (P : A → Type 0) (p : A → Bool) (xs : List A) (x : A)
    → All P xs
    → first p xs ≡ some x
    → P x
All_first P p [] x h e = absurd (ground (arith, e))
All_first P p (y ∷ ys) x h e = elim (Bool-cases (p y)) [
  | inl f ↦
      let k : ◌≡◌ {A = Option _} (some y) (some x) = rw f at e in
      let same : y ≡ x = cc in rw (← same) h.0
  | inr f ↦ All_first P p ys x h.1 (rw f at e)
]
