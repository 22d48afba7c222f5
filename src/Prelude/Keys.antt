-- ===== src/Prelude/Keys.antt =====
-- UNIQUE constraints: no two rows of a table are the same by a Boolean test; and what searching,
-- appending and updating do to it.
use phantom_skills.Prelude.Tests.{if◌then◌else◌, Bool-cases}
use phantom_skills.Prelude.Lists.{All, All-append, Elem, select, first, exists, update_where}
use mathlib.Core.Bool.{Bool, true, false, ◌||◌}
use mathlib.Core.Logic.{inl, inr}
use mathlib.Core.Option
use mathlib.Core.Option.{Option, none, some}
use mathlib.Core.Path.{◌≡◌, refl, sym, subst}
use mathlib.Core.List.{List, [], ◌∷◌, ◌++◌}
use native.Mathlib.Omega.{arith}

module _ {ℓ} {A : Type ℓ} (same : A → A → Bool) where
  abbrev pub Distinct : List A → Type 0
  Distinct [] = Unit
  Distinct (x ∷ xs) = All (λ y. same x y ≡ false) xs × Distinct xs

  pub Distinct-append :
      (xs : List A) (x : A) → All (λ y. same y x ≡ false) xs → Distinct xs → Distinct (xs ++ x ∷ [])
  Distinct-append [] x h d = (tt, tt)
  Distinct-append (y ∷ ys) x h d =
      (All-append (λ z. same y z ≡ false) ys (x ∷ []) d.0 (h.0, tt), Distinct-append ys x h.1 d.1)

  module _ (p : A → Bool) (f : A → A) (left : (x y : A) → same (f x) y ≡ same x y)
      (right : (x y : A) → same x (f y) ≡ same x y) where
    apart-update :
        (x : A) (ys : List A)
        → All (λ y. same x y ≡ false) ys
        → All (λ y. same x y ≡ false) (update_where p f ys)
    apart-update x [] h = tt
    apart-update x (y ∷ ys) h = elim (Bool-cases (p y)) [
      | inl e ↦ rw (e, right x y) (h.0, apart-update x ys h.1)
      | inr e ↦ rw e (h.0, apart-update x ys h.1)
    ]

    apart_left :
        (x : A) (ys : List A) → All (λ y. same x y ≡ false) ys → All (λ y. same (f x) y ≡ false) ys
    apart_left x [] h = tt
    apart_left x (y ∷ ys) h = (rw (left x y) h.0, apart_left x ys h.1)

    pub Distinct-update : (xs : List A) → Distinct xs → Distinct (update_where p f xs)
    Distinct-update [] d = tt
    Distinct-update (x ∷ xs) d = elim (Bool-cases (p x)) [
      | inl e ↦ rw e (apart_left x _ (apart-update x xs d.0), Distinct-update xs d.1)
      | inr e ↦ rw e (apart-update x xs d.0, Distinct-update xs d.1)
    ]

module _ {ℓ} {A : Type ℓ} (p : A → Bool) where
  -- A search that finds nothing passes over every row.
  pub first-none : (xs : List A) → first p xs ≡ none → All (λ x. p x ≡ false) xs
  first-none [] h = tt
  first-none (x ∷ xs) h = elim (Bool-cases (p x)) [
    | inl e ↦ absurd (ground arith)
    | inr e ↦ (e, first-none xs (rw e at h))
  ]

  pub exists-none : (xs : List A) → exists p xs ≡ false → All (λ x. p x ≡ false) xs
  exists-none [] h = tt
  exists-none (x ∷ xs) h = (ground arith, exists-none xs (ground arith))

  pub exists_of_none : (xs : List A) → first p xs ≡ none → exists p xs ≡ false
  exists_of_none [] h = refl
  exists_of_none (x ∷ xs) h = elim (Bool-cases (p x)) [
    | inl e ↦ absurd (ground arith)
    | inr e ↦ rw e (exists_of_none xs (rw e at h))
  ]

  -- A search succeeds exactly if a row passes, and what it returns passes.
  pub first_passes : (xs : List A) (x : A) → first p xs ≡ some x → p x ≡ true
  first_passes [] x h = cc
  first_passes (y ∷ ys) x h = elim (Bool-cases (p y)) [
    | inl e ↦ let found : some y ≡ some x = rw e at h in let same : y ≡ x = cc in rw (← same) e
    | inr e ↦ first_passes ys x (rw e at h)
  ]

  pub exists_first : (xs : List A) (x : A) → first p xs ≡ some x → exists p xs ≡ true
  exists_first [] x h = cc
  exists_first (y ∷ ys) x h = ground (arith, exists_first ys x)

  pub exists_other :
      (q : A → Bool) (xs : List A) (x : A) → first q xs ≡ some x → p x ≡ true → exists p xs ≡ true
  exists_other q [] x h e = cc
  exists_other q (y ∷ ys) x h e = elim (Bool-cases (q y)) [
    | inl b ↦ let found : some y ≡ some x = rw b at h in let same : y ≡ x = cc in rw (same, e) refl
    | inr b ↦ ground (arith, exists_other q ys x (rw b at h) e)
  ]

  pub exists-append : (xs ys : List A) → exists p (xs ++ ys) ≡ (exists p xs || exists p ys)
  exists-append [] ys = refl
  exists-append (x ∷ xs) ys = ground (arith, exists-append xs ys)

  pub first-append_none :
      (xs : List A) (x : A) → first p xs ≡ none → p x ≡ true → first p (xs ++ x ∷ []) ≡ some x
  first-append_none [] x h e = rw e
  first-append_none (y ∷ ys) x h e = elim (Bool-cases (p y)) [
    | inl b ↦ absurd (ground arith)
    | inr b ↦ rw b (first-append_none ys x (rw b at h) e)
  ]

  pub first-append_some :
      (xs ys : List A) (x : A) → first p xs ≡ some x → first p (xs ++ ys) ≡ some x
  first-append_some [] ys x h = cc
  first-append_some (z ∷ zs) ys x h = ground (arith, first-append_some zs ys x)

  pub first-append_skip : (xs : List A) (x : A) → p x ≡ false → first p (xs ++ x ∷ []) ≡ first p xs
  first-append_skip [] x e = rw e
  first-append_skip (y ∷ ys) x e = ground (arith, first-append_skip ys x e)

  module _ (w : A → Bool) (f : A → A) (keep : (x : A) → p (f x) ≡ p x) where
    -- An update that does not touch what the test reads.
    pub exists-update : (xs : List A) → exists p (update_where w f xs) ≡ exists p xs
    exists-update [] = refl
    exists-update (x ∷ xs) = elim (Bool-cases (w x)) [
      | inl e ↦ rw (e, keep x, exists-update xs)
      | inr e ↦ rw (e, exists-update xs)
    ]

    pub first-update :
        (xs : List A)
        → first p (update_where w f xs) ≡ Option.map (λ x. if w x then f x else x) (first p xs)
    first-update [] = refl
    first-update (x ∷ xs) = elim (Bool-cases (w x)) [
      | inl e ↦ elim (Bool-cases (p x)) [
        | inl q ↦ rw (e, keep x, q, e)
        | inr q ↦ rw (e, keep x, q) (first-update xs)
      ]
      | inr e ↦ elim (Bool-cases (p x)) [
        | inl q ↦ rw (e, q, e)
        | inr q ↦ rw (e, q) (first-update xs)
      ]
    ]

module _ {ℓ κ} {A : Type ℓ} (P : A → Type κ) where
  pub All-update :
      (w : A → Bool) (f : A → A) (xs : List A)
      → ((x : A) → w x ≡ true → P x → P (f x))
      → All P xs
      → All P (update_where w f xs)
  All-update w f [] k h = tt
  All-update w f (x ∷ xs) k h = elim (Bool-cases (w x)) [
    | inl e ↦ rw e (k x e h.0, All-update w f xs k h.1)
    | inr e ↦ rw e (h.0, All-update w f xs k h.1)
  ]

  pub All-map {μ} : {Q : A → Type μ} (xs : List A) → ((x : A) → P x → Q x) → All P xs → All Q xs
  All-map [] k h = tt
  All-map {Q} (x ∷ xs) k h = (k x h.0, All-map {Q = Q} xs k h.1)

pub All-Elem : {A : Type 0} (P : A → Type 0) (xs : List A) (a : A) → All P xs → Elem a xs → P a
All-Elem P [] a h e = absurd e
All-Elem P (x ∷ xs) a h (inl e) = subst P (sym e) h.0
All-Elem P (x ∷ xs) a h (inr e) = All-Elem P xs a h.1 e

pub Elem-self : {A : Type 0} (xs : List A) → All (λ x. Elem x xs) xs
Elem-self [] = tt
Elem-self (x ∷ xs) = (inl refl, All-map (λ y. Elem y xs) xs (λ y e. inr e) (Elem-self xs))

pub All-both :
    {A : Type 0} (P Q : A → Type 0) (xs : List A) → All P xs → All Q xs → All (λ x. P x × Q x) xs
All-both P Q [] h k = tt
All-both P Q (x ∷ xs) h k = ((h.0, k.0), All-both P Q xs h.1 k.1)

pub Elem-select :
    {A : Type 0} (p : A → Bool) (xs : List A) (a : A)
    → p a ≡ true
    → Elem a xs
    → Elem a (select p xs)
Elem-select p [] a h e = e
Elem-select p (x ∷ xs) a h e = elim (Bool-cases (p x)) [
  | inl f ↦ rw f (elim e [ inl here ↦ inl here | inr there ↦ inr (Elem-select p xs a h there) ])
  | inr f ↦ rw f (elim e [
    | inl here ↦ let passed : p x ≡ true = rw (← here) h in absurd (ground arith)
    | inr there ↦ Elem-select p xs a h there
  ])
]
