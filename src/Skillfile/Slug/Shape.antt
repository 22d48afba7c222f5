-- ===== src/Skillfile/Slug/Shape.antt =====
-- The shape of what Slugify returns.
use phantom_skills.Prelude.{
  ℕ, ◌≡◌, refl, sym, ap, ◌∙◌, ◌++◌, Bool, true, false, not, ◌&&◌, ◌||◌, [], ◌∷◌, map, reverse, All,
  Bool-cases, inl, inr,
}
use mathlib.Core.List.{reverse_aux}
use mathlib.Core.List.{reverse-reverse, reverse-append}
use phantom_skills.Text.{Text, Unicode, trim, trim_right, drop_while, trim_space, is_empty}
use phantom_skills.Skillfile.Slug.{is_slug_rune, is_hyphen, slug_loop, slugify}

-- A lowercase letter, a digit or a hyphen.
unfoldable pub is_slug_char : ℕ → Bool
unfolding is_slug_rune
is_slug_char c = is_slug_rune c || is_hyphen c

abbrev pub IsSlug : Text → Type 0
IsSlug s = All (λ c. is_slug_char c ≡ true) s

module _ (P : ℕ → Type 0) where
  All-reverse_aux : (s t : Text) → All P s → All P t → All P (reverse_aux s t)
  All-reverse_aux [] t hs ht = ht
  All-reverse_aux (c ∷ s) t hs ht = All-reverse_aux s (c ∷ t) hs.1 (hs.0, ht)

  All-drop_while : (p : ℕ → Bool) (s : Text) → All P s → All P (drop_while p s)
  unfolding drop_while
  All-drop_while p [] h = tt
  All-drop_while p (c ∷ s) h = elim (Bool-cases (p c)) [
    | inl e ↦ rw (e, drop_while) (All-drop_while p s h.1)
    | inr e ↦ rw (e, drop_while) h
  ]

  All-trim_right : (p : ℕ → Bool) (s : Text) → All P s → All P (trim_right p s)
  unfolding trim_right
  All-trim_right p s h =
      All-reverse_aux (drop_while p (reverse s)) []
        (All-drop_while p (reverse s) (All-reverse_aux s [] h tt)) tt

slug_loop-IsSlug : (w : Text) (b : Bool) (s : Text) → IsSlug w → IsSlug (slug_loop w b s)
unfolding slug_loop is_slug_char
slug_loop-IsSlug w b [] h = h
slug_loop-IsSlug w b (r ∷ rs) h = elim (Bool-cases (is_slug_rune r)) [
  | inl e ↦ rw (e, slug_loop) (slug_loop-IsSlug (r ∷ w) false rs (rw e refl, h))
  | inr e ↦ elim (Bool-cases (not b && not (is_empty w))) [
    | inl f ↦ rw (e, f, slug_loop) (slug_loop-IsSlug (b'-' ∷ w) true rs (refl, h))
    | inr f ↦ rw (e, f, slug_loop) (slug_loop-IsSlug w b rs h)
  ]
]

pub slugify-IsSlug : (u : Unicode) (name : Text) → IsSlug (slugify u name)
unfolding slugify trim
slugify-IsSlug u name =
    let runes : Text = map u.to_lower (trim_space name) in
    let written : Text = slug_loop [] false runes in
    let P : ℕ → Type 0 = λ c. is_slug_char c ≡ true in
    All-trim_right P is_hyphen (drop_while is_hyphen (reverse written)) (
      All-drop_while P is_hyphen (reverse written)
        (All-reverse_aux P written [] (slug_loop-IsSlug [] false runes tt) tt))

abbrev pub begins : (ℕ → Bool) → Text → Bool
begins p [] = false
begins p (c ∷ s) = p c

drop_while-begins : (p : ℕ → Bool) (s : Text) → begins p (drop_while p s) ≡ false
unfolding drop_while
drop_while-begins p [] = refl
drop_while-begins p (c ∷ s) = elim (Bool-cases (p c)) [
  | inl e ↦ rw (e, drop_while) (drop_while-begins p s)
  | inr e ↦ rw (e, drop_while, e) refl
]

drop_while-suffix : (p : ℕ → Bool) (s : Text) → (before : Text) × (s ≡ before ++ drop_while p s)
unfolding drop_while
drop_while-suffix p [] = ([], refl)
drop_while-suffix p (c ∷ s) = elim (Bool-cases (p c)) [
  | inl e ↦
      let (before, same) = drop_while-suffix p s in
      (c ∷ before, rw (e, drop_while) (ap (λ t. c ∷ t) same))
  | inr e ↦ ([], rw (e, drop_while) refl)
]

begins-append : (p : ℕ → Bool) (s t : Text) → begins p (s ++ t) ≡ false → begins p s ≡ false
begins-append p [] t h = refl
begins-append p (c ∷ s) t h = h

trim_right-begins :
    (p : ℕ → Bool) (s : Text) → begins p s ≡ false → begins p (trim_right p s) ≡ false
unfolding trim_right
trim_right-begins p s h =
    let (before, same) = drop_while-suffix p (reverse s) in
    let split : s ≡ reverse (drop_while p (reverse s)) ++ reverse before =
      sym (reverse-reverse s)
      ∙ ap reverse same
      ∙ reverse-append before (drop_while p (reverse s)) in
    begins-append p (reverse (drop_while p (reverse s))) (reverse before)
      (ap (begins p) (sym split) ∙ h)

-- A slug has lowercase letters, digits and hyphens only, and no hyphen at either end, whatever the
-- name is and whatever the tables of package unicode say.
pub slugify-shape :
    (u : Unicode) (name : Text)
    → IsSlug (slugify u name)
      × (begins is_hyphen (slugify u name) ≡ false)
      × (begins is_hyphen (reverse (slugify u name)) ≡ false)
unfolding slugify trim trim_right
slugify-shape u name =
    let written : Text = reverse (slug_loop [] false (map u.to_lower (trim_space name))) in
    let left : Text = drop_while is_hyphen written in
    (
      slugify-IsSlug u name,
      trim_right-begins is_hyphen left (drop_while-begins is_hyphen written),
      rw (reverse-reverse (drop_while is_hyphen (reverse left)))
          (drop_while-begins is_hyphen (reverse left)),
    )
