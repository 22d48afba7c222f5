-- ===== src/Syncer/Disk/Laws.antt =====
-- Reading back, after a write elsewhere and after a removal; and the directory of a slug.
use phantom_skills.Prelude.{
  ◌≡◌, ◌≢◌, refl, Bool, true, false, not, some, [], ◌∷◌, ◌++◌, reverse, eqb, select, All, arith,
  Bool-cases, inl, inr,
}
use mathlib.Core.List.{append_assoc, append-nil, reverse-cons, reverse-reverse}
use phantom_skills.Text.{Text, text_eq}
use phantom_skills.Text.Laws.{text_eq_refl, text_eq-true}
use phantom_skills.Skillfile.Slug.{is_slug_rune}
use phantom_skills.Skillfile.Slug.Shape.{IsSlug, is_slug_char}
use phantom_skills.Syncer.Disk.{
  FilePath, File, Disk, path_eq, under, split_path, enter, enter_all, join, is_at, content_at,
  erase, put, erase_tree,
}

pub path_eq_refl : (p : FilePath) → path_eq p p ≡ true
unfolding path_eq
path_eq_refl [] = refl
path_eq_refl (c ∷ p) = rw (text_eq_refl c, path_eq) (path_eq_refl p)

pub path_eq-true : (p q : FilePath) → path_eq p q ≡ true → p ≡ q
unfolding path_eq
path_eq-true [] [] h = refl
path_eq-true [] (d ∷ q) h = ground arith
path_eq-true (c ∷ p) [] h = ground arith
path_eq-true (c ∷ p) (d ∷ q) h = elim (Bool-cases (text_eq c d)) [
  | inl e ↦
      let same : c ≡ d = text_eq-true c d e in
      let rest : p ≡ q = path_eq-true p q (rw (e, path_eq) at h) in cc
  | inr e ↦ ground arith
]

-- Names under a directory that differ make paths that differ.
pub path_eq-names :
    (dir dir' : FilePath) (a b : Text)
    → text_eq a b ≡ false
    → path_eq (dir ++ a ∷ []) (dir' ++ b ∷ []) ≡ false
unfolding path_eq
path_eq-names [] [] a b h = rw (h, path_eq) refl
path_eq-names [] (d ∷ []) a b h = ground arith
path_eq-names [] (d ∷ e ∷ dir') a b h = ground arith
path_eq-names (c ∷ []) [] a b h = ground arith
path_eq-names (c ∷ e ∷ dir) [] a b h = ground arith
path_eq-names (c ∷ dir) (d ∷ dir') a b h = ground (arith, path_eq-names dir dir' a b h)

content_at-select :
    (p : File → Bool) (q : FilePath) (d : Disk)
    → ((f : File) → p f ≡ true → path_eq q f.path ≡ false)
    → content_at q (select (λ f. not (p f)) d) ≡ content_at q d
unfolding content_at
content_at-select p q [] h = refl
content_at-select p q (f ∷ d) h = elim (Bool-cases (p f)) [
  | inl e ↦ rw (e, h f e) (content_at-select p q d h)
  | inr e ↦ rw (e, content_at, content_at-select p q d h) refl
]

pub content_at-erase :
    (p q : FilePath) (d : Disk) → path_eq q p ≡ false → content_at q (erase p d) ≡ content_at q d
unfolding content_at erase
content_at-erase p q d h =
    content_at-select (is_at p) q d
      (λ f e. let same : p ≡ f.path = path_eq-true p f.path e in rw (← same) h)

pub content_at-put :
    (p q : FilePath) (s : Text) (d : Disk)
    → path_eq q p ≡ false
    → content_at q (put p s d) ≡ content_at q d
unfolding content_at put
content_at-put p q s d h = rw (h, content_at) (content_at-erase p q d h)

pub content_at-put_same : (p : FilePath) (s : Text) (d : Disk) → content_at p (put p s d) ≡ some s
unfolding content_at put
content_at-put_same p s d = rw (path_eq_refl p, content_at) refl

pub content_at-erase_tree :
    (p q : FilePath) (d : Disk) → under p q ≡ false → content_at q (erase_tree p d) ≡ content_at q d
unfolding erase_tree
content_at-erase_tree p q d h =
    content_at-select (λ f. under p f.path) q d
      (λ f e. elim (Bool-cases (path_eq q f.path)) [
        | inl g ↦
            let same : q ≡ f.path = path_eq-true q f.path g in
            let wrong : under p f.path ≡ false = rw same at h in absurd (ground arith)
        | inr g ↦ g
      ])

-- The path of a slug is its directory in the skills directory.
split_path-plain :
    (part s : Text) → All (λ c. eqb c b'/' ≡ false) s → split_path part s ≡ (reverse part ++ s) ∷ []
unfolding split_path
split_path-plain part [] h = rw (append-nil (reverse part)) refl
split_path-plain part (c ∷ s) h =
    rw (h.0, split_path, split_path-plain (c ∷ part) s h.1, reverse-cons c part)
      (rw (append_assoc (reverse part) (c ∷ []) s) refl)

slug-no_slash : (s : Text) → IsSlug s → All (λ c. eqb c b'/' ≡ false) s
unfolding is_slug_char is_slug_rune
slug-no_slash [] h = tt
slug-no_slash (c ∷ s) h = (ground arith, slug-no_slash s h.1)

enter-slug : (dir : FilePath) (s : Text) → IsSlug s → s ≢ [] → enter dir s ≡ s ∷ dir
unfolding enter text_eq is_slug_char is_slug_rune
enter-slug dir [] h n = absurd (n refl)
enter-slug dir (c ∷ s) h n =
    let no_dot : eqb c b'.' ≡ false = ground arith in rw (no_dot, text_eq) refl

pub join-slug : (dir : FilePath) (s : Text) → IsSlug s → s ≢ [] → join dir s ≡ dir ++ s ∷ []
unfolding join enter_all
join-slug dir s h n =
    rw (split_path-plain [] s (slug-no_slash s h), enter_all, enter-slug (reverse dir) s h n)
      (rw (reverse-cons s (reverse dir), reverse-reverse dir) refl)
