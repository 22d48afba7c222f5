-- ===== src/Text/Laws.antt =====
-- The comparison of texts decides their equality.
use phantom_skills.Prelude.{
  ◌≡◌, refl, true, [], ◌∷◌, eqb, eqb_refl, eqb_iff, Bool-cases, inl, inr, arith,
}
use phantom_skills.Text.{Text, text_eq}

pub text_eq_refl : (s : Text) → text_eq s s ≡ true
unfolding text_eq
text_eq_refl [] = refl
text_eq_refl (c ∷ s) = rw (eqb_refl c, text_eq) (text_eq_refl s)

pub text_eq-true : (s t : Text) → text_eq s t ≡ true → s ≡ t
unfolding text_eq
text_eq-true [] [] h = refl
text_eq-true [] (d ∷ t) h = ground arith
text_eq-true (c ∷ s) [] h = ground arith
text_eq-true (c ∷ s) (d ∷ t) h = elim (Bool-cases (eqb c d)) [
  | inl e ↦
      let same : c ≡ d = (eqb_iff c d).0 e in
      let rest : s ≡ t = text_eq-true s t (rw (e, text_eq) at h) in cc
  | inr e ↦ ground arith
]
