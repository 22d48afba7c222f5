-- ===== src/Tests/Collation.antt =====
-- The order of strings by their characters' numbers, as a collation.
use Prim.Native.Char.{code}
use Prim.Native.String.{String, [], ◌∷◌}
use phantom_skills.Prelude.{
  ◌≡◌, refl, Bool, true, false, ◌&&◌, ◌||◌, ltb, eqb, eq_iff, arith, inl, inr, Bool-cases,
}
use text.Mathlib.TextEquality.{Char-path}
use phantom_skills.Nodesync.Exchange.{IsCollation}

abbrev pub lex : String → String → Bool
lex [] [] = false
lex [] (d ∷ t) = true
lex (c ∷ s) [] = false
lex (c ∷ s) (d ∷ t) = ltb (code c) (code d) || (eqb (code c) (code d) && lex s t)

lex_irrefl : (s : String) → lex s s ≡ false
lex_irrefl [] = refl
lex_irrefl (c ∷ s) = ground (arith, lex_irrefl s)

lex_trans : (a b c : String) → lex a b ≡ true → lex b c ≡ true → lex a c ≡ true
lex_trans [] [] c h k = absurd (ground (arith, h))
lex_trans [] (y ∷ b) [] h k = k
lex_trans [] (y ∷ b) (z ∷ c) h k = refl
lex_trans (x ∷ a) [] c h k = absurd (ground (arith, h))
lex_trans (x ∷ a) (y ∷ b) [] h k = k
lex_trans (x ∷ a) (y ∷ b) (z ∷ c) h k = elim (Bool-cases (lex a b)) [
  | inl e ↦ elim (Bool-cases (lex b c)) [
    | inl f ↦ ground (arith, h, k, lex_trans a b c e f)
    | inr f ↦ ground (arith, h, k, f)
  ]
  | inr e ↦ ground (arith, h, k, e)
]

lex_total : (a b : String) → lex a b ≡ false → lex b a ≡ false → a ≡ b
lex_total [] [] h k = refl
lex_total [] (y ∷ b) h k = absurd (ground (arith, h))
lex_total (x ∷ a) [] h k = absurd (ground (arith, k))
lex_total (x ∷ a) (y ∷ b) h k =
    let same : x ≡ y = Char-path x y (ground (arith, h, k)) in
    let rest : a ≡ b = lex_total a b (ground (arith, h, k)) (ground (arith, h, k)) in cc

pub lex-IsCollation : IsCollation lex
lex-IsCollation = record {
  irrefl = lex_irrefl;
  trans = lex_trans;
  total = λ a b d h. elim (Bool-cases (lex b a)) [
    | inl e ↦ e
    | inr e ↦ absurd (ground (arith, d, (eq_iff a b).1 (lex_total a b h e)))
  ];
}
