-- ===== src/Text.antt =====
-- What the program uses of Go's packages strings, unicode and strconv, over lists of code points.
pub mod Laws
pub mod Decimal
use phantom_skills.Prelude.{
  ℕ, ◌+◌, ◌<◌, ◌≡◌, String, Bool, true, false, ◌&&◌, ◌||◌, Option, none, some, List, [], ◌∷◌,
  reverse, leb, eqb, if◌then◌else◌, codes,
}

abbrev pub Text : Type 0
Text = List ℕ

-- `unicode.IsSpace`
unfoldable pub is_space : ℕ → Bool
is_space c =
    (leb 9 c && leb c 13)
    || eqb c 32
    || eqb c 0x85
    || eqb c 0xA0
    || eqb c 0x1680
    || (leb 0x2000 c && leb c 0x200A)
    || eqb c 0x2028
    || eqb c 0x2029
    || eqb c 0x202F
    || eqb c 0x205F
    || eqb c 0x3000

unfoldable pub drop_while : (ℕ → Bool) → Text → Text
drop_while p [] = []
drop_while p (c ∷ s) = elim (p c) [ true ↦ drop_while p s | false ↦ c ∷ s ]

-- Both ends, as `strings.TrimFunc`; the right end alone, as `strings.TrimRightFunc`.
unfoldable pub trim_right : (ℕ → Bool) → Text → Text
unfolding drop_while
trim_right p s = reverse (drop_while p (reverse s))

unfoldable pub trim : (ℕ → Bool) → Text → Text
unfolding trim_right
trim p s = trim_right p (drop_while p s)

unfoldable pub trim_space : Text → Text
unfolding trim is_space
trim_space = trim is_space

abbrev pub is_empty : Text → Bool
is_empty [] = true
is_empty (c ∷ s) = false

-- `strings.TrimSpace(s) == ""`
unfoldable pub is_blank : String → Bool
unfolding trim_space
is_blank s = is_empty (trim_space (codes s))

unfoldable pub text_eq : Text → Text → Bool
text_eq [] [] = true
text_eq [] (d ∷ t) = false
text_eq (c ∷ s) [] = false
text_eq (c ∷ s) (d ∷ t) = eqb c d && text_eq s t

-- `strings.TrimPrefix` and `strings.HasPrefix`: `none` if the prefix is not there.
unfoldable pub strip_prefix : Text → Text → Option Text
strip_prefix [] s = some s
strip_prefix (c ∷ p) [] = none
strip_prefix (c ∷ p) (d ∷ s) = if eqb c d then strip_prefix p s else none

-- What lies before and behind the first occurrence of `sep`: `strings.Index` and two slices.
unfoldable pub split_at : Text → Text → Option (Text × Text)
unfolding strip_prefix
split_at sep [] = elim (strip_prefix sep []) [ none ↦ none | some rest ↦ some ([], rest) ]
split_at sep (c ∷ s) =
    let further : Option (Text × Text) = elim (split_at sep s) [
      | none ↦ none
      | some (before, rest) ↦ some (c ∷ before, rest)
    ] in
    elim (strip_prefix sep (c ∷ s)) [ none ↦ further | some rest ↦ some ([], rest) ]

-- The part of package unicode that is tables: `unicode.ToLower`, and what the program relies on.
pub record Unicode : Type 0 where
  pub to_lower : ℕ → ℕ
  pub to_lower_ascii :
      (c : ℕ) → c < 128 → to_lower c ≡ (if leb b'A' c && leb c b'Z' then c + 32 else c)
