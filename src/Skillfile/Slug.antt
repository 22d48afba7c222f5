-- ===== src/Skillfile/Slug.antt =====
-- `Slugify` of internal/skillfile/skillfile.go. The builder is kept reversed: its newest rune first.
pub mod Shape
use phantom_skills.Prelude.{ℕ, Bool, true, false, not, ◌&&◌, ◌||◌, [], ◌∷◌, map, reverse, leb, eqb}
use phantom_skills.Text.{Text, Unicode, trim, trim_space, is_empty}

unfoldable pub is_slug_rune : ℕ → Bool
is_slug_rune r = (leb b'a' r && leb r b'z') || (leb b'0' r && leb r b'9')

-- The loop: what is written so far, and `prevHyphen`.
unfoldable pub slug_loop : Text → Bool → Text → Text
unfolding is_slug_rune
slug_loop written prev_hyphen [] = written
slug_loop written prev_hyphen (r ∷ rs) = elim (is_slug_rune r) [
  | true ↦ slug_loop (r ∷ written) false rs
  | false ↦ elim (not prev_hyphen && not (is_empty written)) [
    | true ↦ slug_loop (b'-' ∷ written) true rs
    | false ↦ slug_loop written prev_hyphen rs
  ]
]

abbrev pub is_hyphen : ℕ → Bool
is_hyphen c = eqb c b'-'

unfoldable pub slugify : Unicode → Text → Text
unfolding slug_loop trim trim_space
slugify u name = trim is_hyphen (reverse (slug_loop [] false (map u.to_lower (trim_space name))))
