-- ===== src/Skillfile/Codec.antt =====
-- `Render`, `Parse` and `MarkerOf` of internal/skillfile/skillfile.go. The YAML package is a pair of
-- functions: what it gives for a map, and what it reads from a text, with `none` for an error.
pub mod Trip
use phantom_skills.Prelude.{
  ℕ, String, Bool, Option, none, some, [], ◌∷◌, ◌++◌, eqb, if◌then◌else◌, codes,
}
use phantom_skills.Text.{Text, trim_right, trim_space, is_empty, strip_prefix, split_at}
use phantom_skills.Skillfile.Values.{Value, Fields, end, field, str, obj, get_field, without}

pub record Yaml : Type 0 where
  pub marshal : Fields → Option Text
  pub unmarshal : Text → Option Fields

abbrev pub marker_key : String
marker_key = "x-phantom-skills"

pub record Marker : Type 0 where
  pub origin : String
  pub status : String
  pub sha : String

abbrev pub newline : ℕ
newline = 10

abbrev pub is_newline : ℕ → Bool
is_newline c = eqb c newline

-- "---" and "\n---"
abbrev pub dashes : Text
dashes = b'-' ∷ b'-' ∷ b'-' ∷ []

abbrev pub closing : Text
closing = newline ∷ dashes

unfoldable pub marker_value : Marker → Value
marker_value m =
    obj
      (field "origin" (str m.origin) (field "status" (str m.status) (field "sha" (str m.sha) end)))

-- The frontmatter with any marker of the caller's replaced.
unfoldable pub marked : Fields → Marker → Fields
unfolding without marker_value
marked frontmatter m = field marker_key (marker_value m) (without marker_key frontmatter)

abbrev pub layout : Text → String → Text
layout yml body =
    dashes
    ++ newline
      ∷ (yml
          ++ (dashes ++ newline ∷ newline ∷ (trim_right is_newline (codes body) ++ newline ∷ [])))

unfoldable pub render : Yaml → Fields → String → Marker → Option Text
unfolding marked
render y frontmatter body m = elim (y.marshal (marked frontmatter m)) [
  | none ↦ none
  | some yml ↦ some (layout yml body)
]

-- `strings.TrimPrefix(s, "\n")`
abbrev pub trim_newline : Text → Text
trim_newline [] = []
trim_newline (c ∷ s) = if is_newline c then s else c ∷ s

-- A blank block is an empty map, and is not handed to the YAML package.
unfoldable pub read_block : Yaml → Text → Text → Option (Fields × Text)
read_block y block body =
    if is_empty (trim_space block)
    then some (end, body)
    else elim (y.unmarshal block) [ none ↦ none | some fs ↦ some (fs, body) ]

parse_rest : Yaml → Text → Option (Text × Text) → Option (Fields × Text)
unfolding read_block
parse_rest y s none = some (end, s)
parse_rest y s (some (block, after)) = read_block y block (trim_newline (trim_newline after))

parse_from : Yaml → Text → Option Text → Option (Fields × Text)
unfolding parse_rest split_at
parse_from y s none = some (end, s)
parse_from y s (some rest) = parse_rest y s (split_at closing (trim_newline rest))

unfoldable pub parse : Yaml → Text → Option (Fields × Text)
unfolding parse_from strip_prefix
parse y s = parse_from y s (strip_prefix dashes s)

abbrev as_string : Option Value → String
as_string none = ""
as_string (some v) = elim v [ str s ↦ s | _ ↦ "" ]

marker_from : Option Value → Option Marker
unfolding get_field
marker_from none = none
marker_from (some v) = elim v [
  | obj m ↦ some (record {
    origin = as_string (get_field "origin" m);
    status = as_string (get_field "status" m);
    sha = as_string (get_field "sha" m);
  })
  | _ ↦ none
]

unfoldable pub marker_of : Fields → Option Marker
unfolding marker_from get_field
marker_of frontmatter = marker_from (get_field marker_key frontmatter)
