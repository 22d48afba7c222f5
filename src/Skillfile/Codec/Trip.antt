-- ===== src/Skillfile/Codec/Trip.antt =====
-- What is rendered parses back, with its marker.
use phantom_skills.Prelude.{
  ℕ, ◌≡◌, ◌≢◌, refl, String, false, Option, none, some, [], ◌∷◌, ◌++◌, codes, inl, inr,
  Option-cases, arith,
}
use mathlib.Core.List.{append_assoc}
use phantom_skills.Text.{Text, trim_right, trim_space, is_empty, strip_prefix, split_at}
use phantom_skills.Skillfile.Values.{Fields, get_field}
use phantom_skills.Skillfile.Codec.{
  Yaml, Marker, newline, is_newline, dashes, closing, marker_value, marked, layout, render,
  trim_newline, read_block, parse, parse_from, parse_rest, marker_of, marker_from,
}

-- No delimiter begins at this point of the text, whatever is appended behind its last newline.
strip-closing :
    (t rest : Text)
    → strip_prefix closing (t ++ newline ∷ []) ≡ none
    → t ≢ []
    → strip_prefix closing (t ++ (newline ∷ rest)) ≡ none
unfolding strip_prefix
strip-closing [] rest h n = absurd (n refl)
strip-closing (a ∷ []) rest h n = ground arith
strip-closing (a ∷ b ∷ []) rest h n = ground arith
strip-closing (a ∷ b ∷ c ∷ []) rest h n = ground arith
strip-closing (a ∷ b ∷ c ∷ d ∷ t) rest h n = ground arith

split-none :
    (sep : Text) (c : ℕ) (s : Text)
    → split_at sep (c ∷ s) ≡ none
    → (strip_prefix sep (c ∷ s) ≡ none) × (split_at sep s ≡ none)
unfolding split_at
split-none sep c s h = elim (Option-cases (strip_prefix sep (c ∷ s))) [
  | inl e ↦ elim (Option-cases (split_at sep s)) [
    | inl f ↦ (e, f)
    | inr (r, f) ↦
        let wrong : ◌≡◌ {A = Option (Text × Text)} (some (c ∷ r.0, r.1)) none =
          rw (e, split_at, f) at h in
        absurd (ground arith)
  ]
  | inr (r, e) ↦
      let wrong : ◌≡◌ {A = Option (Text × Text)} (some ([], r)) none = rw (e, split_at) at h in
      absurd (ground arith)
]

split-some :
    (sep : Text) (c : ℕ) (s before rest : Text)
    → strip_prefix sep (c ∷ s) ≡ none
    → split_at sep s ≡ some (before, rest)
    → split_at sep (c ∷ s) ≡ some (c ∷ before, rest)
unfolding split_at
split-some sep c s before rest e f = rw (e, split_at, f) refl

split-closing :
    (t rest : Text)
    → split_at closing (t ++ newline ∷ []) ≡ none
    → split_at closing (t ++ (closing ++ rest)) ≡ some (t, rest)
unfolding split_at
split-closing [] rest h = refl
split-closing (c ∷ t) rest h =
    let (here, later) = split-none closing c (t ++ newline ∷ []) h in
    split-some closing c (t ++ (closing ++ rest)) t rest
      (strip-closing (c ∷ t) (dashes ++ rest) here (λ e. cc)) (split-closing t rest later)

marker_of-marked : (fs : Fields) (m : Marker) → marker_of (marked fs m) ≡ some m
unfolding marker_of marked marker_value marker_from get_field
marker_of-marked fs m = refl

parse-layout :
    (y : Yaml) (block rest : Text) (fs : Fields)
    → is_empty (trim_space block) ≡ false
    → split_at closing (block ++ newline ∷ []) ≡ none
    → y.unmarshal block ≡ some fs
    → parse y (dashes ++ newline ∷ (block ++ (closing ++ rest)))
      ≡ some (fs, trim_newline (trim_newline rest))
unfolding parse strip_prefix parse_from parse_rest read_block
parse-layout y block rest fs nonblank clear read =
    rw (split-closing block rest clear, parse_rest) (rw (nonblank, read, read_block) refl)

module _ (y : Yaml) (fs : Fields) (body : String) (m : Marker) where
  -- Rendering a skill and parsing the file gives the frontmatter back with the marker, whatever
  -- marker the caller's frontmatter held, and the body with its trailing newlines replaced by one.
  -- It is asked of the YAML package that the block it writes for this map ends in a newline, is not
  -- blank, has no line that begins with three dashes, and is read back as this map.
  pub parse-render :
      (block : Text)
      → y.marshal (marked fs m) ≡ some (block ++ newline ∷ [])
      → is_empty (trim_space block) ≡ false
      → split_at closing (block ++ newline ∷ []) ≡ none
      → y.unmarshal block ≡ some (marked fs m)
      → (text : Text) × (render y fs body m ≡ some text)
        × (parse y text ≡ some (marked fs m, trim_right is_newline (codes body) ++ newline ∷ []))
        × (marker_of (marked fs m) ≡ some m)
  unfolding render parse
  parse-render block written nonblank clear read =
      let tail : Text = trim_right is_newline (codes body) ++ newline ∷ [] in
      (
        layout (block ++ newline ∷ []) body,
        rw (written, render) refl,
        rw (append_assoc block (newline ∷ []) (dashes ++ newline ∷ newline ∷ tail), layout)
            (parse-layout y block (newline ∷ newline ∷ tail) (marked fs m) nonblank clear read),
        marker_of-marked fs m,
      )
