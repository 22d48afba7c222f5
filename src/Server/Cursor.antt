-- ===== src/Server/Cursor.antt =====
-- `encodeCursor` and `decodeCursor` of internal/server/handlers_sync.go. A time is the integer of its
-- nanoseconds since 1970.
use phantom_skills.Prelude.{
  ◌≡◌, refl, ◌&&◌, Option, none, some, [], ◌∷◌, ◌++◌, eqb, if◌then◌else◌, Bool-cases, inl, inr,
  arith, ℤ, pos,
}
use phantom_skills.Text.{Text}
use phantom_skills.Text.Decimal.{format_int, Parsed, parse_int}
use phantom_skills.Text.Decimal.Trip.{
  IsInt64, parse_int-format, parse_int-IsInt64, Undotted, format_int-Undotted,
}

pub record Position : Type 0 where
  pub ts : ℤ
  pub id : ℤ

unfoldable pub encode_cursor : Position → Text
unfolding format_int
encode_cursor p = format_int p.ts ++ b'.' ∷ format_int p.id

-- `strings.LastIndex(s, ".")` and the two slices.
unfoldable pub cut_last_dot : Text → Option (Text × Text)
cut_last_dot [] = none
cut_last_dot (c ∷ s) = elim (cut_last_dot s) [
  | some (before, after) ↦ some (c ∷ before, after)
  | none ↦ if eqb c b'.' then some ([], s) else none
]

abbrev pub start : Position
start = record { ts = pos 0; id = pos 0 }

abbrev pub position_of : Parsed → Parsed → Position
position_of ts id = if ts.valid && id.valid then record { ts = ts.value; id = id.value } else start

abbrev position_at : Option (Text × Text) → Position
position_at none = start
position_at (some (nanos, id)) = position_of (parse_int nanos) (parse_int id)

-- The empty cursor has no dot.
unfoldable pub decode_cursor : Text → Position
unfolding cut_last_dot parse_int
decode_cursor s = position_at (cut_last_dot s)

abbrev pub InRange : Position → Type 0
InRange p = IsInt64 p.ts × IsInt64 p.id

cut_last_dot-none : (s : Text) → Undotted s → cut_last_dot s ≡ none
unfolding cut_last_dot
cut_last_dot-none [] h = refl
cut_last_dot-none (c ∷ s) h = rw (cut_last_dot-none s h.1, cut_last_dot, h.0) refl

cut_last_dot-append : (s t : Text) → Undotted t → cut_last_dot (s ++ b'.' ∷ t) ≡ some (s, t)
unfolding cut_last_dot
cut_last_dot-append [] t h = rw (cut_last_dot-none t h, cut_last_dot) refl
cut_last_dot-append (c ∷ s) t h = rw (cut_last_dot-append s t h, cut_last_dot) refl

-- The daemon reads back every cursor that it has sent.
pub decode-encode : (p : Position) → InRange p → decode_cursor (encode_cursor p) ≡ p
unfolding decode_cursor encode_cursor
decode-encode p h =
    rw
      (
        cut_last_dot-append (format_int p.ts) (format_int p.id) (format_int-Undotted p.id),
        decode_cursor,
        parse_int-format p.ts h.0,
        parse_int-format p.id h.1,
      )
      refl

position_of-InRange :
    (ts id : Parsed) → IsInt64 ts.value → IsInt64 id.value → InRange (position_of ts id)
position_of-InRange ts id h k = elim (Bool-cases (ts.valid && id.valid)) [
  | inl e ↦ rw e (h, k)
  | inr e ↦ rw e (omega arith, omega arith)
]

position_at-InRange : (o : Option (Text × Text)) → InRange (position_at o)
position_at-InRange none = (omega arith, omega arith)
position_at-InRange (some (nanos, id)) =
    position_of-InRange (parse_int nanos) (parse_int id) (parse_int-IsInt64 nanos)
      (parse_int-IsInt64 id)

pub decode_cursor-InRange : (s : Text) → InRange (decode_cursor s)
unfolding decode_cursor
decode_cursor-InRange s = position_at-InRange (cut_last_dot s)
