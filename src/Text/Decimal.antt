-- ===== src/Text/Decimal.antt =====
-- `strconv.FormatInt` and `strconv.ParseInt` in base 10, for 64 bits.
pub mod Trip
use phantom_skills.Prelude.{
  ℕ, zero, suc, ◌+◌, ◌-◌, ◌*◌, ◌/◌, ◌%◌, ◌^◌, Bool, true, false, ◌&&◌, Option, none, some, [], ◌∷◌,
  leb, ltb, eqb, if◌then◌else◌, ℤ, pos, negsuc,
}
use phantom_skills.Text.{Text}

-- The digits of `n` in front of `out`; `n + 1` rounds are enough.
emit_digits : ℕ → ℕ → Text → Text
emit_digits zero n out = out
emit_digits (suc rounds) n out =
    let longer = emit_digits rounds (n / 10) ((b'0' + n % 10) ∷ out) in
    if ltb n 10 then (b'0' + n) ∷ out else longer

unfoldable pub format_nat : ℕ → Text
unfolding emit_digits
format_nat n = emit_digits (suc n) n []

unfoldable pub format_int : ℤ → Text
unfolding format_nat
format_int (pos n) = format_nat n
format_int (negsuc n) = b'-' ∷ format_nat (suc n)

abbrev pub is_digit : ℕ → Bool
is_digit c = leb b'0' c && leb c b'9'

-- The number that the digits spell behind `acc`, if they all are digits.
unfoldable pub read_digits : ℕ → Text → Option ℕ
read_digits acc [] = some acc
read_digits acc (c ∷ s) =
    let further = read_digits (acc * 10 + (c - b'0')) s in if is_digit c then further else none

-- The value that is returned, and whether there is no error. Out of range it is the nearest bound,
-- and 0 for what is no number.
pub record Parsed : Type 0 where
  pub value : ℤ
  pub valid : Bool

abbrev pub max_int64 : ℕ
max_int64 = 2 ^ 63 - 1

abbrev pub no_number : Parsed
no_number = record { value = pos 0; valid = false }

abbrev pub positive : Option ℕ → Parsed
positive none = no_number
positive (some n) =
    if ltb max_int64 n
    then record { value = pos max_int64; valid = false }
    else record { value = pos n; valid = true }

abbrev pub negated : ℕ → ℤ
negated zero = pos 0
negated (suc n) = negsuc n

abbrev pub negative : Option ℕ → Parsed
negative none = no_number
negative (some n) =
    if ltb (suc max_int64) n
    then record { value = negsuc max_int64; valid = false }
    else record { value = negated n; valid = true }

unfoldable pub read_number : Text → Option ℕ
unfolding read_digits
read_number [] = none
read_number (c ∷ s) = read_digits 0 (c ∷ s)

unfoldable pub parse_int : Text → Parsed
unfolding read_number
parse_int [] = no_number
parse_int (c ∷ s) =
    if eqb c b'-'
    then negative (read_number s)
    else if eqb c b'+'
    then positive (read_number s)
    else positive (read_number (c ∷ s))
