-- ===== src/Text/Decimal/Trip.antt =====
-- Reading back what was printed.
use phantom_skills.Prelude.{
  ℕ, zero, suc, ◌+◌, ◌/◌, ◌%◌, ◌≤◌, ◌<◌, ◌≡◌, refl, ap, ◌∙◌, true, false, Option, none, some, [],
  ◌∷◌, eqb, ltb, Bool-cases, inl, inr, All, arith, ℤ, pos, negsuc,
}
use phantom_skills.Text.{Text}
use phantom_skills.Text.Decimal.{
  emit_digits, format_nat, format_int, is_digit, read_digits, max_int64, positive, negative,
  read_number, parse_int,
}

-- Reading the digits of `n` gives `n`, and goes on with what stands behind them.
read-emit :
    (rounds n : ℕ) (out : Text)
    → n < rounds
    → read_digits 0 (emit_digits rounds n out) ≡ read_digits n out
unfolding emit_digits read_digits
read-emit zero n out h = absurd (omega arith)
read-emit (suc rounds) n out h = elim (Bool-cases (ltb n 10)) [
  | inl e ↦ rw e (ground arith)
  | inr e ↦ rw e (read-emit rounds (n / 10) ((b'0' + n % 10) ∷ out) (ground arith) ∙ ground arith)
]

-- What is printed begins with a digit.
abbrev StartsWithDigit : Text → Type 0
StartsWithDigit [] = ⊥
StartsWithDigit (c ∷ s) = is_digit c ≡ true

emit-starts : (rounds n : ℕ) (out : Text) → n < rounds → StartsWithDigit (emit_digits rounds n out)
unfolding emit_digits
emit-starts zero n out h = absurd (omega arith)
emit-starts (suc rounds) n out h = elim (Bool-cases (ltb n 10)) [
  | inl e ↦ rw e (ground arith)
  | inr e ↦ rw e (emit-starts rounds (n / 10) ((b'0' + n % 10) ∷ out) (ground arith))
]

read_number-starts : (s : Text) → StartsWithDigit s → read_number s ≡ read_digits 0 s
unfolding read_number
read_number-starts [] h = absurd h
read_number-starts (c ∷ s) h = refl

format-starts : (n : ℕ) → StartsWithDigit (format_nat n)
unfolding format_nat
format-starts n = emit-starts (suc n) n [] (omega arith)

read_number-format : (n : ℕ) → read_number (format_nat n) ≡ some n
unfolding format_nat read_digits
read_number-format n =
    read_number-starts (format_nat n) (format-starts n) ∙ read-emit (suc n) n [] (omega arith)

parse_int-starts : (s : Text) → StartsWithDigit s → parse_int s ≡ positive (read_number s)
unfolding parse_int
parse_int-starts [] h = absurd h
parse_int-starts (c ∷ s) h = ground arith

-- The integers of 64 bits.
abbrev pub IsInt64 : ℤ → Type 0
IsInt64 (pos n) = n ≤ max_int64
IsInt64 (negsuc n) = n ≤ max_int64

positive-fits : (n : ℕ) → n ≤ max_int64 → positive (some n) ≡ record { value = pos n; valid = true }
positive-fits n h = let e : ltb max_int64 n ≡ false = ground arith in rw e refl

negative-fits :
    (n : ℕ) → n ≤ max_int64 → negative (some (suc n)) ≡ record { value = negsuc n; valid = true }
negative-fits n h = let e : ltb (suc max_int64) (suc n) ≡ false = ground arith in rw e refl

parse_int-minus : (s : Text) → parse_int (b'-' ∷ s) ≡ negative (read_number s)
unfolding parse_int
parse_int-minus s = refl

pub parse_int-format :
    (z : ℤ) → IsInt64 z → parse_int (format_int z) ≡ record { value = z; valid = true }
unfolding format_int
parse_int-format (pos n) h =
    parse_int-starts (format_nat n) (format-starts n)
    ∙ ap positive (read_number-format n)
    ∙ positive-fits n h
parse_int-format (negsuc n) h =
    parse_int-minus (format_nat (suc n))
    ∙ ap negative (read_number-format (suc n))
    ∙ negative-fits n h

-- No full stop.
abbrev pub Undotted : Text → Type 0
Undotted s = All (λ c. eqb c b'.' ≡ false) s

emit-Undotted : (rounds n : ℕ) (out : Text) → Undotted out → Undotted (emit_digits rounds n out)
unfolding emit_digits
emit-Undotted zero n out h = h
emit-Undotted (suc rounds) n out h = elim (Bool-cases (ltb n 10)) [
  | inl e ↦ rw e (ground arith, h)
  | inr e ↦ rw e (emit-Undotted rounds (n / 10) ((b'0' + n % 10) ∷ out) (ground arith, h))
]

pub format_int-Undotted : (z : ℤ) → Undotted (format_int z)
unfolding format_int format_nat
format_int-Undotted (pos n) = emit-Undotted (suc n) n [] tt
format_int-Undotted (negsuc n) = (refl, emit-Undotted (suc (suc n)) (suc n) [] tt)

positive-IsInt64 : (o : Option ℕ) → IsInt64 (positive o).value
positive-IsInt64 none = omega arith
positive-IsInt64 (some n) = elim (Bool-cases (ltb max_int64 n)) [
  | inl e ↦ rw e (omega arith)
  | inr e ↦ rw e (ground arith)
]

negative-IsInt64 : (o : Option ℕ) → IsInt64 (negative o).value
negative-IsInt64 none = omega arith
negative-IsInt64 (some zero) = omega arith
negative-IsInt64 (some (suc n)) = elim (Bool-cases (ltb (suc max_int64) (suc n))) [
  | inl e ↦ rw e (omega arith)
  | inr e ↦ rw e (ground arith)
]

pub parse_int-IsInt64 : (s : Text) → IsInt64 (parse_int s).value
unfolding parse_int
parse_int-IsInt64 [] = omega arith
parse_int-IsInt64 (c ∷ s) = elim (Bool-cases (eqb c b'-')) [
  | inl e ↦ rw e (negative-IsInt64 (read_number s))
  | inr e ↦ elim (Bool-cases (eqb c b'+')) [
    | inl f ↦ rw (e, f) (positive-IsInt64 (read_number s))
    | inr f ↦ rw (e, f) (positive-IsInt64 (read_number (c ∷ s)))
  ]
]
