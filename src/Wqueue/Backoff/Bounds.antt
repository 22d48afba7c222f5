-- ===== src/Wqueue/Backoff/Bounds.antt =====
-- The wrap-around in `BackoffFor` never shows: the delay is the plain minimum.
use native.Mathlib.Nat.{pow-suc}
use phantom_skills.Prelude.{
  ℕ, zero, suc, ◌+◌, ◌-◌, ◌*◌, ◌%◌, ◌^◌, ◌≤◌, ◌<◌, min, ◌≡◌, refl, sym, ◌∙◌, Bool, true, false,
  ◌&&◌, ◌||◌, ◌⊎◌, inl, inr, ltb, leb, eqb, eqb_iff, Bool-cases, if◌then◌else◌, arith, ℤ, pos,
}
use phantom_skills.Wqueue.Backoff.{
  base, backoff_cap, pow2_int64, exponent, not_positive, backoff_for,
}

holds_up_to : (ℕ → Bool) → ℕ → Bool
holds_up_to test zero = test 0
holds_up_to test (suc last) = holds_up_to test last && test (suc last)

holds_up_to_each :
    (test : ℕ → Bool) (last e : ℕ) → e ≤ last → holds_up_to test last ≡ true → test e ≡ true
unfolding holds_up_to
holds_up_to_each test zero e small all = let same : e ≡ 0 = omega arith in rw same all
holds_up_to_each test (suc last) e small all = elim (Bool-cases (eqb e (suc last))) [
  | inl here ↦ let same : e ≡ suc last = (eqb_iff e (suc last)).0 here in rw same (ground arith)
  | inr other ↦
      let below : e ≤ last = ground arith in holds_up_to_each test last e below (ground arith)
]

-- The delay before the cap, without wrap-around.
abbrev pub ideal : ℕ → ℕ
ideal e = min (2 ^ e * base) backoff_cap

abbrev wrapped : ℕ → ℕ
wrapped d = if not_positive d || ltb backoff_cap d then backoff_cap else d

-- Every exponent below 63, by evaluation.
small_table : holds_up_to (λ e. eqb (wrapped (2 ^ e * base % 2 ^ 64)) (ideal e)) 62 ≡ true
unfolding holds_up_to
small_table = refl

small : (e : ℕ) → e < 63 → wrapped (2 ^ e * base % 2 ^ 64) ≡ ideal e
small e h = (eqb_iff _ _).0 (
    holds_up_to_each (λ k. eqb (wrapped (2 ^ k * base % 2 ^ 64)) (ideal k)) 62 e (omega arith)
      small_table)

pow_grows : (k e : ℕ) → 2 ^ k ≤ 2 ^ (k + e)
pow_grows k zero = rw native.Mathlib.Nat.add-zero (native.Mathlib.Nat.le_refl _)
pow_grows k (suc e) = rw (native.Mathlib.Nat.add-suc, pow-suc) (omega (arith, pow_grows k e))

pub pow_mono : (k e : ℕ) → k ≤ e → 2 ^ k ≤ 2 ^ e
pow_mono k e h = let q : k + (e - k) ≡ e = omega arith in rw (← q) (pow_grows k (e - k))

large : (e : ℕ) → leb 63 e ≡ true → ideal e ≡ backoff_cap
large e h = omega (arith, pow_mono 10 e (ground arith))

-- What the conversion of an oversized float to int64 may give: amd64's least integer, or
-- arm64's saturated one.
abbrev pub IsConversion : ℕ → Type 0
IsConversion sat = (sat ≡ 2 ^ 63) ⊎ (sat ≡ 2 ^ 63 - 1)

sat-wrapped : (sat : ℕ) → IsConversion sat → wrapped (sat * base % 2 ^ 64) ≡ backoff_cap
sat-wrapped sat (inl e) = rw e
sat-wrapped sat (inr e) = rw e

in_range : (sat e : ℕ) → ltb e 63 ≡ true → pow2_int64 sat e ≡ 2 ^ e
unfolding pow2_int64
in_range sat e h = rw h

out_of_range : (sat e : ℕ) → ltb e 63 ≡ false → pow2_int64 sat e ≡ sat
unfolding pow2_int64
out_of_range sat e h = rw h

backoff-wrapped :
    (sat : ℕ) (n : ℤ) → backoff_for sat n ≡ wrapped (pow2_int64 sat (exponent n) * base % 2 ^ 64)
unfolding backoff_for
backoff-wrapped sat n = refl

-- For every number of attempts, zero and negative ones included, and either way of converting an
-- oversized float, `BackoffFor` is 2 s doubled for each attempt past the first, or 30 minutes if
-- that is less: the int64 product may wrap, and never changes the result.
pub backoff_exact :
    (sat : ℕ) (n : ℤ)
    → IsConversion sat
    → backoff_for sat n ≡ min (2 ^ exponent n * base) backoff_cap
backoff_exact sat n c = elim (Bool-cases (ltb (exponent n) 63)) [
  | inl e ↦
      backoff-wrapped sat n ∙ rw (in_range sat (exponent n) e) (small (exponent n) (ground arith))
  | inr e ↦
      backoff-wrapped sat n
      ∙ rw (out_of_range sat (exponent n) e)
          (sat-wrapped sat c ∙ sym (large (exponent n) (ground arith)))
]

-- A later retry never waits less, and every wait lies between 2 s and 30 minutes.
pub backoff_mono :
    (sat m n : ℕ)
    → IsConversion sat
    → m ≤ n
    → (backoff_for sat (pos m) ≤ backoff_for sat (pos n))
      × (base ≤ backoff_for sat (pos m))
      × (backoff_for sat (pos n) ≤ backoff_cap)
backoff_mono sat m n c h =
    rw (backoff_exact sat (pos m) c, backoff_exact sat (pos n) c)
      (
        omega (arith, pow_mono (m - 1) (n - 1) (omega arith)),
        omega (arith, pow_mono 0 (m - 1) (omega arith)),
        omega arith,
      )
