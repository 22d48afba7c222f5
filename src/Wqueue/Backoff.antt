-- ===== src/Wqueue/Backoff.antt =====
-- `BackoffFor` of internal/client/wqueue/wqueue.go, over int64 nanoseconds with wrap-around.
pub mod Bounds
use phantom_skills.Prelude.{
  ℕ, ◌-◌, ◌*◌, ◌%◌, ◌^◌, Bool, ◌||◌, ltb, leb, eqb, if◌then◌else◌, ℤ, pos, negsuc,
}

abbrev pub base : ℕ
base = 2_000_000_000

abbrev pub backoff_cap : ℕ
backoff_cap = 1_800_000_000_000

-- `time.Duration(math.Pow(2, e))` as a bit pattern. A float of 2^63 or more has no int64; what the
-- conversion then gives depends on the machine, and is the parameter `sat`.
unfoldable pub pow2_int64 : ℕ → ℕ → ℕ
pow2_int64 sat e = if ltb e 63 then 2 ^ e else sat

-- `attempts - 1`, after `if attempts < 1 { attempts = 1 }`
abbrev pub exponent : ℤ → ℕ
exponent (pos n) = n - 1
exponent (negsuc n) = 0

-- A pattern of 2^63 or more is a negative int64.
abbrev pub not_positive : ℕ → Bool
not_positive d = eqb d 0 || leb (2 ^ 63) d

unfoldable pub backoff_for : ℕ → ℤ → ℕ
unfolding pow2_int64
backoff_for sat attempts =
    let d = pow2_int64 sat (exponent attempts) * base % 2 ^ 64 in
    if not_positive d || ltb backoff_cap d then backoff_cap else d
