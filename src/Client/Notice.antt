-- ===== src/Client/Notice.antt =====
-- The notice of a queued write: `humanizeAge` and `formatQueueNotice` of
-- internal/mcp/wqueue_helper.go. A time is 0 if it is not set, and an age is in nanoseconds.
pub mod Bounds
use phantom_skills.Prelude.{
  zero, suc, ◌+◌, ◌%◌, ◌||◌, ◌&&◌, leb, ℕ, ◌*◌, ◌/◌, ◌^◌, ◌++◌, eqb, ltb, if◌then◌else◌, codes, ℤ,
  pos, negsuc,
}
use phantom_skills.Text.{Text}
use phantom_skills.Text.Decimal.{format_nat}
use phantom_skills.Client.{Snapshot}

abbrev pub second : ℕ
second = 10 ^ 9

abbrev pub minute : ℕ
minute = 60 * second

abbrev pub hour : ℕ
hour = 60 * minute

abbrev pub day : ℕ
day = 24 * hour

-- float64 for positive numbers below 2 ^ 52: a number is a quotient, and `nearest` rounds one to the
-- closest whole number, a tie to the even one. The exponent is the first with 53 digits; a quotient
-- of a Duration has one below 100.
abbrev pub exponent : ℕ → ℕ → ℕ → ℕ → ℕ
exponent zero e p q = e
exponent (suc fuel) e p q =
    let on = exponent fuel (e + 1) p q in if leb (2 ^ 52 * q) (p * 2 ^ e) then e else on

abbrev pub nearest : ℕ → ℕ → ℕ
nearest p q =
    let twice = 2 * (p % q) in
    if ltb twice q || eqb twice q && eqb ((p / q) % 2) 0 then p / q else p / q + 1

abbrev pub float64 : ℕ × ℕ → ℕ × ℕ
float64 (p, q) = let e = exponent 100 0 p q in (nearest (p * 2 ^ e) q, 2 ^ e)

-- `d.Hours()`: float64(d / Hour) + float64(d % Hour) / (60 * 60 * 1e9)
abbrev pub hours : ℕ → ℕ × ℕ
hours d = let (p, q) = float64 (d % hour, hour) in float64 (d / hour * q + p, q)

-- `int(d.Hours()/24)`
abbrev pub whole_days : ℕ → ℕ
whole_days d = let (p, q) = hours d in let (m, n) = float64 (p, q * 24) in m / n

-- The unit that an age is shown in, and its letter.
abbrev pub unit_of : ℕ → ℕ × Text
unit_of d =
    if ltb d minute
    then (second, codes "s")
    else if ltb d hour
    then (minute, codes "m")
    else if ltb d day
    then (hour, codes "h")
    else (day, codes "d")

abbrev pub clamp : ℤ → ℕ
clamp (pos d) = d
clamp (negsuc d) = 0

-- Below a day `Seconds`, `Minutes` and `Hours` are a whole number below 60 and a fraction whose
-- distance to the next whole number is 0 or at least 2 ^ -42, far above the rounding, so that their
-- whole part is that of the quotient.
abbrev pub count_of : ℕ → ℕ
count_of d = if ltb d day then d / (unit_of d).0 else whole_days d

unfoldable pub humanize_age : ℤ → Text
unfolding format_nat
humanize_age d = format_nat (count_of (clamp d)) ++ (unit_of (clamp d)).1

-- `age` is the time since the last success.
unfoldable pub format_queue_notice : Snapshot → ℤ → ℕ → Text
unfolding humanize_age
format_queue_notice snap age depth =
    let since : Text =
      if eqb snap.last_success_at 0
      then codes "since process start"
      else humanize_age age ++ codes " ago" in
    codes "\n\nQueued (daemon unreachable "
    ++ (since
        ++ (codes "). "
            ++ (format_nat depth
                ++ (codes " "
                    ++ ((if eqb depth 1 then codes "write" else codes "writes")
                        ++ codes " pending sync.")))))
