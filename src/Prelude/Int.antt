-- ===== src/Prelude/Int.antt =====
-- Comparisons of integers.
use phantom_skills.Prelude.Tests.{ltb, eqb, ℤ, pos, negsuc}
use mathlib.Core.Bool.{Bool, true, false}

abbrev pub ltz : ℤ → ℤ → Bool
ltz (pos a) (pos b) = ltb a b
ltz (pos a) (negsuc b) = false
ltz (negsuc a) (pos b) = true
ltz (negsuc a) (negsuc b) = ltb b a

abbrev pub eqz : ℤ → ℤ → Bool
eqz (pos a) (pos b) = eqb a b
eqz (pos a) (negsuc b) = false
eqz (negsuc a) (pos b) = false
eqz (negsuc a) (negsuc b) = eqb a b
