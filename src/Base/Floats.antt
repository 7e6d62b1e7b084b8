-- ===== src/Base/Floats.antt =====
-- Go's `float64` as its 64 bits, with the tests that the sources make of it. The upper bit is the
-- sign; the eleven bits below it are all ones for the infinities and for what is no number.
use Prim.Native.Nat.{ℕ, ◌%◌}
use mathlib.Core.Path.{◌≡◌, refl}
use mathlib.Core.Bool.{Bool, true, false, not, ◌&&◌}
use ufo_observation_command.Base.Tests.{ltb, leb, ◌==ℕ◌}
use ufo_observation_command.Base.Int.{two63}

abbrev pub infinite_bits : ℕ
infinite_bits = 9218868437227405312

abbrev pub is_nan : ℕ → Bool
is_nan x = ltb infinite_bits (x % two63)

abbrev pub is_inf : ℕ → Bool
is_inf x = x % two63 ==ℕ infinite_bits

-- `x < 0`.
abbrev pub is_negative : ℕ → Bool
is_negative x = leb two63 x && not (x % two63 ==ℕ 0) && not (is_nan x)

-- 1.5, -1.5 and -0.
positive : is_negative 4609434218613702656 ≡ false
positive = refl

negative : is_negative 13832806255468478464 ≡ true
negative = refl

negative_zero : is_negative two63 ≡ false
negative_zero = refl
