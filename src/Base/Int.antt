-- ===== src/Base/Int.antt =====
-- Go's `int`, `int64` and `time.Duration`, and instants of time, as integers. An integer is a
-- natural number or a negative one; sums and orders go through its two parts.
-- An instant (`time.Time`) is its nanoseconds since the zero time, so `IsZero` is a test for 0.
use Prim.Native.Nat.{ℕ, zero, suc, ◌+◌, ◌-◌, ◌%◌, ◌≤◌, ◌<◌}
use mathlib.Core.Path.{◌≡◌, refl}
use mathlib.Core.Logic.{◌↔◌}
use mathlib.Core.Bool.{Bool, true, false}
use native.Mathlib.Omega.{arith}
use ufo_observation_command.Base.Tests.{ltb, leb, ◌==ℕ◌, if◌then◌else◌}

-- `negsuc n` is -(n + 1).
pub data ℤ : Type 0 where
  pos : ℕ → ℤ
  negsuc : ℕ → ℤ

abbrev pub pos_part : ℤ → ℕ
pos_part (pos n) = n
pos_part (negsuc n) = 0

abbrev pub neg_part : ℤ → ℕ
neg_part (pos n) = 0
neg_part (negsuc n) = suc n

-- a - b, as an integer.
abbrev pub sub_ℕ : ℕ → ℕ → ℤ
sub_ℕ a b = if leb b a then pos (a - b) else negsuc (b - a - 1)

infixl 65 ◌+ℤ◌ ◌-ℤ◌
infix 50 ◌≤ℤ◌ ◌<ℤ◌ ◌==ℤ◌
unfoldable pub ◌+ℤ◌ : ℤ → ℤ → ℤ
a +ℤ b = sub_ℕ (pos_part a + pos_part b) (neg_part a + neg_part b)

unfoldable pub ◌-ℤ◌ : ℤ → ℤ → ℤ
a -ℤ b = sub_ℕ (pos_part a + neg_part b) (neg_part a + pos_part b)

abbrev pub ◌≤ℤ◌ : ℤ → ℤ → Type 0
a ≤ℤ b = pos_part a + neg_part b ≤ pos_part b + neg_part a

abbrev pub ◌<ℤ◌ : ℤ → ℤ → Type 0
a <ℤ b = pos_part a + neg_part b < pos_part b + neg_part a

abbrev pub ltb_ℤ : ℤ → ℤ → Bool
ltb_ℤ a b = ltb (pos_part a + neg_part b) (pos_part b + neg_part a)

abbrev pub leb_ℤ : ℤ → ℤ → Bool
leb_ℤ a b = leb (pos_part a + neg_part b) (pos_part b + neg_part a)

abbrev pub ◌==ℤ◌ : ℤ → ℤ → Bool
a ==ℤ b = pos_part a + neg_part b ==ℕ pos_part b + neg_part a

pub +ℤ_parts :
    (a b : ℤ)
    → pos_part (a +ℤ b) + neg_part a + neg_part b ≡ neg_part (a +ℤ b) + pos_part a + pos_part b
unfolding ◌+ℤ◌
+ℤ_parts a b = ground arith

pub -ℤ_parts :
    (a b : ℤ)
    → pos_part (a -ℤ b) + neg_part a + pos_part b ≡ neg_part (a -ℤ b) + pos_part a + neg_part b
unfolding ◌-ℤ◌
-ℤ_parts a b = ground arith

pub eq_of_parts : (a b : ℤ) → pos_part a + neg_part b ≡ pos_part b + neg_part a → a ≡ b
eq_of_parts a b h = ground arith

pub ==ℤ_iff : (a b : ℤ) → ((a ==ℤ b) ≡ true) ↔ (a ≡ b)
==ℤ_iff a b = (λ h. eq_of_parts a b (ground arith), λ e. ground arith)

-- The signed 64-bit integer of a bit pattern: `int64(uint64(n))`.
abbrev pub two64 : ℕ
two64 = 18446744073709551616

abbrev pub two63 : ℕ
two63 = 9223372036854775808

unfoldable pub int64 : ℕ → ℤ
int64 n = if ltb (n % two64) two63 then pos (n % two64) else negsuc (two64 - 1 - n % two64)

-- The bit pattern of an `int64`, and sums that wrap around.
abbrev pub bits64 : ℤ → ℕ
bits64 (pos n) = n % two64
bits64 (negsuc n) = two64 - 1 - n % two64

unfoldable pub add64 : ℤ → ℤ → ℤ
unfolding int64
add64 a b = int64 (bits64 a + bits64 b)

-- `t.Sub(u)`: the difference of two instants, cut off at the ends of `time.Duration`.
unfoldable pub sub_time : ℤ → ℤ → ℤ
sub_time t u =
    let d : ℤ = t -ℤ u in
    if ltb_ℤ (pos (two63 - 1)) d
    then pos (two63 - 1)
    else if ltb_ℤ d (negsuc (two63 - 1))
    then negsuc (two63 - 1)
    else d

-- `v++` on an `int64`: the largest integer is followed by the smallest.
unfoldable pub inc64 : ℤ → ℤ
inc64 (pos n) = if n ==ℕ two63 - 1 then negsuc (two63 - 1) else pos (n + 1)
inc64 (negsuc zero) = pos 0
inc64 (negsuc (suc n)) = negsuc n

-- Counting in 64 bits is counting modulo 2^64.
pub inc64-int64 : (n : ℕ) → inc64 (int64 n) ≡ int64 (n + 1)
unfolding inc64 int64
inc64-int64 n = ground arith

-- An increment is never the identity: two versions that follow one another differ.
pub inc64-ne : (v : ℤ) → (inc64 v ==ℤ v) ≡ false
unfolding inc64
inc64-ne (pos n) = ground arith
inc64-ne (negsuc zero) = refl
inc64-ne (negsuc (suc n)) = ground arith
