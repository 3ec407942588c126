-- ===== src/Prelude/Words.antt =====
-- Machine words as native numbers below a power of two, their wrap-around written out.
use Prim.Native.Nat.{ℕ, ◌+◌, ◌-◌, ◌%◌, ◌^◌}
use mathlib.Core.Bool.{Bool}
use tripping_robot.Prelude.Tests.{ltb}

-- Conversion to an unsigned type of w bits.
abbrev pub to_word : ℕ → ℕ → ℕ
to_word w n = n % 2 ^ w

-- Unsigned addition and subtraction at w bits, of operands below 2 ^ w.
abbrev pub add_word : ℕ → ℕ → ℕ → ℕ
add_word w a b = (a + b) % 2 ^ w

abbrev pub sub_word : ℕ → ℕ → ℕ → ℕ
sub_word w a b = (a + 2 ^ w - b) % 2 ^ w

-- An `int` is its bit pattern, a number below 2 ^ 32, in two's complement. Adding 2 ^ 31 turns the
-- signed order of the patterns into the order of the numbers.
abbrev pub bias : ℕ → ℕ
bias n = (n + 2 ^ 31) % 2 ^ 32

abbrev pub lt_int : ℕ → ℕ → Bool
lt_int a b = ltb (bias a) (bias b)
