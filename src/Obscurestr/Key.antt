-- ===== src/Obscurestr/Key.antt =====
-- obscurestr/obscurestr.hpp, the key generator.
use native.Mathlib.Nat.{zero-div}
use tripping_robot.Prelude.{ℕ, zero, suc, ◌+◌, ◌*◌, ◌/◌, ◌%◌, ◌^◌, ◌≤◌, ◌≡◌, refl, ap, arith}
use tripping_robot.Prelude.{List, [], ◌∷◌, to_word}
use tripping_robot.Prelude.Bits.{and-mask, zero-and, xor-zero}
use tripping_robot.Obscurestr.{modulus, next_value, Time, seed, random, byte, obscure, obscured}

next_value_le : (s : ℕ) → s ≤ modulus → next_value s ≤ modulus
unfolding next_value
next_value_le s h = ground (arith, and-mask 16 s, and-mask 15 (to_word 32 (16807 * (s / 2 ^ 16))))

-- A time of day as the compiler writes it.
pub record IsTime (t : Time) : Type 0 where
  pub h10 : t.h10 ≤ 2
  pub h1 : t.h1 ≤ 9
  pub m10 : t.m10 ≤ 5
  pub m1 : t.m1 ≤ 9
  pub s10 : t.s10 ≤ 5
  pub s1 : t.s1 ≤ 9

-- Every key of a program that is compiled at a time of day is at most 2 ^ 31 - 1, the maximum that the
-- generator names.
pub random_le : (t : Time) (n : ℕ) → IsTime t → random t n ≤ modulus
unfolding random seed
random_le t zero h = next_value_le (seed t) (omega (arith, h.h10, h.h1, h.m10, h.m1, h.s10, h.s1))
random_le t (suc n) h = next_value_le (random t n) (random_le t n h)

abbrev pub midnight : Time
midnight = record { h10 = 0; h1 = 0; m10 = 0; m1 = 0; s10 = 0; s1 = 0 }

random-midnight : (n : ℕ) → random midnight n ≡ 0
unfolding random seed next_value
random-midnight zero = refl
random-midnight (suc n) = ap next_value (random-midnight n)

obscure-zero : (i : ℕ) (str : List ℕ) → obscure 0 i str ≡ str
unfolding obscure byte
obscure-zero i [] = refl
obscure-zero i (c ∷ cs) =
    rw (zero-div (2 ^ (i % 4 * 8)), zero-and 255, xor-zero c) (ap (◌∷◌ c) (obscure-zero (i + 1) cs))

-- Every string of a program that is compiled at midnight is left as it is, in clear.
pub obscured-midnight : (counter : ℕ) (str : List ℕ) → obscured midnight counter str ≡ str
unfolding obscured
obscured-midnight counter str = rw (random-midnight counter) (obscure-zero 0 str)
