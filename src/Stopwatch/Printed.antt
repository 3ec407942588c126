-- ===== src/Stopwatch/Printed.antt =====
-- stopwatch/stopwatch.h: what the printed text says.
use tripping_robot.Prelude.{
  ℕ, ◌+◌, ◌-◌, ◌*◌, ◌^◌, ◌≤◌, ◌<◌, ◌≡◌, ap, ap₂, ◌∙◌, arith, refl, List, ◌∷◌, ◌++◌, length,
}
use tripping_robot.Prelude.Decimal.{
  unsigned, pad, value, IsNumeral, value-unsigned, unsigned-IsNumeral, value-pad, pad-IsNumeral,
  length_full, length-unsigned,
}
use tripping_robot.Stopwatch.{
  Timeval, Stopwatch, start, stop, elapsed_s, elapsed_us, print_params, long, long_zeros, title,
  colon, unit_of_time, print,
}
use tripping_robot.Stopwatch.Elapsed.{micros, IsReading, stop-start, stop-start_back}

print_params-elapsed : (x : Stopwatch) → print_params x ≡ (elapsed_s x, elapsed_us x)
unfolding print_params elapsed_s elapsed_us
print_params-elapsed x = refl

long_positive : (n : ℕ) → n < 2 ^ 63 → long n ≡ unsigned n
unfolding long
long_positive n h = ground arith

long_negative : (n : ℕ) → 0 < n → n ≤ 2 ^ 63 → long (2 ^ 64 - n) ≡ b'-' ∷ unsigned n
unfolding long
long_negative n pos h =
    ground (arith, ap unsigned {x = 2 ^ 64 - (2 ^ 64 - n)} {y = n} (omega arith))

long_zeros_positive : (n : ℕ) → n < 2 ^ 63 → long_zeros n ≡ pad 6 b'0' (unsigned n)
unfolding long_zeros
long_zeros_positive n h = ground arith

-- The text around two numbers.
abbrev pub frame : List ℕ → List ℕ → List ℕ → List ℕ → List ℕ
frame level name whole fraction =
    level ++ title ++ name ++ colon ++ whole ++ b'.' ∷ fraction ++ unit_of_time

-- A numeral of six digits for a number below a million.
fraction_lem :
    (n : ℕ)
    → n < 1000000
    → IsNumeral (pad 6 b'0' (unsigned n))
      × (length (pad 6 b'0' (unsigned n)) ≡ 6)
      × (value (pad 6 b'0' (unsigned n)) ≡ n)
fraction_lem n h = (
  pad-IsNumeral 6 (unsigned n) (unsigned-IsNumeral n),
  length_full 6 b'0' (unsigned n) (length-unsigned 5 n (omega arith)),
  value-pad 6 (unsigned n) ∙ value-unsigned n (omega arith),
)

module _ (level name : List ℕ) (a b : Timeval) (ha : IsReading a) (hb : IsReading b)
    (x : Stopwatch) where
  abbrev run : Stopwatch
  run = stop b (start a x)

  -- Started at the reading a and stopped at a reading b that is not before it, the stopwatch prints
  -- a numeral, a point, and a numeral of six digits; read as seconds and as a fraction they are the
  -- time from a to b, to the microsecond.
  pub print-micros :
      micros a ≤ micros b
      → (whole fraction : List ℕ) × (print level name (stop b (start a x))
          ≡ frame level name whole fraction)
        × IsNumeral whole
        × IsNumeral fraction
        × (length fraction ≡ 6)
        × (micros a + (value whole * 1000000 + value fraction) ≡ micros b)
  unfolding print print_params elapsed_s elapsed_us
  print-micros h =
      let (sum, below, secs, usecs) = stop-start a b ha hb x h in
      let small : elapsed_s run < 2 ^ 63 = omega (arith, hb.positive, hb.fraction) in
      let (digits, six, worth) = fraction_lem (elapsed_us run) (omega arith) in
      (
        unsigned (elapsed_s run),
        pad 6 b'0' (unsigned (elapsed_us run)),
        ap₂ (λ s t. frame level name s t) (long_positive (elapsed_s run) small)
            (long_zeros_positive (elapsed_us run) (omega arith)),
        unsigned-IsNumeral (elapsed_s run),
        digits,
        six,
        omega (arith, worth, value-unsigned (elapsed_s run) (omega arith)),
      )

  -- Where the clock was set back in between, the minus sign stands only for the seconds: the fraction
  -- is to be added, although it is printed behind them.
  pub print-micros_back :
      micros b < micros a
      → (whole fraction : List ℕ) × (print level name (stop b (start a x))
          ≡ frame level name (b'-' ∷ whole) fraction)
        × IsNumeral whole
        × IsNumeral fraction
        × (length fraction ≡ 6)
        × (micros a + value fraction ≡ micros b + value whole * 1000000)
  unfolding print print_params elapsed_s elapsed_us
  print-micros_back h =
      let (n, pos, word, secs, below, sum) = stop-start_back a b ha hb x h in
      let (digits, six, worth) = fraction_lem (elapsed_us run) below in
      let small : n ≤ 2 ^ 63 = omega (arith, ha.positive, hb.fraction, ha.fraction) in
      (
        unsigned n,
        pad 6 b'0' (unsigned (elapsed_us run)),
        ap₂ (λ s t. frame level name s t) (ap long secs ∙ long_negative n pos small)
            (long_zeros_positive (elapsed_us run) (omega arith)),
        unsigned-IsNumeral n,
        digits,
        six,
        omega (arith, worth, value-unsigned n (omega arith)),
      )
