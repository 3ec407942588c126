-- ===== src/Stopwatch/Tests.antt =====
-- stopwatch/stopwatch.h: the theorems at concrete readings.
use tripping_robot.Prelude.{ℕ, ◌+◌, ◌*◌, ◌≡◌, refl, arith, List, [], ◌∷◌, length}
use tripping_robot.Prelude.Decimal.{value, IsNumeral, unsigned, digits, pad}
use tripping_robot.Stopwatch.{Timeval, init, start, stop, print, print_params, long, long_zeros}
use tripping_robot.Stopwatch.Elapsed.{micros, IsReading}
use tripping_robot.Stopwatch.Printed.{frame, print-micros}

abbrev early : Timeval
early = record { sec = 10; usec = 900000 }

abbrev late : Timeval
late = record { sec = 12; usec = 100000 }

abbrev early_IsReading : IsReading early
early_IsReading = record { positive = omega arith; fraction = omega arith }

abbrev late_IsReading : IsReading late
late_IsReading = record { positive = omega arith; fraction = omega arith }

-- The name of the stopwatch
abbrev timer : List ℕ
timer = b'A' ∷ []

print-micros_example :
    (whole fraction : List ℕ) × (print [] timer (stop late (start early init))
      ≡ frame [] timer whole fraction)
    × IsNumeral whole
    × IsNumeral fraction
    × (length fraction ≡ 6)
    × (micros early + (value whole * 1000000 + value fraction) ≡ micros late)
print-micros_example =
    print-micros [] timer early late early_IsReading late_IsReading init (omega arith)

-- "Stopwatch A: 1.200000 sec"
print_run :
    print [] timer (stop late (start early init))
    ≡ frame [] timer (b'1' ∷ []) (b'2' ∷ b'0' ∷ b'0' ∷ b'0' ∷ b'0' ∷ b'0' ∷ [])
unfolding print print_params long long_zeros stop start unsigned digits pad
print_run = refl

-- The clock set back by 1.2 s: "Stopwatch A: -2.800000 sec"
print_run_back :
    print [] timer (stop early (start late init))
    ≡ frame [] timer (b'-' ∷ b'2' ∷ []) (b'8' ∷ b'0' ∷ b'0' ∷ b'0' ∷ b'0' ∷ b'0' ∷ [])
unfolding print print_params long long_zeros stop start unsigned digits pad
print_run_back = refl
