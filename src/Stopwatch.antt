-- ===== src/Stopwatch.antt =====
-- stopwatch/stopwatch.h: the time between two readings of the clock. `tv_sec` and `tv_usec` are
-- `long`, bit patterns below 2 ^ 64.
pub mod Elapsed
pub mod Printed
mod Tests
use tripping_robot.Prelude.{ℕ, ◌+◌, ◌-◌, ◌%◌, ◌^◌, Bool}
use tripping_robot.Prelude.{List, [], ◌∷◌, ◌++◌}
use tripping_robot.Prelude.Decimal.{unsigned, pad}
use tripping_robot.Prelude.{ltb, if◌then◌else◌, add_word, sub_word}

-- `struct timeval`
pub record Timeval : Type 0 where
  pub sec : ℕ
  pub usec : ℕ

-- `struct __stopwatch_priv`
pub record Stopwatch : Type 0 where
  pub start : Timeval
  pub stop : Timeval

-- `>` of two `long`.
abbrev pub gt_long : ℕ → ℕ → Bool
gt_long a b = ltb ((b + 2 ^ 63) % 2 ^ 64) ((a + 2 ^ 63) % 2 ^ 64)

-- STOPWATCH_INIT, STOPWATCH_START and STOPWATCH_STOP, where the clock shows `now`.
unfoldable pub init : Stopwatch
init = record { start = record { sec = 0; usec = 0 }; stop = record { sec = 0; usec = 0 } }

unfoldable pub start : Timeval → Stopwatch → Stopwatch
start now x = record x { start = now }

unfoldable pub stop : Timeval → Stopwatch → Stopwatch
stop now x = record x { stop = now }

-- STOPWATCH_ELAPSED_S
unfoldable pub elapsed_s : Stopwatch → ℕ
elapsed_s x =
    if gt_long x.start.usec x.stop.usec
    then sub_word 64 (sub_word 64 x.stop.sec x.start.sec) 1
    else sub_word 64 x.stop.sec x.start.sec

-- STOPWATCH_ELAPSED_US
unfoldable pub elapsed_us : Stopwatch → ℕ
elapsed_us x =
    if gt_long x.start.usec x.stop.usec
    then sub_word 64 (add_word 64 x.stop.usec 1000000) x.start.usec
    else sub_word 64 x.stop.usec x.start.usec

-- STOPWATCH_TO_TIMEVAL
unfoldable pub to_timeval : Stopwatch → Timeval
to_timeval x =
    if gt_long x.start.usec x.stop.usec
    then record {
      sec = sub_word 64 (sub_word 64 x.stop.sec x.start.sec) 1;
      usec = sub_word 64 (add_word 64 x.stop.usec 1000000) x.start.usec;
    }
    else record {
      sec = sub_word 64 x.stop.sec x.start.sec;
      usec = sub_word 64 x.stop.usec x.start.usec;
    }

-- DTIMER_PRINT_PARAMS: the two arguments of the format.
unfoldable pub print_params : Stopwatch → ℕ × ℕ
print_params x = (
  if gt_long x.start.usec x.stop.usec
      then sub_word 64 (sub_word 64 x.stop.sec x.start.sec) 1
      else sub_word 64 x.stop.sec x.start.sec,
  if gt_long x.start.usec x.stop.usec
      then sub_word 64 (add_word 64 x.stop.usec 1000000) x.start.usec
      else sub_word 64 x.stop.usec x.start.usec,
)

-- `%ld` and `%06ld` of the bit pattern of a `long`.
unfoldable pub long : ℕ → List ℕ
long n = if ltb n (2 ^ 63) then unsigned n else b'-' ∷ unsigned (2 ^ 64 - n)

unfoldable pub long_zeros : ℕ → List ℕ
long_zeros n =
    if ltb n (2 ^ 63) then pad 6 b'0' (unsigned n) else b'-' ∷ pad 5 b'0' (unsigned (2 ^ 64 - n))

-- "Stopwatch ", ": " and " sec\n"
abbrev pub title : List ℕ
title = b'S' ∷ b't' ∷ b'o' ∷ b'p' ∷ b'w' ∷ b'a' ∷ b't' ∷ b'c' ∷ b'h' ∷ b' ' ∷ []

abbrev pub colon : List ℕ
colon = b':' ∷ b' ' ∷ []

abbrev pub unit_of_time : List ℕ
unit_of_time = b' ' ∷ b's' ∷ b'e' ∷ b'c' ∷ b'\n' ∷ []

-- STOPWATCH_PRINT and STOPWATCH_PRINT_FILE: what is printed for the stopwatch of a name. The level is
-- KERN_WARNING in the kernel, and nothing otherwise.
unfoldable pub print : List ℕ → List ℕ → Stopwatch → List ℕ
print level name x =
    let (secs, usecs) = print_params x in
    level ++ title ++ name ++ colon ++ long secs ++ b'.' ∷ long_zeros usecs ++ unit_of_time

-- `double`, and the conversion from `long`.
pub record Doubles : Type 1 where
  pub double : Type 0
  pub of_long : ℕ → double
  pub plus : double → double → double
  pub minus : double → double → double
  pub over : double → double → double

-- STOPWATCH_ELAPSED_F
unfoldable pub elapsed_f : (d : Doubles) → Stopwatch → d.double
elapsed_f d x =
    d.plus (d.minus (d.of_long x.stop.sec) (d.of_long x.start.sec))
      (d.over (d.minus (d.of_long x.stop.usec) (d.of_long x.start.usec)) (d.of_long 1000000))
