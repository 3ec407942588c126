-- ===== src/Stopwatch/Elapsed.antt =====
-- stopwatch/stopwatch.h: what the difference of two readings means.
use tripping_robot.Prelude.{ℕ, ◌+◌, ◌-◌, ◌*◌, ◌^◌, ◌≤◌, ◌<◌, ◌≡◌, arith, dec_lt, refl, true, false}
use tripping_robot.Stopwatch.{
  Timeval, Stopwatch, gt_long, start, stop, elapsed_s, elapsed_us, to_timeval,
}

-- The time in microseconds.
abbrev pub micros : Timeval → ℕ
micros t = t.sec * 1000000 + t.usec

-- A reading of the clock: no negative time, and microseconds below a second.
pub record IsReading (t : Timeval) : Type 0 where
  pub positive : t.sec < 2 ^ 63
  pub fraction : t.usec < 1000000

module _ (a b : Timeval) (ha : IsReading a) (hb : IsReading b) (x : Stopwatch) where
  borrow : b.usec < a.usec → gt_long a.usec b.usec ≡ true
  borrow h = ground (arith, ha.fraction, hb.fraction)

  no_borrow : a.usec ≤ b.usec → gt_long a.usec b.usec ≡ false
  no_borrow h = ground (arith, ha.fraction, hb.fraction)

  -- Started at the reading a and stopped at a reading b that is not before it, the stopwatch shows
  -- the time between them, with microseconds below a second, in seconds and microseconds apart and
  -- as a `struct timeval`.
  pub stop-start :
      micros a ≤ micros b
      → (micros a + micros (to_timeval (stop b (start a x))) ≡ micros b)
        × ((to_timeval (stop b (start a x))).usec < 1000000)
        × ((to_timeval (stop b (start a x))).sec ≡ elapsed_s (stop b (start a x)))
        × ((to_timeval (stop b (start a x))).usec ≡ elapsed_us (stop b (start a x)))
  unfolding stop start to_timeval elapsed_s elapsed_us
  stop-start h = elim (dec_lt b.usec a.usec) [
    | yes less ↦ rw (borrow less) (
      omega (arith, ha.positive, hb.positive, ha.fraction, hb.fraction),
      omega (arith, ha.fraction, hb.fraction),
      refl,
      refl,
    )
    | no more ↦ rw (no_borrow (omega arith)) (
      omega (arith, ha.positive, hb.positive, ha.fraction, hb.fraction),
      omega (arith, ha.fraction, hb.fraction),
      refl,
      refl,
    )
  ]

  -- Where the clock was set back in between, the seconds are the negative number -n and the
  -- microseconds are still below a second: together they are the negative difference.
  pub stop-start_back :
      micros b < micros a
      → (n : ℕ) × (0 < n)
        × (n < 2 ^ 64)
        × (elapsed_s (stop b (start a x)) ≡ 2 ^ 64 - n)
        × (elapsed_us (stop b (start a x)) < 1000000)
        × (micros a + elapsed_us (stop b (start a x)) ≡ micros b + n * 1000000)
  unfolding stop start elapsed_s elapsed_us
  stop-start_back h = elim (dec_lt b.usec a.usec) [
    | yes less ↦ rw (borrow less) (
      a.sec + 1 - b.sec,
      omega arith,
      omega (arith, ha.positive),
      omega (arith, ha.positive, hb.positive),
      omega (arith, ha.fraction, hb.fraction),
      omega (arith, ha.positive, hb.positive, ha.fraction, hb.fraction),
    )
    | no more ↦ rw (no_borrow (omega arith)) (
      a.sec - b.sec,
      omega (arith, hb.fraction, ha.fraction),
      omega (arith, ha.positive),
      omega (arith, ha.positive, hb.positive, hb.fraction, ha.fraction),
      omega (arith, ha.fraction, hb.fraction),
      omega (arith, ha.positive, hb.positive, ha.fraction, hb.fraction),
    )
  ]
