-- ===== src/Timecmp/Tests.antt =====
-- timecmp/timecmp.h and timecmp.hpp: the theorems at concrete timestamps.
use tripping_robot.Prelude.{ℕ, ◌+◌, ◌%◌, ◌^◌, ◌<◌, ◌≤◌, ◌≡◌, ◌↔◌, ◌⊎◌, true, false, some, arith}
use tripping_robot.Timecmp.{mask_msb}
use tripping_robot.Timecmp.Compare.{mask_of, mask_msb_iff, compare_all, compare_all_cases}
use tripping_robot.Timecmp.Rolling.{
  type_bits, RollingTime, max, construct, assign, gt, lt, ge, le, get, add, sub,
}
use tripping_robot.Timecmp.Rolling.Laws.{rolling-compare_all, construct-eq-assign_iff}
use tripping_robot.Prelude.{suc, ◌-◌, refl, [], ◌∷◌}
use tripping_robot.Timecmp.Timer.{point, after_ticks, value, IsAhead}
use tripping_robot.Timecmp.Timer.Class.{IsNotBehind, rolling-Timer}
use tripping_robot.Timecmp.SelfTest.{test_masks, test32, test64, test_c}
use tripping_robot.Timecmp.SelfTest.Passes.{AllMasks, test_masks-passes}
use tripping_robot.Timecmp.SelfTest.Class.{test_time_bits, test_time_limits, test_cpp}
use tripping_robot.Timecmp.SelfTest.Class.Passes.{test_time_limits-passes}

-- Before and after a timer of 16 bits rolls over.
abbrev early : ℕ
early = 0xfff0

abbrev late : ℕ
late = 0x0005

abbrev watch : RollingTime
watch = record { time = 0xfa }

rolling-compare_all_example : compare_all 64 0xfa 0xfa (mask_of 7) ≡ (
  some (gt 8 watch watch),
  some (lt 8 watch watch),
  some (ge 8 watch watch),
  some (le 8 watch watch),
)
unfolding type_bits
rolling-compare_all_example =
    rolling-compare_all 7 (omega arith) watch watch (omega arith) (omega arith)

construct-eq-assign_iff_example :
    (get (construct 7 0xfa) ≡ get (assign 7 watch 0xfa)) ↔ (0xfa ≤ max 7)
construct-eq-assign_iff_example = construct-eq-assign_iff 6 (omega arith) watch 0xfa

compare_all_cases_example :
    ((late % 2 ^ 16 ≡ early % 2 ^ 16)
      × (compare_all 32 late early (mask_of 15) ≡ (some false, some false, some true, some true)))
    ⊎ ((n : ℕ) × (0 < n)
        × (n < 2 ^ 15)
        × ((early + n) % 2 ^ 16 ≡ late % 2 ^ 16)
        × (compare_all 32 late early (mask_of 15) ≡ (some true, some false, some true, some false)))
    ⊎ ((n : ℕ) × (0 < n)
        × (n < 2 ^ 15)
        × ((late + n) % 2 ^ 16 ≡ early % 2 ^ 16)
        × (compare_all 32 late early (mask_of 15) ≡ (some false, some true, some false, some true)))
    ⊎ (((early + 2 ^ 15) % 2 ^ 16 ≡ late % 2 ^ 16)
        × (compare_all 32 late early (mask_of 15)
            ≡ (some false, some false, some false, some false)))
compare_all_cases_example =
    compare_all_cases 32 15 late early (omega arith) (omega arith) (omega arith)

abbrev small_masks : AllMasks 32 (0xff ∷ 0xffff ∷ 0x7fffffff ∷ [])
small_masks = (
  (7, omega arith, omega arith, refl),
  ((15, omega arith, omega arith, refl), ((30, omega arith, omega arith, refl), tt)),
)

test_masks-passes_example : test_masks 32 (0xff ∷ 0xffff ∷ 0x7fffffff ∷ []) 0 ≡ some 0
test_masks-passes_example = test_masks-passes 32 (0xff ∷ 0xffff ∷ 0x7fffffff ∷ []) 0 small_masks

-- The programs as they are.
test32_passes : test32 ≡ some 0
unfolding test32
test32_passes = test_masks-passes 32 (0xff ∷ 0xffff ∷ 0x7fffffff ∷ []) 0 small_masks

test64_passes : test64 ≡ some 0
unfolding test64
test64_passes =
    test_masks-passes 64 (0x1fffffffff ∷ []) 0 ((36, omega arith, omega arith, refl), tt)

test_c_passes : test_c ≡ some 0
unfolding test_c
test_c_passes = rw (test32_passes, test64_passes) refl

constants : (j : ℕ) → suc j ≤ 64 → 1 ≤ j → test_time_bits (suc j) (2 ^ suc j - 1) (2 ^ j) ≡ 0
constants j h two = (test_time_limits-passes j h two).0

limits : (j : ℕ) → suc j ≤ 64 → 1 ≤ j → test_time_limits (suc j) ≡ 0
limits j h two = (test_time_limits-passes j h two).1

test_cpp_passes : test_cpp ≡ 0
unfolding test_cpp
test_cpp_passes =
    simp
      (
        constants 6 (omega arith) (omega arith),
        constants 7 (omega arith) (omega arith),
        constants 8 (omega arith) (omega arith),
        constants 14 (omega arith) (omega arith),
        constants 15 (omega arith) (omega arith),
        constants 30 (omega arith) (omega arith),
        constants 62 (omega arith) (omega arith),
        limits 6 (omega arith) (omega arith),
        limits 7 (omega arith) (omega arith),
        limits 8 (omega arith) (omega arith),
        limits 15 (omega arith) (omega arith),
        limits 31 (omega arith) (omega arith),
        limits 32 (omega arith) (omega arith),
      )
      refl

test_time_limits-passes_example :
    (test_time_bits 10 (2 ^ 10 - 1) (2 ^ 9) ≡ 0) × (test_time_limits 10 ≡ 0)
test_time_limits-passes_example = test_time_limits-passes 9 (omega arith) (omega arith)

mask_msb_iff_example : ((m : ℕ) × (mask_msb 32 0xffff ≡ some m)) ↔ ((k : ℕ) × (0xffff + 1 ≡ 2 ^ k))
mask_msb_iff_example = mask_msb_iff 32 0xffff (omega arith)

abbrev after_watch : RollingTime
after_watch = record { time = 0x02 }

rolling-Timer_example :
    (get (assign 8 watch 20) ≡ value 7 (point 7 20))
    × (point 7 (get (add 8 watch 20)) ≡ after_ticks 7 20 (point 7 0xfa))
    × (after_ticks 7 20 (point 7 (get (sub 8 watch 20))) ≡ point 7 0xfa)
    × ((gt 8 watch after_watch ≡ true) ↔ IsAhead 7 (point 7 0xfa) (point 7 0x02))
    × ((lt 8 watch after_watch ≡ true) ↔ IsAhead 7 (point 7 0x02) (point 7 0xfa))
    × ((ge 8 watch after_watch ≡ true) ↔ IsNotBehind 7 (point 7 0xfa) (point 7 0x02))
    × ((le 8 watch after_watch ≡ true) ↔ IsNotBehind 7 (point 7 0x02) (point 7 0xfa))
unfolding type_bits
rolling-Timer_example =
    rolling-Timer 7 20 watch after_watch (omega arith) (omega arith) (omega arith) (omega arith)
