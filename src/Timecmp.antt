-- ===== src/Timecmp.antt =====
-- timecmp/timecmp.h: comparison of timestamps that roll over after `time_max`, a mask of low ones.
-- The header has each function twice, for `uint32_t` and for `uint64_t`; here the width is a
-- parameter w, and the functions of the header are the instances at 32 and 64. `none` is `abort()`.
pub mod Compare
pub mod Rolling
pub mod SelfTest
pub mod Timer
mod Tests
use tripping_robot.Prelude.{ℕ, ◌/◌, Bool, not, Option, none, some, bit_and}
use tripping_robot.Prelude.{ltb, ◌==◌, if◌then◌else◌, ◌>>=◌, add_word, sub_word}

module _ (w : ℕ) where
  pub mask_msb : ℕ → Option ℕ
  mask_msb mask =
      if bit_and (add_word w mask 1) mask == 0 then some (add_word w (mask / 2) 1) else none

  pub is_after : ℕ → ℕ → ℕ → Option Bool
  is_after a b time_max = do
    msb ← mask_msb time_max
    some (ltb msb (bit_and (sub_word w b a) time_max))

  pub is_before : ℕ → ℕ → ℕ → Option Bool
  unfolding is_after
  is_before a b time_max = is_after b a time_max

  pub is_after_eq : ℕ → ℕ → ℕ → Option Bool
  is_after_eq a b time_max = do
    msb ← mask_msb time_max
    msb' ← mask_msb time_max
    some (not (bit_and (sub_word w a b) msb == msb'))

  pub is_before_eq : ℕ → ℕ → ℕ → Option Bool
  unfolding is_after_eq
  is_before_eq a b time_max = is_after_eq b a time_max

pub mask_msb32 : ℕ → Option ℕ
mask_msb32 = mask_msb 32

pub time_is_after : ℕ → ℕ → ℕ → Option Bool
time_is_after = is_after 32

pub time_is_before : ℕ → ℕ → ℕ → Option Bool
time_is_before = is_before 32

pub time_is_after_eq : ℕ → ℕ → ℕ → Option Bool
time_is_after_eq = is_after_eq 32

pub time_is_before_eq : ℕ → ℕ → ℕ → Option Bool
time_is_before_eq = is_before_eq 32

pub mask_msb64 : ℕ → Option ℕ
mask_msb64 = mask_msb 64

pub time_is_after64 : ℕ → ℕ → ℕ → Option Bool
time_is_after64 = is_after 64

pub time_is_before64 : ℕ → ℕ → ℕ → Option Bool
time_is_before64 = is_before 64

pub time_is_after_eq64 : ℕ → ℕ → ℕ → Option Bool
time_is_after_eq64 = is_after_eq 64

pub time_is_before_eq64 : ℕ → ℕ → ℕ → Option Bool
time_is_before_eq64 = is_before_eq 64
