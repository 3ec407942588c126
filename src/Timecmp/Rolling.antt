-- ===== src/Timecmp/Rolling.antt =====
-- timecmp/timecmp.hpp: the class template `RollingTime<TIMEBITS>`. The parameter `bits` is
-- TIMEBITS, from 1 to 64. Operands narrower than `int` are promoted to it, so an expression is
-- computed in 32 or 64 bits and then converted to the type of the timer.
pub mod Laws
use tripping_robot.Prelude.{ℕ, ◌-◌, ◌*◌, ◌^◌, Bool, not, bit_and}
use tripping_robot.Prelude.{List, [], ◌∷◌}
use tripping_robot.Prelude.Decimal.{unsigned}
use tripping_robot.Prelude.{ltb, leb, ◌==◌, if◌then◌else◌, to_word, add_word, sub_word}

-- `TimeParam<bits>::type`, by its width.
unfoldable pub type_bits : ℕ → ℕ
type_bits bits =
    if leb bits 8 then 8 else if leb bits 16 then 16 else if leb bits 32 then 32 else 64

-- The width that operands of that type are promoted to.
pub arith_bits : ℕ → ℕ
arith_bits bits = if leb (type_bits bits) 32 then 32 else 64

pub record RollingTime : Type 0 where
  pub time : ℕ

module _ (bits : ℕ) where
  pub msb : ℕ
  msb = to_word (type_bits bits) (2 ^ (bits - 1))

  pub max : ℕ
  max = to_word (type_bits bits) (
      add_word (arith_bits bits) (to_word (arith_bits bits) (sub_word (arith_bits bits) msb 1 * 2))
        1)

  -- The conversion to `Type` is made by the caller.
  unfoldable pub construct : ℕ → RollingTime
  construct t = record { time = t }

  unfoldable pub gt : RollingTime → RollingTime → Bool
  gt self rhs = ltb msb (bit_and (sub_word (arith_bits bits) rhs.time self.time) max)

  unfoldable pub lt : RollingTime → RollingTime → Bool
  lt self rhs = ltb msb (bit_and (sub_word (arith_bits bits) self.time rhs.time) max)

  unfoldable pub ge : RollingTime → RollingTime → Bool
  ge self rhs = not (bit_and (sub_word (arith_bits bits) self.time rhs.time) msb == msb)

  unfoldable pub le : RollingTime → RollingTime → Bool
  le self rhs = not (bit_and (sub_word (arith_bits bits) rhs.time self.time) msb == msb)

  unfoldable pub assign : RollingTime → ℕ → RollingTime
  assign self t = record { time = to_word (type_bits bits) (bit_and t max) }

  pub add : RollingTime → ℕ → RollingTime
  add self t = record {
    time = to_word (type_bits bits) (bit_and (add_word (arith_bits bits) self.time t) max);
  }

  pub add_time : RollingTime → RollingTime → RollingTime
  add_time self rhs = record {
    time = to_word (type_bits bits) (bit_and (add_word (arith_bits bits) self.time rhs.time) max);
  }

  pub sub : RollingTime → ℕ → RollingTime
  sub self t = record {
    time = to_word (type_bits bits) (bit_and (sub_word (arith_bits bits) self.time t) max);
  }

  pub sub_time : RollingTime → RollingTime → RollingTime
  sub_time self rhs = record {
    time = to_word (type_bits bits) (bit_and (sub_word (arith_bits bits) self.time rhs.time) max);
  }

-- The default constructor, and `get()`, which is also the conversion to `Type`.
pub zero_time : RollingTime
zero_time = record { time = 0 }

abbrev pub get : RollingTime → ℕ
get t = t.time

-- `operator <<`: a `uint8_t` goes to the stream as a character, and a wider type as a number.
unfoldable pub shown : ℕ → RollingTime → List ℕ
shown bits t = if leb (type_bits bits) 8 then t.time ∷ [] else unsigned t.time
