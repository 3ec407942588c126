-- ===== src/Timecmp/SelfTest/Class.antt =====
-- timecmp/test-cpp.cpp: the test program of timecmp.hpp. A function returns an `int`, 0 if all went well;
-- what is printed is left out.
pub mod Passes
use tripping_robot.Prelude.{ℕ, ◌-◌, ◌/◌, ◌^◌, true, false, ◌&&◌, List, [], ◌∷◌, bit_or}
use tripping_robot.Prelude.{◌==◌, if◌then◌else◌, to_word, add_word}
use tripping_robot.Timecmp.SelfTest.{TestParams, params, note}
use tripping_robot.Timecmp.Rolling.{
  type_bits, arith_bits, RollingTime, msb, max, construct, gt, lt, ge, le, assign, add, add_time,
  sub, sub_time, get,
}

-- The -1 of a failure
abbrev pub failed : ℕ
failed = 2 ^ 32 - 1

module _ (bits : ℕ) where
  unfoldable pub test_time_bits : ℕ → ℕ → ℕ
  test_time_bits max' msb' = if (max bits == max') && (msb bits == msb') then 0 else failed

  -- `(typename T::Type) (rt.max / 2 + n)`
  abbrev past : ℕ → ℕ
  past n = to_word (type_bits bits) (add_word (arith_bits bits) (max bits / 2) n)

  unfoldable pub limits_of : List TestParams
  limits_of =
      params 0 0 false false true true
      ∷ params 1 0 true false true false
      ∷ params 0 1 false true false true
      ∷ params (to_word (type_bits bits) (max bits / 2)) 0 true false true false
      ∷ params (past 1) 0 false false false false
      ∷ params (past 2) 0 false true false true
      ∷ params (to_word (type_bits bits) (max bits)) 0 false true false true
      ∷ params 0 (to_word (type_bits bits) (max bits / 2)) false true false true
      ∷ params 0 (past 1) false false false false
      ∷ params 0 (past 2) true false true false
      ∷ params 0 (to_word (type_bits bits) (max bits)) true false true false
      ∷ []

  -- The operations that are only tried, and the assignment.
  unfoldable pub prepared : TestParams → RollingTime
  prepared p =
      let t1 = construct bits p.t1 in
      let t0 = add_time bits t1 t1 in
      let t0 = sub_time bits t0 t1 in
      let t0 = add bits t0 (get t1) in let t0 = sub bits t0 (get t1) in assign bits t0 p.t0

  unfoldable pub limit_row : TestParams → ℕ → ℕ
  limit_row p result =
      let t1 = construct bits p.t1 in
      let t0 = prepared p in
      let result = note result (gt bits t0 t1) p.after in
      let result = note result (lt bits t0 t1) p.before in
      let result = note result (ge bits t0 t1) p.after_eq in note result (le bits t0 t1) p.before_eq

  unfoldable pub limit_rows : List TestParams → ℕ → ℕ
  limit_rows [] result = result
  limit_rows (p ∷ ps) result = limit_rows ps (limit_row p result)

  unfoldable pub test_time_limits : ℕ
  test_time_limits = limit_rows limits_of 0

unfoldable pub test_cpp : ℕ
test_cpp =
    let result = bit_or 0 (test_time_bits 7 0x7f 0x40) in
    let result = bit_or result (test_time_bits 8 0xff 0x80) in
    let result = bit_or result (test_time_bits 9 0x1ff 0x100) in
    let result = bit_or result (test_time_bits 15 0x7fff 0x4000) in
    let result = bit_or result (test_time_bits 16 0xffff 0x8000) in
    let result = bit_or result (test_time_bits 31 0x7fffffff 0x40000000) in
    let result = bit_or result (test_time_bits 63 0x7fffffffffffffff 0x4000000000000000) in
    let result = bit_or result (test_time_limits 7) in
    let result = bit_or result (test_time_limits 8) in
    let result = bit_or result (test_time_limits 9) in
    let result = bit_or result (test_time_limits 16) in
    let result = bit_or result (test_time_limits 32) in bit_or result (test_time_limits 33)
