-- ===== src/Timecmp/SelfTest.antt =====
-- timecmp/test-c.c: the test program of timecmp.h. A function returns 0 if all went well, and `none` is
-- an abort of what it calls. The functions test32 and test64 are the same function at two widths; what
-- is printed is left out, but not the call of `maskMsb` in it.
pub mod Class
pub mod Passes
use tripping_robot.Prelude.{ℕ, ◌/◌, Bool, true, false, not, Option, some, List, [], ◌∷◌, bit_or}
use tripping_robot.Prelude.{◌>>=◌, if◌then◌else◌, add_word}
use tripping_robot.Timecmp.{mask_msb, is_after, is_before, is_after_eq, is_before_eq}

-- `struct TestParams` and `struct TestParams64`
pub record TestParams : Type 0 where
  pub t0 : ℕ
  pub t1 : ℕ
  pub after : Bool
  pub before : Bool
  pub after_eq : Bool
  pub before_eq : Bool

abbrev pub params : ℕ → ℕ → Bool → Bool → Bool → Bool → TestParams
params t0 t1 after before after_eq before_eq = record {
  t0 = t0;
  t1 = t1;
  after = after;
  before = before;
  after_eq = after_eq;
  before_eq = before_eq;
}

abbrev same : Bool → Bool → Bool
same true b = b
same false b = not b

-- `result |= !(rv = v == expected)`
abbrev pub note : ℕ → Bool → Bool → ℕ
note result v expected = bit_or result (if same v expected then 0 else 1)

module _ (w : ℕ) where
  -- The table of a mask, in words of w bits.
  unfoldable pub table_of : ℕ → List TestParams
  table_of mask =
      params 0 0 false false true true
      ∷ params 1 0 true false true false
      ∷ params 0 1 false true false true
      ∷ params (mask / 2) 0 true false true false
      ∷ params (add_word w (mask / 2) 1) 0 false false false false
      ∷ params (add_word w (mask / 2) 2) 0 false true false true
      ∷ params mask 0 false true false true
      ∷ params 0 (mask / 2) false true false true
      ∷ params 0 (add_word w (mask / 2) 1) false false false false
      ∷ params 0 (add_word w (mask / 2) 2) true false true false
      ∷ params 0 mask true false true false
      ∷ []

  unfoldable pub test_row : ℕ → TestParams → ℕ → Option ℕ
  test_row mask p result = do
    v ← is_after w p.t0 p.t1 mask
    let result = note result v p.after
    v ← is_before w p.t0 p.t1 mask
    let result = note result v p.before
    v ← is_after_eq w p.t0 p.t1 mask
    let result = note result v p.after_eq
    v ← is_before_eq w p.t0 p.t1 mask
    some (note result v p.before_eq)

  unfoldable pub test_rows : ℕ → List TestParams → ℕ → Option ℕ
  test_rows mask [] result = some result
  test_rows mask (p ∷ ps) result = do result ← test_row mask p result; test_rows mask ps result

  unfoldable pub test_masks : List ℕ → ℕ → Option ℕ
  test_masks [] result = some result
  test_masks (mask ∷ masks) result = do
    _ ← mask_msb w mask
    result ← test_rows mask (table_of mask) result
    test_masks masks result

unfoldable pub test32 : Option ℕ
test32 = test_masks 32 (0xff ∷ 0xffff ∷ 0x7fffffff ∷ []) 0

unfoldable pub test64 : Option ℕ
test64 = test_masks 64 (0x1fffffffff ∷ []) 0

unfoldable pub test_c : Option ℕ
test_c = do result ← test32; more ← test64; some (bit_or result more)
