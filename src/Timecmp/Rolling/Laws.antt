-- ===== src/Timecmp/Rolling/Laws.antt =====
-- timecmp/timecmp.hpp: the constants, the comparisons against those of timecmp.h, and the
-- arithmetic of the class.
use native.Mathlib.Nat.{pow-suc, pow-le-pow_right, mod-eq_of_lt, mod-lt, mod-mod, add-mod-mod}
use tripping_robot.Prelude.{ℕ, suc, ◌+◌, ◌-◌, ◌*◌, ◌%◌, ◌^◌, ◌≤◌, ◌<◌, bit_and}
use tripping_robot.Prelude.{◌≡◌, sym, ap, ◌∙◌, ◌↔◌, true, some, arith}
use tripping_robot.Prelude.{add_word, sub_word, to_word}
use tripping_robot.Prelude.Bits.{and-mask}
use tripping_robot.Prelude.Wrap.{sub_word_of_le, gap_steps, pow_pos, steps_unique, mod-mod-pow}
use tripping_robot.Prelude.{[], ◌∷◌}
use tripping_robot.Prelude.Decimal.{IsNumeral, value, unsigned-IsNumeral, value-unsigned}
use tripping_robot.Timecmp.{is_after, is_before, is_after_eq, is_before_eq}
use tripping_robot.Timecmp.Compare.{
  mask_of, mask_msb-mask_of, compare_all, compare_all-width, is_after_iff,
}
use tripping_robot.Timecmp.Rolling.{
  type_bits, arith_bits, RollingTime, msb, max, gt, lt, ge, le, assign, add, sub, construct, get,
  shown,
}

type_bits_wide :
    (bits : ℕ)
    → bits ≤ 64
    → (bits ≤ type_bits bits) × (type_bits bits ≤ arith_bits bits) × (type_bits bits ≤ 64)
unfolding type_bits arith_bits
type_bits_wide bits h = ground arith

-- The sizes of the words in play.
pub record Sizes (j : ℕ) : Type 0 where
  pub narrow : suc j ≤ arith_bits (suc j)
  pub turn : 2 ^ suc j ≤ 2 ^ type_bits (suc j)
  pub typed : 2 ^ type_bits (suc j) ≤ 2 ^ arith_bits (suc j)
  pub longest : 2 ^ type_bits (suc j) ≤ 2 ^ 64
  pub doubled : 2 ^ suc j ≡ 2 ^ j * 2
  pub some_half : 0 < 2 ^ j

pub sizes : (j : ℕ) → suc j ≤ 64 → Sizes j
sizes j h =
    let (fits, promoted, limit) = type_bits_wide (suc j) h in
    record {
      narrow = omega arith;
      turn = pow-le-pow_right (omega arith) fits;
      typed = pow-le-pow_right (omega arith) promoted;
      longest = pow-le-pow_right (omega arith) limit;
      doubled = pow-suc 2 j;
      some_half = pow_pos j;
    }

module _ (j : ℕ) (h : suc j ≤ 64) where
  open (sizes j h) use {narrow}

  pub msb_lem : msb (suc j) ≡ 2 ^ j
  unfolding msb
  msb_lem =
      ap (λ t. 2 ^ t % 2 ^ type_bits (suc j)) {x = suc j - 1} {y = j} (omega arith)
      ∙ mod-eq_of_lt (omega (arith, sizes j h))

  -- In a word of a bits: ((2 ^ j - 1) << 1) + 1.
  max_word :
      (a : ℕ) → 2 ^ suc j ≤ 2 ^ a → add_word a (to_word a (sub_word a (2 ^ j) 1 * 2)) 1 ≡ mask_of j
  max_word a fits =
      ap (λ t. add_word a (to_word a (t * 2)) 1)
        (sub_word_of_le a (2 ^ j) 1 (omega (arith, sizes j h)) (omega (arith, sizes j h)))
      ∙ ap (λ t. add_word a t 1)
          (mod-eq_of_lt {n = (2 ^ j - 1) * 2} {m = 2 ^ a} (omega (arith, sizes j h)))
      ∙ mod-eq_of_lt {n = (2 ^ j - 1) * 2 + 1} {m = 2 ^ a} (omega (arith, sizes j h))
      ∙ omega (arith, sizes j h)

  pub max_lem : max (suc j) ≡ mask_of j
  unfolding max
  max_lem = rw msb_lem (
      rw (max_word (arith_bits (suc j)) (omega (arith, sizes j h)))
        (mod-eq_of_lt (omega (arith, sizes j h))))

  -- A word of the timer's type, cut to the timer's bits.
  pub cut : (x : ℕ) → to_word (type_bits (suc j)) (bit_and x (max (suc j))) ≡ x % 2 ^ suc j
  cut x =
      rw (max_lem, and-mask) (mod-eq_of_lt (omega (arith, mod-lt x (pow_pos (suc j)), sizes j h)))

  in_word : (t : ℕ) → t < 2 ^ type_bits (suc j) → t < 2 ^ arith_bits (suc j)
  in_word t ht = omega (arith, sizes j h)

  after_word :
      (x y : RollingTime)
      → is_after (arith_bits (suc j)) x.time y.time (mask_of j) ≡ some (gt (suc j) x y)
  unfolding is_after gt
  after_word x y = rw (msb_lem, max_lem, mask_msb-mask_of (arith_bits (suc j)) j narrow)

  after_eq_word :
      (x y : RollingTime)
      → is_after_eq (arith_bits (suc j)) x.time y.time (mask_of j) ≡ some (ge (suc j) x y)
  unfolding is_after_eq ge
  after_eq_word x y = rw (msb_lem, mask_msb-mask_of (arith_bits (suc j)) j narrow)

  -- For every timer of 1 to 64 bits, the operators `>`, `<`, `>=` and `<=` of the class return what
  -- the functions of timecmp.h return on the same timestamps and the mask of that timer.
  pub rolling-compare_all :
      (x y : RollingTime)
      → x.time < 2 ^ type_bits (suc j)
      → y.time < 2 ^ type_bits (suc j)
      → compare_all 64 x.time y.time (mask_of j) ≡ (
        some (gt (suc j) x y),
        some (lt (suc j) x y),
        some (ge (suc j) x y),
        some (le (suc j) x y),
      )
  unfolding is_before is_before_eq gt lt ge le
  rolling-compare_all x y hx hy =
      compare_all-width 64 (arith_bits (suc j)) j x.time y.time h narrow (omega (arith, sizes j h))
        (omega (arith, sizes j h)) (in_word x.time hx) (in_word y.time hy)
      ∙ (λ i. (after_word x y i, after_word y x i, after_eq_word x y i, after_eq_word y x i))

  -- Assignment, `+=` and `-=` leave a value of the timer's bits: the operand, the sum and the
  -- difference, reduced to those bits.
  pub update_value :
      (x : RollingTime) (t : ℕ)
      → t < 2 ^ type_bits (suc j)
      → x.time < 2 ^ type_bits (suc j)
      → (get (assign (suc j) x t) ≡ t % 2 ^ suc j)
        × (get (add (suc j) x t) ≡ (x.time + t) % 2 ^ suc j)
        × ((t + get (sub (suc j) x t)) % 2 ^ suc j ≡ x.time % 2 ^ suc j)
  unfolding assign add sub
  update_value x t ht hx = (
    cut t,
    cut (add_word (arith_bits (suc j)) x.time t)
        ∙ mod-mod-pow (suc j) (arith_bits (suc j)) (x.time + t) narrow,
    ap (λ r. (t + r) % 2 ^ suc j) (cut (sub_word (arith_bits (suc j)) x.time t))
        ∙ gap_steps (arith_bits (suc j)) (suc j) x.time t narrow (in_word x.time hx) (in_word t ht),
  )

  -- A value cut to the timer's bits is a word of its type.
  value_fits : (v t : ℕ) → v ≡ t % 2 ^ suc j → v < 2 ^ type_bits (suc j)
  value_fits v t e = omega (arith, mod-lt t (pow_pos (suc j)), sizes j h)

  -- A value advanced by fewer than half a turn, and by at least one, is greater than it was, also
  -- where it rolls over.
  pub add-gt :
      (x : RollingTime) (t : ℕ)
      → x.time < 2 ^ type_bits (suc j)
      → 0 < t
      → t < 2 ^ j
      → gt (suc j) (add (suc j) x t) x ≡ true
  add-gt x t hx pos small =
      let y = add (suc j) x t in
      let sum : get y ≡ (x.time + t) % 2 ^ suc j =
        (update_value x t (omega (arith, sizes j h)) hx).1 in
      let (v, returns, when) =
        is_after_iff (arith_bits (suc j)) j (get y) x.time narrow
          (in_word (get y) (value_fits (get y) (x.time + t) sum)) (in_word x.time hx) in
      let ahead : v ≡ true =
        when.1
          (t, pos, small, sym (ap (λ r. r % 2 ^ suc j) sum ∙ mod-mod (x.time + t) (2 ^ suc j))) in
      ground (arith, after_word y x, returns, ahead)

  sub-lt : (x : RollingTime) (t : ℕ) → get (sub (suc j) x t) < 2 ^ suc j
  unfolding sub
  sub-lt x t = rw (cut (sub_word (arith_bits (suc j)) x.time t)) (mod-lt _ (pow_pos (suc j)))

  -- Taking off what was added gives the value back, reduced to the timer's bits.
  pub sub-add :
      (x : RollingTime) (t : ℕ)
      → x.time < 2 ^ type_bits (suc j)
      → t < 2 ^ type_bits (suc j)
      → get (sub (suc j) (add (suc j) x t) t) ≡ x.time % 2 ^ suc j
  sub-add x t hx ht =
      let y = add (suc j) x t in
      let sum : get y ≡ (x.time + t) % 2 ^ suc j = (update_value x t ht hx).1 in
      steps_unique (2 ^ suc j) t (get (sub (suc j) y t)) (x.time % 2 ^ suc j) (sub-lt y t)
        (mod-lt x.time (pow_pos (suc j)))
        ((update_value y t ht (value_fits (get y) (x.time + t) sum)).2
          ∙ ap (λ r. r % 2 ^ suc j) sum
          ∙ mod-mod (x.time + t) (2 ^ suc j)
          ∙ ap (λ r. r % 2 ^ suc j) {x = x.time + t} {y = t + x.time} (omega arith)
          ∙ sym (add-mod-mod t x.time (2 ^ suc j)))

  -- Construction from a word keeps all its bits, unlike assignment of it: the two agree exactly on
  -- the values that the timer can have.
  pub construct-eq-assign_iff :
      (x : RollingTime) (t : ℕ)
      → (get (construct (suc j) t) ≡ get (assign (suc j) x t)) ↔ (t ≤ max (suc j))
  unfolding construct assign
  construct-eq-assign_iff x t =
      rw (cut t, max_lem)
        (
          (λ e. omega (arith, mod-lt t (pow_pos (suc j)))),
          (λ fits. sym (mod-eq_of_lt (omega (arith, pow_pos (suc j))))),
        )

-- A timer of more than 8 bits is printed as the numeral of its value; a narrower one is printed as the
-- character of that code.
pub shown-value :
    (bits : ℕ) (t : RollingTime)
    → t.time < 2 ^ 64
    → (8 < bits → IsNumeral (shown bits t) × (value (shown bits t) ≡ t.time))
      × (bits ≤ 8 → shown bits t ≡ t.time ∷ [])
unfolding shown type_bits
shown-value bits t small = (
  λ wide. ground (arith, unsigned-IsNumeral t.time, value-unsigned t.time small),
  λ narrow. ground arith,
)
