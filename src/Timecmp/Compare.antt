-- ===== src/Timecmp/Compare.antt =====
-- timecmp/timecmp.h: which masks are accepted, and what the comparisons say of two timestamps.
use native.Mathlib.Nat.{
  pow-suc, pow-le-pow_right, mod_self, div-add-mod', mod-eq_of_lt, mod-lt, mod-add-mod, mod-mod,
}
use tripping_robot.Prelude.{ℕ, suc, ◌+◌, ◌-◌, ◌*◌, ◌/◌, ◌%◌, ◌^◌, ◌≤◌, ◌<◌, bit_and}
use tripping_robot.Prelude.{
  ◌≡◌, subst, ◌&&◌, sym, ap, ap₂, ◌∙◌, ◌↔◌, ◌⊎◌, inl, inr, Bool, true, false,
}
use tripping_robot.Prelude.{Option, some, arith, dec_lt, ltb}
use tripping_robot.Prelude.{add_word, sub_word}
use tripping_robot.Prelude.Bits.{and-mask, and-bit, and_pred_pow, power_iff, zero-and}
use tripping_robot.Prelude.Wrap.{
  gap, add-sub_word, gap-gap, gap_steps, gap-lt, pow_pos, steps_unique,
}
use tripping_robot.Timecmp.{mask_msb, is_after, is_before, is_after_eq, is_before_eq}

-- The mask of a timer of `suc j` bits.
abbrev pub mask_of : ℕ → ℕ
mask_of j = 2 ^ suc j - 1

-- One more than a mask of ones has none of its digits, also where the sum wraps to 0.
next_and : (w k mask : ℕ) → mask < 2 ^ w → mask + 1 ≡ 2 ^ k → bit_and (add_word w mask 1) mask ≡ 0
next_and w k mask h e = elim (dec_lt (mask + 1) (2 ^ w)) [
  | yes small ↦
      let same : mask ≡ 2 ^ k - 1 = omega arith in
      ap (λ t. bit_and t mask) (mod-eq_of_lt small ∙ e) ∙ ap (bit_and (2 ^ k)) same ∙ and_pred_pow k
  | no large ↦
      let full : mask + 1 ≡ 2 ^ w = omega arith in
      ap (λ t. bit_and (t % 2 ^ w) mask) full
      ∙ ap (λ t. bit_and t mask) (mod_self (2 ^ w))
      ∙ zero-and mask
]

pub mask_msb-mask_of : (w j : ℕ) → suc j ≤ w → mask_msb w (mask_of j) ≡ some (2 ^ j)
unfolding mask_msb
mask_msb-mask_of w j h =
    let wide : 2 ^ suc j ≤ 2 ^ w = pow-le-pow_right (omega arith) h in
    rw
      (next_and w (suc j) (mask_of j) (omega (arith, pow_pos (suc j)))
        (omega (arith, pow_pos (suc j))))
      (ap some (half_turn ∙ mod-eq_of_lt (omega (arith, pow-suc 2 j, pow_pos j))))
  where
    half_turn : add_word w (mask_of j / 2) 1 ≡ 2 ^ j % 2 ^ w
    half_turn = ap (λ t. t % 2 ^ w) (omega (arith, pow-suc 2 j, pow_pos j))

-- The mask is accepted exactly when it is one less than a power of two; otherwise the program
-- aborts.
pub mask_msb_iff :
    (w mask : ℕ)
    → mask < 2 ^ w
    → ((m : ℕ) × (mask_msb w mask ≡ some m)) ↔ ((k : ℕ) × (mask + 1 ≡ 2 ^ k))
unfolding mask_msb
mask_msb_iff w mask h = (
  λ (m, e). accepted (ground arith),
  λ (k, e). (add_word w (mask / 2) 1, rw (next_and w k mask h e)),
)
  where
    accepted : bit_and (add_word w mask 1) mask ≡ 0 → (k : ℕ) × (mask + 1 ≡ 2 ^ k)
    accepted z = elim (dec_lt (mask + 1) (2 ^ w)) [
      | yes small ↦ (power_iff (mask + 1) (omega arith)).0 (ground (arith, mod-eq_of_lt small))
      | no large ↦ (w, omega arith)
    ]

-- The digit of weight 2 ^ j tells the upper from the lower half of a turn.
half_digit :
    (j x b : ℕ)
    → b < 2
    → b * 2 ^ j ≤ x % 2 ^ suc j
    → x % 2 ^ suc j < b * 2 ^ j + 2 ^ j
    → bit_and x (2 ^ j) ≡ b * 2 ^ j
half_digit j x b small lo hi =
    subst (λ t. bit_and t (2 ^ j) ≡ b * 2 ^ j) whole
      (and-bit j (x / 2 ^ suc j) b (x % 2 ^ suc j - b * 2 ^ j) small (omega arith))
  where
    whole : (x / 2 ^ suc j * 2 + b) * 2 ^ j + (x % 2 ^ suc j - b * 2 ^ j) ≡ x
    whole =
        omega (arith, div-add-mod' x (2 ^ suc j), ap (λ (t : ℕ). x / 2 ^ suc j * t) (pow-suc 2 j))

and_half :
    (j x : ℕ)
    → ((x % 2 ^ suc j < 2 ^ j) × (bit_and x (2 ^ j) ≡ 0))
      ⊎ ((2 ^ j ≤ x % 2 ^ suc j) × (bit_and x (2 ^ j) ≡ 2 ^ j))
and_half j x = elim (dec_lt (x % 2 ^ suc j) (2 ^ j)) [
  | yes low ↦ inl (low, omega (arith, half_digit j x 0 (omega arith) (omega arith) (omega arith)))
  | no high ↦
      let top : x % 2 ^ suc j < 1 * 2 ^ j + 2 ^ j =
        omega (arith, pow-suc 2 j, mod-lt x (pow_pos (suc j))) in
      inr (omega arith, omega (arith, half_digit j x 1 (omega arith) (omega arith) top))
]

module _ (w j a b : ℕ) (narrow : suc j ≤ w) (ha : a < 2 ^ w) (hb : b < 2 ^ w) where
  is_after-gap :
      is_after w a b (mask_of j)
      ≡ some (ltb 0 (gap w (suc j) a b) && ltb (gap w (suc j) a b) (2 ^ j))
  unfolding is_after
  is_after-gap =
      rw (mask_msb-mask_of w j narrow)
        (rw and-mask (ap some (ground (arith, gap-gap w (suc j) a b narrow ha hb, pow-suc 2 j))))

  is_after_eq-gap : is_after_eq w a b (mask_of j) ≡ some (ltb (gap w (suc j) a b) (2 ^ j))
  unfolding is_after_eq
  is_after_eq-gap =
      rw (mask_msb-mask_of w j narrow)
        (ap some (ground (arith, and_half j (sub_word w a b), pow_pos j)))

  pub gap_of_steps :
      (n : ℕ) → n < 2 ^ suc j → (b + n) % 2 ^ suc j ≡ a % 2 ^ suc j → gap w (suc j) a b ≡ n
  gap_of_steps n small e =
      steps_unique (2 ^ suc j) b (gap w (suc j) a b) n (gap-lt w (suc j) a b narrow ha hb) small
        (gap_steps w (suc j) a b narrow ha hb ∙ sym e)

  -- On two timestamps of a timer of j + 1 bits, `timeIsAfter` returns, and it returns true exactly
  -- when some number of increments, more than none and fewer than half a turn, leads from b to a.
  pub is_after_iff :
      (v : Bool) × (is_after w a b (mask_of j) ≡ some v)
      × ((v ≡ true) ↔ ((n : ℕ) × (0 < n) × (n < 2 ^ j) × ((b + n) % 2 ^ suc j ≡ a % 2 ^ suc j)))
  is_after_iff = (
    ltb 0 (gap w (suc j) a b) && ltb (gap w (suc j) a b) (2 ^ j),
    is_after-gap,
    (
      λ e. (gap w (suc j) a b, ground arith, ground arith, gap_steps w (suc j) a b narrow ha hb),
      λ (n, pos, small, e). rw (gap_of_steps n (omega (arith, pow-suc 2 j)) e) (ground arith),
    ),
  )

  -- `timeIsAfterEq` returns, and it returns true exactly when some number of increments below half
  -- a turn, possibly none, leads from b to a.
  pub is_after_eq_iff :
      (v : Bool) × (is_after_eq w a b (mask_of j) ≡ some v)
      × ((v ≡ true) ↔ ((n : ℕ) × (n < 2 ^ j) × ((b + n) % 2 ^ suc j ≡ a % 2 ^ suc j)))
  is_after_eq_iff = (
    ltb (gap w (suc j) a b) (2 ^ j),
    is_after_eq-gap,
    (
      λ e. (gap w (suc j) a b, ground arith, gap_steps w (suc j) a b narrow ha hb),
      λ (n, small, e). rw (gap_of_steps n (omega (arith, pow-suc 2 j)) e) (ground arith),
    ),
  )

-- The values that the four comparisons return, in the order after, before, after or equal, before
-- or equal.
abbrev pub compare_all : ℕ → ℕ → ℕ → ℕ → Option Bool × Option Bool × Option Bool × Option Bool
compare_all w a b max =
    (is_after w a b max, is_before w a b max, is_after_eq w a b max, is_before_eq w a b max)

-- The same values by the increments up (from b to a) and down (from a to b).
abbrev pub table : ℕ → ℕ → ℕ → Option Bool × Option Bool × Option Bool × Option Bool
table half up down = (
  some (ltb 0 up && ltb up half),
  some (ltb 0 down && ltb down half),
  some (ltb up half),
  some (ltb down half),
)

module _ (w j a b : ℕ) (narrow : suc j ≤ w) (ha : a < 2 ^ w) (hb : b < 2 ^ w) where
  pub compare_all-table :
      compare_all w a b (mask_of j) ≡ table (2 ^ j) (gap w (suc j) a b) (gap w (suc j) b a)
  unfolding is_before is_before_eq
  compare_all-table = λ i. (
    is_after-gap w j a b narrow ha hb i,
    is_after-gap w j b a narrow hb ha i,
    is_after_eq-gap w j a b narrow ha hb i,
    is_after_eq-gap w j b a narrow hb ha i,
  )

  same_timer : gap w (suc j) a b ≡ 0 → a % 2 ^ suc j ≡ b % 2 ^ suc j
  same_timer e =
      sym (gap_steps w (suc j) a b narrow ha hb)
      ∙ ap (λ t. (b + t) % 2 ^ suc j) e
      ∙ ap (λ t. t % 2 ^ suc j) (omega arith)

  full_turn :
      ((gap w (suc j) a b ≡ 0) × (gap w (suc j) b a ≡ 0))
      ⊎ (gap w (suc j) a b + gap w (suc j) b a ≡ 2 ^ suc j)
  full_turn = gap-gap w (suc j) a b narrow ha hb

  -- Two timestamps of a timer of j + 1 bits are in one of four cases: equal on the timer, the one
  -- ahead by less than half a turn, the other so, or half a turn apart. The four comparisons tell
  -- the cases apart, and all of them are false in the last one.
  pub compare_all_cases :
      ((a % 2 ^ suc j ≡ b % 2 ^ suc j)
        × (compare_all w a b (mask_of j) ≡ (some false, some false, some true, some true)))
      ⊎ ((n : ℕ) × (0 < n)
          × (n < 2 ^ j)
          × ((b + n) % 2 ^ suc j ≡ a % 2 ^ suc j)
          × (compare_all w a b (mask_of j) ≡ (some true, some false, some true, some false)))
      ⊎ ((n : ℕ) × (0 < n)
          × (n < 2 ^ j)
          × ((a + n) % 2 ^ suc j ≡ b % 2 ^ suc j)
          × (compare_all w a b (mask_of j) ≡ (some false, some true, some false, some true)))
      ⊎ (((b + 2 ^ j) % 2 ^ suc j ≡ a % 2 ^ suc j)
          × (compare_all w a b (mask_of j) ≡ (some false, some false, some false, some false)))
  compare_all_cases = rw compare_all-table (elim (dec_lt 0 (gap w (suc j) a b)) [
    | no same ↦ inl (same_timer (omega arith), ground (arith, full_turn, pow_pos j))
    | yes moved ↦ elim (dec_lt (gap w (suc j) a b) (2 ^ j)) [
      | yes near ↦ inr (
          inl (
            gap w (suc j) a b,
            moved,
            near,
            gap_steps w (suc j) a b narrow ha hb,
            ground (arith, full_turn, pow-suc 2 j),
          ))
      | no far ↦ elim (dec_lt (2 ^ j) (gap w (suc j) a b)) [
        | yes beyond ↦ inr (
            inr (
              inl (
                gap w (suc j) b a,
                omega (arith, full_turn, gap-lt w (suc j) a b narrow ha hb),
                omega (arith, full_turn, pow-suc 2 j),
                gap_steps w (suc j) b a narrow hb ha,
                ground (arith, full_turn, pow-suc 2 j, gap-lt w (suc j) a b narrow ha hb),
              )))
        | no other ↦
            let half : gap w (suc j) a b ≡ 2 ^ j = omega arith in
            inr (
              inr (
                inr (
                  subst (λ t. (b + t) % 2 ^ suc j ≡ a % 2 ^ suc j) half
                      (gap_steps w (suc j) a b narrow ha hb),
                  ground (arith, full_turn, pow-suc 2 j),
                )))
      ]
    ]
  ])

-- The width of the words makes no difference to timestamps that fit both.
pub compare_all-width :
    (v w j a b : ℕ)
    → suc j ≤ v
    → suc j ≤ w
    → a < 2 ^ v
    → b < 2 ^ v
    → a < 2 ^ w
    → b < 2 ^ w
    → compare_all v a b (mask_of j) ≡ compare_all w a b (mask_of j)
compare_all-width v w j a b hv hw av bv aw bw =
    compare_all-table v j a b hv av bv
    ∙ ap₂ (table (2 ^ j))
        (gap_of_steps v j a b hv av bv (gap w (suc j) a b) (gap-lt w (suc j) a b hw aw bw)
          (gap_steps w (suc j) a b hw aw bw))
        (gap_of_steps v j b a hv bv av (gap w (suc j) b a) (gap-lt w (suc j) b a hw bw aw)
          (gap_steps w (suc j) b a hw bw aw))
    ∙ sym (compare_all-table w j a b hw aw bw)

-- Words moved on by the same amount keep their difference.
sub-add-add :
    (w a b c : ℕ)
    → a < 2 ^ w
    → b < 2 ^ w
    → sub_word w (add_word w b c) (add_word w a c) ≡ sub_word w b a
sub-add-add w a b c ha hb =
    steps_unique (2 ^ w) (a + c) (sub_word w (add_word w b c) (add_word w a c)) (sub_word w b a)
      (mod-lt _ (pow_pos w)) (mod-lt _ (pow_pos w)) (moved ∙ sym still)
  where
    moved : (a + c + sub_word w (add_word w b c) (add_word w a c)) % 2 ^ w ≡ (b + c) % 2 ^ w
    moved =
        sym (mod-add-mod (a + c) (2 ^ w) (sub_word w (add_word w b c) (add_word w a c)))
        ∙ add-sub_word w (add_word w b c) (add_word w a c) (mod-lt _ (pow_pos w))
        ∙ mod-mod (b + c) (2 ^ w)

    still : (a + c + sub_word w b a) % 2 ^ w ≡ (b + c) % 2 ^ w
    still =
        ap (λ t. t % 2 ^ w) {x = a + c + sub_word w b a} {y = a + sub_word w b a + c} (omega arith)
        ∙ sym (mod-add-mod (a + sub_word w b a) (2 ^ w) c)
        ∙ ap (λ t. (t + c) % 2 ^ w) (add-sub_word w b a ha)
        ∙ mod-add-mod b (2 ^ w) c

-- A timer that goes on rolls over without changing any comparison.
pub is_after-add :
    (w a b c max : ℕ)
    → a < 2 ^ w
    → b < 2 ^ w
    → is_after w (add_word w a c) (add_word w b c) max ≡ is_after w a b max
unfolding is_after
is_after-add w a b c max ha hb = rw (sub-add-add w a b c ha hb)
