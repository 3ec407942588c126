-- ===== src/Timecmp/SelfTest/Passes.antt =====
-- timecmp/test-c.c: the table of the test passes.
use native.Mathlib.Nat.{pow-suc, pow-le-pow_right, mod-eq_of_lt, mod_self}
use tripping_robot.Prelude.{ℕ, suc, ◌+◌, ◌-◌, ◌*◌, ◌/◌, ◌%◌, ◌^◌, ◌≤◌, ◌<◌}
use tripping_robot.Prelude.{
  ◌≡◌, refl, sym, ap, ap₂, ◌∙◌, subst, Bool, true, false, some, List, [], ◌∷◌, arith, add_word,
}
use tripping_robot.Prelude.Bits.{or-zero}
use tripping_robot.Prelude.Wrap.{gap}
use tripping_robot.Timecmp.{mask_msb}
use tripping_robot.Timecmp.Compare.{
  mask_of, mask_msb-mask_of, compare_all, table, compare_all-table, gap_of_steps,
}
use tripping_robot.Timecmp.SelfTest.{TestParams, note, table_of, test_row, test_rows, test_masks}

pub note_same : (r : ℕ) (v : Bool) → note r v v ≡ r
note_same r true = or-zero r
note_same r false = or-zero r

-- The comparisons return what the row expects.
abbrev pub IsMet : ℕ → ℕ → TestParams → Type 0
IsMet w mask p =
    compare_all w p.t0 p.t1 mask ≡ (some p.after, some p.before, some p.after_eq, some p.before_eq)

infixr 4 ◌▹◌
pub data AllMet (w mask : ℕ) : List TestParams → Type 0 where
  no_rows : AllMet w mask []
  ◌▹◌ :
      {p : TestParams} {ps : List TestParams}
      → IsMet w mask p
      → AllMet w mask ps
      → AllMet w mask (p ∷ ps)

test_row-met : (w mask r : ℕ) (p : TestParams) → IsMet w mask p → test_row w mask p r ≡ some r
unfolding test_row
test_row-met w mask r p h =
    simp (ap (λ t. t.0) h, ap (λ t. t.1) h, ap (λ t. t.2) h, ap (λ t. t.3) h, note_same) refl

test_rows-met :
    (w mask r : ℕ) (ps : List TestParams) → AllMet w mask ps → test_rows w mask ps r ≡ some r
unfolding test_rows
test_rows-met w mask r _ no_rows = refl
test_rows-met w mask r _ (◌▹◌ {p} {ps} h hs) =
    simp (test_row-met w mask r p h) (test_rows-met w mask r ps hs)

module _ (w j : ℕ) (narrow : suc j ≤ w) (two : 1 ≤ j) where
  -- The sizes in play: half a turn is at least 2.
  record Turn : Type 0 where
    half : 2 ≤ 2 ^ j
    whole : 2 ^ suc j ≡ 2 ^ j * 2
    fits : 2 ^ suc j ≤ 2 ^ w

  turn : Turn
  turn = record {
    half = pow-le-pow_right {n = 2} (omega arith) two;
    whole = pow-suc 2 j;
    fits = pow-le-pow_right (omega arith) narrow;
  }

  abbrev down : ℕ → ℕ
  down x = 2 ^ suc j - x

  round_trip : (x : ℕ) → x < 2 ^ suc j → (x + down x) % 2 ^ suc j ≡ 0 % 2 ^ suc j
  round_trip x lt =
      ap (λ t. t % 2 ^ suc j) {x = x + down x} {y = 2 ^ suc j} (omega arith)
      ∙ mod_self (2 ^ suc j)
      ∙ sym (mod-eq_of_lt (omega (arith, turn)))

  gap_forth : (x : ℕ) → x < 2 ^ suc j → gap w (suc j) x 0 ≡ x
  gap_forth x lt =
      gap_of_steps w j x 0 narrow (omega (arith, turn)) (omega (arith, turn)) x lt
        (ap (λ t. t % 2 ^ suc j) {x = 0 + x} {y = x} (omega arith))

  gap_back : (x : ℕ) → 0 < x → x < 2 ^ suc j → gap w (suc j) 0 x ≡ down x
  gap_back x pos lt =
      gap_of_steps w j 0 x narrow (omega (arith, turn)) (omega (arith, turn)) (down x) (omega arith)
        (round_trip x lt)

  -- A timestamp after 0 on the timer, and 0 against one.
  from_zero :
      (y x : ℕ)
      → y ≡ x
      → 0 < x
      → x < 2 ^ suc j
      → (compare_all w y 0 (mask_of j) ≡ table (2 ^ j) x (down x))
        × (compare_all w 0 y (mask_of j) ≡ table (2 ^ j) (down x) x)
  from_zero y x e pos lt =
      let at : (compare_all w x 0 (mask_of j) ≡ table (2 ^ j) x (down x))
          × (compare_all w 0 x (mask_of j) ≡ table (2 ^ j) (down x) x) =
        (
          compare_all-table w j x 0 narrow (omega (arith, turn)) (omega (arith, turn))
              ∙ ap₂ (table (2 ^ j)) (gap_forth x lt) (gap_back x pos lt),
          compare_all-table w j 0 x narrow (omega (arith, turn)) (omega (arith, turn))
              ∙ ap₂ (table (2 ^ j)) (gap_back x pos lt) (gap_forth x lt),
        ) in
      subst
        (λ t.
          (compare_all w t 0 (mask_of j) ≡ table (2 ^ j) x (down x))
          × (compare_all w 0 t (mask_of j) ≡ table (2 ^ j) (down x) x))
        (sym e) at

  half_mask : mask_of j / 2 ≡ 2 ^ j - 1
  half_mask = omega (arith, turn)

  past_half : (n : ℕ) → n ≤ 2 → add_word w (mask_of j / 2) n ≡ 2 ^ j - 1 + n
  past_half n small = ap (λ t. add_word w t n) half_mask ∙ mod-eq_of_lt (omega (arith, turn))

  zero_row : compare_all w 0 0 (mask_of j) ≡ table (2 ^ j) 0 0
  zero_row =
      compare_all-table w j 0 0 narrow (omega (arith, turn)) (omega (arith, turn))
      ∙ ap₂ (table (2 ^ j)) (gap_forth 0 (omega (arith, turn))) (gap_forth 0 (omega (arith, turn)))

  pub table_of-AllMet : AllMet w (mask_of j) (table_of w (mask_of j))
  unfolding table_of
  table_of-AllMet =
      let near =
        from_zero (mask_of j / 2) (2 ^ j - 1) half_mask (omega (arith, turn))
          (omega (arith, turn)) in
      let middle =
        from_zero (add_word w (mask_of j / 2) 1) (2 ^ j - 1 + 1) (past_half 1 (omega arith))
          (omega (arith, turn)) (omega (arith, turn)) in
      let far =
        from_zero (add_word w (mask_of j / 2) 2) (2 ^ j - 1 + 2) (past_half 2 (omega arith))
          (omega (arith, turn)) (omega (arith, turn)) in
      let last =
        from_zero (mask_of j) (2 ^ suc j - 1) refl (omega (arith, turn)) (omega (arith, turn)) in
      let one = from_zero 1 1 refl (omega (arith, turn)) (omega (arith, turn)) in
      (zero_row ∙ ground (arith, turn))
      ▹ (one.0 ∙ ground (arith, turn))
      ▹ (one.1 ∙ ground (arith, turn))
      ▹ (near.0 ∙ ground (arith, turn))
      ▹ (middle.0 ∙ ground (arith, turn))
      ▹ (far.0 ∙ ground (arith, turn))
      ▹ (last.0 ∙ ground (arith, turn))
      ▹ (near.1 ∙ ground (arith, turn))
      ▹ (middle.1 ∙ ground (arith, turn))
      ▹ (far.1 ∙ ground (arith, turn))
      ▹ (last.1 ∙ ground (arith, turn))
      ▹ no_rows

-- The timestamps of a row are within the mask.
abbrev pub AllWithin : ℕ → List TestParams → Type 0
AllWithin mask [] = Unit {0}
AllWithin mask (p ∷ ps) = ((p.t0 ≤ mask) × (p.t1 ≤ mask)) × AllWithin mask ps

pub table_of-AllWithin :
    (w j : ℕ) → suc j ≤ w → 1 ≤ j → AllWithin (mask_of j) (table_of w (mask_of j))
unfolding table_of
table_of-AllWithin w j narrow two =
    ground (arith, turn w j narrow two, past_half w j narrow two 1, past_half w j narrow two 2)

-- The masks of timers of at least 2 bits, no wider than the word.
abbrev pub AllMasks : ℕ → List ℕ → Type 0
AllMasks w [] = Unit {0}
AllMasks w (mask ∷ masks) =
    ((j : ℕ) × (1 ≤ j) × (suc j ≤ w) × (mask ≡ mask_of j)) × AllMasks w masks

-- The test function finds no failure at the masks of timers of at least 2 bits, no wider than the
-- word, and nothing aborts: it gives back the result so far.
pub test_masks-passes :
    (w : ℕ) (masks : List ℕ) (result : ℕ)
    → AllMasks w masks
    → test_masks w masks result ≡ some result
unfolding test_masks
test_masks-passes w [] result h = refl
test_masks-passes w (mask ∷ masks) result ((j, two, narrow, e), h) =
    let first : mask_msb w mask ≡ some (2 ^ j) = ap (mask_msb w) e ∙ mask_msb-mask_of w j narrow in
    let rows : test_rows w mask (table_of w mask) result ≡ some result =
      test_rows-met w mask result (table_of w mask)
        (subst (λ m. AllMet w m (table_of w m)) (sym e) (table_of-AllMet w j narrow two)) in
    simp (first, rows) (test_masks-passes w masks result h)
