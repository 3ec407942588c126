-- ===== src/Timecmp/SelfTest/Class/Passes.antt =====
-- timecmp/test-cpp.cpp: the tables of the test pass for every timer of at least 2 bits.
use native.Mathlib.Nat.{pow-le-pow_right, mod-eq_of_lt}
use mathlib.Core.Option.{some-injective}
use tripping_robot.Prelude.{ℕ, suc, ◌+◌, ◌-◌, ◌/◌, ◌^◌, ◌≤◌, ◌≡◌, refl, sym, ap, ◌∙◌, List, arith}
use tripping_robot.Prelude.{to_word, add_word}
use tripping_robot.Prelude.Wrap.{pow_pos}
use tripping_robot.Timecmp.Compare.{mask_of, compare_all}
use tripping_robot.Timecmp.Rolling.{
  type_bits, arith_bits, max, construct, gt, lt, ge, le, assign, get,
}
use tripping_robot.Timecmp.Rolling.Laws.{sizes, msb_lem, max_lem, cut, rolling-compare_all}
use tripping_robot.Timecmp.SelfTest.{TestParams, table_of}
use tripping_robot.Timecmp.SelfTest.Passes.{
  note_same, IsMet, AllMet, no_rows, ◌▹◌, table_of-AllMet, AllWithin, table_of-AllWithin,
}
use tripping_robot.Timecmp.SelfTest.Class.{
  test_time_bits, limits_of, prepared, limit_row, limit_rows, test_time_limits,
}

module _ (j : ℕ) (h : suc j ≤ 64) where
  prepared_lem : (p : TestParams) → p.t0 ≤ mask_of j → get (prepared (suc j) p) ≡ p.t0
  unfolding prepared assign
  prepared_lem p small = cut j h p.t0 ∙ mod-eq_of_lt (omega (arith, pow_pos (suc j)))

  operators :
      (p : TestParams)
      → (p.t0 ≤ mask_of j) × (p.t1 ≤ mask_of j)
      → IsMet 64 (mask_of j) p
      → (let x = prepared (suc j) p in
          let y = construct (suc j) p.t1 in
          (gt (suc j) x y ≡ p.after)
          × (lt (suc j) x y ≡ p.before)
          × (ge (suc j) x y ≡ p.after_eq)
          × (le (suc j) x y ≡ p.before_eq))
  unfolding construct
  operators p within met =
      let x = prepared (suc j) p in
      let y = construct (suc j) p.t1 in
      let value = prepared_lem p within.0 in
      let all =
        sym
          (rolling-compare_all j h x y (omega (arith, sizes j h, value)) (omega (arith, sizes j h)))
        ∙ ap (λ t. compare_all 64 t p.t1 (mask_of j)) value
        ∙ met in
      (
        some-injective _ _ (ap (λ t. t.0) all),
        some-injective _ _ (ap (λ t. t.1) all),
        some-injective _ _ (ap (λ t. t.2) all),
        some-injective _ _ (ap (λ t. t.3) all),
      )

  limit_row-met :
      (p : TestParams) (result : ℕ)
      → (p.t0 ≤ mask_of j) × (p.t1 ≤ mask_of j)
      → IsMet 64 (mask_of j) p
      → limit_row (suc j) p result ≡ result
  unfolding limit_row
  limit_row-met p result within met =
      let ops = operators p within met in simp (ops.0, ops.1, ops.2, ops.3, note_same) refl

  limit_rows-met :
      (ps : List TestParams) (result : ℕ)
      → AllWithin (mask_of j) ps
      → AllMet 64 (mask_of j) ps
      → limit_rows (suc j) ps result ≡ result
  unfolding limit_rows
  limit_rows-met _ result within no_rows = refl
  limit_rows-met _ result within (◌▹◌ {p} {ps} met mets) =
      simp (limit_row-met p result within.0 met) (limit_rows-met ps result within.1 mets)

  module _ (two : 1 ≤ j) where
    half : 2 ≤ 2 ^ j
    half = pow-le-pow_right {n = 2} (omega arith) two

    half_mask : mask_of j / 2 ≡ 2 ^ j - 1
    half_mask = omega (arith, sizes j h)

    typed_half : to_word (type_bits (suc j)) (max (suc j) / 2) ≡ mask_of j / 2
    typed_half = rw (max_lem j h) (mod-eq_of_lt (omega (arith, half_mask, sizes j h)))

    typed_max : to_word (type_bits (suc j)) (max (suc j)) ≡ mask_of j
    typed_max = rw (max_lem j h) (mod-eq_of_lt (omega (arith, sizes j h)))

    typed_past :
        (n : ℕ)
        → n ≤ 2
        → to_word (type_bits (suc j)) (add_word (arith_bits (suc j)) (max (suc j) / 2) n)
          ≡ add_word 64 (mask_of j / 2) n
    typed_past n small =
        rw (max_lem j h, half_mask)
          (ap (to_word (type_bits (suc j))) (
              mod-eq_of_lt {n = 2 ^ j - 1 + n} {m = 2 ^ arith_bits (suc j)}
                (omega (arith, half, sizes j h)))
            ∙ mod-eq_of_lt {n = 2 ^ j - 1 + n} (omega (arith, half, sizes j h))
            ∙ sym (mod-eq_of_lt {n = 2 ^ j - 1 + n} (omega (arith, half, sizes j h))))

    -- The table of the class is the one of the functions at 64 bits.
    limits_of-table_of : limits_of (suc j) ≡ table_of 64 (mask_of j)
    unfolding limits_of table_of
    limits_of-table_of =
        simp (typed_half, typed_max, typed_past 1 (omega arith), typed_past 2 (omega arith)) refl

    -- For every timer of 2 to 64 bits the test of the class finds no failure: neither in the constants
    -- nor in the comparisons, nor do the operations that it tries first make a difference.
    pub test_time_limits-passes :
        (test_time_bits (suc j) (2 ^ suc j - 1) (2 ^ j) ≡ 0) × (test_time_limits (suc j) ≡ 0)
    unfolding test_time_bits test_time_limits
    test_time_limits-passes = (
      rw (max_lem j h, msb_lem j h) (ground arith),
      rw limits_of-table_of (
          limit_rows-met (table_of 64 (mask_of j)) 0 (table_of-AllWithin 64 j h two)
            (table_of-AllMet 64 j h two)),
    )
