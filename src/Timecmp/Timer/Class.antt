-- ===== src/Timecmp/Timer/Class.antt =====
-- timecmp/timecmp.hpp: `RollingTime` holds a point on the timer, and its operators are those of points.
use native.Mathlib.Nat.{mod-mod}
use mathlib.Core.Option.{some-injective}
use tripping_robot.Prelude.{ℕ, suc, ◌+◌, ◌%◌, ◌^◌, ◌≤◌, ◌<◌, ◌≡◌, sym, ap, ◌∙◌, ◌↔◌, true, arith}
use tripping_robot.Timecmp.Compare.{is_after_eq_iff}
use tripping_robot.Timecmp.Rolling.{type_bits, RollingTime, assign, add, sub, gt, lt, ge, le, get}
use tripping_robot.Timecmp.Rolling.Laws.{sizes, update_value, rolling-compare_all}
use tripping_robot.Timecmp.Timer.{
  Timer, point, after_ticks, value, IsAhead, sound, exact, after_ticks-point, value-point,
  is_after-IsAhead,
}

-- One point is the other, or ahead of it by less than half a turn.
abbrev pub IsNotBehind : (j : ℕ) → Timer j → Timer j → Type 0
IsNotBehind j x y = (n : ℕ) × (n < 2 ^ j) × (after_ticks j n y ≡ x)

module _ (j : ℕ) (h : suc j ≤ 64) (x y : RollingTime) (hx : x.time < 2 ^ type_bits (suc j))
    (hy : y.time < 2 ^ type_bits (suc j)) where
  gt-IsAhead : (gt (suc j) x y ≡ true) ↔ IsAhead j (point j x.time) (point j y.time)
  gt-IsAhead =
      let (v, returns, when) =
        is_after-IsAhead j 64 x.time y.time h (omega (arith, sizes j h))
          (omega (arith, sizes j h)) in
      let same : v ≡ gt (suc j) x y =
        some-injective _ _ (sym returns ∙ ap (λ t. t.0) (rolling-compare_all j h x y hx hy)) in
      (λ e. when.0 (same ∙ e), λ ahead. sym same ∙ when.1 ahead)

  ge-IsNotBehind : (ge (suc j) x y ≡ true) ↔ IsNotBehind j (point j x.time) (point j y.time)
  ge-IsNotBehind =
      let (v, returns, when) =
        is_after_eq_iff 64 j x.time y.time h (omega (arith, sizes j h))
          (omega (arith, sizes j h)) in
      let same : v ≡ ge (suc j) x y =
        some-injective _ _ (sym returns ∙ ap (λ t. t.2) (rolling-compare_all j h x y hx hy)) in
      (
        λ e.
            let (n, less, at) = when.0 (same ∙ e) in
            (n, less, after_ticks-point j n y.time ∙ sound j (y.time + n) x.time at),
        λ (n, less, at).
            sym same
            ∙ when.1
                (n, less, exact j (y.time + n) x.time (sym (after_ticks-point j n y.time) ∙ at)),
      )

-- For every timer of 1 to 64 bits: assignment of a word leaves the smallest word that shows its point;
-- `+=` advances the point, and `-=` leaves the point that is as much behind; `>` and `<` say which
-- point is ahead by less than half a turn, and `>=` and `<=` also hold of one point and itself.
pub rolling-Timer :
    (j t : ℕ) (x y : RollingTime)
    → suc j ≤ 64
    → t < 2 ^ type_bits (suc j)
    → x.time < 2 ^ type_bits (suc j)
    → y.time < 2 ^ type_bits (suc j)
    → (get (assign (suc j) x t) ≡ value j (point j t))
      × (point j (get (add (suc j) x t)) ≡ after_ticks j t (point j x.time))
      × (after_ticks j t (point j (get (sub (suc j) x t))) ≡ point j x.time)
      × ((gt (suc j) x y ≡ true) ↔ IsAhead j (point j x.time) (point j y.time))
      × ((lt (suc j) x y ≡ true) ↔ IsAhead j (point j y.time) (point j x.time))
      × ((ge (suc j) x y ≡ true) ↔ IsNotBehind j (point j x.time) (point j y.time))
      × ((le (suc j) x y ≡ true) ↔ IsNotBehind j (point j y.time) (point j x.time))
unfolding gt lt ge le
rolling-Timer j t x y h ht hx hy =
    let (assigned, added, taken) = update_value j h x t ht hx in
    (
      assigned ∙ sym (value-point j t),
      ap (point j) added
          ∙ sound j ((x.time + t) % 2 ^ suc j) (x.time + t) (mod-mod (x.time + t) (2 ^ suc j))
          ∙ sym (after_ticks-point j t x.time),
      after_ticks-point j t (get (sub (suc j) x t))
          ∙ sound j (get (sub (suc j) x t) + t) x.time (
              ap (λ r. r % 2 ^ suc j) {x = get (sub (suc j) x t) + t}
                {y = t + get (sub (suc j) x t)} (omega arith)
              ∙ taken),
      gt-IsAhead j h x y hx hy,
      gt-IsAhead j h y x hy hx,
      ge-IsNotBehind j h x y hx hy,
      ge-IsNotBehind j h y x hy hx,
    )
