-- ===== src/Timecmp/Timer.antt =====
-- timecmp/timecmp.h and timecmp.hpp: what a timestamp means, a point on a timer of j + 1 bits, whatever
-- else its word holds. The functions compare such points, and `RollingTime` holds one.
pub mod Class
use native.Mathlib.Nat.{ℕ_set, mod-mod, mod-add-mod}
use mathlib.Core.Quot.{Setoid, Quotient, Quotient-set}
use mathlib.Core.Quot.Quotient
use tripping_robot.Prelude.{
  ℕ, suc, ◌+◌, ◌-◌, ◌%◌, ◌^◌, ◌≤◌, ◌<◌, ◌≡◌, refl, sym, ap, ◌∙◌, ◌↔◌, Bool, true, some,
}
use tripping_robot.Timecmp.{is_after}
use tripping_robot.Timecmp.Compare.{mask_of, is_after_iff}

-- Two words are the same on the timer.
abbrev on_timer : ℕ → Setoid {0, 0} ℕ
on_timer j = record {
  r = λ a b. a % 2 ^ suc j ≡ b % 2 ^ suc j;
  iseqv = record { refl = λ a. refl; symm = λ a b. sym; trans = λ a b c p q. p ∙ q };
}

abbrev pub Timer : ℕ → Type 0
Timer j = Quotient (on_timer j)

module _ (j : ℕ) where
  -- The point that a word shows.
  abbrev pub point : ℕ → Timer j
  point a = Quotient.mk (on_timer j) a

  abbrev Timer_set : IsSet (Timer j)
  Timer_set = Quotient-set (on_timer j)

  abbrev pub sound : (a b : ℕ) → a % 2 ^ suc j ≡ b % 2 ^ suc j → point a ≡ point b
  sound a b = Quotient.sound (on_timer j)

  pub exact : (a b : ℕ) → point a ≡ point b → a % 2 ^ suc j ≡ b % 2 ^ suc j
  exact a b = Quotient.exact (on_timer j) (λ a b. hlevel ℕ_set)

  abbrev after_ticks-same :
      (n a b : ℕ) → a % 2 ^ suc j ≡ b % 2 ^ suc j → (a + n) % 2 ^ suc j ≡ (b + n) % 2 ^ suc j
  after_ticks-same n a b p =
      sym (mod-add-mod a (2 ^ suc j) n)
      ∙ ap (λ t. (t + n) % 2 ^ suc j) p
      ∙ mod-add-mod b (2 ^ suc j) n

  -- The point after n increments.
  pub after_ticks : ℕ → Timer j → Timer j
  after_ticks n =
      Quotient.lift (on_timer j) Timer_set (λ a. point (a + n))
        (λ a b p. sound (a + n) (b + n) (after_ticks-same n a b p))

  -- One point is ahead of another by more than nothing and less than half a turn.
  abbrev pub IsAhead : Timer j → Timer j → Type 0
  IsAhead x y = (n : ℕ) × (0 < n) × (n < 2 ^ j) × (after_ticks n y ≡ x)

  -- The smallest word that shows a point.
  pub value : Timer j → ℕ
  value = Quotient.lift (on_timer j) ℕ_set (λ a. a % 2 ^ suc j) (λ a b p. p)

  pub after_ticks-point : (n a : ℕ) → after_ticks n (point a) ≡ point (a + n)
  unfolding after_ticks Quotient.lift
  after_ticks-point n a = refl

  -- The smallest word shows the point, and assignment to a `RollingTime` leaves it.
  point-value : (q : Timer j) → point (value q) ≡ q
  unfolding value Quotient.lift
  point-value =
      Quotient.ind (on_timer j) (λ q. Timer_set _ _)
        (λ a. sound (a % 2 ^ suc j) a (mod-mod a (2 ^ suc j)))

  pub value-point : (a : ℕ) → value (point a) ≡ a % 2 ^ suc j
  unfolding value Quotient.lift
  value-point a = refl

  -- On timestamps of w bits, at least as many as the timer has, `timeIsAfter` returns, and returns true
  -- exactly when the point of the first timestamp is ahead of that of the second.
  pub is_after-IsAhead :
      (w a b : ℕ)
      → suc j ≤ w
      → a < 2 ^ w
      → b < 2 ^ w
      → (v : Bool) × (is_after w a b (mask_of j) ≡ some v)
        × ((v ≡ true) ↔ IsAhead (point a) (point b))
  is_after-IsAhead w a b narrow ha hb =
      let (v, returns, when) = is_after_iff w j a b narrow ha hb in
      (
        v,
        returns,
        (
          λ e.
              let (n, pos, less, at) = when.0 e in
              (n, pos, less, after_ticks-point n b ∙ sound (b + n) a at),
          λ (n, pos, less, at).
              when.1 (n, pos, less, exact (b + n) a (sym (after_ticks-point n b) ∙ at)),
        ),
      )
