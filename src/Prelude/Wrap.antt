-- ===== src/Prelude/Wrap.antt =====
-- Counters that roll over: how many increments lead from one value to another, modulo 2 ^ k, when
-- the values are kept in words of w bits.
use Prim.Native.Nat.{ℕ, zero, suc, ◌+◌, ◌-◌, ◌*◌, ◌/◌, ◌%◌, ◌^◌, ◌≤◌, ◌<◌}
use mathlib.Core.Logic.{◌≢◌, ◌⊎◌, inl, inr}
use mathlib.Core.Path.{◌≡◌, refl, ap, sym, ◌∙◌}
use native.Mathlib.Nat.{pow-suc, one-le-pow, mod-lt, mod-eq_of_lt, mod-eq-sub-mod, mod-add-mod}
use native.Mathlib.Nat.{add-mod-mod, add-mod_right, mul-add-mod_self_right, div-add-mod'}
use native.Mathlib.Decide.{dec_lt}
use native.Mathlib.Omega.{arith}
use tripping_robot.Prelude.Words.{add_word, sub_word}

pub pow_split : (k w : ℕ) → k ≤ w → (c : ℕ) × (2 ^ w ≡ c * 2 ^ k)
pow_split zero zero h = (1, refl)
pow_split (suc k) zero h = absurd (omega arith)
pow_split k (suc w) h = elim (dec_lt w k) [
  | yes top ↦ (1, ground arith)
  | no below ↦ let (c, e) = pow_split k w (omega arith) in (2 * c, omega (arith, pow-suc 2 w))
]

pub pow_pos : (k : ℕ) → 0 < 2 ^ k
pow_pos k = one-le-pow k 2 (omega arith)

pub mod-mod-pow : (k w x : ℕ) → k ≤ w → x % 2 ^ w % 2 ^ k ≡ x % 2 ^ k
mod-mod-pow k w x h =
    let (c, e) = pow_split k w h in
    rw e (
      sym (mul-add-mod_self_right (x / (c * 2 ^ k) * c) (2 ^ k) (x % (c * 2 ^ k)))
      ∙ ap (λ t. t % 2 ^ k) (omega (arith, div-add-mod' x (c * 2 ^ k))))

-- A remainder of a sum of two numbers below m.
pub mod_sum_cases :
    (m r x : ℕ) → r < m → x < m → ((r + x < m) × ((r + x) % m ≡ r + x)) ⊎ ((r + x) % m + m ≡ r + x)
mod_sum_cases m r x hr hx = elim (dec_lt (r + x) m) [
  | yes below ↦ inl (below, mod-eq_of_lt below)
  | no over ↦ inr (
      omega (
        arith,
        mod-eq-sub-mod {n = r + x} {m = m} (omega arith),
        mod-eq_of_lt {n = r + x - m} {m = m} (omega arith),
      ))
]

-- Fewer than m increments are told apart by where they lead.
pub steps_unique : (m b x y : ℕ) → x < m → y < m → (b + x) % m ≡ (b + y) % m → x ≡ y
steps_unique m b x y hx hy e = omega (
  arith,
  mod-add-mod b m x,
  mod-add-mod b m y,
  mod_sum_cases m (b % m) x (mod-lt b (omega arith)) hx,
  mod_sum_cases m (b % m) y (mod-lt b (omega arith)) hy,
)

-- The same summand on both sides makes no difference.
pub mod_cancel : (m a b c : ℕ) → 0 < m → (c + a) % m ≡ (c + b) % m → a % m ≡ b % m
mod_cancel m a b c pos e =
    steps_unique m c (a % m) (b % m) (mod-lt a pos) (mod-lt b pos)
      (add-mod-mod c a m ∙ e ∙ sym (add-mod-mod c b m))

-- One step before a counter of w bits moved on is the counter.
pub step_back :
    (k w a next : ℕ)
    → k ≤ w
    → (1 + a) % 2 ^ k ≡ add_word w next 1 % 2 ^ k
    → a % 2 ^ k ≡ next % 2 ^ k
step_back k w a next narrow e = mod_cancel (2 ^ k) a next 1 (pow_pos k) (
    e
    ∙ mod-mod-pow k w (next + 1) narrow
    ∙ ap (λ t. t % 2 ^ k) {x = next + 1} {y = 1 + next} (omega arith))

-- Fewer steps than a round, but some, lead elsewhere.
pub steps_elsewhere :
    (m i j next : ℕ) → j < m → suc i < m → (j + (i + 1)) % m ≡ next % m → next % m ≢ j
steps_elsewhere m i j next hj hi same q = absurd (
    omega (
      arith,
      steps_unique m j (i + 1) 0 (omega arith) (omega arith)
          (same ∙ q ∙ sym (ap (λ t. t % m) {x = j + 0} {y = j} (omega arith) ∙ mod-eq_of_lt hj)),
    ))

-- Subtraction of words counts the increments from b up to a.
pub add-sub_word : (w a b : ℕ) → b < 2 ^ w → (b + sub_word w a b) % 2 ^ w ≡ a % 2 ^ w
add-sub_word w a b hb =
    add-mod-mod b (a + 2 ^ w - b) (2 ^ w)
    ∙ ap (λ t. t % 2 ^ w) {x = b + (a + 2 ^ w - b)} {y = a + 2 ^ w} (omega arith)
    ∙ add-mod_right a (2 ^ w)

pub sub_word_of_le : (w a b : ℕ) → b ≤ a → a < 2 ^ w → sub_word w a b ≡ a - b
sub_word_of_le w a b h small =
    ap (λ t. t % 2 ^ w) {x = a + 2 ^ w - b} {y = a - b + 2 ^ w} (omega arith)
    ∙ add-mod_right (a - b) (2 ^ w)
    ∙ mod-eq_of_lt (omega arith)

-- The same modulo 2 ^ k.
abbrev pub gap : ℕ → ℕ → ℕ → ℕ → ℕ
gap w k a b = sub_word w a b % 2 ^ k

module _ (w k a b : ℕ) (narrow : k ≤ w) (ha : a < 2 ^ w) (hb : b < 2 ^ w) where
  pub gap_steps : (b + gap w k a b) % 2 ^ k ≡ a % 2 ^ k
  gap_steps =
      add-mod-mod b (sub_word w a b) (2 ^ k)
      ∙ sym (mod-mod-pow k w (b + sub_word w a b) narrow)
      ∙ ap (λ t. t % 2 ^ k) (add-sub_word w a b hb)
      ∙ mod-mod-pow k w a narrow

  pub gap-lt : gap w k a b < 2 ^ k
  gap-lt = mod-lt _ (pow_pos k)

-- The increments from b up to a and those from a up to b make a full turn, or none.
pub gap-gap :
    (w k a b : ℕ)
    → k ≤ w
    → a < 2 ^ w
    → b < 2 ^ w
    → ((gap w k a b ≡ 0) × (gap w k b a ≡ 0)) ⊎ (gap w k a b + gap w k b a ≡ 2 ^ k)
gap-gap w k a b narrow ha hb = omega (
  arith,
  gap_steps w k a b narrow ha hb,
  gap_steps w k b a narrow hb ha,
  mod-add-mod b (2 ^ k) (gap w k a b),
  mod-add-mod a (2 ^ k) (gap w k b a),
  mod_sum_cases (2 ^ k) (b % 2 ^ k) (gap w k a b) (mod-lt b (pow_pos k))
      (gap-lt w k a b narrow ha hb),
  mod_sum_cases (2 ^ k) (a % 2 ^ k) (gap w k b a) (mod-lt a (pow_pos k))
      (gap-lt w k b a narrow hb ha),
)
