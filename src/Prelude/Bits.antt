-- ===== src/Prelude/Bits.antt =====
-- `&`, `|` and `^` at variables. The native operations stand for a recursion on binary digits;
-- the fuel of that recursion is dropped here, and each law follows by going from `a / 2` to `a`.
use Prim.Native.Nat.{ℕ, zero, suc, ◌+◌, ◌-◌, ◌*◌, ◌/◌, ◌%◌, ◌^◌, ◌≤◌, ◌<◌, min, max}
use Prim.Native.Nat.{bit_and, bit_or, bit_xor, digits, differ}
use Prim.Native.Nat.{bit_and-bitwise, bit_or-bitwise, bit_xor-bitwise}
use mathlib.Core.Path.{◌≡◌, refl, sym, ap, ◌∙◌}
use mathlib.Core.Logic.{◌↔◌}
use native.Mathlib.Nat.{pow-suc, one-le-pow}
use native.Mathlib.Decide.{ℕ_discrete}
use native.Mathlib.Omega.{arith}

module _ (rest : ℕ → ℕ) (op : ℕ → ℕ → ℕ) where
  -- More fuel than digits makes no difference.
  digits-enough : (a b f g : ℕ) → a ≤ f → a ≤ g → digits rest op f a b ≡ digits rest op g a b
  digits-enough zero b zero zero p q = refl
  digits-enough zero b zero (suc g) p q = refl
  digits-enough zero b (suc f) zero p q = refl
  digits-enough zero b (suc f) (suc g) p q = refl
  digits-enough (suc a) b zero g p q = absurd (omega arith)
  digits-enough (suc a) b (suc f) zero p q = absurd (omega arith)
  digits-enough (suc a) b (suc f) (suc g) p q =
      ap (λ t. t * 2 + op (suc a % 2) (b % 2))
        (digits-enough (suc a / 2) (b / 2) f g (omega arith) (omega arith))

  digits-suc :
      (a b : ℕ)
      → digits rest op (suc a) (suc a) b
        ≡ digits rest op (suc a / 2) (suc a / 2) (b / 2) * 2 + op (suc a % 2) (b % 2)
  digits-suc a b =
      omega (arith, digits-enough (suc a / 2) (b / 2) a (suc a / 2) (omega arith) (omega arith))

-- One digit at a time.
pub and_digit : (a b : ℕ) → bit_and a b ≡ bit_and (a / 2) (b / 2) * 2 + min (a % 2) (b % 2)
and_digit zero b = omega (arith, bit_and-bitwise 0 b, bit_and-bitwise 0 (b / 2))
and_digit (suc a) b = omega (
  arith,
  bit_and-bitwise (suc a) b,
  bit_and-bitwise (suc a / 2) (b / 2),
  digits-suc (λ _. 0) min a b,
)

pub xor_digit : (a b : ℕ) → bit_xor a b ≡ bit_xor (a / 2) (b / 2) * 2 + differ (a % 2) (b % 2)
xor_digit zero b = omega (arith, bit_xor-bitwise 0 b, bit_xor-bitwise 0 (b / 2))
xor_digit (suc a) b = omega (
  arith,
  bit_xor-bitwise (suc a) b,
  bit_xor-bitwise (suc a / 2) (b / 2),
  digits-suc (λ y. y) differ a b,
)

pub or_digit : (a b : ℕ) → bit_or a b ≡ bit_or (a / 2) (b / 2) * 2 + max (a % 2) (b % 2)
or_digit zero b = omega (arith, bit_or-bitwise 0 b, bit_or-bitwise 0 (b / 2))
or_digit (suc a) b = omega (
  arith,
  bit_or-bitwise (suc a) b,
  bit_or-bitwise (suc a / 2) (b / 2),
  digits-suc (λ y. y) max a b,
)

pub zero-and : (b : ℕ) → bit_and 0 b ≡ 0
zero-and b = bit_and-bitwise 0 b

and_zero_upto : (n a : ℕ) → a ≤ n → bit_and a 0 ≡ 0
and_zero_upto n zero h = refl
and_zero_upto zero (suc a) h = absurd (omega arith)
and_zero_upto (suc n) (suc a) h =
    omega (arith, and_digit (suc a) 0, and_zero_upto n (suc a / 2) (omega arith))

pub and-zero : (a : ℕ) → bit_and a 0 ≡ 0
and-zero a = and_zero_upto a a (omega arith)

and_self_upto : (n a : ℕ) → a ≤ n → bit_and a a ≡ a
and_self_upto n zero h = refl
and_self_upto zero (suc a) h = absurd (omega arith)
and_self_upto (suc n) (suc a) h =
    omega (arith, and_digit (suc a) (suc a), and_self_upto n (suc a / 2) (omega arith))

pub and_self : (a : ℕ) → bit_and a a ≡ a
and_self a = and_self_upto a a (omega arith)

double_pow : (q k : ℕ) → q * 2 ^ suc k ≡ 2 * (q * 2 ^ k)
double_pow q k = omega (arith, ap (λ (t : ℕ). q * t) (pow-suc 2 k))

-- A mask of k ones keeps the k low digits.
and_low : (k q r : ℕ) → r < 2 ^ k → bit_and (q * 2 ^ k + r) (2 ^ k - 1) ≡ r
and_low zero q r h = omega (arith, and-zero (q * 1 + r))
and_low (suc k) q r h = ground (
  arith,
  and_digit (q * 2 ^ suc k + r) (2 ^ suc k - 1),
  pow-suc 2 k,
  double_pow q k,
  one-le-pow k 2,
  and_low k q (r / 2) (omega (arith, pow-suc 2 k)),
)

pub and-mask : (k a : ℕ) → bit_and a (2 ^ k - 1) ≡ a % 2 ^ k
and-mask k a = ground (arith, one-le-pow k 2, and_low k (a / 2 ^ k) (a % 2 ^ k))

and_comm_upto : (n a b : ℕ) → a ≤ n → bit_and a b ≡ bit_and b a
and_comm_upto n zero b h = zero-and b ∙ sym (and-zero b)
and_comm_upto zero (suc a) b h = absurd (omega arith)
and_comm_upto (suc n) (suc a) b h = omega (
  arith,
  and_digit (suc a) b,
  and_digit b (suc a),
  and_comm_upto n (suc a / 2) (b / 2) (omega arith),
)

pub and_comm : (a b : ℕ) → bit_and a b ≡ bit_and b a
and_comm a b = and_comm_upto a a b (omega arith)

-- A mask with the one digit 2 ^ k reads the digit b.
pub and-bit :
    (k q b r : ℕ) → b < 2 → r < 2 ^ k → bit_and ((q * 2 + b) * 2 ^ k + r) (2 ^ k) ≡ b * 2 ^ k
and-bit zero q b r hb hr =
    omega (arith, and_digit ((q * 2 + b) * 1 + r) 1, and-zero (((q * 2 + b) * 1 + r) / 2))
and-bit (suc k) q b r hb hr = ground (
  arith,
  and_digit ((q * 2 + b) * 2 ^ suc k + r) (2 ^ suc k),
  pow-suc 2 k,
  double_pow (q * 2 + b) k,
  double_pow b k,
  and-bit k q b (r / 2) hb (omega (arith, pow-suc 2 k)),
)

differ-zero : (x : ℕ) → x < 2 → differ x 0 ≡ x
differ-zero zero h = omega arith
differ-zero (suc zero) h = omega arith
differ-zero (suc (suc x)) h = absurd (omega arith)

xor_zero_upto : (n a : ℕ) → a ≤ n → bit_xor a 0 ≡ a
xor_zero_upto n zero h = refl
xor_zero_upto zero (suc a) h = absurd (omega arith)
xor_zero_upto (suc n) (suc a) h = omega (
  arith,
  xor_digit (suc a) 0,
  differ-zero (suc a % 2) (omega arith),
  xor_zero_upto n (suc a / 2) (omega arith),
)

pub xor-zero : (a : ℕ) → bit_xor a 0 ≡ a
xor-zero a = xor_zero_upto a a (omega arith)

or_zero_upto : (n a : ℕ) → a ≤ n → bit_or a 0 ≡ a
or_zero_upto n zero h = refl
or_zero_upto zero (suc a) h = absurd (omega arith)
or_zero_upto (suc n) (suc a) h =
    omega (arith, or_digit (suc a) 0, or_zero_upto n (suc a / 2) (omega arith))

pub or-zero : (a : ℕ) → bit_or a 0 ≡ a
or-zero a = or_zero_upto a a (omega arith)

-- A field of k digits below another.
pub or_fields : (k q r : ℕ) → r < 2 ^ k → bit_or (q * 2 ^ k) r ≡ q * 2 ^ k + r
or_fields zero q r h = ground (arith, or-zero q)
or_fields (suc k) q r h = ground (
  arith,
  or_digit (q * 2 ^ suc k) r,
  pow-suc 2 k,
  double_pow q k,
  or_fields k q (r / 2) (omega (arith, pow-suc 2 k)),
)

differ_digits : (x y : ℕ) → x < 2 → y < 2 → (differ x y < 2) × (differ (differ x y) y ≡ x)
differ_digits zero zero hx hy = omega arith
differ_digits zero (suc zero) hx hy = omega arith
differ_digits (suc zero) zero hx hy = omega arith
differ_digits (suc zero) (suc zero) hx hy = omega arith
differ_digits (suc (suc x)) y hx hy = absurd (omega arith)
differ_digits zero (suc (suc y)) hx hy = absurd (omega arith)
differ_digits (suc zero) (suc (suc y)) hx hy = absurd (omega arith)

xor_twice_upto : (n a b : ℕ) → a ≤ n → b ≤ n → bit_xor (bit_xor a b) b ≡ a
xor_twice_upto zero zero zero ha hb = refl
xor_twice_upto zero zero (suc b) ha hb = absurd (omega arith)
xor_twice_upto zero (suc a) b ha hb = absurd (omega arith)
xor_twice_upto (suc n) a b ha hb = ground (
  arith,
  xor_digit a b,
  xor_digit (bit_xor a b) b,
  differ_digits (a % 2) (b % 2),
  xor_twice_upto n (a / 2) (b / 2) (omega arith) (omega arith),
)

pub xor-xor : (a b : ℕ) → bit_xor (bit_xor a b) b ≡ a
xor-xor a b = xor_twice_upto (a + b) a b (omega arith) (omega arith)

-- The test for a power of two: `n & (n - 1)` is zero of no other number but 0.
pub and_pred_pow : (k : ℕ) → bit_and (2 ^ k) (2 ^ k - 1) ≡ 0
and_pred_pow k = grind (arith, and-mask k (2 ^ k), one-le-pow k 2)

and_pred_upto : (n a : ℕ) → a ≤ n → 0 < a → bit_and a (a - 1) ≡ 0 → (k : ℕ) × (a ≡ 2 ^ k)
and_pred_upto zero a h p e = absurd (omega arith)
and_pred_upto (suc n) a h p e = elim (ℕ_discrete (a % 2) 0) [
  | yes even ↦
      let (k, half) =
        and_pred_upto n (a / 2) (omega arith) (omega arith) (ground (arith, and_digit a (a - 1))) in
      (suc k, omega (arith, pow-suc 2 k))
  | no odd ↦ (0, ground (arith, and_digit a (a - 1), and_self (a / 2)))
]

pub power_iff : (a : ℕ) → 0 < a → (bit_and a (a - 1) ≡ 0) ↔ ((k : ℕ) × (a ≡ 2 ^ k))
power_iff a p = (and_pred_upto a a (omega arith) p, λ (k, e). rw e (and_pred_pow k))
