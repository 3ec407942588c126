-- ===== src/Runtrace/Pool/Refusal.antt =====
-- runtrace/runtrace.c, the sizes that `runtrace_reconfigure` refuses.
use native.Mathlib.Nat.{pow-le-pow_right}
use tripping_robot.Prelude.{ℕ, ◌-◌, ◌^◌, ◌≤◌, ◌<◌, ◌≡◌, ◌≢◌, refl, ap, ◌∙◌}
use tripping_robot.Prelude.{true, false, arith}
use tripping_robot.Prelude.{
  ◌||◌, not, Bool-cases, inl, inr, dec_lt, ℕ_discrete, lt_int, bit_and, sub_word, ◌==◌,
}
use tripping_robot.Prelude.Bits.{power_iff}
use tripping_robot.Runtrace.{kernel, cxx11, builtins, Runtrace, ok, aborted, failure}
use tripping_robot.Runtrace.Pool.{Platform, runtrace_reconfigure}
use tripping_robot.Runtrace.Pool.Reconfigure.{positive}

small_power : (n k : ℕ) → lt_int n 4 ≡ false → n < 2 ^ 32 → n ≡ 2 ^ k → (2 ≤ k) × (k ≤ 30)
small_power n k h word e = (lo, hi)
  where
    lo : 2 ≤ k
    lo = elim (dec_lt k 2) [
      | no l ↦ omega arith
      | yes l ↦
          let few : 2 ^ k ≤ 2 ^ 1 = pow-le-pow_right {n = 2} (omega arith) {j = 1} (omega arith) in
          absurd (ground arith)
    ]

    hi : k ≤ 30
    hi = elim (dec_lt 30 k) [
      | no l ↦ omega arith
      | yes l ↦
          let many : 2 ^ 31 ≤ 2 ^ k = pow-le-pow_right {n = 2} (omega arith) l in
          absurd (ground arith)
    ]

zero_case : (n : ℕ) → lt_int n 4 ≡ false → 0 < n
zero_case n h = ground arith

minus : (n : ℕ) → 0 < n → n < 2 ^ 32 → n - 1 ≡ sub_word 32 n 1
minus n pos word = omega arith

bad_size :
    (n : ℕ)
    → n < 2 ^ 32
    → ((k : ℕ) → 2 ≤ k → k ≤ 30 → n ≢ 2 ^ k)
    → (lt_int n 4 || not (bit_and n (sub_word 32 n 1) == 0)) ≡ true
bad_size n word odd = elim (Bool-cases (lt_int n 4)) [
  | inl small ↦ rw small refl
  | inr big ↦ elim (ℕ_discrete (bit_and n (sub_word 32 n 1)) 0) [
    | no uneven ↦ rw big (ground arith)
    | yes power ↦
        let pos : 0 < n = zero_case n big in
        let (k, e) = (power_iff n pos).0 (ap (bit_and n) (minus n pos word) ∙ power) in
        let bounds = small_power n k big word e in absurd (odd k bounds.0 bounds.1 e)
  ]
]

-- With a number of threads from 1 on, every size that is not 2 ^ k with 2 ≤ k ≤ 30 is refused: the
-- kernel returns -1 and changes nothing, and user space aborts.
pub runtrace_reconfigure-refused :
    (platform : Platform) (threads n : ℕ) (s : Runtrace)
    → 1 ≤ threads
    → threads < 2 ^ 31
    → n < 2 ^ 32
    → ((k : ℕ) → 2 ≤ k → k ≤ 30 → n ≢ 2 ^ k)
    → (runtrace_reconfigure kernel platform threads n s ≡ ok failure s)
      × (runtrace_reconfigure cxx11 platform threads n s ≡ aborted)
      × (runtrace_reconfigure builtins platform threads n s ≡ aborted)
unfolding runtrace_reconfigure
runtrace_reconfigure-refused platform threads n s lo hi word odd =
    rw (positive threads lo hi, bad_size n word odd) (refl, refl, refl)
