-- ===== src/Runtrace/Device/Write.antt =====
-- runtrace/runtrace.c, the commands written to the character device.
use tripping_robot.Prelude.{ℕ, ◌≡◌, ap, ◌∙◌, arith}
use tripping_robot.Prelude.{
  true, false, none, some, List, ◌++◌, ◌==◌, ltb, if◌then◌else◌, set, length, take, inl, inr,
  Bool-cases,
}
use tripping_robot.Runtrace.{Text, Runtrace, ok}
use tripping_robot.Runtrace.Device.{blocking, starts_with, drop, cdev_write}

starts_with-blocking :
    (d c : ℕ) (ys : List ℕ) → starts_with (blocking d) (blocking c ++ ys) ≡ (d == c)
unfolding starts_with
starts_with-blocking d c ys = elim (Bool-cases (d == c)) [
  | inl same ↦ simp same
  | inr other ↦ simp other
]

-- The bytes that `cdev_write` compares.
abbrev compared : List ℕ → Text → List ℕ
compared garbage buf =
    let len = if ltb 20 (length buf) then 20 else length buf in
    take len buf ++ drop len (set garbage 0 0)

compared-blocking :
    (garbage : List ℕ) (c : ℕ) (rest : Text)
    → (ys : List ℕ) × (compared garbage (blocking c ++ rest) ≡ blocking c ++ ys)
compared-blocking garbage c rest = elim (Bool-cases (ltb 20 (length (blocking c ++ rest)))) [
  | inl long ↦ (take 10 rest ++ drop 20 (set garbage 0 0), simp long)
  | inr short ↦
      (take (length rest) rest ++ drop (length (blocking c ++ rest)) (set garbage 0 0), simp short)
]

starts_with-compared :
    (garbage : List ℕ) (d c : ℕ) (rest : Text)
    → starts_with (blocking d) (compared garbage (blocking c ++ rest)) ≡ (c == d)
starts_with-compared garbage d c rest =
    let (ys, e) = compared-blocking garbage c rest in
    ap (starts_with (blocking d)) e ∙ starts_with-blocking d c ys ∙ ground arith

-- A write of "blocking " and one more character, and of whatever follows, sets the way of reading if
-- the character is 0 or 1, and returns the number of characters written, also of those that were not
-- looked at; with another character it returns -EINVAL and changes nothing. The stack does not matter.
pub cdev_write-command :
    (garbage : List ℕ) (c : ℕ) (rest : Text) (s : Runtrace)
    → cdev_write garbage (blocking c ++ rest) s ≡ (
        if c == 48
        then ok (some (length (blocking c ++ rest))) (record s { cdev_blocking_read = false })
        else if c == 49
        then ok (some (length (blocking c ++ rest))) (record s { cdev_blocking_read = true })
        else ok none s)
unfolding cdev_write
cdev_write-command garbage c rest s =
    let is_0 = starts_with-compared garbage 48 c rest in
    let is_1 = starts_with-compared garbage 49 c rest in
    elim (Bool-cases (c == 48)) [
      | inl zero_written ↦ simp (is_0, zero_written)
      | inr other ↦ elim (Bool-cases (c == 49)) [
        | inl one_written ↦ simp (is_0, is_1, other, one_written)
        | inr neither ↦ simp (is_0, is_1, other, neither)
      ]
    ]
