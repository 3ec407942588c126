-- ===== src/Runtrace/Text/Width.antt =====
-- runtrace/runtrace.c, the text of one record: the worst case that `print_trace_stack` allows for.
use tripping_robot.Runtrace.Text.{plain}
use tripping_robot.Prelude.{ℕ, suc, ◌+◌, ◌-◌, ◌/◌, ◌%◌, ◌^◌, ◌≤◌, ◌<◌}
use tripping_robot.Prelude.{Bool, true, false, [], ◌∷◌, ◌++◌, arith, length, length-append}
use tripping_robot.Prelude.{to_word, sub_word, if◌then◌else◌, ◌==◌, Bool-cases, inl, inr}
use tripping_robot.Runtrace.{Text, msg_max}
use tripping_robot.Runtrace.History.{Entry, entry_line, entry_time}
use tripping_robot.Runtrace.Print.{needed_bufsize}
use tripping_robot.Prelude.Decimal.{unsigned, signed, pad, length-unsigned, length-pad}
use tripping_robot.Runtrace.Text.{
  stamp, place, print_time, print_ms, print_diff, print_src, print_line,
}

length-signed : (plus : Bool) (n : ℕ) → n < 2 ^ 32 → length (signed plus n) ≤ 11
unfolding signed
length-signed plus n h =
    ground (arith, length-unsigned 9 n (omega arith), length-unsigned 9 (2 ^ 32 - n))

length-if :
    (b : Bool) (n : ℕ) (t u : Text) → length t ≤ n → length u ≤ n → length (if b then t else u) ≤ n
length-if true n t u ht hu = ht
length-if false n t u ht hu = hu

-- `%*u.%0*u `
abbrev point : ℕ → ℕ → ℕ → Text
point digits whole part =
    pad 6 b' ' (unsigned (to_word 32 whole))
    ++ b'.' ∷ pad digits b'0' (unsigned (to_word 32 part))
    ++ b' ' ∷ []

length-point :
    (d whole part : ℕ) → d < 10 → part < 10 ^ suc d → length (point (suc d) whole part) ≤ suc d + 12
length-point d whole part hd hp = omega (
  arith,
  length-append
      (pad 6 b' ' (unsigned (to_word 32 whole))
        ++ b'.' ∷ pad (suc d) b'0' (unsigned (to_word 32 part)))
      (b' ' ∷ []),
  length-append (pad 6 b' ' (unsigned (to_word 32 whole)))
      (b'.' ∷ pad (suc d) b'0' (unsigned (to_word 32 part))),
  length-pad 6 b' ' 10 (unsigned (to_word 32 whole)) (length-unsigned 9 _ (omega arith)),
  length-pad (suc d) b'0' (suc d) (unsigned (to_word 32 part))
      (length-unsigned d (to_word 32 part) (below d part hp)),
)
  where
    below : (d part : ℕ) → part < 10 ^ suc d → to_word 32 part < 10 ^ suc d
    below d part h = omega arith

length-diff :
    (width diff : ℕ)
    → width ≤ 11
    → diff < 2 ^ 32
    → length (pad width b' ' (signed true diff) ++ b' ' ∷ []) ≤ 12
length-diff width diff hw h = omega (
  arith,
  length-append (pad width b' ' (signed true diff)) (b' ' ∷ []),
  length-pad width b' ' 11 (signed true diff) (length-signed true diff h),
)

length-stamp : (flags time diff : ℕ) → diff < 2 ^ 32 → length (stamp (plain flags) time diff) ≤ 30
unfolding stamp
length-stamp flags time diff h = omega (
  arith,
  length-append
      (if print_time flags
        then (if print_ms flags
            then point 3 (time / 1000) (time % 1000)
            else point 6 (time / 1000000) (time % 1000000))
        else [])
      (if print_diff flags
        then pad (if print_ms flags then 3 else 6) b' ' (signed true diff) ++ b' ' ∷ []
        else []),
  length-if (print_time flags) 18 _ []
      (length-if (print_ms flags) 18 (point 3 (time / 1000) (time % 1000))
        (point 6 (time / 1000000) (time % 1000000))
        (omega (arith, length-point 2 (time / 1000) (time % 1000) (omega arith) (omega arith)))
        (omega
          (arith, length-point 5 (time / 1000000) (time % 1000000) (omega arith) (omega arith))))
      (omega arith),
  length-if (print_diff flags) 12 _ []
      (length-diff (if print_ms flags then 3 else 6) diff (ground arith) h) (omega arith),
)

length-place :
    (flags : ℕ) (src : Text) (line : ℕ)
    → line < 2 ^ 32
    → length (place (plain flags) src line) ≤ length src + 13
unfolding place
length-place flags src line h = omega (
  arith,
  length-append (if print_src flags then src ++ b' ' ∷ [] else [])
      (if print_line flags then pad 5 b' ' (signed false line) ++ b' ' ∷ [] else []),
  length-if (print_src flags) (length src + 1) (src ++ b' ' ∷ []) []
      (omega (arith, length-append src (b' ' ∷ []))) (omega arith),
  length-if (print_line flags) 12 (pad 5 b' ' (signed false line) ++ b' ' ∷ []) []
      (omega (
        arith,
        length-append (pad 5 b' ' (signed false line)) (b' ' ∷ []),
        length-pad 5 b' ' 11 (signed false line) (length-signed false line h),
      ))
      (omega arith),
)

diff_word : (time prev : ℕ) → (if prev == 0 then 0 else to_word 32 (sub_word 64 time prev)) < 2 ^ 32
diff_word time prev = elim (Bool-cases (prev == 0)) [
  | inl first ↦ rw first (omega arith)
  | inr later ↦ rw later (omega arith)
]

-- A line of an entry whose source has at most 16 characters, whose message has fewer than 200 and
-- whose line number is an `int`, is shorter than the 260 bytes that `print_trace_stack` allows for one
-- record, whatever the flags and the times are.
pub length-entry_line :
    (flags : ℕ) (e : Entry) (msg : Text) (prev : ℕ)
    → length e.src ≤ 16
    → length msg < msg_max
    → e.line < 2 ^ 32
    → length (entry_line (plain flags) e msg prev) < needed_bufsize
unfolding entry_line
length-entry_line flags e msg prev hs hm hl =
    let time = entry_time (plain flags) e in
    let diff = if prev == 0 then 0 else to_word 32 (sub_word 64 time prev) in
    omega (
      arith,
      length-append (stamp (plain flags) time diff ++ place (plain flags) e.src e.line ++ msg)
          (b'\n' ∷ []),
      length-append (stamp (plain flags) time diff ++ place (plain flags) e.src e.line) msg,
      length-append (stamp (plain flags) time diff) (place (plain flags) e.src e.line),
      length-append (place (plain flags) e.src e.line ++ msg) (b'\n' ∷ []),
      length-append (stamp (plain flags) time diff)
          (place (plain flags) e.src e.line ++ msg ++ b'\n' ∷ []),
      length-append (place (plain flags) e.src e.line) (msg ++ b'\n' ∷ []),
      length-append msg (b'\n' ∷ []),
      length-stamp flags time diff (diff_word time prev),
      length-place flags e.src e.line hl,
    )
