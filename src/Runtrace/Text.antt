-- ===== src/Runtrace/Text.antt =====
-- runtrace/runtrace.c: `__print_trace_point`, which prints one tracepoint, and the conversions of
-- `sprintf` that it uses.
pub mod Width
use tripping_robot.Prelude.{ℕ, ◌+◌, ◌*◌, ◌/◌, ◌%◌, bit_and, Bool, true, false, not}
use tripping_robot.Prelude.{Option, none, some, List, [], ◌∷◌, ◌++◌, ◌==◌, if◌then◌else◌}
use tripping_robot.Prelude.{◌>>=◌, sub_word, to_word}
use tripping_robot.Prelude.Decimal.{unsigned, signed, pad}
use tripping_robot.Runtrace.{Build, kernel, cxx11, builtins, Text, Tracept}

-- `%s` of an array: the characters before the first NUL, or nothing if it holds none and the read
-- leaves the array.
unfoldable pub c_string : List ℕ → Option Text
c_string [] = none
c_string (c ∷ cs) = if c == 0 then some [] else (do t ← c_string cs; some (c ∷ t))

-- RT_PRINT_TIME, _DIFF, _LINE, _SRC and _TIME_MS
abbrev pub has_flag : ℕ → ℕ → Bool
has_flag flags f = not (bit_and flags f == 0)

abbrev pub print_time : ℕ → Bool
print_time flags = has_flag flags 0x01

abbrev pub print_diff : ℕ → Bool
print_diff flags = has_flag flags 0x02

abbrev pub print_line : ℕ → Bool
print_line flags = has_flag flags 0x04

abbrev pub print_src : ℕ → Bool
print_src flags = has_flag flags 0x08

abbrev pub print_ms : ℕ → Bool
print_ms flags = has_flag flags 0x10

-- How a record is printed: the flags; what `printk` gets before a record, and the level before each
-- part of it. Both are empty but for the log of the kernel.
pub record Style : Type 0 where
  pub flags : ℕ
  pub opening : Text
  pub level : Text

-- `fprintf` to stderr, and `sprintf`
abbrev pub plain : ℕ → Style
plain flags = record { flags = flags; opening = []; level = [] }

-- `printk`: a code above those of characters, 256 and a level, stands for the text of KERN_ERR (3) or KERN_INFO
-- (6), which is the kernel's.
abbrev pub leveled : ℕ → Style
leveled flags = record { flags = flags; opening = 259 ∷ []; level = 262 ∷ [] }

-- The macro PRINT, and whether `dst` is NULL.
abbrev pub style_of : Build → Bool → ℕ → Style
style_of kernel true flags = plain flags
style_of kernel false flags = leveled flags
style_of cxx11 to_buffer flags = plain flags
style_of builtins to_buffer flags = plain flags

-- The time of a record in milliseconds or microseconds, a `u64`.
unfoldable pub time_of : Style → Tracept → ℕ
time_of style tp =
    if print_ms style.flags
    then to_word 64 (tp.sec * 1000 + tp.usec / 1000)
    else to_word 64 (tp.sec * 1000000 + tp.usec)

-- The time and the difference to the time before, as the flags ask for.
unfoldable pub stamp : Style → ℕ → ℕ → Text
stamp style time diff =
    (if print_time style.flags
      then (if print_ms style.flags
          then style.level
            ++ (pad 6 b' ' (unsigned (to_word 32 (time / 1000)))
                ++ b'.' ∷ pad 3 b'0' (unsigned (to_word 32 (time % 1000)))
                ++ b' ' ∷ [])
          else style.level
            ++ (pad 6 b' ' (unsigned (to_word 32 (time / 1000000)))
                ++ b'.' ∷ pad 6 b'0' (unsigned (to_word 32 (time % 1000000)))
                ++ b' ' ∷ []))
      else [])
    ++ (if print_diff style.flags
        then style.level
          ++ (pad (if print_ms style.flags then 3 else 6) b' ' (signed true diff) ++ b' ' ∷ [])
        else [])

-- Source and line, as the flags ask for.
unfoldable pub place : Style → Text → ℕ → Text
place style src line =
    (if print_src style.flags then style.level ++ (src ++ b' ' ∷ []) else [])
    ++ (if print_line style.flags
        then style.level ++ (pad 5 b' ' (signed false line) ++ b' ' ∷ [])
        else [])

-- `__print_trace_point` of a record whose `src` is not NULL: the text, and the time that it leaves in
-- `*prev_time`. `none` is a message without NUL.
unfoldable pub print_trace_point : Style → Tracept → Text → ℕ → Option (Text × ℕ)
print_trace_point style tp src prev_time = do
  msg ← c_string tp.msg
  let time = time_of style tp
  let diff = if prev_time == 0 then 0 else to_word 32 (sub_word 64 time prev_time)
  some (
    style.opening
        ++ (stamp style time diff ++ place style src tp.line ++ (style.level ++ msg) ++ b'\n' ∷ []),
    time,
  )
