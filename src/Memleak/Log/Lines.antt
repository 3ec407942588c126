-- ===== src/Memleak/Log/Lines.antt =====
-- memleak/memleak.cpp, `ml_log`: a timestamp at the start of each line of the log, and nowhere else.
use tripping_robot.Memleak.Log.{to_word}
use tripping_robot.Prelude.{
  ℕ, zero, suc, ◌-◌, ◌^◌, ◌≡◌, ◌≢◌, refl, ap, Bool, true, false, List, [], ◌∷◌, ◌++◌, arith,
}
use tripping_robot.Prelude.{◌==◌, if◌then◌else◌, length, replicate}
use tripping_robot.Prelude.Decimal.{unsigned, signed, pad, IsNumeral, unsigned-IsNumeral}
use tripping_robot.Prelude.Codes.{codes}
use tripping_robot.Memleak.{
  Text, Message, title, tight_title, newline, exited, no_list_memory, records_line, count_only,
  unclean, exceeded, no_memory,
}
use tripping_robot.Memleak.Log.{trace, over_mark, text_of, has_newline, ml_log_timestamp, LogCall}

-- The text with a stamp before each of its lines; `start` says whether it begins one.
unfoldable pub stamped : Text → Bool → Text → Text
stamped st start [] = []
stamped st true (c ∷ t) = st ++ c ∷ stamped st (c == b'\n') t
stamped st false (c ∷ t) = c ∷ stamped st (c == b'\n') t

-- Whether a line begins after the text.
unfoldable pub at_start : Bool → Text → Bool
at_start start [] = start
at_start start (c ∷ t) = at_start (c == b'\n') t

-- The log of some calls, each character by itself.
unfoldable pub log_of : Bool → Bool → List LogCall → Text
log_of timestamps start [] = []
log_of timestamps start (e ∷ es) =
    (if timestamps
      then stamped (ml_log_timestamp e.now) start (text_of e.message)
      else text_of e.message)
    ++ log_of timestamps (at_start start (text_of e.message)) es

abbrev pub IsUnbroken : Text → Type 0
IsUnbroken [] = Unit {0}
IsUnbroken (c ∷ t) = (c ≢ b'\n') × IsUnbroken t

-- The name of a file in a message does not hold a newline.
abbrev pub IsTidy : Message → Type 0
IsTidy (records_line cnt mem_total file line oa) = IsUnbroken file
IsTidy (unclean cnt file line oa) = IsUnbroken file
IsTidy (exceeded size file line) = IsUnbroken file
IsTidy (no_memory file line) = IsUnbroken file
IsTidy _ = Unit {0}

-- Some characters, of which only the last may be a newline, and is one if `closed`.
abbrev pub IsLine : Bool → Text → Type 0
IsLine closed [] = ◌≡◌ {A = ℕ} 0 1
IsLine closed (c ∷ []) = (c == b'\n') ≡ closed
IsLine closed (c ∷ d ∷ t) = (c ≢ b'\n') × IsLine closed (d ∷ t)

line_rest :
    (st : Text) (closed : Bool) (c : ℕ) (t : Text)
    → IsLine closed (c ∷ t)
    → (stamped st (c == b'\n') t ≡ t) × (at_start (c == b'\n') t ≡ closed)
unfolding stamped at_start
line_rest st closed c [] h = (refl, h)
line_rest st closed c (d ∷ t) h =
    let (same, last) = line_rest st closed d t h.1 in ground (arith, h.0)

pub line_stamped :
    (st : Text) (closed start : Bool) (t : Text)
    → IsLine closed t
    → (stamped st start t ≡ (if start then st else []) ++ t) × (at_start start t ≡ closed)
unfolding stamped at_start
line_stamped st closed start [] h = absurd (omega arith)
line_stamped st closed true (c ∷ t) h =
    let (same, last) = line_rest st closed c t h in (ap (λ u. st ++ c ∷ u) same, last)
line_stamped st closed false (c ∷ t) h =
    let (same, last) = line_rest st closed c t h in (ap (λ u. c ∷ u) same, last)

unbroken-append :
    (closed : Bool) (t u : Text) → IsUnbroken t → IsLine closed u → IsLine closed (t ++ u)
unbroken-append closed [] u ht hu = hu
unbroken-append closed (c ∷ []) (d ∷ u) ht hu = (ht.0, hu)
unbroken-append closed (c ∷ []) [] ht hu = absurd (omega arith)
unbroken-append closed (c ∷ d ∷ t) u ht hu = (ht.0, unbroken-append closed (d ∷ t) u ht.1 hu)

IsNumeral-IsUnbroken : (t : Text) → IsNumeral t → IsUnbroken t
IsNumeral-IsUnbroken [] h = tt
IsNumeral-IsUnbroken (c ∷ t) h = (omega (arith, h.0), IsNumeral-IsUnbroken t h.1)

unsigned-IsUnbroken : (n : ℕ) → IsUnbroken (unsigned n)
unsigned-IsUnbroken n = IsNumeral-IsUnbroken (unsigned n) (unsigned-IsNumeral n)

signed-IsUnbroken : (n : ℕ) → IsUnbroken (signed false n)
unfolding signed
signed-IsUnbroken n = ground (arith, unsigned-IsUnbroken n, unsigned-IsUnbroken (2 ^ 32 - n))

pad-IsUnbroken : (width : ℕ) (t : Text) → IsUnbroken t → IsUnbroken (pad width b' ' t)
unfolding pad
pad-IsUnbroken width t h = go (width - length t) t h
  where
    go : (n : ℕ) (t : Text) → IsUnbroken t → IsUnbroken (replicate n b' ' ++ t)
    go zero t h = h
    go (suc n) t h = (omega arith, go n t h)

over_mark-IsUnbroken : (b : Bool) → IsUnbroken (over_mark b)
over_mark-IsUnbroken true = ground arith
over_mark-IsUnbroken false = tt

abbrev glue : List Text → Text → Text
glue [] u = u
glue (t ∷ ts) u = t ++ glue ts u

abbrev AllUnbroken : List Text → Type 0
AllUnbroken [] = Unit {0}
AllUnbroken (t ∷ ts) = IsUnbroken t × AllUnbroken ts

glue-IsLine : (ts : List Text) → AllUnbroken ts → IsLine true (glue ts (codes "\n"))
glue-IsLine [] h = refl
glue-IsLine (t ∷ ts) h = unbroken-append true t (glue ts (codes "\n")) h.0 (glue-IsLine ts h.1)

pub text_of-IsLine : (m : Message) → IsTidy m → IsLine (has_newline m) (text_of m)
unfolding text_of has_newline
text_of-IsLine title h = ground arith
text_of-IsLine tight_title h = ground arith
text_of-IsLine newline h = ground arith
text_of-IsLine exited h = ground arith
text_of-IsLine no_list_memory h = ground arith
text_of-IsLine (count_only cnt) h =
    unbroken-append false (signed false cnt) (codes " ") (signed-IsUnbroken cnt) (ground arith)
text_of-IsLine (records_line cnt mem file line oa) h =
    glue-IsLine
      (trace
        ∷ pad 4 b' ' (signed false cnt)
        ∷ codes " records, "
        ∷ pad 7 b' ' (unsigned mem)
        ∷ codes " bytes from line "
        ∷ file
        ∷ codes ": "
        ∷ signed false line
        ∷ codes "  "
        ∷ over_mark oa
        ∷ [])
      (ground (
        arith,
        h,
        pad-IsUnbroken 4 _ (signed-IsUnbroken cnt),
        pad-IsUnbroken 7 _ (unsigned-IsUnbroken mem),
        signed-IsUnbroken line,
        over_mark-IsUnbroken oa,
      ))
text_of-IsLine (unclean cnt file line oa) h =
    glue-IsLine
      (trace
        ∷ signed false cnt
        ∷ codes " unclean records from "
        ∷ file
        ∷ codes ": "
        ∷ signed false line
        ∷ codes "  "
        ∷ over_mark oa
        ∷ [])
      (ground (arith, h, signed-IsUnbroken cnt, signed-IsUnbroken line, over_mark-IsUnbroken oa))
text_of-IsLine (exceeded size file line) h =
    glue-IsLine
      (trace
        ∷ codes "Allocation size ("
        ∷ unsigned (to_word 32 size)
        ∷ codes ") exceeded tolerance level at "
        ∷ file
        ∷ codes ": "
        ∷ signed false line
        ∷ [])
      (ground (arith, h, unsigned-IsUnbroken (to_word 32 size), signed-IsUnbroken line))
text_of-IsLine (no_memory file line) h =
    glue-IsLine
      (trace ∷ codes "Could not allocate memory at " ∷ file ∷ codes ": " ∷ signed false line ∷ [])
      (ground (arith, h, signed-IsUnbroken line))

-- Every file name is tidy, and every `fopen` opens the file.
abbrev pub AllWritten : List LogCall → Type 0
AllWritten [] = Unit {0}
AllWritten (e ∷ es) = ((e.opens ≡ true) × IsTidy e.message) × AllWritten es
