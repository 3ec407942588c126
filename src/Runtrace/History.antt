-- ===== src/Runtrace/History.antt =====
-- What the facility promises: a history of tracepoints, newest first, of which the last 2 ^ k are
-- kept, and the text that printing them gives. `Ring` says that the memory of runtrace.c holds it.
use tripping_robot.Runtrace.Text.{Style}
use tripping_robot.Prelude.{ℕ, zero, suc, ◌+◌, ◌-◌, ◌%◌, ◌^◌, ◌≤◌, ◌<◌, ◌≡◌, ◌≢◌}
use tripping_robot.Prelude.{false, Option, none, some, List, [], ◌∷◌, ◌++◌}
use tripping_robot.Prelude.{length, get_elem?, get_or, ◌==◌, ltb, if◌then◌else◌, sub_word, to_word}
use mathlib.Core.Option
use tripping_robot.Prelude.{◌*◌, ◌/◌}
use tripping_robot.Runtrace.{msg_max, Text, Tracept, Runtrace}
use tripping_robot.Runtrace.Text.{c_string, print_ms, stamp, place}
use tripping_robot.Runtrace.Pool.{blank}

-- A tracepoint as its caller made it. `msg` is `none` if it does not fit the array with its NUL.
pub record Entry : Type 0 where
  pub sec : ℕ
  pub usec : ℕ
  pub line : ℕ
  pub src : Text
  pub msg : Option Text

-- A C string holds no NUL.
abbrev pub IsText : Text → Type 0
IsText [] = Unit {0}
IsText (c ∷ t) = (c ≢ 0) × IsText t

abbrev pub IsMessage : Option Text → Type 0
IsMessage none = Unit {0}
IsMessage (some t) = IsText t

abbrev pub message : Option Text → Option Text
message none = some []
message (some t) = if ltb (length t) msg_max then some t else none

-- The slot was never written.
pub record IsBlank (tp : Tracept) : Type 0 where
  pub unwritten : tp.src ≡ none
  pub array : length tp.msg ≡ msg_max

-- The slot holds the entry.
pub record Holds (tp : Tracept) (e : Entry) : Type 0 where
  pub sec : tp.sec ≡ e.sec
  pub usec : tp.usec ≡ e.usec
  pub line : tp.line ≡ e.line
  pub src : tp.src ≡ some e.src
  pub msg : c_string tp.msg ≡ e.msg
  pub array : length tp.msg ≡ msg_max

abbrev pub Shows : Tracept → Option Entry → Type 0
Shows tp none = IsBlank tp
Shows tp (some e) = Holds tp e

-- `xs` holds the last 2 ^ k entries of the history: the entry of age i is in the slot j from which
-- i + 1 steps lead to `next`.
pub record IsRing (k next : ℕ) (hist : List Entry) (xs : List Tracept) : Type 0 where
  pub slots : length xs ≡ 2 ^ k
  pub recent :
      (i j : ℕ)
      → i < 2 ^ k
      → j < 2 ^ k
      → (j + (i + 1)) % 2 ^ k ≡ next % 2 ^ k
      → Shows (get_or xs j blank) (get_elem? hist i)

-- The facility is ready, with no writer in the lock, and its pool holds the history.
pub record Ring (k : ℕ) (hist : List Entry) (s : Runtrace) : Type 0 where
  pub pool : List Tracept
  pub unlocked : s.writer ≡ false
  pub limit : k ≤ 30
  pub size : s.tp_pool_size ≡ 2 ^ k
  pub mask : s.tp_cnt_mask ≡ 2 ^ k - 1
  pub mem : (s.tp_pool_mem_size == 0) ≡ false
  pub counter : s.next_tp < 2 ^ 32
  pub held : s.tp_pool ≡ some pool
  pub copy : List Tracept
  pub copied : s.tp_pool_copy ≡ some copy
  pub ring : IsRing k s.next_tp hist pool

-- The time of an entry in the unit that the flags ask for.
abbrev pub entry_time : Style → Entry → ℕ
entry_time style e =
    if print_ms style.flags
    then to_word 64 (e.sec * 1000 + e.usec / 1000)
    else to_word 64 (e.sec * 1000000 + e.usec)

-- The line of an entry whose message is `msg`, after an entry of the time `prev`.
unfoldable pub entry_line : Style → Entry → Text → ℕ → Text
entry_line style e msg prev =
    style.opening
    ++ (stamp style (entry_time style e)
          (if prev == 0 then 0 else to_word 32 (sub_word 64 (entry_time style e) prev))
        ++ place style e.src e.line
        ++ (style.level ++ msg)
        ++ b'\n' ∷ [])

-- The lines of n entries, oldest first, down to the one of age `skip`, and the time of the last. An
-- age that the history does not reach gives none.
unfoldable pub lines_from : Style → List Entry → ℕ → ℕ → ℕ → Text × ℕ
lines_from style hist zero skip prev = ([], prev)
lines_from style hist (suc n) skip prev = elim (get_elem? hist (skip + n)) [
  | none ↦ lines_from style hist n skip prev
  | some e ↦
      let (rest, last) = lines_from style hist n skip (entry_time style e) in
      (entry_line style e (Option.get_or e.msg []) prev ++ rest, last)
]

-- The messages of the entries of the ages below n end inside their arrays.
abbrev pub IsPrintable : List Entry → ℕ → Type 0
IsPrintable hist n =
    (i : ℕ) (e : Entry) → i < n → get_elem? hist i ≡ some e → (t : Text) × (e.msg ≡ some t)
