-- ===== src/Runtrace/Device.antt =====
-- runtrace/runtrace.c, the character device of the kernel: the handlers of open, release, read and
-- write. What the module loader, the caller of `write` and other threads do is an argument.
pub mod Open
pub mod Shown
pub mod Read
pub mod Write
mod Tests
use mathlib.Core.Option
use tripping_robot.Prelude.{
  ℕ, zero, suc, ◌+◌, ◌-◌, ◌%◌, ◌^◌, Bool, true, false, not, Option, none, some, List, [], ◌∷◌, ◌++◌,
}
use tripping_robot.Prelude.{
  ◌&&◌, ◌==◌, ltb, if◌then◌else◌, lt_int, add_word, sub_word, set, length, take,
}
use tripping_robot.Runtrace.{kernel, Text, Cmd, pure, ◌>>=◌, ◌>>◌, get, put}
use tripping_robot.Runtrace.Trace.{print_trace_stack}

-- What `cdev_open` returns: 0 and the position of the new file, -EACCES or -EBUSY.
pub data Opened : Type 0 where
  opened : ℕ → Opened
  denied busy : Opened

-- `refs` counts the references to the module that were taken; `loaded` is what `try_module_get` says.
unfoldable pub cdev_open : Bool → ℕ → Cmd (Opened × ℕ)
cdev_open loaded refs = if not loaded then pure (denied, refs) else do
  s ← get
  let before = s.cdev_readers
  put (record s { cdev_readers = add_word 32 s.cdev_readers 1 })
  s ← get
  if lt_int 1 before
      then put (record s { cdev_readers = sub_word 32 s.cdev_readers 1 }) >> pure (busy, refs + 1)
      else pure (opened (sub_word 32 (sub_word 32 s.next_tp s.tp_pool_size) 1), refs + 1)

unfoldable pub cdev_release : ℕ → Cmd ℕ
cdev_release refs = do
  s ← get
  put (record s { cdev_readers = sub_word 32 s.cdev_readers 1 })
  pure (refs - 1)

-- What happens while a reader sleeps: a signal, or another thread runs.
pub data Event : Type 0 where
  signal : Event
  runs : Cmd (Unit {0}) → Event

-- How `wait_event_interruptible` ends: with the condition true and the events that are left, by a
-- signal, or not yet.
pub data Waited : Type 0 where
  ready : List Event → Waited
  interrupted asleep : Waited

-- The sleep of a reader that last looked at the condition after `seen` wake-ups of the queue. It looks
-- again only after another wake-up or a signal.
unfoldable pub sleep : List Event → ℕ → ℕ → Cmd Waited
sleep [] pos seen = pure asleep
sleep (signal ∷ events) pos seen = do
  s ← get
  if not (pos == s.next_tp) then pure (ready events) else pure interrupted
sleep (runs others ∷ events) pos seen = do
  others
  s ← get
  if not (s.wakeups == seen) && not (pos == s.next_tp)
      then pure (ready events)
      else sleep events pos s.wakeups

-- `wait_event_interruptible` looks at the condition first.
unfoldable pub wait_event : List Event → ℕ → Cmd Waited
unfolding sleep
wait_event events pos = do
  s ← get
  if not (pos == s.next_tp) then pure (ready events) else sleep events pos s.wakeups

-- What `cdev_read` returns: a number of characters, -EAGAIN, -ERESTARTSYS, or -1 from
-- `print_trace_stack`; it has not returned while it sleeps, or where the fuel ends.
pub data Answer : Type 0 where
  returned : ℕ → Answer
  again restart failed sleeping out_of_fuel : Answer

pub record Reading : Type 0 where
  pub answer : Answer
  pub text : Text
  pub pos : ℕ

-- RT_PRINT_DEFAULT
abbrev pub print_default : ℕ
print_default = 29

abbrev pub no_text : Answer → ℕ → Reading
no_text answer pos = record { answer = answer; text = []; pos = pos }

-- `nonblock` is O_NONBLOCK, `count` a `size_t`. A round ends in a return, a wait, or a printout of
-- nothing; `fuel` bounds the rounds.
unfoldable pub cdev_read : ℕ → Bool → ℕ → List Event → ℕ → Cmd Reading
unfolding wait_event
cdev_read zero nonblock count events pos = pure (no_text out_of_fuel pos)
cdev_read (suc fuel) nonblock count events pos = do
  s ← get
  if pos == s.next_tp
      then (if nonblock
          then pure (no_text again pos)
          else if not s.cdev_blocking_read
          then pure (no_text (returned 0) pos)
          else do
            waited ← wait_event events pos
            elim waited [
              | ready rest ↦ cdev_read fuel nonblock count rest pos
              | interrupted ↦ pure (no_text restart pos)
              | asleep ↦ pure (no_text sleeping pos)
            ])
      else do
        p ← print_trace_stack kernel print_default true (count % 2 ^ 32) (some pos)
        elim p.code [
          | none ↦ pure (record { answer = failed; text = p.text; pos = Option.get_or p.priv pos })
          | some n ↦
              if n == 0
              then cdev_read fuel nonblock count events (Option.get_or p.priv pos)
              else pure
                  (record { answer = returned n; text = p.text; pos = Option.get_or p.priv pos })
        ]

-- "blocking 0" and "blocking 1".
abbrev pub blocking : ℕ → Text
blocking digit = 98 ∷ 108 ∷ 111 ∷ 99 ∷ 107 ∷ 105 ∷ 110 ∷ 103 ∷ 32 ∷ digit ∷ []

abbrev pub drop : ℕ → List ℕ → List ℕ
drop zero xs = xs
drop (suc n) [] = []
drop (suc n) (x ∷ xs) = drop n xs

unfoldable pub starts_with : Text → List ℕ → Bool
starts_with [] xs = true
starts_with (c ∷ t) [] = false
starts_with (c ∷ t) (x ∷ xs) = let rest = starts_with t xs in c == x && rest

-- `buf` is what the caller writes, and `garbage` the 20 bytes that the array on the stack starts with;
-- `none` is -EINVAL.
unfoldable pub cdev_write : List ℕ → List ℕ → Cmd (Option ℕ)
unfolding starts_with
cdev_write garbage buf =
    let len = if ltb 20 (length buf) then 20 else length buf in
    let local_buf = take len buf ++ drop len (set garbage 0 0) in
    if starts_with (blocking 48) local_buf
    then get >>= (λ s. put (record s { cdev_blocking_read = false })) >> pure (some (length buf))
    else if starts_with (blocking 49) local_buf
    then get >>= (λ s. put (record s { cdev_blocking_read = true })) >> pure (some (length buf))
    else pure none
