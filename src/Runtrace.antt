-- ===== src/Runtrace.antt =====
-- runtrace/runtrace.c and runtrace.h: the trace facility's global state, and commands over it.
-- The file is built for the kernel or for user space; `Build` says for which. Integers of type
-- `int` are bit patterns below 2 ^ 32.
pub mod Text
pub mod Pool
pub mod History
pub mod Print
pub mod Trace
pub mod Claims
pub mod Printf
pub mod Device
pub mod Life
pub mod Writers
mod Tests
use tripping_robot.Prelude.{ℕ, ◌+◌, ◌*◌, ◌/◌, ◌%◌, Bool, true, false}
use tripping_robot.Prelude.{Option, none, some, List, ◌==◌, not, if◌then◌else◌}

-- `__KERNEL__`; user space with `std::atomic`, as the Makefile builds it; user space without. At this
-- commit user space does not compile, because `make_tracept` calls `wake_up_interruptible(&read_queue)`
-- outside of any `#ifdef`: `cxx11` and `builtins` are the file without that line.
pub data Build : Type 0 where
  kernel cxx11 builtins : Build

abbrev pub msg_max : ℕ
msg_max = 200

-- A C string, without its NUL.
abbrev pub Text : Type 0
Text = List ℕ

-- `struct tracept`. `src` is NULL in a record that was never written; `msg` is the whole array.
pub record Tracept : Type 0 where
  pub sec : ℕ
  pub usec : ℕ
  pub line : ℕ
  pub src : Option Text
  pub msg : List ℕ

-- `struct vspb_container`: `next` is the index of the next container. The content of `buf` does not
-- outlive a call of `tpprintf`.
pub record Container : Type 0 where
  pub in_use : ℕ
  pub next : ℕ

-- The static variables. `writer` says that `print_rwlock` is held for writing, and `abort_handler` that
-- `sigabort` is registered for SIGABRT. `wakeups` stands for the wait queue `read_queue`: it is how often the
-- tasks that sleep on it have been woken.
pub record Runtrace : Type 0 where
  pub writer : Bool
  pub lock_initialised : Bool
  pub tp_pool : Option (List Tracept)
  pub tp_pool_copy : Option (List Tracept)
  pub next_tp : ℕ
  pub vsprint_buffer : Option (List Container)
  pub nr_cpus : ℕ
  pub max_threads : ℕ
  pub tp_pool_size : ℕ
  pub tp_cnt_mask : ℕ
  pub tp_pool_mem_size : ℕ
  pub vspb_underrun_notice : Bool
  pub flush_on_abort : ℕ
  pub flush_with_flags : ℕ
  pub abort_handler : Bool
  pub cdev_readers : ℕ
  pub cdev_blocking_read : Bool
  pub wakeups : ℕ

-- How a call ends: with a value, in `abort()`, in an access outside an object, or waiting for a lock
-- that is never released.
pub data Outcome (A : Type 0) : Type 0 where
  ok : A → Runtrace → Outcome A
  aborted fault deadlock : Outcome A

abbrev pub Cmd : Type 0 → Type 0
Cmd A = Runtrace → Outcome A

abbrev pub pure : {A : Type 0} → A → Cmd A
pure = ok

module _ {A B : Type 0} where
  abbrev pub and_then : Outcome A → (A → Cmd B) → Outcome B
  and_then (ok a s) k = k a s
  and_then aborted k = aborted
  and_then fault k = fault
  and_then deadlock k = deadlock

  infixl 5 ◌>>=◌ ◌>>◌
  abbrev pub ◌>>=◌ : Cmd A → (A → Cmd B) → Cmd B
  m >>= k = λ s. and_then (m s) k

  abbrev pub ◌>>◌ : Cmd A → Cmd B → Cmd B
  m >> n = m >>= λ _. n

abbrev pub get : Cmd Runtrace
get s = ok s s

abbrev pub put : Runtrace → Cmd (Unit {0})
put s _ = ok tt s

abbrev pub crash : {A : Type 0} → Cmd A
crash _ = fault

-- The value, or an access outside an object.
abbrev pub need : {A : Type 0} → Option A → Cmd A
need none s = fault
need (some a) s = ok a s

-- What an `int` function returns.
pub data Code : Type 0 where
  success failure : Code

-- `RT_DISABLING_ERR`: user space aborts, the kernel only prints.
unfoldable pub disabling_err : Build → Cmd (Unit {0})
disabling_err kernel = pure tt
disabling_err cxx11 = λ _. aborted
disabling_err builtins = λ _. aborted

-- `WRLOCK`, `WRUNLOCK` and `RDLOCK` of one thread.
unfoldable pub wrlock : Cmd (Unit {0})
wrlock s = if s.writer then deadlock else ok tt (record s { writer = true })

unfoldable pub wrunlock : Cmd (Unit {0})
wrunlock s = ok tt (record s { writer = false })

unfoldable pub rdlock : Cmd (Unit {0})
rdlock s = if s.writer then deadlock else ok tt s

-- `ATOMIC_TEST_AND_SET` of a flag: the kernel tests bit 0, `std::atomic_flag` a byte, and the
-- builtin the whole word. The first is whether the flag was set.
unfoldable pub test_and_set : Build → ℕ → Bool × ℕ
test_and_set kernel x = (not (x % 2 == 0), x / 2 * 2 + 1)
test_and_set cxx11 x = (not (x % 256 == 0), x / 256 * 256 + 1)
test_and_set builtins x = (not (x == 0), x / 2 * 2 + 1)

-- `ATOMIC_CLEAR`
unfoldable pub clear : Build → ℕ → ℕ
clear kernel x = x / 2 * 2
clear cxx11 x = x / 256 * 256
clear builtins x = x / 2 * 2
