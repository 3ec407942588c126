-- ===== src/Runtrace/Trace.antt =====
-- runtrace/runtrace.c: `make_tracept` records a tracepoint, and `print_trace_stack` prints the ring.
pub mod Ring
pub mod Report
pub mod Refusal
pub mod Stuck
use tripping_robot.Runtrace.{Runtrace}
use tripping_robot.Runtrace.{Outcome}
use tripping_robot.Prelude.{ℕ, zero, suc, ◌+◌, Bool, false, not}
use tripping_robot.Prelude.{Option, none, some, List, [], ◌∷◌, ◌&&◌, bit_and, ◌==◌}
use tripping_robot.Prelude.{if◌then◌else◌, get_elem?, set, lt_int, add_word}
use tripping_robot.Runtrace.{
  Build, kernel, cxx11, builtins, Outcome, ok, aborted, fault, deadlock, Runtrace, msg_max, Text,
  Tracept, Cmd, pure, ◌>>=◌, ◌>>◌, get, put, need, disabling_err, wrlock, wrunlock, rdlock,
}
use tripping_robot.Runtrace.Print.{
  needed_bufsize, log, buffer, Printed, copy_pool, print_copy, same_priv,
}
use tripping_robot.Runtrace.Text.{style_of}
use tripping_robot.Prelude.{◌++◌}
use tripping_robot.Prelude.Codes.{codes}
use tripping_robot.Prelude.Decimal.{signed}
use tripping_robot.Runtrace.Pool.{Platform, runtrace_init}

-- `strncpy` into an array of n bytes: at most n characters, and zeros for the rest.
unfoldable pub strncpy : ℕ → Text → List ℕ
strncpy zero t = []
strncpy (suc n) [] = 0 ∷ strncpy n []
strncpy (suc n) (c ∷ t) = c ∷ strncpy n t

-- The message of a record: a NULL message writes only the first byte.
unfoldable pub store_msg : Option Text → List ℕ → List ℕ
unfolding strncpy
store_msg none old = set old 0 0
store_msg (some t) old = strncpy msg_max t

pub record Clock : Type 0 where
  pub sec : ℕ
  pub usec : ℕ

unfoldable pub fill : Clock → ℕ → Text → Option Text → Tracept → Tracept
unfolding store_msg
fill now line src msg old = record {
  sec = now.sec;
  usec = now.usec;
  line = line;
  src = some src;
  msg = store_msg msg old.msg;
}

-- In the kernel a first call initialises the facility; its result is not looked at.
unfoldable pub ensure_pool : Build → Platform → Cmd (Unit {0})
unfolding disabling_err runtrace_init
ensure_pool build platform = do
  s ← get
  elim s.tp_pool [
    | some _ ↦ pure tt
    | none ↦ do disabling_err build; _ ← runtrace_init build platform 1; pure tt
  ]

-- How often the queue is woken by a call of `wake_up_interruptible(&read_queue)`. User space has neither
-- the function nor the queue: the call does not compile there, and is taken out.
unfoldable pub wakes : Build → ℕ
wakes kernel = 1
wakes cxx11 = 0
wakes builtins = 0

unfoldable pub wake_up_interruptible : Build → Cmd (Unit {0})
unfolding wakes
wake_up_interruptible build s = ok tt (record s { wakeups = s.wakeups + wakes build })

-- `now` is what `gettimeofday` gives. The read lock is held from before the slot is taken to after
-- it is filled, and the readers are woken after that.
unfoldable pub make_tracept : Build → Platform → Clock → ℕ → Text → Option Text → Cmd (Unit {0})
unfolding ensure_pool rdlock wake_up_interruptible
make_tracept build platform now line src msg = do
  ensure_pool build platform
  rdlock
  s ← get
  let i = bit_and s.tp_cnt_mask s.next_tp
  put (record s { next_tp = add_word 32 s.next_tp 1 })
  pool ← need s.tp_pool
  old ← need (get_elem? pool i)
  s ← get
  put (record s { tp_pool = some (set pool i (fill now line src msg old)) })
  wake_up_interruptible build

-- A return before anything is printed.
abbrev pub nothing : Option ℕ → Option ℕ → Printed
nothing code priv = record { code = code; text = []; priv = priv }

-- `size` is the parameter, an `int`; it is compared whatever the target is.
unfoldable pub print_trace_stack : Build → ℕ → Bool → ℕ → Option ℕ → Cmd Printed
unfolding wrlock wrunlock disabling_err
print_trace_stack build flags to_buffer size priv = do
  wrlock
  s ← get
  s ← need (copy_pool s)
  put s
  wrunlock
  let target = if to_buffer then buffer size else log
  if lt_int size needed_bufsize
      then disabling_err build >> pure (nothing none priv)
      else if same_priv priv s.next_tp
      then pure (nothing (some 0) priv)
      else need (print_copy (style_of build to_buffer flags) target priv s)

-- `RT_WARNING` in user space, in a file of that name.
abbrev pub warning : Text → Text → Text
warning file t = file ++ codes ": " ++ t

abbrev stars : Text
stars = codes "************************************************************\n"

unfoldable pub print_vsbp_underrun_notice : Text → ℕ → Text
print_vsbp_underrun_notice file max_threads =
    warning file stars
    ++ warning file (codes "Parallel calls exceeded the number of threads at some point.\n")
    ++ warning file (
        codes "You might want to configure higher nr_of_threads. ("
        ++ signed false max_threads
        ++ codes ")\n")
    ++ warning file stars

abbrev pub banner : Text
banner =
    codes "**************************************\n"
    ++ codes "SIGABRT called! Flooding runtrace pool\n"
    ++ codes "**************************************\n"

-- The end of `sigabort` in a file of that name, behind a text that is printed already.
abbrev pub notice : Text → Text → Runtrace → Text × Outcome (Unit {0})
notice file text s = (
  text ++ (if s.vspb_underrun_notice then print_vsbp_underrun_notice file s.max_threads else []),
  ok tt s,
)

-- What follows the call of `print_trace_stack`, which prints no history before it aborts, faults or
-- waits for ever.
unfoldable pub after_flush : Text → Outcome Printed → Text × Outcome (Unit {0})
after_flush file (ok p s) = notice file (banner ++ p.text) s
after_flush file aborted = (banner, aborted)
after_flush file fault = (banner, fault)
after_flush file deadlock = (banner, deadlock)

-- `sigabort`, where `is_abort` says that the signal is SIGABRT: what is printed, but for the error message
-- of `print_trace_stack`, and how the call ends.
unfoldable pub sigabort : Build → Text → Bool → Runtrace → Text × Outcome (Unit {0})
unfolding after_flush
sigabort build file is_abort s =
    if is_abort && not (s.flush_on_abort == 0)
    then after_flush file (print_trace_stack build s.flush_with_flags false 0 none s)
    else notice file [] s
