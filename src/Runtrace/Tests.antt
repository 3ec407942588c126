-- ===== src/Runtrace/Tests.antt =====
-- runtrace/runtrace.c: the theorems at concrete states of the facility.
use tripping_robot.Prelude.{◌++◌}
use tripping_robot.Prelude.Codes.{codes}
use tripping_robot.Prelude.Decimal.{pad, signed, unsigned, digits}
use tripping_robot.Runtrace.Text.{
  plain, leveled, print_trace_point, c_string, stamp, time_of, place,
}
use tripping_robot.Runtrace.Trace.{wakes}
use tripping_robot.Prelude.{
  ℕ, zero, suc, ◌+◌, ◌^◌, ◌<◌, ◌≤◌, ◌≡◌, ◌≢◌, refl, sym, ap, inr, true, false,
}
use tripping_robot.Prelude.{
  Option, none, some, List, [], ◌∷◌, arith, length, replicate, add_word, sub_word,
}
use native.Mathlib.Nat.{pow-le-pow_right}
use mathlib.Core.Option.{none-ne-some, some-injective}
use tripping_robot.Prelude.{◌∙◌, subst, dec_lt, get_elem?}
use tripping_robot.Runtrace.{
  kernel, cxx11, builtins, msg_max, Text, Container, Runtrace, ok, aborted, fault, deadlock,
  success, failure,
}
use tripping_robot.Runtrace.Text.Width.{length-entry_line}
use tripping_robot.Runtrace.Pool.{Platform, blank, allocate, any_null, runtrace_reconfigure}
use tripping_robot.Runtrace.Pool.Refusal.{runtrace_reconfigure-refused}
use tripping_robot.Runtrace.Pool.Containers.{IsContainerRing}
use tripping_robot.Runtrace.Pool.Reconfigure.{
  IsReady, blank-IsRing, runtrace_reconfigure-Ring, runtrace_reconfigure-fault,
}
use tripping_robot.Runtrace.Life.{Call, record_all, entries, program-prints}
use tripping_robot.Runtrace.Pool.{environment_check, runtrace_init}
use tripping_robot.Runtrace.History.{lines_from, IsText, Entry, Ring, entry_line, IsPrintable}
use tripping_robot.Runtrace.Print.{needed_bufsize, start_at}
use tripping_robot.Runtrace.Print.Window.{start_at-unseen}
use tripping_robot.Runtrace.{Build}
use mathlib.Core.Bool.{Bool, true≢false}
use tripping_robot.Prelude.{◌≢◌}
use tripping_robot.Runtrace.Trace.{Clock, make_tracept, print_trace_stack}
use tripping_robot.Runtrace.Trace.{sigabort, banner}
use tripping_robot.Runtrace.Trace.Refusal.{sigabort-flush}
use tripping_robot.Runtrace.Trace.Ring.{entry, make_tracept-Ring}
use tripping_robot.Runtrace.Trace.Report.{Report, print_trace_stack-whole, print_trace_stack-unread}
use tripping_robot.Runtrace.Trace.Stuck.{make_tracept-deadlock}

abbrev pub machine : Platform
machine = record {
  malloc = λ i n. true;
  garbage = λ i. 0;
  env = none;
  cpus = 4;
  region = true;
  cdev = true;
}

-- A machine without memory.
abbrev exhausted : Platform
exhausted = record machine { malloc = λ i n. false }

abbrev pub start : Runtrace
start = record {
  writer = false;
  lock_initialised = false;
  tp_pool = none;
  tp_pool_copy = none;
  next_tp = 0;
  vsprint_buffer = none;
  nr_cpus = 0;
  max_threads = 0;
  tp_pool_size = 0;
  tp_cnt_mask = 0;
  tp_pool_mem_size = 0;
  vspb_underrun_notice = false;
  flush_on_abort = 0;
  flush_with_flags = 0;
  abort_handler = false;
  cdev_readers = 0;
  cdev_blocking_read = false;
  wakeups = 0;
}

-- A pool of 4 records, none of them written.
abbrev pub idle : Runtrace
idle = record start {
  lock_initialised = true;
  tp_pool = some (replicate 4 blank);
  tp_pool_copy = some (replicate 4 blank);
  tp_pool_size = 4;
  tp_cnt_mask = 3;
  tp_pool_mem_size = 928;
}

abbrev pub idle_Ring : Ring 2 [] idle
idle_Ring = record {
  pool = replicate 4 blank;
  unlocked = refl;
  limit = omega arith;
  size = refl;
  mask = refl;
  mem = refl;
  counter = omega arith;
  held = refl;
  copy = replicate 4 blank;
  copied = refl;
  ring = blank-IsRing 2 0;
}

abbrev pub noon : Clock
noon = record { sec = 43200; usec = 5 }

abbrev pub hello : Text
hello = b'h' ∷ b'i' ∷ []

abbrev pub hello_IsText : IsText hello
hello_IsText = (omega arith, (omega arith, tt))

abbrev pub file : Text
file = b'a' ∷ b'.' ∷ b'c' ∷ []

-- The same pool with one tracepoint.
abbrev pub hist : List Entry
hist = entry noon 12 file (some hello) ∷ []

make_tracept-Ring_example :
    (s' : Runtrace) × (make_tracept kernel machine noon 12 file (some hello) idle ≡ ok tt s')
    × (s'.next_tp ≡ add_word 32 0 1)
    × (s'.vsprint_buffer ≡ none)
    × (s'.wakeups ≡ 0 + wakes kernel)
    × Ring 2 hist s'
make_tracept-Ring_example =
    make_tracept-Ring kernel machine noon 12 file (some hello) 2 [] idle hello_IsText idle_Ring

length-entry_line_example :
    length (entry_line (plain 15) (entry noon 12 file (some hello)) hello 0) < needed_bufsize
length-entry_line_example =
    length-entry_line 15 (entry noon 12 file (some hello)) hello 0 (omega arith) (omega arith)
      (omega arith)

abbrev start_IsReady :
    (threads : ℕ) → 1 ≤ threads → threads < 2 ^ 31 → IsReady machine 8 threads start
start_IsReady threads lo hi = record {
  lower = omega arith;
  upper = omega arith;
  some_thread = lo;
  narrow = hi;
  unlocked = refl;
  counter = omega arith;
  memory = λ i n. refl;
}

runtrace_reconfigure-Ring_example :
    (s' : Runtrace) × (cs : List Container) × (runtrace_reconfigure cxx11 machine 4 (2 ^ 8) start
      ≡ ok success s')
    × Ring 8 [] s'
    × (s'.vsprint_buffer ≡ some cs)
    × IsContainerRing cxx11 4 cs
runtrace_reconfigure-Ring_example =
    runtrace_reconfigure-Ring cxx11 machine 8 4 start (start_IsReady 4 (omega arith) (omega arith))
      (omega arith)

runtrace_reconfigure-fault_example : runtrace_reconfigure cxx11 machine 1 (2 ^ 8) start ≡ fault
runtrace_reconfigure-fault_example =
    runtrace_reconfigure-fault cxx11 machine 8 1 start (start_IsReady 1 (omega arith) (omega arith))
      (omega arith)

hundred_lem : (k : ℕ) → 2 ≤ k → k ≤ 30 → 100 ≢ 2 ^ k
hundred_lem k lo hi e = elim (dec_lt k 7) [
  | yes few ↦
      let small : 2 ^ k ≤ 2 ^ 6 = pow-le-pow_right {n = 2} (omega arith) {j = 6} (omega arith) in
      omega arith
  | no many ↦
      let large : 2 ^ 7 ≤ 2 ^ k = pow-le-pow_right {n = 2} (omega arith) {i = 7} (omega arith) in
      omega arith
]

runtrace_reconfigure-refused_example :
    (runtrace_reconfigure kernel machine 4 100 start ≡ ok failure start)
    × (runtrace_reconfigure cxx11 machine 4 100 start ≡ aborted)
    × (runtrace_reconfigure builtins machine 4 100 start ≡ aborted)
runtrace_reconfigure-refused_example =
    runtrace_reconfigure-refused machine 4 100 start (omega arith) (omega arith) (omega arith)
      hundred_lem

any_null-exhausted : any_null (allocate exhausted 4 (2 ^ 8) idle) ≡ true
unfolding allocate
any_null-exhausted = refl

make_tracept-deadlock_example :
    (s' : Runtrace) × (runtrace_reconfigure kernel exhausted 4 (2 ^ 8) idle ≡ ok failure s')
    × ((platform' : Platform) (now : Clock) (line : ℕ) (src : Text) (msg : Option Text)
        → make_tracept kernel platform' now line src msg s' ≡ deadlock)
make_tracept-deadlock_example =
    make_tracept-deadlock exhausted 4 8 idle (omega arith) (omega arith) (omega arith) (omega arith)
      refl refl any_null-exhausted

-- The pool of `idle` with the one tracepoint of `hist`.
abbrev pub traced :
    (s' : Runtrace) × (make_tracept kernel machine noon 12 file (some hello) idle ≡ ok tt s')
    × (s'.next_tp ≡ add_word 32 0 1)
    × (s'.vsprint_buffer ≡ none)
    × (s'.wakeups ≡ 0 + wakes kernel)
    × Ring 2 hist s'
traced = make_tracept-Ring kernel machine noon 12 file (some hello) 2 [] idle hello_IsText idle_Ring

msg_of : Option Entry → Option Text
msg_of none = none
msg_of (some e) = e.msg

pub hist-IsPrintable : (n : ℕ) → IsPrintable hist n
unfolding msg_of
hist-IsPrintable n zero e h q = (hello, sym (ap msg_of q))
hist-IsPrintable n (suc i) e h q = absurd (none-ne-some e q)

print_trace_stack-whole_example : Report kernel 15 false 260 none 2 hist (2 ^ 2) traced.0
print_trace_stack-whole_example =
    print_trace_stack-whole 2 hist traced.0 traced.5 kernel 15 false 260 (omega arith) (omega arith)
      (hist-IsPrintable (2 ^ 2)) tt

-- Every line of the history is short enough.
hist_short :
    (i : ℕ) (e : Entry) (t : Text) (prev : ℕ)
    → i < 1
    → get_elem? hist i ≡ some e
    → e.msg ≡ some t
    → length (entry_line (plain 15) e t prev) < needed_bufsize
hist_short zero e t prev h q m =
    length-entry_line 15 e t prev
      (subst (λ x. length x.src ≤ 16) (some-injective _ _ q) (omega arith))
      (subst (λ x. length x < msg_max)
        (some-injective _ _ (ap (λ x. x.msg) (some-injective _ _ q) ∙ m)) (omega arith))
      (subst (λ x. x.line < 2 ^ 32) (some-injective _ _ q) (omega arith))
hist_short (suc i) e t prev h q m = absurd (omega arith)

print_trace_stack-unread_example :
    Report cxx11 15 true 300 (some (sub_word 32 traced.0.next_tp 1)) 2 hist 1 traced.0
print_trace_stack-unread_example =
    print_trace_stack-unread 2 hist traced.0 traced.5 cxx11 15 true 300 1 (omega arith)
      (omega arith) (omega (arith, traced.2)) (omega arith) (omega arith) (hist-IsPrintable 1)
      (omega arith, hist_short)

-- `idle` with the flush on abort asked for.
abbrev watched : Runtrace
watched = record idle { flush_on_abort = 1 }

abbrev watched_Ring : Ring 2 [] watched
watched_Ring = record {
  pool = replicate 4 blank;
  unlocked = refl;
  limit = omega arith;
  size = refl;
  mask = refl;
  mem = refl;
  counter = omega arith;
  held = refl;
  copy = replicate 4 blank;
  copied = refl;
  ring = blank-IsRing 2 0;
}

abbrev is_kernel : Build → Bool
is_kernel kernel = true
is_kernel cxx11 = false
is_kernel builtins = false

cxx11-ne-kernel : cxx11 ≢ kernel
cxx11-ne-kernel e = true≢false (sym (ap is_kernel e))

-- Two calls, the second without a message.
abbrev two_calls : List Call
two_calls =
    record { now = noon; line = 12; src = file; msg = some hello }
    ∷ record { now = noon; line = 13; src = file; msg = none }
    ∷ []

-- What the kernel logs for a record: a level before each part.
kernel_line :
    print_trace_point
      (leveled 12)
      (record { sec = 1; usec = 0; line = 7; src = some file; msg = hello ++ 0 ∷ [] })
      file
      0
    ≡ some (259 ∷ 262 ∷ codes "a.c " ++ 262 ∷ codes "    7 " ++ 262 ∷ codes "hi\n", 1000000)
unfolding print_trace_point c_string stamp time_of place pad signed unsigned digits
kernel_line = refl

-- The banner is all that is printed.
abort_run : sigabort cxx11 file true watched ≡ (banner, aborted)
abort_run = (sigabort-flush 2 [] watched watched_Ring cxx11 file cxx11-ne-kernel refl).0

program-prints_example :
    (s' s'' t : Runtrace) × (runtrace_init kernel machine 4 start ≡ ok success s')
    × (record_all kernel machine two_calls s' ≡ ok tt s'')
    × (print_trace_stack kernel 29 false 300 none s''
        ≡ ok
            (record {
              code = some 0;
              text = (lines_from (leveled 29) (entries two_calls []) (2 ^ 8) 0 0).0;
              priv = none;
            })
            t)
unfolding environment_check
program-prints_example =
    program-prints kernel machine 8 4 start (start_IsReady 4 (omega arith) (omega arith))
      (omega arith) refl refl refl two_calls 29 300 ((hello_IsText, omega arith), (tt, tt))
      (omega arith) (omega arith)

start_at-unseen_example : start_at idle 0x80000010 (some 3) ≡ (3, false)
start_at-unseen_example =
    start_at-unseen idle 4 refl refl (omega arith) (omega arith) 0x80000010 3 (omega arith)
      (omega arith) (inr (omega arith))
