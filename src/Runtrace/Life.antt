-- ===== src/Runtrace/Life.antt =====
-- runtrace/runtrace.c, a program from `runtrace_init` over calls of `make_tracept` to the printout.
use tripping_robot.Prelude.{ℕ, zero, suc, ◌^◌, ◌≤◌, ◌<◌, ◌≡◌, refl, sym, ap, ◌∙◌, arith}
use tripping_robot.Prelude.{true, false, Option, none, some, List, [], ◌∷◌, length, inl, inr}
use tripping_robot.Runtrace.Text.{style_of}
use tripping_robot.Runtrace.{
  Build, kernel, cxx11, builtins, Text, Runtrace, Cmd, pure, ◌>>◌, ok, success,
}
use tripping_robot.Runtrace.History.{
  Entry, Ring, IsText, IsMessage, IsPrintable, message, lines_from,
}
use tripping_robot.Runtrace.Pool.{
  Platform, runtrace_reconfigure, pool_size_default, environment_check, lock_init, open_device,
  runtrace_init,
}
use tripping_robot.Runtrace.Pool.Reconfigure.{IsReady, runtrace_reconfigure-Ring}
use tripping_robot.Runtrace.Print.{needed_bufsize}
use tripping_robot.Runtrace.Trace.{Clock, make_tracept, print_trace_stack}
use tripping_robot.Runtrace.Trace.Ring.{entry, make_tracept-Ring}
use tripping_robot.Runtrace.Trace.Report.{Report, print_trace_stack-whole}

-- A call of `make_tracept`, and when it is made.
pub record Call : Type 0 where
  pub now : Clock
  pub line : ℕ
  pub src : Text
  pub msg : Option Text

-- The calls that a program makes, the first one first.
unfoldable pub record_all : Build → Platform → List Call → Cmd (Unit {0})
record_all build platform [] = pure tt
record_all build platform (c ∷ cs) =
    make_tracept build platform c.now c.line c.src c.msg >> record_all build platform cs

-- The history after the calls.
unfoldable pub entries : List Call → List Entry → List Entry
entries [] hist = hist
entries (c ∷ cs) hist = entries cs (entry c.now c.line c.src c.msg ∷ hist)

-- A message is a C string of fewer than 200 characters, or NULL.
abbrev pub IsShort : Option Text → Type 0
IsShort none = Unit {0}
IsShort (some t) = IsText t × (length t < 200)

abbrev pub AllShort : List Call → Type 0
AllShort [] = Unit {0}
AllShort (c ∷ cs) = IsShort c.msg × AllShort cs

IsShort-IsMessage : (o : Option Text) → IsShort o → IsMessage o
IsShort-IsMessage none h = tt
IsShort-IsMessage (some t) h = h.0

record_all-Ring :
    (build : Build) (platform : Platform) (k : ℕ) (cs : List Call) (hist : List Entry)
    (s : Runtrace)
    → AllShort cs
    → Ring k hist s
    → (s' : Runtrace) × (record_all build platform cs s ≡ ok tt s') × Ring k (entries cs hist) s'
unfolding record_all entries
record_all-Ring build platform k [] hist s short ring = (s, refl, ring)
record_all-Ring build platform k (c ∷ cs) hist s short ring =
    let (t, records, _, _, _, ring') =
      make_tracept-Ring build platform c.now c.line c.src c.msg k hist s
        (IsShort-IsMessage c.msg short.0) ring in
    let (s', rest, ring'') =
      record_all-Ring build platform k cs (entry c.now c.line c.src c.msg ∷ hist) t short.1 ring' in
    (s', simp records rest, ring'')

-- Every entry of a history can be printed.
abbrev pub AllPrintable : List Entry → Type 0
AllPrintable hist = (n : ℕ) → IsPrintable hist n

message-some : (o : Option Text) → IsShort o → (t : Text) × (message o ≡ some t)
message-some none h = ([], refl)
message-some (some t) h = (t, ground (arith, h.1))

pub entries-AllPrintable :
    (cs : List Call) (hist : List Entry)
    → AllShort cs
    → AllPrintable hist
    → AllPrintable (entries cs hist)
unfolding entries
entries-AllPrintable [] hist short h = h
entries-AllPrintable (c ∷ cs) hist short h =
    entries-AllPrintable cs (entry c.now c.line c.src c.msg ∷ hist) short.1
      (longer c hist short.0 h)
  where
    longer :
        (c : Call) (hist : List Entry)
        → IsShort c.msg
        → AllPrintable hist
        → AllPrintable (entry c.now c.line c.src c.msg ∷ hist)
    longer c hist short h n zero e lt at =
        let (t, m) = message-some c.msg short in (t, sym (ap msg_of at) ∙ m)
      where
        msg_of : Option Entry → Option Text
        msg_of none = none
        msg_of (some x) = x.msg
    longer c hist short h n (suc i) e lt at = h n i e (omega arith) at

lock_init-Ring :
    (build : Build) (k : ℕ) (hist : List Entry) (s : Runtrace)
    → Ring k hist s
    → Ring k hist (lock_init build s)
unfolding lock_init
lock_init-Ring kernel k hist s r = record {
  pool = r.pool;
  unlocked = r.unlocked;
  limit = r.limit;
  size = r.size;
  mask = r.mask;
  mem = r.mem;
  counter = r.counter;
  held = r.held;
  copy = r.copy;
  copied = r.copied;
  ring = r.ring;
}
lock_init-Ring cxx11 k hist s r = record {
  pool = r.pool;
  unlocked = refl;
  limit = r.limit;
  size = r.size;
  mask = r.mask;
  mem = r.mem;
  counter = r.counter;
  held = r.held;
  copy = r.copy;
  copied = r.copied;
  ring = r.ring;
}
lock_init-Ring builtins k hist s r = record {
  pool = r.pool;
  unlocked = refl;
  limit = r.limit;
  size = r.size;
  mask = r.mask;
  mem = r.mem;
  counter = r.counter;
  held = r.held;
  copy = r.copy;
  copied = r.copied;
  ring = r.ring;
}

-- The state after the end of `runtrace_init`.
abbrev registered : Build → Runtrace → Runtrace
registered kernel s = s
registered cxx11 s = record s { abort_handler = true }
registered builtins s = record s { abort_handler = true }

registered-Ring :
    (build : Build) (k : ℕ) (hist : List Entry) (s : Runtrace)
    → Ring k hist s
    → Ring k hist (registered build s)
registered-Ring kernel k hist s r = r
registered-Ring cxx11 k hist s r = record {
  pool = r.pool;
  unlocked = r.unlocked;
  limit = r.limit;
  size = r.size;
  mask = r.mask;
  mem = r.mem;
  counter = r.counter;
  held = r.held;
  copy = r.copy;
  copied = r.copied;
  ring = r.ring;
}
registered-Ring builtins k hist s r = record {
  pool = r.pool;
  unlocked = r.unlocked;
  limit = r.limit;
  size = r.size;
  mask = r.mask;
  mem = r.mem;
  counter = r.counter;
  held = r.held;
  copy = r.copy;
  copied = r.copied;
  ring = r.ring;
}

open_device-runs :
    (build : Build) (platform : Platform) (s : Runtrace)
    → platform.region ≡ true
    → platform.cdev ≡ true
    → open_device build platform s ≡ ok success (registered build s)
unfolding open_device
open_device-runs kernel platform s region cdev = simp (region, cdev)
open_device-runs cxx11 platform s region cdev = refl
open_device-runs builtins platform s region cdev = refl

module _ (build : Build) (platform : Platform) (k threads : ℕ) (s : Runtrace)
    (ready : IsReady platform k threads s) (enough : 3 ≤ threads)
    (configured : environment_check build platform pool_size_default ≡ 2 ^ k)
    (region : platform.region ≡ true) (cdev : platform.cdev ≡ true) where
  runtrace_init-run :
      (t : Runtrace)
      → runtrace_reconfigure build platform threads
          (2 ^ k)
          (record s { next_tp = 0; nr_cpus = platform.cpus })
        ≡ ok success t
      → runtrace_init build platform threads s ≡ ok success (registered build (lock_init build t))
  unfolding runtrace_init
  runtrace_init-run t runs =
      simp (configured, runs) (open_device-runs build platform (lock_init build t) region cdev)

  runtrace_init-Ring :
      (s' : Runtrace) × (runtrace_init build platform threads s ≡ ok success s') × Ring k [] s'
  runtrace_init-Ring =
      let reset = record s { next_tp = 0; nr_cpus = platform.cpus } in
      let (t, cs, runs, ring, _, _) =
        runtrace_reconfigure-Ring build platform k threads reset
          (record {
            lower = ready.lower;
            upper = ready.upper;
            some_thread = ready.some_thread;
            narrow = ready.narrow;
            unlocked = ready.unlocked;
            counter = omega arith;
            memory = ready.memory;
          })
          enough in
      (
        registered build (lock_init build t),
        runtrace_init-run t runs,
        registered-Ring build k [] (lock_init build t) (lock_init-Ring build k [] t ring),
      )

  -- A program that calls `runtrace_init` for at least 3 threads, then `make_tracept` any number of
  -- times, and then `print_trace_stack` to the log without a position, gets the lines of its last 2 ^ k
  -- calls, oldest first, each of them once and whole: in the kernel, with a level before each part of a
  -- line, and in user space, the file being there without the call of `wake_up_interruptible`, which
  -- does not compile. Nothing fails on the way. The pool size that the environment gives is 2 ^ k with
  -- 2 ≤ k ≤ 23, there is memory enough, no writer is in the lock, the device is registered, the messages
  -- are shorter than 200 characters, and the size that is given for a buffer is at least 260.
  pub program-prints :
      (cs : List Call) (flags size : ℕ)
      → AllShort cs
      → needed_bufsize ≤ size
      → size < 2 ^ 31
      → (s' s'' t : Runtrace) × (runtrace_init build platform threads s ≡ ok success s')
        × (record_all build platform cs s' ≡ ok tt s'')
        × (print_trace_stack build flags false size none s''
            ≡ ok
                (record {
                  code = some 0;
                  text = (lines_from (style_of build false flags) (entries cs []) (2 ^ k) 0 0).0;
                  priv = none;
                })
                t)
  program-prints cs flags size short lo hi =
      let (s', inits, empty) = runtrace_init-Ring in
      let (s'', records, ring) = record_all-Ring build platform k cs [] s' short empty in
      let r =
        print_trace_stack-whole k (entries cs []) s'' ring build flags false size lo hi
          (entries-AllPrintable cs [] short none_yet (2 ^ k)) tt in
      (
        s',
        s'',
        r.after,
        inits,
        records,
        r.runs
            ∙ ap (λ out. ok (record { code = some 0; text = out; priv = none }) r.after)
                (whole flags size s'' cs r),
      )
    where
      none_yet : AllPrintable []
      none_yet n i e lt at = absurd (cc at)

      whole :
          (flags size : ℕ) (s'' : Runtrace) (cs : List Call)
          → (r : Report build flags false size none k (entries cs []) (2 ^ k) s'')
          → r.out ≡ (lines_from (style_of build false flags) (entries cs []) (2 ^ k) 0 0).0
      whole flags size s'' cs r = elim r.ended [
        | inl all ↦
            r.text
            ∙ ap (λ m. (lines_from (style_of build false flags) (entries cs []) r.n m 0).0) all
            ∙ ap (λ m. (lines_from (style_of build false flags) (entries cs []) m 0 0).0)
                (omega (arith, r.split))
        | inr cut ↦ absurd (cc (cut.0))
      ]
