-- ===== src/Runtrace/Trace/Refusal.antt =====
-- runtrace/runtrace.c, `print_trace_stack` with a size that is too small, and `sigabort`, which calls
-- it so.
use tripping_robot.Runtrace.Trace.{notice}
use tripping_robot.Runtrace.Trace.{banner}
use tripping_robot.Runtrace.Trace.{after_flush}
use tripping_robot.Prelude.{ℕ, ◌≡◌, refl}
use tripping_robot.Prelude.{Bool, true, false, Option, none, List, []}
use tripping_robot.Prelude.{lt_int}
use tripping_robot.Prelude.{◌≢◌, ◌==◌}
use tripping_robot.Runtrace.{Text, Build, Runtrace, ok, aborted, kernel, cxx11, builtins}
use tripping_robot.Runtrace.Print.{needed_bufsize}
use tripping_robot.Runtrace.Trace.{print_trace_stack, nothing, sigabort}
use tripping_robot.Runtrace.History.{Entry, Ring}
use tripping_robot.Runtrace.Trace.Report.{copied, copied-Ring, copy_pool-Ring}

module _ (k : ℕ) (hist : List Entry) (s : Runtrace) (r : Ring k hist s) where
  -- With a size below 260, or a negative one, nothing is printed wherever the text was to go: user
  -- space aborts, and the kernel returns -1, leaves the position, and keeps the history.
  pub print_trace_stack-small :
      (flags : ℕ) (to_buffer : Bool) (size : ℕ) (priv : Option ℕ)
      → lt_int size needed_bufsize ≡ true
      → (print_trace_stack cxx11 flags to_buffer size priv s ≡ aborted)
        × (print_trace_stack builtins flags to_buffer size priv s ≡ aborted)
        × (after : Runtrace) × (print_trace_stack kernel flags to_buffer size priv s
            ≡ ok (nothing none priv) after)
        × Ring k hist after
  unfolding print_trace_stack
  print_trace_stack-small flags to_buffer size priv small = (
    rw (r.unlocked, copy_pool-Ring k hist s r, small),
    rw (r.unlocked, copy_pool-Ring k hist s r, small),
    copied s r.pool,
    rw (r.unlocked, copy_pool-Ring k hist s r, small),
    copied-Ring k hist s r,
  )

  small_user :
      (build : Build)
      → build ≢ kernel
      → (flags : ℕ) → print_trace_stack build flags false 0 none s ≡ aborted
  small_user kernel user flags = absurd (user refl)
  small_user cxx11 user flags = (print_trace_stack-small flags false 0 none refl).0
  small_user builtins user flags = (print_trace_stack-small flags false 0 none refl).1

  -- In user space, where the flush on abort is asked for, `sigabort` of SIGABRT prints its banner, and
  -- then its call of `print_trace_stack` aborts; of another signal it prints the notice of an underrun
  -- if there was one, and changes nothing.
  pub sigabort-flush :
      (build : Build) (file : Text)
      → build ≢ kernel
      → (s.flush_on_abort == 0) ≡ false
      → (sigabort build file true s ≡ (banner, aborted))
        × (sigabort build file false s ≡ notice file [] s)
  unfolding sigabort after_flush
  sigabort-flush build file user asked =
      (simp (asked, small_user build user s.flush_with_flags), refl)
