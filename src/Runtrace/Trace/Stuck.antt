-- ===== src/Runtrace/Trace/Stuck.antt =====
-- runtrace/runtrace.c, what `make_tracept` meets after a `runtrace_reconfigure` that went wrong.
use tripping_robot.Prelude.{ℕ, ◌^◌, ◌≤◌, ◌<◌, ◌≡◌, refl, ◌∙◌}
use tripping_robot.Prelude.{true, false, Option, none}
use tripping_robot.Runtrace.{disabling_err, kernel, Text, Runtrace, ok, deadlock, failure}
use tripping_robot.Runtrace.Pool.{Platform, allocate, any_null, resize, runtrace_reconfigure}
use tripping_robot.Runtrace.Pool.Reconfigure.{reconfigure-resize}
use tripping_robot.Runtrace.Trace.{Clock, make_tracept}

abbrev given_up : Platform → ℕ → ℕ → Runtrace → Runtrace
given_up platform threads k s =
    record (allocate platform threads (2 ^ k) (record s { writer = true })) {
      tp_pool = none;
      tp_pool_copy = none;
      vsprint_buffer = none;
    }

any_null-locked :
    (platform : Platform) (threads size : ℕ) (s : Runtrace)
    → any_null (allocate platform threads size (record s { writer = true }))
      ≡ any_null (allocate platform threads size s)
unfolding allocate
any_null-locked platform threads size s = refl

resize-given_up :
    (platform : Platform) (threads k : ℕ) (s : Runtrace)
    → s.writer ≡ false
    → s.lock_initialised ≡ true
    → any_null (allocate platform threads (2 ^ k) s) ≡ true
    → resize kernel platform threads (2 ^ k) s ≡ ok failure (given_up platform threads k s)
unfolding resize
resize-given_up platform threads k s free ready null =
    rw (ready, free, any_null-locked platform threads (2 ^ k) s ∙ null) refl

-- Where the lock is held and there is no pool.
make_tracept-stuck :
    (platform : Platform) (now : Clock) (line : ℕ) (src : Text) (msg : Option Text) (s : Runtrace)
    → s.writer ≡ true
    → s.lock_initialised ≡ true
    → s.tp_pool ≡ none
    → make_tracept kernel platform now line src msg s ≡ deadlock
unfolding make_tracept disabling_err
make_tracept-stuck platform now line src msg s held ready empty = simp (empty, ready, held)

-- In the kernel, with the lock initialised, where an allocation of `runtrace_reconfigure` fails, the
-- call returns -1 and the lock stays held: every later tracepoint waits for ever.
pub make_tracept-deadlock :
    (platform : Platform) (threads k : ℕ) (s : Runtrace)
    → 1 ≤ threads
    → threads < 2 ^ 31
    → 2 ≤ k
    → k ≤ 30
    → s.writer ≡ false
    → s.lock_initialised ≡ true
    → any_null (allocate platform threads (2 ^ k) s) ≡ true
    → (s' : Runtrace) × (runtrace_reconfigure kernel platform threads (2 ^ k) s ≡ ok failure s')
      × ((platform' : Platform) (now : Clock) (line : ℕ) (src : Text) (msg : Option Text)
          → make_tracept kernel platform' now line src msg s' ≡ deadlock)
unfolding allocate
make_tracept-deadlock platform threads k s lo hi big small free ready null = (
  given_up platform threads k s,
  reconfigure-resize kernel platform k threads s big small lo hi
      ∙ resize-given_up platform threads k s free ready null,
  λ platform' now line src msg.
      make_tracept-stuck platform' now line src msg (given_up platform threads k s) refl ready refl,
)
