-- ===== src/Runtrace/Device/Tests.antt =====
-- runtrace/runtrace.c, the character device: the theorems at concrete states.
use tripping_robot.Prelude.{ℕ, ◌+◌, ◌-◌, ◌^◌, ◌≤◌, ◌<◌, ◌≡◌, refl, arith}
use tripping_robot.Prelude.{true, false, some, [], ◌∷◌, length, sub_word}
use tripping_robot.Runtrace.Text.{plain}
use tripping_robot.Runtrace.{kernel, Text, Runtrace, ok}
use tripping_robot.Runtrace.History.{Ring, entry_line}
use tripping_robot.Runtrace.Trace.{make_tracept}
use tripping_robot.Runtrace.Trace.Ring.{entry}
use tripping_robot.Runtrace.Trace.Report.{Report}
use tripping_robot.Runtrace.Tests.{
  machine, idle, idle_Ring, noon, hello, hello_IsText, file, traced, hist, hist-IsPrintable,
}
use tripping_robot.Runtrace.Device.{
  cdev_open, signal, runs, returned, again, restart, sleeping, no_text, print_default, cdev_read,
}
use tripping_robot.Runtrace.Device.Open.{Uses, Uses-counts}
use tripping_robot.Runtrace.Device.Open
use tripping_robot.Runtrace.Device.Read.{cdev_read-idle, cdev_read-unread, cdev_read-woken}
use tripping_robot.Runtrace.Device.Shown.{new-Room}

abbrev waiting : Runtrace
waiting = record idle { cdev_blocking_read = true }

abbrev waiting_Ring : Ring 2 [] waiting
waiting_Ring = record {
  pool = idle_Ring.pool;
  unlocked = refl;
  limit = omega arith;
  size = refl;
  mask = refl;
  mem = refl;
  counter = omega arith;
  held = refl;
  copy = idle_Ring.copy;
  copied = refl;
  ring = idle_Ring.ring;
}

abbrev two_open : Runtrace
two_open = record idle { cdev_readers = 2 }

-- Two files are open, and a third call is refused.
two_open-Uses : Uses 2 1 3 two_open
unfolding cdev_open
two_open-Uses =
    Open.refuses 2 0 2 two_open 3 two_open
      (Open.opens 1 0 1 (record idle { cdev_readers = 1 }) (2 ^ 32 - 5) 2 two_open
        (Open.opens 0 0 0 idle (2 ^ 32 - 5) 1 (record idle { cdev_readers = 1 })
          (Open.start idle refl) refl)
        refl)
      refl

Uses-counts_example : (2 ≤ 2) × (two_open.cdev_readers ≡ 2) × ◌≡◌ {A = ℕ} 3 (2 + 1)
Uses-counts_example = Uses-counts 2 1 3 two_open two_open-Uses

cdev_read-idle_example :
    (cdev_read 3 true 300 [] 0 waiting ≡ ok (no_text again 0) waiting)
    × (cdev_read 3 false 300 [] 0 waiting ≡ ok (no_text sleeping 0) waiting)
    × (cdev_read 3 false 300 (signal ∷ []) 0 waiting ≡ ok (no_text restart 0) waiting)
cdev_read-idle_example = cdev_read-idle 2 300 [] waiting

cdev_read-unread_example :
    (r : Report kernel print_default true 300
      (some (sub_word 32 traced.0.next_tp 1))
      2
      hist
      1
      traced.0)
    × (cdev_read 2 true 300 [] (sub_word 32 traced.0.next_tp 1) traced.0
        ≡ ok
            (record {
              answer = returned (length r.out);
              text = r.out;
              pos = sub_word 32 traced.0.next_tp r.skip;
            })
            r.after)
    × (0 < length r.out)
cdev_read-unread_example =
    cdev_read-unread 2 hist traced.0 300 1 1 true [] traced.5 (omega arith) (omega arith)
      (omega (arith, traced.2)) (omega arith) (omega arith) (omega arith) (hist-IsPrintable 1)
      (new-Room noon 12 file hello [] (omega arith) 300 (omega arith) (omega arith) (omega arith))

cdev_read-woken_example :
    (s' : Runtrace) × (text : Text) × (text
      ≡ entry_line (plain print_default) (entry noon 12 file (some hello)) hello 0)
    × (cdev_read 2 false 300
          (runs (make_tracept kernel machine noon 12 file (some hello)) ∷ [])
          0
          waiting
        ≡ ok (record { answer = returned (length text); text = text; pos = 1 }) s')
    × Ring 2 (entry noon 12 file (some hello) ∷ []) s'
cdev_read-woken_example =
    cdev_read-woken 0 300 [] machine noon 12 file hello 2 [] waiting waiting_Ring refl (omega arith)
      (omega arith) (omega arith) hello_IsText (omega arith) (omega arith) (omega arith)
