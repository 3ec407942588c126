-- ===== src/Runtrace/Writers/Ring.antt =====
-- runtrace/runtrace.c, `make_tracept` against `print_trace_stack`: the copy that is printed.
use tripping_robot.Prelude.{ℕ, ◌≤◌, ◌≡◌, arith}
use tripping_robot.Runtrace.Text.{Style}
use tripping_robot.Runtrace.Writers.{
  outside, reading, Writers, Step, enters, takes, writes, leaves, locks, copies, unlocks, returns,
  IsCalm,
}
use tripping_robot.Runtrace.Writers.Inv.{Inv}
use tripping_robot.Runtrace.Writers.Inv.Lock.{
  enters-Inv, leaves-Inv, locks-Inv, copies-Inv, unlocks-Inv, returns-Inv,
}
use tripping_robot.Runtrace.Writers.Inv.Write.{writes-Inv}
use tripping_robot.Runtrace.Writers.Inv.Take.{takes-Inv}
use tripping_robot.Runtrace.Writers.{Run, ended, then_step, AllCalm}
use tripping_robot.Runtrace.History.{IsRing, IsPrintable, lines_from}
use tripping_robot.Prelude.{◌-◌, ◌^◌, ◌<◌, [], some, ap₂, ◌∙◌, bit_and, sub_word}
use tripping_robot.Runtrace.Print.{log, full, Progress, print_loop}
use tripping_robot.Runtrace.Print.Window.{print_loop-window}

-- Every step keeps the invariant, if no number goes to a slot that another thread still writes to.
Step-Inv : (k : ℕ) (s s' : Writers) → k ≤ 32 → Inv k s → (x : Step k s s') → IsCalm k x → Inv k s'
Step-Inv k _ _ narrow inv (enters t c s here m free) calm = enters-Inv k s inv t c here m free
Step-Inv k _ _ narrow inv (takes t c s here) calm = takes-Inv k s inv t c here narrow calm
Step-Inv k _ _ narrow inv (writes t n c g s here) calm = writes-Inv k s inv t n c g here
Step-Inv k _ _ narrow inv (leaves t n c s here) calm = leaves-Inv k s inv t n c here
Step-Inv k _ _ narrow inv (locks t s here free) calm = locks-Inv k s inv t here free
Step-Inv k _ _ narrow inv (copies t s here) calm = copies-Inv k s inv t here calm
Step-Inv k _ _ narrow inv (unlocks t l s here) calm = unlocks-Inv k s inv t l here
Step-Inv k _ _ narrow inv (returns t l s here) calm = returns-Inv k s inv t l here

Run-Inv : (k : ℕ) (s s' : Writers) → k ≤ 32 → Inv k s → (r : Run k s s') → AllCalm k r → Inv k s'
Run-Inv k _ _ narrow inv (ended s) calm = inv
Run-Inv k _ _ narrow inv (then_step s t u r x) calm =
    Step-Inv k t u narrow (Run-Inv k s t narrow inv r calm.0) x calm.1

-- With no thread in either function the invariant is that the pool holds the history.
idle-Inv :
    (k : ℕ) (s : Writers)
    → ((t : ℕ) → s.place t ≡ outside)
    → s.next_tp < 2 ^ 32
    → IsRing k s.next_tp s.made s.pool
    → Inv k s
idle-Inv k s idle small ring = record {
  slots = ring.slots;
  called = λ t c e. ground (arith, idle t);
  worded = λ t n c g e. ground (arith, idle t);
  stored = λ t n c g e. ground (arith, idle t);
  numbered = λ t n c g i e hi step. ground (arith, idle t);
  distinct = λ t u n m c d g h a b e. ground (arith, idle t);
  recent = λ i j hi hj step free. ring.recent i j hi hj step;
  excluded = λ t u b e ne. ground (arith, idle t);
  copied = λ t l e. ground (arith, idle t);
  read = λ t l e. ground (arith, idle t);
  counter = small;
}

module _ (k t last_tp : ℕ) (s s' : Writers) (narrow : k ≤ 30) (idle : (u : ℕ) → s.place u ≡ outside)
    (small : s.next_tp < 2 ^ 32) (ring : IsRing k s.next_tp s.made s.pool) (r : Run k s s')
    (calm : AllCalm k r) (here : s'.place t ≡ reading last_tp) where
  read_lem : IsRing k last_tp s'.seen s'.copy × (last_tp < 2 ^ 32)
  read_lem =
      (Run-Inv k s s' (omega arith) (idle-Inv k s idle small ring) r calm).read t last_tp here

  -- The copy is the pool of a history: that of the moment of the copy, with no record that is only
  -- partly written.
  copy-IsRing : IsRing k last_tp s'.seen s'.copy
  copy-IsRing = read_lem.0

  -- Any number of threads record and print in any interleaving, from a pool of 2 ^ k records that
  -- holds the history, where k is at most 30, with no thread in either function. No writer is
  -- overtaken by a whole round of the pool while it still writes, and no copy is made while another
  -- thread prints from the last one. A thread has left the lock with its copy. Where its loop starts
  -- `left` numbers before the counter that was read with the copy, at most 2 ^ k, and the messages of
  -- these entries end inside their arrays, it logs, in the style that it is given, the lines of the
  -- last `left` calls that had taken a number when the copy was made, in the order of the numbers, each of them once and whole.
  pub print_loop-copy :
      (style : Style) (left : ℕ)
      → left ≤ 2 ^ k
      → IsPrintable s'.seen left
      → (p' : Progress) × (print_loop style log s'.copy
            (2 ^ k - 1)
            (sub_word 32 last_tp (sub_word 32 last_tp left))
            (bit_and (sub_word 32 last_tp left) (2 ^ k - 1))
            (record { out = []; prev_time = 0; tp_num = sub_word 32 last_tp left })
          ≡ some p')
        × (p'.out ≡ (lines_from style s'.seen left 0 0).0)
  unfolding full
  print_loop-copy style left h printable =
      let (p', runs, out) =
        print_loop-window k last_tp s'.seen s'.copy read_lem.0 narrow read_lem.1 style log left [] h
          printable tt tt in
      let none_left : out.skip ≡ 0 = ground (arith, out.ended) in
      (
        p',
        runs,
        out.text
            ∙ ap₂ (λ n skip. (lines_from style s'.seen n skip 0).0) {x = out.n} {y = left}
                (omega (arith, out.split, none_left)) none_left,
      )
