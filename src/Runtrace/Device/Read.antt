-- ===== src/Runtrace/Device/Read.antt =====
-- runtrace/runtrace.c, `cdev_read`: what a reader gets, and when it waits.
use tripping_robot.Runtrace.Text.{plain}
use tripping_robot.Runtrace.Trace.{wakes}
use native.Mathlib.Nat.{pow-le-pow_right}
use tripping_robot.Prelude.{
  ℕ, zero, suc, ◌+◌, ◌%◌, ◌^◌, ◌≤◌, ◌<◌, ◌≡◌, ◌≢◌, refl, sym, ap, ◌∙◌, arith,
}
use tripping_robot.Prelude.{
  Bool, true, false, some, List, [], ◌∷◌, ◌==◌, if◌then◌else◌, length, sub_word, inl, inr,
  Bool-cases,
}
use tripping_robot.Prelude.Wrap.{pow_pos}
use tripping_robot.Runtrace.{kernel, Text, Runtrace, Cmd, ok}
use tripping_robot.Runtrace.Pool.{Platform}
use tripping_robot.Runtrace.History.{Entry, Ring, IsText, IsPrintable, entry_line, lines_from}
use tripping_robot.Runtrace.Print.{buffer, needed_bufsize}
use tripping_robot.Runtrace.Print.Round.{Room}
use tripping_robot.Runtrace.Trace.{Clock, make_tracept}
use tripping_robot.Runtrace.Trace.Ring.{entry, make_tracept-Ring}
use tripping_robot.Runtrace.Trace.Report.{Report, print_trace_stack-unread}
use tripping_robot.Runtrace.Device.{
  Event, signal, runs, sleep, wait_event, returned, again, restart, sleeping, no_text,
  print_default, cdev_read,
}
use tripping_robot.Runtrace.Device.Shown.{lines_from-pos, new-IsPrintable, new-Room, new_line}

equal : (m n : ℕ) → m ≡ n → (m == n) ≡ true
equal m n e = ground arith

unequal : (m n : ℕ) → m ≢ n → (m == n) ≡ false
unequal m n e = ground arith

-- A reader that has read everything gets -EAGAIN from a file that does not block, and otherwise 0
-- if blocking was turned off. A reader that blocks sleeps until something happens, and a signal ends
-- the call with -ERESTARTSYS. Nothing is printed, and the position and the state stay.
pub cdev_read-idle :
    (fuel count : ℕ) (events : List Event) (s : Runtrace)
    → (cdev_read (suc fuel) true count events s.next_tp s ≡ ok (no_text again s.next_tp) s)
      × (cdev_read (suc fuel) false count [] s.next_tp s
          ≡ ok (no_text (if s.cdev_blocking_read then sleeping else returned 0) s.next_tp) s)
      × (cdev_read (suc fuel) false count (signal ∷ events) s.next_tp s
          ≡ ok (no_text (if s.cdev_blocking_read then restart else returned 0) s.next_tp) s)
unfolding cdev_read wait_event sleep
cdev_read-idle fuel count events s = elim (Bool-cases s.cdev_blocking_read) [
  | inl blocks ↦ (simp here, simp (here, blocks), simp (here, blocks))
  | inr returns ↦ (simp here, simp (here, returns), simp (here, returns))
]
  where
    here : (s.next_tp == s.next_tp) ≡ true
    here = equal s.next_tp s.next_tp refl

module _ (k : ℕ) (hist : List Entry) (s : Runtrace) (count unread : ℕ) where
  some_text :
      (r : Report kernel print_default true count
        (some (sub_word 32 s.next_tp unread))
        k
        hist
        unread
        s)
      → needed_bufsize ≤ count
      → 0 < unread
      → unread ≤ length hist
      → 0 < length r.out
  some_text r lo pos known = go r.n refl
    where
      go : (n : ℕ) → r.n ≡ n → 0 < length r.out
      go zero e = elim r.ended [
        | inl whole ↦ absurd (omega (arith, r.split))
        | inr cut ↦ omega (arith, cut.1)
      ]
      go (suc n) e =
          let text : length r.out
              ≡ length (lines_from (plain print_default) hist (suc n) r.skip 0).0 =
            ap length (r.text ∙ ap (λ m. (lines_from (plain print_default) hist m r.skip 0).0) e) in
          omega
            (arith, lines_from-pos (plain print_default) hist n r.skip 0 (omega (arith, r.split)))

  behind-lem :
      2 ^ k ≤ 2 ^ 30
      → unread ≤ 2 ^ k
      → 0 < unread
      → s.next_tp < 2 ^ 31
      → (sub_word 32 s.next_tp unread == s.next_tp) ≡ false
  behind-lem narrow held pos low = ground (arith, narrow)

  -- In a ready facility of the kernel whose counter is below 2 ^ 31, a reader whose position has
  -- `unread` entries behind it, at least one, all of them made and still in the pool, and whose buffer
  -- has from 260 to 2 ^ 31 - 1 bytes, gets some text at once, whatever the settings for blocking are.
  -- The text and the new position are those of `print_trace_stack`. Every message ends inside its
  -- array, and each line is shorter than 260.
  pub cdev_read-unread :
      (fuel : ℕ) (nonblock : Bool) (events : List Event)
      → Ring k hist s
      → needed_bufsize ≤ count
      → count < 2 ^ 31
      → s.next_tp < 2 ^ 31
      → 0 < unread
      → unread ≤ 2 ^ k
      → unread ≤ length hist
      → IsPrintable hist unread
      → Room (buffer count) (plain print_default) hist unread
      → (r : Report kernel print_default true count
          (some (sub_word 32 s.next_tp unread))
          k
          hist
          unread
          s)
        × (cdev_read (suc fuel) nonblock count events (sub_word 32 s.next_tp unread) s
            ≡ ok
                (record {
                  answer = returned (length r.out);
                  text = r.out;
                  pos = sub_word 32 s.next_tp r.skip;
                })
                r.after)
        × (0 < length r.out)
  unfolding cdev_read
  cdev_read-unread fuel nonblock events ring lo hi low pos held known printable room =
      let r =
        print_trace_stack-unread k hist s ring kernel print_default true count unread lo hi low pos
          held printable room in
      let text = some_text r lo pos known in
      let behind : (sub_word 32 s.next_tp unread == s.next_tp) ≡ false =
        behind-lem (pow-le-pow_right {n = 2} (omega arith) ring.limit) held pos low in
      let word : count % 2 ^ 32 ≡ count = omega arith in
      (r, simp (behind, word, r.runs, unequal (length r.out) 0 (λ e. absurd (omega arith))), text)

-- A sleeping reader goes on in the state of a thread that has moved the counter and woken the readers.
cdev_read-step :
    (n count : ℕ) (others : Cmd (Unit {0})) (events : List Event) (s s' : Runtrace)
    → s.cdev_blocking_read ≡ true
    → others s ≡ ok tt s'
    → s.next_tp ≢ s'.next_tp
    → s'.wakeups ≢ s.wakeups
    → cdev_read (suc n) false count (runs others ∷ events) s.next_tp s
      ≡ cdev_read n false count events s.next_tp s'
unfolding cdev_read wait_event sleep
cdev_read-step n count others events s s' blocks did moved woke = simp (
  equal s.next_tp s.next_tp refl,
  blocks,
  did,
  unequal s.next_tp s'.next_tp moved,
  unequal s'.wakeups s.wakeups woke,
)

-- A reader of a ready facility of the kernel, with a counter below 2 ^ 31 - 1, has read everything and
-- sleeps until it is woken. Another thread calls `make_tracept`, and nothing more is needed: the call returns
-- the line of just this tracepoint, and leaves the reader behind it, whatever happens later. The source has
-- at most 16 characters, the message fewer than 200, the line number is an `int`, and the buffer has from
-- 260 to 2 ^ 31 - 1 bytes. Two rounds are enough.
pub cdev_read-woken :
    (fuel count : ℕ) (events : List Event) (platform : Platform) (now : Clock) (line : ℕ)
    (src msg : Text) (k : ℕ) (hist : List Entry) (s : Runtrace)
    → Ring k hist s
    → s.cdev_blocking_read ≡ true
    → s.next_tp + 1 < 2 ^ 31
    → needed_bufsize ≤ count
    → count < 2 ^ 31
    → IsText msg
    → length msg < 200
    → length src ≤ 16
    → line < 2 ^ 32
    → (s' : Runtrace) × (text : Text) × (text
        ≡ entry_line (plain print_default) (entry now line src (some msg)) msg 0)
      × (cdev_read
            (suc (suc fuel))
            false
            count
            (runs (make_tracept kernel platform now line src (some msg)) ∷ events)
            s.next_tp
            s
          ≡ ok (record { answer = returned (length text); text = text; pos = s.next_tp + 1 }) s')
      × Ring k (entry now line src (some msg) ∷ hist) s'
unfolding wakes
cdev_read-woken fuel count events platform now line src msg k hist s ring blocks low lo hi text_ok
      short narrow word =
    let (s1, records, counter, _, wakeups, ring1) =
      make_tracept-Ring kernel platform now line src (some msg) k hist s text_ok ring in
    let woke : s1.wakeups ≡ s.wakeups + 1 = wakeups in
    let e = entry now line src (some msg) in
    let next : s1.next_tp ≡ s.next_tp + 1 = counter ∙ omega arith in
    let (r, reads, some_read) =
      cdev_read-unread k (e ∷ hist) s1 count 1 fuel false events ring1 lo hi (omega arith)
        (omega arith) (pow_pos k) (omega arith) (new-IsPrintable now line src msg hist short)
        (new-Room now line src msg hist short count lo narrow word) in
    let (skip, text) =
      new_line now line src msg hist short r.n r.skip r.out r.split r.text some_read in
    let place : sub_word 32 s1.next_tp 1 ≡ s.next_tp = omega arith in
    let after : sub_word 32 s1.next_tp r.skip ≡ s.next_tp + 1 =
      ap (sub_word 32 s1.next_tp) skip ∙ omega arith in
    (
      r.after,
      r.out,
      text,
      cdev_read-step (suc fuel) count (make_tracept kernel platform now line src (some msg)) events
            s s1 blocks records (λ same. absurd (omega arith))
            (λ same. absurd (omega (arith, woke)))
          ∙ sym (ap (λ p. cdev_read (suc fuel) false count events p s1) place)
          ∙ reads
          ∙ ap
              (λ p. ok (record { answer = returned (length r.out); text = r.out; pos = p }) r.after)
              after,
      r.kept,
    )
