-- ===== src/Runtrace/Trace/Report.antt =====
-- runtrace/runtrace.c, `print_trace_stack` as a whole: what it prints of the history, where it stops,
-- and how a further call goes on.
use native.Mathlib.Nat.{pow-le-pow_right}
use tripping_robot.Prelude.{ℕ, ◌+◌, ◌^◌, ◌≤◌, ◌<◌, ◌≡◌, refl, ◌∙◌, ◌⊎◌}
use tripping_robot.Prelude.{Bool, true, false, Option, none, some, List, [], arith}
use tripping_robot.Prelude.{add_word, sub_word, inl, inr, length, if◌then◌else◌, lt_int}
use mathlib.Core.Option
use tripping_robot.Prelude.Wrap.{pow_pos}
use tripping_robot.Runtrace.Text.{Style, style_of}
use tripping_robot.Runtrace.{Build, Text, Tracept, Runtrace, ok, need}
use tripping_robot.Runtrace.Print.{
  Target, log, buffer, Progress, needed_bufsize, print_copy, copy_pool, lead, same_priv, full,
  start_at, count,
}
use tripping_robot.Runtrace.Print.Round.{Fits, Room}
use tripping_robot.Runtrace.Print.Loop.{Printout}
use tripping_robot.Runtrace.Print.Window.{print_loop-window, start_at-unread}
use tripping_robot.Runtrace.Trace.{print_trace_stack}
use tripping_robot.Runtrace.History.{Entry, Ring, IsPrintable, lines_from}

-- The state after the copy.
abbrev pub copied : Runtrace → List Tracept → Runtrace
copied s xs = record s { writer = false; tp_pool_copy = some xs }

wide : (size : ℕ) → needed_bufsize ≤ size → size < 2 ^ 31 → lt_int size needed_bufsize ≡ false
wide size lo hi = ground arith

module _ (k : ℕ) (hist : List Entry) (s : Runtrace) (r : Ring k hist s) where
  pub copied-Ring : Ring k hist (copied s r.pool)
  copied-Ring = record {
    pool = r.pool;
    unlocked = refl;
    limit = r.limit;
    size = r.size;
    mask = r.mask;
    mem = r.mem;
    counter = r.counter;
    held = r.held;
    copy = r.pool;
    copied = refl;
    ring = r.ring;
  }

  pub copy_pool-Ring :
      copy_pool (record s { writer = true })
      ≡ some (record s { writer = true; tp_pool_copy = some r.pool })
  unfolding copy_pool
  copy_pool-Ring = rw (r.mem, r.held, r.copied)

  -- With a size that is enough for one record, and something new, the call comes to the printing.
  print_trace_stack-start :
      (build : Build) (flags : ℕ) (to_buffer : Bool) (size : ℕ) (priv : Option ℕ)
      → needed_bufsize ≤ size
      → size < 2 ^ 31
      → same_priv priv s.next_tp ≡ false
      → print_trace_stack build flags to_buffer size priv s
        ≡ need
            (print_copy
              (style_of build to_buffer flags)
              (if to_buffer then buffer size else log)
              priv
              (copied s r.pool))
            (copied s r.pool)
  unfolding print_trace_stack print_copy lead start_at
  print_trace_stack-start build flags to_buffer size priv lo hi fresh =
      rw (r.unlocked, copy_pool-Ring, wide size lo hi, fresh)

  -- The state before the first record.
  abbrev from_left : ℕ → Progress
  from_left left = record { out = []; prev_time = 0; tp_num = sub_word 32 s.next_tp left }

  print_copy-window :
      (style : Style) (target : Target) (priv : Option ℕ) (left : ℕ)
      → start_at (copied s r.pool) s.next_tp priv ≡ (sub_word 32 s.next_tp left, false)
      → left ≤ 2 ^ k
      → IsPrintable hist left
      → Room target style hist left
      → Fits target []
      → (p' : Progress) × (print_copy style target priv (copied s r.pool)
          ≡ some (record {
            code = some (count target p'.out);
            text = p'.out;
            priv = Option.map (λ _. p'.tp_num) priv;
          }))
        × Printout style target hist left (from_left left) p'
  unfolding print_copy lead
  print_copy-window style target priv left start h printable room fits =
      let (p', runs, o) =
        print_loop-window k s.next_tp hist r.pool r.ring r.limit r.counter style target left [] h
          printable room fits in
      (p', rw (start, r.mask, runs), o)

-- What a call of `print_trace_stack` has done that left no fault: it has printed the lines of the
-- entries of the ages below `left`, oldest first, down to the age `skip`, and left the history as it
-- was. The next number for the caller is the one of the first entry that it has not printed.
pub record Report (build : Build) (flags : ℕ) (to_buffer : Bool) (size : ℕ) (priv : Option ℕ)
    (k : ℕ) (hist : List Entry) (left : ℕ) (s : Runtrace) : Type 0 where
  pub after : Runtrace
  pub skip : ℕ
  pub n : ℕ
  pub split : left ≡ skip + n
  pub out : Text
  pub runs :
      print_trace_stack build flags to_buffer size priv s
      ≡ ok
          (record {
            code = some (if to_buffer then length out else 0);
            text = out;
            priv = Option.map (λ _. sub_word 32 s.next_tp skip) priv;
          })
          after
  pub text : out ≡ (lines_from (style_of build to_buffer flags) hist n skip 0).0
  pub kept : Ring k hist after
  pub counter : after.next_tp ≡ s.next_tp
  pub ended : (skip ≡ 0) ⊎ ((to_buffer ≡ true) × (size < length out + needed_bufsize))
  pub fits : (to_buffer ≡ false) ⊎ (length out < size)

abbrev pub target_of : Bool → ℕ → Target
target_of to_buffer size = if to_buffer then buffer size else log

number_lem :
    (next left skip n : ℕ)
    → next < 2 ^ 32
    → left ≤ 2 ^ 30
    → left ≡ skip + n
    → add_word 32 (sub_word 32 next left) n ≡ sub_word 32 next skip
number_lem next left skip n word small split = omega arith

fits_lem :
    (to_buffer : Bool) (size : ℕ) (out : Text)
    → Fits (target_of to_buffer size) out
    → (to_buffer ≡ false) ⊎ (length out < size)
fits_lem true size out h = inr h
fits_lem false size out h = inl refl

ended_lem :
    (to_buffer : Bool) (size skip : ℕ) (out : Text)
    → needed_bufsize ≤ size
    → (skip ≡ 0) ⊎ (full (target_of to_buffer size) out ≡ true)
    → (skip ≡ 0) ⊎ ((to_buffer ≡ true) × (size < length out + needed_bufsize))
unfolding full
ended_lem true size skip out lo h = ground arith
ended_lem false size skip out lo h = ground arith

Fits-empty :
    (to_buffer : Bool) (size : ℕ) → needed_bufsize ≤ size → Fits (target_of to_buffer size) []
Fits-empty true size lo = omega arith
Fits-empty false size lo = tt

count_lem :
    (to_buffer : Bool) (size : ℕ) (out : Text)
    → count (target_of to_buffer size) out ≡ (if to_buffer then length out else 0)
count_lem true size out = refl
count_lem false size out = refl

module _ (k : ℕ) (hist : List Entry) (s : Runtrace) (r : Ring k hist s) where
  report :
      (build : Build) (flags : ℕ) (to_buffer : Bool) (size : ℕ) (priv : Option ℕ) (left : ℕ)
      → needed_bufsize ≤ size
      → size < 2 ^ 31
      → same_priv priv s.next_tp ≡ false
      → start_at (copied s r.pool) s.next_tp priv ≡ (sub_word 32 s.next_tp left, false)
      → left ≤ 2 ^ k
      → IsPrintable hist left
      → Room (target_of to_buffer size) (style_of build to_buffer flags) hist left
      → Report build flags to_buffer size priv k hist left s
  report build flags to_buffer size priv left lo hi fresh start h printable room =
      let (p', runs, o) =
        print_copy-window k hist s r (style_of build to_buffer flags) (target_of to_buffer size)
          priv left start h printable room (Fits-empty to_buffer size lo) in
      let number : p'.tp_num ≡ sub_word 32 s.next_tp o.skip =
        o.number
        ∙ number_lem s.next_tp left o.skip o.n r.counter
            (omega (arith, pow-le-pow_right {n = 2} (omega arith) r.limit)) o.split in
      record {
        after = copied s r.pool;
        skip = o.skip;
        n = o.n;
        split = o.split;
        out = p'.out;
        runs =
            print_trace_stack-start k hist s r build flags to_buffer size priv lo hi fresh
            ∙ rw (runs, number, count_lem to_buffer size p'.out);
        text = o.text;
        kept = copied-Ring k hist s r;
        counter = refl;
        ended = ended_lem to_buffer size o.skip p'.out lo o.ended;
        fits = fits_lem to_buffer size p'.out o.fits;
      }

  -- In a ready facility, a call without a position, with a size of at least 260 below 2 ^ 31, succeeds
  -- and prints the lines of the last 2 ^ k entries, oldest first, to the log or into the buffer, all of
  -- them unless the buffer has less than 260 bytes left; the text and its NUL fit the buffer, and the
  -- history stays. Every message ends inside its array, and for a buffer each line is shorter than 260.
  pub print_trace_stack-whole :
      (build : Build) (flags : ℕ) (to_buffer : Bool) (size : ℕ)
      → needed_bufsize ≤ size
      → size < 2 ^ 31
      → IsPrintable hist (2 ^ k)
      → Room (target_of to_buffer size) (style_of build to_buffer flags) hist (2 ^ k)
      → Report build flags to_buffer size none k hist (2 ^ k) s
  unfolding same_priv start_at
  print_trace_stack-whole build flags to_buffer size lo hi printable room =
      report build flags to_buffer size none (2 ^ k) lo hi refl (rw r.size refl) (omega arith)
        printable room

  -- In a ready facility whose counter is below 2 ^ 31, a call whose position has `unread` entries
  -- behind it, at least one and all still in the pool, with a size of at least 260 below 2 ^ 31,
  -- succeeds and prints just these entries, oldest first, and leaves the position at the first one that
  -- it did not print, which there is only if the buffer has less than 260 bytes left. Every message
  -- ends inside its array, and for a buffer each line is shorter than 260.
  pub print_trace_stack-unread :
      (build : Build) (flags : ℕ) (to_buffer : Bool) (size unread : ℕ)
      → needed_bufsize ≤ size
      → size < 2 ^ 31
      → s.next_tp < 2 ^ 31
      → 0 < unread
      → unread ≤ 2 ^ k
      → IsPrintable hist unread
      → Room (target_of to_buffer size) (style_of build to_buffer flags) hist unread
      → Report build flags to_buffer size (some (sub_word 32 s.next_tp unread)) k hist unread s
  unfolding same_priv
  print_trace_stack-unread build flags to_buffer size unread lo hi small pos held printable room =
      let narrow : 2 ^ k ≤ 2 ^ 30 = pow-le-pow_right {n = 2} (omega arith) r.limit in
      report build flags to_buffer size (some (sub_word 32 s.next_tp unread)) unread lo hi
        (ground (arith, narrow))
        (start_at-unread (copied s r.pool) (2 ^ k) r.size r.mask (pow_pos k) narrow s.next_tp unread
          small held)
        held printable room
