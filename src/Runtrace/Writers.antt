-- ===== src/Runtrace/Writers.antt =====
-- runtrace/runtrace.c, `make_tracept` of any number of threads against the copy of the pool in
-- `print_trace_stack`, in any interleaving: each use of the counter, each store into a record, the copy,
-- and each end of the lock is a step. The copy is one, since nobody else is in the lock then. The lock is
-- not code of the repository; a step that takes it has what the lock is documented to wait for as its
-- condition: no thread in the lock for writing, or no other thread in the lock at all.
pub mod Stores
pub mod Inv
pub mod Ring
mod Tests
use tripping_robot.Prelude.{ℕ, ◌-◌, ◌^◌, ◌≡◌, ◌≢◌, Bool, true, false, Option, none, some, List, ◌∷◌}
use tripping_robot.Prelude.{bit_and, add_word, set, get_or, ◌==◌, if◌then◌else◌}
use tripping_robot.Runtrace.{Tracept}
use tripping_robot.Runtrace.Pool.{blank}
use tripping_robot.Runtrace.History.{Entry, IsMessage}
use tripping_robot.Runtrace.Trace.{store_msg}
use tripping_robot.Runtrace.Trace.Ring.{entry}
use tripping_robot.Runtrace.Life.{Call}

-- The assignment that a thread in `make_tracept` makes next.
pub data Stage : Type 0 where
  at_time at_line at_src at_msg done : Stage

abbrev pub next_stage : Stage → Stage
next_stage at_time = at_line
next_stage at_line = at_src
next_stage at_src = at_msg
next_stage at_msg = done
next_stage done = done

unfoldable pub store : Stage → Call → Tracept → Tracept
store at_time c tp = record tp { sec = c.now.sec; usec = c.now.usec }
store at_line c tp = record tp { line = c.line }
store at_src c tp = record tp { src = some c.src }
store at_msg c tp = record tp { msg = store_msg c.msg tp.msg }
store done c tp = tp

-- Where a thread is: outside of both functions; in `make_tracept` with the lock for reading, before the
-- counter is read, or with the number that it read; in `print_trace_stack` with the lock for writing,
-- before the copy or with its own `last_tp`, or without the lock, printing from the copy.
pub data Place : Type 0 where
  outside : Place
  entered : Call → Place
  writing : ℕ → Call → Stage → Place
  printing : Option ℕ → Place
  reading : ℕ → Place

-- The thread holds the lock, for reading or for writing.
abbrev pub is_inside : Place → Bool
is_inside outside = false
is_inside (entered _) = true
is_inside (writing _ _ _) = true
is_inside (printing _) = true
is_inside (reading _) = false

-- `tp_pool`, `next_tp`, `tp_pool_copy`, and where each thread is. Two lists are not part of the program:
-- `made`, the entries in the order of their numbers, newest first, and `seen`, what that list was when
-- the last copy was made.
pub record Writers : Type 0 where
  pub pool : List Tracept
  pub next_tp : ℕ
  pub copy : List Tracept
  pub place : ℕ → Place
  pub made : List Entry
  pub seen : List Entry

unfoldable pub move : (ℕ → Place) → ℕ → Place → ℕ → Place
move place t p u = if u == t then p else place u

-- `tp_cnt_mask & n` in a pool of 2 ^ k records.
unfoldable pub slot : ℕ → ℕ → ℕ
slot k n = bit_and (2 ^ k - 1) n

abbrev pub entry_of : Call → Entry
entry_of c = entry c.now c.line c.src c.msg

-- A step of the thread t.
pub data Step (k : ℕ) : Writers → Writers → Type 0 where
  enters :
      (t : ℕ) (c : Call) (s : Writers)
      → s.place t ≡ outside
      → IsMessage c.msg
      → ((u : ℕ) (b : Option ℕ) → s.place u ≢ printing b)
      → Step k s (record s { place = move s.place t (entered c) })
  takes :
      (t : ℕ) (c : Call) (s : Writers)
      → s.place t ≡ entered c
      → Step k s (record s {
        next_tp = add_word 32 s.next_tp 1;
        place = move s.place t (writing s.next_tp c at_time);
        made = entry_of c ∷ s.made;
      })
  writes :
      (t n : ℕ) (c : Call) (g : Stage) (s : Writers)
      → s.place t ≡ writing n c g
      → Step k s (record s {
        pool = set s.pool (slot k n) (store g c (get_or s.pool (slot k n) blank));
        place = move s.place t (writing n c (next_stage g));
      })
  leaves :
      (t n : ℕ) (c : Call) (s : Writers)
      → s.place t ≡ writing n c done
      → Step k s (record s { place = move s.place t outside })
  locks :
      (t : ℕ) (s : Writers)
      → s.place t ≡ outside
      → ((u : ℕ) → is_inside (s.place u) ≡ false)
      → Step k s (record s { place = move s.place t (printing none) })
  copies :
      (t : ℕ) (s : Writers)
      → s.place t ≡ printing none
      → Step k s (record s {
        copy = s.pool;
        place = move s.place t (printing (some s.next_tp));
        seen = s.made;
      })
  unlocks :
      (t last_tp : ℕ) (s : Writers)
      → s.place t ≡ printing (some last_tp)
      → Step k s (record s { place = move s.place t (reading last_tp) })
  returns :
      (t last_tp : ℕ) (s : Writers)
      → s.place t ≡ reading last_tp
      → Step k s (record s { place = move s.place t outside })

-- Any number of steps of any threads.
pub data Run (k : ℕ) : Writers → Writers → Type 0 where
  ended : (s : Writers) → Run k s s
  then_step : (s t u : Writers) → Run k s t → Step k t u → Run k s u

-- No thread is given a slot that another one is still writing to, so none was overtaken by a whole round
-- of the pool; and no thread makes a copy while another one still prints from the last one.
abbrev pub IsCalm : (k : ℕ) {s t : Writers} → Step k s t → Type 0
IsCalm k (takes t c s here) =
    (u n : ℕ) (d : Call) (g : Stage) → s.place u ≡ writing n d g → slot k n ≢ slot k s.next_tp
IsCalm k (copies t s here) = (u last_tp : ℕ) → s.place u ≢ reading last_tp
IsCalm k _ = Unit {0}

abbrev pub AllCalm : (k : ℕ) {s t : Writers} → Run k s t → Type 0
AllCalm k (ended s) = Unit {0}
AllCalm k (then_step s t u r x) = AllCalm k r × IsCalm k x
