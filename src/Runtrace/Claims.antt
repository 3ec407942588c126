-- ===== src/Runtrace/Claims.antt =====
-- runtrace/runtrace.c, `tpprintf`: how threads claim a print buffer and give it back, one atomic
-- operation at a time, in any interleaving.
pub mod Exclusion
use tripping_robot.Prelude.{ℕ, ◌≡◌, Option, some, List, ◌>>=◌, ◌==◌, if◌then◌else◌, get_elem?, set}
use tripping_robot.Runtrace.{Build, Container, test_and_set, clear}

-- Where a thread is: outside of `tpprintf`, about to test the container of an index, or between the
-- claim of a container and its release, where it prints into the container and records the message.
pub data Place : Type 0 where
  outside : Place
  seeking holding : ℕ → Place

-- One test of the loop: `ATOMIC_TEST_AND_SET`, and the step to the next container if it was in use.
unfoldable pub seek : Build → List Container → ℕ → Option (List Container × Place)
unfolding test_and_set
seek build cs i = do
  c ← get_elem? cs i
  let (busy, flag) = test_and_set build c.in_use
  some (set cs i (record c { in_use = flag }), if busy then seeking c.next else holding i)

-- `ATOMIC_CLEAR`
unfoldable pub release : Build → List Container → ℕ → Option (List Container)
unfolding clear
release build cs i = do
  c ← get_elem? cs i
  some (set cs i (record c { in_use = clear build c.in_use }))

-- The containers, and where each thread is.
pub record Claims : Type 0 where
  pub containers : List Container
  pub place : ℕ → Place

unfoldable pub move : (ℕ → Place) → ℕ → Place → ℕ → Place
move place t p u = if u == t then p else place u

-- A step of the thread t.
pub data Step (build : Build) : Claims → Claims → Type 0 where
  enters :
      (t : ℕ) (s : Claims)
      → s.place t ≡ outside
      → Step build s (record s { place = move s.place t (seeking 0) })
  seeks :
      (t i : ℕ) (s : Claims) (cs : List Container) (p : Place)
      → s.place t ≡ seeking i
      → seek build s.containers i ≡ some (cs, p)
      → Step build s (record { containers = cs; place = move s.place t p })
  leaves :
      (t i : ℕ) (s : Claims) (cs : List Container)
      → s.place t ≡ holding i
      → release build s.containers i ≡ some cs
      → Step build s (record { containers = cs; place = move s.place t outside })

-- Any number of steps of any threads.
pub data Run (build : Build) : Claims → Claims → Type 0 where
  ended : (s : Claims) → Run build s s
  then_step : (s t u : Claims) → Run build s t → Step build t u → Run build s u
