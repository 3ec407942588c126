-- ===== src/Runtrace/Writers/Inv.antt =====
-- runtrace/runtrace.c, `make_tracept` against `print_trace_stack`: what holds at every point of a run in
-- which no writer is overtaken by a round of the pool.
pub mod Lock
pub mod Write
pub mod Take
use tripping_robot.Prelude.{ℕ, ◌+◌, ◌%◌, ◌^◌, ◌<◌, ◌≡◌, ◌≢◌, ◌⊎◌, arith}
use tripping_robot.Prelude.{false, Option, some, List, length, get_elem?, get_or}
use tripping_robot.Prelude.{ℕ_discrete}
use tripping_robot.Runtrace.{Tracept}
use tripping_robot.Runtrace.Pool.{blank}
use tripping_robot.Runtrace.History.{IsMessage, Shows, IsRing}
use tripping_robot.Runtrace.Life.{Call}
use tripping_robot.Runtrace.Writers.{
  Stage, Place, entered, writing, printing, reading, is_inside, Writers, move, slot, entry_of,
}
use tripping_robot.Runtrace.Writers.Stores.{Partial}

-- No thread writes to the slot j.
abbrev pub IsFree : ℕ → (ℕ → Place) → ℕ → Type 0
IsFree k place j = (t n : ℕ) (c : Call) (g : Stage) → place t ≡ writing n c g → slot k n ≢ j

pub record Inv (k : ℕ) (s : Writers) : Type 0 where
  pub slots : length s.pool ≡ 2 ^ k
  pub called : (t : ℕ) (c : Call) → s.place t ≡ entered c → IsMessage c.msg
  pub worded : (t n : ℕ) (c : Call) (g : Stage) → s.place t ≡ writing n c g → IsMessage c.msg
  pub stored :
      (t n : ℕ) (c : Call) (g : Stage)
      → s.place t ≡ writing n c g
      → Partial g c (get_or s.pool (slot k n) blank)
  pub numbered :
      (t n : ℕ) (c : Call) (g : Stage) (i : ℕ)
      → s.place t ≡ writing n c g
      → i < 2 ^ k
      → (slot k n + (i + 1)) % 2 ^ k ≡ s.next_tp % 2 ^ k
      → get_elem? s.made i ≡ some (entry_of c)
  pub distinct :
      (t u n m : ℕ) (c d : Call) (g h : Stage)
      → s.place t ≡ writing n c g
      → s.place u ≡ writing m d h
      → slot k n ≡ slot k m
      → t ≡ u
  pub recent :
      (i j : ℕ)
      → i < 2 ^ k
      → j < 2 ^ k
      → (j + (i + 1)) % 2 ^ k ≡ s.next_tp % 2 ^ k
      → IsFree k s.place j
      → Shows (get_or s.pool j blank) (get_elem? s.made i)
  pub excluded :
      (t u : ℕ) (b : Option ℕ) → s.place t ≡ printing b → u ≢ t → is_inside (s.place u) ≡ false
  pub copied :
      (t last_tp : ℕ)
      → s.place t ≡ printing (some last_tp)
      → IsRing k last_tp s.seen s.copy × (last_tp < 2 ^ 32)
  pub read :
      (t last_tp : ℕ)
      → s.place t ≡ reading last_tp
      → IsRing k last_tp s.seen s.copy × (last_tp < 2 ^ 32)
  pub counter : s.next_tp < 2 ^ 32

-- The record that a thread writes to holds what its stage says.
abbrev pub IsStored : ℕ → List Tracept → Place → Type 0
IsStored k pool (writing n c g) = Partial g c (get_or pool (slot k n) blank)
IsStored k pool _ = Unit {0}

pub move_cases :
    (place : ℕ → Place) (t u : ℕ) (p : Place)
    → ((u ≡ t) × (move place t p u ≡ p)) ⊎ ((u ≢ t) × (move place t p u ≡ place u))
unfolding move
move_cases place t u p = ground (arith, ℕ_discrete u t)
