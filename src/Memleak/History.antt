-- ===== src/Memleak/History.antt =====
-- memleak/memleak.cpp, the calls that an application makes one after the other, on i386. What `malloc`
-- gives is new, aligned and below the end of the memory; the application gives back live blocks. A
-- call has the fuel of one round more than there were calls.
pub mod Blocks
pub mod Steps
pub mod Sound
use tripping_robot.Prelude.{ℕ, suc, ◌+◌, ◌%◌, ◌^◌, ◌<◌, ◌≡◌, ◌≢◌}
use tripping_robot.Prelude.{none, some}
use tripping_robot.Memleak.{
  Abi, i386, Cmd, piggyback_size, Text, Piggyback, Block, Memleak, alloc_list, initial, ok,
}
use tripping_robot.Memleak.Sites.{ss_memleak_point_register}
use tripping_robot.Memleak.Alloc.{
  find_block, ss_malloc, ss_free, operator_new, operator_new_array, operator_delete,
  operator_delete_array,
}
use tripping_robot.Memleak.Report.{memleak_report}

-- A block that `malloc` may give for an allocation of some bytes, and a place it may give for a record.
abbrev pub IsNewBlock : ℕ → ℕ → Type 0
IsNewBlock ptr size = (ptr ≢ 0) × (ptr % 8 ≡ 0) × (ptr + piggyback_size + size < 2 ^ 32)

abbrev pub IsNewNode : Memleak → ℕ → Type 0
IsNewNode s node = (node ≢ 0) × (node ≢ alloc_list) × (s.records node ≡ none)

-- The functions that give out a block, and those that give one back.
pub data Allocator : Type 0 where
  by_malloc by_new by_new_array : Allocator

pub data Releaser : Type 0 where
  by_free by_delete by_delete_array : Releaser

unfoldable pub alloc_by : Allocator → ℕ → Abi → ℕ → ℕ → ℕ → Text → ℕ → Cmd ℕ
alloc_by by_malloc = ss_malloc
alloc_by by_new = operator_new
alloc_by by_new_array = operator_new_array

unfoldable pub release_by : Releaser → Abi → ℕ → Cmd (Unit {0})
release_by by_free = ss_free
release_by by_delete = operator_delete
release_by by_delete_array = operator_delete_array

-- The states after n calls.
pub data Run : ℕ → Memleak → Type 0 where
  start :
      (tracking max_tolerate : ℕ)
      → Run 0 (record initial { tracking = tracking; max_tolerate = max_tolerate })
  assigns :
      (n : ℕ) (s : Memleak) (tracking max_tolerate : ℕ)
      → Run n s
      → Run (suc n) (record s { tracking = tracking; max_tolerate = max_tolerate })
  allocates :
      (f : Allocator) (n : ℕ) (s s' : Memleak) (node ptr size q : ℕ) (file : Text) (line : ℕ)
      → Run n s
      → IsNewBlock ptr size
      → IsNewNode s node
      → 0 < size
      → line < 2 ^ 32
      → alloc_by f (suc n) i386 node ptr size file line s ≡ ok q s'
      → Run (suc n) s'
  registers :
      (n : ℕ) (s s' : Memleak) (node q : ℕ) (file : Text) (line : ℕ)
      → Run n s
      → IsNewNode s node
      → line < 2 ^ 32
      → ss_memleak_point_register (suc n) i386 node file line s ≡ ok q s'
      → Run (suc n) s'
  gives_back :
      (f : Releaser) (n : ℕ) (s s' : Memleak) (a : ℕ) (b : Block) (h : Piggyback)
      → Run n s
      → find_block a s.blocks ≡ some b
      → b.header ≡ some h
      → release_by f i386 (a + piggyback_size) s ≡ ok tt s'
      → Run (suc n) s'
  gives_back_plain :
      (f : Releaser) (n : ℕ) (s s' : Memleak) (p : ℕ) (b : Block)
      → Run n s
      → find_block p s.blocks ≡ some b
      → b.header ≡ none
      → release_by f i386 p s ≡ ok tt s'
      → Run (suc n) s'
  reports :
      (n : ℕ) (s s' : Memleak) (flags : ℕ)
      → Run n s
      → memleak_report (suc n) flags s ≡ ok tt s'
      → Run (suc n) s'
