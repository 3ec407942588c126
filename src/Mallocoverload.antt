-- ===== src/Mallocoverload.antt =====
-- mallocoverload/mallocoverload.c: `malloc` and `free` that log and call those of libc, which `dlsym`
-- finds. The functions of libc over their heap, and whether `dlsym` finds one, are arguments.
pub mod Transparent
mod Tests
use tripping_robot.Prelude.{ℕ, Bool, true, not, List, [], ◌∷◌, ◌++◌, if◌then◌else◌}

-- What is printed: "Can't dlsym malloc", which both functions print, and the calls.
pub data Message : Type 0 where
  no_dlsym : Message
  malloc_line free_line : ℕ → Message

-- The static pointers, as whether they were set, and what was printed.
pub record Overload (Heap : Type 0) : Type 0 where
  pub libc_malloc : Bool
  pub libc_free : Bool
  pub printed : List Message
  pub heap : Heap

module _ {Heap : Type 0} where
  abbrev pub print : Message → Overload Heap → Overload Heap
  print m s = record s { printed = s.printed ++ m ∷ [] }

  module _ (malloc_of_libc : ℕ → Heap → ℕ × Heap) where
    -- The call of libc's function, behind its look-up.
    unfoldable pub call_malloc : ℕ → Overload Heap → ℕ × Overload Heap
    call_malloc size s =
        let (p, heap) = malloc_of_libc size s.heap in
        (p, record (print (malloc_line size) s) { heap = heap })

    unfoldable pub malloc : Bool → ℕ → Overload Heap → ℕ × Overload Heap
    unfolding call_malloc
    malloc found size s =
        if not s.libc_malloc
        then (if not found
            then (0, print no_dlsym s)
            else call_malloc size (record s { libc_malloc = true }))
        else call_malloc size s

  module _ (free_of_libc : ℕ → Heap → Heap) where
    unfoldable pub call_free : ℕ → Overload Heap → Overload Heap
    call_free p s = record (print (free_line p) s) { heap = free_of_libc p s.heap }

    unfoldable pub free : Bool → ℕ → Overload Heap → Overload Heap
    unfolding call_free
    free found p s =
        if not s.libc_free
        then (if not found then print no_dlsym s else call_free p (record s { libc_free = true }))
        else call_free p s
