-- ===== src/Mallocoverload/Tests.antt =====
-- mallocoverload/mallocoverload.c: the theorem at a program of three calls, over a heap that only grows.
use tripping_robot.Prelude.{ℕ, ◌+◌, ◌≡◌, refl, true, false, [], ◌∷◌, ◌++◌}
use tripping_robot.Mallocoverload.{Overload}
use tripping_robot.Mallocoverload.Transparent.{
  mallocs, frees, Calls, plain, lines_of, run, libc_run, run-libc,
}

abbrev grow : ℕ → ℕ → ℕ × ℕ
grow size heap = (heap, heap + size)

abbrev keep : ℕ → ℕ → ℕ
keep p heap = heap

abbrev fresh : Overload ℕ
fresh = record { libc_malloc = false; libc_free = false; printed = []; heap = 64 }

abbrev program : Calls
program = (true, mallocs 20) ∷ (true, frees 64) ∷ (false, mallocs 8) ∷ []

run-libc_example :
    ((run grow keep program fresh).0 ≡ (libc_run grow keep (plain program) 64).0)
    × ((run grow keep program fresh).1.heap ≡ (libc_run grow keep (plain program) 64).1)
    × ((run grow keep program fresh).1.printed ≡ fresh.printed ++ lines_of (plain program))
run-libc_example = run-libc grow keep program fresh (refl, (refl, (refl, tt)))
