-- ===== src/Runtrace/Printf/Tests.antt =====
-- runtrace/runtrace.c: the theorems on `tpprintf` at concrete print buffers.
use tripping_robot.Prelude.{ℕ, zero, suc, ◌<◌, ◌≤◌, ◌≡◌, ◌≢◌, refl, true}
use tripping_robot.Prelude.{some, List, [], ◌∷◌, arith}
use tripping_robot.Prelude.{get_elem?}
use tripping_robot.Runtrace.{cxx11, Container, Runtrace, ok}
use tripping_robot.Runtrace.History.{Ring}
use tripping_robot.Runtrace.{test_and_set}
use tripping_robot.Prelude.{◌+◌}
use tripping_robot.Runtrace.Printf.{tpprintf}
use tripping_robot.Runtrace.Printf.Record.{IsFree, Ring-buffers, tpprintf-Ring}
use tripping_robot.Runtrace.Claims.{
  outside, seeking, holding, seek, Claims, move, enters, seeks, Run, ended, then_step,
}
use tripping_robot.Runtrace.Claims.Exclusion.{Run-exclusive}
use tripping_robot.Prelude.{◌≢◌, set}
use tripping_robot.Runtrace.Tests.{machine, idle, idle_Ring, noon, hello, hello_IsText, file, hist}

-- Three print buffers; the first thread claims the first one while the second is on its way.
abbrev buffers : List Container
buffers =
    record { in_use = 0; next = 1 }
    ∷ record { in_use = 0; next = 2 }
    ∷ record { in_use = 0; next = 0 }
    ∷ []

abbrev quiet : Claims
quiet = record { containers = buffers; place = λ t. outside }

abbrev first_in : Claims
first_in = record quiet { place = move (λ t. outside) 0 (seeking 0) }

abbrev both_in : Claims
both_in = record quiet { place = move first_in.place 1 (seeking 0) }

abbrev claimed : Claims
claimed = record {
  containers = set buffers 0 (record { in_use = 1; next = 1 });
  place = move both_in.place 0 (holding 0);
}

claimed-Run : Run cxx11 quiet claimed
unfolding move seek
claimed-Run =
    then_step quiet both_in claimed
      (then_step quiet first_in both_in
        (then_step quiet quiet first_in (ended quiet) (enters 0 quiet refl))
        (enters 1 first_in refl))
      (seeks 0 0 both_in (set buffers 0 (record { in_use = 1; next = 1 })) (holding 0) refl refl)

Run-exclusive_example : claimed.place 1 ≢ holding 0
unfolding move
Run-exclusive_example =
    Run-exclusive cxx11 quiet claimed 0 1 0 (λ v. refl) claimed-Run (omega arith) refl

-- `idle` with three print buffers, of which the first is in use.
abbrev in_part : List Container
in_part = set buffers 0 (record { in_use = 1; next = 1 })

abbrev in_part_IsFree : IsFree cxx11 in_part 0 1
unfolding test_and_set
in_part_IsFree = record {
  before = first_busy;
  container = record { in_use = 0; next = 2 };
  there = refl;
  free = refl;
}
  where
    first_busy :
        (m : ℕ)
        → 0 ≤ m
        → m < 1
        → (c : Container) × (get_elem? in_part m ≡ some c)
          × ((test_and_set cxx11 c.in_use).0 ≡ true)
          × (c.next ≡ m + 1)
    first_busy zero lo hi = (record { in_use = 1; next = 1 }, refl, refl, omega arith)
    first_busy (suc m) lo hi = absurd (omega arith)

tpprintf-Ring_example :
    (s' : Runtrace) × (tpprintf cxx11 machine noon 12 file
        (some hello)
        (record idle { vsprint_buffer = some in_part })
      ≡ ok 2 s')
    × Ring 2 hist s'
tpprintf-Ring_example =
    tpprintf-Ring cxx11 machine noon 12 file hello 2 []
      (record idle { vsprint_buffer = some in_part }) in_part 1 hello_IsText
      (Ring-buffers 2 [] idle (some in_part) idle_Ring) refl in_part_IsFree
