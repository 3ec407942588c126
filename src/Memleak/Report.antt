-- ===== src/Memleak/Report.antt =====
-- memleak/memleak.cpp, the reports of the records: `memleak_report` and the one at exit. `fuel` bounds
-- the rounds of a loop over the list; one more than there are records is enough.
pub mod Shown
pub mod Sound
pub mod Exit
use tripping_robot.Prelude.{ℕ, zero, suc, ◌/◌, ◌%◌, Bool, false}
use tripping_robot.Prelude.{◌&&◌, ◌==◌, not, if◌then◌else◌}
use tripping_robot.Memleak.{
  alloc_list, title, tight_title, newline, exited, records_line, count_only, unclean, Outcome, ok,
  exits, fault, deadlock, out_of_fuel, Cmd, pure, ◌>>=◌, ◌>>◌, load_next, load_record, store_record,
  lock, unlock, ml_log,
}

-- MEML_TIGHT, MEML_SUPPRESS_ZEROS and MEML_ONLY_CHANGED in a word of flags.
abbrev pub is_tight : ℕ → Bool
is_tight flags = flags % 2 == 1

abbrev pub is_suppress0 : ℕ → Bool
is_suppress0 flags = flags / 2 % 2 == 1

abbrev pub is_changed : ℕ → Bool
is_changed flags = flags / 4 % 2 == 1

-- What the loop of `memleak_report` does at a record.
unfoldable pub report_record : ℕ → ℕ → Cmd (Unit {0})
report_record flags it = do
  r ← load_record it
  if is_changed flags && not r.dirty
      then pure tt
      else if is_suppress0 flags && 0 == r.cnt
      then pure tt
      else do
        if not (is_tight flags)
            then ml_log (records_line r.cnt r.mem_total r.file r.line r.overallocations)
            else ml_log (count_only r.cnt)
        store_record it (record r { dirty = false })

unfoldable pub report_loop : ℕ → ℕ → ℕ → Cmd (Unit {0})
report_loop flags zero it = λ _. out_of_fuel
report_loop flags (suc fuel) it =
    if it == alloc_list
    then pure tt
    else do report_record flags it; it ← load_next it; report_loop flags fuel it

unfoldable pub memleak_report : ℕ → ℕ → Cmd (Unit {0})
memleak_report fuel flags = do
  if not (is_tight flags) then ml_log title else pure tt
  if is_tight flags then ml_log tight_title else pure tt
  lock
  it ← load_next alloc_list
  report_loop flags fuel it
  unlock
  if is_tight flags then ml_log newline else pure tt

-- The loop of the destructor of `RecordExitChecker`, and the destructor.
unfoldable pub exit_loop : ℕ → ℕ → Cmd (Unit {0})
exit_loop zero it = λ _. out_of_fuel
exit_loop (suc fuel) it = if it == alloc_list then pure tt else do
  r ← load_record it
  ml_log (unclean r.cnt r.file r.line r.overallocations)
  it ← load_next it
  exit_loop fuel it

unfoldable pub exit_checker : ℕ → Cmd (Unit {0})
exit_checker fuel = do ml_log exited; lock; it ← load_next alloc_list; exit_loop fuel it; unlock

-- The end of the program, by a return of `main` or by `exit`, after a call: the destructor runs.
unfoldable pub at_exit : {A : Type 0} → ℕ → Outcome A → Outcome (Unit {0})
at_exit fuel (ok _ s) = exit_checker fuel s
at_exit fuel (exits s) = exit_checker fuel s
at_exit fuel fault = fault
at_exit fuel deadlock = deadlock
at_exit fuel out_of_fuel = out_of_fuel
