-- ===== src/Memleak/Report/Exit.antt =====
-- memleak/memleak.cpp, the report at exit where `list_push_record` gives up.
use Prim.Native.Nat.{Ordering}
use tripping_robot.Prelude.{ℕ, ◌<◌, ◌≡◌, ◌≢◌, sym, ap, ◌∙◌}
use tripping_robot.Prelude.{Bool, true, false, none, some, List, [], ◌∷◌, ◌++◌, length}
use tripping_robot.Memleak.{
  Abi, Text, AllocRecord, Memleak, alloc_list, no_list_memory, ok, exits, deadlock, lock, load_next,
  ml_log,
}
use tripping_robot.Memleak.Sites.{Found, hit, before, walk, list_push_record}
use tripping_robot.Memleak.Sites.Linked.{first_or}
use tripping_robot.Memleak.Sites.Push.{IsList, End, same, past, walk-End}
use tripping_robot.Memleak.Sites.Lookup.{lookup, lookup-level, lookup-other}
use tripping_robot.Memleak.Report.{exit_checker, at_exit}
use tripping_robot.Memleak.Report.Shown.{next-Linked}

hit-lookup :
    (file : Text) (line p : ℕ) (ps : List ℕ) (xs : List AllocRecord)
    → End file line ps xs (hit p)
    → lookup file line xs ≢ none
hit-lookup file line p _ _ (same _ r ps rs level) e =
    clash (sym (lookup-level file line r rs level) ∙ e)
  where
    clash : some r ≡ none → ⊥
    clash e = cc
hit-lookup file line p _ _ (past q r ps rs _ lower rest) e =
    hit-lookup file line p ps rs rest
      (sym (lookup-other file line r rs (λ level. clash (sym lower ∙ level))) ∙ e)
  where
    clash : Ordering.lt ≡ Ordering.eq → ⊥
    clash e = cc

module _ (fuel : ℕ) (abi : Abi) (file : Text) (line size : ℕ) (overalloc : Bool) (s : Memleak)
    (unlocked : s.rec_lock ≡ false) (first : ℕ) (starts : s.next alloc_list ≡ some first) where
  give_up-run :
      (q : ℕ)
      → walk file line fuel first (record s { rec_lock = true })
        ≡ ok (before q) (record s { rec_lock = true })
      → list_push_record fuel abi 0 file line size overalloc s
        ≡ exits (record s { rec_lock = true; log = s.log ++ no_list_memory ∷ [] })
  unfolding list_push_record lock load_next ml_log
  give_up-run q walks = simp (unlocked, starts, walks)

-- In memory that holds a list of records, with the mutex free, where a file and line have no record and
-- the allocation of one fails, `list_push_record` calls `exit` with the mutex held, and the report at
-- exit waits for it without end. There is fuel for one round more than there are records.
pub list_push_record-deadlock :
    (fuel report_fuel : ℕ) (abi : Abi) (file : Text) (line size : ℕ) (overalloc : Bool)
    (s : Memleak) (ps : List ℕ) (xs : List AllocRecord)
    → IsList s ps xs
    → length ps < fuel
    → lookup file line xs ≡ none
    → at_exit report_fuel (list_push_record fuel abi 0 file line size overalloc s) ≡ deadlock
unfolding at_exit exit_checker lock ml_log
list_push_record-deadlock fuel report_fuel abi file line size overalloc s ps xs list more missing =
    let (f, walks, e) =
      walk-End file line fuel alloc_list (record s { rec_lock = true }) ps xs list.linked list.apart
        list.held more in
    go f walks e
  where
    go :
        (f : Found)
        → walk file line fuel (first_or ps alloc_list) (record s { rec_lock = true })
          ≡ ok f (record s { rec_lock = true })
        → End file line ps xs f
        → at_exit report_fuel (list_push_record fuel abi 0 file line size overalloc s) ≡ deadlock
    go (hit p) walks e = absurd (hit-lookup file line p ps xs e missing)
    go (before q) walks e = ap (at_exit report_fuel) (
        give_up-run fuel abi file line size overalloc s list.unlocked (first_or ps alloc_list)
          (next-Linked s.next s.prev alloc_list alloc_list ps list.linked) q walks)
