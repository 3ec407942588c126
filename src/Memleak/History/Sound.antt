-- ===== src/Memleak/History/Sound.antt =====
-- memleak/memleak.cpp, that every sequence of calls keeps the bookkeeping in order.
use tripping_robot.Prelude.{ℕ, suc, ◌+◌, ◌^◌, ◌<◌, ◌≡◌, refl, sym, ap, ◌∙◌, arith}
use tripping_robot.Prelude.{Bool, true, false, some, List, [], ◌∷◌, ◌++◌, ◌==◌}
use tripping_robot.Memleak.{i386, piggyback_size, Text, AllocRecord, Memleak, ok, exited}
use tripping_robot.Memleak.Sites.Push.{Held}
use tripping_robot.Memleak.Alloc.{
  ss_malloc, ss_free, operator_new, operator_new_array, operator_delete, operator_delete_array,
}
use tripping_robot.Memleak.Alloc.Balance.{count_at, total_at, Agrees, Agrees-of, IsBalanced}
use tripping_robot.Memleak.Alloc.Sound.{get_memory-IsSound}
use tripping_robot.Memleak.Alloc.Plain.{given_plain, allocate-run}
use tripping_robot.Memleak.Report.{exit_checker}
use tripping_robot.Memleak.Report.Sound.{unclean_lines, exit_checker-run}
use tripping_robot.Memleak.History.{
  Allocator, by_malloc, by_new, by_new_array, Releaser, by_free, by_delete, by_delete_array,
  alloc_by, release_by, IsNewBlock, IsNewNode, Run, start, assigns, allocates, registers,
  gives_back, gives_back_plain, reports,
}
use tripping_robot.Memleak.History.Steps.{
  InOrder, start-InOrder, assigns-InOrder, new_node-NotIn, allocates-InOrder, registers-InOrder,
  gives_back-InOrder, gives_back_plain-InOrder, reports-InOrder,
}

-- The replacement allocators do the same, and so do the functions that give back.
alloc_by-ss_malloc :
    (f : Allocator) (fuel node ptr size : ℕ) (file : Text) (line : ℕ) (s : Memleak)
    → ss_malloc fuel i386 node ptr size file line s ≡ alloc_by f fuel i386 node ptr size file line s
unfolding alloc_by ss_malloc operator_new operator_new_array
alloc_by-ss_malloc by_malloc fuel node ptr size file line s = refl
alloc_by-ss_malloc by_new fuel node ptr size file line s = refl
alloc_by-ss_malloc by_new_array fuel node ptr size file line s = refl

release_by-ss_free : (f : Releaser) (p : ℕ) (s : Memleak) → ss_free i386 p s ≡ release_by f i386 p s
unfolding release_by ss_free operator_delete operator_delete_array
release_by-ss_free by_free p s = refl
release_by-ss_free by_delete p s = refl
release_by-ss_free by_delete_array p s = refl

pub Run-InOrder : (n : ℕ) (s : Memleak) → Run n s → InOrder n s
Run-InOrder _ _ (start tracking max_tolerate) = start-InOrder tracking max_tolerate
Run-InOrder _ _ (assigns n s tracking max_tolerate r) =
    assigns-InOrder n s tracking max_tolerate (Run-InOrder n s r)
Run-InOrder _ _ (allocates f n s s' node ptr size q file line r block new pos word runs) =
    allocates-InOrder n s s' node ptr size q file line (Run-InOrder n s r) block new pos word
      (s.tracking == 0) refl (alloc_by-ss_malloc f (suc n) node ptr size file line s ∙ runs)
Run-InOrder _ _ (registers n s s' node q file line r new word runs) =
    registers-InOrder n s s' node q file line (Run-InOrder n s r) new word runs
Run-InOrder _ _ (gives_back f n s s' a b h r there header runs) =
    gives_back-InOrder n s s' a b h (Run-InOrder n s r) there header
      (release_by-ss_free f (a + piggyback_size) s ∙ runs)
Run-InOrder _ _ (gives_back_plain f n s s' p b r there header runs) =
    gives_back_plain-InOrder n s s' p b (Run-InOrder n s r) there header
      (release_by-ss_free f p s ∙ runs)
Run-InOrder _ _ (reports n s s' flags r runs) =
    reports-InOrder n s s' flags (Run-InOrder n s r) runs

-- No record counts anything.
abbrev pub AllClear : List AllocRecord → Type 0
AllClear [] = Unit {0}
AllClear (r ∷ rs) = (r.cnt ≡ 0) × (r.mem_total ≡ 0) × AllClear rs

Held-AllClear :
    (s : Memleak) (ps : List ℕ) (xs : List AllocRecord)
    → IsBalanced i386 s
    → s.blocks ≡ []
    → Held s.records ps xs
    → AllClear xs
unfolding count_at total_at
Held-AllClear s [] [] balanced none_left h = tt
Held-AllClear s [] (r ∷ rs) balanced none_left h = elim h [ ]
Held-AllClear s (p ∷ ps) [] balanced none_left h = elim h [ ]
Held-AllClear s (p ∷ ps) (r ∷ rs) balanced none_left h =
    let (counts, totals) : Agrees i386 (some r) 0 0 =
      Agrees-of i386 (s.records p) (some r) (count_at i386 p s.blocks) 0 (total_at i386 p s.blocks)
        0 h.0 (ap (count_at i386 p) none_left) (ap (total_at i386 p) none_left) (balanced p) in
    (counts, totals, Held-AllClear s ps rs balanced none_left h.1)

-- On i386, when the application has given back every block after such a sequence of calls, the report
-- at exit ends, and each of its lines is on a record with a count of 0.
pub exit_checker-AllClear :
    (n : ℕ) (s : Memleak)
    → Run n s
    → s.blocks ≡ []
    → (xs : List AllocRecord) × (exit_checker (suc n) s
        ≡ ok tt (record s { log = s.log ++ exited ∷ unclean_lines xs }))
      × AllClear xs
exit_checker-AllClear n s run none_left =
    let (nodes, xs, sound, few, _) = Run-InOrder n s run in
    (
      xs,
      exit_checker-run (suc n) s nodes xs sound.list (omega arith),
      Held-AllClear s nodes xs sound.balanced none_left sound.list.held,
    )

-- On i386, after any such sequence of calls, a call of `ss_malloc`, `operator new` or `operator new []`
-- for at least one byte returns, whether there is tracking or not, and the state is one after a longer
-- sequence. Neither allocation fails.
pub alloc_by-Run :
    (f : Allocator) (n : ℕ) (s : Memleak) (node ptr size : ℕ) (file : Text) (line : ℕ)
    → Run n s
    → IsNewBlock ptr size
    → IsNewNode s node
    → 0 < size
    → line < 2 ^ 32
    → (q : ℕ) × (s' : Memleak) × (alloc_by f (suc n) i386 node ptr size file line s ≡ ok q s')
      × Run (suc n) s'
unfolding ss_malloc
alloc_by-Run f n s node ptr size file line run block new pos word = go (s.tracking == 0) refl
  where
    Returns : Type 0
    Returns =
        (q : ℕ) × (s' : Memleak) × (alloc_by f (suc n) i386 node ptr size file line s ≡ ok q s')
        × Run (suc n) s'

    returns :
        (q : ℕ) (s' : Memleak)
        → ss_malloc (suc n) i386 node ptr size file line s ≡ ok q s'
        → Returns
    returns q s' runs =
        let runs' = sym (alloc_by-ss_malloc f (suc n) node ptr size file line s) ∙ runs in
        (q, s', runs', allocates f n s s' node ptr size q file line run block new pos word runs')

    go : (tracked : Bool) → (s.tracking == 0) ≡ tracked → Returns
    go true off = returns ptr (given_plain ptr size s) (simp (off, allocate-run ptr size s block.0))
    go false on =
        let (nodes, xs, sound, few, _) = Run-InOrder n s run in
        let (p, t, nodes', gives, _, _, _, _) =
          get_memory-IsSound i386 size file line ptr (suc n) node s nodes xs sound block.0
            (omega (arith, block.2)) (omega arith) word new.0
            (new_node-NotIn s node nodes xs sound new) (omega arith) in
        returns (ptr + piggyback_size) t (simp (on, gives))
