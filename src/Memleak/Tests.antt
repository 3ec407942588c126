-- ===== src/Memleak/Tests.antt =====
-- memleak/memleak.cpp, the theorems at concrete inputs: a program that holds two blocks, one of them
-- from before the tracking.
use tripping_robot.Prelude.{ℕ, ◌+◌, ◌*◌, ◌%◌, ◌^◌, ◌≤◌, ◌≡◌, ◌≢◌, refl, arith}
use tripping_robot.Prelude.{
  true, false, none, some, List, [], ◌∷◌, ◌++◌, ◌==◌, length, sub_word, inl, inr, Bool-cases,
}
use tripping_robot.Memleak.{
  Abi, i386, x86_64, Text, AllocRecord, Piggyback, Block, Memleak, alloc_list, initial, Outcome, ok,
  fault, deadlock, update, exited, lock, unlock, load_next, load_prev, load_record, store_record,
  store_next, store_prev, ml_log,
}
use tripping_robot.Memleak.Sites.{
  new_record, list_push_record, place_of, strcmp, walk, create, list_add_tail,
}
use tripping_robot.Memleak.Sites.Sorted.{grow, push}
use tripping_robot.Memleak.Sites.Linked.{NotIn}
use tripping_robot.Memleak.Sites.Push.{IsList}
use tripping_robot.Memleak.Sites.Refine.{Pushed, list_push_record-Pushed}
use tripping_robot.Memleak.Sites.Lookup.{IsSorted, lookup, push-lookup}
use tripping_robot.Memleak.Alloc.{
  find_block, drop_block, read_size, write_piggyback, get_memory, free_memory, uncount, ss_malloc,
  ss_free, allocate, release, store_piggyback, set_block,
}
use tripping_robot.Memleak.Alloc.Balance.{size_at, count_at, total_at, IsBalanced}
use tripping_robot.Memleak.Alloc.Sound.{IsSound, unwritten, is_over, get_memory-IsSound}
use tripping_robot.Memleak.Alloc.Free.{free_memory-IsSound}
use tripping_robot.Memleak.Alloc.Foreign.{free_memory-foreign}
use tripping_robot.Memleak.Alloc.Overlap.{
  get_memory-fault, first_word-lost, zero_size-uncounted, cnt_at,
}
use tripping_robot.Memleak.Report.{memleak_report, exit_checker, at_exit}
use tripping_robot.Memleak.Report.Shown.{all_cleaned}
use tripping_robot.Memleak.Report.Sound.{report_of, unclean_lines, memleak_report-IsSound}
use tripping_robot.Memleak.Report.Exit.{list_push_record-deadlock}
use tripping_robot.Memleak.Alloc.{operator_delete}
use tripping_robot.Memleak.History.{
  by_malloc, by_new, by_delete, alloc_by, release_by, Run, start, allocates, gives_back,
}
use tripping_robot.Memleak.History.Sound.{AllClear, exit_checker-AllClear, alloc_by-Run}

abbrev file_a : Text
file_a = 97 ∷ []

abbrev counted : AllocRecord
counted = record {
  file = file_a;
  line = 5;
  cnt = 1;
  mem_total = 20;
  dirty = true;
  overallocations = false;
}

abbrev tracked_block : Block
tracked_block = record { room = 32; header = some (record { site = 8; low = 20 }); first = 0 }

abbrev plain_block : Block
plain_block = record { room = 32; header = none; first = 0 }

abbrev busy : Memleak
busy = record {
  next = update (update (λ _. none) 1 8) 8 1;
  prev = update (update (λ _. none) 1 8) 8 1;
  records = update (λ _. none) 8 counted;
  blocks = (64, tracked_block) ∷ (128, plain_block) ∷ [];
  rec_lock = false;
  tracking = 1;
  max_tolerate = 0;
  log = [];
}

busy-IsList : IsList busy (8 ∷ []) (counted ∷ [])
unfolding update
busy-IsList = record {
  linked = ((refl, refl), (refl, refl));
  apart = ((λ e. absurd (omega arith)), tt);
  distinct = (tt, tt);
  held = (refl, tt);
  unlocked = refl;
}

flip : (p : ℕ) → (p == 8) ≡ true → (8 == p) ≡ true
flip p e = ground arith

flip_not : (p : ℕ) → (p == 8) ≡ false → (8 == p) ≡ false
flip_not p e = ground arith

busy-IsBalanced : (abi : Abi) → IsBalanced abi busy
unfolding update count_at total_at size_at read_size
busy-IsBalanced i386 p = elim (Bool-cases (p == 8)) [
  | inl here ↦ rw (here, flip p here) (refl, refl)
  | inr other ↦ rw (other, flip_not p other) (refl, refl)
]
busy-IsBalanced x86_64 p = elim (Bool-cases (p == 8)) [
  | inl here ↦ rw (here, flip p here) (refl, refl)
  | inr other ↦ rw (other, flip_not p other) (refl, refl)
]

busy-IsSound : (abi : Abi) → IsSound abi busy (8 ∷ []) (counted ∷ [])
unfolding update
busy-IsSound abi = record {
  list = busy-IsList;
  sorted = (omega arith, tt, tt);
  only = λ p out. missing p out.0;
  balanced = busy-IsBalanced abi;
}
  where
    missing : (p : ℕ) → p ≢ 8 → update (λ _. none) 8 counted p ≡ none
    missing p ne = ground arith

differ : (m n : ℕ) → (m == n) ≡ false → m ≢ n
differ m n e h = ground arith

-- 16 is neither the list head nor the node of the record.
node_out : NotIn 16 (alloc_list ∷ 8 ∷ [])
node_out = (differ 16 1 refl, (differ 16 8 refl, tt))

list_push_record-Pushed_example :
    (p : ℕ) × (s' : Memleak) × (list_push_record 2 i386 16 file_a 7 4 false busy ≡ ok p s')
    × Pushed i386 file_a 7 4 false busy (8 ∷ []) (counted ∷ []) p s'
unfolding update
list_push_record-Pushed_example =
    list_push_record-Pushed 2 i386 16 file_a 7 4 false busy (8 ∷ []) (counted ∷ []) busy-IsList
      (omega arith) (differ 16 0 refl) node_out refl

push-lookup_example :
    IsSorted (push i386 file_a 7 4 false (counted ∷ []))
    × (lookup file_a 7 (push i386 file_a 7 4 false (counted ∷ []))
        ≡ some (grow i386 file_a 7 4 false (lookup file_a 7 (counted ∷ []))))
    × (lookup file_a 5 (push i386 file_a 7 4 false (counted ∷ [])) ≡ lookup file_a 5 (counted ∷ []))
push-lookup_example =
    push-lookup i386 file_a 7 4 false (counted ∷ []) file_a 5 (omega arith, tt, tt) (omega arith)
      (λ _. differ 7 5 refl)

get_memory-IsSound_example :
    (p : ℕ) × (s' : Memleak) × (nodes' : List ℕ) × (get_memory 2 i386 16 256 4 file_a 5 busy
      ≡ ok 268 s')
    × IsSound i386 s' nodes'
        (push i386 file_a 5 4 (is_over i386 4 file_a 5 256 busy) (counted ∷ []))
    × (s'.blocks ≡ (256, write_piggyback i386 p 4 (unwritten i386 4 file_a 5 256)) ∷ busy.blocks)
    × (s'.records
        ≡ update busy.records p
            (grow i386 file_a 5 4 (is_over i386 4 file_a 5 256 busy) (busy.records p)))
    × (length nodes' ≤ 2)
get_memory-IsSound_example =
    get_memory-IsSound i386 4 file_a 5 256 2 16 busy (8 ∷ []) (counted ∷ []) (busy-IsSound i386)
      (differ 256 0 refl) (omega arith) (omega arith) (omega arith) (differ 16 0 refl) node_out
      (omega arith)

abbrev header : Piggyback
header = record { site = 8; low = 20 }

free_memory-IsSound_example :
    (r : AllocRecord) × (s' : Memleak) × (ys : List AllocRecord) × (free_memory i386 76 busy
      ≡ ok true s')
    × IsSound i386 s' (8 ∷ []) ys
    × (s'.blocks ≡ drop_block 64 busy.blocks)
    × (busy.records 8 ≡ some r)
    × (s'.records ≡ update busy.records 8 (uncount i386 (read_size i386 header tracked_block) r))
unfolding find_block read_size
free_memory-IsSound_example =
    free_memory-IsSound i386 busy (8 ∷ []) (counted ∷ []) 64 tracked_block header
      (busy-IsSound i386) refl refl (omega arith) (omega arith) (differ 64 0 refl) refl
      (omega arith)

free_memory-foreign_example :
    (free_memory x86_64 0 busy ≡ ok false busy)
    × (free_memory x86_64 128 busy ≡ ok false (record busy { blocks = drop_block 128 busy.blocks }))
    × IsSound x86_64 (record busy { blocks = drop_block 128 busy.blocks }) (8 ∷ []) (counted ∷ [])
unfolding find_block
free_memory-foreign_example =
    free_memory-foreign x86_64 busy (8 ∷ []) (counted ∷ []) 128 plain_block (busy-IsSound x86_64)
      refl refl (differ 128 0 refl) refl (omega arith)

get_memory-fault_example : get_memory 2 x86_64 16 256 3 file_a 7 busy ≡ fault
get_memory-fault_example =
    get_memory-fault file_a 7 3 256 2 16 busy (8 ∷ []) (counted ∷ []) (busy-IsSound x86_64)
      (omega arith) (differ 256 0 refl) (differ 16 0 refl) node_out (omega arith)

first_word-lost_example :
    (p : ℕ) × (r : AllocRecord) × (s' s'' : Memleak) × (b : Block) × (bs : List (ℕ × Block))
    × (get_memory 2 x86_64 16 256 8 file_a 7 busy ≡ ok 268 s')
    × (s'.blocks ≡ (256, b) ∷ bs)
    × (s'.records p ≡ some r)
    × (free_memory x86_64 268 (record s' { blocks = (256, record b { first = 5 }) ∷ bs })
        ≡ ok true s'')
    × (s''.records p ≡ some (uncount x86_64 (8 % 2 ^ 32 + 5 * 2 ^ 32) r))
first_word-lost_example =
    first_word-lost file_a 7 8 256 2 16 busy (8 ∷ []) (counted ∷ []) 5 (busy-IsSound x86_64)
      (omega arith) (omega arith) (omega arith) (differ 256 0 refl) refl (omega arith)
      (differ 16 0 refl) node_out (omega arith)

zero_size-uncounted_example :
    (p : ℕ) × (r : AllocRecord) × (s' s'' : Memleak) × (get_memory 2 i386 16 256 0 file_a 7 busy
      ≡ ok 268 s')
    × (free_memory i386 268 s' ≡ ok true s'')
    × (s''.records p ≡ some r)
    × (r.cnt ≡ sub_word 32 (cnt_at (busy.records p)) 1)
zero_size-uncounted_example =
    zero_size-uncounted file_a 7 256 2 16 busy (8 ∷ []) (counted ∷ []) (busy-IsSound i386)
      (omega arith) (differ 256 0 refl) refl (omega arith) (differ 16 0 refl) node_out (omega arith)

memleak_report-IsSound_example :
    (s' : Memleak) × (memleak_report 2 3 busy ≡ ok tt s')
    × IsSound i386 s' (8 ∷ []) (all_cleaned 3 (counted ∷ []))
    × (s'.log ≡ [] ++ report_of 3 (counted ∷ []))
    × (s'.blocks ≡ busy.blocks)
memleak_report-IsSound_example =
    memleak_report-IsSound i386 2 3 busy (8 ∷ []) (counted ∷ []) (busy-IsSound i386) (omega arith)

abbrev started : Memleak
started = record initial { tracking = 1; max_tolerate = 0 }

unfoldable state_of : {A : Type 0} → Outcome A → Memleak
state_of (ok _ s) = s
state_of _ = initial

-- One block is given out, and given back.
abbrev holding : Memleak
holding = state_of (ss_malloc 1 i386 8 64 20 file_a 5 started)

abbrev finished : Memleak
finished = state_of (ss_free i386 76 holding)

holding-Run : Run 1 holding
unfolding initial update state_of lock unlock load_next load_prev load_record store_record
    store_next store_prev ml_log walk create list_add_tail new_record list_push_record allocate
    store_piggyback find_block set_block write_piggyback get_memory ss_malloc alloc_by
holding-Run =
    allocates by_malloc 0 started holding 8 64 20 76 file_a 5 (start 1 0)
      (differ 64 0 refl, refl, omega arith) (differ 8 0 refl, differ 8 1 refl, refl) (omega arith)
      (omega arith) refl

finished-Run : Run 2 finished
unfolding initial update state_of lock unlock load_next load_prev load_record store_record
    store_next store_prev ml_log walk create list_add_tail new_record list_push_record allocate
    store_piggyback find_block set_block write_piggyback get_memory ss_malloc ss_free free_memory
    read_size drop_block release release_by operator_delete
finished-Run =
    gives_back by_delete 1 holding finished 64 (record tracked_block { header = some header })
      header holding-Run refl refl refl

exit_checker-AllClear_example :
    (xs : List AllocRecord) × (exit_checker 3 finished
      ≡ ok tt (record finished { log = finished.log ++ exited ∷ unclean_lines xs }))
    × AllClear xs
unfolding initial update state_of lock unlock load_next load_prev load_record store_record
    store_next store_prev ml_log walk create list_add_tail new_record list_push_record allocate
    store_piggyback find_block set_block write_piggyback get_memory ss_malloc ss_free free_memory
    read_size drop_block release
exit_checker-AllClear_example = exit_checker-AllClear 2 finished finished-Run refl

alloc_by-Run_example :
    (q : ℕ) × (s' : Memleak) × (alloc_by by_new 1 i386 8 64 20 file_a 5 started ≡ ok q s')
    × Run 1 s'
unfolding initial
alloc_by-Run_example =
    alloc_by-Run by_new 0 started 8 64 20 file_a 5 (start 1 0) (differ 64 0 refl, refl, omega arith)
      (differ 8 0 refl, differ 8 1 refl, refl) (omega arith) (omega arith)

list_push_record-deadlock_example :
    at_exit 9 (list_push_record 2 i386 0 file_a 7 4 false busy) ≡ deadlock
unfolding lookup place_of strcmp
list_push_record-deadlock_example =
    list_push_record-deadlock 2 9 i386 file_a 7 4 false busy (8 ∷ []) (counted ∷ []) busy-IsList
      (omega arith) refl
