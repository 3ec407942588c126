-- ===== src/Memleak/Sites.antt =====
-- memleak/memleak.cpp, the list operations. `fuel` bounds the rounds of a walk along the list; one
-- more than there are records is enough.
pub mod Linked
pub mod Order
pub mod Sorted
pub mod Push
pub mod Runs
pub mod Refine
pub mod Lookup
use Prim.Native.Nat.{compare, Ordering}
use tripping_robot.Prelude.{ℕ, zero, suc, Bool, true, false, [], ◌∷◌}
use tripping_robot.Prelude.{◌||◌, ◌==◌, ltb, lt_int, if◌then◌else◌, add_word}
use tripping_robot.Memleak.{
  Abi, size_bits, Text, AllocRecord, alloc_list, no_list_memory, Cmd, exits, out_of_fuel, pure,
  ◌>>=◌, ◌>>◌, get, put, load_next, load_prev, store_next, store_prev, load_record, store_record,
  update, lock, unlock, ml_log,
}

-- `strcmp`, by its sign.
unfoldable pub strcmp : Text → Text → Ordering
strcmp [] [] = Ordering.eq
strcmp [] (_ ∷ _) = Ordering.lt
strcmp (_ ∷ _) [] = Ordering.gt
strcmp (a ∷ s) (b ∷ t) = elim (compare a b) [
  | Ordering.lt ↦ Ordering.lt
  | Ordering.eq ↦ strcmp s t
  | Ordering.gt ↦ Ordering.gt
]

unfoldable pub list_add_tail : ℕ → ℕ → Cmd (Unit {0})
list_add_tail node head = do
  before ← load_prev head
  store_next before node
  store_next node head
  before ← load_prev head
  store_prev node before
  store_prev head node

-- What the walk finds: the node of the file and line, or the one that a new node goes before.
pub data Found : Type 0 where
  hit before : ℕ → Found

-- How the node of a record stands to a file and line.
unfoldable pub place_of : Text → ℕ → AllocRecord → Ordering
place_of file line r = elim (strcmp r.file file) [
  | Ordering.gt ↦ Ordering.gt
  | Ordering.lt ↦ Ordering.lt
  | Ordering.eq ↦
      if lt_int line r.line
      then Ordering.gt
      else if line == r.line
      then Ordering.eq
      else Ordering.lt
]

-- The loop of `list_push_record`.
unfoldable pub walk : Text → ℕ → ℕ → ℕ → Cmd Found
walk file line zero it = λ _. out_of_fuel
walk file line (suc fuel) it = if it == alloc_list then pure (before it) else do
  r ← load_record it
  elim (place_of file line r) [
    | Ordering.gt ↦ pure (before it)
    | Ordering.eq ↦ pure (hit it)
    | Ordering.lt ↦ do it ← load_next it; walk file line fuel it
  ]

-- One more allocation of a record.
unfoldable pub bump : Abi → ℕ → Bool → AllocRecord → AllocRecord
bump abi size overalloc r =
    if ltb 0 size
    then record r {
      cnt = add_word 32 r.cnt 1;
      mem_total = add_word (size_bits abi) r.mem_total size;
      overallocations = overalloc || r.overallocations;
      dirty = true;
    }
    else record r { dirty = true }

unfoldable pub new_record : Text → ℕ → ℕ → Bool → AllocRecord
new_record file line size overalloc = record {
  file = file;
  line = line;
  cnt = if ltb 0 size then 1 else 0;
  mem_total = size;
  dirty = true;
  overallocations = overalloc;
}

-- `malloc` of a record gives `node`, at which nothing was; its links hold nothing of use yet.
unfoldable pub create : ℕ → AllocRecord → Cmd (Unit {0})
create node r = do
  s ← get
  put (record s {
    next = update s.next node 0;
    prev = update s.prev node 0;
    records = update s.records node r;
  })

unfoldable pub list_push_record : ℕ → Abi → ℕ → Text → ℕ → ℕ → Bool → Cmd ℕ
list_push_record fuel abi node file line size overalloc = do
  lock
  first ← load_next alloc_list
  found ← walk file line fuel first
  elim found [
    | hit p ↦ do r ← load_record p; store_record p (bump abi size overalloc r); unlock; pure p
    | before p ↦ if node == 0 then ml_log no_list_memory >> exits else do
      create node (new_record file line size overalloc)
      list_add_tail node p
      unlock
      pure node
  ]

unfoldable pub ss_memleak_point_register : ℕ → Abi → ℕ → Text → ℕ → Cmd ℕ
unfolding list_push_record
ss_memleak_point_register fuel abi node file line = list_push_record fuel abi node file line 0 false
