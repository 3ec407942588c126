-- ===== src/Memleak/Alloc.antt =====
-- memleak/memleak.cpp, the memory allocation and the replacement allocators. What `malloc` gives is an
-- argument: `ptr` for the block and `node` for a record, if one is needed; 0 is a failure.
pub mod Balance
pub mod Sound
pub mod Free
pub mod Foreign
pub mod Plain
pub mod Count
pub mod Overlap
use tripping_robot.Prelude.{
  ℕ, ◌+◌, ◌*◌, ◌/◌, ◌%◌, ◌^◌, Bool, true, false, Option, none, some, List, [], ◌∷◌,
}
use tripping_robot.Prelude.{◌&&◌, ◌==◌, ltb, if◌then◌else◌, add_word, sub_word}
use tripping_robot.Memleak.{
  Abi, i386, x86_64, size_bits, alloc_align, sizeof_piggyback, piggyback_size, Text, AllocRecord,
  Piggyback, Block, exceeded, no_memory, Cmd, fault, pure, ◌>>=◌, ◌>>◌, get, put, need, load_record,
  store_record, lock, unlock, ml_log,
}
use tripping_robot.Memleak.Sites.{list_push_record}

-- The blocks that the allocator has given out, by their addresses.
unfoldable pub find_block : ℕ → List (ℕ × Block) → Option Block
find_block p [] = none
find_block p ((q, b) ∷ bs) = let rest = find_block p bs in if p == q then some b else rest

unfoldable pub set_block : ℕ → Block → List (ℕ × Block) → List (ℕ × Block)
set_block p c [] = []
set_block p c ((q, b) ∷ bs) =
    let rest = set_block p c bs in if p == q then (q, c) ∷ bs else (q, b) ∷ rest

unfoldable pub drop_block : ℕ → List (ℕ × Block) → List (ℕ × Block)
drop_block p [] = []
drop_block p ((q, b) ∷ bs) = let rest = drop_block p bs in if p == q then bs else (q, b) ∷ rest

-- `malloc` of `room` bytes gave `ptr`. What the block holds is arbitrary, and is not read before it is
-- written.
unfoldable pub allocate : ℕ → ℕ → Cmd (Unit {0})
allocate ptr room = if ptr == 0 then pure tt else do
  s ← get
  put (record s { blocks = (ptr, record { room = room; header = none; first = 0 }) ∷ s.blocks })

-- `free`
unfoldable pub release : ℕ → Cmd (Unit {0})
unfolding find_block drop_block
release ptr = if ptr == 0 then pure tt else do
  s ← get
  _ ← need (find_block ptr s.blocks)
  put (record s { blocks = drop_block ptr s.blocks })

-- The assignments to `pbdata->record` and `pbdata->size`. On x86_64 the upper half of the size lies in
-- the application's first word.
unfoldable pub write_piggyback : Abi → ℕ → ℕ → Block → Block
write_piggyback i386 site size b = record b { header = some (record { site = site; low = size }) }
write_piggyback x86_64 site size b = record b {
  header = some (record { site = site; low = size % 2 ^ 32 });
  first = size / 2 ^ 32;
}

-- `pbdata->size`
unfoldable pub read_size : Abi → Piggyback → Block → ℕ
read_size i386 h b = h.low
read_size x86_64 h b = h.low + b.first * 2 ^ 32

unfoldable pub store_piggyback : Abi → ℕ → ℕ → ℕ → Cmd (Unit {0})
unfolding write_piggyback set_block find_block
store_piggyback abi ptr site size = do
  s ← get
  b ← need (find_block ptr s.blocks)
  if ltb b.room (sizeof_piggyback abi)
      then (λ _. fault)
      else put (record s { blocks = set_block ptr (write_piggyback abi site size b) s.blocks })

unfoldable pub get_memory : ℕ → Abi → ℕ → ℕ → ℕ → Text → ℕ → Cmd ℕ
get_memory fuel abi node ptr size file line = do
  allocate ptr (add_word (size_bits abi) piggyback_size size)
  s ← get
  let overalloc = ltb 0 s.max_tolerate && ltb s.max_tolerate size
  if overalloc then ml_log (exceeded size file line) else pure tt
  if ptr == 0 then ml_log (no_memory file line) >> pure 0 else do
    site ← list_push_record fuel abi node file line size overalloc
    store_piggyback abi ptr site size
    pure (ptr + piggyback_size)

-- The record of a block that is given back.
unfoldable pub uncount : Abi → ℕ → AllocRecord → AllocRecord
uncount abi size r = record r {
  cnt = sub_word 32 r.cnt 1;
  dirty = true;
  mem_total = sub_word (size_bits abi) r.mem_total size;
}

-- PTR_TO_TRUEPTR
abbrev pub true_ptr : Abi → ℕ → ℕ
true_ptr abi ptr = sub_word (size_bits abi) ptr piggyback_size

unfoldable pub free_memory : Abi → ℕ → Cmd Bool
unfolding read_size find_block
free_memory abi ptr =
    if true_ptr abi ptr % alloc_align abi == 0
    then (do
      s ← get
      b ← need (find_block (true_ptr abi ptr) s.blocks)
      h ← need b.header
      lock
      r ← load_record h.site
      store_record h.site (uncount abi (read_size abi h b) r)
      unlock
      release (true_ptr abi ptr)
      pure true)
    else (do release ptr; pure false)

-- The number of allocations, or `none` for -1.
unfoldable pub memleak_allocs_at : Abi → ℕ → Cmd (Option ℕ)
unfolding find_block
memleak_allocs_at abi ptr =
    if true_ptr abi ptr % alloc_align abi == 0
    then (do
      s ← get
      b ← need (find_block (true_ptr abi ptr) s.blocks)
      h ← need b.header
      r ← load_record h.site
      pure (some r.cnt))
    else pure none

unfoldable pub ss_malloc : ℕ → Abi → ℕ → ℕ → ℕ → Text → ℕ → Cmd ℕ
ss_malloc fuel abi node ptr size file line = do
  s ← get
  if s.tracking == 0
      then allocate ptr size >> pure ptr
      else get_memory fuel abi node ptr size file line

unfoldable pub ss_free : Abi → ℕ → Cmd (Unit {0})
ss_free abi ptr = do _ ← free_memory abi ptr; pure tt

-- `operator new` and `operator new []`.
unfoldable pub operator_new : ℕ → Abi → ℕ → ℕ → ℕ → Text → ℕ → Cmd ℕ
operator_new fuel abi node ptr size file line = do
  s ← get
  if s.tracking == 0
      then allocate ptr size >> pure ptr
      else get_memory fuel abi node ptr size file line

unfoldable pub operator_new_array : ℕ → Abi → ℕ → ℕ → ℕ → Text → ℕ → Cmd ℕ
operator_new_array fuel abi node ptr size file line = do
  s ← get
  if s.tracking == 0
      then allocate ptr size >> pure ptr
      else get_memory fuel abi node ptr size file line

-- `operator delete` and `operator delete []`.
unfoldable pub operator_delete : Abi → ℕ → Cmd (Unit {0})
operator_delete abi ptr = do _ ← free_memory abi ptr; pure tt

unfoldable pub operator_delete_array : Abi → ℕ → Cmd (Unit {0})
operator_delete_array abi ptr = do _ ← free_memory abi ptr; pure tt
