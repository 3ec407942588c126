-- ===== src/Memleak/Alloc/Overlap.antt =====
-- memleak/memleak.cpp, where the bookkeeping goes wrong: the header of 16 bytes in the 12 bytes that
-- x86_64 has for it, and allocations of no bytes.
use tripping_robot.Prelude.{ℕ, ◌+◌, ◌*◌, ◌%◌, ◌^◌, ◌≤◌, ◌<◌, ◌≡◌, ◌≢◌, refl, ap, ◌∙◌, arith}
use tripping_robot.Prelude.{
  Bool, true, false, Option, none, some, List, ◌∷◌, ◌==◌, ltb, length, sub_word,
}
use tripping_robot.Memleak.{
  Abi, i386, x86_64, alloc_align, sizeof_piggyback, piggyback_size, Text, AllocRecord, Piggyback,
  Block, Memleak, alloc_list, ok, fault, ml_log,
}
use tripping_robot.Memleak.Sites.{new_record, bump, list_push_record}
use tripping_robot.Memleak.Sites.Sorted.{grow}
use tripping_robot.Memleak.Sites.Linked.{NotIn, update_self}
use tripping_robot.Memleak.Sites.Refine.{list_push_record-Pushed}
use tripping_robot.Memleak.Alloc.{
  find_block, allocate, write_piggyback, read_size, store_piggyback, get_memory, uncount,
  free_memory,
}
use tripping_robot.Memleak.Alloc.Sound.{
  IsSound, get_memory-IsSound, not_null, unwritten, handed, is_over, handed-IsList,
}
use tripping_robot.Memleak.Alloc.Free.{free_memory-run, returned, true_ptr-add}

store_piggyback-fault :
    (ptr p size : ℕ) (b : Block) (bs : List (ℕ × Block)) (s : Memleak)
    → b.room < sizeof_piggyback x86_64
    → s.blocks ≡ (ptr, b) ∷ bs
    → store_piggyback x86_64 ptr p size s ≡ fault
unfolding store_piggyback find_block
store_piggyback-fault ptr p size b bs s room blocks = simp (blocks, itself, short)
  where
    itself : (ptr == ptr) ≡ true
    itself = ground arith

    short : ltb b.room 16 ≡ true
    short = ground arith

module _ (file : Text) (line size ptr fuel node : ℕ) (s : Memleak) (nodes : List ℕ)
    (xs : List AllocRecord) where
  get_memory-fault_run :
      (p : ℕ) (s' : Memleak) (over : Bool)
      → is_over x86_64 size file line ptr s ≡ over
      → ptr ≢ 0
      → (unwritten x86_64 size file line ptr).room < sizeof_piggyback x86_64
      → s'.blocks ≡ (ptr, unwritten x86_64 size file line ptr) ∷ s.blocks
      → list_push_record fuel x86_64 node file line size over
          (handed x86_64 size file line ptr over s)
        ≡ ok p s'
      → get_memory fuel x86_64 node ptr size file line s ≡ fault
  unfolding get_memory allocate ml_log
  get_memory-fault_run p s' true over given room blocks runs = simp (
    over,
    not_null ptr given,
    runs,
    store_piggyback-fault ptr p size (unwritten x86_64 size file line ptr) s.blocks s' room blocks,
  )
  get_memory-fault_run p s' false over given room blocks runs = simp (
    over,
    not_null ptr given,
    runs,
    store_piggyback-fault ptr p size (unwritten x86_64 size file line ptr) s.blocks s' room blocks,
  )

  -- On x86_64 an allocation of less than 4 bytes writes outside its block, in every state where the
  -- records are a list in memory: the header is 16 bytes, and the block 12 more than was asked for.
  -- There is fuel for one round more than there are records, and neither allocation fails.
  pub get_memory-fault :
      IsSound x86_64 s nodes xs
      → size < 4
      → ptr ≢ 0
      → node ≢ 0
      → NotIn node (alloc_list ∷ nodes)
      → length nodes < fuel
      → get_memory fuel x86_64 node ptr size file line s ≡ fault
  get_memory-fault sound tiny given node_given out more =
      let over = is_over x86_64 size file line ptr s in
      let (p, s', runs, pushed) =
        list_push_record-Pushed fuel x86_64 node file line size over
          (handed x86_64 size file line ptr over s) nodes xs
          (handed-IsList x86_64 size file line ptr over s nodes xs sound.list) more node_given out
          (sound.only node out.1) in
      get_memory-fault_run p s' over refl given (ground arith) pushed.blocks runs

  -- On x86_64 the header runs 4 bytes into what the application gets. If the application stores w in
  -- its first word of 32 bits, giving the block back takes the wrong number from the record's bytes:
  -- w · 2 ^ 32 and the lower half of the size. The bookkeeping was in order before the allocation, the
  -- size is at least 4, the block is aligned, nothing overflows, and neither allocation fails.
  pub first_word-lost :
      (w : ℕ)
      → IsSound x86_64 s nodes xs
      → 4 ≤ size
      → piggyback_size + size < 2 ^ 64
      → line < 2 ^ 32
      → ptr ≢ 0
      → ptr % alloc_align x86_64 ≡ 0
      → ptr + piggyback_size < 2 ^ 64
      → node ≢ 0
      → NotIn node (alloc_list ∷ nodes)
      → length nodes < fuel
      → (p : ℕ) × (r : AllocRecord) × (s' s'' : Memleak) × (b : Block) × (bs : List (ℕ × Block))
        × (get_memory fuel x86_64 node ptr size file line s ≡ ok (ptr + piggyback_size) s')
        × (s'.blocks ≡ (ptr, b) ∷ bs)
        × (s'.records p ≡ some r)
        × (free_memory x86_64
              (ptr + piggyback_size)
              (record s' { blocks = (ptr, record b { first = w }) ∷ bs })
            ≡ ok true s'')
        × (s''.records p ≡ some (uncount x86_64 (size % 2 ^ 32 + w * 2 ^ 32) r))
  unfolding find_block write_piggyback read_size
  first_word-lost w sound big small word given aligned top node_given out more =
      let over = is_over x86_64 size file line ptr s in
      let (p, s', nodes', runs, sound', blocks, records, _) =
        get_memory-IsSound x86_64 size file line ptr fuel node s nodes xs sound given small
          (omega arith) word node_given out more in
      let b = write_piggyback x86_64 p size (unwritten x86_64 size file line ptr) in
      let r = grow x86_64 file line size over (s.records p) in
      let there : s'.records p ≡ some r =
        ap (λ (f : ℕ → Option AllocRecord). f p) records ∙ update_self s.records p r in
      let h : Piggyback = record { site = p; low = size % 2 ^ 32 } in
      let t = record s' { blocks = (ptr, record b { first = w }) ∷ s.blocks } in
      let found : find_block ptr t.blocks ≡ some (record b { first = w }) = ground arith in
      (
        p,
        r,
        s',
        returned x86_64 t ptr (record b { first = w }) h found refl r,
        b,
        s.blocks,
        runs,
        blocks,
        there,
        free_memory-run x86_64 t ptr (record b { first = w }) h found refl r there
            sound'.list.unlocked given (true_ptr-add x86_64 ptr top) (ground arith),
        update_self s'.records p (uncount x86_64 (size % 2 ^ 32 + w * 2 ^ 32) r),
      )

-- The field `cnt` of the record at a place, 0 where none is.
abbrev pub cnt_at : Option AllocRecord → ℕ
cnt_at none = 0
cnt_at (some r) = r.cnt

cnt-grow :
    (abi : Abi) (file : Text) (line : ℕ) (overalloc : Bool) (o : Option AllocRecord)
    → (grow abi file line 0 overalloc o).cnt ≡ cnt_at o
unfolding grow bump new_record
cnt-grow abi file line overalloc none = refl
cnt-grow abi file line overalloc (some r) = refl

-- On i386 an allocation of no bytes is not counted, and giving it back is: the count of its record
-- is then one below what it was, -1 where the record is new. The bookkeeping was in order, the block
-- is aligned, nothing overflows, and neither allocation fails.
pub zero_size-uncounted :
    (file : Text) (line ptr fuel node : ℕ) (s : Memleak) (nodes : List ℕ) (xs : List AllocRecord)
    → IsSound i386 s nodes xs
    → line < 2 ^ 32
    → ptr ≢ 0
    → ptr % alloc_align i386 ≡ 0
    → ptr + piggyback_size < 2 ^ 32
    → node ≢ 0
    → NotIn node (alloc_list ∷ nodes)
    → length nodes < fuel
    → (p : ℕ) × (r : AllocRecord) × (s' s'' : Memleak) × (get_memory fuel i386 node ptr 0 file line
          s
        ≡ ok (ptr + piggyback_size) s')
      × (free_memory i386 (ptr + piggyback_size) s' ≡ ok true s'')
      × (s''.records p ≡ some r)
      × (r.cnt ≡ sub_word 32 (cnt_at (s.records p)) 1)
unfolding find_block write_piggyback read_size uncount
zero_size-uncounted file line ptr fuel node s nodes xs sound word given aligned top node_given out
      more =
    let over = is_over i386 0 file line ptr s in
    let (p, s', nodes', runs, sound', blocks, records, _) =
      get_memory-IsSound i386 0 file line ptr fuel node s nodes xs sound given (omega arith)
        (omega arith) word node_given out more in
    let b = write_piggyback i386 p 0 (unwritten i386 0 file line ptr) in
    let r = grow i386 file line 0 over (s.records p) in
    let there : s'.records p ≡ some r =
      ap (λ (f : ℕ → Option AllocRecord). f p) records ∙ update_self s.records p r in
    let h : Piggyback = record { site = p; low = 0 } in
    let found : find_block ptr s'.blocks ≡ some b = ap (find_block ptr) blocks ∙ ground arith in
    (
      p,
      uncount i386 0 r,
      s',
      returned i386 s' ptr b h found refl r,
      runs,
      free_memory-run i386 s' ptr b h found refl r there sound'.list.unlocked given
          (true_ptr-add i386 ptr top) (ground arith),
      update_self s'.records p (uncount i386 0 r),
      ap (λ n. sub_word 32 n 1) (cnt-grow i386 file line over (s.records p)),
    )
