-- ===== src/Memleak/Alloc/Foreign.antt =====
-- memleak/memleak.cpp, giving back what the bookkeeping did not give out: NULL, and what `malloc` gave
-- while there was no tracking.
use native.Mathlib.Nat.{zero-add}
use tripping_robot.Prelude.{ℕ, ◌+◌, ◌%◌, ◌^◌, ◌<◌, ◌≡◌, ◌≢◌, refl, ap, ◌∙◌, arith}
use tripping_robot.Prelude.{false, Option, none, some, List, ◌==◌, if◌then◌else◌}
use tripping_robot.Memleak.{
  Abi, i386, x86_64, size_bits, alloc_align, AllocRecord, Piggyback, Block, Memleak, ok,
}
use tripping_robot.Memleak.Alloc.{find_block, drop_block, release, read_size, true_ptr, free_memory}
use tripping_robot.Memleak.Alloc.Balance.{
  count_of, count_at, total_at, size_at, Agrees-of, count_at-drop,
}
use tripping_robot.Memleak.Alloc.Sound.{IsSound, not_null}

pub size_at-foreign : (abi : Abi) (q : ℕ) (b : Block) → b.header ≡ none → size_at abi q b ≡ 0
unfolding size_at
size_at-foreign abi q b e =
    ap
      (λ (o : Option Piggyback). elim o [
        | none ↦ 0
        | some x ↦ if x.site == q then read_size abi x b else 0
      ])
      e

pub true_ptr_unaligned :
    (abi : Abi) (p : ℕ)
    → p % alloc_align abi ≡ 0
    → p < 2 ^ size_bits abi
    → (true_ptr abi p % alloc_align abi == 0) ≡ false
true_ptr_unaligned i386 p aligned small = ground arith
true_ptr_unaligned x86_64 p aligned small = ground arith

-- An aligned pointer, NULL too, is told from one that the bookkeeping gave out, and given back to the
-- allocator as it is: `free_memory` of NULL does nothing, and that of a live block without a header
-- gives it back. Both return false, no record changes, and the bookkeeping stays in order.
pub free_memory-foreign :
    (abi : Abi) (s : Memleak) (nodes : List ℕ) (xs : List AllocRecord) (p : ℕ) (b : Block)
    → IsSound abi s nodes xs
    → find_block p s.blocks ≡ some b
    → b.header ≡ none
    → p ≢ 0
    → p % alloc_align abi ≡ 0
    → p < 2 ^ size_bits abi
    → (free_memory abi 0 s ≡ ok false s)
      × (free_memory abi p s ≡ ok false (record s { blocks = drop_block p s.blocks }))
      × IsSound abi (record s { blocks = drop_block p s.blocks }) nodes xs
unfolding free_memory release
free_memory-foreign abi s nodes xs p b sound there header given aligned small = (
  simp (true_ptr_unaligned abi 0 (zero_aligned abi) (zero_small abi)),
  simp (true_ptr_unaligned abi p aligned small, not_null p given, there),
  record {
    list = record {
      linked = sound.list.linked;
      apart = sound.list.apart;
      distinct = sound.list.distinct;
      held = sound.list.held;
      unlocked = sound.list.unlocked;
    };
    sorted = sound.sorted;
    only = sound.only;
    balanced = λ q.
        let (counts, totals) = count_at-drop abi q p s.blocks b there in
        let c = count_at abi q (drop_block p s.blocks) in
        let t = total_at abi q (drop_block p s.blocks) in
        Agrees-of abi (s.records q) (s.records q) (count_at abi q s.blocks) c
          (total_at abi q s.blocks) t refl
          (counts ∙ ap (λ x. count_of x + c) (size_at-foreign abi q b header) ∙ zero-add c)
          (totals ∙ ap (λ x. x + t) (size_at-foreign abi q b header) ∙ zero-add t)
          (sound.balanced q);
  },
)
  where
    zero_aligned : (abi : Abi) → 0 % alloc_align abi ≡ 0
    zero_aligned i386 = refl
    zero_aligned x86_64 = refl

    zero_small : (abi : Abi) → 0 < 2 ^ size_bits abi
    zero_small i386 = omega arith
    zero_small x86_64 = omega arith
