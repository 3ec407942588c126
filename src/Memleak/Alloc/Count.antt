-- ===== src/Memleak/Alloc/Count.antt =====
-- memleak/memleak.cpp, `memleak_allocs_at`.
use tripping_robot.Prelude.{ℕ, ◌+◌, ◌%◌, ◌^◌, ◌<◌, ◌≡◌, ap, subst, arith}
use tripping_robot.Prelude.{true, none, some, List, ◌==◌}
use tripping_robot.Memleak.{
  Abi, size_bits, alloc_align, piggyback_size, AllocRecord, Piggyback, Block, Memleak, ok,
  load_record,
}
use tripping_robot.Memleak.Alloc.{find_block, read_size, memleak_allocs_at}
use tripping_robot.Memleak.Alloc.Balance.{count_at, total_at, Agrees}
use tripping_robot.Memleak.Alloc.Sound.{IsSound}
use tripping_robot.Memleak.Alloc.Free.{counted-record, true_ptr-add}
use tripping_robot.Memleak.Alloc.Foreign.{true_ptr_unaligned}

-- In a state where the bookkeeping is in order, `memleak_allocs_at` of what stands 12 bytes into a
-- live and aligned block with a header and a size above 0 gives the number of live blocks of the same
-- line, as an `int`; of any aligned pointer it gives -1. It changes nothing.
pub memleak_allocs_at-counts :
    (abi : Abi) (s : Memleak) (nodes : List ℕ) (xs : List AllocRecord) (a : ℕ) (b : Block)
    (h : Piggyback) (p : ℕ)
    → IsSound abi s nodes xs
    → find_block a s.blocks ≡ some b
    → b.header ≡ some h
    → 0 < read_size abi h b
    → a % alloc_align abi ≡ 0
    → a + piggyback_size < 2 ^ size_bits abi
    → p % alloc_align abi ≡ 0
    → p < 2 ^ size_bits abi
    → (memleak_allocs_at abi (a + piggyback_size) s
        ≡ ok (some (count_at abi h.site s.blocks % 2 ^ 32)) s)
      × (memleak_allocs_at abi p s ≡ ok none s)
unfolding memleak_allocs_at load_record
memleak_allocs_at-counts abi s nodes xs a b h p sound there header pos aligned below p_aligned
      p_below =
    let (r, site) = counted-record abi s a b h there header pos sound.balanced in
    let (counts, _) : Agrees abi (some r) (count_at abi h.site s.blocks)
        (total_at abi h.site s.blocks) =
      subst (λ o. Agrees abi o (count_at abi h.site s.blocks) (total_at abi h.site s.blocks)) site
        (sound.balanced h.site) in
    (
      simp (true_ptr-add abi a below, is_zero aligned, there, header, site)
          (ap (λ c. ok (some c) s) counts),
      simp (true_ptr_unaligned abi p p_aligned p_below),
    )
  where
    is_zero : a % alloc_align abi ≡ 0 → (a % alloc_align abi == 0) ≡ true
    is_zero e = ground arith
