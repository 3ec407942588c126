-- ===== src/Memleak/Alloc/Free.antt =====
-- memleak/memleak.cpp, giving a block back.
use tripping_robot.Prelude.{ℕ, ◌+◌, ◌%◌, ◌^◌, ◌<◌, ◌≡◌, ◌≢◌, refl, sym, ap, subst, ◌∙◌, arith}
use tripping_robot.Prelude.{Bool, true, false, Option, none, some, List, ◌==◌, if◌then◌else◌}
use tripping_robot.Memleak.{
  Abi, i386, x86_64, size_bits, alloc_align, piggyback_size, AllocRecord, Piggyback, Block, Memleak,
  ok, update, lock, unlock, load_record, store_record,
}
use tripping_robot.Memleak.Sites.Linked.{NotIn, update_other}
use tripping_robot.Memleak.Alloc.{
  find_block, drop_block, release, read_size, uncount, true_ptr, free_memory,
}
use tripping_robot.Memleak.Alloc.Balance.{
  count_of, count_at, total_at, size_at, IsBalanced, Agrees, IsBalanced-free, count_at-drop,
  size_at-header,
}
use tripping_robot.Memleak.Alloc.Sound.{IsSound, Held-replace, IsSorted-SameKeys, not_null}

module _ (abi : Abi) (s : Memleak) (a : ℕ) (b : Block) (h : Piggyback)
    (there : find_block a s.blocks ≡ some b) (header : b.header ≡ some h) where
  -- A block that is counted has a record.
  pub counted-record :
      0 < read_size abi h b → IsBalanced abi s → (r : AllocRecord) × (s.records h.site ≡ some r)
  counted-record pos balanced = go (s.records h.site) refl
    where
      itself : (p : ℕ) → (p == p) ≡ true
      itself p = ground arith

      is_one : count_of (read_size abi h b) ≡ 1
      is_one = ground arith

      go :
          (o : Option AllocRecord)
          → s.records h.site ≡ o
          → (r : AllocRecord) × (s.records h.site ≡ some r)
      go (some r) e = (r, e)
      go none e =
          let size_here : size_at abi h.site b ≡ read_size abi h b =
            size_at-header abi h.site b h header
            ∙ ap (λ (x : Bool). if x then read_size abi h b else 0) (itself h.site) in
          let (counts, _) = count_at-drop abi h.site a s.blocks b there in
          let nothing : count_at abi h.site s.blocks ≡ 0 =
            (subst (λ o. Agrees abi o (count_at abi h.site s.blocks) (total_at abi h.site s.blocks))
              e (balanced h.site)).0 in
          let one : count_of (size_at abi h.site b) ≡ 1 = ap (λ n. count_of n) size_here ∙ is_one in
          absurd (omega arith)

  -- The state after the block is given back.
  abbrev pub returned : AllocRecord → Memleak
  returned r = record s {
    records = update s.records h.site (uncount abi (read_size abi h b) r);
    rec_lock = false;
    blocks = drop_block a s.blocks;
  }

  pub free_memory-run :
      (r : AllocRecord)
      → s.records h.site ≡ some r
      → s.rec_lock ≡ false
      → a ≢ 0
      → true_ptr abi (a + piggyback_size) ≡ a
      → (a % alloc_align abi == 0) ≡ true
      → free_memory abi (a + piggyback_size) s ≡ ok true (returned r)
  unfolding free_memory lock unlock load_record store_record release
  free_memory-run r site unlocked given back aligned =
      simp (back, aligned, there, header, site, unlocked, not_null a given)

uncount_key :
    (abi : Abi) (size : ℕ) (r : AllocRecord)
    → (r.file ≡ (uncount abi size r).file) × (r.line ≡ (uncount abi size r).line)
unfolding uncount
uncount_key abi size r = (refl, refl)

pub true_ptr-add :
    (abi : Abi) (a : ℕ)
    → a + piggyback_size < 2 ^ size_bits abi
    → true_ptr abi (a + piggyback_size) ≡ a
true_ptr-add i386 a small = ground arith
true_ptr-add x86_64 a small = ground arith

-- In a state where the bookkeeping is in order, `free_memory` of what stands 12 bytes into a live and
-- aligned block with a header and a size above 0 gives the block back and returns true. The record
-- of the header exists, and is counted down by the block and by its size; the bookkeeping is in order
-- again, with the same nodes.
pub free_memory-IsSound :
    (abi : Abi) (s : Memleak) (nodes : List ℕ) (xs : List AllocRecord) (a : ℕ) (b : Block)
    (h : Piggyback)
    → IsSound abi s nodes xs
    → find_block a s.blocks ≡ some b
    → b.header ≡ some h
    → 0 < read_size abi h b
    → read_size abi h b < 2 ^ size_bits abi
    → a ≢ 0
    → a % alloc_align abi ≡ 0
    → a + piggyback_size < 2 ^ size_bits abi
    → (r : AllocRecord) × (s' : Memleak) × (ys : List AllocRecord) × (free_memory abi
          (a + piggyback_size)
          s
        ≡ ok true s')
      × IsSound abi s' nodes ys
      × (s'.blocks ≡ drop_block a s.blocks)
      × (s.records h.site ≡ some r)
      × (s'.records ≡ update s.records h.site (uncount abi (read_size abi h b) r))
free_memory-IsSound abi s nodes xs a b h sound there header pos small given aligned room =
    let (r, site) = counted-record abi s a b h there header pos sound.balanced in
    let s' = returned abi s a b h there header r in
    let r' = uncount abi (read_size abi h b) r in
    let (ys, held, keys) =
      Held-replace s.records h.site r r' nodes xs site (uncount_key abi (read_size abi h b) r).0
        (uncount_key abi (read_size abi h b) r).1 sound.list.distinct sound.list.held in
    (
      r,
      s',
      ys,
      free_memory-run abi s a b h there header r site sound.list.unlocked given
          (true_ptr-add abi a room) (is_zero aligned),
      record {
        list = record {
          linked = sound.list.linked;
          apart = sound.list.apart;
          distinct = sound.list.distinct;
          held = held;
          unlocked = refl;
        };
        sorted = IsSorted-SameKeys xs ys keys sound.sorted;
        only = λ q away.
            update_other s.records h.site r' q (elsewhere r site q away) ∙ sound.only q away;
        balanced =
            IsBalanced-free abi s s' a b h r sound.balanced there header pos small site refl refl;
      },
      refl,
      site,
      refl,
    )
  where
    is_zero : a % alloc_align abi ≡ 0 → (a % alloc_align abi == 0) ≡ true
    is_zero e = ground arith

    elsewhere : (r : AllocRecord) → s.records h.site ≡ some r → (q : ℕ) → NotIn q nodes → q ≢ h.site
    elsewhere r site q away e =
        let clash : some r ≡ none = sym site ∙ ap s.records (sym e) ∙ sound.only q away in
        absurd (cc clash)
