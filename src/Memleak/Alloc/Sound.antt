-- ===== src/Memleak/Alloc/Sound.antt =====
-- memleak/memleak.cpp, the invariant of the bookkeeping, and that giving out and giving back a block
-- keep it.
use tripping_robot.Prelude.{ℕ, suc, ◌+◌, ◌^◌, ◌≤◌, ◌<◌, ◌≡◌, ◌≢◌, refl, sym, ap, subst, ◌∙◌, arith}
use tripping_robot.Prelude.{
  Bool, true, false, Option, none, some, List, [], ◌∷◌, ◌++◌, ◌&&◌, ◌==◌, ltb, if◌then◌else◌,
  length, add_word, ℕ_discrete,
}
use tripping_robot.Memleak.{
  Abi, i386, x86_64, size_bits, sizeof_piggyback, piggyback_size, Text, AllocRecord, Block, Memleak,
  exceeded, alloc_list, ok, update, ml_log,
}
use tripping_robot.Memleak.Sites.{list_push_record}
use tripping_robot.Memleak.Sites.Sorted.{grow, push}
use tripping_robot.Memleak.Sites.Linked.{NotIn, Distinct, update_self, update_other}
use tripping_robot.Memleak.Sites.Push.{Held, IsList, Held-update}
use tripping_robot.Memleak.Sites.Refine.{list_push_record-Pushed}
use tripping_robot.Memleak.Sites.Lookup.{AllAfter, IsSorted, push-IsSorted}
use tripping_robot.Memleak.Alloc.{
  find_block, set_block, allocate, write_piggyback, store_piggyback, get_memory,
}
use tripping_robot.Memleak.Alloc.Balance.{IsBalanced, IsBalanced-alloc}

-- The bookkeeping is in order: the list in memory holds the records xs, sorted by file and line, there
-- is no record outside it, and the counts agree with the blocks given out.
pub record IsSound (abi : Abi) (s : Memleak) (nodes : List ℕ) (xs : List AllocRecord) : Type 0 where
  pub list : IsList s nodes xs
  pub sorted : IsSorted xs
  pub only : (p : ℕ) → NotIn p nodes → s.records p ≡ none
  pub balanced : IsBalanced abi s

-- Records with the same files and lines.
abbrev pub SameKeys : List AllocRecord → List AllocRecord → Type 0
SameKeys [] [] = Unit {0}
SameKeys (x ∷ xs) (y ∷ ys) = (x.file ≡ y.file) × (x.line ≡ y.line) × SameKeys xs ys
SameKeys [] (_ ∷ _) = ⊥
SameKeys (_ ∷ _) [] = ⊥

SameKeys-refl : (xs : List AllocRecord) → SameKeys xs xs
SameKeys-refl [] = tt
SameKeys-refl (x ∷ xs) = (refl, refl, SameKeys-refl xs)

AllAfter-SameKeys :
    (file : Text) (line : ℕ) (xs ys : List AllocRecord)
    → SameKeys xs ys
    → AllAfter file line xs
    → AllAfter file line ys
AllAfter-SameKeys file line [] [] k h = tt
AllAfter-SameKeys file line [] (_ ∷ _) k h = elim k [ ]
AllAfter-SameKeys file line (_ ∷ _) [] k h = elim k [ ]
AllAfter-SameKeys file line (x ∷ xs) (y ∷ ys) k h =
    (rw (sym k.0, sym k.1) h.0, AllAfter-SameKeys file line xs ys k.2 h.1)

pub IsSorted-SameKeys : (xs ys : List AllocRecord) → SameKeys xs ys → IsSorted xs → IsSorted ys
IsSorted-SameKeys [] [] k h = tt
IsSorted-SameKeys [] (_ ∷ _) k h = elim k [ ]
IsSorted-SameKeys (_ ∷ _) [] k h = elim k [ ]
IsSorted-SameKeys (x ∷ xs) (y ∷ ys) k h = (
  rw (sym k.1) h.0,
  rw (sym k.0, sym k.1) (AllAfter-SameKeys x.file x.line xs ys k.2 h.1),
  IsSorted-SameKeys xs ys k.2 h.2,
)

-- A record that changes and keeps its file and line changes the list at one place.
pub Held-replace :
    (f : ℕ → Option AllocRecord) (p : ℕ) (r r' : AllocRecord) (ps : List ℕ) (xs : List AllocRecord)
    → f p ≡ some r
    → r.file ≡ r'.file
    → r.line ≡ r'.line
    → Distinct ps
    → Held f ps xs
    → (ys : List AllocRecord) × Held (update f p r') ps ys × SameKeys xs ys
Held-replace f p r r' [] [] at file line d h = ([], tt, tt)
Held-replace f p r r' [] (x ∷ xs) at file line d h = elim h [ ]
Held-replace f p r r' (q ∷ ps) [] at file line d h = elim h [ ]
Held-replace f p r r' (q ∷ ps) (x ∷ xs) at file line d h =
    let (ys, held, keys) = Held-replace f p r r' ps xs at file line d.1 h.1 in
    elim (ℕ_discrete q p) [
      | yes here ↦
          let same : x ≡ r = injective (sym h.0 ∙ ap f here ∙ at) in
          (
            r' ∷ xs,
            (
              ap (update f p r') here ∙ update_self f p r',
              Held-update f p r' ps xs (subst (λ t. NotIn t ps) here d.0) h.1,
            ),
            (
              ap (λ (t : AllocRecord). t.file) same ∙ file,
              ap (λ (t : AllocRecord). t.line) same ∙ line,
              SameKeys-refl xs,
            ),
          )
      | no other ↦ (x ∷ ys, (update_other f p r' q other ∙ h.0, held), (refl, refl, keys))
    ]
  where
    injective : {x y : AllocRecord} → some x ≡ some y → x ≡ y
    injective e = cc

pub not_null : (p : ℕ) → p ≢ 0 → (p == 0) ≡ false
not_null p given = ground arith

store_piggyback-run :
    (abi : Abi) (ptr p size : ℕ) (b : Block) (bs : List (ℕ × Block)) (s : Memleak)
    → sizeof_piggyback abi ≤ b.room
    → s.blocks ≡ (ptr, b) ∷ bs
    → store_piggyback abi ptr p size s
      ≡ ok tt (record s { blocks = (ptr, write_piggyback abi p size b) ∷ bs })
unfolding store_piggyback find_block set_block
store_piggyback-run abi ptr p size b bs s room blocks = simp (blocks, itself, fits)
  where
    itself : (ptr == ptr) ≡ true
    itself = ground arith

    fits : ltb b.room (sizeof_piggyback abi) ≡ false
    fits = ground arith

module _ (abi : Abi) (size : ℕ) (file : Text) (line ptr : ℕ) where
  -- The block as `malloc` gives it.
  abbrev pub unwritten : Block
  unwritten = record {
    room = add_word (size_bits abi) piggyback_size size;
    header = none;
    first = 0;
  }

  -- The state in which `get_memory` pushes the record, after a message if the size is over the limit.
  abbrev pub handed : Bool → Memleak → Memleak
  handed over s = record s {
    blocks = (ptr, unwritten) ∷ s.blocks;
    log = if over then s.log ++ exceeded size file line ∷ [] else s.log;
  }

  abbrev pub is_over : Memleak → Bool
  is_over s = ltb 0 s.max_tolerate && ltb s.max_tolerate size

  get_memory-run :
      (fuel node p : ℕ) (s s' : Memleak) (over : Bool)
      → is_over s ≡ over
      → ptr ≢ 0
      → sizeof_piggyback abi ≤ unwritten.room
      → s'.blocks ≡ (ptr, unwritten) ∷ s.blocks
      → list_push_record fuel abi node file line size over (handed over s) ≡ ok p s'
      → get_memory fuel abi node ptr size file line s
        ≡ ok
            (ptr + piggyback_size)
            (record s' { blocks = (ptr, write_piggyback abi p size unwritten) ∷ s.blocks })
  unfolding get_memory allocate ml_log
  get_memory-run fuel node p s s' true over given room blocks runs = simp (
    over,
    not_null ptr given,
    runs,
    store_piggyback-run abi ptr p size unwritten s.blocks s' room blocks,
  )
  get_memory-run fuel node p s s' false over given room blocks runs = simp (
    over,
    not_null ptr given,
    runs,
    store_piggyback-run abi ptr p size unwritten s.blocks s' room blocks,
  )

  pub handed-IsList :
      (over : Bool) (s : Memleak) (nodes : List ℕ) (xs : List AllocRecord)
      → IsList s nodes xs
      → IsList (handed over s) nodes xs
  handed-IsList over s nodes xs list = record {
    linked = list.linked;
    apart = list.apart;
    distinct = list.distinct;
    held = list.held;
    unlocked = list.unlocked;
  }

  -- In a state where the bookkeeping is in order, `get_memory` with fuel for one round more than there
  -- are records returns the allocator's block, 12 bytes further on. The bookkeeping is in order again:
  -- the list is what `push` makes of it, and the new block stands before the others, with the place
  -- of a record and the size in its header, and there is at most one node more. The size must leave room for the header that the machine
  -- has, 12 more must not overflow, and neither allocation may fail.
  pub get_memory-IsSound :
      (fuel node : ℕ) (s : Memleak) (nodes : List ℕ) (xs : List AllocRecord)
      → IsSound abi s nodes xs
      → ptr ≢ 0
      → piggyback_size + size < 2 ^ size_bits abi
      → sizeof_piggyback abi ≤ piggyback_size + size
      → line < 2 ^ 32
      → node ≢ 0
      → NotIn node (alloc_list ∷ nodes)
      → length nodes < fuel
      → (p : ℕ) × (s' : Memleak) × (nodes' : List ℕ) × (get_memory fuel abi node ptr size file line
            s
          ≡ ok (ptr + piggyback_size) s')
        × IsSound abi s' nodes' (push abi file line size (is_over s) xs)
        × (s'.blocks ≡ (ptr, write_piggyback abi p size unwritten) ∷ s.blocks)
        × (s'.records ≡ update s.records p (grow abi file line size (is_over s) (s.records p)))
        × (length nodes' ≤ suc (length nodes))
  get_memory-IsSound fuel node s nodes xs sound given small room word node_given out more =
      let (p, s3, runs, pushed) =
        list_push_record-Pushed fuel abi node file line size (is_over s) (handed (is_over s) s)
          nodes xs (handed-IsList (is_over s) s nodes xs sound.list) more node_given out
          (sound.only node out.1) in
      let s' = record s3 { blocks = (ptr, write_piggyback abi p size unwritten) ∷ s.blocks } in
      (
        p,
        s',
        pushed.nodes,
        get_memory-run fuel node p s s3 (is_over s) refl given (room_word abi small room)
            pushed.blocks runs,
        record {
          list = record {
            linked = pushed.list.linked;
            apart = pushed.list.apart;
            distinct = pushed.list.distinct;
            held = pushed.list.held;
            unlocked = pushed.list.unlocked;
          };
          sorted = push-IsSorted abi file line size (is_over s) xs word sound.sorted;
          only = λ q away.
              let (before, ne) = pushed.kept q away in
              ap (λ (f : ℕ → Option AllocRecord). f q) pushed.records
              ∙ update_other s.records p (grow abi file line size (is_over s) (s.records p)) q ne
              ∙ sound.only q before;
          balanced =
              IsBalanced-alloc abi file line size (is_over s) s s' p ptr unwritten (omega arith)
                sound.balanced pushed.records refl;
        },
        refl,
        pushed.records,
        pushed.more,
      )
    where
      room_word :
          (abi : Abi)
          → piggyback_size + size < 2 ^ size_bits abi
          → sizeof_piggyback abi ≤ piggyback_size + size
          → sizeof_piggyback abi ≤ add_word (size_bits abi) piggyback_size size
      room_word i386 small room = ground arith
      room_word x86_64 small room = ground arith
