-- ===== src/Memleak/History/Steps.antt =====
-- memleak/memleak.cpp, that each call keeps the bookkeeping in order.
use tripping_robot.Prelude.{ℕ, suc, ◌+◌, ◌^◌, ◌≤◌, ◌<◌, ◌≡◌, refl, sym, ap, subst, ◌∙◌, arith}
use tripping_robot.Prelude.{Bool, true, false, Option, none, some, List, [], ◌∷◌, ◌==◌, length}
use tripping_robot.Memleak.{
  i386, piggyback_size, Text, AllocRecord, Piggyback, Block, Memleak, alloc_list, initial, Outcome,
  ok, update,
}
use tripping_robot.Memleak.Sites.{ss_memleak_point_register}
use tripping_robot.Memleak.Sites.Sorted.{push}
use tripping_robot.Memleak.Sites.Linked.{NotIn}
use tripping_robot.Memleak.Sites.Push.{Held}
use tripping_robot.Memleak.Alloc.{find_block, drop_block, read_size, ss_malloc, ss_free}
use tripping_robot.Memleak.Alloc.Balance.{count_at, total_at}
use tripping_robot.Memleak.Alloc.Sound.{IsSound, get_memory-IsSound}
use tripping_robot.Memleak.Alloc.Free.{free_memory-IsSound}
use tripping_robot.Memleak.Alloc.Foreign.{free_memory-foreign}
use tripping_robot.Memleak.Alloc.Plain.{
  given_plain, allocate-run, given_plain-IsSound, point_register-IsSound,
}
use tripping_robot.Memleak.Report.{memleak_report}
use tripping_robot.Memleak.Report.Sound.{memleak_report-IsSound}
use tripping_robot.Memleak.Alloc.{write_piggyback}
use tripping_robot.Memleak.History.Blocks.{AllGiven, find_block-IsGiven, drop_block-AllGiven}
use tripping_robot.Memleak.History.{IsNewBlock, IsNewNode}

ok-state : {A : Type 0} (m : Outcome A) (a b : A) (s t : Memleak) → m ≡ ok a s → m ≡ ok b t → s ≡ t
ok-state m a b s t e e' = ap state_of (sym e ∙ e')
  where
    state_of : {A : Type 0} → Outcome A → Memleak
    state_of (ok _ u) = u
    state_of _ = s

-- A node of the list has a record.
Held-NotIn :
    (f : ℕ → Option AllocRecord) (p : ℕ) (ps : List ℕ) (xs : List AllocRecord)
    → Held f ps xs
    → f p ≡ none
    → NotIn p ps
Held-NotIn f p [] [] h e = tt
Held-NotIn f p [] (x ∷ xs) h e = elim h [ ]
Held-NotIn f p (q ∷ ps) [] h e = elim h [ ]
Held-NotIn f p (q ∷ ps) (x ∷ xs) h e =
    (λ same. clash (sym e ∙ ap f same ∙ h.0), Held-NotIn f p ps xs h.1 e)
  where
    clash : none ≡ some x → ⊥
    clash e = cc

-- The bookkeeping is in order, with at most n records.
abbrev pub InOrder : ℕ → Memleak → Type 0
InOrder n s =
    (nodes : List ℕ) × (xs : List AllocRecord) × IsSound i386 s nodes xs
    × (length nodes ≤ n)
    × AllGiven s.blocks

-- Nothing is allocated before the program starts.
pub start-InOrder :
    (tracking max_tolerate : ℕ)
    → InOrder 0 (record initial { tracking = tracking; max_tolerate = max_tolerate })
unfolding initial count_at total_at update
start-InOrder tracking max_tolerate = (
  [],
  [],
  record {
    list = record { linked = (refl, refl); apart = tt; distinct = tt; held = tt; unlocked = refl };
    sorted = tt;
    only = λ _ _. refl;
    balanced = λ _. (refl, refl);
  },
  omega arith,
  tt,
)

pub assigns-InOrder :
    (n : ℕ) (s : Memleak) (tracking max_tolerate : ℕ)
    → InOrder n s
    → InOrder (suc n) (record s { tracking = tracking; max_tolerate = max_tolerate })
assigns-InOrder n s tracking max_tolerate (nodes, xs, sound, few, all) = (
  nodes,
  xs,
  record {
    list = record {
      linked = sound.list.linked;
      apart = sound.list.apart;
      distinct = sound.list.distinct;
      held = sound.list.held;
      unlocked = sound.list.unlocked;
    };
    sorted = sound.sorted;
    only = sound.only;
    balanced = sound.balanced;
  },
  omega arith,
  all,
)

pub new_node-NotIn :
    (s : Memleak) (node : ℕ) (nodes : List ℕ) (xs : List AllocRecord)
    → IsSound i386 s nodes xs
    → IsNewNode s node
    → NotIn node (alloc_list ∷ nodes)
new_node-NotIn s node nodes xs sound new =
    (new.1, Held-NotIn s.records node nodes xs sound.list.held new.2)

pub allocates-InOrder :
    (n : ℕ) (s s' : Memleak) (node ptr size q : ℕ) (file : Text) (line : ℕ)
    → InOrder n s
    → IsNewBlock ptr size
    → IsNewNode s node
    → 0 < size
    → line < 2 ^ 32
    → (tracked : Bool) → (s.tracking == 0) ≡ tracked
    → ss_malloc (suc n) i386 node ptr size file line s ≡ ok q s'
    → InOrder (suc n) s'
unfolding ss_malloc write_piggyback
allocates-InOrder n s s' node ptr size q file line (nodes, xs, sound, few, all) block new pos word
      true off runs =
    let same : given_plain ptr size s ≡ s' =
      ok-state (ss_malloc (suc n) i386 node ptr size file line s) ptr q (given_plain ptr size s) s'
        (simp (off, allocate-run ptr size s block.0)) runs in
    subst (InOrder (suc n)) same (
      nodes,
      xs,
      given_plain-IsSound i386 ptr size s nodes xs sound,
      omega arith,
      ((block.0, block.1, omega (arith, block.2), λ h e. absurd (cc e)), all),
    )
allocates-InOrder n s s' node ptr size q file line (nodes, xs, sound, few, all) block new pos word
      false on runs =
    let (p, t, nodes', gives, sound', blocks, _, more) =
      get_memory-IsSound i386 size file line ptr (suc n) node s nodes xs sound block.0
        (omega (arith, block.2)) (omega arith) word new.0 (new_node-NotIn s node nodes xs sound new)
        (omega arith) in
    let same : t ≡ s' =
      ok-state (ss_malloc (suc n) i386 node ptr size file line s) (ptr + piggyback_size) q t s'
        (simp (on, gives)) runs in
    subst (InOrder (suc n)) same (
      nodes',
      _,
      sound',
      omega arith,
      subst AllGiven (sym blocks) ((block.0, block.1, omega (arith, block.2), sized p), all),
    )
  where
    low_of : Option Piggyback → ℕ
    low_of none = 0
    low_of (some h) = h.low

    sized :
        (p : ℕ) (h : Piggyback)
        → some (record { site = p; low = size }) ≡ some h
        → (0 < h.low) × (h.low < 2 ^ 32)
    sized p h e = let same : size ≡ h.low = ap low_of e in (omega arith, omega (arith, block.2))

pub registers-InOrder :
    (n : ℕ) (s s' : Memleak) (node q : ℕ) (file : Text) (line : ℕ)
    → InOrder n s
    → IsNewNode s node
    → line < 2 ^ 32
    → ss_memleak_point_register (suc n) i386 node file line s ≡ ok q s'
    → InOrder (suc n) s'
registers-InOrder n s s' node q file line (nodes, xs, sound, few, all) new word runs =
    let (p, t, nodes', gives, sound', blocks, more) =
      point_register-IsSound i386 (suc n) node file line s nodes xs sound word new.0
        (new_node-NotIn s node nodes xs sound new) (omega arith) in
    let same : t ≡ s' =
      ok-state (ss_memleak_point_register (suc n) i386 node file line s) p q t s' gives runs in
    subst (InOrder (suc n)) same
      (nodes', push i386 file line 0 false xs, sound', omega arith, subst AllGiven (sym blocks) all)

pub gives_back-InOrder :
    (n : ℕ) (s s' : Memleak) (a : ℕ) (b : Block) (h : Piggyback)
    → InOrder n s
    → find_block a s.blocks ≡ some b
    → b.header ≡ some h
    → ss_free i386 (a + piggyback_size) s ≡ ok tt s'
    → InOrder (suc n) s'
unfolding ss_free read_size
gives_back-InOrder n s s' a b h (nodes, xs, sound, few, all) there header runs =
    let (given, aligned, below, sizes) = find_block-IsGiven a s.blocks b all there in
    let (pos, small) = sizes h header in
    let (r, t, ys, gives, sound', blocks, _, _) =
      free_memory-IsSound i386 s nodes xs a b h sound there header pos small given aligned below in
    let same : t ≡ s' =
      ok-state (ss_free i386 (a + piggyback_size) s) tt tt t s' (simp gives) runs in
    subst (InOrder (suc n)) same (
      nodes,
      ys,
      sound',
      omega arith,
      subst AllGiven (sym blocks) (drop_block-AllGiven a s.blocks all),
    )

pub gives_back_plain-InOrder :
    (n : ℕ) (s s' : Memleak) (p : ℕ) (b : Block)
    → InOrder n s
    → find_block p s.blocks ≡ some b
    → b.header ≡ none
    → ss_free i386 p s ≡ ok tt s'
    → InOrder (suc n) s'
unfolding ss_free
gives_back_plain-InOrder n s s' p b (nodes, xs, sound, few, all) there header runs =
    let (given, aligned, below, _) = find_block-IsGiven p s.blocks b all there in
    let (_, gives, sound') =
      free_memory-foreign i386 s nodes xs p b sound there header given aligned (omega arith) in
    let same : record s { blocks = drop_block p s.blocks } ≡ s' =
      ok-state (ss_free i386 p s) tt tt (record s { blocks = drop_block p s.blocks }) s'
        (simp gives) runs in
    subst (InOrder (suc n)) same
      (nodes, xs, sound', omega arith, drop_block-AllGiven p s.blocks all)

pub reports-InOrder :
    (n : ℕ) (s s' : Memleak) (flags : ℕ)
    → InOrder n s
    → memleak_report (suc n) flags s ≡ ok tt s'
    → InOrder (suc n) s'
reports-InOrder n s s' flags (nodes, xs, sound, few, all) runs =
    let (t, gives, sound', _, blocks) =
      memleak_report-IsSound i386 (suc n) flags s nodes xs sound (omega arith) in
    let same : t ≡ s' = ok-state (memleak_report (suc n) flags s) tt tt t s' gives runs in
    subst (InOrder (suc n)) same (nodes, _, sound', omega arith, subst AllGiven (sym blocks) all)
