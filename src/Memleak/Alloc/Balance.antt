-- ===== src/Memleak/Alloc/Balance.antt =====
-- memleak/memleak.cpp, the counts against the blocks that the application holds.
use native.Mathlib.Nat.{zero-add}
use tripping_robot.Prelude.{ℕ, ◌+◌, ◌%◌, ◌^◌, ◌<◌, ◌≡◌, ◌≢◌, refl, sym, ap, subst, ◌∙◌, arith}
use tripping_robot.Prelude.{
  Bool, true, false, Option, none, some, List, [], ◌∷◌, ◌==◌, ltb, if◌then◌else◌, ℕ_discrete,
  Bool-cases, inl, inr,
}
use tripping_robot.Memleak.{
  Abi, i386, x86_64, size_bits, Text, AllocRecord, Piggyback, Block, Memleak, update,
}
use tripping_robot.Memleak.Sites.{bump, new_record}
use tripping_robot.Memleak.Sites.Sorted.{grow}
use tripping_robot.Memleak.Sites.Linked.{update_self, update_other}
use tripping_robot.Memleak.Alloc.{find_block, drop_block, write_piggyback, read_size, uncount}

-- What one block adds to the count and to the bytes of the record at p. A block of no bytes is not
-- counted.
unfoldable pub size_at : Abi → ℕ → Block → ℕ
size_at abi p b = elim b.header [ none ↦ 0 | some h ↦ if h.site == p then read_size abi h b else 0 ]

abbrev pub count_of : ℕ → ℕ
count_of size = if ltb 0 size then 1 else 0

unfoldable pub count_at : Abi → ℕ → List (ℕ × Block) → ℕ
count_at abi p [] = 0
count_at abi p ((_, b) ∷ bs) = count_of (size_at abi p b) + count_at abi p bs

unfoldable pub total_at : Abi → ℕ → List (ℕ × Block) → ℕ
total_at abi p [] = 0
total_at abi p ((_, b) ∷ bs) = size_at abi p b + total_at abi p bs

-- The fields `cnt` and `mem_total` of a record hold these numbers, as far as their types reach; where
-- no record is, no block points.
abbrev pub Agrees : Abi → Option AllocRecord → ℕ → ℕ → Type 0
Agrees abi none c t = (c ≡ 0) × (t ≡ 0)
Agrees abi (some r) c t = (r.cnt ≡ c % 2 ^ 32) × (r.mem_total ≡ t % 2 ^ size_bits abi)

abbrev pub IsBalanced : Abi → Memleak → Type 0
IsBalanced abi s =
    (p : ℕ) → Agrees abi (s.records p) (count_at abi p s.blocks) (total_at abi p s.blocks)

pub Agrees-grow :
    (abi : Abi) (file : Text) (line size : ℕ) (overalloc : Bool) (o : Option AllocRecord) (c t : ℕ)
    → size < 2 ^ size_bits abi
    → Agrees abi o c t
    → Agrees abi (some (grow abi file line size overalloc o)) (count_of size + c) (size + t)
unfolding grow new_record bump
Agrees-grow i386 file line size overalloc none c t small h = ground arith
Agrees-grow x86_64 file line size overalloc none c t small h = ground arith
Agrees-grow i386 file line size overalloc (some r) c t small h = ground arith
Agrees-grow x86_64 file line size overalloc (some r) c t small h = ground arith

Agrees-uncount :
    (abi : Abi) (size : ℕ) (r : AllocRecord) (c t : ℕ)
    → 0 < size
    → Agrees abi (some r) (1 + c) (size + t)
    → size < 2 ^ size_bits abi
    → Agrees abi (some (uncount abi size r)) c t
unfolding uncount
Agrees-uncount i386 size r c t pos h small = ground arith
Agrees-uncount x86_64 size r c t pos h small = ground arith

size_at-write :
    (abi : Abi) (p site size : ℕ) (b : Block)
    → size_at abi p (write_piggyback abi site size b) ≡ (if site == p then size else 0)
unfolding size_at write_piggyback read_size
size_at-write i386 p site size b = refl
size_at-write x86_64 p site size b = ground arith

-- A block that is given out and counted at its record.
pub IsBalanced-alloc :
    (abi : Abi) (file : Text) (line size : ℕ) (overalloc : Bool) (s s' : Memleak) (p ptr : ℕ)
    (b : Block)
    → size < 2 ^ size_bits abi
    → IsBalanced abi s
    → s'.records ≡ update s.records p (grow abi file line size overalloc (s.records p))
    → s'.blocks ≡ (ptr, write_piggyback abi p size b) ∷ s.blocks
    → IsBalanced abi s'
unfolding count_at total_at
IsBalanced-alloc abi file line size overalloc s s' p ptr b small h records blocks q =
    rw (records, blocks)
      (elim (ℕ_discrete q p) [
        | yes here ↦
            let size_here : size_at abi q (write_piggyback abi p size b) ≡ size =
              size_at-write abi q p size b ∙ ap (λ (t : Bool). if t then size else 0) (same here) in
            rw
              (
                size_here,
                ap (update s.records p (grow abi file line size overalloc (s.records p))) here,
                update_self s.records p (grow abi file line size overalloc (s.records p)),
              )
              (Agrees-grow abi file line size overalloc (s.records p) (count_at abi q s.blocks)
                (total_at abi q s.blocks) small
                (subst
                  (λ t.
                    Agrees abi (s.records t) (count_at abi q s.blocks) (total_at abi q s.blocks))
                  here (h q)))
        | no other ↦
            let size_other : size_at abi q (write_piggyback abi p size b) ≡ 0 =
              size_at-write abi q p size b
              ∙ ap (λ (t : Bool). if t then size else 0) (differ other) in
            rw
              (
                size_other,
                update_other s.records p (grow abi file line size overalloc (s.records p)) q other,
                zero-add (count_at abi q s.blocks),
                zero-add (total_at abi q s.blocks),
              )
              (h q)
      ])
  where
    same : q ≡ p → (p == q) ≡ true
    same e = ground arith

    differ : q ≢ p → (p == q) ≡ false
    differ e = ground arith

pub count_at-drop :
    (abi : Abi) (p a : ℕ) (bs : List (ℕ × Block)) (b : Block)
    → find_block a bs ≡ some b
    → (count_at abi p bs ≡ count_of (size_at abi p b) + count_at abi p (drop_block a bs))
      × (total_at abi p bs ≡ size_at abi p b + total_at abi p (drop_block a bs))
unfolding count_at total_at find_block drop_block
count_at-drop abi p a [] b h = cc
count_at-drop abi p a ((q, c) ∷ bs) b h = elim (Bool-cases (a == q)) [
  | inl here ↦ let same : c ≡ b = ground arith in rw (here, same) (refl, refl)
  | inr other ↦
      let rest : find_block a bs ≡ some b = ground arith in
      let (counts, totals) = count_at-drop abi p a bs b rest in rw other (omega arith, omega arith)
]

pub size_at-header :
    (abi : Abi) (q : ℕ) (b : Block) (h : Piggyback)
    → b.header ≡ some h
    → size_at abi q b ≡ (if h.site == q then read_size abi h b else 0)
unfolding size_at
size_at-header abi q b h e =
    ap
      (λ (o : Option Piggyback). elim o [
        | none ↦ 0
        | some x ↦ if x.site == q then read_size abi x b else 0
      ])
      e

pub Agrees-of :
    (abi : Abi) (o o' : Option AllocRecord) (c c' t t' : ℕ)
    → o ≡ o'
    → c ≡ c'
    → t ≡ t'
    → Agrees abi o c t
    → Agrees abi o' c' t'
Agrees-of abi o o' c c' t t' eo ec et h =
    subst (λ x. Agrees abi x c' t') eo
      (subst (λ n. Agrees abi o n t') ec (subst (λ n. Agrees abi o c n) et h))

-- A block that is given back and uncounted at its record.
pub IsBalanced-free :
    (abi : Abi) (s s' : Memleak) (a : ℕ) (b : Block) (h : Piggyback) (r : AllocRecord)
    → IsBalanced abi s
    → find_block a s.blocks ≡ some b
    → b.header ≡ some h
    → 0 < read_size abi h b
    → read_size abi h b < 2 ^ size_bits abi
    → s.records h.site ≡ some r
    → s'.records ≡ update s.records h.site (uncount abi (read_size abi h b) r)
    → s'.blocks ≡ drop_block a s.blocks
    → IsBalanced abi s'
IsBalanced-free abi s s' a b h r balanced there header pos small site records blocks q =
    let (counts, totals) = count_at-drop abi q a s.blocks b there in
    let c = count_at abi q (drop_block a s.blocks) in
    let t = total_at abi q (drop_block a s.blocks) in
    let size = read_size abi h b in
    let held = size_at-header abi q b h header in
    rw (records, blocks)
      (elim (ℕ_discrete q h.site) [
        | yes here ↦
            let size_here : size_at abi q b ≡ size =
              held ∙ ap (λ (x : Bool). if x then size else 0) (same here) in
            Agrees-of abi (some (uncount abi size r))
              (update s.records h.site (uncount abi size r) q) c c t t
              (sym (
                ap (update s.records h.site (uncount abi size r)) here
                ∙ update_self s.records h.site (uncount abi size r)))
              refl refl
              (Agrees-uncount abi size r c t pos
                (Agrees-of abi (s.records q) (some r) (count_at abi q s.blocks) (1 + c)
                  (total_at abi q s.blocks) (size + t) (ap s.records here ∙ site)
                  (counts ∙ ap (λ x. count_of x + c) size_here ∙ ap (λ x. x + c) (one pos))
                  (totals ∙ ap (λ x. x + t) size_here) (balanced q))
                small)
        | no other ↦
            let size_other : size_at abi q b ≡ 0 =
              held ∙ ap (λ (x : Bool). if x then size else 0) (differ other) in
            Agrees-of abi (s.records q) (update s.records h.site (uncount abi size r) q)
              (count_at abi q s.blocks) c (total_at abi q s.blocks) t
              (sym (update_other s.records h.site (uncount abi size r) q other))
              (counts ∙ ap (λ x. count_of x + c) size_other ∙ zero-add c)
              (totals ∙ ap (λ x. x + t) size_other ∙ zero-add t) (balanced q)
      ])
  where
    same : q ≡ h.site → (h.site == q) ≡ true
    same e = ground arith

    differ : q ≢ h.site → (h.site == q) ≡ false
    differ e = ground arith

    one : 0 < read_size abi h b → count_of (read_size abi h b) ≡ 1
    one lt = ground arith
