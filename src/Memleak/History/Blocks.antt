-- ===== src/Memleak/History/Blocks.antt =====
-- memleak/memleak.cpp, the blocks that an application can hold on i386.
use tripping_robot.Prelude.{ℕ, ◌+◌, ◌%◌, ◌^◌, ◌<◌, ◌≡◌, ◌≢◌, subst, arith}
use tripping_robot.Prelude.{some, List, [], ◌∷◌, ◌==◌, inl, inr, Bool-cases}
use tripping_robot.Memleak.{piggyback_size, Piggyback, Block}
use tripping_robot.Memleak.Alloc.{find_block, drop_block}

-- A block is aligned and below the end of the memory, and a size that is in it is not 0.
abbrev pub IsGiven : ℕ → Block → Type 0
IsGiven a b =
    (a ≢ 0)
    × (a % 8 ≡ 0)
    × (a + piggyback_size < 2 ^ 32)
    × ((h : Piggyback) → b.header ≡ some h → (0 < h.low) × (h.low < 2 ^ 32))

abbrev pub AllGiven : List (ℕ × Block) → Type 0
AllGiven [] = Unit {0}
AllGiven ((a, b) ∷ bs) = IsGiven a b × AllGiven bs

pub find_block-IsGiven :
    (a : ℕ) (bs : List (ℕ × Block)) (b : Block)
    → AllGiven bs
    → find_block a bs ≡ some b
    → IsGiven a b
unfolding find_block
find_block-IsGiven a [] b all e = absurd (cc e)
find_block-IsGiven a ((q, c) ∷ bs) b all e = elim (Bool-cases (a == q)) [
  | inl here ↦
      let same : c ≡ b = ground arith in
      let place : q ≡ a = ground arith in
      subst (λ x. IsGiven x b) place (subst (IsGiven q) same all.0)
  | inr other ↦
      let rest : find_block a bs ≡ some b = ground arith in find_block-IsGiven a bs b all.1 rest
]

pub drop_block-AllGiven : (a : ℕ) (bs : List (ℕ × Block)) → AllGiven bs → AllGiven (drop_block a bs)
unfolding drop_block
drop_block-AllGiven a [] all = tt
drop_block-AllGiven a ((q, c) ∷ bs) all = elim (Bool-cases (a == q)) [
  | inl here ↦ rw here all.1
  | inr other ↦ rw other (all.0, drop_block-AllGiven a bs all.1)
]
