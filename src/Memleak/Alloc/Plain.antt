-- ===== src/Memleak/Alloc/Plain.antt =====
-- memleak/memleak.cpp, what changes no count: a block that is given out without tracking, and a line
-- of code that is registered.
use native.Mathlib.Nat.{zero-add}
use tripping_robot.Prelude.{ℕ, suc, ◌+◌, ◌^◌, ◌≤◌, ◌<◌, ◌≡◌, ◌≢◌, refl, sym, ap, subst, ◌∙◌, arith}
use tripping_robot.Prelude.{false, Option, none, some, List, ◌∷◌, length, ℕ_discrete}
use tripping_robot.Memleak.{
  Abi, i386, x86_64, size_bits, Text, AllocRecord, Memleak, alloc_list, ok, update,
}
use tripping_robot.Memleak.Sites.{ss_memleak_point_register}
use tripping_robot.Memleak.Sites.Sorted.{grow, push}
use tripping_robot.Memleak.Sites.Linked.{NotIn, update_self, update_other}
use tripping_robot.Memleak.Sites.Refine.{list_push_record-Pushed}
use tripping_robot.Memleak.Sites.Lookup.{push-IsSorted}
use tripping_robot.Memleak.Alloc.{allocate}
use tripping_robot.Memleak.Alloc.Balance.{
  count_of, count_at, total_at, size_at, Agrees, Agrees-of, Agrees-grow,
}
use tripping_robot.Memleak.Alloc.Sound.{IsSound, not_null}
use tripping_robot.Memleak.Alloc.Foreign.{size_at-foreign}

-- The state after `malloc` gave a block that nothing is written to.
abbrev pub given_plain : ℕ → ℕ → Memleak → Memleak
given_plain ptr room s = record s {
  blocks = (ptr, record { room = room; header = none; first = 0 }) ∷ s.blocks;
}

pub allocate-run :
    (ptr room : ℕ) (s : Memleak) → ptr ≢ 0 → allocate ptr room s ≡ ok tt (given_plain ptr room s)
unfolding allocate
allocate-run ptr room s given = simp (not_null ptr given)

pub given_plain-IsSound :
    (abi : Abi) (ptr room : ℕ) (s : Memleak) (nodes : List ℕ) (xs : List AllocRecord)
    → IsSound abi s nodes xs
    → IsSound abi (given_plain ptr room s) nodes xs
unfolding count_at total_at
given_plain-IsSound abi ptr room s nodes xs sound = record {
  list = record {
    linked = sound.list.linked;
    apart = sound.list.apart;
    distinct = sound.list.distinct;
    held = sound.list.held;
    unlocked = sound.list.unlocked;
  };
  sorted = sound.sorted;
  only = sound.only;
  balanced = λ q.
      let none_here : size_at abi q (record { room = room; header = none; first = 0 }) ≡ 0 =
        size_at-foreign abi q (record { room = room; header = none; first = 0 }) refl in
      let c = count_at abi q s.blocks in
      let t = total_at abi q s.blocks in
      Agrees-of abi (s.records q) (s.records q) c (count_at abi q (given_plain ptr room s).blocks) t
        (total_at abi q (given_plain ptr room s).blocks) refl
        (sym (ap (λ x. count_of x + c) none_here ∙ zero-add c))
        (sym (ap (λ x. x + t) none_here ∙ zero-add t)) (sound.balanced q);
}

-- In a state where the bookkeeping is in order, `ss_memleak_point_register` with fuel for one round
-- more than there are records gives the node of a record of that file and line, and adds one with a
-- count of 0 if there was none; the blocks stay, and the bookkeeping is in order again. The allocation
-- of a node does not fail.
pub point_register-IsSound :
    (abi : Abi) (fuel node : ℕ) (file : Text) (line : ℕ) (s : Memleak) (nodes : List ℕ)
    (xs : List AllocRecord)
    → IsSound abi s nodes xs
    → line < 2 ^ 32
    → node ≢ 0
    → NotIn node (alloc_list ∷ nodes)
    → length nodes < fuel
    → (p : ℕ) × (s' : Memleak) × (nodes' : List ℕ) × (ss_memleak_point_register fuel abi node file
          line s
        ≡ ok p s')
      × IsSound abi s' nodes' (push abi file line 0 false xs)
      × (s'.blocks ≡ s.blocks)
      × (length nodes' ≤ suc (length nodes))
unfolding ss_memleak_point_register
point_register-IsSound abi fuel node file line s nodes xs sound word given out more =
    let (p, s', runs, pushed) =
      list_push_record-Pushed fuel abi node file line 0 false s nodes xs sound.list more given out
        (sound.only node out.1) in
    let r = grow abi file line 0 false (s.records p) in
    (
      p,
      s',
      pushed.nodes,
      runs,
      record {
        list = pushed.list;
        sorted = push-IsSorted abi file line 0 false xs word sound.sorted;
        only = λ q away.
            let (before, ne) = pushed.kept q away in
            ap (λ (f : ℕ → Option AllocRecord). f q) pushed.records
            ∙ update_other s.records p r q ne
            ∙ sound.only q before;
        balanced = λ q.
            let c = count_at abi q s.blocks in
            let t = total_at abi q s.blocks in
            Agrees-of abi (update s.records p r q) (s'.records q) c (count_at abi q s'.blocks) t
              (total_at abi q s'.blocks)
              (sym (ap (λ (f : ℕ → Option AllocRecord). f q) pushed.records))
              (ap (count_at abi q) (sym pushed.blocks)) (ap (total_at abi q) (sym pushed.blocks))
              (elim (ℕ_discrete q p) [
                | yes here ↦
                    Agrees-of abi (some r) (update s.records p r q) (count_of 0 + c) c (0 + t) t
                      (sym (ap (update s.records p r) here ∙ update_self s.records p r))
                      (zero-add c) (zero-add t)
                      (Agrees-grow abi file line 0 false (s.records p) c t (bits abi)
                        (subst (λ x. Agrees abi (s.records x) c t) here (sound.balanced q)))
                | no other ↦
                    Agrees-of abi (s.records q) (update s.records p r q) c c t t
                      (sym (update_other s.records p r q other)) refl refl (sound.balanced q)
              ]);
      },
      pushed.blocks,
      pushed.more,
    )
  where
    bits : (abi : Abi) → 0 < 2 ^ size_bits abi
    bits i386 = omega arith
    bits x86_64 = omega arith
