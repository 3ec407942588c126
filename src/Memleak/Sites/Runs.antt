-- ===== src/Memleak/Sites/Runs.antt =====
-- memleak/memleak.cpp, the two ways through `list_push_record`, by what its walk finds.
use tripping_robot.Prelude.{ℕ, ◌≡◌, ◌≢◌, ◌∙◌, arith}
use tripping_robot.Prelude.{Bool, true, false, some, ◌==◌}
use tripping_robot.Memleak.{
  Abi, Text, AllocRecord, Memleak, alloc_list, ok, update, lock, unlock, load_next, load_record,
  store_record,
}
use tripping_robot.Memleak.Sites.{hit, before, walk, bump, new_record, create, list_push_record}
use tripping_robot.Memleak.Sites.Linked.{
  update_self, update_other, added_next, added_prev, list_add_tail-ok,
}

-- The state with the record at p changed.
abbrev pub counted : Memleak → ℕ → AllocRecord → Memleak
counted s p r = record s { records = update s.records p r; rec_lock = false }

-- The state with a node for the record r put between a and q.
abbrev pub added : Memleak → ℕ → ℕ → ℕ → AllocRecord → Memleak
added s node a q r = record s {
  next = added_next (update s.next node 0) (update s.prev node 0) node a q;
  prev = added_prev (update s.next node 0) (update s.prev node 0) node a q;
  records = update s.records node r;
  rec_lock = false;
}

module _ (fuel : ℕ) (abi : Abi) (node : ℕ) (file : Text) (line size : ℕ) (overalloc : Bool)
    (s : Memleak) (unlocked : s.rec_lock ≡ false) (first : ℕ)
    (starts : s.next alloc_list ≡ some first) where
  pub run_hit :
      (p : ℕ) (r : AllocRecord)
      → walk file line fuel first (record s { rec_lock = true })
        ≡ ok (hit p) (record s { rec_lock = true })
      → s.records p ≡ some r
      → list_push_record fuel abi node file line size overalloc s
        ≡ ok p (counted s p (bump abi size overalloc r))
  unfolding list_push_record lock unlock load_next load_record store_record
  run_hit p r walks there = simp (unlocked, starts, walks, there)

  pub run_before :
      (q a b : ℕ)
      → walk file line fuel first (record s { rec_lock = true })
        ≡ ok (before q) (record s { rec_lock = true })
      → node ≢ 0
      → s.prev q ≡ some a
      → s.next a ≡ some b
      → a ≢ node
      → q ≢ node
      → list_push_record fuel abi node file line size overalloc s
        ≡ ok node (added s node a q (new_record file line size overalloc))
  unfolding list_push_record lock unlock load_next create
  run_before q a b walks given pq na an qn = simp (
    unlocked,
    starts,
    walks,
    not_null given,
    list_add_tail-ok
        (record s {
          next = update s.next node 0;
          prev = update s.prev node 0;
          records = update s.records node (new_record file line size overalloc);
          rec_lock = true;
        })
        node q a b 0 0 (update_other s.prev node 0 q qn ∙ pq) (update_other s.next node 0 a an ∙ na)
        (update_self s.next node 0) (update_self s.prev node 0) an qn,
  )
    where
      not_null : node ≢ 0 → (node == 0) ≡ false
      not_null ne = ground arith
