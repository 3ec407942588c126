-- ===== src/Memleak/Sites/Refine.antt =====
-- memleak/memleak.cpp, `list_push_record` as a whole.
use tripping_robot.Prelude.{ℕ, suc, ◌≤◌, ◌<◌, ◌≡◌, ◌≢◌, refl, sym, ap, subst, ◌∙◌, arith}
use tripping_robot.Prelude.{Bool, true, none, some, List, [], ◌∷◌, ◌++◌, length}
use tripping_robot.Memleak.{Abi, Text, AllocRecord, Memleak, alloc_list, ok, update}
use tripping_robot.Memleak.Sites.{Found, hit, before, walk, bump, new_record, list_push_record}
use tripping_robot.Memleak.Sites.Linked.{
  Linked, NotIn, Distinct, first_or, last_or, Linked-insert, Linked-middle, NotIn-last_or,
  NotIn-first_or, Linked-other,
}
use tripping_robot.Memleak.Sites.Sorted.{grow, push}
use tripping_robot.Memleak.Sites.Push.{
  Held, IsList, End, same, past, walk-End, hit_lem, before_lem, NotIn-insert, Distinct-insert,
}
use tripping_robot.Memleak.Sites.Runs.{counted, added, run_hit, run_before}

-- What a call of `list_push_record` has done: the list in memory is what `push` makes of it, the
-- record at the node that it gives is the one before, if any, counted up, and nothing else changed;
-- the list has the nodes that it had, and the one given.
pub record Pushed (abi : Abi) (file : Text) (line size : ℕ) (overalloc : Bool) (s : Memleak)
    (ps : List ℕ) (xs : List AllocRecord) (p : ℕ) (s' : Memleak) : Type 0 where
  pub nodes : List ℕ
  pub more : length nodes ≤ suc (length ps)
  pub kept : (q : ℕ) → NotIn q nodes → NotIn q ps × (q ≢ p)
  pub list : IsList s' nodes (push abi file line size overalloc xs)
  pub records : s'.records ≡ update s.records p (grow abi file line size overalloc (s.records p))
  pub blocks : s'.blocks ≡ s.blocks
  pub tracking : s'.tracking ≡ s.tracking
  pub max_tolerate : s'.max_tolerate ≡ s.max_tolerate
  pub log : s'.log ≡ s.log

module _ (abi : Abi) (file : Text) (line size : ℕ) (overalloc : Bool) (s : Memleak) (ps : List ℕ)
    (xs : List AllocRecord) (list : IsList s ps xs) where
  hit_NotIn :
      (p q : ℕ) (ps : List ℕ) (xs : List AllocRecord)
      → End file line ps xs (hit p)
      → NotIn q ps
      → q ≢ p
  hit_NotIn p q _ _ (same _ r ps rs e) out = out.0
  hit_NotIn p q _ _ (past t r ps rs _ e rest) out = hit_NotIn p q ps rs rest out.1

  length-middle : (node : ℕ) (l m : List ℕ) → length (l ++ node ∷ m) ≡ suc (length (l ++ m))
  length-middle node [] m = refl
  length-middle node (p ∷ l) m = ap suc (length-middle node l m)

  NotIn-remove :
      (q node : ℕ) (l m : List ℕ) → NotIn q (l ++ node ∷ m) → NotIn q (l ++ m) × (q ≢ node)
  NotIn-remove q node [] m out = (out.1, out.0)
  NotIn-remove q node (p ∷ l) m out =
      let (rest, ne) = NotIn-remove q node l m out.1 in ((out.0, rest), ne)

  Pushed-hit :
      (p : ℕ)
      → (e : End file line ps xs (hit p))
      → let (r, _, _, _) =
          hit_lem abi file line size overalloc s.records p ps xs e list.distinct list.held in
        Pushed abi file line size overalloc s ps xs p (counted s p (bump abi size overalloc r))
  unfolding grow
  Pushed-hit p e =
      let (r, there, _, held) =
        hit_lem abi file line size overalloc s.records p ps xs e list.distinct list.held in
      record {
        nodes = ps;
        more = omega arith;
        kept = λ q out. (out, hit_NotIn p q ps xs e out);
        list = record {
          linked = list.linked;
          apart = list.apart;
          distinct = list.distinct;
          held = held;
          unlocked = refl;
        };
        records = ap (λ o. update s.records p (grow abi file line size overalloc o)) (sym there);
        blocks = refl;
        tracking = refl;
        max_tolerate = refl;
        log = refl;
      }

  Pushed-before :
      (node : ℕ) (l m : List ℕ)
      → ps ≡ l ++ m
      → NotIn node (alloc_list ∷ ps)
      → s.records node ≡ none
      → Held
          (update s.records node (new_record file line size overalloc))
          (l ++ node ∷ m)
          (push abi file line size overalloc xs)
      → Pushed abi file line size overalloc s ps xs node (
          added s node
            (last_or alloc_list l)
            (first_or m alloc_list)
            (new_record file line size overalloc))
  unfolding grow
  Pushed-before node l m split out free held =
      let apart : NotIn alloc_list (l ++ m) = subst (NotIn alloc_list) split list.apart in
      let out' : NotIn node (alloc_list ∷ l ++ m) =
        subst (λ t. NotIn node (alloc_list ∷ t)) split out in
      let distinct : Distinct (l ++ m) = subst Distinct split list.distinct in
      record {
        nodes = l ++ node ∷ m;
        more = rw (split, length-middle node l m) (omega arith);
        kept = λ q away.
            let (rest, ne) = NotIn-remove q node l m away in (subst (NotIn q) (sym split) rest, ne);
        list = record {
          linked =
              Linked-insert (update s.next node 0) (update s.prev node 0) node alloc_list l m
                alloc_list apart distinct apart out' out'.0
                (Linked-other s.next s.prev node 0 0 alloc_list (l ++ m) alloc_list out' out'.0
                  (subst (λ t. Linked s.next s.prev alloc_list t alloc_list) split list.linked));
          apart = NotIn-insert alloc_list node l m (λ e. out.0 (sym e)) apart;
          distinct = Distinct-insert node l m out'.1 distinct;
          held = held;
          unlocked = refl;
        };
        records = ap (λ o. update s.records node (grow abi file line size overalloc o)) (sym free);
        blocks = refl;
        tracking = refl;
        max_tolerate = refl;
        log = refl;
      }

-- In a memory that holds a list of records, with fuel for one round more than there are records, and
-- where `malloc` gives a node at which nothing is, `list_push_record` ends and gives a node. The list
-- in memory is then what `push` makes of it, linked both ways, and the mutex is free again.
pub list_push_record-Pushed :
    (fuel : ℕ) (abi : Abi) (node : ℕ) (file : Text) (line size : ℕ) (overalloc : Bool) (s : Memleak)
    (ps : List ℕ) (xs : List AllocRecord)
    → IsList s ps xs
    → length ps < fuel
    → node ≢ 0
    → NotIn node (alloc_list ∷ ps)
    → s.records node ≡ none
    → (p : ℕ) × (s' : Memleak) × (list_push_record fuel abi node file line size overalloc s
        ≡ ok p s')
      × Pushed abi file line size overalloc s ps xs p s'
list_push_record-Pushed fuel abi node file line size overalloc s ps xs list more given out free =
    let (f, walks, e) =
      walk-End file line fuel alloc_list (record s { rec_lock = true }) ps xs list.linked list.apart
        list.held more in
    finish f walks e
  where
    starts :
        (ps : List ℕ)
        → Linked s.next s.prev alloc_list ps alloc_list
        → s.next alloc_list ≡ some (first_or ps alloc_list)
    starts [] l = l.0
    starts (p ∷ ps) l = l.0.0

    finish :
        (f : Found)
        → walk file line fuel (first_or ps alloc_list) (record s { rec_lock = true })
          ≡ ok f (record s { rec_lock = true })
        → End file line ps xs f
        → (p : ℕ) × (s' : Memleak) × (list_push_record fuel abi node file line size overalloc s
            ≡ ok p s')
          × Pushed abi file line size overalloc s ps xs p s'
    finish (hit p) walks e =
        let (r, there, _, _) =
          hit_lem abi file line size overalloc s.records p ps xs e list.distinct list.held in
        (
          p,
          counted s p (bump abi size overalloc r),
          run_hit fuel abi node file line size overalloc s list.unlocked (first_or ps alloc_list)
              (starts ps list.linked) p r walks there,
          Pushed-hit abi file line size overalloc s ps xs list p e,
        )
    finish (before q) walks e =
        let (l, m, split, at, held) =
          before_lem abi file line size overalloc s.records node q ps xs e out.1 list.held in
        let out' : NotIn node (l ++ m) = subst (NotIn node) split out.1 in
        let middle =
          Linked-middle s.next s.prev alloc_list l m alloc_list
            (subst (λ t. Linked s.next s.prev alloc_list t alloc_list) split list.linked) in
        (
          node,
          added s node (last_or alloc_list l) (first_or m alloc_list)
              (new_record file line size overalloc),
          subst
              (λ t.
                list_push_record fuel abi node file line size overalloc s
                ≡ ok node
                    (added s node (last_or alloc_list l) t (new_record file line size overalloc)))
              at
              (run_before fuel abi node file line size overalloc s list.unlocked
                (first_or ps alloc_list) (starts ps list.linked) q (last_or alloc_list l) q walks
                given (ap s.prev at ∙ middle.1) (middle.0 ∙ ap some (sym at))
                (λ t. NotIn-last_or node alloc_list l m out.0 out' (sym t))
                (λ t. NotIn-first_or node alloc_list l m out.0 out' (sym t ∙ at))),
          Pushed-before abi file line size overalloc s ps xs list node l m split out free held,
        )
