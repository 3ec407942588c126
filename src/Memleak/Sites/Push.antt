-- ===== src/Memleak/Sites/Push.antt =====
-- memleak/memleak.cpp, `list_push_record`: its walk along the links and its changes do to the list in
-- memory what `push` does to a list of records.
use Prim.Native.Nat.{Ordering}
use tripping_robot.Prelude.{ℕ, zero, suc, ◌<◌, ◌≡◌, ◌≢◌, refl, sym, ap, ◌∙◌, arith}
use tripping_robot.Prelude.{
  Bool, false, Option, some, List, [], ◌∷◌, ◌++◌, ◌==◌, length, inl, inr, ◌⊎◌,
}
use tripping_robot.Memleak.{
  Abi, Text, AllocRecord, Memleak, alloc_list, ok, update, load_next, load_record,
}
use tripping_robot.Memleak.Sites.{place_of, Found, hit, before, walk, bump, new_record}
use tripping_robot.Memleak.Sites.Linked.{
  Linked, NotIn, Distinct, first_or, update_self, update_other,
}
use tripping_robot.Memleak.Sites.Sorted.{push}

-- The records at the nodes of a list.
abbrev pub Held : (ℕ → Option AllocRecord) → List ℕ → List AllocRecord → Type 0
Held f [] [] = Unit {0}
Held f (p ∷ ps) (r ∷ rs) = (f p ≡ some r) × Held f ps rs
Held f [] (_ ∷ _) = ⊥
Held f (_ ∷ _) [] = ⊥

-- The memory holds the records xs at the nodes ps, linked in this order, and the mutex is free.
pub record IsList (s : Memleak) (ps : List ℕ) (xs : List AllocRecord) : Type 0 where
  pub linked : Linked s.next s.prev alloc_list ps alloc_list
  pub apart : NotIn alloc_list ps
  pub distinct : Distinct ps
  pub held : Held s.records ps xs
  pub unlocked : s.rec_lock ≡ false

-- Where the walk along a list ends.
pub data End (file : Text) (line : ℕ) : List ℕ → List AllocRecord → Found → Type 0 where
  end : End file line [] [] (before alloc_list)
  above :
      (p : ℕ) (r : AllocRecord) (ps : List ℕ) (rs : List AllocRecord)
      → place_of file line r ≡ Ordering.gt
      → End file line (p ∷ ps) (r ∷ rs) (before p)
  same :
      (p : ℕ) (r : AllocRecord) (ps : List ℕ) (rs : List AllocRecord)
      → place_of file line r ≡ Ordering.eq
      → End file line (p ∷ ps) (r ∷ rs) (hit p)
  past :
      (p : ℕ) (r : AllocRecord) (ps : List ℕ) (rs : List AllocRecord) (f : Found)
      → place_of file line r ≡ Ordering.lt
      → End file line ps rs f
      → End file line (p ∷ ps) (r ∷ rs) f

pub Ordering-cases : (o : Ordering) → (o ≡ Ordering.lt) ⊎ (o ≡ Ordering.eq) ⊎ (o ≡ Ordering.gt)
Ordering-cases Ordering.lt = inl refl
Ordering-cases Ordering.eq = inr (inl refl)
Ordering-cases Ordering.gt = inr (inr refl)

pub not_head : (p : ℕ) → alloc_list ≢ p → (p == alloc_list) ≡ false
not_head p ne = ground arith

module _ (file : Text) (line fuel p : ℕ) (s : Memleak) (r : AllocRecord) where
  walk-lower :
      (q : ℕ)
      → alloc_list ≢ p
      → s.records p ≡ some r
      → place_of file line r ≡ Ordering.lt
      → s.next p ≡ some q
      → walk file line (suc fuel) p s ≡ walk file line fuel q s
  unfolding walk load_record load_next
  walk-lower q ne there lower next = ground (arith, next)

  walk-level :
      alloc_list ≢ p
      → s.records p ≡ some r
      → place_of file line r ≡ Ordering.eq
      → walk file line (suc fuel) p s ≡ ok (hit p) s
  unfolding walk load_record
  walk-level ne there level = ground arith

  walk-higher :
      alloc_list ≢ p
      → s.records p ≡ some r
      → place_of file line r ≡ Ordering.gt
      → walk file line (suc fuel) p s ≡ ok (before p) s
  unfolding walk load_record
  walk-higher ne there higher = ground arith

pub walk-End :
    (file : Text) (line fuel a : ℕ) (s : Memleak) (ps : List ℕ) (xs : List AllocRecord)
    → Linked s.next s.prev a ps alloc_list
    → NotIn alloc_list ps
    → Held s.records ps xs
    → length ps < fuel
    → (f : Found) × (walk file line fuel (first_or ps alloc_list) s ≡ ok f s)
      × End file line ps xs f
unfolding walk
walk-End file line zero a s ps xs l out h more = absurd (omega arith)
walk-End file line (suc fuel) a s [] [] l out h more = (before alloc_list, refl, end)
walk-End file line (suc fuel) a s [] (r ∷ rs) l out h more = elim h [ ]
walk-End file line (suc fuel) a s (p ∷ ps) [] l out h more = elim h [ ]
walk-End file line (suc fuel) a s (p ∷ ps) (r ∷ rs) l out h more =
    elim (Ordering-cases (place_of file line r)) [
      | inl lower ↦
          let (f, runs, e) = walk-End file line fuel p s ps rs l.1 out.1 h.1 (omega arith) in
          (
            f,
            walk-lower file line fuel p s r (first_or ps alloc_list) out.0 h.0 lower (link p ps l.1)
                ∙ runs,
            past p r ps rs f lower e,
          )
      | inr (inl level) ↦
          (hit p, walk-level file line fuel p s r out.0 h.0 level, same p r ps rs level)
      | inr (inr higher) ↦
          (before p, walk-higher file line fuel p s r out.0 h.0 higher, above p r ps rs higher)
    ]
  where
    link :
        (p : ℕ) (ps : List ℕ)
        → Linked s.next s.prev p ps alloc_list
        → s.next p ≡ some (first_or ps alloc_list)
    link p [] l = l.0
    link p (q ∷ ps) l = l.0.0

-- A write at another node is not seen.
pub Held-update :
    (f : ℕ → Option AllocRecord) (p : ℕ) (r : AllocRecord) (ps : List ℕ) (xs : List AllocRecord)
    → NotIn p ps
    → Held f ps xs
    → Held (update f p r) ps xs
Held-update f p r [] [] out h = tt
Held-update f p r [] (x ∷ xs) out h = elim h [ ]
Held-update f p r (q ∷ ps) [] out h = elim h [ ]
Held-update f p r (q ∷ ps) (x ∷ xs) out h =
    (update_other f p r q (λ e. out.0 (sym e)) ∙ h.0, Held-update f p r ps xs out.1 h.1)

module _ (abi : Abi) (file : Text) (line size : ℕ) (overalloc : Bool) where
  pub push-level :
      (r : AllocRecord) (rs : List AllocRecord)
      → place_of file line r ≡ Ordering.eq
      → push abi file line size overalloc (r ∷ rs) ≡ bump abi size overalloc r ∷ rs
  unfolding push
  push-level r rs e = rw (e, push) refl

  pub push-lower :
      (r : AllocRecord) (rs : List AllocRecord)
      → place_of file line r ≡ Ordering.lt
      → push abi file line size overalloc (r ∷ rs) ≡ r ∷ push abi file line size overalloc rs
  unfolding push
  push-lower r rs e = rw (e, push) refl

  pub push-higher :
      (r : AllocRecord) (rs : List AllocRecord)
      → place_of file line r ≡ Ordering.gt
      → push abi file line size overalloc (r ∷ rs) ≡ new_record file line size overalloc ∷ r ∷ rs
  unfolding push
  push-higher r rs e = rw (e, push) refl

  -- Where the walk hits a node, `push` counts up its record.
  pub hit_lem :
      (f : ℕ → Option AllocRecord) (p : ℕ) (ps : List ℕ) (xs : List AllocRecord)
      → End file line ps xs (hit p)
      → Distinct ps
      → Held f ps xs
      → (r : AllocRecord) × (f p ≡ some r)
        × ((q : ℕ) → NotIn q ps → q ≢ p)
        × Held (update f p (bump abi size overalloc r)) ps (push abi file line size overalloc xs)
  unfolding push
  hit_lem f p _ _ (same _ r ps rs level) d h = (
    r,
    h.0,
    (λ q out. out.0),
    rw (push-level r rs level) (
      update_self f p (bump abi size overalloc r),
      Held-update f p (bump abi size overalloc r) ps rs d.0 h.1,
    ),
  )
  hit_lem f p _ _ (past q r ps rs _ lower e) d h =
      let (x, there, other, held) = hit_lem f p ps rs e d.1 h.1 in
      (
        x,
        there,
        (λ t out. other t out.1),
        rw (push-lower r rs lower)
            (update_other f p (bump abi size overalloc x) q (other q d.0) ∙ h.0, held),
      )

  -- Where it stops before a node, `push` adds a record there.
  pub before_lem :
      (f : ℕ → Option AllocRecord) (node q : ℕ) (ps : List ℕ) (xs : List AllocRecord)
      → End file line ps xs (before q)
      → NotIn node ps
      → Held f ps xs
      → (l : List ℕ) × (m : List ℕ) × (ps ≡ l ++ m)
        × (q ≡ first_or m alloc_list)
        × Held
            (update f node (new_record file line size overalloc))
            (l ++ node ∷ m)
            (push abi file line size overalloc xs)
  unfolding push
  before_lem f node _ _ _ end out h =
      ([], [], refl, refl, (update_self f node (new_record file line size overalloc), tt))
  before_lem f node _ _ _ (above p r ps rs higher) out h = (
    [],
    p ∷ ps,
    refl,
    refl,
    rw (push-higher r rs higher) (
      update_self f node (new_record file line size overalloc),
      Held-update f node (new_record file line size overalloc) (p ∷ ps) (r ∷ rs) out h,
    ),
  )
  before_lem f node q _ _ (past p r ps rs _ lower e) out h =
      let (l, m, split, at, held) = before_lem f node q ps rs e out.1 h.1 in
      (
        p ∷ l,
        m,
        ap (◌∷◌ p) split,
        at,
        rw (push-lower r rs lower) (
          update_other f node (new_record file line size overalloc) p (λ t. out.0 (sym t)) ∙ h.0,
          held,
        ),
      )

pub NotIn-insert : (x r : ℕ) (l m : List ℕ) → x ≢ r → NotIn x (l ++ m) → NotIn x (l ++ r ∷ m)
NotIn-insert x r [] m ne h = (ne, h)
NotIn-insert x r (p ∷ l) m ne h = (h.0, NotIn-insert x r l m ne h.1)

pub Distinct-insert :
    (r : ℕ) (l m : List ℕ) → NotIn r (l ++ m) → Distinct (l ++ m) → Distinct (l ++ r ∷ m)
Distinct-insert r [] m out d = (out, d)
Distinct-insert r (p ∷ l) m out d =
    (NotIn-insert p r l m (λ e. out.0 (sym e)) d.0, Distinct-insert r l m out.1 d.1)
