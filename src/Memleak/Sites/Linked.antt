-- ===== src/Memleak/Sites/Linked.antt =====
-- memleak/memleak.cpp, the doubly linked list in memory, and what `list_add_tail` does to it.
use tripping_robot.Prelude.{ℕ, ◌≡◌, ◌≢◌, refl, sym, ◌∙◌, arith}
use tripping_robot.Prelude.{Option, some, List, [], ◌∷◌, ◌++◌}
use tripping_robot.Memleak.{Memleak, ok, update, load_prev, store_next, store_prev}
use tripping_robot.Memleak.Sites.{list_add_tail}

-- The links lead from a through the nodes to b, and back.
abbrev pub Edge : (ℕ → Option ℕ) → (ℕ → Option ℕ) → ℕ → ℕ → Type 0
Edge next prev a b = (next a ≡ some b) × (prev b ≡ some a)

abbrev pub Linked : (ℕ → Option ℕ) → (ℕ → Option ℕ) → ℕ → List ℕ → ℕ → Type 0
Linked next prev a [] b = Edge next prev a b
Linked next prev a (p ∷ ps) b = Edge next prev a p × Linked next prev p ps b

abbrev pub NotIn : ℕ → List ℕ → Type 0
NotIn x [] = Unit {0}
NotIn x (y ∷ ys) = (x ≢ y) × NotIn x ys

abbrev pub Distinct : List ℕ → Type 0
Distinct [] = Unit {0}
Distinct (x ∷ xs) = NotIn x xs × Distinct xs

-- The node that comes first, or what follows.
abbrev pub first_or : List ℕ → ℕ → ℕ
first_or [] b = b
first_or (p ∷ ps) b = p

module _ {A : Type 0} (f : ℕ → Option A) (p : ℕ) (v : A) where
  pub update_self : update f p v p ≡ some v
  unfolding update
  update_self = ground arith

  pub update_other : (q : ℕ) → q ≢ p → update f p v q ≡ f q
  unfolding update
  update_other q ne = ground arith

-- The two fields agree at some addresses.
abbrev Same : (ℕ → Option ℕ) → (ℕ → Option ℕ) → List ℕ → Type 0
Same f g [] = Unit {0}
Same f g (x ∷ xs) = (g x ≡ f x) × Same f g xs

Same-update :
    (f g : ℕ → Option ℕ) (p v : ℕ) (xs : List ℕ)
    → NotIn p xs
    → Same f g xs
    → Same f (update g p v) xs
Same-update f g p v [] h s = tt
Same-update f g p v (x ∷ xs) h s =
    (update_other g p v x (λ e. h.0 (sym e)) ∙ s.0, Same-update f g p v xs h.1 s.1)

Same-refl : (f : ℕ → Option ℕ) (xs : List ℕ) → Same f f xs
Same-refl f [] = tt
Same-refl f (x ∷ xs) = (refl, Same-refl f xs)

NotIn_snoc : (x e : ℕ) (ps : List ℕ) → NotIn x ps → x ≢ e → NotIn x (ps ++ e ∷ [])
NotIn_snoc x e [] h ne = (ne, tt)
NotIn_snoc x e (p ∷ ps) h ne = (h.0, NotIn_snoc x e ps h.1 ne)

Linked-Same :
    (n v n' v' : ℕ → Option ℕ) (s : ℕ) (ps : List ℕ) (e : ℕ)
    → Same n n' (s ∷ ps)
    → Same v v' (ps ++ e ∷ [])
    → Linked n v s ps e
    → Linked n' v' s ps e
Linked-Same n v n' v' s [] e hn hv l = (hn.0 ∙ l.0, hv.0 ∙ l.1)
Linked-Same n v n' v' s (p ∷ ps) e hn hv l =
    ((hn.0 ∙ l.0.0, hv.0 ∙ l.0.1), Linked-Same n v n' v' p ps e hn.1 hv.1 l.1)

-- The last node, or what comes before.
abbrev pub last_or : ℕ → List ℕ → ℕ
last_or s [] = s
last_or s (p ∷ ps) = last_or p ps

pub NotIn-last_or : (x s : ℕ) (l m : List ℕ) → x ≢ s → NotIn x (l ++ m) → x ≢ last_or s l
NotIn-last_or x s [] m ne h = ne
NotIn-last_or x s (p ∷ l) m ne h = NotIn-last_or x p l m h.0 h.1

pub NotIn-first_or : (x e : ℕ) (l m : List ℕ) → x ≢ e → NotIn x (l ++ m) → x ≢ first_or m e
NotIn-first_or x e (p ∷ l) m ne h = NotIn-first_or x e l m ne h.1
NotIn-first_or x e [] [] ne h = ne
NotIn-first_or x e [] (p ∷ m) ne h = h.0

-- Where a list that is split into l and m meets.
pub Linked-middle :
    (n v : ℕ → Option ℕ) (s : ℕ) (l m : List ℕ) (e : ℕ)
    → Linked n v s (l ++ m) e
    → Edge n v (last_or s l) (first_or m e)
Linked-middle n v s [] [] e h = h
Linked-middle n v s [] (p ∷ m) e h = h.0
Linked-middle n v s (x ∷ l) m e h = Linked-middle n v x l m e h.1

-- The links after a node r was put between a and q.
module _ (n v : ℕ → Option ℕ) (r a q : ℕ) where
  abbrev pub added_next : ℕ → Option ℕ
  added_next = update (update n a r) r q

  abbrev pub added_prev : ℕ → Option ℕ
  added_prev = update (update v r a) q r

  Edge-added :
      (x y : ℕ) → x ≢ a → x ≢ r → y ≢ r → y ≢ q → Edge n v x y → Edge added_next added_prev x y
  Edge-added x y xa xr yr yq e = (
    update_other (update n a r) r q x xr ∙ update_other n a r x xa ∙ e.0,
    update_other (update v r a) q r y yq ∙ update_other v r a y yr ∙ e.1,
  )

  -- The two new edges.
  Edge-in : a ≢ r → q ≢ r → Edge added_next added_prev a r
  Edge-in ar qr = (
    update_other (update n a r) r q a ar ∙ update_self n a r,
    update_other (update v r a) q r r (λ e. qr (sym e)) ∙ update_self v r a,
  )

  Edge-out : Edge added_next added_prev r q
  Edge-out = (update_self (update n a r) r q, update_self (update v r a) q r)

  Linked-added :
      (s : ℕ) (ps : List ℕ) (e : ℕ)
      → NotIn a (s ∷ ps)
      → NotIn r (s ∷ ps)
      → NotIn q ps
      → q ≢ e
      → r ≢ e
      → Linked n v s ps e
      → Linked added_next added_prev s ps e
  Linked-added s ps e out rs qs qe re l =
      Linked-Same n v added_next added_prev s ps e
        (Same-update n (update n a r) r q (s ∷ ps) rs
          (Same-update n n a r (s ∷ ps) out (Same-refl n (s ∷ ps))))
        (Same-update v (update v r a) q r (ps ++ e ∷ []) (NotIn_snoc q e ps qs qe) (
          Same-update v v r a (ps ++ e ∷ []) (NotIn_snoc r e ps rs.1 re)
            (Same-refl v (ps ++ e ∷ []))))
        l

-- A node that is put between the parts of a list is then in the list, between them.
pub Linked-insert :
    (n v : ℕ → Option ℕ) (r s : ℕ) (l m : List ℕ) (e : ℕ)
    → NotIn s (l ++ m)
    → Distinct (l ++ m)
    → NotIn e (l ++ m)
    → NotIn r (s ∷ l ++ m)
    → r ≢ e
    → Linked n v s (l ++ m) e
    → Linked
        (added_next n v r (last_or s l) (first_or m e))
        (added_prev n v r (last_or s l) (first_or m e))
        s
        (l ++ r ∷ m)
        e
Linked-insert n v r s [] [] e hs d he hr re h =
    (Edge-in n v r s e (λ t. hr.0 (sym t)) (λ t. re (sym t)), Edge-out n v r s e)
Linked-insert n v r s [] (q ∷ m) e hs d he hr re h = (
  Edge-in n v r s q (λ t. hr.0 (sym t)) (λ t. hr.1.0 (sym t)),
  (Edge-out n v r s q, Linked-added n v r s q q m e hs hr.1 d.0 (λ t. he.0 (sym t)) re h.1),
)
Linked-insert n v r s (x ∷ l) m e hs d he hr re h = (
  Edge-added n v r (last_or x l) (first_or m e) s x (NotIn-last_or s x l m hs.0 hs.1)
      (λ t. hr.0 (sym t)) (λ t. hr.1.0 (sym t)) (NotIn-first_or x e l m (λ t. he.0 (sym t)) d.0)
      h.0,
  Linked-insert n v r x l m e d.0 d.1 he.1 hr.1 re h.1,
)

-- The four writes of `list_add_tail`.
pub list_add_tail-ok :
    (s : Memleak) (r q a b i j : ℕ)
    → s.prev q ≡ some a
    → s.next a ≡ some b
    → s.next r ≡ some i
    → s.prev r ≡ some j
    → a ≢ r
    → q ≢ r
    → list_add_tail r q s
      ≡ ok tt (record s {
        next = added_next s.next s.prev r a q;
        prev = added_prev s.next s.prev r a q;
      })
unfolding list_add_tail load_prev store_next store_prev
list_add_tail-ok s r q a b i j pq na nr pr ar qr =
    simp (pq, na, nr, pr, update_other s.next a r r (λ t. ar (sym t)), update_other s.prev r a q qr)

-- A node that is not in the list may have its links written.
pub Linked-other :
    (n v : ℕ → Option ℕ) (r i j s : ℕ) (ps : List ℕ) (e : ℕ)
    → NotIn r (s ∷ ps)
    → r ≢ e
    → Linked n v s ps e
    → Linked (update n r i) (update v r j) s ps e
Linked-other n v r i j s ps e out ne l =
    Linked-Same n v (update n r i) (update v r j) s ps e
      (Same-update n n r i (s ∷ ps) out (Same-refl n (s ∷ ps)))
      (Same-update v v r j (ps ++ e ∷ []) (NotIn_snoc r e ps out.1 ne) (Same-refl v (ps ++ e ∷ [])))
      l
