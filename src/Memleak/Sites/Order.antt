-- ===== src/Memleak/Sites/Order.antt =====
-- memleak/memleak.cpp, the order of the records: by file, as `strcmp` has it, and then by line.
use Prim.Native.Nat.{Ordering}
use tripping_robot.Prelude.{ℕ, ◌^◌, ◌<◌, ◌≡◌, refl, sym, ap, ◌∙◌, arith}
use tripping_robot.Prelude.{true, [], ◌∷◌, lt_int, inl, inr, ◌⊎◌}
use tripping_robot.Memleak.{Text, AllocRecord}
use tripping_robot.Memleak.Sites.{strcmp, place_of}

strcmp-eq : (s t : Text) → strcmp s t ≡ Ordering.eq → s ≡ t
unfolding strcmp
strcmp-eq [] [] h = refl
strcmp-eq [] (b ∷ t) h = cc
strcmp-eq (a ∷ s) [] h = cc
strcmp-eq (a ∷ s) (b ∷ t) h = ground (arith, strcmp-eq s t)

pub strcmp_refl : (s : Text) → strcmp s s ≡ Ordering.eq
unfolding strcmp
strcmp_refl [] = refl
strcmp_refl (a ∷ s) = ground (arith, strcmp_refl s)

strcmp-gt : (s t : Text) → strcmp s t ≡ Ordering.gt → strcmp t s ≡ Ordering.lt
unfolding strcmp
strcmp-gt [] [] h = cc
strcmp-gt [] (b ∷ t) h = cc
strcmp-gt (a ∷ s) [] h = refl
strcmp-gt (a ∷ s) (b ∷ t) h = ground (arith, strcmp-gt s t)

strcmp_trans :
    (s t u : Text) → strcmp s t ≡ Ordering.lt → strcmp t u ≡ Ordering.lt → strcmp s u ≡ Ordering.lt
unfolding strcmp
strcmp_trans [] [] u h k = cc
strcmp_trans s (b ∷ t) [] h k = cc
strcmp_trans [] (b ∷ t) (c ∷ u) h k = refl
strcmp_trans (a ∷ s) [] u h k = cc
strcmp_trans (a ∷ s) (b ∷ t) (c ∷ u) h k = ground (arith, strcmp_trans s t u)

-- The record of the file and line f, l stands before that of g, m.
pub record IsBefore (f : Text) (l : ℕ) (g : Text) (m : ℕ) : Type 0 where
  pub order : (strcmp f g ≡ Ordering.lt) ⊎ ((f ≡ g) × (lt_int l m ≡ true))

pub IsBefore-trans :
    (f : Text) (l : ℕ) (g : Text) (m : ℕ) (h : Text) (n : ℕ)
    → IsBefore f l g m
    → IsBefore g m h n
    → IsBefore f l h n
IsBefore-trans f l g m h n p q = record { order = join p.order q.order }
  where
    join :
        (strcmp f g ≡ Ordering.lt) ⊎ ((f ≡ g) × (lt_int l m ≡ true))
        → (strcmp g h ≡ Ordering.lt) ⊎ ((g ≡ h) × (lt_int m n ≡ true))
        → (strcmp f h ≡ Ordering.lt) ⊎ ((f ≡ h) × (lt_int l n ≡ true))
    join (inl a) (inl b) = inl (strcmp_trans f g h a b)
    join (inl a) (inr (e, b)) = inl (ap (strcmp f) (sym e) ∙ a)
    join (inr (e, a)) (inl b) = inl (ap (λ t. strcmp t h) e ∙ b)
    join (inr (e, a)) (inr (d, b)) = inr (e ∙ d, ground arith)

pub IsBefore-irrefl : (f : Text) (l : ℕ) → IsBefore f l f l → ⊥
IsBefore-irrefl f l h = no_order h.order
  where
    no_order : (strcmp f f ≡ Ordering.lt) ⊎ ((f ≡ f) × (lt_int l l ≡ true)) → ⊥
    no_order (inl a) = ground (arith, strcmp_refl f)
    no_order (inr (_, a)) = ground arith

module _ (file : Text) (line : ℕ) (r : AllocRecord) where
  pub place_of-lt :
      line < 2 ^ 32
      → r.line < 2 ^ 32
      → place_of file line r ≡ Ordering.lt
      → IsBefore r.file r.line file line
  unfolding place_of
  place_of-lt hl hr h = record { order = ground (arith, strcmp-eq r.file file) }

  pub place_of-gt : place_of file line r ≡ Ordering.gt → IsBefore file line r.file r.line
  unfolding place_of
  place_of-gt h = record { order = ground (arith, strcmp-eq r.file file, strcmp-gt r.file file) }

  pub place_of-eq : place_of file line r ≡ Ordering.eq → (r.file ≡ file) × (r.line ≡ line)
  unfolding place_of
  place_of-eq h = ground (arith, strcmp-eq r.file file)
