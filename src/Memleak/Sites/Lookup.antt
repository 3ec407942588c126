-- ===== src/Memleak/Sites/Lookup.antt =====
-- memleak/memleak.cpp, the list of records as a map from file and line: it stays sorted, so that there
-- is one record for each, and counting an allocation changes only its own.
use Prim.Native.Nat.{Ordering}
use tripping_robot.Prelude.{ℕ, ◌^◌, ◌<◌, ◌≡◌, ◌≢◌, refl, sym, ap, subst, ◌∙◌, arith}
use tripping_robot.Prelude.{Bool, Option, none, some, List, [], ◌∷◌, inl, inr}
use tripping_robot.Memleak.{Abi, Text, AllocRecord}
use tripping_robot.Memleak.Sites.{place_of, bump, new_record}
use tripping_robot.Memleak.Sites.Sorted.{grow, push}
use tripping_robot.Memleak.Sites.Order.{
  IsBefore, IsBefore-trans, IsBefore-irrefl, place_of-lt, place_of-gt, place_of-eq, strcmp_refl,
}
use tripping_robot.Memleak.Sites.Push.{push-level, push-lower, push-higher, Ordering-cases}

-- The records of a list all stand behind a file and line.
abbrev pub AllAfter : Text → ℕ → List AllocRecord → Type 0
AllAfter file line [] = Unit {0}
AllAfter file line (r ∷ rs) = IsBefore file line r.file r.line × AllAfter file line rs

abbrev pub IsSorted : List AllocRecord → Type 0
IsSorted [] = Unit {0}
IsSorted (r ∷ rs) = (r.line < 2 ^ 32) × AllAfter r.file r.line rs × IsSorted rs

AllAfter-trans :
    (f : Text) (l : ℕ) (g : Text) (m : ℕ) (rs : List AllocRecord)
    → IsBefore f l g m
    → AllAfter g m rs
    → AllAfter f l rs
AllAfter-trans f l g m [] h all = tt
AllAfter-trans f l g m (r ∷ rs) h all =
    (IsBefore-trans f l g m r.file r.line h all.0, AllAfter-trans f l g m rs h all.1)

-- The record of a file and line.
unfoldable pub lookup : Text → ℕ → List AllocRecord → Option AllocRecord
lookup file line [] = none
lookup file line (r ∷ rs) =
    let rest = lookup file line rs in
    elim (place_of file line r) [ Ordering.lt ↦ rest | Ordering.eq ↦ some r | Ordering.gt ↦ rest ]

module _ (abi : Abi) (file : Text) (line size : ℕ) (overalloc : Bool) where
  bump_key :
      (r : AllocRecord)
      → ((bump abi size overalloc r).file ≡ r.file) × ((bump abi size overalloc r).line ≡ r.line)
  unfolding bump
  bump_key r = ground arith

  AllAfter-push :
      (f : Text) (l : ℕ) (xs : List AllocRecord)
      → IsBefore f l file line
      → AllAfter f l xs
      → AllAfter f l (push abi file line size overalloc xs)
  unfolding push new_record
  AllAfter-push f l [] h all = (h, tt)
  AllAfter-push f l (r ∷ rs) h all = elim (Ordering-cases (place_of file line r)) [
    | inl lower ↦
        rw (push-lower abi file line size overalloc r rs lower)
          (all.0, AllAfter-push f l rs h all.1)
    | inr (inl level) ↦
        rw (push-level abi file line size overalloc r rs level)
          (rw ((bump_key r).0, (bump_key r).1) all.0, all.1)
    | inr (inr higher) ↦ rw (push-higher abi file line size overalloc r rs higher) (h, all)
  ]

  pub push-IsSorted :
      (xs : List AllocRecord)
      → line < 2 ^ 32
      → IsSorted xs
      → IsSorted (push abi file line size overalloc xs)
  unfolding push new_record
  push-IsSorted [] word h = (word, tt, tt)
  push-IsSorted (r ∷ rs) word h = elim (Ordering-cases (place_of file line r)) [
    | inl lower ↦ rw (push-lower abi file line size overalloc r rs lower) (
      h.0,
      AllAfter-push r.file r.line rs (place_of-lt file line r word h.0 lower) h.1,
      push-IsSorted rs word h.2,
    )
    | inr (inl level) ↦
        rw (push-level abi file line size overalloc r rs level)
          (rw (bump_key r).1 h.0, rw ((bump_key r).0, (bump_key r).1) h.1, h.2)
    | inr (inr higher) ↦ rw (push-higher abi file line size overalloc r rs higher) (
      word,
      (
        place_of-gt file line r higher,
        AllAfter-trans file line r.file r.line rs (place_of-gt file line r higher) h.1,
      ),
      h,
    )
  ]

module _ (file : Text) (line : ℕ) (r : AllocRecord) (rs : List AllocRecord) where
  pub lookup-level : place_of file line r ≡ Ordering.eq → lookup file line (r ∷ rs) ≡ some r
  unfolding lookup
  lookup-level e = rw (e, lookup) refl

  pub lookup-other :
      place_of file line r ≢ Ordering.eq → lookup file line (r ∷ rs) ≡ lookup file line rs
  unfolding lookup
  lookup-other ne = ground arith

lookup-none :
    (file : Text) (line : ℕ) (rs : List AllocRecord)
    → AllAfter file line rs
    → lookup file line rs ≡ none
unfolding lookup
lookup-none file line [] all = refl
lookup-none file line (r ∷ rs) all =
    lookup-other file line r rs (λ e.
      let (f, l) = place_of-eq file line r e in
      IsBefore-irrefl file line (
        subst (λ t. IsBefore file line file t) l
          (subst (λ t. IsBefore file line t r.line) f all.0)))
    ∙ lookup-none file line rs all.1

module _ (abi : Abi) (file : Text) (line size : ℕ) (overalloc : Bool) where
  abbrev new : AllocRecord
  new = new_record file line size overalloc

  place_of-new : place_of file line new ≡ Ordering.eq
  unfolding place_of new_record
  place_of-new = ground (arith, strcmp_refl file)

  place_of-bump :
      (g : Text) (m : ℕ) (r : AllocRecord)
      → place_of g m (bump abi size overalloc r) ≡ place_of g m r
  unfolding place_of
  place_of-bump g m r = let (f, l) = bump_key abi file line size overalloc r in rw (f, l) refl

  push-lookup_self :
      (xs : List AllocRecord)
      → IsSorted xs
      → lookup file line (push abi file line size overalloc xs)
        ≡ some (grow abi file line size overalloc (lookup file line xs))
  unfolding push grow lookup
  push-lookup_self [] h = lookup-level file line new [] place_of-new
  push-lookup_self (r ∷ rs) h = elim (Ordering-cases (place_of file line r)) [
    | inl lower ↦
        let miss : place_of file line r ≢ Ordering.eq = λ e. ground arith in
        rw (push-lower abi file line size overalloc r rs lower) (
          lookup-other file line r (push abi file line size overalloc rs) miss
          ∙ push-lookup_self rs h.2
          ∙ ap (λ o. some (grow abi file line size overalloc o))
              (sym (lookup-other file line r rs miss)))
    | inr (inl level) ↦ rw (push-level abi file line size overalloc r rs level) (
        lookup-level file line (bump abi size overalloc r) rs (place_of-bump file line r ∙ level)
        ∙ ap (λ o. some (grow abi file line size overalloc o))
            (sym (lookup-level file line r rs level)))
    | inr (inr higher) ↦
        let after : AllAfter file line (r ∷ rs) = (
          place_of-gt file line r higher,
          AllAfter-trans file line r.file r.line rs (place_of-gt file line r higher) h.1,
        ) in
        rw (push-higher abi file line size overalloc r rs higher) (
          lookup-level file line new (r ∷ rs) place_of-new
          ∙ ap (λ o. some (grow abi file line size overalloc o))
              (sym (lookup-none file line (r ∷ rs) after)))
  ]

  module _ (g : Text) (m : ℕ) (other : (file ≡ g) → line ≢ m) where
    misses : (r : AllocRecord) → r.file ≡ file → r.line ≡ line → place_of g m r ≢ Ordering.eq
    misses r f l e = let (f', l') = place_of-eq g m r e in other (sym f ∙ f') (sym l ∙ l')

    push-lookup_other :
        (xs : List AllocRecord) → lookup g m (push abi file line size overalloc xs) ≡ lookup g m xs
    unfolding push lookup new_record
    push-lookup_other [] = lookup-other g m new [] (misses new refl refl)
    push-lookup_other (r ∷ rs) = elim (Ordering-cases (place_of file line r)) [
      | inl lower ↦
          rw (push-lower abi file line size overalloc r rs lower)
            (ground (arith, push-lookup_other rs))
      | inr (inl level) ↦
          let (f, l) = place_of-eq file line r level in
          rw (push-level abi file line size overalloc r rs level) (
            lookup-other g m (bump abi size overalloc r) rs
              (λ e. misses r f l (sym (place_of-bump g m r) ∙ e))
            ∙ sym (lookup-other g m r rs (misses r f l)))
      | inr (inr higher) ↦
          rw (push-higher abi file line size overalloc r rs higher)
            (lookup-other g m new (r ∷ rs) (misses new refl refl))
    ]

  -- Counting an allocation in a sorted list of records leaves it sorted, so that no two records have
  -- the same file and line; the record of that file and line is the one before counted up, or a new
  -- one, and the record of any other file and line is the one before, if any. The line is an `int`.
  pub push-lookup :
      (xs : List AllocRecord) (g : Text) (m : ℕ)
      → IsSorted xs
      → line < 2 ^ 32
      → ((file ≡ g) → line ≢ m)
      → IsSorted (push abi file line size overalloc xs)
        × (lookup file line (push abi file line size overalloc xs)
            ≡ some (grow abi file line size overalloc (lookup file line xs)))
        × (lookup g m (push abi file line size overalloc xs) ≡ lookup g m xs)
  push-lookup xs g m h word other = (
    push-IsSorted abi file line size overalloc xs word h,
    push-lookup_self xs h,
    push-lookup_other g m other xs,
  )
