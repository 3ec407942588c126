-- ===== src/Runtrace/Writers/Inv/Write.antt =====
-- runtrace/runtrace.c, `make_tracept`: a store into a record.
use tripping_robot.Prelude.{ℕ, ◌+◌, ◌%◌, ◌^◌, ◌<◌, ◌≡◌, sym, ◌∙◌, subst, inl, inr, arith}
use tripping_robot.Prelude.{List, get_elem?, get_or, set}
use tripping_robot.Prelude.{length-set, get_or-set_self, get_or-set_ne}
use tripping_robot.Runtrace.{Tracept}
use tripping_robot.Runtrace.Pool.{blank}
use tripping_robot.Runtrace.History.{Shows}
use tripping_robot.Runtrace.Life.{Call}
use tripping_robot.Runtrace.Writers.{Stage, next_stage, store, writing, Writers, move, slot}
use tripping_robot.Runtrace.Writers.Stores.{Partial, store-Partial, slot-lt}
use tripping_robot.Runtrace.Writers.Inv.{IsFree, Inv, IsStored, move_cases}

module _ (k : ℕ) (s : Writers) (inv : Inv k s) where
  module _ (t n : ℕ) (c : Call) (g : Stage) (here : s.place t ≡ writing n c g) where
    abbrev after : List Tracept
    after = set s.pool (slot k n) (store g c (get_or s.pool (slot k n) blank))

    own : Partial (next_stage g) c (get_or after (slot k n) blank)
    own =
        rw
          (get_or-set_self s.pool (slot k n) (store g c (get_or s.pool (slot k n) blank)) blank
            (rw inv.slots (slot-lt k n)))
          (store-Partial g c _ (inv.worded t n c g here) (inv.stored t n c g here))

    writes-stored :
        (u m : ℕ) (d : Call) (h : Stage)
        → move s.place t (writing n c (next_stage g)) u ≡ writing m d h
        → Partial h d (get_or after (slot k m) blank)
    writes-stored u m d h e = elim (move_cases s.place t u (writing n c (next_stage g))) [
      | inl (_, q) ↦ subst (IsStored k after) (sym q ∙ e) own
      | inr (ne, q) ↦
          let there : s.place u ≡ writing m d h = sym q ∙ e in
          rw
            (get_or-set_ne s.pool (slot k n) (slot k m) _ blank
              (λ same. ne (inv.distinct u t m n d c h g there here (sym same))))
            (inv.stored u m d h there)
    ]

    writes-recent :
        (i j : ℕ)
        → i < 2 ^ k
        → j < 2 ^ k
        → (j + (i + 1)) % 2 ^ k ≡ s.next_tp % 2 ^ k
        → IsFree k (move s.place t (writing n c (next_stage g))) j
        → Shows (get_or after j blank) (get_elem? s.made i)
    unfolding move
    writes-recent i j hi hj step free =
        rw (get_or-set_ne s.pool (slot k n) j _ blank (free t n c (next_stage g) (ground arith))) (
          inv.recent i j hi hj step
            (λ u m d h e q. ground (arith, free u m d h, free u n c (next_stage g))))

  -- A thread makes a store into its record.
  pub writes-Inv :
      (t n : ℕ) (c : Call) (g : Stage)
      → s.place t ≡ writing n c g
      → Inv k (record s {
        pool = set s.pool (slot k n) (store g c (get_or s.pool (slot k n) blank));
        place = move s.place t (writing n c (next_stage g));
      })
  unfolding move
  writes-Inv t n c g here = record {
    slots = length-set s.pool (slot k n) _ ∙ inv.slots;
    called = λ u d e. ground (arith, inv.called u d);
    worded = λ u m d h e. ground (arith, inv.worded u m d h, inv.worded t n c g);
    stored = writes-stored t n c g here;
    numbered =
        λ u m d h i e lt step. ground (arith, inv.numbered u m d h i, inv.numbered t n c g i);
    distinct = λ u v m l d d' h h' a b e. ground (
      arith,
      inv.distinct u v m l d d' h h',
      inv.distinct t v n l c d' g h',
      inv.distinct u t m n d c h g,
    );
    recent = writes-recent t n c g here;
    excluded = λ u v b e ne. ground (arith, inv.excluded u v b);
    copied = λ u l e. ground (arith, inv.copied u l);
    read = λ u l e. ground (arith, inv.read u l);
    counter = inv.counter;
  }
