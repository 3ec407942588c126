-- ===== src/Runtrace/Writers/Inv/Lock.antt =====
-- runtrace/runtrace.c: the steps that touch no record: the lock is taken, the pool is copied, the lock is
-- left.
use tripping_robot.Prelude.{ℕ, ◌+◌, ◌%◌, ◌^◌, ◌<◌, ◌≡◌, ◌≢◌, subst, arith}
use tripping_robot.Prelude.{Option, none, some, false, get_elem?, get_or}
use tripping_robot.Prelude.{ℕ_discrete}
use tripping_robot.Runtrace.Pool.{blank}
use tripping_robot.Runtrace.History.{IsMessage, Shows, IsRing}
use tripping_robot.Runtrace.Life.{Call}
use tripping_robot.Runtrace.Writers.{
  reading, is_inside, done, outside, entered, writing, printing, Writers, move, slot,
}
use tripping_robot.Runtrace.Writers.Stores.{Partial-Holds}
use tripping_robot.Runtrace.Writers.Inv.{Inv}

module _ (k : ℕ) (s : Writers) (inv : Inv k s) where
  -- A thread outside of both functions calls `make_tracept`.
  pub enters-Inv :
      (t : ℕ) (c : Call)
      → s.place t ≡ outside
      → IsMessage c.msg
      → ((u : ℕ) (b : Option ℕ) → s.place u ≢ printing b)
      → Inv k (record s { place = move s.place t (entered c) })
  unfolding move
  enters-Inv t c here m free = record {
    slots = inv.slots;
    called = λ u d e. ground (arith, inv.called u d);
    worded = λ u n d g e. ground (arith, inv.worded u n d g);
    stored = λ u n d g e. ground (arith, inv.stored u n d g);
    numbered = λ u n d g i e lt step. ground (arith, inv.numbered u n d g i);
    distinct = λ u v n m d d' g h a b e. ground (arith, inv.distinct u v n m d d' g h);
    recent = λ i j hi hj step none_writes.
        inv.recent i j hi hj step (λ u n d g e. none_writes u n d g (ground arith));
    excluded = λ u v b e ne. ground (arith, free u b);
    copied = λ u l e. ground (arith, inv.copied u l);
    read = λ u l e. ground (arith, inv.read u l);
    counter = inv.counter;
  }

  -- The slot of a thread that has made its stores shows its entry.
  settled :
      (t n i : ℕ) (c : Call)
      → s.place t ≡ writing n c done
      → i < 2 ^ k
      → (slot k n + (i + 1)) % 2 ^ k ≡ s.next_tp % 2 ^ k
      → Shows (get_or s.pool (slot k n) blank) (get_elem? s.made i)
  settled t n i c here hi step =
      rw (inv.numbered t n c done i here hi step) (Partial-Holds c _ (inv.stored t n c done here))

  -- A thread that has made its stores returns: its record is one of the history.
  pub leaves-Inv :
      (t n : ℕ) (c : Call)
      → s.place t ≡ writing n c done
      → Inv k (record s { place = move s.place t outside })
  unfolding move
  leaves-Inv t n c here = record {
    slots = inv.slots;
    called = λ u d e. ground (arith, inv.called u d);
    worded = λ u m d g e. ground (arith, inv.worded u m d g);
    stored = λ u m d g e. ground (arith, inv.stored u m d g);
    numbered = λ u m d g i e lt step. ground (arith, inv.numbered u m d g i);
    distinct = λ u v m l d d' g h a b e. ground (arith, inv.distinct u v m l d d' g h);
    recent = λ i j hi hj step none_writes. elim (ℕ_discrete (slot k n) j) [
      | yes same ↦
          subst
            (λ x.
              (x + (i + 1)) % 2 ^ k ≡ s.next_tp % 2 ^ k
              → Shows (get_or s.pool x blank) (get_elem? s.made i))
            same (settled t n i c here hi) step
      | no other ↦ inv.recent i j hi hj step (λ u m d g e q. ground (arith, none_writes u m d g))
    ];
    excluded = λ u v b e ne. ground (arith, inv.excluded u v b);
    copied = λ u l e. ground (arith, inv.copied u l);
    read = λ u l e. ground (arith, inv.read u l);
    counter = inv.counter;
  }

  -- A thread takes the lock for writing.
  pub locks-Inv :
      (t : ℕ)
      → s.place t ≡ outside
      → ((u : ℕ) → is_inside (s.place u) ≡ false)
      → Inv k (record s { place = move s.place t (printing none) })
  unfolding move
  locks-Inv t here free = record {
    slots = inv.slots;
    called = λ u d e. ground (arith, inv.called u d);
    worded = λ u m d g e. ground (arith, inv.worded u m d g);
    stored = λ u m d g e. ground (arith, inv.stored u m d g);
    numbered = λ u m d g i e lt step. ground (arith, inv.numbered u m d g i);
    distinct = λ u v m l d d' g h a b e. ground (arith, inv.distinct u v m l d d' g h);
    recent = λ i j hi hj step none_writes.
        inv.recent i j hi hj step (λ u n d g e q. ground (arith, none_writes u n d g));
    excluded = λ u v b e ne. ground (arith, free u, free v);
    copied = λ u l e. ground (arith, inv.copied u l);
    read = λ u l e. ground (arith, inv.read u l);
    counter = inv.counter;
  }

  -- With the lock for writing no record is half written, and the pool holds the history.
  locked-IsRing : (t : ℕ) (b : Option ℕ) → s.place t ≡ printing b → IsRing k s.next_tp s.made s.pool
  locked-IsRing t b here = record {
    slots = inv.slots;
    recent = λ i j hi hj step.
        inv.recent i j hi hj step
          (λ u n c g e. ground (arith, inv.excluded t u b here, ℕ_discrete u t));
  }

  pub copies-Inv :
      (t : ℕ)
      → s.place t ≡ printing none
      → ((u last_tp : ℕ) → s.place u ≢ reading last_tp)
      → Inv k (record s {
        copy = s.pool;
        place = move s.place t (printing (some s.next_tp));
        seen = s.made;
      })
  unfolding move
  copies-Inv t here calm = record {
    slots = inv.slots;
    called = λ u d e. ground (arith, inv.called u d);
    worded = λ u m d g e. ground (arith, inv.worded u m d g);
    stored = λ u m d g e. ground (arith, inv.stored u m d g);
    numbered = λ u m d g i e lt step. ground (arith, inv.numbered u m d g i);
    distinct = λ u v m l d d' g h a b e. ground (arith, inv.distinct u v m l d d' g h);
    recent = λ i j hi hj step none_writes.
        inv.recent i j hi hj step (λ u n d g e q. ground (arith, none_writes u n d g));
    excluded = λ u v b e ne. ground (arith, inv.excluded u v b, inv.excluded t v none);
    copied = λ u l e. ground (arith, inv.excluded t u none, locked-IsRing t none here, inv.counter);
    read = λ u l e. ground (arith, calm u l);
    counter = inv.counter;
  }

  pub unlocks-Inv :
      (t last_tp : ℕ)
      → s.place t ≡ printing (some last_tp)
      → Inv k (record s { place = move s.place t (reading last_tp) })
  unfolding move
  unlocks-Inv t last_tp here = record {
    slots = inv.slots;
    called = λ u d e. ground (arith, inv.called u d);
    worded = λ u m d g e. ground (arith, inv.worded u m d g);
    stored = λ u m d g e. ground (arith, inv.stored u m d g);
    numbered = λ u m d g i e lt step. ground (arith, inv.numbered u m d g i);
    distinct = λ u v m l d d' g h a b e. ground (arith, inv.distinct u v m l d d' g h);
    recent = λ i j hi hj step none_writes.
        inv.recent i j hi hj step (λ u n d g e q. ground (arith, none_writes u n d g));
    excluded = λ u v b e ne. ground (arith, inv.excluded u v b);
    copied = λ u l e. ground (arith, inv.copied u l);
    read = λ u l e. ground (arith, inv.read u l, inv.copied t last_tp);
    counter = inv.counter;
  }

  pub returns-Inv :
      (t last_tp : ℕ)
      → s.place t ≡ reading last_tp
      → Inv k (record s { place = move s.place t outside })
  unfolding move
  returns-Inv t last_tp here = record {
    slots = inv.slots;
    called = λ u d e. ground (arith, inv.called u d);
    worded = λ u m d g e. ground (arith, inv.worded u m d g);
    stored = λ u m d g e. ground (arith, inv.stored u m d g);
    numbered = λ u m d g i e lt step. ground (arith, inv.numbered u m d g i);
    distinct = λ u v m l d d' g h a b e. ground (arith, inv.distinct u v m l d d' g h);
    recent = λ i j hi hj step none_writes.
        inv.recent i j hi hj step (λ u n d g e q. ground (arith, none_writes u n d g));
    excluded = λ u v b e ne. ground (arith, inv.excluded u v b);
    copied = λ u l e. ground (arith, inv.copied u l);
    read = λ u l e. ground (arith, inv.read u l);
    counter = inv.counter;
  }
