-- ===== src/Runtrace/Writers/Inv/Take.antt =====
-- runtrace/runtrace.c, `make_tracept`: the counter is read and moved on.
use tripping_robot.Prelude.{
  ℕ, zero, suc, ◌+◌, ◌-◌, ◌%◌, ◌^◌, ◌≤◌, ◌<◌, ◌≡◌, ◌≢◌, refl, sym, ap, ◌∙◌, arith,
}
use tripping_robot.Prelude.{some, ◌∷◌, length, get_elem?, get_or}
use tripping_robot.Prelude.{add_word}
use native.Mathlib.Nat.{mod-lt, mod-eq_of_lt, add-mod_right, mod-mod}
use tripping_robot.Prelude.Wrap.{pow_pos, step_back, steps_elsewhere}
use tripping_robot.Runtrace.{msg_max}
use tripping_robot.Runtrace.Trace.Ring.{Shows-array}
use tripping_robot.Runtrace.Pool.{blank}
use tripping_robot.Runtrace.History.{Shows}
use tripping_robot.Runtrace.Life.{Call}
use tripping_robot.Runtrace.Writers.{
  Stage, at_time, entered, writing, Writers, move, slot, entry_of,
}
use tripping_robot.Runtrace.Writers.Stores.{slot-mod, slot-lt}
use tripping_robot.Runtrace.Writers.Inv.{IsFree, Inv}

module _ (k : ℕ) (s : Writers) (inv : Inv k s) where
  module _ (t : ℕ) (c : Call) (here : s.place t ≡ entered c) (narrow : k ≤ 32)
      (calm : (u n : ℕ) (d : Call) (g : Stage)
        → s.place u ≡ writing n d g
        → slot k n ≢ slot k s.next_tp) where
    abbrev next : ℕ
    next = s.next_tp

    slot_free : IsFree k s.place (slot k next)
    slot_free = calm

    -- The slot that is taken holds a record, or none, and has its array.
    taken-array : length (get_or s.pool (slot k next) blank).msg ≡ msg_max
    taken-array = Shows-array _ (get_elem? s.made (2 ^ k - 1)) (
        inv.recent (2 ^ k - 1) (slot k next) (omega (arith, pow_pos k)) (slot-lt k next)
          (ap (λ x. (slot k next + x) % 2 ^ k) {x = 2 ^ k - 1 + 1} {y = 2 ^ k}
              (omega (arith, pow_pos k))
            ∙ add-mod_right (slot k next) (2 ^ k)
            ∙ ap (λ x. x % 2 ^ k) (slot-mod k next)
            ∙ mod-mod next (2 ^ k))
          slot_free)

    -- Where i + 1 steps lead to the counter moved on, i steps lead to the counter.
    before :
        (i j : ℕ)
        → (j + (i + 1)) % 2 ^ k ≡ add_word 32 next 1 % 2 ^ k
        → (j + i) % 2 ^ k ≡ next % 2 ^ k
    before i j step =
        step_back k 32 (j + i) next narrow
          (ap (λ x. x % 2 ^ k) {x = 1 + (j + i)} {y = j + (i + 1)} (omega arith) ∙ step)

    first_slot :
        (j : ℕ) → j < 2 ^ k → (j + (0 + 1)) % 2 ^ k ≡ add_word 32 next 1 % 2 ^ k → j ≡ slot k next
    first_slot j hj step =
        sym (mod-eq_of_lt hj)
        ∙ ap (λ x. x % 2 ^ k) {x = j} {y = j + 0} (omega arith)
        ∙ before 0 j step
        ∙ sym (slot-mod k next)

    -- The new number is the newest of the history, and the others are one step older.
    newest :
        (i : ℕ)
        → i < 2 ^ k
        → (slot k next + (i + 1)) % 2 ^ k ≡ add_word 32 next 1 % 2 ^ k
        → get_elem? (entry_of c ∷ s.made) i ≡ some (entry_of c)
    newest zero hi step = refl
    newest (suc i) hi step = absurd (
        steps_elsewhere (2 ^ k) i (slot k next) next (slot-lt k next) hi
          (ap (λ x. (slot k next + x) % 2 ^ k) {x = i + 1} {y = suc i} (omega arith)
            ∙ before (suc i) (slot k next) step)
          (sym (slot-mod k next)))

    older :
        (u m : ℕ) (d : Call) (g : Stage) (i : ℕ)
        → s.place u ≡ writing m d g
        → i < 2 ^ k
        → (slot k m + (i + 1)) % 2 ^ k ≡ add_word 32 next 1 % 2 ^ k
        → get_elem? (entry_of c ∷ s.made) i ≡ some (entry_of d)
    older u m d g zero there hi step =
        absurd (calm u m d g there (first_slot (slot k m) (slot-lt k m) step))
    older u m d g (suc i) there hi step = inv.numbered u m d g i there (omega arith) (
        ap (λ x. (slot k m + x) % 2 ^ k) {x = i + 1} {y = suc i} (omega arith)
        ∙ before (suc i) (slot k m) step)

    takes-recent :
        (i j : ℕ)
        → i < 2 ^ k
        → j < 2 ^ k
        → (j + (i + 1)) % 2 ^ k ≡ add_word 32 next 1 % 2 ^ k
        → IsFree k (move s.place t (writing next c at_time)) j
        → Shows (get_or s.pool j blank) (get_elem? (entry_of c ∷ s.made) i)
    unfolding move
    takes-recent zero j hi hj step free =
        absurd (free t next c at_time (ground arith) (sym (first_slot j hj step)))
    takes-recent (suc i) j hi hj step free =
        inv.recent i j (omega arith) hj
          (ap (λ x. (j + x) % 2 ^ k) {x = i + 1} {y = suc i} (omega arith) ∙ before (suc i) j step)
          (λ u m d g e q. ground (arith, free u m d g))

    -- A thread in `make_tracept` takes the number of its record.
    pub takes-Inv : Inv k (record s {
      next_tp = add_word 32 next 1;
      place = move s.place t (writing next c at_time);
      made = entry_of c ∷ s.made;
    })
    unfolding move
    takes-Inv = record {
      slots = inv.slots;
      called = λ u d e. ground (arith, inv.called u d);
      worded = λ u m d g e. ground (arith, inv.worded u m d g, inv.called t c);
      stored = λ u m d g e. ground (arith, inv.stored u m d g, taken-array);
      numbered = λ u m d g i e hi step. ground (arith, newest i hi, older u m d g i);
      distinct = λ u v m l d d' g h a b e.
          ground (arith, inv.distinct u v m l d d' g h, calm u m d g, calm v l d' h);
      recent = takes-recent;
      excluded = λ u v b e ne. ground (arith, inv.excluded u v b, inv.excluded u t b);
      copied = λ u l e. ground (arith, inv.copied u l);
      read = λ u l e. ground (arith, inv.read u l);
      counter = mod-lt _ (pow_pos 32);
    }
