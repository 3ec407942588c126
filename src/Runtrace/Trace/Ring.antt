-- ===== src/Runtrace/Trace/Ring.antt =====
-- runtrace/runtrace.c, `make_tracept`: the pool keeps the last records, at every value of the
-- counter.
use tripping_robot.Runtrace.Trace.{wake_up_interruptible}
use native.Mathlib.Nat.{mod-lt, mod-eq_of_lt, add-mod_right, mod-mod}
use tripping_robot.Prelude.{ℕ, zero, suc, ◌+◌, ◌-◌, ◌%◌, ◌^◌, ◌≤◌, ◌<◌, ◌≡◌, refl, sym, ap, ◌∙◌}
use tripping_robot.Prelude.{Option, none, some, List, [], ◌∷◌, arith, bit_and}
use tripping_robot.Prelude.{length, get_elem?, get_or, set, ltb, if◌then◌else◌, add_word}
use tripping_robot.Prelude.{length-set, get_or-set_self, get_or-set_ne, get_elem?-get_or}
use tripping_robot.Prelude.Bits.{and-mask, and_comm}
use tripping_robot.Prelude.Wrap.{pow_pos, step_back, steps_elsewhere}
use tripping_robot.Runtrace.{Build, msg_max, Text, Tracept, Runtrace, ok}
use tripping_robot.Runtrace.Text.{c_string}
use tripping_robot.Runtrace.Pool.{Platform, blank}
use tripping_robot.Runtrace.Trace.{Clock, strncpy, store_msg, fill, wakes, make_tracept}
use tripping_robot.Runtrace.History.{Entry, IsText, IsMessage, message, Holds, Shows, IsRing, Ring}

length-strncpy : (n : ℕ) (t : Text) → length (strncpy n t) ≡ n
unfolding strncpy
length-strncpy zero t = refl
length-strncpy (suc n) [] = ap suc (length-strncpy n [])
length-strncpy (suc n) (c ∷ t) = ap suc (length-strncpy n t)

-- What `strncpy` stores reads back, if it leaves room for the NUL; otherwise there is none.
pub c_string-strncpy :
    (n : ℕ) (t : Text)
    → IsText t
    → c_string (strncpy n t) ≡ (if ltb (length t) n then some t else none)
unfolding c_string strncpy
c_string-strncpy zero t h = ground arith
c_string-strncpy (suc n) [] h = ground arith
c_string-strncpy (suc n) (c ∷ t) h = ground (arith, c_string-strncpy n t h.1)

-- The message of the new record, and the size of its array.
pub stored :
    (msg : Option Text) (old : List ℕ)
    → IsMessage msg
    → length old ≡ msg_max
    → (c_string (store_msg msg old) ≡ message msg) × (length (store_msg msg old) ≡ msg_max)
unfolding store_msg c_string
stored none [] h e = absurd (omega arith)
stored none (c ∷ old) h e = (refl, e)
stored (some t) old h e = (c_string-strncpy msg_max t h, length-strncpy msg_max t)

abbrev pub entry : Clock → ℕ → Text → Option Text → Entry
entry now line src msg = record {
  sec = now.sec;
  usec = now.usec;
  line = line;
  src = src;
  msg = message msg;
}

pub Shows-array : (tp : Tracept) (e : Option Entry) → Shows tp e → length tp.msg ≡ msg_max
Shows-array tp none h = h.array
Shows-array tp (some e) h = h.array

module _ (k next : ℕ) (hist : List Entry) (xs : List Tracept) (r : IsRing k next hist xs)
    (narrow : k ≤ 32) where
  slot-lt : next % 2 ^ k < 2 ^ k
  slot-lt = mod-lt next (pow_pos k)

  -- The slot that `make_tracept` takes is in the pool; it holds the oldest record, or none.
  oldest-array : length (get_or xs (next % 2 ^ k) blank).msg ≡ msg_max
  oldest-array = Shows-array _ (get_elem? hist (2 ^ k - 1)) (
      r.recent (2 ^ k - 1) (next % 2 ^ k) (omega (arith, pow_pos k)) slot-lt (
        ap (λ t. (next % 2 ^ k + t) % 2 ^ k) {x = 2 ^ k - 1 + 1} {y = 2 ^ k}
          (omega (arith, pow_pos k))
        ∙ add-mod_right (next % 2 ^ k) (2 ^ k)
        ∙ mod-mod next (2 ^ k)))

  write_recent :
      (e : Entry) (tp : Tracept)
      → Holds tp e
      → (i j : ℕ) → i < 2 ^ k
      → j < 2 ^ k
      → (1 + (j + i)) % 2 ^ k ≡ add_word 32 next 1 % 2 ^ k
      → Shows (get_or (set xs (next % 2 ^ k) tp) j blank) (get_elem? (e ∷ hist) i)
  write_recent e tp h zero j hi hj step =
      let here : next % 2 ^ k ≡ j =
        sym (step_back k 32 (j + 0) next narrow step)
        ∙ ap (λ t. t % 2 ^ k) {x = j + 0} {y = j} (omega arith)
        ∙ mod-eq_of_lt hj in
      rw (here, get_or-set_self xs j tp blank (rw r.slots hj)) h
  write_recent e tp h (suc i) j hi hj step =
      let same : (j + (i + 1)) % 2 ^ k ≡ next % 2 ^ k =
        ap (λ t. t % 2 ^ k) {x = j + (i + 1)} {y = j + suc i} (omega arith)
        ∙ step_back k 32 (j + suc i) next narrow step in
      rw (get_or-set_ne xs (next % 2 ^ k) j tp blank (steps_elsewhere (2 ^ k) i j next hj hi same))
        (r.recent i j (omega arith) hj same)

  write-IsRing :
      (e : Entry) (tp : Tracept)
      → Holds tp e
      → IsRing k (add_word 32 next 1) (e ∷ hist) (set xs (next % 2 ^ k) tp)
  write-IsRing e tp h = record {
    slots = length-set xs (next % 2 ^ k) tp ∙ r.slots;
    recent = λ i j hi hj step.
        write_recent e tp h i j hi hj
          (ap (λ t. t % 2 ^ k) {x = 1 + (j + i)} {y = j + (i + 1)} (omega arith) ∙ step);
  }

mask_slot :
    (k : ℕ) (s : Runtrace) (hist : List Entry)
    → Ring k hist s
    → bit_and s.tp_cnt_mask s.next_tp ≡ s.next_tp % 2 ^ k
mask_slot k s hist r =
    ap (λ t. bit_and t s.next_tp) r.mask ∙ and_comm (2 ^ k - 1) s.next_tp ∙ and-mask k s.next_tp

-- In a ready facility `make_tracept` ends without a fault, abort or deadlock, and the pool then
-- holds the history with the new entry in front: the last 2 ^ k entries, whatever the counter is
-- and wherever it wraps. The counter is one more, at 32 bits, and the print buffers are as they were. In the
-- kernel the sleeping readers are woken once; user space is the file without that call, which does
-- not compile there. `src` and `msg` are C strings.
pub make_tracept-Ring :
    (build : Build) (platform : Platform) (now : Clock) (line : ℕ) (src : Text) (msg : Option Text)
    (k : ℕ) (hist : List Entry) (s : Runtrace)
    → IsMessage msg
    → Ring k hist s
    → (s' : Runtrace) × (make_tracept build platform now line src msg s ≡ ok tt s')
      × (s'.next_tp ≡ add_word 32 s.next_tp 1)
      × (s'.vsprint_buffer ≡ s.vsprint_buffer)
      × (s'.wakeups ≡ s.wakeups + wakes build)
      × Ring k (entry now line src msg ∷ hist) s'
unfolding make_tracept fill wake_up_interruptible
make_tracept-Ring build platform now line src msg k hist s text r =
    let i = s.next_tp % 2 ^ k in
    let tp = fill now line src msg (get_or r.pool i blank) in
    let new =
      stored msg (get_or r.pool i blank).msg text
        (oldest-array k s.next_tp hist r.pool r.ring (omega (arith, r.limit))) in
    (
      record s {
        next_tp = add_word 32 s.next_tp 1;
        tp_pool = some (set r.pool i tp);
        wakeups = s.wakeups + wakes build;
      },
      ground (
        arith,
        mask_slot k s hist r,
        get_elem?-get_or r.pool i blank,
        slot-lt k s.next_tp hist r.pool r.ring (omega (arith, r.limit)),
        r.ring.slots,
      ),
      refl,
      refl,
      refl,
      record {
        pool = set r.pool i tp;
        unlocked = r.unlocked;
        limit = r.limit;
        size = r.size;
        mask = r.mask;
        mem = r.mem;
        counter = mod-lt _ (pow_pos 32);
        held = refl;
        copy = r.copy;
        copied = r.copied;
        ring =
            write-IsRing k s.next_tp hist r.pool r.ring (omega (arith, r.limit))
              (entry now line src msg) tp
              (record {
                sec = refl;
                usec = refl;
                line = refl;
                src = refl;
                msg = new.0;
                array = new.1;
              });
      },
    )
