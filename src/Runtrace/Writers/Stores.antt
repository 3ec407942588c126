-- ===== src/Runtrace/Writers/Stores.antt =====
-- runtrace/runtrace.c, `make_tracept`: the four stores, made one after the other.
use tripping_robot.Prelude.{ℕ, ◌-◌, ◌%◌, ◌^◌, ◌<◌, ◌≡◌, refl, ◌∙◌, some, length}
use tripping_robot.Prelude.Bits.{and-mask, and_comm}
use tripping_robot.Prelude.Wrap.{pow_pos}
use native.Mathlib.Nat.{mod-lt}
use tripping_robot.Runtrace.{msg_max, Tracept}
use tripping_robot.Runtrace.Text.{c_string}
use tripping_robot.Runtrace.Trace.{fill}
use tripping_robot.Runtrace.Trace.Ring.{stored}
use tripping_robot.Runtrace.History.{IsMessage, message, Holds}
use tripping_robot.Runtrace.Life.{Call}
use tripping_robot.Runtrace.Writers.{
  Stage, at_time, at_line, at_src, at_msg, done, next_stage, store, slot, entry_of,
}

-- The record has its array and the time of the call.
abbrev IsTimed : Call → Tracept → Type 0
IsTimed c tp = (tp.sec ≡ c.now.sec) × (tp.usec ≡ c.now.usec) × (length tp.msg ≡ msg_max)

-- What a record holds of a call when the stores before the stage are made.
abbrev pub Partial : Stage → Call → Tracept → Type 0
Partial at_time c tp = length tp.msg ≡ msg_max
Partial at_line c tp = IsTimed c tp
Partial at_src c tp = (tp.line ≡ c.line) × IsTimed c tp
Partial at_msg c tp = (tp.src ≡ some c.src) × (tp.line ≡ c.line) × IsTimed c tp
Partial done c tp =
    (c_string tp.msg ≡ message c.msg) × (tp.src ≡ some c.src) × (tp.line ≡ c.line) × IsTimed c tp

pub Partial-array : (g : Stage) (c : Call) (tp : Tracept) → Partial g c tp → length tp.msg ≡ msg_max
Partial-array at_time c tp h = h
Partial-array at_line c tp h = h.2
Partial-array at_src c tp h = h.1.2
Partial-array at_msg c tp h = h.2.2
Partial-array done c tp h = h.3.2

pub store-Partial :
    (g : Stage) (c : Call) (tp : Tracept)
    → IsMessage c.msg
    → Partial g c tp
    → Partial (next_stage g) c (store g c tp)
unfolding store
store-Partial at_time c tp m h = (refl, refl, h)
store-Partial at_line c tp m h = (refl, h)
store-Partial at_src c tp m h = (refl, h.0, h.1)
store-Partial at_msg c tp m (src, line, timed) =
    let (text, size) = stored c.msg tp.msg m timed.2 in (text, src, line, (timed.0, timed.1, size))
store-Partial done c tp m h = h

pub Partial-Holds : (c : Call) (tp : Tracept) → Partial done c tp → Holds tp (entry_of c)
Partial-Holds c tp (msg, src, line, timed) = record {
  sec = timed.0;
  usec = timed.1;
  line = line;
  src = src;
  msg = msg;
  array = timed.2;
}

-- With no other thread in between, the four stores fill the record as the sequential function does.
pub store-fill :
    (c : Call) (tp : Tracept)
    → store at_msg c (store at_src c (store at_line c (store at_time c tp)))
      ≡ fill c.now c.line c.src c.msg tp
unfolding store fill
store-fill c tp = refl

pub slot-mod : (k n : ℕ) → slot k n ≡ n % 2 ^ k
unfolding slot
slot-mod k n = and_comm (2 ^ k - 1) n ∙ and-mask k n

pub slot-lt : (k n : ℕ) → slot k n < 2 ^ k
slot-lt k n = rw slot-mod (mod-lt n (pow_pos k))
