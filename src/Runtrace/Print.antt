-- ===== src/Runtrace/Print.antt =====
-- runtrace/runtrace.c: the printing of the copied ring, the part of `print_trace_stack` behind the
-- lock. `none` is an access outside the pool, the message or the buffer.
pub mod Round
pub mod Loop
pub mod Window
use tripping_robot.Prelude.{ℕ, zero, suc, ◌+◌, ◌-◌, Bool, true, false}
use tripping_robot.Prelude.{Option, none, some, List, [], ◌∷◌, ◌++◌, ◌&&◌, ◌||◌, bit_and, ltb, ◌==◌}
use tripping_robot.Prelude.{if◌then◌else◌, get_elem?, ◌>>=◌, lt_int, add_word, sub_word, length}
use mathlib.Core.Option
use tripping_robot.Runtrace.{msg_max, Text, Tracept, Runtrace}
use tripping_robot.Runtrace.Text.{Style, print_trace_point}

-- The worst case that the code allows for one record.
abbrev pub needed_bufsize : ℕ
needed_bufsize = 30 + 30 + msg_max

-- Where the text goes: to stderr or the kernel log, or into a buffer of so many bytes.
pub data Target : Type 0 where
  log : Target
  buffer : ℕ → Target

-- What the loop has done: the text so far, the time of the record before, and `tp_num`.
pub record Progress : Type 0 where
  pub out : Text
  pub prev_time : ℕ
  pub tp_num : ℕ

pub data Step : Type 0 where
  go stop : Progress → Step

-- `sprintf` at the end of the text in a buffer, which also writes a NUL; `none` is a write past the
-- end of the buffer.
unfoldable pub emit : Target → Text → Text → Option Text
emit log out t = some (out ++ t)
emit (buffer size) out t = if ltb size (length out + length t + 1) then none else some (out ++ t)

-- The sanity check of the loop: too little is left of the buffer for another record.
unfoldable pub full : Target → Text → Bool
full log out = false
full (buffer size) out = ltb (size - needed_bufsize) (length out)

unfoldable pub print_record : Style → Target → Tracept → Text → Progress → Option Step
print_record style target tp src p = do
  (t, time) ← print_trace_point style tp src p.prev_time
  out ← emit target p.out t
  some (go (record { out = out; prev_time = time; tp_num = add_word 32 p.tp_num 1 }))

-- One round for the record `tp`.
unfoldable pub round : Style → Target → Tracept → Progress → Option Step
round style target tp p = elim tp.src [
  | none ↦ some (go (record p { tp_num = add_word 32 p.tp_num 1 }))
  | some src ↦ if full target p.out then some (stop p) else print_record style target tp src p
]

-- `if (++tp > tp_end) tp = tp_pool_copy;`
unfoldable pub advance : ℕ → ℕ → ℕ
advance mask i = if ltb mask (i + 1) then 0 else i + 1

-- The loop has as many rounds left as there are numbers from `tp_num` to `last_tp`, going round at
-- 2 ^ 32.
unfoldable pub print_loop : Style → Target → List Tracept → ℕ → ℕ → ℕ → Progress → Option Progress
print_loop style target pool mask zero i p = some p
print_loop style target pool mask (suc left) i p = do
  tp ← get_elem? pool i
  step ← round style target tp p
  elim step [
    | stop p' ↦ some p'
    | go p' ↦ print_loop style target pool mask left (advance mask i) p'
  ]

-- The number of the first record to print, and whether records were lost since the last call. The
-- numbers are `int`, and their sums wrap.
unfoldable pub start_at : Runtrace → ℕ → Option ℕ → ℕ × Bool
start_at s last_tp none = (sub_word 32 last_tp s.tp_pool_size, false)
start_at s last_tp (some tp_num) =
    let oldest = sub_word 32 last_tp s.tp_pool_size in
    if lt_int (sub_word 32 last_tp s.tp_cnt_mask) 0
    then (if lt_int last_tp tp_num && lt_int tp_num oldest then (oldest, true) else (tp_num, false))
    else (if lt_int tp_num oldest || lt_int last_tp tp_num then (oldest, true) else (tp_num, false))

-- The ellipsis is printed only into a buffer, and only if the first record was written.
unfoldable pub ellipsis : Target → Bool → Tracept → Text
ellipsis log overrun tp = []
ellipsis (buffer _) overrun tp = elim tp.src [
  | none ↦ []
  | some _ ↦ if overrun then b'.' ∷ b'.' ∷ b'.' ∷ b'\n' ∷ [] else []
]

-- What a call returns: a number of bytes or -1, the text that it wrote, and the new `*priv`.
pub record Printed : Type 0 where
  pub code : Option ℕ
  pub text : Text
  pub priv : Option ℕ

abbrev pub count : Target → Text → ℕ
count log out = 0
count (buffer _) out = length out

-- The text before the first record. `tp->src` is read only after an overrun.
unfoldable pub lead : Target → List Tracept → ℕ → Bool → Option Text
lead target pool i false = some []
lead target pool i true = do tp ← get_elem? pool i; some (ellipsis target true tp)

-- The copy of the pool into `tp_pool_copy`. `memcpy` of no bytes reads nothing, also from NULL.
unfoldable pub copy_pool : Runtrace → Option Runtrace
copy_pool s =
    if s.tp_pool_mem_size == 0
    then some s
    else do pool ← s.tp_pool; _ ← s.tp_pool_copy; some (record s { tp_pool_copy = some pool })

-- `print_trace_stack` behind the check of the size and the check that there is something new.
unfoldable pub print_copy : Style → Target → Option ℕ → Runtrace → Option Printed
print_copy style target priv s = do
  let first = start_at s s.next_tp priv
  let i = bit_and first.0 s.tp_cnt_mask
  let left = sub_word 32 s.next_tp first.0
  pool ← s.tp_pool_copy
  out ← lead target pool i first.1
  p ←
      print_loop style target pool s.tp_cnt_mask left i
        (record { out = out; prev_time = 0; tp_num = first.0 })
  some (record {
    code = some (count target p.out);
    text = p.out;
    priv = Option.map (λ _. p.tp_num) priv;
  })

unfoldable pub same_priv : Option ℕ → ℕ → Bool
same_priv none n = false
same_priv (some p) n = n == p
