-- ===== src/Runtrace/Print/Round.antt =====
-- runtrace/runtrace.c, one round of the loop of `print_trace_stack`: what it reads and writes.
use tripping_robot.Runtrace.Print.{Style}
use native.Mathlib.Nat.{add-mod_left}
use tripping_robot.Prelude.{ℕ, suc, ◌+◌, ◌-◌, ◌%◌, ◌^◌, ◌≤◌, ◌<◌, ◌≡◌, refl, ap, ◌∙◌}
use tripping_robot.Prelude.{true, false, none, some, List, ◌++◌, arith}
use tripping_robot.Prelude.{length, get_elem?, get_or, add_word}
use tripping_robot.Prelude.{get_elem?-get_or, dec_lt, length-append}
use tripping_robot.Prelude.Wrap.{pow_pos}
use tripping_robot.Runtrace.{Text, Tracept}
use tripping_robot.Runtrace.Text.{print_trace_point, time_of}
use tripping_robot.Runtrace.Pool.{blank}
use tripping_robot.Runtrace.Print.{
  Target, log, buffer, Progress, go, stop, print_record, round, advance, full, emit, needed_bufsize,
}
use tripping_robot.Runtrace.History.{
  Entry, IsBlank, Holds, Shows, IsRing, entry_time, entry_line, lines_from,
}

-- A slot that holds an entry prints as the entry.
pub print_trace_point-Holds :
    (style : Style) (tp : Tracept) (e : Entry) (msg : Text) (prev : ℕ)
    → Holds tp e
    → e.msg ≡ some msg
    → print_trace_point style tp e.src prev ≡ some (entry_line style e msg prev, entry_time style e)
unfolding print_trace_point time_of entry_line
print_trace_point-Holds style tp e msg prev h m = rw (h.msg, m, h.line, h.sec, h.usec)

module _ (style : Style) (hist : List Entry) (n skip prev : ℕ) where
  pub lines_from-none :
      get_elem? hist (skip + n) ≡ none
      → lines_from style hist (suc n) skip prev ≡ lines_from style hist n skip prev
  unfolding lines_from
  lines_from-none h = rw (h, lines_from)

  pub lines_from-some :
      (e : Entry) (t : Text)
      → get_elem? hist (skip + n) ≡ some e
      → e.msg ≡ some t
      → lines_from style hist (suc n) skip prev ≡ (
        entry_line style e t prev ++ (lines_from style hist n skip (entry_time style e)).0,
        (lines_from style hist n skip (entry_time style e)).1,
      )
  unfolding lines_from
  lines_from-some e t h m = rw (h, lines_from, m)

module _ (style : Style) (target : Target) (tp : Tracept) (p : Progress) where
  -- A slot that was never written is passed over.
  pub round-blank :
      IsBlank tp
      → round style target tp p ≡ some (go (record p { tp_num = add_word 32 p.tp_num 1 }))
  unfolding round
  round-blank h = rw h.unwritten

  pub round-full :
      (e : Entry) → Holds tp e → full target p.out ≡ true → round style target tp p ≡ some (stop p)
  unfolding round
  round-full e h f = rw (h.src, f)

  pub round-line :
      (e : Entry) (t out : Text)
      → Holds tp e
      → e.msg ≡ some t
      → full target p.out ≡ false
      → emit target p.out (entry_line style e t p.prev_time) ≡ some out
      → round style target tp p
        ≡ some (
            go (record {
              out = out;
              prev_time = entry_time style e;
              tp_num = add_word 32 p.tp_num 1;
            }))
  unfolding round print_record
  round-line e t out h m f w =
      ground (arith, h.src, f, print_trace_point-Holds style tp e t p.prev_time h m, w)

-- The pointer into the copy stays inside it, and goes round where the number does.
pub advance_lem :
    (k i l : ℕ)
    → i < 2 ^ k
    → (advance (2 ^ k - 1) i < 2 ^ k) × ((advance (2 ^ k - 1) i + l) % 2 ^ k ≡ (i + suc l) % 2 ^ k)
unfolding advance
advance_lem k i l h = elim (dec_lt (i + 1) (2 ^ k)) [
  | yes inside ↦ (ground arith, ground arith)
  | no end ↦
      let turn : (i + suc l) % 2 ^ k ≡ l % 2 ^ k =
        ap (λ t. t % 2 ^ k) {x = i + suc l} {y = 2 ^ k + l} (omega arith)
        ∙ add-mod_left (2 ^ k) l in
      (ground (arith, pow_pos k), ground arith)
]

-- The record that the loop reads with `suc l` rounds left is the one of age l.
module _ (k next : ℕ) (hist : List Entry) (xs : List Tracept) (r : IsRing k next hist xs) where
  pub read :
      (i l : ℕ)
      → i < 2 ^ k
      → suc l ≤ 2 ^ k
      → (i + suc l) % 2 ^ k ≡ next % 2 ^ k
      → (tp : Tracept) × (get_elem? xs i ≡ some tp) × Shows tp (get_elem? hist l)
  read i l hi hl e = (
    get_or xs i blank,
    get_elem?-get_or xs i blank (rw r.slots hi),
    r.recent l i hl hi (ap (λ t. t % 2 ^ k) {x = i + (l + 1)} {y = i + suc l} (omega arith) ∙ e),
  )

-- What is left of a buffer: the text and its NUL are inside it, and every line is shorter than the
-- code allows for.
abbrev pub Fits : Target → Text → Type 0
Fits log out = Unit {0}
Fits (buffer size) out = length out < size

abbrev pub Room : Target → Style → List Entry → ℕ → Type 0
Room log style hist n = Unit {0}
Room (buffer size) style hist n =
    (needed_bufsize ≤ size)
    × ((i : ℕ) (e : Entry) (t : Text) (prev : ℕ)
        → i < n
        → get_elem? hist i ≡ some e
        → e.msg ≡ some t
        → length (entry_line style e t prev) < needed_bufsize)

pub emit-Fits :
    (target : Target) (style : Style) (hist : List Entry) (n i : ℕ) (e : Entry) (t out : Text)
    (prev : ℕ)
    → Room target style hist n
    → i < n
    → get_elem? hist i ≡ some e
    → e.msg ≡ some t
    → full target out ≡ false
    → (emit target out (entry_line style e t prev) ≡ some (out ++ entry_line style e t prev))
      × Fits target (out ++ entry_line style e t prev)
unfolding emit full
emit-Fits log style hist n i e t out prev room hi h m f = (refl, tt)
emit-Fits (buffer size) style hist n i e t out prev room hi h m f =
    let short = room.1 i e t prev hi h m in
    let enough = room.0 in
    (
      ground (arith, short, enough),
      ground (arith, short, enough, length-append out (entry_line style e t prev)),
    )
