-- ===== src/Runtrace/Device/Shown.antt =====
-- runtrace/runtrace.c, what a reader of the character device sees of the entries.
use mathlib.Core.List.{append-nil}
use tripping_robot.Prelude.{
  ℕ, zero, suc, ◌+◌, ◌^◌, ◌≤◌, ◌<◌, ◌≡◌, ◌≢◌, refl, sym, ap, subst, ◌∙◌, arith,
}
use tripping_robot.Prelude.{
  Option, none, some, List, [], ◌∷◌, ◌++◌, ◌==◌, if◌then◌else◌, length, get_elem?, length-append,
  sub_word, to_word,
}
use mathlib.Core.Option
use tripping_robot.Runtrace.{Text}
use tripping_robot.Runtrace.Text.{Style, plain, stamp, place}
use tripping_robot.Runtrace.Text.Width.{length-entry_line}
use tripping_robot.Runtrace.History.{Entry, IsPrintable, entry_time, entry_line, lines_from}
use tripping_robot.Runtrace.Print.{buffer, needed_bufsize}
use tripping_robot.Runtrace.Print.Round.{Room}
use tripping_robot.Runtrace.Trace.{Clock}
use tripping_robot.Runtrace.Trace.Ring.{entry}
use tripping_robot.Runtrace.Device.{print_default}

entry_line-pos :
    (style : Style) (e : Entry) (msg : Text) (prev : ℕ) → 0 < length (entry_line style e msg prev)
unfolding entry_line
entry_line-pos style e msg prev =
    let time = entry_time style e in
    let diff = if prev == 0 then 0 else to_word 32 (sub_word 64 time prev) in
    let line = stamp style time diff ++ place style e.src e.line ++ (style.level ++ msg) in
    omega (arith, length-append style.opening (line ++ b'\n' ∷ []), length-append line (b'\n' ∷ []))

get_elem?-known : (xs : List Entry) (i : ℕ) → i < length xs → get_elem? xs i ≢ none
get_elem?-known [] i h e = absurd (omega arith)
get_elem?-known (x ∷ xs) zero h e = clash e
  where
    clash : some x ≡ none → ⊥
    clash e = cc
get_elem?-known (x ∷ xs) (suc i) h e = get_elem?-known xs i (omega arith) e

lines_from-entry :
    (style : Style) (hist : List Entry) (n skip prev : ℕ) (x : Entry)
    → get_elem? hist (skip + n) ≡ some x
    → (lines_from style hist (suc n) skip prev).0
      ≡ entry_line style x (Option.get_or x.msg []) prev
        ++ (lines_from style hist n skip (entry_time style x)).0
unfolding lines_from
lines_from-entry style hist n skip prev x e = rw (e, lines_from) refl

-- Entries that the history has print something.
pub lines_from-pos :
    (style : Style) (hist : List Entry) (n skip prev : ℕ)
    → skip + n < length hist
    → 0 < length (lines_from style hist (suc n) skip prev).0
lines_from-pos style hist n skip prev h = go (get_elem? hist (skip + n)) refl
  where
    go :
        (o : Option Entry)
        → get_elem? hist (skip + n) ≡ o
        → 0 < length (lines_from style hist (suc n) skip prev).0
    go none e = absurd (get_elem?-known hist (skip + n) h e)
    go (some x) e =
        let rest = (lines_from style hist n skip (entry_time style x)).0 in
        let line = entry_line style x (Option.get_or x.msg []) prev in
        let whole : length (lines_from style hist (suc n) skip prev).0 ≡ length line + length rest =
          ap length (lines_from-entry style hist n skip prev x e) ∙ length-append line rest in
        omega (arith, entry_line-pos style x (Option.get_or x.msg []) prev)

first_entry :
    (e x : Entry) (hist : List Entry) (i : ℕ) → i < 1 → get_elem? (e ∷ hist) i ≡ some x → e ≡ x
first_entry e x hist zero h at = cc
first_entry e x hist (suc i) h at = absurd (omega arith)

module _ (now : Clock) (line : ℕ) (src msg : Text) (hist : List Entry)
    (short : length msg < 200) where
  abbrev new : Entry
  new = entry now line src (some msg)

  new_message : new.msg ≡ some msg
  new_message = ground arith

  pub new-IsPrintable : IsPrintable (new ∷ hist) 1
  new-IsPrintable i x lt at =
      (msg, ap (λ (y : Entry). y.msg) (sym (first_entry new x hist i lt at)) ∙ new_message)

  pub new-Room :
      (count : ℕ)
      → needed_bufsize ≤ count
      → length src ≤ 16
      → line < 2 ^ 32
      → Room (buffer count) (plain print_default) (new ∷ hist) 1
  new-Room count lo narrow word = (
    lo,
    λ i x t prev lt at m.
        let same : new ≡ x = first_entry new x hist i lt at in
        let text : some msg ≡ some t = sym new_message ∙ ap (λ (y : Entry). y.msg) same ∙ m in
        subst (λ y. length (entry_line (plain print_default) y t prev) < needed_bufsize) same
          (length-entry_line print_default new t prev narrow
            (subst (λ (y : Text). length y < 200) (injective text) short) word),
  )
    where
      injective : {x y : Text} → some x ≡ some y → x ≡ y
      injective e = cc

  -- A text that is printed of one new entry is its line.
  pub new_line :
      (n skip : ℕ) (out : Text)
      → 1 ≡ skip + n
      → out ≡ (lines_from (plain print_default) (new ∷ hist) n skip 0).0
      → 0 < length out
      → (skip ≡ 0) × (out ≡ entry_line (plain print_default) new msg 0)
  unfolding lines_from
  new_line zero skip out split text printed =
      let none_out : length out ≡ 0 = ap length text in absurd (omega arith)
  new_line (suc (suc n)) skip out split text printed = absurd (omega arith)
  new_line (suc zero) (suc skip) out split text printed = absurd (omega arith)
  new_line (suc zero) zero out split text printed = (
    refl,
    text
        ∙ append-nil (entry_line (plain print_default) new (Option.get_or new.msg []) 0)
        ∙ ap (λ (o : Option Text). entry_line (plain print_default) new (Option.get_or o []) 0)
            new_message,
  )
