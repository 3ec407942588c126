-- ===== src/Runtrace/Print/Loop.antt =====
-- runtrace/runtrace.c, the loop of `print_trace_stack`: it prints the history, oldest entry first.
use tripping_robot.Runtrace.Print.{Style}
use tripping_robot.Runtrace.Print.{Style}
use tripping_robot.Runtrace.Print.{Style}
use tripping_robot.Runtrace.Print.{Style}
use tripping_robot.Runtrace.Print.{Style}
use tripping_robot.Runtrace.Print.{Style}
use tripping_robot.Runtrace.Print.{Style}
use tripping_robot.Runtrace.Print.{Style}
use tripping_robot.Runtrace.Print.{Style}
use tripping_robot.Runtrace.Print.{Style}
use tripping_robot.Runtrace.Print.{Style}
use tripping_robot.Runtrace.Print.{Style}
use native.Mathlib.Nat.{mod-lt, mod-eq_of_lt, mod-add-mod}
use mathlib.Core.List.{append_assoc, append-nil}
use tripping_robot.Prelude.{ℕ, zero, suc, ◌+◌, ◌-◌, ◌%◌, ◌^◌, ◌≤◌, ◌<◌, ◌≡◌, refl, sym, ap, ◌∙◌}
use tripping_robot.Prelude.{true, none, some, List, ◌++◌, arith}
use tripping_robot.Prelude.{get_elem?, add_word}
use tripping_robot.Prelude.{Option-cases, Bool-cases, ◌⊎◌, inl, inr}
use tripping_robot.Prelude.Wrap.{pow_pos}
use tripping_robot.Runtrace.{Text, Tracept}
use tripping_robot.Runtrace.Print.{
  Target, log, buffer, Progress, go, stop, round, advance, print_loop, full,
}
use tripping_robot.Runtrace.Print.Round.{
  lines_from-none, lines_from-some, round-blank, round-full, round-line, advance_lem, read, Fits,
  Room, emit-Fits,
}
use tripping_robot.Runtrace.History.{Entry, IsRing, entry_time, entry_line, lines_from, IsPrintable}

-- What the loop has done with `left` rounds when it ends: it has gone through n records, and printed
-- the lines of those that hold an entry; `skip` are left, which is none unless the buffer was full.
pub record Printout (style : Style) (target : Target) (hist : List Entry) (left : ℕ)
    (p p' : Progress) : Type 0 where
  pub n : ℕ
  pub skip : ℕ
  pub split : left ≡ skip + n
  pub text : p'.out ≡ p.out ++ (lines_from style hist n skip p.prev_time).0
  pub number : p'.tp_num ≡ add_word 32 p.tp_num n
  pub fits : Fits target p'.out
  pub ended : (skip ≡ 0) ⊎ (full target p'.out ≡ true)

add_again : (a n : ℕ) → add_word 32 (add_word 32 a 1) n ≡ add_word 32 a (suc n)
add_again a n =
    mod-add-mod (a + 1) (2 ^ 32) n
    ∙ ap (λ t. t % 2 ^ 32) {x = a + 1 + n} {y = a + suc n} (omega arith)

-- Where the loop ends without a further round.
Printout-here :
    (style : Style) (target : Target) (hist : List Entry) (left : ℕ) (p : Progress)
    → p.tp_num < 2 ^ 32
    → Fits target p.out
    → (left ≡ 0) ⊎ (full target p.out ≡ true)
    → Printout style target hist left p p
unfolding lines_from
Printout-here style target hist left p small fits ended = record {
  n = 0;
  skip = left;
  split = omega arith;
  text = sym (append-nil p.out);
  number =
      sym
        (ap (λ t. t % 2 ^ 32) {x = p.tp_num + 0} {y = p.tp_num} (omega arith) ∙ mod-eq_of_lt small);
  fits = fits;
  ended = ended;
}

module _ (style : Style) (target : Target) (hist : List Entry) (l : ℕ) (p : Progress) where
  Printout-none :
      (p' : Progress)
      → get_elem? hist l ≡ none
      → Printout style target hist l (record p { tp_num = add_word 32 p.tp_num 1 }) p'
      → Printout style target hist (suc l) p p'
  Printout-none p' h o = record {
    n = suc o.n;
    skip = o.skip;
    split = omega (arith, o.split);
    text =
        o.text
        ∙ ap (λ t. p.out ++ t.0)
            (sym (lines_from-none style hist o.n o.skip p.prev_time (rw (← o.split) h)));
    number = o.number ∙ add_again p.tp_num o.n;
    fits = o.fits;
    ended = o.ended;
  }

  Printout-some :
      (p' : Progress) (e : Entry) (t : Text)
      → get_elem? hist l ≡ some e
      → e.msg ≡ some t
      → Printout style target hist l
          (record {
            out = p.out ++ entry_line style e t p.prev_time;
            prev_time = entry_time style e;
            tp_num = add_word 32 p.tp_num 1;
          })
          p'
      → Printout style target hist (suc l) p p'
  Printout-some p' e t h m o = record {
    n = suc o.n;
    skip = o.skip;
    split = omega (arith, o.split);
    text =
        o.text
        ∙ append_assoc p.out (entry_line style e t p.prev_time)
            (lines_from style hist o.n o.skip (entry_time style e)).0
        ∙ ap (λ t. p.out ++ t.0)
            (sym (lines_from-some style hist o.n o.skip p.prev_time e t (rw (← o.split) h) m));
    number = o.number ∙ add_again p.tp_num o.n;
    fits = o.fits;
    ended = o.ended;
  }

IsPrintable-smaller : (hist : List Entry) (l : ℕ) → IsPrintable hist (suc l) → IsPrintable hist l
IsPrintable-smaller hist l h i e below = h i e (omega arith)

Room-smaller :
    (target : Target) (style : Style) (hist : List Entry) (l : ℕ)
    → Room target style hist (suc l)
    → Room target style hist l
Room-smaller log style hist l h = tt
Room-smaller (buffer size) style hist l h = (h.0, λ i e t prev below. h.1 i e t prev (omega arith))

module _ (k next : ℕ) (hist : List Entry) (xs : List Tracept) (r : IsRing k next hist xs)
    (style : Style) (target : Target) where
  abbrev Ends : ℕ → ℕ → Progress → Type 0
  Ends left i p =
      (p' : Progress) × (print_loop style target xs (2 ^ k - 1) left i p ≡ some p')
      × Printout style target hist left p p'

  -- One round, and the rest of the loop from the state that the round leaves.
  print_loop-step :
      (l i : ℕ) (tp : Tracept) (p p1 : Progress)
      → get_elem? xs i ≡ some tp
      → round style target tp p ≡ some (go p1)
      → print_loop style target xs (2 ^ k - 1) (suc l) i p
        ≡ print_loop style target xs (2 ^ k - 1) l (advance (2 ^ k - 1) i) p1
  unfolding print_loop
  print_loop-step l i tp p p1 found e = rw (found, e)

  print_loop-stop :
      (l i : ℕ) (tp : Tracept) (p : Progress)
      → get_elem? xs i ≡ some tp
      → round style target tp p ≡ some (stop p)
      → print_loop style target xs (2 ^ k - 1) (suc l) i p ≡ some p
  unfolding print_loop
  print_loop-stop l i tp p found e = rw (found, e)

  -- On a pool that holds the history, and from a slot of it from which `left` steps, at most 2 ^ k,
  -- lead to the next one to be written, with a text that fits so far, the loop of `left` rounds ends
  -- without an access outside the pool, a message or the buffer. It has gone through some records and
  -- printed the lines of those that hold an entry, oldest first, and it has left some only if the buffer
  -- was full. Every message ends inside its array, and for a buffer each line is shorter than 260.
  pub print_loop-Printout :
      (left i : ℕ) (p : Progress)
      → i < 2 ^ k
      → left ≤ 2 ^ k
      → (i + left) % 2 ^ k ≡ next % 2 ^ k
      → IsPrintable hist left
      → Room target style hist left
      → Fits target p.out
      → p.tp_num < 2 ^ 32
      → Ends left i p
  unfolding print_loop
  print_loop-Printout zero i p hi hl e printable room fits small =
      (p, refl, Printout-here style target hist 0 p small fits (inl refl))
  print_loop-Printout (suc l) i p hi hl e printable room fits small =
      let (tp, found, shows) = read k next hist xs r i l hi hl e in
      let (inside, turn) = advance_lem k i l hi in
      let again : (p1 : Progress)
          → Fits target p1.out
          → p1.tp_num < 2 ^ 32
          → Ends l (advance (2 ^ k - 1) i) p1 =
        λ p1 f b.
          print_loop-Printout l (advance (2 ^ k - 1) i) p1 inside (omega arith) (turn ∙ e)
            (IsPrintable-smaller hist l printable) (Room-smaller target style hist l room) f b in
      elim (Option-cases (get_elem? hist l)) [
        | inl old ↦
            let p1 : Progress = record p { tp_num = add_word 32 p.tp_num 1 } in
            let (p', runs, o) = again p1 fits (mod-lt _ (pow_pos 32)) in
            (
              p',
              print_loop-step l i tp p p1 found (round-blank style target tp p (rw old at shows))
                  ∙ runs,
              Printout-none style target hist l p p' old o,
            )
        | inr (en, new) ↦
            let (t, msg) = printable l en (omega arith) new in
            elim (Bool-cases (full target p.out)) [
              | inl f ↦ (
                p,
                print_loop-stop l i tp p found
                    (round-full style target tp p en (rw new at shows) f),
                Printout-here style target hist (suc l) p small fits (inr f),
              )
              | inr f ↦
                  let (written, fits') =
                    emit-Fits target style hist (suc l) l en t p.out p.prev_time room (omega arith)
                      new msg f in
                  let p1 : Progress = record {
                    out = p.out ++ entry_line style en t p.prev_time;
                    prev_time = entry_time style en;
                    tp_num = add_word 32 p.tp_num 1;
                  } in
                  let (p', runs, o) = again p1 fits' (mod-lt _ (pow_pos 32)) in
                  (
                    p',
                    print_loop-step l i tp p p1 found
                          (round-line style target tp p en t p1.out (rw new at shows) msg f written)
                        ∙ runs,
                    Printout-some style target hist l p p' en t new msg o,
                  )
            ]
      ]
