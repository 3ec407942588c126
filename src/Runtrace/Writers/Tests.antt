-- ===== src/Runtrace/Writers/Tests.antt =====
-- runtrace/runtrace.c: two threads that record and one that prints.
use tripping_robot.Prelude.{
  ℕ, ◌^◌, ◌≡◌, refl, none, some, arith, [], ◌∷◌, add_word, set, get_or, replicate,
}
use tripping_robot.Runtrace.Text.{leveled}
use tripping_robot.Runtrace.Pool.{blank}
use tripping_robot.Runtrace.Pool.Reconfigure.{blank-IsRing}
use tripping_robot.Runtrace.History.{IsMessage}
use tripping_robot.Runtrace.Life.{Call}
use tripping_robot.Runtrace.Writers.{
  Stage, at_time, at_line, at_src, at_msg, next_stage, store, Place, outside, entered, writing,
  printing, reading, Writers, move, slot, entry_of, Step, enters, takes, writes, leaves, locks,
  copies, unlocks, Run, ended, then_step, AllCalm,
}
use mathlib.Core.Option.{none-ne-some}
use tripping_robot.Prelude.{bit_and, sub_word}
use tripping_robot.Runtrace.History.{IsPrintable, lines_from}
use tripping_robot.Runtrace.Life.{entries, entries-AllPrintable}
use tripping_robot.Runtrace.Print.{log, Progress, print_loop}
use tripping_robot.Runtrace.Writers.Ring.{print_loop-copy}

abbrev a : Call
a = record {
  now = record { sec = 10; usec = 1 };
  line = 1;
  src = b'a' ∷ [];
  msg = some (b'x' ∷ []);
}

abbrev b : Call
b = record a { now = record { sec = 20; usec = 2 }; line = 2 }

abbrev c : Call
c = record a { now = record { sec = 30; usec = 3 }; line = 3; msg = none }

abbrev a_IsText : IsMessage a.msg
a_IsText = (omega arith, tt)

abbrev b_IsText : IsMessage b.msg
b_IsText = (omega arith, tt)

abbrev c_IsText : IsMessage c.msg
c_IsText = tt

-- A pool of 4 records, none of them written, and the states that the steps lead to.
abbrev idle : Writers
idle = record {
  pool = replicate (2 ^ 2) blank;
  next_tp = 0;
  copy = replicate (2 ^ 2) blank;
  place = λ u. outside;
  made = [];
  seen = [];
}

abbrev go : Writers → ℕ → Place → Writers
go s t p = record s { place = move s.place t p }

abbrev take : Writers → ℕ → Call → Writers
take s t d = record s {
  next_tp = add_word 32 s.next_tp 1;
  place = move s.place t (writing s.next_tp d at_time);
  made = entry_of d ∷ s.made;
}

abbrev write : Writers → ℕ → ℕ → Call → Stage → Writers
write s t n d g = record s {
  pool = set s.pool (slot 2 n) (store g d (get_or s.pool (slot 2 n) blank));
  place = move s.place t (writing n d (next_stage g));
}

abbrev copy_pool : Writers → ℕ → Writers
copy_pool s t = record s {
  copy = s.pool;
  place = move s.place t (printing (some s.next_tp));
  seen = s.made;
}

abbrev s1 : Writers
s1 = go idle 0 (entered a)

abbrev s2 : Writers
s2 = go s1 1 (entered b)

abbrev s3 : Writers
s3 = take s2 1 b

abbrev s4 : Writers
s4 = take s3 0 a

abbrev s5 : Writers
s5 = write s4 0 1 a at_time

abbrev s6 : Writers
s6 = write s5 1 0 b at_time

abbrev s7 : Writers
s7 = write s6 0 1 a at_line

abbrev s8 : Writers
s8 = write s7 1 0 b at_line

abbrev s9 : Writers
s9 = write s8 0 1 a at_src

abbrev s10 : Writers
s10 = write s9 1 0 b at_src

abbrev s11 : Writers
s11 = write s10 0 1 a at_msg

abbrev s12 : Writers
s12 = write s11 1 0 b at_msg

abbrev s13 : Writers
s13 = go s12 1 outside

abbrev s14 : Writers
s14 = go s13 0 outside

abbrev s15 : Writers
s15 = go s14 2 (printing none)

abbrev s16 : Writers
s16 = copy_pool s15 2

abbrev s17 : Writers
s17 = go s16 2 (reading 2)

abbrev s18 : Writers
s18 = go s17 1 (entered c)

abbrev s19 : Writers
s19 = take s18 1 c

-- A run and one more step.
infixl 4 ◌▸◌
abbrev ◌▸◌ : {k : ℕ} {s t u : Writers} → Run k s t → Step k t u → Run k s u
◌▸◌ {s} {t} {u} r x = then_step s t u r x

-- Thread 1 takes the first number and thread 0 the second; their stores alternate. Thread 2 copies the
-- pool, and while it prints thread 1 takes the next number.
abbrev together : Run 2 idle s19
unfolding move
together =
    ended idle
    ▸ enters 0 a idle refl a_IsText (λ u b. ground arith)
    ▸ enters 1 b s1 refl b_IsText (λ u b. ground arith)
    ▸ takes 1 b s2 refl
    ▸ takes 0 a s3 refl
    ▸ writes 0 1 a at_time s4 refl
    ▸ writes 1 0 b at_time s5 refl
    ▸ writes 0 1 a at_line s6 refl
    ▸ writes 1 0 b at_line s7 refl
    ▸ writes 0 1 a at_src s8 refl
    ▸ writes 1 0 b at_src s9 refl
    ▸ writes 0 1 a at_msg s10 refl
    ▸ writes 1 0 b at_msg s11 refl
    ▸ leaves 1 0 b s12 refl
    ▸ leaves 0 1 a s13 refl
    ▸ locks 2 s14 refl (λ u. ground arith)
    ▸ copies 2 s15 refl
    ▸ unlocks 2 2 s16 refl
    ▸ enters 1 c s17 refl c_IsText (λ u b. ground arith)
    ▸ takes 1 c s18 refl

together_calm : AllCalm 2 together
unfolding move slot
together_calm = (
  (
    (
      (
        (
          (
            (
              (
                (
                  (
                    (
                      (
                        (
                          (
                            (
                              (
                                (((tt, tt), tt), (λ u n d g e. ground arith)),
                                (λ u n d g e. ground arith),
                              ),
                              tt,
                            ),
                            tt,
                          ),
                          tt,
                        ),
                        tt,
                      ),
                      tt,
                    ),
                    tt,
                  ),
                  tt,
                ),
                tt,
              ),
              tt,
            ),
            tt,
          ),
          tt,
        ),
        (λ u l. ground arith),
      ),
      tt,
    ),
    tt,
  ),
  (λ u n d g e. ground arith),
)

seen-IsPrintable : (n : ℕ) → IsPrintable (entry_of a ∷ entry_of b ∷ []) n
unfolding entries
seen-IsPrintable =
    entries-AllPrintable (b ∷ a ∷ []) [] ((b_IsText, omega arith), ((a_IsText, omega arith), tt))
      (λ n i e lt at. absurd (none-ne-some e at))

print_loop-copy_example :
    (p' : Progress) × (print_loop
        (leveled 15)
        log
        s19.copy
        3
        (sub_word 32 2 (sub_word 32 2 2))
        (bit_and (sub_word 32 2 2) 3)
        (record { out = []; prev_time = 0; tp_num = sub_word 32 2 2 })
      ≡ some p')
    × (p'.out ≡ (lines_from (leveled 15) (entry_of a ∷ entry_of b ∷ []) 2 0 0).0)
unfolding move
print_loop-copy_example =
    print_loop-copy 2 2 2 idle s19 (omega arith) (λ u. refl) (omega arith) (blank-IsRing 2 0)
      together together_calm refl (leveled 15) 2 (omega arith) (seen-IsPrintable 2)

-- Thread 0 has the number 0 and has stored its time when the other three numbers of the round are
-- taken. Thread 1 is given the number 4, which is the same slot, and makes all of its stores; then
-- thread 0 goes on. The record has the time of one call and the line of the other.
abbrev overtaken : Writers
overtaken = record idle {
  pool = set (replicate 4 blank) 0 (store at_time a blank);
  next_tp = 4;
  place = move (λ u. outside) 0 (writing 0 a at_line);
}

abbrev overtaking : Writers
overtaking =
    let s = write (write (take (go overtaken 1 (entered b)) 1 b) 1 4 b at_time) 1 4 b at_line in
    write (write s 1 4 b at_src) 1 4 b at_msg

abbrev torn : Writers
torn = write (write (write overtaking 0 0 a at_line) 0 0 a at_src) 0 0 a at_msg

torn_record : ((get_or torn.pool 0 blank).sec ≡ 20) × ((get_or torn.pool 0 blank).line ≡ 1)
unfolding move slot store
torn_record = (refl, refl)

-- While thread 2 prints, thread 1 ends its call and thread 3 makes a copy: the record that thread 2 had
-- found blank is there now.
abbrev recorded : Writers
recorded =
    let s =
      write (write (write (write s18 1 2 c at_time) 1 2 c at_line) 1 2 c at_src) 1 2 c at_msg in
    go s 1 outside

copied_again :
    ((get_or s18.copy 2 blank).src ≡ none)
    × ((get_or (copy_pool (go recorded 3 (printing none)) 3).copy 2 blank).line ≡ 3)
    × ((copy_pool (go recorded 3 (printing none)) 3).place 2 ≡ reading 2)
unfolding move slot store blank
copied_again = (refl, refl, refl)
