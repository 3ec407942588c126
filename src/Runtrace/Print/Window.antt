-- ===== src/Runtrace/Print/Window.antt =====
-- runtrace/runtrace.c, where `print_trace_stack` starts to print, and what it prints from there.
use tripping_robot.Runtrace.Print.{Style}
use native.Mathlib.Nat.{pow-le-pow_right, mod-lt, mod-add-mod}
use tripping_robot.Prelude.{ℕ, ◌+◌, ◌-◌, ◌%◌, ◌^◌, ◌≤◌, ◌<◌, ◌≡◌, sym, ap, ◌∙◌, ◌⊎◌}
use tripping_robot.Prelude.{true, false, some, List, arith, bit_and}
use tripping_robot.Prelude.{sub_word}
use tripping_robot.Prelude.Bits.{and-mask}
use tripping_robot.Prelude.Wrap.{pow_pos, add-sub_word, mod-mod-pow}
use tripping_robot.Runtrace.{Text, Tracept, Runtrace}
use tripping_robot.Runtrace.Print.{Target, Progress, start_at, print_loop}
use tripping_robot.Runtrace.Print.Round.{Fits, Room}
use tripping_robot.Runtrace.Print.Loop.{Printout, print_loop-Printout}
use tripping_robot.Runtrace.History.{Entry, IsRing, IsPrintable}

module _ (s : Runtrace) (size : ℕ) (sized : s.tp_pool_size ≡ size)
    (masked : s.tp_cnt_mask ≡ size - 1) (pos : 0 < size) (limit : size ≤ 2 ^ 30) where
  -- A caller that has `unread` records to read, all of them still in the pool, goes on where it was,
  -- if the counter has not reached 2 ^ 31.
  pub start_at-unread :
      (next unread : ℕ)
      → next < 2 ^ 31
      → unread ≤ size
      → start_at s next (some (sub_word 32 next unread)) ≡ (sub_word 32 next unread, false)
  unfolding start_at
  start_at-unread next unread small held = rw (sized, masked) (ground arith)

  -- A caller that missed records is sent to the oldest one, and the loss is noted, if the counter
  -- is past the size of the pool and has not reached 2 ^ 31.
  start_at-lost :
      (next unread : ℕ)
      → next < 2 ^ 31
      → size ≤ next + 1
      → size < unread
      → unread ≤ next
      → start_at s next (some (sub_word 32 next unread)) ≡ (sub_word 32 next size, true)
  unfolding start_at
  start_at-lost next unread small full lost old = rw (sized, masked) (ground arith)

  -- While at least two records fewer were made than the pool holds, and again from 2 ^ 31 records and the size
  -- of the pool on, no number that a caller passes is taken for an overrun.
  pub start_at-unseen :
      (next q : ℕ)
      → next < 2 ^ 32
      → q < 2 ^ 32
      → (next + 1 < size) ⊎ (2 ^ 31 + size ≤ next)
      → start_at s next (some q) ≡ (q, false)
  unfolding start_at
  start_at-unseen next q small word when = rw (sized, masked) (ground arith)

-- Started `left` numbers before the counter, the loop prints the last `left` entries.
module _ (k next : ℕ) (hist : List Entry) (xs : List Tracept) (r : IsRing k next hist xs)
    (narrow : k ≤ 30) (word : next < 2 ^ 32) where
  rounds_left : (left : ℕ) → left < 2 ^ 32 → sub_word 32 next (sub_word 32 next left) ≡ left
  rounds_left left h = omega arith

  slot_left :
      (left : ℕ) → left < 2 ^ 32 → (sub_word 32 next left % 2 ^ k + left) % 2 ^ k ≡ next % 2 ^ k
  slot_left left h =
      mod-add-mod (sub_word 32 next left) (2 ^ k) left
      ∙ ap (λ t. t % 2 ^ k) {x = sub_word 32 next left + left} {y = left + sub_word 32 next left}
          (omega arith)
      ∙ sym (mod-mod-pow k 32 (left + sub_word 32 next left) (omega arith))
      ∙ ap (λ t. t % 2 ^ k) (add-sub_word 32 next left h)
      ∙ mod-mod-pow k 32 next (omega arith)

  pub print_loop-window :
      (style : Style) (target : Target) (left : ℕ) (out : Text)
      → left ≤ 2 ^ k
      → IsPrintable hist left
      → Room target style hist left
      → Fits target out
      → let p : Progress = record { out = out; prev_time = 0; tp_num = sub_word 32 next left } in
        (p' : Progress) × (print_loop style target xs
            (2 ^ k - 1)
            (sub_word 32 next (sub_word 32 next left))
            (bit_and (sub_word 32 next left) (2 ^ k - 1))
            p
          ≡ some p')
        × Printout style target hist left p p'
  print_loop-window style target left out h printable room fits =
      let small : left < 2 ^ 32 = omega (arith, pow-le-pow_right {n = 2} (omega arith) narrow) in
      rw (rounds_left left small, and-mask k (sub_word 32 next left))
        (print_loop-Printout k next hist xs r style target left (sub_word 32 next left % 2 ^ k)
          (record { out = out; prev_time = 0; tp_num = sub_word 32 next left })
          (mod-lt _ (pow_pos k)) h (slot_left left small) printable room fits
          (mod-lt _ (pow_pos 32)))
