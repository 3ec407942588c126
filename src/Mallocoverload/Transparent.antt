-- ===== src/Mallocoverload/Transparent.antt =====
-- mallocoverload/mallocoverload.c, a program's calls against those of libc.
use mathlib.Core.List.{append_assoc, append-nil}
use tripping_robot.Prelude.{
  ℕ, ◌≡◌, refl, sym, ap, ◌∙◌, arith, Bool, true, false, List, [], ◌∷◌, ◌++◌, ◌||◌, inl, inr,
  Bool-cases,
}
use tripping_robot.Mallocoverload.{
  Message, malloc_line, free_line, Overload, print, call_malloc, malloc, call_free, free,
}

pub data Call : Type 0 where
  mallocs frees : ℕ → Call

-- The message of a call that reaches libc.
unfoldable pub line_of : Call → Message
line_of (mallocs size) = malloc_line size
line_of (frees p) = free_line p

unfoldable pub lines_of : List Call → List Message
lines_of [] = []
lines_of (c ∷ cs) = line_of c ∷ lines_of cs

-- The calls that a program makes, each with whether `dlsym` would find its function.
abbrev pub Calls : Type 0
Calls = List (Bool × Call)

unfoldable pub plain : Calls → List Call
plain [] = []
plain ((_, c) ∷ cs) = c ∷ plain cs

-- The first call of each function finds it, or it was found before.
abbrev pub IsServed : Bool → Bool → Calls → Type 0
IsServed has_malloc has_free [] = Unit {0}
IsServed has_malloc has_free ((found, mallocs _) ∷ cs) =
    ((has_malloc || found) ≡ true) × IsServed true has_free cs
IsServed has_malloc has_free ((found, frees _) ∷ cs) =
    ((has_free || found) ≡ true) × IsServed has_malloc true cs

module _ {Heap : Type 0} (malloc_of_libc : ℕ → Heap → ℕ × Heap)
    (free_of_libc : ℕ → Heap → Heap) where
  -- The results of the calls of `malloc`, and the state after all calls.
  unfoldable pub run : Calls → Overload Heap → List ℕ × Overload Heap
  run [] s = ([], s)
  run ((found, mallocs size) ∷ cs) s =
      let (p, s') = malloc malloc_of_libc found size s in let (ps, s'') = run cs s' in (p ∷ ps, s'')
  run ((found, frees p) ∷ cs) s = run cs (free free_of_libc found p s)

  -- The same with libc alone.
  unfoldable pub libc_run : List Call → Heap → List ℕ × Heap
  libc_run [] h = ([], h)
  libc_run (mallocs size ∷ cs) h =
      let (p, h') = malloc_of_libc size h in let (ps, h'') = libc_run cs h' in (p ∷ ps, h'')
  libc_run (frees p ∷ cs) h = libc_run cs (free_of_libc p h)

  found_lem : (had found : Bool) → had ≡ false → (had || found) ≡ true → found ≡ true
  found_lem had found unset h = ground arith

  malloc-served :
      (found : Bool) (size : ℕ) (s : Overload Heap)
      → (s.libc_malloc || found) ≡ true
      → malloc malloc_of_libc found size s
        ≡ call_malloc malloc_of_libc size (record s { libc_malloc = true })
  unfolding malloc call_malloc
  malloc-served found size s h = elim (Bool-cases s.libc_malloc) [
    | inl set ↦ simp set
    | inr unset ↦ simp (unset, found_lem s.libc_malloc found unset h)
  ]

  free-served :
      (found : Bool) (p : ℕ) (s : Overload Heap)
      → (s.libc_free || found) ≡ true
      → free free_of_libc found p s ≡ call_free free_of_libc p (record s { libc_free = true })
  unfolding free call_free
  free-served found p s h = elim (Bool-cases s.libc_free) [
    | inl set ↦ simp set
    | inr unset ↦ simp (unset, found_lem s.libc_free found unset h)
  ]

  -- A program whose first call of each function finds it with `dlsym` gets from `malloc` what libc
  -- alone would give it, and leaves libc's heap as libc alone would, whatever libc does and whatever
  -- `dlsym` says later; one line is printed for each call, in the order of the calls.
  pub run-libc :
      (cs : Calls) (s : Overload Heap)
      → IsServed s.libc_malloc s.libc_free cs
      → ((run cs s).0 ≡ (libc_run (plain cs) s.heap).0)
        × ((run cs s).1.heap ≡ (libc_run (plain cs) s.heap).1)
        × ((run cs s).1.printed ≡ s.printed ++ lines_of (plain cs))
  unfolding run libc_run plain lines_of line_of call_malloc call_free
  run-libc [] s h = (refl, refl, sym (append-nil s.printed))
  run-libc ((found, mallocs size) ∷ cs) s h =
      let (p, heap) = malloc_of_libc size s.heap in
      let s' = record (print (malloc_line size) s) { libc_malloc = true; heap = heap } in
      let (results, heaps, lines) = run-libc cs s' h.1 in
      rw (malloc-served found size s h.0) (
        ap (λ ps. p ∷ ps) results,
        heaps,
        lines ∙ append_assoc s.printed (malloc_line size ∷ []) (lines_of (plain cs)),
      )
  run-libc ((found, frees p) ∷ cs) s h =
      let s' = record (print (free_line p) s) { libc_free = true; heap = free_of_libc p s.heap } in
      let (results, heaps, lines) = run-libc cs s' h.1 in
      let served = ap (run cs) (free-served found p s h.0) in
      (
        ap (λ t. t.0) served ∙ results,
        ap (λ t. t.1.heap) served ∙ heaps,
        ap (λ t. t.1.printed) served
            ∙ lines
            ∙ append_assoc s.printed (free_line p ∷ []) (lines_of (plain cs)),
      )
