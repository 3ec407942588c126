-- ===== src/Runtrace/Device/Open.antt =====
-- runtrace/runtrace.c, the files that are open on the character device.
use tripping_robot.Prelude.{ℕ, zero, suc, ◌+◌, ◌-◌, ◌≤◌, ◌≡◌, refl, sym, ap, ◌∙◌, arith}
use tripping_robot.Prelude.{true, false, sub_word, inl, inr, ◌⊎◌}
use tripping_robot.Runtrace.{Runtrace, Outcome, ok}
use tripping_robot.Runtrace.Device.{Opened, opened, denied, busy, cdev_open, cdev_release}

-- The states after calls of the handlers, with n files open, after m calls that were refused, and with
-- the references to the module.
pub data Uses : ℕ → ℕ → ℕ → Runtrace → Type 0 where
  start : (s : Runtrace) → s.cdev_readers ≡ 0 → Uses 0 0 0 s
  opens :
      (n m refs : ℕ) (s : Runtrace) (pos refs' : ℕ) (s' : Runtrace)
      → Uses n m refs s
      → cdev_open true refs s ≡ ok (opened pos, refs') s'
      → Uses (suc n) m refs' s'
  refuses :
      (n m refs : ℕ) (s : Runtrace) (refs' : ℕ) (s' : Runtrace)
      → Uses n m refs s
      → cdev_open true refs s ≡ ok (busy, refs') s'
      → Uses n (suc m) refs' s'
  unloads :
      (n m refs : ℕ) (s : Runtrace) (refs' : ℕ) (s' : Runtrace)
      → Uses n m refs s
      → cdev_open false refs s ≡ ok (denied, refs') s'
      → Uses n m refs' s'
  closes :
      (n m refs : ℕ) (s : Runtrace) (refs' : ℕ) (s' : Runtrace)
      → Uses (suc n) m refs s
      → cdev_release refs s ≡ ok refs' s'
      → Uses n m refs' s'

-- The outcome of `cdev_open` that a module reference was given for, with n files open before.
OpenOutcome : ℕ → ℕ → Runtrace → Type 0
OpenOutcome n refs s =
    ((n ≤ 1)
      × (pos : ℕ) × (s' : Runtrace) × (cdev_open true refs s ≡ ok (opened pos, refs + 1) s')
      × (s'.cdev_readers ≡ suc n))
    ⊎ ((n ≡ 2)
        × (s' : Runtrace) × (cdev_open true refs s ≡ ok (busy, refs + 1) s')
        × (s'.cdev_readers ≡ n))

abbrev moved : Runtrace → ℕ → Runtrace
moved s n = record s { cdev_readers = n }

abbrev first_pos : Runtrace → ℕ
first_pos s = sub_word 32 (sub_word 32 s.next_tp s.tp_pool_size) 1

cdev_open-outcome : (n refs : ℕ) (s : Runtrace) → n ≤ 2 → s.cdev_readers ≡ n → OpenOutcome n refs s
unfolding OpenOutcome cdev_open
cdev_open-outcome zero refs s few counted =
    inl (omega arith, first_pos s, moved s 1, simp counted, refl)
cdev_open-outcome (suc zero) refs s few counted =
    inl (omega arith, first_pos s, moved s 2, simp counted, refl)
cdev_open-outcome (suc (suc zero)) refs s few counted = inr (refl, moved s 2, simp counted, refl)
cdev_open-outcome (suc (suc (suc n))) refs s few counted = absurd (omega arith)

-- Two equations for one outcome.
ok-same :
    {A : Type 0} (m : Outcome A) (a b : A) (s t : Runtrace)
    → m ≡ ok a s
    → m ≡ ok b t
    → (a ≡ b) × (s.cdev_readers ≡ t.cdev_readers)
ok-same {A} m a b s t e e' = (ap value_of (sym e ∙ e'), ap readers_of (sym e ∙ e'))
  where
    value_of : Outcome A → A
    value_of (ok x _) = x
    value_of _ = a

    readers_of : Outcome A → ℕ
    readers_of (ok _ u) = u.cdev_readers
    readers_of _ = 0

less : (n : ℕ) → suc n ≤ 2 → sub_word 32 (suc n) 1 ≡ n
less n h = omega arith

clash : (pos : ℕ) → opened pos ≡ busy → ⊥
clash pos e = cc

-- Whatever calls of the handlers were made, in whatever order, no more than two files are open, the
-- number of readers is the number of open files, and the module has a reference for each open file and
-- for each call that returned -EBUSY. The program starts with no reader and no reference.
pub Uses-counts :
    (n m refs : ℕ) (s : Runtrace)
    → Uses n m refs s
    → (n ≤ 2) × (s.cdev_readers ≡ n) × (refs ≡ n + m)
unfolding cdev_open cdev_release OpenOutcome
Uses-counts _ _ _ _ (start s idle) = (omega arith, idle, refl)
Uses-counts _ _ _ _ (opens n m refs s pos refs' s' u runs) =
    let (few, counted, held) = Uses-counts n m refs s u in
    elim (cdev_open-outcome n refs s few counted) [
      | inl (room, pos', t, gives, readers) ↦
          let (same, count) =
            ok-same (cdev_open true refs s) (opened pos, refs') (opened pos', refs + 1) s' t runs
              gives in
          (omega arith, count ∙ readers, ap (λ (t : Opened × ℕ). t.1) same ∙ omega arith)
      | inr (_, t, gives, readers) ↦
          let (same, _) =
            ok-same (cdev_open true refs s) (opened pos, refs') (busy, refs + 1) s' t runs gives in
          absurd (clash pos (ap (λ (t : Opened × ℕ). t.0) same))
    ]
Uses-counts _ _ _ _ (refuses n m refs s refs' s' u runs) =
    let (few, counted, held) = Uses-counts n m refs s u in
    elim (cdev_open-outcome n refs s few counted) [
      | inl (room, pos', t, gives, readers) ↦
          let (same, _) =
            ok-same (cdev_open true refs s) (busy, refs') (opened pos', refs + 1) s' t runs gives in
          absurd (clash pos' (sym (ap (λ (t : Opened × ℕ). t.0) same)))
      | inr (_, t, gives, readers) ↦
          let (same, count) =
            ok-same (cdev_open true refs s) (busy, refs') (busy, refs + 1) s' t runs gives in
          (few, count ∙ readers, ap (λ (t : Opened × ℕ). t.1) same ∙ omega arith)
    ]
Uses-counts _ _ _ _ (unloads n m refs s refs' s' u runs) =
    let (few, counted, held) = Uses-counts n m refs s u in
    let (same, count) =
      ok-same (cdev_open false refs s) (denied, refs') (denied, refs) s' s runs refl in
    (few, count ∙ counted, ap (λ (t : Opened × ℕ). t.1) same ∙ held)
Uses-counts _ _ _ _ (closes n m refs s refs' s' u runs) =
    let (few, counted, held) = Uses-counts (suc n) m refs s u in
    let (same, count) =
      ok-same (cdev_release refs s) refs' (refs - 1) s' (moved s (sub_word 32 s.cdev_readers 1))
        runs refl in
    (omega arith, count ∙ ap (λ c. sub_word 32 c 1) counted ∙ less n few, same ∙ omega arith)
