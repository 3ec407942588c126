-- ===== src/Runtrace/Pool/Reconfigure.antt =====
-- runtrace/runtrace.c, `runtrace_reconfigure`: which sizes it takes, and what it leaves.
use native.Mathlib.Nat.{pow-le-pow_right}
use tripping_robot.Prelude.{ℕ, zero, suc, ◌-◌, ◌*◌, ◌/◌, ◌%◌, ◌^◌, ◌≤◌, ◌<◌, ◌≡◌, refl, ap, ◌∙◌}
use tripping_robot.Prelude.{true, false, some, List, [], arith}
use tripping_robot.Prelude.{
  length-replicate, get_or-replicate, replicate, lt_int, bit_and, sub_word, ◌==◌, if◌then◌else◌,
}
use tripping_robot.Prelude.Bits.{and_pred_pow}
use tripping_robot.Prelude.Wrap.{pow_pos}
use tripping_robot.Runtrace.{wrlock, wrunlock, pure, Build, Container, Runtrace, ok, fault, success}
use tripping_robot.Runtrace.Pool.{
  Platform, any_null, blank, allocate, link_containers, smear, set_up, resize, runtrace_reconfigure,
  sizeof_tracept, to_size,
}
use tripping_robot.Runtrace.History.{IsBlank, IsRing, Ring}
use tripping_robot.Runtrace.Pool.Containers.{
  IsContainerRing, smeared, smear-link_containers, smeared-IsContainerRing,
}

mem_lem : (k : ℕ) → (2 ^ k * sizeof_tracept == 0) ≡ false
mem_lem k = ground (arith, pow_pos k)

-- A size in range: no product with the size of a record leaves `int`.
pub record IsReady (platform : Platform) (k threads : ℕ) (s : Runtrace) : Type 0 where
  pub lower : 2 ≤ k
  pub upper : k ≤ 23
  pub some_thread : 1 ≤ threads
  pub narrow : threads < 2 ^ 31
  pub unlocked : s.writer ≡ false
  pub counter : s.next_tp < 2 ^ 32
  pub memory : (i n : ℕ) → platform.malloc i n ≡ true

blank-IsBlank : IsBlank blank
unfolding blank
blank-IsBlank = record { unwritten = refl; array = refl }

pub blank-IsRing : (k next : ℕ) → IsRing k next [] (replicate (2 ^ k) blank)
blank-IsRing k next = record {
  slots = length-replicate (2 ^ k) blank;
  recent = λ i j hi hj e. rw (get_or-replicate (2 ^ k) j blank) blank-IsBlank;
}

-- What the checks of the size ask for.
accept_lem :
    (k : ℕ)
    → 2 ≤ k
    → k ≤ 30
    → (lt_int (2 ^ k) 4 ≡ false) × (bit_and (2 ^ k) (sub_word 32 (2 ^ k) 1) ≡ 0)
accept_lem k lo hi =
    let below : 2 ^ k ≤ 2 ^ 30 = pow-le-pow_right {n = 2} (omega arith) hi in
    let above : 2 ^ 2 ≤ 2 ^ k = pow-le-pow_right {n = 2} (omega arith) lo in
    let minus : sub_word 32 (2 ^ k) 1 ≡ 2 ^ k - 1 = omega arith in
    (ground arith, rw minus (and_pred_pow k))

to_size-lt : (n : ℕ) → n < 2 ^ 31 → to_size n ≡ n
unfolding to_size
to_size-lt n h = ground arith

abbrev allocated : Platform → ℕ → ℕ → Runtrace → Runtrace
allocated platform threads k s = record s {
  max_threads = threads;
  tp_pool_size = 2 ^ k;
  tp_cnt_mask = 2 ^ k - 1;
  tp_pool_mem_size = 2 ^ k * sizeof_tracept;
  tp_pool = some (replicate (2 ^ k) blank);
  tp_pool_copy = some (replicate (2 ^ k) blank);
  vsprint_buffer = some (replicate threads (record { in_use = 0; next = 0 }));
}

allocate-IsReady :
    (platform : Platform) (k threads : ℕ) (s : Runtrace)
    → IsReady platform k threads s
    → (t : Runtrace) → allocate platform threads (2 ^ k) t ≡ allocated platform threads k t
unfolding allocate
allocate-IsReady platform k threads s r t =
    let above : 2 ^ 2 ≤ 2 ^ k = pow-le-pow_right {n = 2} (omega arith) r.lower in
    let below : 2 ^ k ≤ 2 ^ 23 = pow-le-pow_right {n = 2} (omega arith) r.upper in
    let whole : 2 ^ k * sizeof_tracept % 2 ^ 32 ≡ 2 ^ k * sizeof_tracept = omega arith in
    let minus : sub_word 32 (2 ^ k) 1 ≡ 2 ^ k - 1 = omega arith in
    let bytes : to_size (2 ^ k * sizeof_tracept) ≡ 2 ^ k * sizeof_tracept =
      to_size-lt _ (omega arith) in
    let slots : 2 ^ k * sizeof_tracept / sizeof_tracept ≡ 2 ^ k = omega arith in
    rw (whole, minus, bytes, slots, r.memory 0 _, r.memory 1 _, r.memory 2 _) refl

pub positive : (threads : ℕ) → 1 ≤ threads → threads < 2 ^ 31 → lt_int threads 1 ≡ false
positive threads lo hi = ground arith

pub reconfigure-resize :
    (build : Build) (platform : Platform) (k threads : ℕ) (s : Runtrace)
    → 2 ≤ k
    → k ≤ 30
    → 1 ≤ threads
    → threads < 2 ^ 31
    → runtrace_reconfigure build platform threads (2 ^ k) s
      ≡ resize build platform threads (2 ^ k) s
unfolding runtrace_reconfigure
reconfigure-resize build platform k threads s lower upper some_thread narrow =
    let (big, power) = accept_lem k lower upper in
    rw (positive threads some_thread narrow, big, power) refl

module _ (build : Build) (platform : Platform) (k threads : ℕ) (s : Runtrace)
    (r : IsReady platform k threads s) where
  lock_step :
      (if s.lock_initialised then wrlock else pure tt) s
      ≡ ok tt (record s { writer = s.lock_initialised })
  unfolding wrlock
  lock_step =
      elim s.lock_initialised
        as (λ b. (if b then wrlock else pure tt) s ≡ ok tt (record s { writer = b })) [
          | true ↦ rw r.unlocked refl
          | false ↦ ap (λ b. ok tt (record s { writer = b })) r.unlocked
        ]

  resize-set_up :
      resize build platform threads (2 ^ k) s
      ≡ set_up build platform threads
          (allocated platform threads k (record s { writer = s.lock_initialised }))
  unfolding resize
  resize-set_up =
      let same =
        allocate-IsReady platform k threads s r (record s { writer = s.lock_initialised }) in
      let any : any_null
            (allocate platform threads (2 ^ k) (record s { writer = s.lock_initialised }))
          ≡ false =
        ap any_null same in
      rw (lock_step, any) (ap (set_up build platform threads) same)

unlock_step :
    (s : Runtrace)
    → s.writer ≡ s.lock_initialised
    → (if s.lock_initialised then wrunlock else pure tt) s ≡ ok tt (record s { writer = false })
unfolding wrunlock
unlock_step s h =
    (elim s.lock_initialised
        as (λ b.
          (b ≡ s.lock_initialised)
          → s.writer ≡ b
          → (if b then wrunlock else pure tt) s ≡ ok tt (record s { writer = false })) [
            | true ↦ λ e w. refl
            | false ↦ λ e w. ap (λ b. ok tt (record s { writer = b })) w
          ])
      refl h

pub set_up_lem :
    (build : Build) (platform : Platform) (threads : ℕ) (enough : 3 ≤ threads) (s : Runtrace)
    → s.writer ≡ s.lock_initialised
    → set_up build platform threads s
      ≡ ok success (record s {
        vsprint_buffer = some (smeared build platform.garbage threads enough);
        writer = false;
      })
unfolding set_up
set_up_lem build platform threads enough s h =
    rw
      (
        smear-link_containers build platform.garbage threads enough s,
        unlock_step
            (record s { vsprint_buffer = some (smeared build platform.garbage threads enough) }) h,
      )
      refl

set_up_short :
    (build : Build) (platform : Platform) (threads : ℕ) (s : Runtrace)
    → 1 ≤ threads
    → threads < 3
    → set_up build platform threads s ≡ fault
unfolding set_up smear link_containers
set_up_short build platform zero s lo hi = absurd (omega arith)
set_up_short build platform (suc zero) s lo hi = refl
set_up_short build platform (suc (suc zero)) s lo hi = refl
set_up_short build platform (suc (suc (suc n))) s lo hi = absurd (omega arith)

module _ (build : Build) (platform : Platform) (k threads : ℕ) (s : Runtrace)
    (r : IsReady platform k threads s) where
  -- For at least 3 threads and a size of 2 ^ k records, with 2 ≤ k ≤ 23, where no writer holds the
  -- lock, the lock is initialised or not, and every allocation succeeds, `runtrace_reconfigure`
  -- succeeds: the pool then holds the empty history, with no writer in the lock, and the
  -- print buffers lead round. The one of the index 2 is marked as in use, and the others are not; of the
  -- others this is not said for the build with builtins.
  pub runtrace_reconfigure-Ring :
      3 ≤ threads
      → (s' : Runtrace) × (cs : List Container) × (runtrace_reconfigure build platform threads
            (2 ^ k)
            s
          ≡ ok success s')
        × Ring k [] s'
        × (s'.vsprint_buffer ≡ some cs)
        × IsContainerRing build threads cs
  runtrace_reconfigure-Ring enough =
      let t = allocated platform threads k (record s { writer = s.lock_initialised }) in
      let cs = smeared build platform.garbage threads enough in
      (
        record t { vsprint_buffer = some cs; writer = false },
        cs,
        reconfigure-resize build platform k threads s r.lower (omega (arith, r.upper)) r.some_thread
              r.narrow
            ∙ resize-set_up build platform k threads s r
            ∙ set_up_lem build platform threads enough t refl,
        record {
          pool = replicate (2 ^ k) blank;
          unlocked = refl;
          limit = omega (arith, r.upper);
          size = refl;
          mask = refl;
          mem = mem_lem k;
          counter = r.counter;
          held = refl;
          copy = replicate (2 ^ k) blank;
          copied = refl;
          ring = blank-IsRing k s.next_tp;
        },
        refl,
        smeared-IsContainerRing build platform.garbage threads enough,
      )

  -- Where it would succeed otherwise, with fewer than 3 threads `runtrace_reconfigure` writes outside
  -- the array of print buffers.
  pub runtrace_reconfigure-fault :
      threads < 3 → runtrace_reconfigure build platform threads (2 ^ k) s ≡ fault
  runtrace_reconfigure-fault few =
      reconfigure-resize build platform k threads s r.lower (omega (arith, r.upper)) r.some_thread
        r.narrow
      ∙ resize-set_up build platform k threads s r
      ∙ set_up_short build platform threads _ r.some_thread few
