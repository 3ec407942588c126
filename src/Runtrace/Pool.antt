-- ===== src/Runtrace/Pool.antt =====
-- runtrace/runtrace.c: the pool of tracepoints and the ring of print buffers, from
-- `runtrace_reconfigure` and `runtrace_init` to `runtrace_exit`.
pub mod Containers
pub mod Reconfigure
pub mod Refusal
use tripping_robot.Prelude.{ℕ, zero, suc, ◌+◌, ◌-◌, ◌*◌, ◌/◌, ◌%◌, ◌^◌, Bool, true, false, not}
use tripping_robot.Prelude.{Option, none, some, List, [], ◌∷◌, ◌||◌, bit_and, ltb, ◌==◌}
use tripping_robot.Prelude.{if◌then◌else◌, get_elem?, set, replicate, lt_int, sub_word}
use tripping_robot.Runtrace.{
  Build, kernel, cxx11, builtins, msg_max, Tracept, Container, Runtrace, Cmd, pure, ◌>>=◌, ◌>>◌,
  get, put, need, Code, success, failure, disabling_err, wrlock, wrunlock, clear,
}

-- What comes from outside: which allocation of a call, of how many bytes, succeeds; the bytes that
-- an allocated flag starts with; `atoi` of the variable RT_POOL_SIZE, if it is set; the number of
-- processors; and whether the kernel hands out a device number and adds the device.
pub record Platform : Type 0 where
  pub malloc : ℕ → ℕ → Bool
  pub garbage : ℕ → ℕ
  pub env : Option ℕ
  pub cpus : ℕ
  pub region : Bool
  pub cdev : Bool

abbrev pub pool_size_default : ℕ
pool_size_default = 256

-- The sizes of the two structs on a 64-bit machine.
abbrev pub sizeof_tracept : ℕ
sizeof_tracept = 232

abbrev pub sizeof_container : ℕ
sizeof_container = 216

-- A record of zeros, as `memset` leaves it.
unfoldable pub blank : Tracept
blank = record { sec = 0; usec = 0; line = 0; src = none; msg = replicate msg_max 0 }

-- The conversion of an `int` to `size_t`, which extends its sign.
unfoldable pub to_size : ℕ → ℕ
to_size n = if ltb n (2 ^ 31) then n else n + 2 ^ 64 - 2 ^ 32

-- The containers of the indices from i on, `left` in number, with `next` leading round.
unfoldable pub link_containers : Build → (ℕ → ℕ) → ℕ → ℕ → List Container
link_containers build garbage zero i = []
link_containers build garbage (suc left) i =
    record { in_use = clear build (garbage i); next = if left == 0 then 0 else i + 1 }
    ∷ link_containers build garbage left (i + 1)

-- `memset(&vsprint_buffer[2], 0xed, 4)`: the low four bytes of the flag of container 2.
unfoldable pub smear : List Container → Cmd (List Container)
smear cs = do
  c ← need (get_elem? cs 2)
  pure (set cs 2 (record c { in_use = c.in_use / 2 ^ 32 * 2 ^ 32 + 0xedededed }))

-- The sizes, and the three allocations that take the place of the old ones. A new copy is not
-- cleared; it is written before it is read, so its content here is arbitrary.
unfoldable pub allocate : Platform → ℕ → ℕ → Runtrace → Runtrace
unfolding to_size
allocate platform nr_of_threads pool_size s =
    let mem_size = pool_size * sizeof_tracept % 2 ^ 32 in
    let bytes = to_size mem_size in
    record s {
      max_threads = nr_of_threads;
      tp_pool_size = pool_size;
      tp_cnt_mask = sub_word 32 pool_size 1;
      tp_pool_mem_size = mem_size;
      tp_pool =
          if platform.malloc 0 bytes then some (replicate (bytes / sizeof_tracept) blank) else none;
      tp_pool_copy =
          if platform.malloc 1 bytes then some (replicate (bytes / sizeof_tracept) blank) else none;
      vsprint_buffer =
          if platform.malloc 2 (nr_of_threads * sizeof_container)
          then some (replicate nr_of_threads (record { in_use = 0; next = 0 }))
          else none;
    }

abbrev pub is_null : {A : Type 0} → Option A → Bool
is_null none = true
is_null (some _) = false

abbrev pub any_null : Runtrace → Bool
any_null s = is_null s.tp_pool || is_null s.tp_pool_copy || is_null s.vsprint_buffer

-- Where an allocation failed: what was allocated is freed, and the lock stays held.
unfoldable pub give_up : Build → Cmd Code
unfolding disabling_err
give_up build = do
  s ← get
  put (record s { tp_pool = none; tp_pool_copy = none; vsprint_buffer = none })
  disabling_err build
  pure failure

unfoldable pub set_up : Build → Platform → ℕ → Cmd Code
unfolding link_containers smear wrunlock
set_up build platform nr_of_threads = do
  s ← get
  cs ← smear (link_containers build platform.garbage nr_of_threads 0)
  put (record s { vsprint_buffer = some cs })
  if s.lock_initialised then wrunlock else pure tt
  pure success

-- `runtrace_reconfigure` behind its checks of the parameters.
unfoldable pub resize : Build → Platform → ℕ → ℕ → Cmd Code
unfolding wrlock allocate give_up set_up
resize build platform nr_of_threads pool_size = do
  s ← get
  if s.lock_initialised then wrlock else pure tt
  s ← get
  let s' = allocate platform nr_of_threads pool_size s
  put s'
  if any_null s' then give_up build else set_up build platform nr_of_threads

unfoldable pub refuse : Build → Cmd Code
unfolding disabling_err
refuse build = disabling_err build >> pure failure

unfoldable pub runtrace_reconfigure : Build → Platform → ℕ → ℕ → Cmd Code
unfolding resize refuse disabling_err
runtrace_reconfigure build platform nr_of_threads pool_size = do
  if lt_int nr_of_threads 1 then disabling_err build else pure tt
  let threads = if lt_int nr_of_threads 1 then 1 else nr_of_threads
  let uneven = not (bit_and pool_size (sub_word 32 pool_size 1) == 0)
  if lt_int pool_size 4 || uneven then refuse build else resize build platform threads pool_size

-- `environment_check`: the pool size to use.
unfoldable pub environment_check : Build → Platform → ℕ → ℕ
environment_check kernel platform pool_size = pool_size
environment_check _ platform pool_size = elim platform.env [
  | none ↦ pool_size
  | some i ↦ if lt_int 0 i then i else pool_size
]

-- `LOCK_INIT`: in the kernel the lock is initialised where it is declared.
unfoldable pub lock_init : Build → Runtrace → Runtrace
lock_init kernel s = record s { lock_initialised = true }
lock_init cxx11 s = record s { lock_initialised = true; writer = false }
lock_init builtins s = record s { lock_initialised = true; writer = false }

-- The rest of `runtrace_init`: the character device, in the kernel, and the signal handler.
unfoldable pub open_device : Build → Platform → Cmd Code
unfolding disabling_err
open_device kernel platform =
    if not platform.region
    then disabling_err kernel >> pure failure
    else if not platform.cdev
    then disabling_err kernel >> pure failure
    else pure success
open_device cxx11 platform = do s ← get; put (record s { abort_handler = true }); pure success
open_device builtins platform = do s ← get; put (record s { abort_handler = true }); pure success

unfoldable pub runtrace_init : Build → Platform → ℕ → Cmd Code
unfolding runtrace_reconfigure environment_check lock_init open_device
runtrace_init build platform nr_of_threads = do
  s ← get
  put (record s { next_tp = 0; nr_cpus = platform.cpus })
  code ←
      runtrace_reconfigure build platform nr_of_threads
        (environment_check build platform pool_size_default)
  elim code [
    | failure ↦ pure failure
    | success ↦ do s ← get; put (lock_init build s); open_device build platform
  ]

unfoldable pub runtrace_exit : Cmd (Unit {0})
runtrace_exit s = pure tt (record s {
  tp_pool = none;
  tp_pool_copy = none;
  vsprint_buffer = none;
  lock_initialised = false;
})

-- `runtrace_flush_on_abort`
unfoldable pub runtrace_flush_on_abort : ℕ → ℕ → Cmd (Unit {0})
runtrace_flush_on_abort enable print_flags s = pure tt (record s {
  flush_on_abort = enable;
  flush_with_flags = if not (enable == 0) then print_flags else s.flush_with_flags;
})
