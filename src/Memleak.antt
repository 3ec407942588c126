-- ===== src/Memleak.antt =====
-- memleak/memleak.cpp and memleak.h: the bookkeeping of allocations by the line that made them. Here
-- are its state and the commands over it; the macros of memleak.h choose tracking with a mutex, the
-- report at exit, and neither verbose logging nor timestamps.
pub mod Sites
pub mod Alloc
pub mod Report
pub mod History
pub mod Log
mod Tests
use tripping_robot.Prelude.{ℕ, Bool, true, false, Option, none, some, List, [], ◌∷◌, ◌++◌}
use tripping_robot.Prelude.{◌==◌, if◌then◌else◌}

-- The two machines that the code tells apart.
pub data Abi : Type 0 where
  i386 x86_64 : Abi

-- The bits of `size_t`, ALLOC_ALIGN, and the size of `struct piggyback_data`, which is packed.
abbrev pub size_bits : Abi → ℕ
size_bits i386 = 32
size_bits x86_64 = 64

abbrev pub alloc_align : Abi → ℕ
alloc_align i386 = 8
alloc_align x86_64 = 16

abbrev pub sizeof_piggyback : Abi → ℕ
sizeof_piggyback i386 = 8
sizeof_piggyback x86_64 = 16

abbrev pub piggyback_size : ℕ
piggyback_size = 12

-- A C string, without its NUL.
abbrev pub Text : Type 0
Text = List ℕ

-- `struct alloc_record`, but for the links. `cnt` is an `int`.
pub record AllocRecord : Type 0 where
  pub file : Text
  pub line : ℕ
  pub cnt : ℕ
  pub mem_total : ℕ
  pub dirty : Bool
  pub overallocations : Bool

-- What stands at the start of a block of the allocator, if it was written: the pointer to the record
-- and the bytes of `size` that lie before the application's part.
pub record Piggyback : Type 0 where
  pub site : ℕ
  pub low : ℕ

-- A block of `room` bytes; `first` is the word in the bytes 12 to 15, the application's first.
pub record Block : Type 0 where
  pub room : ℕ
  pub header : Option Piggyback
  pub first : ℕ

-- What is logged, without the fixed text.
pub data Message : Type 0 where
  title tight_title newline exited no_list_memory : Message
  records_line : ℕ → ℕ → Text → ℕ → Bool → Message
  count_only : ℕ → Message
  unclean : ℕ → Text → ℕ → Bool → Message
  exceeded : ℕ → Text → ℕ → Message
  no_memory : Text → ℕ → Message

-- Memory: the fields `next` and `prev` of the list head and of each record, the other fields of each
-- record, and the blocks that the allocator has given out. Addresses are numbers, and 0 is NULL.
pub record Memleak : Type 0 where
  pub next : ℕ → Option ℕ
  pub prev : ℕ → Option ℕ
  pub records : ℕ → Option AllocRecord
  pub blocks : List (ℕ × Block)
  pub rec_lock : Bool
  pub tracking : ℕ
  pub max_tolerate : ℕ
  pub log : List Message

-- The address of the static list head.
abbrev pub alloc_list : ℕ
alloc_list = 1

-- How a call ends: with a value, in `exit(1)`, in an access outside an object, waiting for a lock that
-- is never released, or not within the fuel.
pub data Outcome (A : Type 0) : Type 0 where
  ok : A → Memleak → Outcome A
  exits : Memleak → Outcome A
  fault deadlock out_of_fuel : Outcome A

abbrev pub Cmd : Type 0 → Type 0
Cmd A = Memleak → Outcome A

abbrev pub pure : {A : Type 0} → A → Cmd A
pure = ok

module _ {A B : Type 0} where
  abbrev pub and_then : Outcome A → (A → Cmd B) → Outcome B
  and_then (ok a s) k = k a s
  and_then (exits s) k = exits s
  and_then fault k = fault
  and_then deadlock k = deadlock
  and_then out_of_fuel k = out_of_fuel

  infixl 5 ◌>>=◌ ◌>>◌
  abbrev pub ◌>>=◌ : Cmd A → (A → Cmd B) → Cmd B
  m >>= k = λ s. and_then (m s) k

  abbrev pub ◌>>◌ : Cmd A → Cmd B → Cmd B
  m >> n = m >>= λ _. n

abbrev pub get : Cmd Memleak
get s = ok s s

abbrev pub put : Memleak → Cmd (Unit {0})
put s _ = ok tt s

abbrev pub need : {A : Type 0} → Option A → Cmd A
need none s = fault
need (some a) s = ok a s

unfoldable pub update : {A : Type 0} → (ℕ → Option A) → ℕ → A → ℕ → Option A
update f p a q = if q == p then some a else f q

-- `p->next`, `p->prev` and the assignments to them.
unfoldable pub load_next : ℕ → Cmd ℕ
load_next p s = need (s.next p) s

unfoldable pub load_prev : ℕ → Cmd ℕ
load_prev p s = need (s.prev p) s

unfoldable pub store_next : ℕ → ℕ → Cmd (Unit {0})
store_next p q = do s ← get; _ ← need (s.next p); put (record s { next = update s.next p q })

unfoldable pub store_prev : ℕ → ℕ → Cmd (Unit {0})
store_prev p q = do s ← get; _ ← need (s.prev p); put (record s { prev = update s.prev p q })

-- The other fields of a record.
unfoldable pub load_record : ℕ → Cmd AllocRecord
load_record p s = need (s.records p) s

unfoldable pub store_record : ℕ → AllocRecord → Cmd (Unit {0})
store_record p r = do
  s ← get
  _ ← need (s.records p)
  put (record s { records = update s.records p r })

unfoldable pub lock : Cmd (Unit {0})
lock s = if s.rec_lock then deadlock else ok tt (record s { rec_lock = true })

unfoldable pub unlock : Cmd (Unit {0})
unlock s = ok tt (record s { rec_lock = false })

unfoldable pub ml_log : Message → Cmd (Unit {0})
ml_log m s = ok tt (record s { log = s.log ++ m ∷ [] })

-- The static state at the start of the program.
unfoldable pub initial : Memleak
unfolding update
initial = record {
  next = update (λ _. none) alloc_list alloc_list;
  prev = update (λ _. none) alloc_list alloc_list;
  records = λ _. none;
  blocks = [];
  rec_lock = false;
  tracking = 0;
  max_tolerate = 0;
  log = [];
}
