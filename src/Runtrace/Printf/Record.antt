-- ===== src/Runtrace/Printf/Record.antt =====
-- runtrace/runtrace.c, `tpprintf` of one thread in a ready facility.
use tripping_robot.Prelude.{ℕ, zero, suc, ◌+◌, ◌≤◌, ◌<◌, ◌≡◌, refl, sym, ap, ◌∙◌, arith}
use tripping_robot.Prelude.{
  true, false, Option, some, List, [], ◌∷◌, get_elem?, get_elem?-set_self, get_elem?-set_ne, set,
  length, take, ◌==◌, if◌then◌else◌,
}
use tripping_robot.Runtrace.{Build, Text, Container, Runtrace, ok, test_and_set, clear}
use tripping_robot.Runtrace.Pool.{Platform}
use tripping_robot.Runtrace.History.{Entry, IsText, Ring}
use tripping_robot.Runtrace.Claims.{seeking, holding, seek}
use tripping_robot.Runtrace.Claims.Exclusion.{tested, seek-some, release-some, get_elem?-lt}
use tripping_robot.Runtrace.Trace.{Clock, make_tracept}
use tripping_robot.Runtrace.Trace.Ring.{entry, make_tracept-Ring}
use tripping_robot.Runtrace.Printf.{claim, give_back, tpprintf}

-- From the index i on, the first container that is not in use is the one of the index j, and the
-- ones before it lead to it.
pub record IsFree (build : Build) (cs : List Container) (i j : ℕ) : Type 0 where
  pub before :
      (m : ℕ)
      → i ≤ m
      → m < j
      → (c : Container) × (get_elem? cs m ≡ some c)
        × ((test_and_set build c.in_use).0 ≡ true)
        × (c.next ≡ m + 1)
  pub container : Container
  pub there : get_elem? cs j ≡ some container
  pub free : (test_and_set build container.in_use).0 ≡ false

IsFree-set :
    (build : Build) (cs : List Container) (i j : ℕ) (c : Container)
    → i < j
    → IsFree build cs i j
    → IsFree build (set cs i c) (i + 1) j
IsFree-set build cs i j c h f = record {
  before = λ m lo hi.
      let (d, there, busy, next) = f.before m (omega arith) hi in
      (d, get_elem?-set_ne cs i m c (omega arith) ∙ there, busy, next);
  container = f.container;
  there = get_elem?-set_ne cs i j c (omega arith) ∙ f.there;
  free = f.free;
}

seek-busy :
    (build : Build) (cs : List Container) (i : ℕ) (c : Container)
    → get_elem? cs i ≡ some c
    → (test_and_set build c.in_use).0 ≡ true
    → seek build cs i ≡ some (set cs i (tested build c), seeking c.next)
seek-busy build cs i c h b =
    seek-some build cs i c h
    ∙ ap (λ x. some (set cs i (tested build c), if x then seeking c.next else holding i)) b

seek-free :
    (build : Build) (cs : List Container) (i : ℕ) (c : Container)
    → get_elem? cs i ≡ some c
    → (test_and_set build c.in_use).0 ≡ false
    → seek build cs i ≡ some (set cs i (tested build c), holding i)
seek-free build cs i c h b =
    seek-some build cs i c h
    ∙ ap (λ x. some (set cs i (tested build c), if x then seeking c.next else holding i)) b

claim-free :
    (build : Build) (left i : ℕ) (cs : List Container) (c : Container) (s : Runtrace)
    → s.vsprint_buffer ≡ some cs
    → get_elem? cs i ≡ some c
    → (test_and_set build c.in_use).0 ≡ false
    → claim build (suc left) i s
      ≡ ok i (record s { vsprint_buffer = some (set cs i (tested build c)) })
unfolding claim
claim-free build left i cs c s full there free = rw (full, seek-free build cs i c there free) refl

claim-busy :
    (build : Build) (left i : ℕ) (cs : List Container) (c : Container) (s : Runtrace)
    → s.vsprint_buffer ≡ some cs
    → get_elem? cs i ≡ some c
    → (test_and_set build c.in_use).0 ≡ true
    → c.next ≡ i + 1
    → claim build (suc left) i s
      ≡ claim build left (i + 1) (record s { vsprint_buffer = some (set cs i (tested build c)) })
unfolding claim
claim-busy build left i cs c s full there busy next =
    rw (full, seek-busy build cs i c there busy, next, later i) refl
  where
    later : (i : ℕ) → (i + 1 == 0) ≡ false
    later i = ground arith

-- The loop ends with the free container after one test for each one before it and its own.
claim-IsFree :
    (build : Build) (d left i j : ℕ) (cs : List Container) (s : Runtrace)
    → j ≡ i + d
    → d < left
    → s.vsprint_buffer ≡ some cs
    → IsFree build cs i j
    → (cs' : List Container) × (claim build left i s
        ≡ ok j (record s { vsprint_buffer = some cs' }))
      × (c : Container) × (get_elem? cs' j ≡ some c)
claim-IsFree build d zero i j cs s e more full f = absurd (omega arith)
claim-IsFree build zero (suc left) i j cs s e more full f =
    let here : i ≡ j = omega arith in
    let there : get_elem? cs i ≡ some f.container = ap (get_elem? cs) here ∙ f.there in
    (
      set cs i (tested build f.container),
      claim-free build left i cs f.container s full there f.free
          ∙ ap
              (λ t. ok t (record s { vsprint_buffer = some (set cs i (tested build f.container)) }))
              here,
      tested build f.container,
      ap (get_elem? (set cs i (tested build f.container))) (sym here)
          ∙ get_elem?-set_self cs i (tested build f.container)
              (get_elem?-lt cs i f.container there),
    )
claim-IsFree build (suc d) (suc left) i j cs s e more full f =
    let (c, there, busy, next) = f.before i (omega arith) (omega arith) in
    let (cs', runs, c', found) =
      claim-IsFree build d left (i + 1) j (set cs i (tested build c))
        (record s { vsprint_buffer = some (set cs i (tested build c)) }) (omega arith) (omega arith)
        refl (IsFree-set build cs i j (tested build c) (omega arith) f) in
    (cs', claim-busy build left i cs c s full there busy next ∙ runs, c', found)

pub Ring-buffers :
    (k : ℕ) (hist : List Entry) (s : Runtrace) (b : Option (List Container))
    → Ring k hist s
    → Ring k hist (record s { vsprint_buffer = b })
Ring-buffers k hist s b r = record {
  pool = r.pool;
  unlocked = r.unlocked;
  limit = r.limit;
  size = r.size;
  mask = r.mask;
  mem = r.mem;
  counter = r.counter;
  held = r.held;
  copy = r.copy;
  copied = r.copied;
  ring = r.ring;
}

take_IsText : (n : ℕ) (t : Text) → IsText t → IsText (take n t)
take_IsText zero t h = tt
take_IsText (suc n) [] h = tt
take_IsText (suc n) (c ∷ t) h = (h.0, take_IsText n t h.1)

give_back-some :
    (build : Build) (i : ℕ) (cs : List Container) (c : Container) (s : Runtrace)
    → s.vsprint_buffer ≡ some cs
    → get_elem? cs i ≡ some c
    → give_back build i s
      ≡ ok tt (record s {
        vsprint_buffer = some (set cs i (record c { in_use = clear build c.in_use }));
      })
unfolding give_back
give_back-some build i cs c s full there = rw (full, release-some build cs i c there) refl

-- The steps of `tpprintf` with a buffer, one after the other.
tpprintf-steps :
    (build : Build) (platform : Platform) (now : Clock) (line : ℕ) (src t : Text)
    (cs : List Container) (j : ℕ) (s s1 s2 s3 : Runtrace)
    → s.vsprint_buffer ≡ some cs
    → claim build (length cs) 0 s ≡ ok j s1
    → make_tracept build platform now line src (some (take 199 t)) s1 ≡ ok tt s2
    → give_back build j s2 ≡ ok tt s3
    → tpprintf build platform now line src (some t) s ≡ ok (length t) s3
unfolding tpprintf
tpprintf-steps build platform now line src t cs j s s1 s2 s3 full claims records gives =
    simp (full, claims, records, gives)

-- In a ready facility with a free print buffer that the ones in use before it lead to, `tpprintf` of a
-- text without NUL returns the length of the text in the kernel and in user space, the file being there
-- without the call of `wake_up_interruptible`, which does not compile. The pool then holds the history
-- with a new entry in front, whose message is the text cut to 199 characters.
pub tpprintf-Ring :
    (build : Build) (platform : Platform) (now : Clock) (line : ℕ) (src t : Text) (k : ℕ)
    (hist : List Entry) (s : Runtrace) (cs : List Container) (j : ℕ)
    → IsText t
    → Ring k hist s
    → s.vsprint_buffer ≡ some cs
    → IsFree build cs 0 j
    → (s' : Runtrace) × (tpprintf build platform now line src (some t) s ≡ ok (length t) s')
      × Ring k (entry now line src (some (take 199 t)) ∷ hist) s'
tpprintf-Ring build platform now line src t k hist s cs j text r full f =
    let (cs', claims, c, there) =
      claim-IsFree build j (length cs) 0 j cs s (omega arith)
        (get_elem?-lt cs j f.container f.there) full f in
    let s1 : Runtrace = record s { vsprint_buffer = some cs' } in
    let (s2, records, _, same, _, r2) =
      make_tracept-Ring build platform now line src (some (take 199 t)) k hist s1
        (take_IsText 199 t text) (Ring-buffers k hist s (some cs') r) in
    let gives = give_back-some build j cs' c s2 same there in
    (
      record s2 { vsprint_buffer = some (set cs' j (record c { in_use = clear build c.in_use })) },
      tpprintf-steps build platform now line src t cs j s s1 s2 _ full claims records gives,
      Ring-buffers k _ s2 _ r2,
    )
