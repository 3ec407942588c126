-- ===== src/Runtrace/Pool/Containers.antt =====
-- runtrace/runtrace.c, `runtrace_reconfigure`: the ring of print buffers that it sets up.
use native.Mathlib.Nat.{mod-eq_of_lt}
use tripping_robot.Prelude.{
  ℕ, zero, suc, ◌+◌, ◌-◌, ◌*◌, ◌/◌, ◌%◌, ◌^◌, ◌≤◌, ◌<◌, ◌≡◌, ◌≢◌, refl, sym, ap, ◌∙◌,
}
use tripping_robot.Prelude.{true, false, some, List, arith}
use tripping_robot.Prelude.{
  dec_lt, ℕ_discrete, length, length-set, get_elem?-set_self, get_elem?-set_ne, get_elem?, set,
  ◌==◌, if◌then◌else◌,
}
use native.Mathlib.Nat.{mod_self}
use tripping_robot.Runtrace.{
  Build, kernel, cxx11, builtins, Container, Runtrace, ok, clear, test_and_set,
}
use tripping_robot.Runtrace.Pool.{link_containers, smear}

-- The containers lead round. The one of the index 2 is in use, and the others are not; for the build with
-- builtins it is not said of the others.
pub record IsContainerRing (build : Build) (threads : ℕ) (cs : List Container) : Type 0 where
  pub count : length cs ≡ threads
  pub round :
      (i : ℕ)
      → i < threads
      → (c : Container) × (get_elem? cs i ≡ some c)
        × (c.next ≡ (i + 1) % threads)
        × (i ≢ 2 → build ≢ builtins → (test_and_set build c.in_use).0 ≡ false)
  pub busy : (c : Container) × (get_elem? cs 2 ≡ some c) × ((test_and_set build c.in_use).0 ≡ true)

abbrev linked : Build → (ℕ → ℕ) → ℕ → ℕ → Container
linked build garbage left i = record {
  in_use = clear build (garbage i);
  next = if left == 0 then 0 else i + 1;
}

length-link_containers :
    (build : Build) (garbage : ℕ → ℕ) (left i : ℕ)
    → length (link_containers build garbage left i) ≡ left
unfolding link_containers
length-link_containers build garbage zero i = refl
length-link_containers build garbage (suc left) i =
    ap suc (length-link_containers build garbage left (i + 1))

get-link_containers :
    (build : Build) (garbage : ℕ → ℕ) (left i j : ℕ)
    → j < left
    → get_elem? (link_containers build garbage left i) j
      ≡ some (linked build garbage (left - suc j) (i + j))
unfolding link_containers
get-link_containers build garbage zero i j h = absurd (omega arith)
get-link_containers build garbage (suc left) i zero h =
    let here : suc left - 1 ≡ left = omega arith in
    rw here (ap (λ t. some (linked build garbage left t)) {x = i} {y = i + 0} (omega arith))
get-link_containers build garbage (suc left) i (suc j) h =
    let here : suc left - suc (suc j) ≡ left - suc j = omega arith in
    rw here (
      get-link_containers build garbage left (i + 1) j (omega arith)
      ∙ ap (λ t. some (linked build garbage (left - suc j) t)) {x = i + 1 + j} {y = i + suc j}
          (omega arith))

link_lem :
    (threads i : ℕ) → i < threads → (if threads - suc i == 0 then 0 else i + 1) ≡ (i + 1) % threads
link_lem threads i h = elim (dec_lt (i + 1) threads) [
  | yes more ↦ ground (arith, mod-eq_of_lt more)
  | no last ↦
      let whole : threads ≡ i + 1 = omega arith in rw (whole, mod_self (i + 1)) (ground arith)
]

idle_lem :
    (build : Build) (g : ℕ) → build ≢ builtins → (test_and_set build (clear build g)).0 ≡ false
unfolding test_and_set clear
idle_lem kernel g h = ground arith
idle_lem cxx11 g h = ground arith
idle_lem builtins g h = absurd (h refl)

busy_lem :
    (build : Build) (g : ℕ) → (test_and_set build (g / 2 ^ 32 * 2 ^ 32 + 0xedededed)).0 ≡ true
unfolding test_and_set
busy_lem kernel g = ground arith
busy_lem cxx11 g = ground arith
busy_lem builtins g = ground arith

abbrev marked : Container → Container
marked c = record c { in_use = c.in_use / 2 ^ 32 * 2 ^ 32 + 0xedededed }

smear_lem :
    (cs : List Container) (c : Container) (s : Runtrace)
    → get_elem? cs 2 ≡ some c
    → smear cs s ≡ ok (set cs 2 (marked c)) s
unfolding smear
smear_lem cs c s h = rw h refl

module _ (build : Build) (garbage : ℕ → ℕ) (threads : ℕ) (enough : 3 ≤ threads) where
  abbrev pub smeared : List Container
  smeared =
      set (link_containers build garbage threads 0) 2
        (marked (linked build garbage (threads - 3) 2))

  pub smear-link_containers :
      (s : Runtrace) → smear (link_containers build garbage threads 0) s ≡ ok smeared s
  smear-link_containers s =
      smear_lem (link_containers build garbage threads 0) (linked build garbage (threads - 3) 2) s
        (get-link_containers build garbage threads 0 2 (omega arith))

  pub smeared-IsContainerRing : IsContainerRing build threads smeared
  smeared-IsContainerRing = record {
    count =
        length-set (link_containers build garbage threads 0) 2 _
        ∙ length-link_containers build garbage threads 0;
    round = λ i h. elim (ℕ_discrete 2 i) [
      | yes e ↦ rw (sym e) (
        marked (linked build garbage (threads - 3) 2),
        get_elem?-set_self (link_containers build garbage threads 0) 2 _
            (rw (length-link_containers build garbage threads 0) (omega arith)),
        link_lem threads 2 (omega arith),
        λ ne. absurd (ne refl),
      )
      | no ne ↦ (
        linked build garbage (threads - suc i) i,
        get_elem?-set_ne (link_containers build garbage threads 0) 2 i _ ne
            ∙ get-link_containers build garbage threads 0 i h
            ∙ ap (λ t. some (linked build garbage (threads - suc i) t)) {x = 0 + i} {y = i}
                (omega arith),
        link_lem threads i h,
        λ other. idle_lem build (garbage i),
      )
    ];
    busy = (
      marked (linked build garbage (threads - 3) 2),
      get_elem?-set_self (link_containers build garbage threads 0) 2 _
          (rw (length-link_containers build garbage threads 0) (omega arith)),
      busy_lem build (clear build (garbage 2)),
    );
  }
