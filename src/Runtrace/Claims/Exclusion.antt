-- ===== src/Runtrace/Claims/Exclusion.antt =====
-- runtrace/runtrace.c, `tpprintf`: a print buffer belongs to one thread at a time.
use mathlib.Core.Option.{none-ne-some, some-injective}
use mathlib.Core.Bool.{true≢false}
use tripping_robot.Prelude.{ℕ, zero, suc, ◌<◌, ◌≡◌, ◌≢◌, sym, ap, ◌∙◌, arith}
use tripping_robot.Prelude.{
  Bool, true, false, none, some, List, [], ◌∷◌, ◌⊎◌, subst, get_elem?, set, length,
  get_elem?-set_self, get_elem?-set_ne, if◌then◌else◌, Bool-cases, Option-cases, inl, inr,
  ℕ_discrete,
}
use tripping_robot.Runtrace.{Build, kernel, cxx11, builtins, Container, test_and_set, clear}
use tripping_robot.Runtrace.Claims.{
  Place, outside, seeking, holding, seek, release, Claims, move, Step, enters, seeks, leaves, Run,
  ended, then_step,
}

-- The container of the index i tests as in use.
pub record IsBusy (build : Build) (cs : List Container) (i : ℕ) : Type 0 where
  pub container : Container
  pub there : get_elem? cs i ≡ some container
  pub busy : (test_and_set build container.in_use).0 ≡ true

pub record IsSound (build : Build) (s : Claims) : Type 0 where
  pub exclusive : (t u i : ℕ) → s.place t ≡ holding i → s.place u ≡ holding i → t ≡ u
  pub marked : (t i : ℕ) → s.place t ≡ holding i → IsBusy build s.containers i

-- A flag that was tested and set tests as set.
set_again : (build : Build) (x : ℕ) → (test_and_set build (test_and_set build x).1).0 ≡ true
unfolding test_and_set
set_again kernel x = ground arith
set_again cxx11 x = ground arith
set_again builtins x = ground arith

move_self : (place : ℕ → Place) (t : ℕ) (p : Place) → move place t p t ≡ p
unfolding move
move_self place t p = ground arith

move_other : (place : ℕ → Place) (t u : ℕ) (p : Place) → u ≢ t → move place t p u ≡ place u
unfolding move
move_other place t u p ne = ground arith

-- A write to another container leaves it busy.
IsBusy-set :
    (build : Build) (cs : List Container) (i j : ℕ) (c : Container)
    → i ≢ j
    → IsBusy build cs j
    → IsBusy build (set cs i c) j
IsBusy-set build cs i j c ne b = record {
  container = b.container;
  there = get_elem?-set_ne cs i j c ne ∙ b.there;
  busy = b.busy;
}

pub get_elem?-lt :
    {A : Type 0} (xs : List A) (i : ℕ) (x : A) → get_elem? xs i ≡ some x → i < length xs
get_elem?-lt [] i x h = absurd (none-ne-some x h)
get_elem?-lt (y ∷ xs) zero x h = omega arith
get_elem?-lt (y ∷ xs) (suc i) x h = omega (arith, get_elem?-lt xs i x h)

abbrev pub tested : Build → Container → Container
tested build c = record c { in_use = (test_and_set build c.in_use).1 }

IsBusy-tested :
    (build : Build) (cs : List Container) (i : ℕ) (c : Container)
    → get_elem? cs i ≡ some c
    → IsBusy build (set cs i (tested build c)) i
IsBusy-tested build cs i c h = record {
  container = tested build c;
  there = get_elem?-set_self cs i (tested build c) (get_elem?-lt cs i c h);
  busy = set_again build c.in_use;
}

-- A thread that claims or passes a container leaves every busy one busy.
IsBusy-seek :
    (build : Build) (cs : List Container) (i j : ℕ) (c : Container)
    → get_elem? cs i ≡ some c
    → IsBusy build cs j
    → IsBusy build (set cs i (tested build c)) j
IsBusy-seek build cs i j c h b = elim (ℕ_discrete i j) [
  | yes same ↦ subst (IsBusy build (set cs i (tested build c))) same (IsBusy-tested build cs i c h)
  | no other ↦ IsBusy-set build cs i j (tested build c) other b
]

seek-none :
    (build : Build) (cs : List Container) (i : ℕ) → get_elem? cs i ≡ none → seek build cs i ≡ none
unfolding seek
seek-none build cs i h = rw h

pub seek-some :
    (build : Build) (cs : List Container) (i : ℕ) (c : Container)
    → get_elem? cs i ≡ some c
    → seek build cs i
      ≡ some (
        set cs i (tested build c),
        if (test_and_set build c.in_use).0 then seeking c.next else holding i,
      )
unfolding seek
seek-some build cs i c h = rw h

seek_cases :
    (build : Build) (cs cs' : List Container) (i : ℕ) (p : Place)
    → seek build cs i ≡ some (cs', p)
    → (c : Container) × (get_elem? cs i ≡ some c)
      × (set cs i (tested build c) ≡ cs')
      × (((if (test_and_set build c.in_use).0 then seeking c.next else holding i) ≡ p))
seek_cases build cs cs' i p h = elim (Option-cases (get_elem? cs i)) [
  | inl out ↦ absurd (none-ne-some (cs', p) (sym (seek-none build cs i out) ∙ h))
  | inr (c, there) ↦
      let same = some-injective _ _ (sym (seek-some build cs i c there) ∙ h) in
      (c, there, ap (λ t. t.0) same, ap (λ t. t.1) same)
]

release-none :
    (build : Build) (cs : List Container) (i : ℕ)
    → get_elem? cs i ≡ none
    → release build cs i ≡ none
unfolding release
release-none build cs i h = rw h

pub release-some :
    (build : Build) (cs : List Container) (i : ℕ) (c : Container)
    → get_elem? cs i ≡ some c
    → release build cs i ≡ some (set cs i (record c { in_use = clear build c.in_use }))
unfolding release
release-some build cs i c h = rw h

release_cases :
    (build : Build) (cs cs' : List Container) (i : ℕ)
    → release build cs i ≡ some cs'
    → (c : Container) × (set cs i c ≡ cs')
release_cases build cs cs' i h = elim (Option-cases (get_elem? cs i)) [
  | inl out ↦ absurd (none-ne-some cs' (sym (release-none build cs i out) ∙ h))
  | inr (c, there) ↦ (_, some-injective _ _ (sym (release-some build cs i c there) ∙ h))
]

abbrev is_holding : Place → Bool
is_holding outside = false
is_holding (seeking i) = false
is_holding (holding i) = true

abbrev held : Place → ℕ
held outside = 0
held (seeking i) = 0
held (holding i) = i

owner :
    (place : ℕ → Place) (t u : ℕ) (p q : Place)
    → move place t p u ≡ q
    → ((u ≡ t) × (p ≡ q)) ⊎ ((u ≢ t) × (place u ≡ q))
owner place t u p q h = elim (ℕ_discrete u t) [
  | yes same ↦ inl (same, sym (move_self place t p) ∙ ap (move place t p) (sym same) ∙ h)
  | no other ↦ inr (other, sym (move_other place t u p other) ∙ h)
]

-- What a step of the thread t must keep: the containers of the others stay busy, and one that t
-- newly holds is busy and held by nobody else.
step_IsSound :
    (build : Build) (s : Claims) (t : ℕ) (cs : List Container) (p : Place)
    → IsSound build s
    → ((v j : ℕ) → v ≢ t → s.place v ≡ holding j → IsBusy build cs j)
    → ((j : ℕ) → p ≡ holding j → IsBusy build cs j × ((v : ℕ) → s.place v ≢ holding j))
    → IsSound build (record { containers = cs; place = move s.place t p })
step_IsSound build s t cs p sound others fresh = record {
  exclusive = λ a b i ha hb. elim (owner s.place t a p (holding i) ha) [
    | inl (at, new) ↦ elim (owner s.place t b p (holding i) hb) [
      | inl (bt, _) ↦ at ∙ sym bt
      | inr (_, old) ↦ absurd ((fresh i new).1 b old)
    ]
    | inr (_, olda) ↦ elim (owner s.place t b p (holding i) hb) [
      | inl (_, new) ↦ absurd ((fresh i new).1 a olda)
      | inr (_, oldb) ↦ sound.exclusive a b i olda oldb
    ]
  ];
  marked = λ u i h. elim (owner s.place t u p (holding i) h) [
    | inl (_, new) ↦ (fresh i new).0
    | inr (other, old) ↦ others u i other old
  ];
}

seeking-ne-holding : (i j : ℕ) → seeking i ≢ holding j
seeking-ne-holding i j e = true≢false (sym (ap is_holding e))

outside-ne-holding : (j : ℕ) → outside ≢ holding j
outside-ne-holding j e = true≢false (sym (ap is_holding e))

seek-IsSound :
    (build : Build) (s : Claims) (t i : ℕ) (cs : List Container) (p : Place)
    → IsSound build s
    → seek build s.containers i ≡ some (cs, p)
    → IsSound build (record { containers = cs; place = move s.place t p })
seek-IsSound build s t i cs p sound h =
    let (c, there, same, to) = seek_cases build s.containers cs i p h in
    step_IsSound build s t cs p sound
      (λ v j other old.
        subst (λ x. IsBusy build x j) same
          (IsBusy-seek build s.containers i j c there (sound.marked v j old)))
      (λ j new. elim (Bool-cases (test_and_set build c.in_use).0) [
        | inl taken ↦ absurd (
            seeking-ne-holding c.next j
              (sym (ap (λ b. if b then seeking c.next else holding i) taken) ∙ to ∙ new))
        | inr free ↦
            let here : i ≡ j =
              ap held (sym (ap (λ b. if b then seeking c.next else holding i) free) ∙ to ∙ new) in
            (
              subst (IsBusy build cs) here
                  (subst (λ x. IsBusy build x i) same (IsBusy-tested build s.containers i c there)),
              λ v old.
                  let b = sound.marked v j old in
                  let one =
                    some-injective _ _ (sym there ∙ ap (get_elem? s.containers) here ∙ b.there) in
                  true≢false
                    (sym b.busy ∙ ap (λ x. (test_and_set build x.in_use).0) (sym one) ∙ free),
            )
      ])

leave-IsSound :
    (build : Build) (s : Claims) (t i : ℕ) (cs : List Container)
    → IsSound build s
    → s.place t ≡ holding i
    → release build s.containers i ≡ some cs
    → IsSound build (record { containers = cs; place = move s.place t outside })
leave-IsSound build s t i cs sound mine h =
    let (c, same) = release_cases build s.containers cs i h in
    step_IsSound build s t cs outside sound
      (λ v j other old.
        subst (λ x. IsBusy build x j) same
          (IsBusy-set build s.containers i j c
            (λ e. other (sound.exclusive v t j old (mine ∙ ap holding e))) (sound.marked v j old)))
      (λ j new. absurd (outside-ne-holding j new))

pub Step-IsSound :
    (build : Build) (s u : Claims) → Step build s u → IsSound build s → IsSound build u
Step-IsSound build _ _ (enters t s out) sound =
    step_IsSound build s t s.containers (seeking 0) sound (λ v j other old. sound.marked v j old)
      (λ j new. absurd (seeking-ne-holding 0 j new))
Step-IsSound build _ _ (seeks t i s cs p at h) sound = seek-IsSound build s t i cs p sound h
Step-IsSound build _ _ (leaves t i s cs mine h) sound = leave-IsSound build s t i cs sound mine h

Run-IsSound : (build : Build) (s u : Claims) → Run build s u → IsSound build s → IsSound build u
Run-IsSound build _ _ (ended s) sound = sound
Run-IsSound build _ _ (then_step s t u r step) sound =
    Step-IsSound build t u step (Run-IsSound build s t r sound)

-- However many threads run `tpprintf`, and however their atomic operations interleave, from a state
-- where all are outside of it, a print buffer that one thread holds is held by no other, in every build
-- and whatever the flags were at the start.
pub Run-exclusive :
    (build : Build) (s u : Claims) (t t' i : ℕ)
    → ((v : ℕ) → s.place v ≡ outside)
    → Run build s u
    → t ≢ t'
    → u.place t ≡ holding i
    → u.place t' ≢ holding i
Run-exclusive build s u t t' i start r other mine theirs =
    let empty : IsSound build s = record {
      exclusive = λ v v' j h h'. absurd (outside-ne-holding j (sym (start v) ∙ h));
      marked = λ v j h. absurd (outside-ne-holding j (sym (start v) ∙ h));
    } in
    let sound = Run-IsSound build s u r empty in other (sound.exclusive t t' i mine theirs)
