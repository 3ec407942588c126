-- ===== src/Obscurestr.antt =====
-- obscurestr/obscurestr.hpp: strings that are encoded while compiling and decoded in place. A
-- `char` is its bit pattern below 2 ^ 8, an `unsigned int` one below 2 ^ 32.
pub mod Key
pub mod Code
mod Tests
use tripping_robot.Prelude.{false}
use tripping_robot.Prelude.{Bool}
use tripping_robot.Prelude.{ℕ, zero, suc, ◌+◌, ◌-◌, ◌*◌, ◌/◌, ◌%◌, ◌^◌, List, [], ◌∷◌}
use tripping_robot.Prelude.{bit_and, bit_or, bit_xor, ltb, if◌then◌else◌, to_word, add_word}

-- 2 ^ 31 - 1
abbrev pub modulus : ℕ
modulus = 0x7fffffff

-- `value` of `MetaRandomGenerator` from the value `s` of the generator before.
unfoldable pub next_value : ℕ → ℕ
next_value s =
    let lo = to_word 32 (16807 * bit_and s 0xffff) in
    let hi = to_word 32 (16807 * (s / 2 ^ 16)) in
    let lo2 = add_word 32 lo (to_word 32 (bit_and hi 0x7fff * 2 ^ 16)) in
    let lo3 = add_word 32 lo2 hi in if ltb modulus lo3 then lo3 - modulus else lo3

-- The digits of `__TIME__`.
pub record Time : Type 0 where
  pub h10 : ℕ
  pub h1 : ℕ
  pub m10 : ℕ
  pub m1 : ℕ
  pub s10 : ℕ
  pub s1 : ℕ

-- `MetaRandomGenerator<-1>::value`, and `MetaRandomGenerator<n>::value`.
unfoldable pub seed : Time → ℕ
seed t = t.s1 + t.s10 * 10 + t.m1 * 60 + t.m10 * 600 + t.h1 * 3600 + t.h10 * 36000

unfoldable pub random : Time → ℕ → ℕ
unfolding seed next_value
random t zero = next_value (seed t)
random t (suc n) = next_value (random t n)

-- `ByteShifter<word, shift>::byte`
unfoldable pub byte : ℕ → ℕ → ℕ
byte word shift = bit_and (word / 2 ^ (shift % 4 * 8)) 0xff

-- The constructor of `ObscureStr`, for the characters from the index i on.
unfoldable pub obscure : ℕ → ℕ → List ℕ → List ℕ
unfolding byte
obscure key i [] = []
obscure key i (c ∷ cs) = bit_xor c (byte key i) ∷ obscure key (i + 1) cs

-- The loop of `deobscure`.
unfoldable pub deobscure : ℕ → List ℕ → List ℕ
deobscure key [] = []
deobscure key (c ∷ cs) =
    let conversion_key = bit_and key 0xff in
    bit_xor c conversion_key
    ∷ deobscure (bit_or (to_word 32 (conversion_key * 2 ^ 24)) (key / 2 ^ 8)) cs

-- `obscureStr`, of a string with its NUL: what the object holds.
unfoldable pub obscured : Time → ℕ → List ℕ → List ℕ
unfolding random obscure
obscured t counter str = obscure (random t counter) 0 str

-- A `char const *`: the characters that it leads to, and whether their object still exists.
pub record Pointer : Type 0 where
  pub chars : List ℕ
  pub exists : Bool

-- The temporary object after `deobscure`.
unfoldable pub decoded : Time → ℕ → List ℕ → List ℕ
unfolding deobscure obscured
decoded t counter str = deobscure (random t counter) (obscured t counter str)

-- The pointer leads into the temporary object, which is destroyed at the return.
unfoldable pub obscure_str : Time → ℕ → List ℕ → Pointer
unfolding decoded
obscure_str t counter str = record { chars = decoded t counter str; exists = false }
