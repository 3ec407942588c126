-- ===== src/Obscurestr/Code.antt =====
-- obscurestr/obscurestr.hpp: decoding a string gives the one that was encoded.
use tripping_robot.Prelude.{ℕ, ◌+◌, ◌*◌, ◌/◌, ◌%◌, ◌^◌, ◌<◌, ◌≡◌, refl, sym, ap, ◌∙◌, arith}
use tripping_robot.Prelude.{false, List, [], ◌∷◌, bit_and, bit_or, to_word}
use tripping_robot.Prelude.Bits.{and-mask, or_fields, xor-xor}
use tripping_robot.Obscurestr.{
  Time, byte, obscure, deobscure, random, obscured, decoded, obscure_str,
}
use tripping_robot.Obscurestr.Key.{IsTime, random_le}

-- The word of four bytes, the lowest first.
abbrev word : ℕ → ℕ → ℕ → ℕ → ℕ
word a b c d = a + b * 2 ^ 8 + c * 2 ^ 16 + d * 2 ^ 24

-- The key is turned by one byte.
turn :
    (a b c d : ℕ)
    → a < 2 ^ 8
    → b < 2 ^ 8
    → c < 2 ^ 8
    → d < 2 ^ 8
    → (bit_and (word a b c d) 0xff ≡ a)
      × (bit_or (to_word 32 (a * 2 ^ 24)) (word a b c d / 2 ^ 8) ≡ word b c d a)
turn a b c d ha hb hc hd =
    let high : to_word 32 (a * 2 ^ 24) ≡ a * 2 ^ 24 = omega arith in
    let rest : word a b c d / 2 ^ 8 ≡ b + c * 2 ^ 8 + d * 2 ^ 16 = omega arith in
    (
      omega (arith, and-mask 8 (word a b c d)),
      rw (high, rest) (omega (arith, or_fields 24 a (b + c * 2 ^ 8 + d * 2 ^ 16) (omega arith))),
    )

byte-lt : (key i : ℕ) → byte key i < 2 ^ 8
unfolding byte
byte-lt key i = omega (arith, and-mask 8 (key / 2 ^ (i % 4 * 8)))

byte-turn : (key i : ℕ) → byte key (i + 1 + 1 + 1 + 1) ≡ byte key i
unfolding byte
byte-turn key i =
    ap (λ t. bit_and (key / 2 ^ (t * 8)) 0xff) {x = (i + 1 + 1 + 1 + 1) % 4} {y = i % 4}
      (omega arith)

abbrev key_at : ℕ → ℕ → ℕ
key_at key i =
    word (byte key i) (byte key (i + 1)) (byte key (i + 1 + 1)) (byte key (i + 1 + 1 + 1))

deobscure-obscure_at :
    (key i : ℕ) (str : List ℕ) → deobscure (key_at key i) (obscure key i str) ≡ str
unfolding deobscure obscure
deobscure-obscure_at key i [] = refl
deobscure-obscure_at key i (c ∷ cs) =
    let (low, next) =
      turn (byte key i) (byte key (i + 1)) (byte key (i + 1 + 1)) (byte key (i + 1 + 1 + 1))
        (byte-lt key i) (byte-lt key (i + 1)) (byte-lt key (i + 1 + 1))
        (byte-lt key (i + 1 + 1 + 1)) in
    let again =
      ap
        (λ t.
          deobscure (word (byte key (i + 1)) (byte key (i + 1 + 1)) (byte key (i + 1 + 1 + 1)) t)
            (obscure key (i + 1) cs))
        (sym (byte-turn key i))
      ∙ deobscure-obscure_at key (i + 1) cs in
    rw (low, next, xor-xor c (byte key i)) (ap (◌∷◌ c) again)

-- The key is the word of its four bytes.
key_at-zero : (key : ℕ) → key < 2 ^ 32 → key_at key 0 ≡ key
unfolding byte
key_at-zero key h = omega (
  arith,
  and-mask 8 (key / 2 ^ 0),
  and-mask 8 (key / 2 ^ 8),
  and-mask 8 (key / 2 ^ 16),
  and-mask 8 (key / 2 ^ 24),
)

-- For every key of 32 bits and every string, the loop of `deobscure` gives back the string that the
-- constructor encoded, whatever the length is.
pub deobscure-obscure :
    (key : ℕ) (str : List ℕ) → key < 2 ^ 32 → deobscure key (obscure key 0 str) ≡ str
deobscure-obscure key str h =
    ap (λ t. deobscure t (obscure key 0 str)) (sym (key_at-zero key h))
    ∙ deobscure-obscure_at key 0 str

-- In a program that is compiled at a time of day, the pointer that `obscureStr` returns leads to the
-- characters of its argument, decoded, but in a temporary object that does not exist any more.
pub obscure_str_lem :
    (t : Time) (counter : ℕ) (str : List ℕ)
    → IsTime t
    → obscure_str t counter str ≡ record { chars = str; exists = false }
unfolding obscure_str decoded obscured
obscure_str_lem t counter str h =
    ap (λ u. record { chars = u; exists = false })
      (deobscure-obscure (random t counter) str (omega (arith, random_le t counter h)))
