-- ===== src/Prelude/Decimal.antt =====
-- Numbers as text, the way `printf` writes them, and what such a text is worth.
use Prim.Native.Nat.{ℕ, zero, suc, ◌+◌, ◌-◌, ◌*◌, ◌/◌, ◌%◌, ◌^◌, ◌≤◌, ◌<◌}
use mathlib.Core.Bool.{Bool}
use mathlib.Core.Path.{◌≡◌, refl}
use mathlib.Core.List.{List, [], ◌∷◌, ◌++◌}
use native.Mathlib.Nat.{pow-suc}
use native.Mathlib.Omega.{arith}
use native.Mathlib.Decide.{dec_lt}
use tripping_robot.Prelude.Tests.{ltb, if◌then◌else◌}
use tripping_robot.Prelude.Lists.{length, replicate, length-append, length-replicate}

-- The decimal digits of a number of at most `fuel` of them.
unfoldable pub digits : ℕ → ℕ → List ℕ
digits zero n = []
digits (suc fuel) n =
    let higher = digits fuel (n / 10) in
    if ltb n 10 then (b'0' + n) ∷ [] else higher ++ (b'0' + n % 10) ∷ []

-- `%u`: every 64-bit number has at most 20 digits.
unfoldable pub unsigned : ℕ → List ℕ
unsigned n = digits 20 n

-- `%d` and `%+d` of the bit pattern of an `int`
unfoldable pub signed : Bool → ℕ → List ℕ
signed plus n =
    if ltb n (2 ^ 31)
    then (if plus then b'+' ∷ unsigned n else unsigned n)
    else b'-' ∷ unsigned (2 ^ 32 - n)

-- A field width: at least `width` characters, filled up on the left.
unfoldable pub pad : ℕ → ℕ → List ℕ → List ℕ
pad width fill t = replicate (width - length t) fill ++ t

length-digits : (fuel d n : ℕ) → n < 10 ^ suc d → length (digits fuel n) ≤ suc d
unfolding digits
length-digits zero d n h = omega arith
length-digits (suc fuel) zero n h = ground arith
length-digits (suc fuel) (suc d) n h = ground (
  arith,
  length-digits fuel d (n / 10) (omega arith),
  length-append (digits fuel (n / 10)) ((b'0' + n % 10) ∷ []),
)

pub length-unsigned : (d n : ℕ) → n < 10 ^ suc d → length (unsigned n) ≤ suc d
unfolding unsigned
length-unsigned d n h = length-digits 20 d n h

pub length-pad :
    (width fill b : ℕ) (t : List ℕ) → length t ≤ b → length (pad width fill t) ≤ width - b + b
unfolding pad
length-pad width fill b t h = omega (
  arith,
  length-append (replicate (width - length t) fill) t,
  length-replicate (width - length t) fill,
)

pub length_full :
    (width fill : ℕ) (t : List ℕ) → length t ≤ width → length (pad width fill t) ≡ width
unfolding pad
length_full width fill t h = omega (
  arith,
  length-append (replicate (width - length t) fill) t,
  length-replicate (width - length t) fill,
)

-- What a text is worth, read from the left.
abbrev value_from : ℕ → List ℕ → ℕ
value_from acc [] = acc
value_from acc (c ∷ t) = value_from (acc * 10 + (c - b'0')) t

abbrev pub value : List ℕ → ℕ
value t = value_from 0 t

-- Every character is a digit.
abbrev pub IsNumeral : List ℕ → Type 0
IsNumeral [] = Unit {0}
IsNumeral (c ∷ t) = ((b'0' ≤ c) × (c ≤ b'9')) × IsNumeral t

value_from_append :
    (acc : ℕ) (t u : List ℕ) → value_from acc (t ++ u) ≡ value_from (value_from acc t) u
value_from_append acc [] u = refl
value_from_append acc (c ∷ t) u = value_from_append (acc * 10 + (c - b'0')) t u

append-IsNumeral : (t u : List ℕ) → IsNumeral t → IsNumeral u → IsNumeral (t ++ u)
append-IsNumeral [] u ht hu = hu
append-IsNumeral (c ∷ t) u ht hu = (ht.0, append-IsNumeral t u ht.1 hu)

value-digits : (fuel n : ℕ) → n < 10 ^ fuel → value (digits fuel n) ≡ n
unfolding digits
value-digits zero n h = omega arith
value-digits (suc fuel) n h = ground (
  arith,
  pow-suc 10 fuel,
  value_from_append 0 (digits fuel (n / 10)) ((b'0' + n % 10) ∷ []),
  value-digits fuel (n / 10),
)

digits-IsNumeral : (fuel n : ℕ) → IsNumeral (digits fuel n)
unfolding digits
digits-IsNumeral zero n = tt
digits-IsNumeral (suc fuel) n = elim (dec_lt n 10) [
  | yes small ↦ ground arith
  | no large ↦
      let rest : IsNumeral (digits fuel (n / 10) ++ (b'0' + n % 10) ∷ []) =
        append-IsNumeral (digits fuel (n / 10)) ((b'0' + n % 10) ∷ [])
          (digits-IsNumeral fuel (n / 10)) ((omega arith, omega arith), tt) in
      ground arith
]

pub value-unsigned : (n : ℕ) → n < 2 ^ 64 → value (unsigned n) ≡ n
unfolding unsigned
value-unsigned n h = value-digits 20 n (omega arith)

pub unsigned-IsNumeral : (n : ℕ) → IsNumeral (unsigned n)
unfolding unsigned
unsigned-IsNumeral n = digits-IsNumeral 20 n

-- Zeros on the left change nothing.
value_zeros : (k : ℕ) (t : List ℕ) → value (replicate k b'0' ++ t) ≡ value t
value_zeros zero t = refl
value_zeros (suc k) t = value_zeros k t

zeros-IsNumeral : (k : ℕ) (t : List ℕ) → IsNumeral t → IsNumeral (replicate k b'0' ++ t)
zeros-IsNumeral zero t h = h
zeros-IsNumeral (suc k) t h = ((omega arith, omega arith), zeros-IsNumeral k t h)

pub value-pad : (width : ℕ) (t : List ℕ) → value (pad width b'0' t) ≡ value t
unfolding pad
value-pad width t = value_zeros (width - length t) t

pub pad-IsNumeral : (width : ℕ) (t : List ℕ) → IsNumeral t → IsNumeral (pad width b'0' t)
unfolding pad
pad-IsNumeral width t h = zeros-IsNumeral (width - length t) t h
