-- ===== src/Obscurestr/Tests.antt =====
-- obscurestr/obscurestr.hpp: the theorems at concrete strings and times.
use tripping_robot.Prelude.{ℕ, ◌≡◌, arith, false, List, [], ◌∷◌}
use tripping_robot.Obscurestr.{Time, obscure_str}
use tripping_robot.Obscurestr.Key.{IsTime}
use tripping_robot.Obscurestr.Code.{obscure_str_lem}

abbrev text : List ℕ
text = b'a' ∷ b'b' ∷ b'c' ∷ b'd' ∷ b'e' ∷ 0 ∷ []

-- 12:34:56
abbrev noon : Time
noon = record { h10 = 1; h1 = 2; m10 = 3; m1 = 4; s10 = 5; s1 = 6 }

abbrev noon_IsTime : IsTime noon
noon_IsTime = record {
  h10 = omega arith;
  h1 = omega arith;
  m10 = omega arith;
  m1 = omega arith;
  s10 = omega arith;
  s1 = omega arith;
}

obscure_str_lem_example : obscure_str noon 3 text ≡ record { chars = text; exists = false }
obscure_str_lem_example = obscure_str_lem noon 3 text noon_IsTime
