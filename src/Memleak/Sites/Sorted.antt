-- ===== src/Memleak/Sites/Sorted.antt =====
-- What `list_push_record` promises: a list of records in the order of their files and lines, in which
-- one record is counted up or added.
use Prim.Native.Nat.{Ordering}
use tripping_robot.Prelude.{ℕ, Bool, Option, none, some, List, [], ◌∷◌}
use tripping_robot.Memleak.{Abi, Text, AllocRecord}
use tripping_robot.Memleak.Sites.{place_of, bump, new_record}

-- The record after one more allocation from its file and line.
unfoldable pub grow : Abi → Text → ℕ → ℕ → Bool → Option AllocRecord → AllocRecord
grow abi file line size overalloc none = new_record file line size overalloc
grow abi file line size overalloc (some r) = bump abi size overalloc r

unfoldable pub push : Abi → Text → ℕ → ℕ → Bool → List AllocRecord → List AllocRecord
push abi file line size overalloc [] = new_record file line size overalloc ∷ []
push abi file line size overalloc (r ∷ rs) =
    let rest = push abi file line size overalloc rs in
    elim (place_of file line r) [
      | Ordering.gt ↦ new_record file line size overalloc ∷ r ∷ rs
      | Ordering.eq ↦ bump abi size overalloc r ∷ rs
      | Ordering.lt ↦ r ∷ rest
    ]
