-- ===== src/Common/Count.antt =====
-- How often a number stands in a list.
use Prim.Native.Nat.{ℕ, ◌+◌}
use mathlib.Core.Path.{◌≡◌}
use mathlib.Core.List.{List, [], ◌∷◌, ◌++◌}
use native.Mathlib.Omega.{arith}
use workflow_mcp.Common.Tests.{◌==◌, if◌then◌else◌}

abbrev pub count : ℕ → List ℕ → ℕ
count n [] = 0
count n (m ∷ ms) = (if m == n then 1 else 0) + count n ms

pub count-append : (n : ℕ) (ms ks : List ℕ) → count n (ms ++ ks) ≡ count n ms + count n ks
count-append n [] ks = omega arith
count-append n (m ∷ ms) ks = omega (arith, count-append n ms ks)
