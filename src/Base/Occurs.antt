-- ===== src/Base/Occurs.antt =====
-- How often a number occurs in a list: what is given, kept and given back is compared by it.
use Prim.Native.Nat.{ℕ, ◌+◌}
use mathlib.Core.Path.{◌≡◌}
use mathlib.Core.List.{List, [], ◌∷◌, ◌++◌}
use native.Mathlib.Omega.{arith}
use zynq_lwip_frtos.Base.Tests.{◌==◌, if◌then◌else◌}

abbrev pub occurs : ℕ → List ℕ → ℕ
occurs a [] = 0
occurs a (b ∷ bs) = (if a == b then 1 else 0) + occurs a bs

pub occurs-append : (a : ℕ) (xs ys : List ℕ) → occurs a (xs ++ ys) ≡ occurs a xs + occurs a ys
occurs-append a [] ys = omega arith
occurs-append a (x ∷ xs) ys = omega (arith, occurs-append a xs ys)
