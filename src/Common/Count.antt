-- ===== src/Common/Count.antt =====
-- How often a number stands in a list.
use Prim.Native.Nat.{ℕ, ◌+◌}
use mathlib.Core.Path.{◌≡◌}
use mathlib.Core.List.{List, [], ◌∷◌, ◌++◌}
use native.Mathlib.Omega.{arith}
use bugat.Common.Tests.{ltb, ◌==◌, if◌then◌else◌}

abbrev pub is : ℕ → ℕ → ℕ
is q x = if x == q then 1 else 0

unfoldable pub count : ℕ → List ℕ → ℕ
count q [] = 0
count q (x ∷ xs) = is q x + count q xs

pub count-append : (q : ℕ) (xs ys : List ℕ) → count q (xs ++ ys) ≡ count q xs + count q ys
unfolding count
count-append q [] ys = omega arith
count-append q (x ∷ xs) ys = omega (arith, count-append q xs ys)

pub count-append_one : (q : ℕ) (xs : List ℕ) (x : ℕ) → count q (xs ++ x ∷ []) ≡ count q xs + is q x
unfolding count
count-append_one q xs x = omega (arith, count-append q xs (x ∷ []))

-- One for the numbers below a bound.
abbrev pub below : ℕ → ℕ → ℕ
below k n = if ltb k n then 1 else 0

pub below_next : (k n : ℕ) → below k (n + 1) ≡ below k n + is k n
below_next k n = ground arith
