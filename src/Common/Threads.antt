-- ===== src/Common/Threads.antt =====
-- Threads that share memory: a list of program counters, one of which moves at a time.
use Prim.Native.Nat.{ℕ, zero, suc, ◌+◌, ◌≤◌}
use mathlib.Core.Path.{◌≡◌, refl}
use mathlib.Core.List.{List, [], ◌∷◌, ◌++◌}
use native.Mathlib.Omega.{arith}
use bugat.Common.Lists.{replicate}

module _ {ℓ} {A : Type ℓ} (weight : A → ℕ) where
  -- The weights of all threads together.
  unfoldable pub total : List A → ℕ
  total [] = 0
  total (p ∷ ps) = weight p + total ps

  -- What one thread weighs besides the others.
  pub total-split :
      (left : List A) (p : A) (right : List A)
      → total (left ++ p ∷ right) ≡ weight p + (total left + total right)
  unfolding total
  total-split [] p right = omega arith
  total-split (q ∷ left) p right = omega (arith, total-split left p right)

  pub total-replicate : (n : ℕ) (p : A) → weight p ≡ 0 → total (replicate n p) ≡ 0
  unfolding total
  total-replicate zero p h = refl
  total-replicate (suc n) p h = omega (arith, h, total-replicate n p h)

pub total_mono {ℓ} :
    {A : Type ℓ} (v w : A → ℕ) → ((p : A) → v p ≤ w p) → (ps : List A) → total v ps ≤ total w ps
unfolding total
total_mono v w h [] = omega arith
total_mono v w h (p ∷ ps) = omega (arith, h p, total_mono v w h ps)
