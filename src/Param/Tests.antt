-- ===== src/Param/Tests.antt =====
-- Sums at the bounds of Base/Param.h.
use bugat.Common.{◌≡◌, refl, false, arith}
use bugat.Common.Int.{ℤ, pos, ◌+ℤ◌, ◌-ℤ◌}
use bugat.Param.Saturation.{InRange, Sum, Difference, operators-InRange}
use bugat.Param.{Floats, max, wrap32, limit, subtract, add, multiply, divide}

-- Reals that are whole numbers, of which a product and a quotient stay as they are.
abbrev whole : Floats
whole = record {
  Real = ℤ;
  of_real = λ r. r;
  to_real = λ v. v;
  times = λ v r. v;
  over = λ v r. v;
  is_zero = λ r. false;
  one = pos 1;
}

cut_off : add max (pos 5) ≡ max
unfolding add ◌+ℤ◌ ◌-ℤ◌ wrap32 limit
cut_off = refl

operators-InRange_example :
    Sum max max
    × Difference max max
    × InRange (add max max)
    × InRange (subtract max max)
    × InRange (multiply whole max max)
    × InRange (divide whole max max)
operators-InRange_example =
    operators-InRange whole max max (record { above = omega arith; below = omega arith })
      (record { above = omega arith; below = omega arith })
