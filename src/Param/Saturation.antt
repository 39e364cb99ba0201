-- ===== src/Param/Saturation.antt =====
-- The bounds of Base/Param.h.
use bugat.Common.{
  ◌-◌, ◌^◌, ◌≤◌, ◌≡◌, ◌⊎◌, inl, inr, refl, ap, ap₂, ◌∙◌, dec_lt, if◌then◌else◌, arith,
}
use bugat.Common.Int.{ℤ, pos, negsuc, pos_part, neg_part, ◌+ℤ◌, ◌-ℤ◌}
use bugat.Param.{Floats, max, min, wrap32, limit, subtract, add, multiply, divide}

pub record InRange (v : ℤ) : Type 0 where
  pub above : pos_part v ≤ 2 ^ 30
  pub below : neg_part v ≤ 2 ^ 30

limit-InRange : (v : ℤ) → InRange (limit v)
unfolding limit
limit-InRange (pos n) = record { above = ground arith; below = ground arith }
limit-InRange (negsuc n) = record { above = ground arith; below = ground arith }

wrap32-small : (v : ℤ) → pos_part v ≤ 2 ^ 31 - 1 → neg_part v ≤ 2 ^ 31 → wrap32 v ≡ v
unfolding wrap32
wrap32-small (pos n) h k = ground arith
wrap32-small (negsuc n) h k = ground arith

abbrev pub Sum : ℤ → ℤ → Type 0
Sum a b = (add a b ≡ limit (a +ℤ b)) ⊎ ((a ≡ max) × (b ≡ max) × (add a b ≡ min))

abbrev pub Difference : ℤ → ℤ → Type 0
Difference a b = (subtract a b ≡ limit (a -ℤ b)) ⊎ ((a ≡ max) × (b ≡ min) × (subtract a b ≡ min))

-- Two numbers in range leave the `int`s by one at most, above.
sum_small :
    (a b : ℤ) → InRange a → InRange b → pos_part (a +ℤ b) ≤ 2 ^ 31 - 1 → add a b ≡ limit (a +ℤ b)
unfolding add ◌+ℤ◌
sum_small a b h k small = ap limit (wrap32-small (a +ℤ b) small (ground (arith, h.below, k.below)))

sum_large : (a b : ℤ) → InRange a → InRange b → 2 ^ 31 ≤ pos_part (a +ℤ b) → (a ≡ max) × (b ≡ max)
unfolding ◌+ℤ◌
sum_large (pos a) (pos b) h k large =
    (ground (arith, h.above, k.above), ground (arith, h.above, k.above))
sum_large (pos a) (negsuc b) h k large = absurd (ground (arith, h.above, k.above))
sum_large (negsuc a) (pos b) h k large = absurd (ground (arith, h.above, k.above))
sum_large (negsuc a) (negsuc b) h k large = absurd (ground (arith, h.above, k.above))

difference_small :
    (a b : ℤ)
    → InRange a
    → InRange b
    → pos_part (a -ℤ b) ≤ 2 ^ 31 - 1
    → subtract a b ≡ limit (a -ℤ b)
unfolding subtract ◌-ℤ◌
difference_small a b h k small =
    ap limit (wrap32-small (a -ℤ b) small (ground (arith, h.below, k.above)))

difference_large :
    (a b : ℤ) → InRange a → InRange b → 2 ^ 31 ≤ pos_part (a -ℤ b) → (a ≡ max) × (b ≡ min)
unfolding ◌-ℤ◌
difference_large (pos a) (pos b) h k large = absurd (ground (arith, h.above, k.below))
difference_large (pos a) (negsuc b) h k large =
    (ground (arith, h.above, k.below), ground (arith, h.above, k.below))
difference_large (negsuc a) (pos b) h k large = absurd (ground (arith, h.above, k.below))
difference_large (negsuc a) (negsuc b) h k large = absurd (ground (arith, h.above, k.below))

max-add : add max max ≡ min
unfolding add ◌+ℤ◌ ◌-ℤ◌ wrap32 limit
max-add = refl

max-subtract : subtract max min ≡ min
unfolding subtract ◌+ℤ◌ ◌-ℤ◌ wrap32 limit
max-subtract = refl

add-Sum : (a b : ℤ) → InRange a → InRange b → Sum a b
add-Sum a b h k = elim (dec_lt (pos_part (a +ℤ b)) (2 ^ 31)) [
  | yes small ↦ inl (sum_small a b h k (omega arith))
  | no large ↦ let (x, y) = sum_large a b h k (omega arith) in inr (x, y, ap₂ add x y ∙ max-add)
]

subtract-Difference : (a b : ℤ) → InRange a → InRange b → Difference a b
subtract-Difference a b h k = elim (dec_lt (pos_part (a -ℤ b)) (2 ^ 31)) [
  | yes small ↦ inl (difference_small a b h k (omega arith))
  | no large ↦
      let (x, y) = difference_large a b h k (omega arith) in
      inr (x, y, ap₂ subtract x y ∙ max-subtract)
]

-- A sum and a difference of numbers in range are the exact ones, cut off at the bounds, except
-- that the largest plus the largest, and the largest minus the least, leave the `int`s and come
-- out as the least. Whatever the floating point gives, all four operators stay in range.
pub operators-InRange :
    (F : Floats) (a b : ℤ)
    → InRange a
    → InRange b
    → Sum a b
      × Difference a b
      × InRange (add a b)
      × InRange (subtract a b)
      × InRange (multiply F a b)
      × InRange (divide F a b)
unfolding add subtract
operators-InRange F a b h k = (
  add-Sum a b h k,
  subtract-Difference a b h k,
  limit-InRange (wrap32 (a +ℤ b)),
  limit-InRange (wrap32 (a -ℤ b)),
  limit-InRange (F.times a (F.to_real b)),
  limit-InRange (F.over a (if F.is_zero (F.to_real b) then F.one else F.to_real b)),
)
