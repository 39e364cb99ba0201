-- ===== src/Param.antt =====
-- Base/Param.h: numbers with four decimals in an `int32_t`, which stay within bounds.
-- What the code does with `float` and `double` is the parameter `Floats`.
pub mod Saturation
mod Tests
use bugat.Common.{ℕ, ◌+◌, ◌-◌, ◌^◌, ◌≤◌, Bool, List, [], ◌∷◌, ◌++◌, if◌then◌else◌}
use bugat.Common.Int.{ℤ, pos, negsuc, pos_part, neg_part, ◌+ℤ◌, ◌-ℤ◌, ltb_ℤ}

-- `of_real` is `static_cast<int>(value * decimal)`, and `to_real` `(float)_value / decimal`;
-- `times` and `over` are the casts of `(double)_value * v / decimal` and `(double)_value / v / decimal`.
pub record Floats : Type 1 where
  pub Real : Type 0
  pub of_real : Real → ℤ
  pub to_real : ℤ → Real
  pub times : ℤ → Real → ℤ
  pub over : ℤ → Real → ℤ
  pub is_zero : Real → Bool
  pub one : Real

abbrev pub max : ℤ
max = pos (2 ^ 30)

abbrev pub min : ℤ
min = negsuc (2 ^ 30 - 1)

-- An `int` after an addition or a subtraction of two.
unfoldable pub wrap32 : ℤ → ℤ
wrap32 v =
    if ltb_ℤ (pos (2 ^ 31 - 1)) v
    then v -ℤ pos (2 ^ 32)
    else if ltb_ℤ v (negsuc (2 ^ 31 - 1))
    then v +ℤ pos (2 ^ 32)
    else v

-- The two tests at the end of each operator
unfoldable pub limit : ℤ → ℤ
limit v = if ltb_ℤ max v then max else if ltb_ℤ v min then min else v

-- `operator-` and `operator+`, which change the object, as `operator-=` and `operator+=` do.
unfoldable pub subtract : ℤ → ℤ → ℤ
subtract value delta = limit (wrap32 (value -ℤ delta))

unfoldable pub add : ℤ → ℤ → ℤ
add value delta = limit (wrap32 (value +ℤ delta))

module _ (F : Floats) where
  -- `operator*` and `operator/`
  abbrev pub multiply : ℤ → ℤ → ℤ
  multiply value delta = limit (F.times value (F.to_real delta))

  abbrev pub divide : ℤ → ℤ → ℤ
  divide value delta =
      let v = F.to_real delta in limit (F.over value (if F.is_zero v then F.one else v))
