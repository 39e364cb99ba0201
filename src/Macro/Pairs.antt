-- ===== src/Macro/Pairs.antt =====
-- What the parameter lists of Base/Macro.h declare.
use bugat.Common.{
  ℕ, ◌≡◌, refl, Option, none, some, List, [], ◌∷◌, map, length, leb, if◌then◌else◌, arith,
}
use bugat.Macro.{
  Declared, by_ref, by_copy, by_value, by_const_ref, parse_pairs, param_paser, ref_param_paser,
  copy_param_paser, value_param_paser, const_ref_param_paser,
}

-- The arguments as pairs of a type and a name, if there is an even number of them.
abbrev pub one_more : ℕ → ℕ → Option (List (ℕ × ℕ)) → Option (List (ℕ × ℕ))
one_more type name none = none
one_more type name (some ps) = some ((type, name) ∷ ps)

unfoldable pub paired : List ℕ → Option (List (ℕ × ℕ))
paired [] = some []
paired (type ∷ []) = none
paired (type ∷ name ∷ rest) = one_more type name (paired rest)

abbrev pub declare : (ℕ → ℕ → Declared) → Option (List (ℕ × ℕ)) → Option (List Declared)
declare pair none = none
declare pair (some ps) = some (map (λ p. pair p.0 p.1) ps)

-- What a list of arguments should declare: up to ten pairs, in order.
abbrev pub wanted : (ℕ → ℕ → Declared) → List ℕ → Option (List Declared)
wanted pair args = if leb (length args) 20 then declare pair (paired args) else none

expands : (pair : ℕ → ℕ → Declared) (args : List ℕ) → param_paser pair args ≡ wanted pair args
unfolding parse_pairs paired
expands pair [] = refl
expands pair (x0 ∷ []) = refl
expands pair (x0 ∷ x1 ∷ []) = refl
expands pair (x0 ∷ x1 ∷ x2 ∷ []) = refl
expands pair (x0 ∷ x1 ∷ x2 ∷ x3 ∷ []) = refl
expands pair (x0 ∷ x1 ∷ x2 ∷ x3 ∷ x4 ∷ []) = refl
expands pair (x0 ∷ x1 ∷ x2 ∷ x3 ∷ x4 ∷ x5 ∷ []) = refl
expands pair (x0 ∷ x1 ∷ x2 ∷ x3 ∷ x4 ∷ x5 ∷ x6 ∷ []) = refl
expands pair (x0 ∷ x1 ∷ x2 ∷ x3 ∷ x4 ∷ x5 ∷ x6 ∷ x7 ∷ []) = refl
expands pair (x0 ∷ x1 ∷ x2 ∷ x3 ∷ x4 ∷ x5 ∷ x6 ∷ x7 ∷ x8 ∷ []) = refl
expands pair (x0 ∷ x1 ∷ x2 ∷ x3 ∷ x4 ∷ x5 ∷ x6 ∷ x7 ∷ x8 ∷ x9 ∷ []) = refl
expands pair (x0 ∷ x1 ∷ x2 ∷ x3 ∷ x4 ∷ x5 ∷ x6 ∷ x7 ∷ x8 ∷ x9 ∷ x10 ∷ []) = refl
expands pair (x0 ∷ x1 ∷ x2 ∷ x3 ∷ x4 ∷ x5 ∷ x6 ∷ x7 ∷ x8 ∷ x9 ∷ x10 ∷ x11 ∷ []) = refl
expands pair (x0 ∷ x1 ∷ x2 ∷ x3 ∷ x4 ∷ x5 ∷ x6 ∷ x7 ∷ x8 ∷ x9 ∷ x10 ∷ x11 ∷ x12 ∷ []) = refl
expands pair (x0 ∷ x1 ∷ x2 ∷ x3 ∷ x4 ∷ x5 ∷ x6 ∷ x7 ∷ x8 ∷ x9 ∷ x10 ∷ x11 ∷ x12 ∷ x13 ∷ []) = refl
expands pair (x0 ∷ x1 ∷ x2 ∷ x3 ∷ x4 ∷ x5 ∷ x6 ∷ x7 ∷ x8 ∷ x9 ∷ x10 ∷ x11 ∷ x12 ∷ x13 ∷ x14 ∷ []) =
    refl
expands pair
      (x0 ∷ x1 ∷ x2 ∷ x3 ∷ x4 ∷ x5 ∷ x6 ∷ x7 ∷ x8 ∷ x9 ∷ x10 ∷ x11 ∷ x12 ∷ x13 ∷ x14 ∷ x15 ∷ []) =
    refl
expands pair
      (x0 ∷ x1 ∷ x2 ∷ x3 ∷ x4 ∷ x5 ∷ x6 ∷ x7 ∷ x8 ∷ x9 ∷ x10 ∷ x11 ∷ x12 ∷ x13 ∷ x14 ∷ x15 ∷ x16
        ∷ []) =
    refl
expands pair
      (x0 ∷ x1 ∷ x2 ∷ x3 ∷ x4 ∷ x5 ∷ x6 ∷ x7 ∷ x8 ∷ x9 ∷ x10 ∷ x11 ∷ x12 ∷ x13 ∷ x14 ∷ x15 ∷ x16
        ∷ x17 ∷ []) =
    refl
expands pair
      (x0 ∷ x1 ∷ x2 ∷ x3 ∷ x4 ∷ x5 ∷ x6 ∷ x7 ∷ x8 ∷ x9 ∷ x10 ∷ x11 ∷ x12 ∷ x13 ∷ x14 ∷ x15 ∷ x16
        ∷ x17 ∷ x18 ∷ []) =
    refl
expands pair
      (x0 ∷ x1 ∷ x2 ∷ x3 ∷ x4 ∷ x5 ∷ x6 ∷ x7 ∷ x8 ∷ x9 ∷ x10 ∷ x11 ∷ x12 ∷ x13 ∷ x14 ∷ x15 ∷ x16
        ∷ x17 ∷ x18 ∷ x19 ∷ []) =
    refl
expands pair
      (x0 ∷ x1 ∷ x2 ∷ x3 ∷ x4 ∷ x5 ∷ x6 ∷ x7 ∷ x8 ∷ x9 ∷ x10 ∷ x11 ∷ x12 ∷ x13 ∷ x14 ∷ x15 ∷ x16
        ∷ x17 ∷ x18 ∷ x19 ∷ x20 ∷ xs) =
    ground arith

-- For every list of arguments the four macros declare one parameter for each pair of a type and a
-- name, in order, if there are at most ten pairs; an odd number of arguments is an error, and so
-- are more than twenty.
pub param_pasers_declare :
    (args : List ℕ)
    → (ref_param_paser args ≡ wanted by_ref args)
      × (copy_param_paser args ≡ wanted by_copy args)
      × (value_param_paser args ≡ wanted (λ type name. by_value name) args)
      × (const_ref_param_paser args ≡ wanted by_const_ref args)
param_pasers_declare args = (
  expands by_ref args,
  expands by_copy args,
  expands (λ type name. by_value name) args,
  expands by_const_ref args,
)
