-- ===== src/Rtti.antt =====
-- Core/RTTI.h: types with an id and the type of their base class, and the test `IsA` that walks up.
pub mod Ancestors
mod Tests
use bugat.Common.{
  ℕ, zero, suc, ◌+◌, Bool, true, false, Option, none, some, List, [], ◌∷◌, ◌==◌, if◌then◌else◌,
}

-- `TypeInfo`: a class without a base class has no `_parents`.
pub data TypeInfo : Type 0 where
  root : (id : ℕ) → TypeInfo
  derived : (id : ℕ) (parents : TypeInfo) → TypeInfo

abbrev pub id_of : TypeInfo → ℕ
id_of (root id) = id
id_of (derived id parents) = id

abbrev pub parents_of : TypeInfo → Option TypeInfo
parents_of (root id) = none
parents_of (derived id parents) = some parents

-- The loop `while (parents != nullptr)` of `IsA`, from a type on that is not null.
unfoldable pub walk : ℕ → TypeInfo → Bool
walk target (root id) = id == target
walk target (derived id parents) =
    let rest = walk target parents in if id == target then true else rest

-- `IsA<T>(instance)`, for the type of the instance.
unfoldable pub is_a : TypeInfo → TypeInfo → Bool
is_a target info =
    if id_of info == id_of target
    then true
    else elim (parents_of info) [ none ↦ false | some parents ↦ walk (id_of target) parents ]

-- `Cast<T>(instance)`, where a pointer is a number.
abbrev pub cast : TypeInfo → TypeInfo → ℕ → Option ℕ
cast target info instance_ptr = if is_a target info then some instance_ptr else none
