-- ===== src/Rtti/Ancestors.antt =====
-- `IsA` of Core/RTTI.h is the relation of a class to its base classes.
use bugat.Common.{
  ℕ, ◌≡◌, ◌↔◌, inl, inr, sym, ap, ◌∙◌, true, none, some, ◌==◌, ==_iff, if◌then◌else◌, Bool-cases,
  arith,
}
use bugat.Rtti.{TypeInfo, root, derived, id_of, walk, is_a, cast}

-- `target` is the class or one of its base classes.
pub data Ancestor (target : ℕ) : TypeInfo → Type 0 where
  itself : {info : TypeInfo} → id_of info ≡ target → Ancestor target info
  above :
      {id : ℕ} {parents : TypeInfo} → Ancestor target parents → Ancestor target (derived id parents)

is_a-walk : (target info : TypeInfo) → is_a target info ≡ walk (id_of target) info
unfolding is_a walk
is_a-walk target (root id) = ground arith
is_a-walk target (derived id parents) = ground arith

walk-Ancestor : (target : ℕ) (info : TypeInfo) → walk target info ≡ true → Ancestor target info
unfolding walk
walk-Ancestor target (root id) h = itself ((==_iff id target).0 h)
walk-Ancestor target (derived id parents) h = elim (Bool-cases (id == target)) [
  | inl same ↦ itself ((==_iff id target).0 same)
  | inr other ↦ above (walk-Ancestor target parents (ground arith))
]

walk_self : (info : TypeInfo) → walk (id_of info) info ≡ true
unfolding walk
walk_self (root id) = ground arith
walk_self (derived id parents) = ground arith

Ancestor-walk : (target : ℕ) {info : TypeInfo} → Ancestor target info → walk target info ≡ true
unfolding walk
Ancestor-walk target {info = info} (itself e) = ap (λ t. walk t info) (sym e) ∙ walk_self info
Ancestor-walk target (above a) = ground (arith, Ancestor-walk target a)

-- `IsA` finds every class that is the class of the instance or one of its base classes, however far
-- up, and no other; and `Cast` gives the instance back just then.
pub is_a_iff :
    (target info : TypeInfo) (instance_ptr : ℕ)
    → ((is_a target info ≡ true) ↔ Ancestor (id_of target) info)
      × ((cast target info instance_ptr ≡ some instance_ptr) ↔ Ancestor (id_of target) info)
is_a_iff target info p = (
  (λ h. walk-Ancestor (id_of target) info (sym (is_a-walk target info) ∙ h), λ a. found a),
  (
    λ h. walk-Ancestor (id_of target) info (sym (is_a-walk target info) ∙ cast_true h),
    λ a. ap (λ b. if b then some p else none) (found a),
  ),
)
  where
    found : Ancestor (id_of target) info → is_a target info ≡ true
    found a = is_a-walk target info ∙ Ancestor-walk (id_of target) a

    cast_true : cast target info p ≡ some p → is_a target info ≡ true
    cast_true h = ground arith
