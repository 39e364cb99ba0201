-- ===== src/SharedPtr/Tests.antt =====
-- Runs of the pointers of Core/memory/TSharedPtr.h.
use bugat.Common.{◌≡◌, refl, true, some, List, [], ◌∷◌, arith}
use bugat.SharedPtr.Counts.{Counted}
use bugat.SharedPtr.Owners.{AllValid, apply_all-Counted}
use bugat.SharedPtr.{
  Op, op_construct, op_construct_deleter, op_copy_construct, op_move_construct, op_cast, op_reset,
  op_copy_assign, op_move_assign, apply, apply_all, start, construct, construct_deleter,
  copy_construct, move_construct, static_pointer_cast, copy_assign, move_assign, reset,
  add_ref_count, sub_ref_count,
}

-- Two objects; the first loses its last pointer, the second keeps one.
abbrev ops : List Op
ops =
    op_construct (some 5)
    ∷ op_construct_deleter (some 6) true
    ∷ op_copy_construct 0
    ∷ op_move_construct 0
    ∷ op_cast 1
    ∷ op_copy_assign 2 1
    ∷ op_move_assign 3 4
    ∷ op_reset 1
    ∷ op_reset 2
    ∷ []

ops-AllValid : AllValid start ops
unfolding start apply construct construct_deleter copy_construct move_construct static_pointer_cast
    copy_assign move_assign reset add_ref_count sub_ref_count
ops-AllValid = omega arith

apply_all-Counted_example : Counted (apply_all ops start)
apply_all-Counted_example = apply_all-Counted ops ops-AllValid (omega arith)

first_is_freed : ((apply_all ops start).obj 5).freed ≡ 1
unfolding start apply apply_all construct construct_deleter copy_construct move_construct
    static_pointer_cast copy_assign move_assign reset add_ref_count sub_ref_count
first_is_freed = refl

second_has_one : ((apply_all ops start).obj 6).ref_count ≡ 1
unfolding start apply apply_all construct construct_deleter copy_construct move_construct
    static_pointer_cast copy_assign move_assign reset add_ref_count sub_ref_count
second_has_one = refl
