-- ===== src/Tasks/Tests.antt =====
-- A run of the tasks of Core/Task.h.
use bugat.Common.{◌≡◌, refl, List, [], ◌∷◌}
use bugat.Tasks.{Op, op_make, op_take, op_assign, op_run, op_delete, apply, apply_all, start}

-- A task is taken by a copy, assigned on, run and deleted; an assignment forgets another.
abbrev ops : List Op
ops =
    op_make
    ∷ op_make
    ∷ op_take 0
    ∷ op_assign 1 2
    ∷ op_run 0
    ∷ op_run 1
    ∷ op_delete 1
    ∷ op_delete 2
    ∷ []

ran_once : (apply_all ops start).runs ≡ 0 ∷ []
unfolding apply apply_all
ran_once = refl
