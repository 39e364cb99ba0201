-- ===== src/Tasks.antt =====
-- `AnyTask` of Core/Task.h: a variable that owns a task or none, whose copies take the task away.
-- A task is a number, and a variable is a place in a list.
pub mod Ownership
mod Tests
use bugat.Common.{ℕ, ◌+◌, Bool, Option, none, some, List, [], ◌∷◌, ◌++◌, ltb, ◌==◌, if◌then◌else◌}
use bugat.SharedPtr.{ptr_at, put_ptr}

-- `_task` of every variable; the tasks that were made, and how often each was deleted. `runs` and
-- `dead_runs` are a record for the theorems: the runs, and those of a task that was deleted.
pub record World : Type 0 where
  pub tasks : List (Option ℕ)
  pub made : ℕ
  pub deleted : ℕ → ℕ
  pub runs : List ℕ
  pub dead_runs : ℕ

abbrev pub start : World
start = record { tasks = []; made = 0; deleted = λ _. 0; runs = []; dead_runs = 0 }

-- `AnyTask(func, args...)`
abbrev pub make_task : World → World
make_task w = record w { tasks = w.tasks ++ some w.made ∷ []; made = w.made + 1 }

-- `AnyTask(AnyTask&)` and `AnyTask(AnyTask&&)`
abbrev pub take_task : ℕ → World → World
take_task j w = record w { tasks = put_ptr w.tasks j none ++ ptr_at w.tasks j ∷ [] }

-- `operator=`: the task that the variable had is forgotten.
abbrev pub assign_task : ℕ → ℕ → World → World
assign_task i j w = record w { tasks = put_ptr (put_ptr w.tasks i (ptr_at w.tasks j)) j none }

abbrev pub count_more : (ℕ → ℕ) → ℕ → ℕ → ℕ
count_more deleted t k = if t == k then deleted k + 1 else deleted k

-- `~AnyTask`; the variable is gone, and its place stays empty.
abbrev pub delete_task : ℕ → World → World
delete_task i w = elim (ptr_at w.tasks i) [
  | none ↦ w
  | some t ↦ record w { tasks = put_ptr w.tasks i none; deleted = count_more w.deleted t }
]

-- `Run`
abbrev pub run_task : ℕ → World → World
run_task i w = elim (ptr_at w.tasks i) [
  | none ↦ w
  | some t ↦ record w {
    runs = w.runs ++ t ∷ [];
    dead_runs = if ltb 0 (w.deleted t) then w.dead_runs + 1 else w.dead_runs;
  }
]

pub data Op : Type 0 where
  op_make : Op
  op_take op_delete op_run : ℕ → Op
  op_assign : ℕ → ℕ → Op

unfoldable pub apply : Op → World → World
apply op_make w = make_task w
apply (op_take j) w = take_task j w
apply (op_delete i) w = delete_task i w
apply (op_run i) w = run_task i w
apply (op_assign i j) w = assign_task i j w

unfoldable pub apply_all : List Op → World → World
apply_all [] w = w
apply_all (op ∷ ops) w = apply_all ops (apply op w)
