-- ===== src/Tasks/Ownership.antt =====
-- Who owns the tasks of Core/Task.h.
use bugat.Common.{ℕ, ◌+◌, ◌≤◌, ◌<◌, ◌≡◌, List, [], ◌∷◌, length, ltb, if◌then◌else◌}
use bugat.SharedPtr.Slots.{refs}
use bugat.Tasks.{World, Op, op_make, op_take, op_delete, op_run, op_assign, apply}

-- An operation is on variables that exist.
abbrev pub Valid : World → Op → Type 0
Valid w op_make = Unit
Valid w (op_take j) = j < length w.tasks
Valid w (op_delete i) = i < length w.tasks
Valid w (op_run i) = i < length w.tasks
Valid w (op_assign i j) = (i < length w.tasks) × (j < length w.tasks)

abbrev pub AllValid : World → List Op → Type 0
AllValid w [] = Unit
AllValid w (op ∷ ops) = Valid w op × AllValid (apply op w) ops

-- A task is owned by one variable at most, or deleted once, and never run behind that.
pub record Owned (w : World) : Type 0 where
  pub once : (t : ℕ) → refs t w.tasks + w.deleted t ≤ (if ltb t w.made then 1 else 0)
  pub alive : w.dead_runs ≡ 0
