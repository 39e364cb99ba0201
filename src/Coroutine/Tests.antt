-- ===== src/Coroutine/Tests.antt =====
-- Two coroutines of Base/AwaitTask.h whose tasks are interleaved.
use bugat.Common.{◌+◌, ◌≡◌, ◌⊎◌, refl, none, some, List, [], ◌∷◌}
use bugat.Coroutine.Answers.{Goes, awaits_are_calls}
use bugat.Coroutine.Chain.{noted}
use bugat.Coroutine.Meaning.{trace, cost}
use bugat.Coroutine.Runs.Ready.{Over}
use bugat.Coroutine.{
  Body, returns, notes, yields, awaits, awaits_void, Op, op_spawn, op_turn, start, run, apply,
  apply_all,
}

-- It asks an object on another executor, which goes to a third, and then one without an executor.
abbrev asks : Body
asks = notes 10 (
    awaits (some 2) (notes 20 (yields 3 (notes 30 (returns 5))))
      (λ v. notes v (awaits none (notes 40 (returns 7)) (λ u. notes (u + v) (returns 0)))))

abbrev other : Body
other =
    awaits (some 1) (notes 50 (returns 8))
      (λ v. awaits_void (some 3) (notes v (returns 0)) (notes 60 (returns 0)))

abbrev ops : List Op
ops =
    op_spawn 1 asks
    ∷ op_spawn 2 other
    ∷ op_turn 1
    ∷ op_turn 2
    ∷ op_turn 1
    ∷ op_turn 2
    ∷ op_turn 3
    ∷ op_turn 1
    ∷ op_turn 1
    ∷ op_turn 2
    ∷ op_turn 3
    ∷ op_turn 2
    ∷ []

asks_notes :
    noted 0 (apply_all ops start).log
    ≡ (1, 10) ∷ (2, 20) ∷ (3, 30) ∷ (1, 5) ∷ (1, 40) ∷ (1, 12) ∷ []
unfolding apply apply_all run
asks_notes = refl

other_notes : noted 1 (apply_all ops start).log ≡ (1, 50) ∷ (3, 8) ∷ (2, 60) ∷ []
unfolding apply apply_all run
other_notes = refl

all_done : (apply_all ops start).posts ≡ []
unfolding apply apply_all run
all_done = refl

awaits_are_calls_example :
    ((apply_all ops start).faults ≡ 0)
    × (Over 0 (trace 1 asks) (1 + cost asks) (apply_all ops start)
        ⊎ Goes 0 (record { home = 1; body = asks }) (apply_all ops start))
unfolding apply apply_all run
awaits_are_calls_example = awaits_are_calls ops 0 (record { home = 1; body = asks }) refl
