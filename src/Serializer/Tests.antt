-- ===== src/Serializer/Tests.antt =====
-- Reachable states of the serializer protocol of Core/TaskSerializer.cpp.
use bugat.Common.{ℕ, true, ◌≤◌, ◌<◌, ◌≡◌, refl, List, [], ◌∷◌, arith}
use bugat.Common.Int.{pos, pos_part, ◌+ℤ◌, ◌-ℤ◌}
use bugat.Common.Threads.{total}
use bugat.Serializer.Invariant.{running}
use bugat.Serializer.Safety.{one_runner}
use bugat.Serializer.Stuck.{throw_stops, thrown}
use bugat.Serializer.{
  Memory, Pc, idle, linked, took, holding, Move, System, pick, init, Reach, here, later,
}

abbrev memory : List ℕ → ℕ → ℕ → ℕ → List ℕ → Memory
memory que size count ready posted = record {
  que = que;
  size = pos size;
  task_count = pos count;
  context = true;
  ready = ready;
  posted = posted;
  ran = [];
  lost = 0;
}

abbrev at : Memory → Pc → Pc → System
at m p q = record { mem = m; threads = p ∷ q ∷ [] }

-- Thread 0 posts task 7; thread 1 fetches the object and pops the task.
popped : Reach (init 2) (at (memory [] 1 1 0 (7 ∷ [])) idle (took 7 0 0))
unfolding ◌+ℤ◌
popped =
    later
      (later
        (later
          (later
            (later
              (later (later here (pick [] (idle ∷ []) refl (Move.link 7)))
                (pick [] (idle ∷ []) refl Move.grow))
              (pick [] (idle ∷ []) refl Move.count_up))
            (pick [] (idle ∷ []) refl (Move.post_again refl)))
          (pick (idle ∷ []) [] refl (Move.fetch (omega arith))))
        (pick (idle ∷ []) [] refl Move.get_size))
      (pick (idle ∷ []) [] refl (Move.pop refl))

-- Thread 0 has linked task 8 meanwhile.
busy : Reach (init 2) (at (memory (8 ∷ []) 1 1 0 (7 ∷ 8 ∷ [])) linked (took 7 0 0))
busy = later popped (pick [] (took 7 0 0 ∷ []) refl (Move.link 8))

one_runner_example : total running (linked ∷ took 7 0 0 ∷ []) ≤ 1
one_runner_example = one_runner 2 busy (omega arith)

-- Thread 1 is about to run the task.
about_to_run : Reach (init 2) (at (memory [] 0 1 0 (7 ∷ [])) idle (holding 7 0 0))
unfolding ◌-ℤ◌
about_to_run = later popped (pick (idle ∷ []) [] refl Move.shrink)

throw_stops_example :
    let t = thrown (memory [] 0 1 0 (7 ∷ [])) (idle ∷ []) 7 0 [] in
    (t.mem.ran ≡ 7 ∷ []) × (0 < pos_part t.mem.task_count) × (t.mem.ready ≡ 0)
throw_stops_example = throw_stops 2 about_to_run (omega arith) (idle ∷ []) 7 0 0 [] refl here
