-- ===== src/Serializer/Safety.antt =====
-- What the serializer protocol of Core/TaskSerializer.cpp and Base/SerializeObject.cpp promises:
-- one thread at a time, no task lost, and tasks in the order of their posts.
use bugat.Common.{ℕ, ◌^◌, ◌≤◌, ◌<◌, List, [], ◌∷◌, ◌++◌, arith, length}
use bugat.Common.Threads.{total}
use bugat.Serializer.Invariant.{Reach-Inv, running, turn, held}
use bugat.Serializer.{Memory, Pc, notify, System, init, Reach}

running-le : (p : Pc) → running p ≤ turn p
running-le (notify c) = omega arith
running-le _ = omega arith

total-le : (ps : List Pc) → total running ps ≤ total turn ps
unfolding total
total-le [] = omega arith
total-le (p ∷ ps) = omega (arith, running-le p, total-le ps)

-- At most one thread at a time is inside `Run` of the object, whatever the threads of the
-- context and the threads that post do, and also where tasks throw; fewer than 2 ^ 60 tasks have
-- been posted.
pub one_runner :
    (n : ℕ) {s : System}
    → Reach (init n) s
    → length s.mem.posted < 2 ^ 60
    → total running s.threads ≤ 1
one_runner n {s} r small = omega (arith, (Reach-Inv n r small).one_turn, total-le s.threads)

-- The tasks that ran, the one that is about to, and those that wait.
abbrev pub history : Memory → List Pc → List ℕ
history m ts = m.ran ++ (held ts ++ m.que)
