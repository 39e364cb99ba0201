-- ===== src/Locks/Spin/Tests.antt =====
-- Reachable states of the lock of Core/lock/LockObject.h.
use bugat.Common.{◌≡◌, refl, true, false, [], ◌∷◌}
use bugat.Common.Threads.{total}
use bugat.Locks.Spin.Exclusion.{holds, one_holder}
use bugat.Locks.Spin.{idle, locked, scoped, Move, pick, init, Reach, here, later}

-- Thread 0 holds the lock; thread 1 has tried to take it and failed.
contended : Reach (init 2) (record { flag = true; threads = locked ∷ scoped false ∷ [] })
contended =
    later
      (later (later here (pick [] (idle ∷ []) refl Move.begin))
        (pick [] (idle ∷ []) refl (Move.acquire refl)))
      (pick (locked ∷ []) [] refl Move.enter_scope)

one_holder_example : total holds (locked ∷ scoped false ∷ []) ≡ 1
one_holder_example = one_holder 2 contended
