-- ===== src/Context/Tests.antt =====
-- Reachable states of the queues of Base/Context.cpp.
use bugat.Common.{[], ◌∷◌}
use bugat.Context.{Memory, Pc, System, initialize}

-- One slot; thread 0 has entered `Run` and thread 1 has drawn the slot to post object 5.
abbrev drawn : Memory
unfolding initialize
drawn = record (initialize 0) { made = 3; swap_counter = 1; global_counter = 1 }

-- Thread 0 has put its queue 2 into the slot, and queue 0 to the wait queue.
abbrev rotated : Memory
rotated = record drawn { global_que = 2 ∷ []; wait_que = 1 ∷ 0 ∷ [] }

abbrev at : Memory → Pc → Pc → System
at m p q = record { mem = m; threads = p ∷ q ∷ [] }
