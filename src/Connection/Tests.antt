-- ===== src/Connection/Tests.antt =====
-- Reachable states of Base/Connection.cpp's state machine.
use bugat.Common.{ℕ, ◌+◌, ◌≤◌, ◌≡◌, ◌⊎◌, refl, true, false, [], ◌∷◌}
use bugat.Common.Threads.{total}
use bugat.Connection.Invariant.{closer}
use bugat.Connection.Once.{close_once}
use bugat.Connection.Attempts.{close_attempts}
use bugat.Connection.{
  ConnectionState, disconnected, connecting, Connection, idle, testing, closing_socket,
  firing_connect, Move, is_disconnected, pick, init, Reach, here, later,
}

abbrev connection : ConnectionState → ℕ → Connection
connection state spawned = record {
  state = state;
  socket = true;
  socket_closes = 0;
  spawned = spawned;
  on_connects = 0;
  on_closes = 0;
}

-- Thread 1 calls `Close` before thread 0 has started the connection, and fails once.
early :
    Reach
      (init 2 true)
      (record { con = connection connecting 0; threads = idle ∷ testing connecting 1 ∷ [] })
early =
    later (later here (pick (idle ∷ []) [] refl Move.call_close))
      (pick (idle ∷ []) [] refl (Move.lose_close refl))

-- Thread 0 starts the connection meanwhile, and thread 1 disconnects it in the end.
raced :
    Reach
      (init 2 true)
      (record { con = connection disconnected 1; threads = firing_connect ∷ closing_socket ∷ [] })
raced =
    later
      (later
        (later
          (later
            (later
              (later (later early (pick [] (testing connecting 1 ∷ []) refl Move.call_start))
                (pick [] (testing connecting 1 ∷ []) refl (Move.win_start refl)))
              (pick [] (testing connecting 1 ∷ []) refl Move.spawn))
            (pick (firing_connect ∷ []) [] refl (Move.try_again refl)))
          (pick (firing_connect ∷ []) [] refl (Move.lose_close refl)))
        (pick (firing_connect ∷ []) [] refl (Move.try_again refl)))
      (pick (firing_connect ∷ []) [] refl (Move.win_close refl))

close_once_example :
    (0 + total closer (firing_connect ∷ closing_socket ∷ []) ≡ 1) × (0 ≤ 1) × (1 ≤ 1) × (0 ≤ 1)
close_once_example = close_once 2 true raced

close_attempts_example :
    (1 ≤ 3)
    × ((1 ≤ 2) ⊎ (is_disconnected connecting ≡ true))
    × ((is_disconnected connecting ≡ false) ⊎ (connecting ≡ disconnected))
close_attempts_example = close_attempts 2 true (idle ∷ []) [] connecting 1 early refl
