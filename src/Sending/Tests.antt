-- ===== src/Sending/Tests.antt =====
-- Runs of the send loop of Base/Connection.cpp.
use bugat.Common.{ℕ, ◌≡◌, refl, List, [], ◌∷◌, ◌++◌, arith, true, false}
use bugat.Sending.Order.{pending, run-stream}
use bugat.Sending.Progress.{rounds, run-rounds}
use bugat.Sending.{
  Sender, Happening, push, round, failed, moved, new_sender, run, happen, helper_update, turn,
  next_packet, pop_packet, attempt, after_send, helper_init,
}

abbrev two_buffers : List (List ℕ)
two_buffers = (1 ∷ 2 ∷ 3 ∷ []) ∷ (4 ∷ 5 ∷ []) ∷ []

abbrev partial_writes : List Happening
partial_writes =
    push two_buffers
    ∷ round (moved 2)
    ∷ push ((6 ∷ []) ∷ [])
    ∷ round (moved 2)
    ∷ round (moved 9)
    ∷ round failed
    ∷ []

run-stream_example :
    (run new_sender partial_writes).wire ++ pending (run new_sender partial_writes)
    ≡ 1 ∷ 2 ∷ 3 ∷ 4 ∷ 5 ∷ 6 ∷ []
run-stream_example = run-stream partial_writes

wire_after : (run new_sender partial_writes).wire ≡ 1 ∷ 2 ∷ 3 ∷ 4 ∷ 5 ∷ []
unfolding run happen new_sender turn next_packet pop_packet attempt after_send helper_update
    helper_init
wire_after = refl

abbrev loaded : Sender
loaded = record {
  queue = two_buffers ∷ ((6 ∷ []) ∷ []) ∷ [];
  disconnected = false;
  wire = 0 ∷ [];
  running = true;
  sending = false;
  bufs = [];
  sent_count = 0;
}

run-rounds_example :
    (run loaded (rounds (4 ∷ 1 ∷ 3 ∷ 1 ∷ 1 ∷ 1 ∷ 1 ∷ 1 ∷ []))).wire ≡ 0 ∷ 1 ∷ 2 ∷ 3 ∷ 4 ∷ 5 ∷ 6 ∷ []
run-rounds_example =
    run-rounds loaded (4 ∷ 1 ∷ 3 ∷ 1 ∷ 1 ∷ 1 ∷ 1 ∷ 1 ∷ []) refl refl (λ _. refl) (omega arith)
      (omega arith)
