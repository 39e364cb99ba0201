-- ===== src/Link/Tests.antt =====
-- A message from Base/Session.cpp to the receive loop of Base/Connection.cpp.
use bugat.Common.{ℕ, ◌≡◌, refl, some, List, [], ◌∷◌, map, arith}
use bugat.Framing.Wire.{int_bytes, header_bytes}
use bugat.Framing.Message.Steps.{frames}
use bugat.Framing.Message.{
  NetworkMessage, RecvPacket, Message, drained, init, receive_all, data_bufs, read_message,
}
use bugat.Sending.Progress.{rounds}
use bugat.Sending.{
  Sender, new_sender, run, happen, helper_update, turn, next_packet, pop_packet, attempt,
  after_send, helper_init,
}
use bugat.Link.{send_all, session_send}
use bugat.Link.Delivery.{delivery}

abbrev one_message : List Message
one_message = record { kind = 4; body = 8 ∷ 9 ∷ [] } ∷ []

abbrev transfers : List ℕ
transfers = 3 ∷ 1 ∷ 20 ∷ 1 ∷ 1 ∷ 1 ∷ 1 ∷ 1 ∷ 1 ∷ 1 ∷ 1 ∷ []

abbrev reads : List (List ℕ)
reads = (2 ∷ 0 ∷ 0 ∷ 0 ∷ 4 ∷ []) ∷ (0 ∷ 0 ∷ 0 ∷ 8 ∷ 9 ∷ []) ∷ []

abbrev queued : Sender
unfolding new_sender data_bufs header_bytes int_bytes
queued = record new_sender { queue = map data_bufs one_message }

delivery_example :
    ((run queued (rounds transfers)).wire ≡ frames one_message)
    × ((ps : List RecvPacket) × (m : NetworkMessage) × (receive_all 8 16 (init 8) reads
          ≡ drained ps m)
        × (map (read_message 8 m) ps ≡ map some one_message))
unfolding new_sender frames data_bufs header_bytes int_bytes send_all session_send run happen
    helper_update turn next_packet pop_packet attempt after_send helper_init
delivery_example =
    delivery 8 16 one_message transfers reads (omega arith) (omega arith) (omega arith)
      (omega arith) (omega arith) (omega arith) (omega arith) queued refl refl
