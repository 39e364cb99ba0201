-- ===== src/Link/Delivery.antt =====
-- Messages sent through Base/Session.cpp arrive at the receive loop of Base/Connection.cpp.
use bugat.Common.{
  ℕ, suc, ◌+◌, ◌*◌, ◌^◌, ◌≤◌, ◌<◌, ◌≡◌, refl, sym, ap, ◌∙◌, List, [], ◌∷◌, ◌++◌, false, arith,
  length, concat, append_assoc, append-nil, map, some,
}
use bugat.Framing.Block.{max_size}
use bugat.Framing.Message.Steps.{frames}
use bugat.Framing.Message.Stream.{receive_all-frames}
use bugat.Framing.Message.Stream.Places.{AllSmall}
use bugat.Framing.Message.{
  Message, data_bufs, NetworkMessage, RecvPacket, receive_all, init, drained, read_message,
}
use bugat.Sending.Order.{bytes_of}
use bugat.Sending.Progress.{rounds, AllPositive, run-rounds}
use bugat.Sending.{Sender, new_sender, happen, run}
use bugat.Link.{session_send, send_all}

-- A connected sender has every message in its queue, behind those that were there.
send_all-queue :
    (con : Sender) (msgs : List Message)
    → con.disconnected ≡ false
    → send_all (some con) msgs ≡ some (record con { queue = con.queue ++ map data_bufs msgs })
unfolding send_all session_send happen
send_all-queue con [] open_yet =
    ap (λ q. some (record con { queue = q })) (sym (append-nil con.queue))
send_all-queue con (msg ∷ msgs) open_yet =
    ap (λ c. send_all c msgs) (sent con open_yet)
    ∙ send_all-queue (record con { queue = con.queue ++ data_bufs msg ∷ [] }) msgs open_yet
    ∙ ap (λ q. some (record con { queue = q }))
        (append_assoc con.queue (data_bufs msg ∷ []) (map data_bufs msgs))
  where
    sent :
        (con : Sender)
        → con.disconnected ≡ false
        → session_send (some con) msg
          ≡ some (record con { queue = con.queue ++ data_bufs msg ∷ [] })
    sent con e = ground arith

bytes_of-frames : (msgs : List Message) → bytes_of (map data_bufs msgs) ≡ frames msgs
unfolding frames
bytes_of-frames [] = refl
bytes_of-frames (msg ∷ msgs) = ap (◌++◌ (concat (data_bufs msg))) (bytes_of-frames msgs)

length-map : (msgs : List Message) → length (map data_bufs msgs) ≡ length msgs
length-map [] = refl
length-map (msg ∷ msgs) = ap suc (length-map msgs)

-- Messages sent over a fresh connection are all on the wire, framed and in order, after as many
-- rounds of the send loop as there are bytes and messages, if the socket takes at least a byte in
-- each. When the other end has received these bytes, in reads of any sizes, its loop has handed
-- out one packet for each message, in order, which reads as that message. Types are 32-bit
-- patterns, and the stream fits in the first four fifths of a block of `int` size.
pub delivery :
    (n fuel : ℕ) (msgs : List Message) (ks : List ℕ) (chunks : List (List ℕ))
    → 0 < n
    → max_size n < 2 ^ 31
    → AllSmall msgs
    → length (frames msgs) ≤ n * 4
    → length (frames msgs) < fuel
    → AllPositive ks
    → length (frames msgs) + length msgs ≤ length ks
    → (con : Sender) → send_all (some new_sender) msgs ≡ some con
    → concat chunks ≡ (run con (rounds ks)).wire
    → ((run con (rounds ks)).wire ≡ frames msgs)
      × ((ps : List RecvPacket) × (m : NetworkMessage) × (receive_all n fuel (init n) chunks
            ≡ drained ps m)
          × (map (read_message n m) ps ≡ map some msgs))
unfolding new_sender
delivery n fuel msgs ks chunks positive small kinds total enough moves turns con sent all = (
  wire_lem,
  receive_all-frames n fuel msgs chunks positive small kinds (all ∙ wire_lem) total enough,
)
  where
    queued : Sender
    queued = record new_sender { queue = map data_bufs msgs }

    con_lem : con ≡ queued
    con_lem = some_eq (sym sent ∙ send_all-queue new_sender msgs refl)
      where
        some_eq : {a b : Sender} → some a ≡ some b → a ≡ b
        some_eq e = cc

    wire_lem : (run con (rounds ks)).wire ≡ frames msgs
    wire_lem =
        ap (λ c. (run c (rounds ks)).wire) con_lem
        ∙ run-rounds queued ks refl refl (λ _. refl) moves
            (omega (arith, turns, ap length (bytes_of-frames msgs), length-map msgs))
        ∙ bytes_of-frames msgs
