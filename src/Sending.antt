-- ===== src/Sending.antt =====
-- The send side of Base/Connection.cpp: `PacketHelper`, and the loop of `Connection::Send`.
-- A buffer is the list of its bytes that are still to be sent; a packet is its buffers.
pub mod Helper
pub mod Order
pub mod Progress
mod Tests
use bugat.Common.{
  ℕ, ◌+◌, ◌-◌, Bool, true, false, Option, none, some, List, [], ◌∷◌, ◌++◌, length, take, drop,
  concat, leb, if◌then◌else◌,
}

abbrev pub Packet : Type 0
Packet = List (List ℕ)

-- `PacketHelper::Init`, `Update`, `IsEmpty` and `Clear`.
unfoldable pub helper_init : List (List ℕ) → Packet → List (List ℕ)
helper_init bufs packet = bufs ++ packet

unfoldable pub helper_update : ℕ → List (List ℕ) → List (List ℕ)
helper_update size [] = []
helper_update size (buf ∷ bufs) =
    let rest = helper_update (size - length buf) bufs in
    if leb (length buf) size then rest else drop size buf ∷ bufs

abbrev pub helper_is_empty : List (List ℕ) → Bool
helper_is_empty [] = true
helper_is_empty (buf ∷ bufs) = false

abbrev pub helper_clear : List (List ℕ) → List (List ℕ)
helper_clear bufs = []

-- What the loop and its surroundings share: the send queue, the state of the connection, what
-- the socket has taken, and the locals of the coroutine. `running` is false once the loop is left.
pub record Sender : Type 0 where
  pub queue : List Packet
  pub disconnected : Bool
  pub wire : List ℕ
  pub running : Bool
  pub sending : Bool
  pub bufs : List (List ℕ)
  pub sent_count : ℕ

unfoldable pub new_sender : Sender
new_sender = record {
  queue = [];
  disconnected = false;
  wire = [];
  running = true;
  sending = false;
  bufs = [];
  sent_count = 0;
}

-- What the operation `AwaitSend` reports: an error, or how many bytes the socket has taken.
pub data Io : Type 0 where
  failed : Io
  moved : ℕ → Io

-- `PopSendPacket(sendingPacket)` and `helper.Init`, where nothing is being sent.
unfoldable pub pop_packet : Sender → Sender
pop_packet s = elim s.queue [
  | [] ↦ s
  | packet ∷ packets ↦ record s {
    queue = packets;
    sending = true;
    bufs = helper_init s.bufs packet;
  }
]

-- From the `co_await AwaitSend` to the end of the round.
unfoldable pub after_send : Sender → Io → Sender
after_send s failed = record s { running = false }
after_send s (moved transfer) =
    let bufs = helper_update transfer s.bufs in
    let wire = s.wire ++ take transfer (concat s.bufs) in
    if helper_is_empty bufs
    then record s {
      wire = wire;
      sending = false;
      bufs = helper_clear bufs;
      sent_count = s.sent_count + 1;
    }
    else record s { wire = wire; bufs = bufs }

-- `if (sendingPacket == nullptr)`.
unfoldable pub next_packet : Sender → Sender
next_packet s = if s.sending then s else pop_packet s

-- With nothing to send, the round ends in `co_await AwaitAlways`.
unfoldable pub attempt : Sender → Io → Sender
attempt s io = if s.sending then after_send s io else s

-- One round of `while (false == Disconnected())`.
unfoldable pub turn : Sender → Io → Sender
turn s io = if s.disconnected then record s { running = false } else attempt (next_packet s) io

-- What happens to a sender: `Connection::Send` from any thread, `Connection::Close`, a round.
pub data Happening : Type 0 where
  push : Packet → Happening
  close : Happening
  round : Io → Happening

unfoldable pub happen : Sender → Happening → Sender
happen s (push packet) = record s { queue = s.queue ++ packet ∷ [] }
happen s close = record s { disconnected = true }
happen s (round io) = if s.running then turn s io else s

unfoldable pub run : Sender → List Happening → Sender
run s [] = s
run s (h ∷ hs) = run (happen s h) hs
