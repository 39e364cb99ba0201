-- ===== src/Framing/Message/Stream/Places.antt =====
-- Packets that point at messages inside the consumed part of a block.
use bugat.Common.{
  ℕ, ◌+◌, ◌^◌, ◌≤◌, ◌<◌, ◌≡◌, refl, ap, ap₂, ◌∙◌, some, List, [], ◌∷◌, ◌++◌, append_assoc, arith,
  length, drop, map, length-append, take-append_self, drop-append_add,
}
use bugat.Framing.Wire.{header_bytes, int_bytes, read_int-int_bytes}
use bugat.Framing.Block.{max_size, get_buf}
use bugat.Framing.Message.Holds.{Holds}
use bugat.Framing.Message.Steps.{frame, frame_size, read_frame}
use bugat.Framing.Message.{
  NetworkMessage, RecvPacket, Message, data_bufs, get_header, get, read_message,
}

pub record At (c : ℕ) (past : List ℕ) (p : RecvPacket) (msg : Message) : Type 0 where
  pub before : List ℕ
  pub behind : List ℕ
  pub in_block : p.block ≡ c
  pub in_past : past ≡ before ++ (frame msg ++ behind)
  pub in_place : p.at ≡ length before

-- The packets point at the messages, one at each, in order.
abbrev pub Placed : ℕ → List ℕ → List RecvPacket → List Message → Type 0
Placed c past [] [] = Unit
Placed c past [] (msg ∷ msgs) = ⊥
Placed c past (p ∷ ps) [] = ⊥
Placed c past (p ∷ ps) (msg ∷ msgs) = At c past p msg × Placed c past ps msgs

-- More consumed bytes leave a packet where it is.
pub At-more :
    {c : ℕ} {past : List ℕ} {p : RecvPacket} {msg : Message} (more : List ℕ)
    → At c past p msg
    → At c (past ++ more) p msg
At-more {msg = msg} more a = record {
  before = a.before;
  behind = a.behind ++ more;
  in_block = a.in_block;
  in_past =
      ap (λ l. l ++ more) a.in_past
      ∙ append_assoc a.before (frame msg ++ a.behind) more
      ∙ ap (◌++◌ a.before) (append_assoc (frame msg) a.behind more);
  in_place = a.in_place;
}

pub Placed-more :
    (c : ℕ) (past more : List ℕ) (ps : List RecvPacket) (msgs : List Message)
    → Placed c past ps msgs
    → Placed c (past ++ more) ps msgs
Placed-more c past more [] [] h = tt
Placed-more c past more [] (msg ∷ msgs) h = h
Placed-more c past more (p ∷ ps) [] h = h
Placed-more c past more (p ∷ ps) (msg ∷ msgs) h =
    (At-more more h.0, Placed-more c past more ps msgs h.1)

pub Placed-append :
    (c : ℕ) (past : List ℕ) (ps qs : List RecvPacket) (ms ns : List Message)
    → Placed c past ps ms
    → Placed c past qs ns
    → Placed c past (ps ++ qs) (ms ++ ns)
Placed-append c past [] qs [] ns h k = k
Placed-append c past [] qs (m ∷ ms) ns h k = absurd h
Placed-append c past (p ∷ ps) qs [] ns h k = absurd h
Placed-append c past (p ∷ ps) qs (m ∷ ms) ns h k = (h.0, Placed-append c past ps qs ms ns h.1 k)

abbrev pub AllSmall : List Message → Type 0
AllSmall [] = Unit
AllSmall (m ∷ ms) = (m.kind < 2 ^ 32) × AllSmall ms

module _ {n c : ℕ} (m : NetworkMessage) {past waiting room : List ℕ} (small : max_size n < 2 ^ 31)
    (h : Holds n (m.blocks c) past waiting room) where
  bytes_there :
      (p : RecvPacket) (msg : Message) (a : At c past p msg)
      → (m.blocks p.block).buf ≡ a.before ++ (frame msg ++ (a.behind ++ (waiting ++ room)))
  bytes_there p msg a =
      ap (λ b. (m.blocks b).buf) a.in_block
      ∙ h.cells
      ∙ ap (λ l. l ++ (waiting ++ room)) a.in_past
      ∙ append_assoc a.before (frame msg ++ a.behind) (waiting ++ room)
      ∙ ap (◌++◌ a.before) (append_assoc (frame msg) a.behind (waiting ++ room))

  bytes_from :
      (p : RecvPacket) (msg : Message) (a : At c past p msg) (k : ℕ)
      → drop (p.at + k) (m.blocks p.block).buf
        ≡ drop k (frame msg ++ (a.behind ++ (waiting ++ room)))
  bytes_from p msg a k =
      ap₂ (λ i l. drop (i + k) l) a.in_place (bytes_there p msg a)
      ∙ drop-append_add a.before (frame msg ++ (a.behind ++ (waiting ++ room))) k

  extent :
      (p : RecvPacket) (msg : Message)
      → At c past p msg
      → p.at + (length msg.body + 8) ≤ length past
  extent p msg a = omega (
    arith,
    a.in_place,
    ap length a.in_past,
    length-append a.before (frame msg ++ a.behind),
    length-append (frame msg) a.behind,
    frame_size msg,
  )

  header_reads :
      (p : RecvPacket) (msg : Message)
      → At c past p msg
      → length past < max_size n
      → msg.kind < 2 ^ 32
      → get_header n m p ≡ some (record { size = length msg.body; kind = msg.kind })
  unfolding get_header get_buf data_bufs header_bytes int_bytes
  header_reads p msg a short k = ground (
    arith,
    extent p msg a,
    ap (λ i. drop i (m.blocks p.block).buf) (let e : p.at ≡ p.at + 0 = omega arith in e)
        ∙ bytes_from p msg a 0,
    bytes_from p msg a 4,
    read_frame msg (a.behind ++ (waiting ++ room)) (omega (arith, extent p msg a)),
    read_int-int_bytes msg.kind ((msg.body ++ []) ++ (a.behind ++ (waiting ++ room))) k,
  )

  body_reads :
      (p : RecvPacket) (msg : Message) (a : At c past p msg)
      → length past < max_size n
      → get n m p ≡ some (msg.body ++ ([] ++ (a.behind ++ (waiting ++ room))))
  unfolding get get_buf data_bufs header_bytes int_bytes
  body_reads p msg a short = ground (
    arith,
    extent p msg a,
    bytes_from p msg a 8,
    append_assoc msg.body [] (a.behind ++ (waiting ++ room)),
  )

  -- A packet that is placed at a message reads as that message.
  pub At-reads :
      (p : RecvPacket) (msg : Message)
      → At c past p msg
      → length past < max_size n
      → msg.kind < 2 ^ 32
      → read_message n m p ≡ some msg
  unfolding read_message
  At-reads p msg a short k = ground (
    arith,
    header_reads p msg a short k,
    body_reads p msg a short,
    take-append_self msg.body ([] ++ (a.behind ++ (waiting ++ room))),
  )

  pub Placed-reads :
      (ps : List RecvPacket) (msgs : List Message)
      → Placed c past ps msgs
      → length past < max_size n
      → AllSmall msgs
      → map (read_message n m) ps ≡ map some msgs
  Placed-reads [] [] a short k = refl
  Placed-reads [] (msg ∷ msgs) a short k = absurd a
  Placed-reads (p ∷ ps) [] a short k = absurd a
  Placed-reads (p ∷ ps) (msg ∷ msgs) a short k =
      ap₂ ◌∷◌ (At-reads p msg a.0 short k.0) (Placed-reads ps msgs a.1 short k.1)
