-- ===== src/Framing/Message/Steps.antt =====
-- One call of `GetNetMessage` on a block that holds known bytes.
use bugat.Common.{
  ℕ, ◌+◌, ◌-◌, ◌^◌, ◌≤◌, ◌<◌, ◌≡◌, refl, sym, ap, ◌∙◌, some, List, [], ◌∷◌, ◌++◌, append_assoc,
  arith, length, drop, concat, dec_lt, length-append, drop-append_self,
}
use bugat.Framing.Wire.{header_size, read_int, int_bytes, header_bytes, add32}
use bugat.Framing.Block.{DataBlock, max_size, get_data_size, consume}
use bugat.Framing.Message.Holds.{Holds, data_size_lem, consume-Holds}
use bugat.Framing.Message.{
  NetworkMessage, put_block, Message, data_bufs, incomplete, got, get_net_message,
}

-- A message on the wire: the buffers of `SendPacket::data`, one behind the other.
abbrev pub frame : Message → List ℕ
frame msg = concat (data_bufs msg)

unfoldable pub frames : List Message → List ℕ
frames [] = []
frames (msg ∷ msgs) = frame msg ++ frames msgs

pub frame_size : (msg : Message) → length (frame msg) ≡ length msg.body + 8
unfolding data_bufs header_bytes int_bytes
frame_size msg = omega (arith, length-append msg.body [])

pub read_frame :
    (msg : Message) (rest : List ℕ)
    → length msg.body < 2 ^ 31
    → read_int (frame msg ++ rest) ≡ some (length msg.body)
unfolding data_bufs header_bytes int_bytes read_int
read_frame msg rest h = ground arith

-- The block that is read, and what it holds.
-- The first four bytes decide what `read_int` reads.
read_int_prefix : (w x y : List ℕ) → 4 ≤ length w → read_int (w ++ x) ≡ read_int (w ++ y)
unfolding read_int
read_int_prefix [] x y h = absurd (omega arith)
read_int_prefix (a ∷ []) x y h = absurd (omega arith)
read_int_prefix (a ∷ b ∷ []) x y h = absurd (omega arith)
read_int_prefix (a ∷ b ∷ c ∷ []) x y h = absurd (omega arith)
read_int_prefix (a ∷ b ∷ c ∷ d ∷ w) x y h = refl

module _ {n c : ℕ} (m : NetworkMessage) {past waiting room : List ℕ} (small : max_size n < 2 ^ 31)
    (at_c : m.cur ≡ some c) (h : Holds n (m.blocks c) past waiting room) where
  size_now : get_data_size (m.blocks c) ≡ length waiting
  size_now = data_size_lem small h

  read_now : read_int (drop (m.blocks c).head (m.blocks c).buf) ≡ read_int (waiting ++ room)
  read_now =
      ap (λ l. read_int (drop (m.blocks c).head l)) h.cells
      ∙ ap (λ k. read_int (drop k (past ++ (waiting ++ room)))) h.at_head
      ∙ ap read_int (drop-append_self past (waiting ++ room))

  -- Bytes that do not make up a whole message are left alone.
  pub get_partial :
      (msg : Message) (missing : List ℕ)
      → waiting ++ missing ≡ frame msg
      → length waiting < length (frame msg)
      → length msg.body < 2 ^ 31 - 8
      → get_net_message m ≡ incomplete
  unfolding get_net_message
  get_partial msg missing e short bounded = elim (dec_lt (length waiting) header_size) [
    | yes few ↦ ground (arith, size_now)
    | no many ↦ ground (
      arith,
      size_now,
      h.whole,
      frame_size msg,
      read_now
          ∙ read_int_prefix waiting room (missing ++ []) (omega arith)
          ∙ ap read_int (sym (append_assoc waiting missing []) ∙ ap (λ l. l ++ []) e)
          ∙ read_frame msg [] (omega arith),
    )
  ]

  pub get_nothing : waiting ≡ [] → get_net_message m ≡ incomplete
  unfolding get_net_message
  get_nothing e = ground (arith, size_now, ap length e)

  -- The first of the messages that wait is handed out, and consumed.
  pub get_frame :
      (msg : Message) (rest : List ℕ)
      → waiting ≡ frame msg ++ rest
      → (b : DataBlock) × (get_net_message m
          ≡ got
              (record { block = c; at = length past })
              (record m { blocks = put_block m.blocks c b }))
        × Holds n b (past ++ frame msg) rest room
  unfolding get_net_message
  get_frame msg rest e = (
    (consume (m.blocks c) (add32 (length msg.body) header_size)).0,
    ground (arith, size_now, h.whole, h.at_head, len, frame_size msg, read_lem),
    consume-Holds small h (frame msg) rest _ e (omega (arith, h.whole, len, frame_size msg)),
  )
    where
      len : length waiting ≡ length (frame msg) + length rest
      len = ap length e ∙ length-append (frame msg) rest

      read_lem : read_int (drop (m.blocks c).head (m.blocks c).buf) ≡ some (length msg.body)
      read_lem =
          read_now
          ∙ ap (λ w. read_int (w ++ room)) e
          ∙ ap read_int (append_assoc (frame msg) rest room)
          ∙ read_frame msg (rest ++ room) (omega (arith, h.whole, len, frame_size msg))
