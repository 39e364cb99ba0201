-- ===== src/Framing/Message/Tests.antt =====
-- Runs of the receive loop of Base/NetworkMessage.h at small sizes.
use bugat.Common.{ℕ, ◌≡◌, refl, some, List, [], ◌∷◌, ◌++◌, map, concat, replicate, arith}
use bugat.Framing.Wire.{int_bytes, header_bytes}
use bugat.Framing.Block.{DataBlock, get_data_size}
use bugat.Framing.Message.Holds.{Holds}
use bugat.Framing.Message.Steps.{frames}
use bugat.Framing.Message.Stream.Batches.{receive_all-batches}
use bugat.Framing.Message.Stream.{receive_all-frames}
use bugat.Framing.Message.Faults.{get_buf_info_loses, drain_never_ends}
use bugat.Framing.Message.{
  NetworkMessage, RecvPacket, Message, drained, out_of_fuel, drain, init, get_buf_info, receive_all,
  data_bufs, read_message,
}

abbrev two_messages : List Message
two_messages = record { kind = 7; body = 1 ∷ 2 ∷ 3 ∷ [] } ∷ record { kind = 9; body = [] } ∷ []

abbrev three_reads : List (List ℕ)
three_reads =
    (3 ∷ 0 ∷ [])
    ∷ (0 ∷ 0 ∷ 7 ∷ 0 ∷ 0 ∷ 0 ∷ 1 ∷ 2 ∷ [])
    ∷ (3 ∷ 0 ∷ 0 ∷ 0 ∷ 0 ∷ 9 ∷ 0 ∷ 0 ∷ 0 ∷ [])
    ∷ []

receive_all-frames_example :
    (ps : List RecvPacket) × (m : NetworkMessage) × (receive_all 16 32 (init 16) three_reads
      ≡ drained ps m)
    × (map (read_message 16 m) ps ≡ map some two_messages)
unfolding frames data_bufs header_bytes int_bytes
receive_all-frames_example =
    receive_all-frames 16 32 two_messages three_reads (omega arith) (omega arith) (omega arith) refl
      (omega arith) (omega arith)

-- Six reads of 19 bytes, the last of which goes to a second block.
abbrev six_reads : List (List Message)
six_reads = replicate 6 two_messages

receive_all-batches_example :
    (ps : List RecvPacket) × (m : NetworkMessage) × (receive_all 20 20
        (init 20)
        (map frames six_reads)
      ≡ drained ps m)
    × (map (read_message 20 m) ps ≡ map some (concat six_reads))
unfolding frames data_bufs header_bytes int_bytes
receive_all-batches_example =
    receive_all-batches 20 six_reads (omega arith) (omega arith) (omega arith) (omega arith)

-- A block of 20 bytes with 6 that wait and 2 that are free.
abbrev full_block : DataBlock
full_block = record {
  buf = replicate 12 5 ++ (replicate 6 8 ++ replicate 2 0);
  head = 12;
  tail = 18;
}

abbrev full : NetworkMessage
full = record { blocks = λ _. full_block; made = 1; cur = some 0 }

full-Holds : Holds 4 full_block (replicate 12 5) (replicate 6 8) (replicate 2 0)
full-Holds = record { cells = refl; at_head = refl; at_tail = refl; whole = refl }

get_buf_info_loses_example :
    let (m', info) = get_buf_info 4 full in
    (m'.cur ≡ some 1)
    × (info ≡ record { block = 1; at = 0; size = 4 })
    × (get_data_size (m'.blocks 1) ≡ 0)
    × (get_data_size (full.blocks 0) ≡ 6)
get_buf_info_loses_example = get_buf_info_loses full (omega arith) full-Holds refl (omega arith)

-- A block in which a header of the size -8 waits.
abbrev negative : NetworkMessage
negative = record {
  blocks = λ _. record {
    buf = (248 ∷ 255 ∷ 255 ∷ 255 ∷ 1 ∷ 0 ∷ 0 ∷ 0 ∷ []) ++ replicate 12 0;
    head = 0;
    tail = 8;
  };
  made = 1;
  cur = some 0;
}

negative-Holds :
    Holds 4 (negative.blocks 0) [] (248 ∷ 255 ∷ 255 ∷ 255 ∷ 1 ∷ 0 ∷ 0 ∷ 0 ∷ []) (replicate 12 0)
negative-Holds = record { cells = refl; at_head = refl; at_tail = refl; whole = refl }

drain_never_ends_example : drain 100 negative ≡ out_of_fuel
unfolding int_bytes
drain_never_ends_example =
    drain_never_ends 100 negative (1 ∷ 0 ∷ 0 ∷ 0 ∷ []) (omega arith) negative-Holds refl refl
      (omega arith)
