-- ===== src/Framing/Message.antt =====
-- Base/NetworkMessage.h, `RecvPacket` of Base/Packet.h, and the receive loop of
-- Base/Connection.cpp that drives them. Blocks are shared between the message and the packets
-- that point into them, so they stand in a store and are named by a number.
mod Holds
pub mod Steps
pub mod Stream
pub mod Faults
mod Tests
use bugat.Common.{
  ℕ, zero, suc, ◌+◌, ◌*◌, ◌-◌, ◌%◌, ◌^◌, Bool, Option, none, some, List, [], ◌∷◌, ◌++◌, length,
  take, drop, leb, ◌==◌, if◌then◌else◌,
}
use bugat.Framing.Wire.{slt, add32, Header, header_size, read_int, header_bytes}
use bugat.Framing.Block.{
  DataBlock, new_block, get_remain_buf, get_remain_size, get_buf, get_data, get_data_size, consume,
  update, write,
}

-- `_curBlock` is `cur`, null before the first `GetBufInfo`; the pool has made `made` blocks.
pub record NetworkMessage : Type 0 where
  pub blocks : ℕ → DataBlock
  pub made : ℕ
  pub cur : Option ℕ

pub record BufInfo : Type 0 where
  pub block : ℕ
  pub at : ℕ
  pub size : ℕ

-- `RecvPacket`: a reference to the block, and a position in it.
pub record RecvPacket : Type 0 where
  pub block : ℕ
  pub at : ℕ

abbrev pub put_block : (ℕ → DataBlock) → ℕ → DataBlock → ℕ → DataBlock
put_block blocks c b k = if c == k then b else blocks k

unfoldable pub init : ℕ → NetworkMessage
init n = record { blocks = λ _. new_block n; made = 0; cur = none }

-- `_dataBlockPool.Get()`: a block that nothing else points to, made current.
unfoldable pub next_block : NetworkMessage → DataBlock → NetworkMessage
next_block m b = record {
  blocks = put_block m.blocks m.made b;
  made = m.made + 1;
  cur = some m.made;
}

-- `memcpy_s(new->GetRemainBuf(), new->GetRemainSize(), cur->GetData(), cur->GetDataSize())`, which
-- leaves `head` and `tail` of the new block alone.
unfoldable pub copy_rest : ℕ → DataBlock → DataBlock → DataBlock
copy_rest n new old =
    let size = get_data_size old in
    if leb size (get_remain_size n new)
    then record new {
      buf = write (get_remain_buf new) (take size (drop (get_data old) old.buf)) new.buf;
    }
    else new

unfoldable pub info_at : ℕ → NetworkMessage → ℕ → BufInfo
info_at n m c = record { block = c; at = get_remain_buf (m.blocks c); size = n }

unfoldable pub get_buf_info : ℕ → NetworkMessage → NetworkMessage × BufInfo
get_buf_info n m = elim m.cur [
  | none ↦ let m' = next_block m (new_block n) in (m', info_at n m' m.made)
  | some c ↦
      if slt (get_remain_size n (m.blocks c)) n
      then (let m' = next_block m (copy_rest n (new_block n) (m.blocks c)) in
          (m', info_at n m' m.made))
      else (m, info_at n m c)
]

-- What `GetNetMessage` finds: a read outside the block, no whole packet yet, or a packet.
pub data Got : Type 0 where
  fault : Got
  incomplete : Got
  got : RecvPacket → NetworkMessage → Got

unfoldable pub get_net_message : NetworkMessage → Got
get_net_message m = elim m.cur [
  | none ↦ fault
  | some c ↦
      let b = m.blocks c in
      if slt (get_data_size b) header_size
      then incomplete
      else elim (read_int (drop (get_data b) b.buf)) [
        | none ↦ fault
        | some size ↦
            if slt (get_data_size b) (add32 size header_size)
            then incomplete
            else got (record { block = c; at = b.head })
                (record m { blocks = put_block m.blocks c (consume b (add32 size header_size)).0 })
      ]
]

-- `while (msg.GetNetMessage(packet)) OnRead(packet);` with the packets that `OnRead` is given.
pub data Drained : Type 0 where
  drained : List RecvPacket → NetworkMessage → Drained
  faulted : Drained
  out_of_fuel : Drained

abbrev pub read_first : RecvPacket → Drained → Drained
read_first p (drained ps m) = drained (p ∷ ps) m
read_first p faulted = faulted
read_first p out_of_fuel = out_of_fuel

unfoldable pub drain : ℕ → NetworkMessage → Drained
drain zero m = out_of_fuel
drain (suc fuel) m = elim (get_net_message m) [
  | fault ↦ faulted
  | incomplete ↦ drained [] m
  | got p m' ↦ read_first p (drain fuel m')
]

-- The socket writes what it has read at the place it was given; then `msg.Update(transper)`.
unfoldable pub fill : ℕ → NetworkMessage → BufInfo → List ℕ → NetworkMessage
fill n m info chunk =
    let b = m.blocks info.block in
    record m {
      blocks =
          put_block m.blocks info.block
            (update n (record b { buf = write info.at chunk b.buf }) (length chunk)).0;
    }

-- One round of the loop of `Connection::Recv`, for a read that has not failed.
unfoldable pub receive : ℕ → ℕ → NetworkMessage → List ℕ → Drained
receive n fuel m chunk = let (m', info) = get_buf_info n m in drain fuel (fill n m' info chunk)

-- The rounds for a list of reads. The packets of all rounds, in order.
abbrev pub and_then : List RecvPacket → Drained → Drained
and_then ps (drained qs m) = drained (ps ++ qs) m
and_then ps faulted = faulted
and_then ps out_of_fuel = out_of_fuel

unfoldable pub receive_all : ℕ → ℕ → NetworkMessage → List (List ℕ) → Drained
receive_all n fuel m [] = drained [] m
receive_all n fuel m (chunk ∷ chunks) = elim (receive n fuel m chunk) [
  | drained ps m' ↦ and_then ps (receive_all n fuel m' chunks)
  | faulted ↦ faulted
  | out_of_fuel ↦ out_of_fuel
]

-- `RecvPacket::GetHeader`.
unfoldable pub get_header : ℕ → NetworkMessage → RecvPacket → Option Header
get_header n m p = elim (get_buf n p.at) [
  | none ↦ none
  | some at ↦ elim (read_int (drop at (m.blocks p.block).buf)) [
    | none ↦ none
    | some size ↦ elim (read_int (drop (at + 4) (m.blocks p.block).buf)) [
      | none ↦ none
      | some kind ↦ some (record { size = size; kind = kind })
    ]
  ]
]

-- `RecvPacket::Get`: the memory that the decoder is given, from the body on.
unfoldable pub get : ℕ → NetworkMessage → RecvPacket → Option (List ℕ)
get n m p = elim (get_buf n (add32 p.at header_size)) [
  | none ↦ none
  | some at ↦ some (drop at (m.blocks p.block).buf)
]

-- A message as `Session::Send` hands it over: the type, and the bytes of the builder.
pub record Message : Type 0 where
  pub kind : ℕ
  pub body : List ℕ

-- The header that `Session::Send` fills in.
abbrev pub header_of : Message → Header
header_of msg = record { size = length msg.body % 2 ^ 32; kind = msg.kind }

-- `SendPacket::data`: two buffers, the header and the body.
unfoldable pub data_bufs : Message → List (List ℕ)
data_bufs msg = header_bytes (header_of msg) ∷ msg.body ∷ []

-- What a handler sees of a packet: the type of its header, and as many bytes as it announces.
unfoldable pub read_message : ℕ → NetworkMessage → RecvPacket → Option Message
read_message n m p = elim (get_header n m p) [
  | none ↦ none
  | some header ↦ elim (get n m p) [
    | none ↦ none
    | some bytes ↦ some (record { kind = header.kind; body = take header.size bytes })
  ]
]
