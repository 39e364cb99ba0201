-- ===== src/Framing/Message/Faults.antt =====
-- Where Base/NetworkMessage.h departs from what its callers need: a change of blocks, and a header
-- with a negative size.
use bugat.Common.{
  ℕ, zero, suc, ◌+◌, ◌*◌, ◌-◌, ◌^◌, ◌≤◌, ◌<◌, ◌≡◌, refl, sym, ap, ap₂, subst, ◌∙◌, some, List, [],
  ◌++◌, append_assoc, append-nil, arith, length, drop, drop-append_self,
}
use bugat.Framing.Wire.{read_int, int_bytes, read_int-int_bytes}
use bugat.Framing.Block.{DataBlock, max_size, new_block, consume, get_data_size}
use bugat.Framing.Message.Holds.{Holds, data_size_lem, consume-Holds}
use bugat.Framing.Message.{
  NetworkMessage, out_of_fuel, drain, put_block, next_block, copy_rest, info_at, get_buf_info, got,
  get_net_message,
}

-- The copy into the new block does not move its `tail`.
copy_rest-tail :
    (n : ℕ) (new old : DataBlock)
    → ((copy_rest n new old).tail ≡ new.tail) × ((copy_rest n new old).head ≡ new.head)
unfolding copy_rest
copy_rest-tail n new old = ground arith

module _ {n c : ℕ} (m : NetworkMessage) {past waiting room : List ℕ} (small : max_size n < 2 ^ 31)
    (h : Holds n (m.blocks c) past waiting room) (at_c : m.cur ≡ some c) where
  -- When less than one packet of room is left, the next read goes to the start of a new block in
  -- which nothing waits: the bytes that waited in the old block are lost to the receive loop.
  pub get_buf_info_loses :
      n * 4 < length past + length waiting
      → let (m', info) = get_buf_info n m in
        (m'.cur ≡ some m.made)
        × (info ≡ record { block = m.made; at = 0; size = n })
        × (get_data_size (m'.blocks m.made) ≡ 0)
        × (get_data_size (m.blocks c) ≡ length waiting)
  unfolding get_buf_info next_block info_at new_block
  get_buf_info_loses full = ground (
    arith,
    h.at_tail,
    h.whole,
    data_size_lem small h,
    copy_rest-tail n (new_block n) (m.blocks c),
  )

-- The pattern of -8, the size that makes a packet of no bytes.
abbrev pub minus_eight : ℕ
minus_eight = 2 ^ 32 - 8

-- A packet is handed out and nothing is consumed.
get_again :
    {n c : ℕ} (m : NetworkMessage) {past waiting room : List ℕ} (rest : List ℕ)
    → max_size n < 2 ^ 31
    → Holds n (m.blocks c) past waiting room
    → m.cur ≡ some c
    → waiting ≡ int_bytes minus_eight ++ rest
    → 4 ≤ length rest
    → (b : DataBlock) × (get_net_message m
        ≡ got
            (record { block = c; at = length past })
            (record m { blocks = put_block m.blocks c b }))
      × Holds n b past waiting room
unfolding get_net_message int_bytes
get_again {n} {c} m {past} {waiting} {room} rest small h at_c e long = (
  (consume (m.blocks c) 0).0,
  ground (arith, data_size_lem small h, h.whole, h.at_head, ap length e, read_lem),
  subst (λ p. Holds n (consume (m.blocks c) 0).0 p waiting room) (append-nil past)
      (consume-Holds small h [] waiting 0 refl refl),
)
  where
    read_lem : read_int (drop (m.blocks c).head (m.blocks c).buf) ≡ some minus_eight
    read_lem =
        ap₂ (λ k l. read_int (drop k l)) h.at_head h.cells
        ∙ ap read_int (drop-append_self past (waiting ++ room))
        ∙ ap (λ w. read_int (w ++ room)) e
        ∙ ap read_int (append_assoc (int_bytes minus_eight) rest room)
        ∙ read_int-int_bytes minus_eight (rest ++ room) (omega arith)

put_block_self : (blocks : ℕ → DataBlock) (c : ℕ) (b : DataBlock) → put_block blocks c b c ≡ b
put_block_self blocks c b = ground arith

-- If a header with the size -8 waits, the loop `while (msg.GetNetMessage(packet))` of
-- `Connection::Recv` does not end: it runs out of any fuel.
pub drain_never_ends :
    {n c : ℕ} (fuel : ℕ) (m : NetworkMessage) {past waiting room : List ℕ} (rest : List ℕ)
    → max_size n < 2 ^ 31
    → Holds n (m.blocks c) past waiting room
    → m.cur ≡ some c
    → waiting ≡ int_bytes minus_eight ++ rest
    → 4 ≤ length rest
    → drain fuel m ≡ out_of_fuel
unfolding drain
drain_never_ends zero m rest small h at_c e long = refl
drain_never_ends {n} {c} (suc fuel) m {past} {waiting} {room} rest small h at_c e long =
    let (b, step, h') = get_again m rest small h at_c e long in
    rw (step, drain)
      (rw (
        drain_never_ends fuel (record m { blocks = put_block m.blocks c b }) rest small
          (subst (λ x. Holds n x past waiting room) (sym (put_block_self m.blocks c b)) h') at_c e
          long))
