-- ===== src/Framing/Message/Stream/Kept.antt =====
-- The change of blocks of Base/NetworkMessage.h when nothing waits, and the packets that were handed
-- out before it.
use bugat.Common.{
  ℕ, ◌+◌, ◌*◌, ◌^◌, ◌<◌, ◌≡◌, ◌⊎◌, refl, sym, ap, subst, ◌∙◌, some, List, [], ◌∷◌, arith, length,
  take, drop, leb, if_cases, if◌then◌else◌,
}
use bugat.Framing.Block.{
  DataBlock, max_size, new_block, get_data, get_data_size, get_remain_size, write,
}
use bugat.Framing.Message.Holds.{Holds, new_block-Holds, data_size_lem}
use bugat.Framing.Message.{
  NetworkMessage, RecvPacket, Message, drain, put_block, next_block, copy_rest, info_at,
  get_buf_info, fill, receive, read_message,
}
use bugat.Framing.Message.Stream.{same_block}
use bugat.Framing.Message.Stream.Places.{At}

-- A packet that was handed out: in the current block, or in one that is left alone from now on.
abbrev pub Kept1 : ℕ → NetworkMessage → ℕ → List ℕ → RecvPacket → Message → Type 0
Kept1 n m c past p msg = At c past p msg ⊎ ((p.block < c) × (read_message n m p ≡ some msg))

abbrev pub Kept : ℕ → NetworkMessage → ℕ → List ℕ → List RecvPacket → List Message → Type 0
Kept n m c past [] [] = Unit
Kept n m c past [] (msg ∷ msgs) = ⊥
Kept n m c past (p ∷ ps) [] = ⊥
Kept n m c past (p ∷ ps) (msg ∷ msgs) = Kept1 n m c past p msg × Kept n m c past ps msgs

-- Between two reads: the current block, `c`, is the last that was made, and nothing waits in it.
pub record Rests (n : ℕ) (m : NetworkMessage) (c : ℕ) (past room : List ℕ) : Type 0 where
  pub holds : Holds n (m.blocks c) past [] room
  pub cur : m.cur ≡ some c
  pub made : m.made ≡ c + 1
  pub short : length past < max_size n

pub fresh_block : (c : ℕ) (b : DataBlock) (blocks : ℕ → DataBlock) → put_block blocks c b c ≡ b
fresh_block c b blocks = ground arith

pub next_cur : (m : NetworkMessage) (b : DataBlock) → (next_block m b).cur ≡ some m.made
unfolding next_block
next_cur m b = refl

-- Nothing is copied into a new block.
copy_none :
    (n r size : ℕ) (l : List ℕ)
    → size ≡ 0
    → (if leb size r
        then record (new_block n) { buf = write (new_block n).tail (take size l) (new_block n).buf }
        else new_block n)
      ≡ new_block n
unfolding write new_block
copy_none n r size l e =
    subst
      (λ s.
        (if leb s r
          then record (new_block n) { buf = write (new_block n).tail (take s l) (new_block n).buf }
          else new_block n)
        ≡ new_block n)
      (sym e)
      (if_cases (λ x. x ≡ new_block n) (leb 0 r) (record (new_block n) { buf = (new_block n).buf })
        (new_block n) (λ _. refl) (λ _. refl))

copy_nothing :
    {n c : ℕ} (m : NetworkMessage) {past room : List ℕ}
    → max_size n < 2 ^ 31
    → Holds n (m.blocks c) past [] room
    → copy_rest n (new_block n) (m.blocks c) ≡ new_block n
unfolding copy_rest
copy_nothing {n} {c} m small h =
    copy_none n (get_remain_size n (new_block n)) (get_data_size (m.blocks c))
      (drop (get_data (m.blocks c)) (m.blocks c).buf) (data_size_lem small h)

pub next_Holds :
    (n : ℕ) (m : NetworkMessage)
    → Holds n ((next_block m (new_block n)).blocks m.made) [] [] (new_block n).buf
unfolding next_block
next_Holds n m =
    subst (λ b. Holds n b [] [] (new_block n).buf) (sym (fresh_block m.made (new_block n) m.blocks))
      (new_block-Holds n)

-- The block has less than a packet of room: the read goes into a new one.
get_next :
    {n c : ℕ} (m : NetworkMessage) {past room : List ℕ}
    → max_size n < 2 ^ 31
    → Rests n m c past room
    → n * 4 < length past
    → get_buf_info n m ≡ (
        let m' = next_block m (copy_rest n (new_block n) (m.blocks c)) in (m', info_at n m' m.made))
unfolding get_buf_info
get_next m small h full = ground (arith, h.cur, h.holds.at_tail, h.holds.whole)

get_stays :
    (n : ℕ) (m : NetworkMessage)
    → max_size n < 2 ^ 31
    → get_buf_info n (next_block m (new_block n))
      ≡ (next_block m (new_block n), info_at n (next_block m (new_block n)) m.made)
get_stays n m small =
    same_block (next_block m (new_block n)) small (next_Holds n m) (next_cur m (new_block n))
      (omega arith)

pub receive_next :
    {n c : ℕ} (fuel : ℕ) (m : NetworkMessage) {past room : List ℕ} (chunk : List ℕ)
    → max_size n < 2 ^ 31
    → Rests n m c past room
    → n * 4 < length past
    → receive n fuel m chunk ≡ receive n fuel (next_block m (new_block n)) chunk
unfolding receive
receive_next {n} {c} fuel m chunk small h full =
    ap (λ i. drain fuel (fill n i.0 i.1 chunk))
      (get_next m small h full
        ∙ (ap (λ b. let m' = next_block m b in (m', info_at n m' m.made))
              (copy_nothing m small h.holds)
            ∙ sym (get_stays n m small)))
