-- ===== src/Framing/Message/Stream/Untouched.antt =====
-- The blocks of Base/NetworkMessage.h that a round of the receive loop leaves as they are.
use bugat.Common.{
  ℕ, zero, suc, ◌≡◌, ◌≢◌, refl, sym, ap, subst, ◌∙◌, Option, none, some, List, [], length, drop,
  if◌then◌else◌, if_cases, arith,
}
use bugat.Framing.Wire.{slt, add32, header_size, read_int}
use bugat.Framing.Block.{DataBlock, get_data, get_data_size, consume, update, write}
use bugat.Framing.Message.{
  NetworkMessage, BufInfo, RecvPacket, Got, fault, incomplete, got, get_net_message, Drained,
  drained, faulted, out_of_fuel, drain, read_first, put_block, fill, get_header, get, read_message,
}

-- Only the block `c` differs, and no block is new.
pub record Untouched (c : ℕ) (m m' : NetworkMessage) : Type 0 where
  pub blocks : (k : ℕ) → k ≢ c → m'.blocks k ≡ m.blocks k
  pub made : m'.made ≡ m.made
  pub cur : m'.cur ≡ m.cur

Untouched-refl : (c : ℕ) (m : NetworkMessage) → Untouched c m m
Untouched-refl c m = record { blocks = λ k away. refl; made = refl; cur = refl }

pub Untouched-trans :
    (c : ℕ) (m m' m'' : NetworkMessage) → Untouched c m m' → Untouched c m' m'' → Untouched c m m''
Untouched-trans c m m' m'' u v = record {
  blocks = λ k away. v.blocks k away ∙ u.blocks k away;
  made = v.made ∙ u.made;
  cur = v.cur ∙ u.cur;
}

put_block-Untouched :
    (c : ℕ) (b : DataBlock) (m : NetworkMessage)
    → Untouched c m (record m { blocks = put_block m.blocks c b })
put_block-Untouched c b m = record { blocks = λ k away. ground arith; made = refl; cur = refl }

pub fill-Untouched :
    (n : ℕ) (m : NetworkMessage) (info : BufInfo) (chunk : List ℕ)
    → Untouched info.block m (fill n m info chunk)
unfolding fill
fill-Untouched n m info chunk =
    put_block-Untouched info.block
      (update n
        (record (m.blocks info.block) { buf = write info.at chunk (m.blocks info.block).buf })
        (length chunk)).0
      m

abbrev GotUntouched : ℕ → NetworkMessage → Got → Type 0
GotUntouched c m fault = Unit
GotUntouched c m incomplete = Unit
GotUntouched c m (got p m') = Untouched c m m'

-- `GetNetMessage` behind the read of the size.
abbrev sized : ℕ → NetworkMessage → Option ℕ → Got
sized c m none = fault
sized c m (some size) =
    if slt (get_data_size (m.blocks c)) (add32 size header_size)
    then incomplete
    else got (record { block = c; at = (m.blocks c).head })
        (record m {
          blocks = put_block m.blocks c (consume (m.blocks c) (add32 size header_size)).0;
        })

abbrev headed : ℕ → NetworkMessage → Got
headed c m =
    if slt (get_data_size (m.blocks c)) header_size
    then incomplete
    else sized c m (read_int (drop (get_data (m.blocks c)) (m.blocks c).buf))

sized-Untouched : (c : ℕ) (m : NetworkMessage) (o : Option ℕ) → GotUntouched c m (sized c m o)
sized-Untouched c m none = tt
sized-Untouched c m (some size) =
    if_cases (GotUntouched c m) (slt (get_data_size (m.blocks c)) (add32 size header_size))
      incomplete
      (got (record { block = c; at = (m.blocks c).head })
        (record m {
          blocks = put_block m.blocks c (consume (m.blocks c) (add32 size header_size)).0;
        }))
      (λ _. tt) (λ _. put_block-Untouched c (consume (m.blocks c) (add32 size header_size)).0 m)

get_net_message-headed :
    (c : ℕ) (m : NetworkMessage) → m.cur ≡ some c → get_net_message m ≡ headed c m
unfolding get_net_message
get_net_message-headed c m at_c = ground arith

get_net_message-Untouched :
    (c : ℕ) (m : NetworkMessage) → m.cur ≡ some c → GotUntouched c m (get_net_message m)
get_net_message-Untouched c m at_c =
    subst (GotUntouched c m) (sym (get_net_message-headed c m at_c)) (
      if_cases (GotUntouched c m) (slt (get_data_size (m.blocks c)) header_size) incomplete
        (sized c m (read_int (drop (get_data (m.blocks c)) (m.blocks c).buf))) (λ _. tt)
        (λ _. sized-Untouched c m (read_int (drop (get_data (m.blocks c)) (m.blocks c).buf))))

abbrev pub DrainUntouched : ℕ → NetworkMessage → Drained → Type 0
DrainUntouched c m (drained ps m') = Untouched c m m'
DrainUntouched c m faulted = Unit
DrainUntouched c m out_of_fuel = Unit

read_first-Untouched :
    (c : ℕ) (m m' : NetworkMessage) (p : RecvPacket) (r : Drained)
    → Untouched c m m'
    → DrainUntouched c m' r
    → DrainUntouched c m (read_first p r)
read_first-Untouched c m m' p (drained ps m'') u v = Untouched-trans c m m' m'' u v
read_first-Untouched c m m' p faulted u v = tt
read_first-Untouched c m m' p out_of_fuel u v = tt

drain_on :
    (fuel c : ℕ) (m : NetworkMessage) (g : Got)
    → m.cur ≡ some c
    → GotUntouched c m g
    → ((m' : NetworkMessage) → m'.cur ≡ some c → DrainUntouched c m' (drain fuel m'))
    → DrainUntouched c m (elim g [
      | fault ↦ faulted
      | incomplete ↦ drained [] m
      | got p m' ↦ read_first p (drain fuel m')
    ])
drain_on fuel c m fault at_c u more = tt
drain_on fuel c m incomplete at_c u more = Untouched-refl c m
drain_on fuel c m (got p m') at_c u more =
    read_first-Untouched c m m' p (drain fuel m') u (more m' (u.cur ∙ at_c))

pub drain-Untouched :
    (fuel c : ℕ) (m : NetworkMessage) → m.cur ≡ some c → DrainUntouched c m (drain fuel m)
unfolding drain
drain-Untouched zero c m at_c = tt
drain-Untouched (suc fuel) c m at_c =
    drain_on fuel c m (get_net_message m) at_c (get_net_message-Untouched c m at_c)
      (λ m' e. drain-Untouched fuel c m' e)

-- What a packet reads as depends on its block only.
pub read_message-same :
    (n : ℕ) (m m' : NetworkMessage) (p : RecvPacket)
    → m'.blocks p.block ≡ m.blocks p.block
    → read_message n m' p ≡ read_message n m p
unfolding read_message get_header get
read_message-same n m m' p e =
    ap (λ b. read_message n (record { blocks = λ _. b; made = 0; cur = none }) p) e
