-- ===== src/Framing/Message/Stream.antt =====
-- The receive loop of Base/Connection.cpp over Base/NetworkMessage.h turns a byte stream back into
-- the messages that were sent.
pub mod Places
mod Drain
mod Untouched
mod Kept
mod Round
pub mod Batches
use bugat.Common.{
  ℕ, zero, suc, ◌+◌, ◌*◌, ◌-◌, ◌^◌, ◌≤◌, ◌<◌, ◌≡◌, refl, sym, ap, ap₂, subst, ◌∙◌, some, List, [],
  ◌∷◌, ◌++◌, append_assoc, append-nil, arith, length, take, drop, concat, map, length-append,
}
use bugat.Framing.Block.{DataBlock, max_size, new_block, update, write}
use bugat.Framing.Message.Holds.{Holds, new_block-Holds, fill-Holds}
use bugat.Framing.Message.Steps.{frame, frames, frame_size}
use bugat.Framing.Message.{
  NetworkMessage, BufInfo, RecvPacket, Message, Drained, drained, faulted, out_of_fuel, drain,
  put_block, init, next_block, info_at, get_buf_info, fill, receive, receive_all, read_message,
  and_then,
}
use Places.{AllSmall, Placed, Placed-more, Placed-append, Placed-reads}
use Drain.{Delivers, Short, drain-Delivers}

frames-append : (xs ys : List Message) → frames (xs ++ ys) ≡ frames xs ++ frames ys
unfolding frames
frames-append [] ys = refl
frames-append (x ∷ xs) ys =
    ap (◌++◌ (frame x)) (frames-append xs ys) ∙ sym (append_assoc (frame x) (frames xs) (frames ys))

module _ {n c : ℕ} (m : NetworkMessage) {past waiting room : List ℕ} (small : max_size n < 2 ^ 31)
    (h : Holds n (m.blocks c) past waiting room) (at_c : m.cur ≡ some c) where
  -- The block has room for one more read, and stays.
  pub same_block : length past + length waiting ≤ n * 4 → get_buf_info n m ≡ (m, info_at n m c)
  unfolding get_buf_info
  same_block fits = ground (arith, h.at_tail)

  filled : List ℕ → NetworkMessage
  filled chunk = fill n m (info_at n m c) chunk

  filled-Holds :
      (chunk : List ℕ)
      → length chunk ≤ length room
      → Holds n ((filled chunk).blocks c) past (waiting ++ chunk) (drop (length chunk) room)
  unfolding filled fill info_at
  filled-Holds chunk fits =
      subst (λ b. Holds n b past (waiting ++ chunk) (drop (length chunk) room))
        (let e : (filled chunk).blocks c
              ≡ (update n
                  (record (m.blocks c) { buf = write (m.blocks c).tail chunk (m.blocks c).buf })
                  (length chunk)).0 =
            ground arith in
          sym e)
        (fill-Holds small h chunk fits)

  -- One round of the loop, when the block has room for it.
  pub round-Delivers :
      (fuel : ℕ) (chunk tail : List ℕ) (msgs : List Message)
      → waiting ++ (chunk ++ tail) ≡ frames msgs
      → length past + length waiting ≤ n * 4
      → length chunk ≤ length room
      → length (frames msgs) < 2 ^ 31
      → length (frames msgs) < fuel
      → Delivers n c past tail msgs (receive n fuel m chunk)
  unfolding receive filled fill
  round-Delivers fuel chunk tail msgs e before fits bounded enough =
      subst (λ i. Delivers n c past tail msgs (drain fuel (fill n i.0 i.1 chunk)))
        (sym (same_block before))
        (drain-Delivers msgs fuel (filled chunk) tail small (filled-Holds chunk fits) at_c
          (omega (
            arith,
            enough,
            ap length e,
            length-append waiting chunk,
            length-append waiting (chunk ++ tail),
            length-append chunk tail,
          ))
          (append_assoc waiting chunk tail ∙ e) bounded)

  -- One round, when all that is to come fits.
  receive-Delivers :
      (fuel : ℕ) (chunk tail : List ℕ) (msgs : List Message)
      → waiting ++ (chunk ++ tail) ≡ frames msgs
      → length past + length (frames msgs) ≤ n * 4
      → length (frames msgs) < fuel
      → Delivers n c past tail msgs (receive n fuel m chunk)
  receive-Delivers fuel chunk tail msgs e total enough =
      round-Delivers fuel chunk tail msgs e (omega (arith, len)) (omega (arith, len, h.whole))
        (omega arith) enough
    where
      len : length (frames msgs) ≡ length waiting + (length chunk + length tail)
      len =
          omega
            (arith, ap length e, length-append waiting (chunk ++ tail), length-append chunk tail)

-- A round and the rounds after it.
join-Delivers :
    {n c : ℕ} (past tail mid : List ℕ) (msgs : List Message) (r r' s : Drained)
    (d : Delivers n c past mid msgs r)
    → Delivers n c (past ++ frames d.out) tail d.left r'
    → s ≡ and_then d.packets r'
    → Delivers n c past tail msgs s
join-Delivers {n} {c} past tail mid msgs r r' s d d' join = record {
  packets = d.packets ++ d'.packets;
  state = d'.state;
  result = join ∙ ap (and_then d.packets) d'.result;
  out = d.out ++ d'.out;
  left = d'.left;
  split = d.split ∙ ap (◌++◌ d.out) d'.split ∙ sym (append_assoc d.out d'.out d'.left);
  waiting = d'.waiting;
  room = d'.room;
  holds = subst (λ q. Holds n (d'.state.blocks c) q d'.waiting d'.room) regroup d'.holds;
  cur = d'.cur;
  rest = d'.rest;
  short = d'.short;
  placed =
      subst (λ q. Placed c q (d.packets ++ d'.packets) (d.out ++ d'.out)) regroup
        (Placed-append c _ d.packets d'.packets d.out d'.out
          (Placed-more c _ (frames d'.out) d.packets d.out d.placed) d'.placed);
}
  where
    regroup : (past ++ frames d.out) ++ frames d'.out ≡ past ++ frames (d.out ++ d'.out)
    regroup =
        append_assoc past (frames d.out) (frames d'.out)
        ∙ ap (◌++◌ past) (sym (frames-append d.out d'.out))

-- Before any round.
start-Delivers :
    {n c : ℕ} (m : NetworkMessage) {past waiting room : List ℕ} (msgs : List Message)
    → Holds n (m.blocks c) past waiting room
    → m.cur ≡ some c
    → waiting ++ [] ≡ frames msgs
    → Short waiting msgs
    → Delivers n c past [] msgs (drained [] m)
unfolding frames
start-Delivers {n} {c} m {past} {waiting} {room} msgs h at_c e short = record {
  packets = [];
  state = m;
  result = refl;
  out = [];
  left = msgs;
  split = refl;
  waiting = waiting;
  room = room;
  holds = subst (λ p. Holds n (m.blocks c) p waiting room) (sym (append-nil past)) h;
  cur = at_c;
  rest = e;
  short = short;
  placed = tt;
}

receive_all-Delivers :
    {n c : ℕ} (chunks : List (List ℕ)) (fuel : ℕ) (m : NetworkMessage) {past waiting room : List ℕ}
    (msgs : List Message)
    → max_size n < 2 ^ 31
    → Holds n (m.blocks c) past waiting room
    → m.cur ≡ some c
    → waiting ++ concat chunks ≡ frames msgs
    → Short waiting msgs
    → length past + length (frames msgs) ≤ n * 4
    → length (frames msgs) < fuel
    → Delivers n c past [] msgs (receive_all n fuel m chunks)
unfolding receive_all
receive_all-Delivers [] fuel m msgs small h at_c e short total enough =
    start-Delivers m msgs h at_c e short
receive_all-Delivers {n} {c} (chunk ∷ chunks) fuel m {past} {waiting} {room} msgs small h at_c e
      short total enough =
    join-Delivers past [] (concat chunks) msgs _ _ _ d
      (receive_all-Delivers chunks fuel d.state d.left small d.holds d.cur d.rest d.short
        (omega (arith, len)) (omega (arith, len, length-append past (frames d.out))))
      (rw (d.result, receive_all) refl)
  where
    d : Delivers n c past (concat chunks) msgs (receive n fuel m chunk)
    d = receive-Delivers m small h at_c fuel chunk (concat chunks) msgs e total enough

    len :
        length (past ++ frames d.out) + length (frames d.left) ≡ length past + length (frames msgs)
    len = omega (
      arith,
      length-append past (frames d.out),
      length-append (frames d.out) (frames d.left),
      ap length (ap frames d.split ∙ frames-append d.out d.left),
    )

-- Nothing is left over when all bytes have come.
pub all_out :
    (waiting : List ℕ) (left : List Message)
    → waiting ++ [] ≡ frames left
    → Short waiting left
    → left ≡ []
unfolding frames
all_out waiting [] e short = refl
all_out waiting (msg ∷ left) e short =
    absurd (
      omega (arith, ap length e, length-append waiting [], length-append (frame msg) (frames left)))

empty_Short : (msgs : List Message) → Short [] msgs
empty_Short [] = tt
empty_Short (msg ∷ msgs) = omega (arith, frame_size msg)

-- What a complete delivery reads as.
Delivers-reads :
    {n c : ℕ} (msgs : List Message) (r : Drained)
    → max_size n < 2 ^ 31
    → AllSmall msgs
    → length (frames msgs) < max_size n
    → Delivers n c [] [] msgs r
    → (ps : List RecvPacket) × (m : NetworkMessage) × (r ≡ drained ps m)
      × (map (read_message n m) ps ≡ map some msgs)
Delivers-reads {n} {c} msgs r small kinds short d = (
  d.packets,
  d.state,
  d.result,
  Placed-reads d.state small d.holds d.packets d.out d.placed
        (omega (arith, ap length (ap frames out_lem))) (subst AllSmall out_lem kinds)
      ∙ ap (map some) (sym out_lem),
)
  where
    out_lem : msgs ≡ d.out
    out_lem = d.split ∙ ap (◌++◌ d.out) (all_out d.waiting d.left d.rest d.short) ∙ append-nil d.out

-- The first read brings in the first block.
pub receive_first :
    (n fuel : ℕ) (chunk : List ℕ)
    → max_size n < 2 ^ 31
    → receive n fuel (init n) chunk ≡ receive n fuel (next_block (init n) (new_block n)) chunk
unfolding receive get_buf_info init next_block info_at new_block
receive_first n fuel chunk small = ground arith

-- Whatever messages are sent, and however the network cuts their bytes into reads, the loop
-- hands out one packet for each message, in order, and each still reads as its message when all
-- has been received. The buffer sizes are `int`s, the types are 32-bit patterns, the whole
-- stream fits in the first four fifths of a block, and the fuel exceeds its length.
pub receive_all-frames :
    (n fuel : ℕ) (msgs : List Message) (chunks : List (List ℕ))
    → 0 < n
    → max_size n < 2 ^ 31
    → AllSmall msgs
    → concat chunks ≡ frames msgs
    → length (frames msgs) ≤ n * 4
    → length (frames msgs) < fuel
    → (ps : List RecvPacket) × (m : NetworkMessage) × (receive_all n fuel (init n) chunks
        ≡ drained ps m)
      × (map (read_message n m) ps ≡ map some msgs)
unfolding receive_all next_block new_block init
receive_all-frames n fuel msgs [] positive small kinds e total enough =
    let none_lem : msgs ≡ [] = all_out [] msgs e (empty_Short msgs) in
    ([], init n, refl, ap (map some) (sym none_lem))
receive_all-frames n fuel msgs (chunk ∷ chunks) positive small kinds e total enough =
    Delivers-reads {c = 0} msgs _ small kinds (omega arith) (
      subst (Delivers n 0 [] [] msgs) (sym first_round) (
        receive_all-Delivers (chunk ∷ chunks) fuel start msgs small held refl e (empty_Short msgs)
          (omega arith) enough))
  where
    start : NetworkMessage
    start = next_block (init n) (new_block n)

    first_round :
        receive_all n fuel (init n) (chunk ∷ chunks) ≡ receive_all n fuel start (chunk ∷ chunks)
    first_round = rw (receive_first n fuel chunk small, receive_all) refl

    held : Holds n (start.blocks 0) [] [] (new_block n).buf
    held = new_block-Holds n
