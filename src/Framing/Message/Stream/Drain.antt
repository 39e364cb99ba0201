-- ===== src/Framing/Message/Stream/Drain.antt =====
-- `while (msg.GetNetMessage(packet))` of Base/Connection.cpp hands out the whole messages that wait.
use bugat.Common.{
  ℕ, zero, suc, ◌-◌, ◌^◌, ◌<◌, ◌≡◌, refl, sym, ap, subst, some, List, [], ◌∷◌, ◌++◌, append_assoc,
  append-nil, arith, length, length-append, append-cut, dec_lt,
}
use bugat.Framing.Block.{DataBlock, max_size}
use bugat.Framing.Message.Holds.{Holds}
use bugat.Framing.Message.Steps.{frame, frames, frame_size, get_partial, get_nothing, get_frame}
use bugat.Framing.Message.Stream.Places.{Placed}
use bugat.Framing.Message.{NetworkMessage, RecvPacket, Message, Drained, drained, drain, put_block}

-- What waits is less than the first message that is still to come.
abbrev pub Short : List ℕ → List Message → Type 0
Short waiting [] = Unit
Short waiting (msg ∷ msgs) = length waiting < length (frame msg)

-- A result that has handed out the first of `msgs`, where `tail` is still to be received.
pub record Delivers (n c : ℕ) (past tail : List ℕ) (msgs : List Message) (r : Drained)
    : Type 0 where
  pub packets : List RecvPacket
  pub state : NetworkMessage
  pub result : r ≡ drained packets state
  pub out : List Message
  pub left : List Message
  pub split : msgs ≡ out ++ left
  pub waiting : List ℕ
  pub room : List ℕ
  pub holds : Holds n (state.blocks c) (past ++ frames out) waiting room
  pub cur : state.cur ≡ some c
  pub rest : waiting ++ tail ≡ frames left
  pub short : Short waiting left
  pub placed : Placed c (past ++ frames out) packets out

put_block_self : (blocks : ℕ → DataBlock) (c : ℕ) (b : DataBlock) → put_block blocks c b c ≡ b
put_block_self blocks c b = ground arith

nothing-Delivers :
    {n c : ℕ} (fuel : ℕ) (m : NetworkMessage) {past waiting room : List ℕ} (tail : List ℕ)
    (msgs : List Message)
    → Holds n (m.blocks c) past waiting room
    → m.cur ≡ some c
    → waiting ++ tail ≡ frames msgs
    → Short waiting msgs
    → drain (suc fuel) m ≡ drained [] m
    → Delivers n c past tail msgs (drain (suc fuel) m)
unfolding frames
nothing-Delivers {n} {c} fuel m {past} {waiting} {room} tail msgs h at_c e short d = record {
  packets = [];
  state = m;
  result = d;
  out = [];
  left = msgs;
  split = refl;
  waiting = waiting;
  room = room;
  holds = subst (λ p. Holds n (m.blocks c) p waiting room) (sym (append-nil past)) h;
  cur = at_c;
  rest = e;
  short = short;
  placed = tt;
}

-- One more message in front.
frame-Delivers :
    {n c : ℕ} (past tail : List ℕ) (msg : Message) (msgs : List Message) (r r' : Drained)
    (p : RecvPacket)
    → p ≡ record { block = c; at = length past }
    → Delivers n c (past ++ frame msg) tail msgs r
    → ((ps : List RecvPacket) (m : NetworkMessage) → r ≡ drained ps m → r' ≡ drained (p ∷ ps) m)
    → Delivers n c past tail (msg ∷ msgs) r'
unfolding frames
frame-Delivers {n} {c} past tail msg msgs r r' p here d step = record {
  packets = p ∷ d.packets;
  state = d.state;
  result = step d.packets d.state d.result;
  out = msg ∷ d.out;
  left = d.left;
  split = ap (◌∷◌ msg) d.split;
  waiting = d.waiting;
  room = d.room;
  holds = subst (λ q. Holds n (d.state.blocks c) q d.waiting d.room) regroup d.holds;
  cur = d.cur;
  rest = d.rest;
  short = d.short;
  placed = (
    record {
      before = past;
      behind = frames d.out;
      in_block = ap (λ q. q.block) here;
      in_past = refl;
      in_place = ap (λ q. q.at) here;
    },
    subst (λ q. Placed c q d.packets d.out) regroup d.placed,
  );
}
  where
    regroup : (past ++ frame msg) ++ frames d.out ≡ past ++ (frame msg ++ frames d.out)
    regroup = append_assoc past (frame msg) (frames d.out)

-- Fuel above the number of waiting bytes is enough.
pub drain-Delivers :
    {n c : ℕ} (msgs : List Message) (fuel : ℕ) (m : NetworkMessage) {past waiting room : List ℕ}
    (tail : List ℕ)
    → max_size n < 2 ^ 31
    → Holds n (m.blocks c) past waiting room
    → m.cur ≡ some c
    → length waiting < fuel
    → waiting ++ tail ≡ frames msgs
    → length (frames msgs) < 2 ^ 31
    → Delivers n c past tail msgs (drain fuel m)
unfolding drain frames
drain-Delivers msgs zero m tail small h at_c fuel e total = absurd (omega arith)
drain-Delivers {c = c} [] (suc fuel) m {past} {waiting} {room} tail small h at_c enough e total =
    nothing-Delivers fuel m tail [] h at_c e tt
      (rw (get_nothing m small at_c h (nil waiting e), drain))
  where
    nil : (w : List ℕ) → w ++ tail ≡ [] → w ≡ []
    nil [] q = refl
    nil (x ∷ w) q = cc
drain-Delivers {n} {c} (msg ∷ msgs) (suc fuel) m {past} {waiting} {room} tail small h at_c enough e
      total =
    elim (dec_lt (length waiting) (length (frame msg))) [
      | yes few ↦
          let (missing, q, _) = append-cut waiting tail (frame msg) (frames msgs) e (omega arith) in
          nothing-Delivers fuel m tail (msg ∷ msgs) h at_c e few
            (rw (get_partial m small at_c h msg missing (sym q) few bounded, drain))
      | no many ↦
          let (rest, q, q') =
            append-cut (frame msg) (frames msgs) waiting tail (sym e) (omega arith) in
          let (b, step, h') = get_frame m small at_c h msg rest q in
          frame-Delivers past tail msg msgs
            (drain fuel (record m { blocks = put_block m.blocks c b })) (drain (suc fuel) m) _ refl
            (drain-Delivers msgs fuel (record m { blocks = put_block m.blocks c b }) tail small
              (subst (λ x. Holds n x (past ++ frame msg) rest room)
                (sym (put_block_self m.blocks c b)) h')
              at_c (omega (arith, ap length q, length-append (frame msg) rest, frame_size msg))
              (sym q') (omega (arith, length-append (frame msg) (frames msgs))))
            (λ ps m' r. rw (step, drain) (rw r))
    ]
  where
    bounded : length msg.body < 2 ^ 31 - 8
    bounded = omega (arith, frame_size msg, length-append (frame msg) (frames msgs))
