-- ===== src/Framing/Message/Stream/Round.antt =====
-- A round of the receive loop of Base/Connection.cpp that reads whole messages.
use bugat.Common.{
  ℕ, ◌*◌, ◌^◌, ◌≤◌, ◌<◌, ◌≡◌, ◌≢◌, inl, inr, refl, sym, ap, ap₂, subst, ◌∙◌, some, List, [], ◌∷◌,
  ◌++◌, append-nil, arith, length, map, length-append, dec_lt,
}
use bugat.Framing.Block.{DataBlock, max_size, new_block}
use bugat.Framing.Message.Holds.{Holds}
use bugat.Framing.Message.Steps.{frames}
use bugat.Framing.Message.{
  NetworkMessage, RecvPacket, Message, Drained, drained, drain, next_block, info_at, fill, receive,
  read_message,
}
use bugat.Framing.Message.Stream.{same_block, round-Delivers, all_out}
use bugat.Framing.Message.Stream.Places.{AllSmall, At-more, Placed, At-reads}
use bugat.Framing.Message.Stream.Kept.{Kept1, Kept, Rests, next_Holds, receive_next}
use bugat.Framing.Message.Stream.Untouched.{
  Untouched, Untouched-trans, DrainUntouched, drain-Untouched, fill-Untouched, read_message-same,
}

-- Every packet is kept over a change that keeps each.
Kept_map :
    (n : ℕ) (m m' : NetworkMessage) (c c' : ℕ) (past past' : List ℕ)
    → ((p : RecvPacket) (msg : Message)
        → msg.kind < 2 ^ 32
        → Kept1 n m c past p msg
        → Kept1 n m' c' past' p msg)
    → (ps : List RecvPacket) (msgs : List Message) → AllSmall msgs
    → Kept n m c past ps msgs
    → Kept n m' c' past' ps msgs
Kept_map n m m' c c' past past' each [] [] k h = tt
Kept_map n m m' c c' past past' each [] (msg ∷ msgs) k h = h
Kept_map n m m' c c' past past' each (p ∷ ps) [] k h = h
Kept_map n m m' c c' past past' each (p ∷ ps) (msg ∷ msgs) k h =
    (each p msg k.0 h.0, Kept_map n m m' c c' past past' each ps msgs k.1 h.1)

Kept_append :
    (n : ℕ) (m : NetworkMessage) (c : ℕ) (past : List ℕ) (ps qs : List RecvPacket)
    (ms ns : List Message)
    → Kept n m c past ps ms
    → Kept n m c past qs ns
    → Kept n m c past (ps ++ qs) (ms ++ ns)
Kept_append n m c past [] qs [] ns h k = k
Kept_append n m c past [] qs (m' ∷ ms) ns h k = absurd h
Kept_append n m c past (p ∷ ps) qs [] ns h k = absurd h
Kept_append n m c past (p ∷ ps) qs (m' ∷ ms) ns h k =
    (h.0, Kept_append n m c past ps qs ms ns h.1 k)

Placed_kept :
    (n : ℕ) (m : NetworkMessage) (c : ℕ) (past : List ℕ) (ps : List RecvPacket) (ms : List Message)
    → Placed c past ps ms
    → Kept n m c past ps ms
Placed_kept n m c past [] [] h = tt
Placed_kept n m c past [] (m' ∷ ms) h = h
Placed_kept n m c past (p ∷ ps) [] h = h
Placed_kept n m c past (p ∷ ps) (m' ∷ ms) h = (inl h.0, Placed_kept n m c past ps ms h.1)

pub Kept_reads :
    {n c : ℕ} (m : NetworkMessage) {past room : List ℕ}
    → max_size n < 2 ^ 31
    → Rests n m c past room
    → (ps : List RecvPacket) (msgs : List Message) → AllSmall msgs
    → Kept n m c past ps msgs
    → map (read_message n m) ps ≡ map some msgs
Kept_reads m small r [] [] k h = refl
Kept_reads m small r [] (msg ∷ msgs) k h = absurd h
Kept_reads m small r (p ∷ ps) [] k h = absurd h
Kept_reads m small r (p ∷ ps) (msg ∷ msgs) k h =
    ap₂ ◌∷◌
      (elim h.0 [
        | inl at ↦ At-reads m small r.holds p msg at r.short k.0
        | inr (old, reads) ↦ reads
      ])
      (Kept_reads m small r ps msgs k.1 h.1)

-- A round leaves the other blocks.
receive-Untouched :
    {n c : ℕ} (fuel : ℕ) (m : NetworkMessage) {past room : List ℕ} (chunk : List ℕ)
    → max_size n < 2 ^ 31
    → Rests n m c past room
    → length past ≤ n * 4
    → (ps : List RecvPacket) (m' : NetworkMessage) → receive n fuel m chunk ≡ drained ps m'
    → Untouched c m m'
unfolding receive info_at
receive-Untouched {n} {c} fuel m chunk small r fits ps m' e =
    let f = fill n m (info_at n m c) chunk in
    let filled = fill-Untouched n m (info_at n m c) chunk in
    let same =
      ap (λ i. drain fuel (fill n i.0 i.1 chunk))
        (same_block m small r.holds r.cur (omega arith)) in
    Untouched-trans c m f m' filled
      (subst (DrainUntouched c f) (sym same ∙ e) (drain-Untouched fuel c f (filled.cur ∙ r.cur)))

-- What a round comes to.
pub record Read (n : ℕ) (m : NetworkMessage) (qs : List RecvPacket) (ms batch : List Message)
    (d : Drained) : Type 0 where
  pub packets : List RecvPacket
  pub state : NetworkMessage
  pub result : d ≡ drained packets state
  pub block : ℕ
  pub past : List ℕ
  pub room : List ℕ
  pub rests : Rests n state block past room
  pub kept : Kept n state block past (qs ++ packets) (ms ++ batch)

kept_on :
    (n c : ℕ) (m m' : NetworkMessage) (past more : List ℕ)
    → Untouched c m m'
    → (p : RecvPacket) (msg : Message) → Kept1 n m c past p msg
    → Kept1 n m' c (past ++ more) p msg
kept_on n c m m' past more u p msg (inl at) = inl (At-more more at)
kept_on n c m m' past more u p msg (inr (old, reads)) =
    inr (old, read_message-same n m m' p (u.blocks p.block (λ e. omega (arith, old, e))) ∙ reads)

no_waiting :
    (waiting : List ℕ) (left : List Message)
    → waiting ++ [] ≡ frames left
    → left ≡ []
    → waiting ≡ []
unfolding frames
no_waiting waiting left e nil = sym (append-nil waiting) ∙ (e ∙ ap frames nil)

next_other :
    (m : NetworkMessage) (b : DataBlock) (k : ℕ)
    → k ≢ m.made
    → (next_block m b).blocks k ≡ m.blocks k
unfolding next_block
next_other m b k away = ground arith

same_block-Read :
    {n c : ℕ} (fuel : ℕ) (m : NetworkMessage) {past room : List ℕ} (qs : List RecvPacket)
    (ms batch : List Message)
    → max_size n < 2 ^ 31
    → Rests n m c past room
    → length past ≤ n * 4
    → length (frames batch) < n
    → n ≤ fuel
    → AllSmall ms
    → Kept n m c past qs ms
    → Read n m qs ms batch (receive n fuel m (frames batch))
same_block-Read {n} {c} fuel m {past} {room} qs ms batch small r fits one enough kinds k =
    let d =
      round-Delivers m small r.holds r.cur fuel (frames batch) [] batch (append-nil (frames batch))
        (omega (arith, fits)) (omega (arith, r.holds.whole)) (omega arith) (omega arith) in
    let u = receive-Untouched fuel m (frames batch) small r fits d.packets d.state d.result in
    let nothing_left = all_out d.waiting d.left d.rest d.short in
    let same : batch ≡ d.out = d.split ∙ (ap (◌++◌ d.out) nothing_left ∙ append-nil d.out) in
    let over : past ++ frames d.out ≡ past ++ frames batch =
      ap (λ ms. past ++ frames ms) (sym same) in
    record {
      packets = d.packets;
      state = d.state;
      result = d.result;
      block = c;
      past = past ++ frames d.out;
      room = d.room;
      rests = record {
        holds =
            subst (λ w. Holds n (d.state.blocks c) (past ++ frames d.out) w d.room)
              (no_waiting d.waiting d.left d.rest nothing_left) d.holds;
        cur = d.cur;
        made = u.made ∙ r.made;
        short = omega (arith, ap length over, length-append past (frames batch), fits, one);
      };
      kept =
          subst (λ b. Kept n d.state c (past ++ frames d.out) (qs ++ d.packets) (ms ++ b))
            (sym same)
            (Kept_append n d.state c (past ++ frames d.out) qs d.packets ms d.out
              (Kept_map n m d.state c c past (past ++ frames d.out)
                (λ p msg _ h. kept_on n c m d.state past (frames d.out) u p msg h) qs ms kinds k)
              (Placed_kept n d.state c (past ++ frames d.out) d.packets d.out d.placed));
    }

-- The packets that were handed out are in old blocks once a new one is made.
kept_before :
    {n c : ℕ} (m : NetworkMessage) {past room : List ℕ}
    → max_size n < 2 ^ 31
    → Rests n m c past room
    → (p : RecvPacket) (msg : Message) → msg.kind < 2 ^ 32
    → Kept1 n m c past p msg
    → Kept1 n (next_block m (new_block n)) m.made [] p msg
kept_before {n} {c} m small r p msg kind (inl at) = inr (
  omega (arith, r.made, at.in_block),
  read_message-same n m (next_block m (new_block n)) p
        (next_other m (new_block n) p.block (omega (arith, r.made, at.in_block)))
      ∙ At-reads m small r.holds p msg at r.short kind,
)
kept_before {n} {c} m small r p msg kind (inr (old, reads)) = inr (
  omega (arith, r.made, old),
  read_message-same n m (next_block m (new_block n)) p
        (next_other m (new_block n) p.block (omega (arith, r.made, old)))
      ∙ reads,
)

pub next_Rests :
    (n : ℕ) (m : NetworkMessage)
    → 0 < n
    → Rests n (next_block m (new_block n)) m.made [] (new_block n).buf
unfolding next_block
next_Rests n m positive = record {
  holds = next_Holds n m;
  cur = refl;
  made = refl;
  short = omega arith;
}

-- One read of whole messages, with or without a new block.
pub Rests-Read :
    {n c : ℕ} (fuel : ℕ) (m : NetworkMessage) {past room : List ℕ} (qs : List RecvPacket)
    (ms batch : List Message)
    → max_size n < 2 ^ 31
    → Rests n m c past room
    → length (frames batch) < n
    → n ≤ fuel
    → AllSmall ms
    → Kept n m c past qs ms
    → Read n m qs ms batch (receive n fuel m (frames batch))
Rests-Read {n} {c} fuel m {past} {room} qs ms batch small r one enough kinds k =
    elim (dec_lt (n * 4) (length past)) [
      | no fits ↦ same_block-Read fuel m qs ms batch small r (omega arith) one enough kinds k
      | yes full ↦
          let m' = next_block m (new_block n) in
          let d =
            same_block-Read fuel m' qs ms batch small (next_Rests n m (omega arith)) (omega arith)
              one enough kinds
              (Kept_map n m m' c m.made past [] (kept_before m small r) qs ms kinds k) in
          record {
            packets = d.packets;
            state = d.state;
            result = receive_next fuel m (frames batch) small r full ∙ d.result;
            block = d.block;
            past = d.past;
            room = d.room;
            rests = d.rests;
            kept = d.kept;
          }
    ]
