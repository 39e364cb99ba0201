-- ===== src/Framing/Message/Stream/Batches.antt =====
-- The receive loop of Base/Connection.cpp over Base/NetworkMessage.h on streams of any length, when
-- every read ends with a message.
use bugat.Common.{
  ℕ, ◌^◌, ◌≤◌, ◌<◌, ◌≡◌, refl, sym, ap, subst, some, List, [], ◌∷◌, ◌++◌, append_assoc, append-nil,
  arith, length, concat, map,
}
use bugat.Framing.Block.{max_size, new_block}
use bugat.Framing.Message.Steps.{frames}
use bugat.Framing.Message.{
  NetworkMessage, RecvPacket, Message, Drained, drained, init, next_block, receive_all,
  read_message, and_then,
}
use bugat.Framing.Message.Stream.{receive_first}
use bugat.Framing.Message.Stream.Places.{AllSmall}
use bugat.Framing.Message.Stream.Kept.{Kept, Rests}
use bugat.Framing.Message.Stream.Round.{Read, Rests-Read, Kept_reads, next_Rests}

-- Each read brings fewer bytes than were asked for.
abbrev pub AllShort : ℕ → List (List Message) → Type 0
AllShort n [] = Unit
AllShort n (batch ∷ batches) = (length (frames batch) < n) × AllShort n batches

small_append : (ms ns : List Message) → AllSmall ms → AllSmall ns → AllSmall (ms ++ ns)
small_append [] ns h k = k
small_append (m ∷ ms) ns h k = (h.0, small_append ms ns h.1 k)

small_left : (ms ns : List Message) → AllSmall (ms ++ ns) → AllSmall ms
small_left [] ns h = tt
small_left (m ∷ ms) ns h = (h.0, small_left ms ns h.1)

small_right : (ms ns : List Message) → AllSmall (ms ++ ns) → AllSmall ns
small_right [] ns h = h
small_right (m ∷ ms) ns h = small_right ms ns h.1

rounds_Read :
    {n : ℕ} (batches : List (List Message)) {c : ℕ} (fuel : ℕ) (m : NetworkMessage)
    {past room : List ℕ} (qs : List RecvPacket) (ms : List Message)
    → max_size n < 2 ^ 31
    → Rests n m c past room
    → AllShort n batches
    → n ≤ fuel
    → AllSmall ms
    → AllSmall (concat batches)
    → Kept n m c past qs ms
    → Read n m qs ms (concat batches) (receive_all n fuel m (map frames batches))
unfolding receive_all
rounds_Read {n} [] {c} fuel m {past} {room} qs ms small r short enough kinds kinds' k = record {
  packets = [];
  state = m;
  result = refl;
  block = c;
  past = past;
  room = room;
  rests = r;
  kept =
      subst (λ ps. Kept n m c past ps (ms ++ [])) (sym (append-nil qs))
        (subst (Kept n m c past qs) (sym (append-nil ms)) k);
}
rounds_Read {n} (batch ∷ batches) {c} fuel m qs ms small r short enough kinds kinds' k =
    let d = Rests-Read fuel m qs ms batch small r short.0 enough kinds k in
    let d' =
      rounds_Read batches fuel d.state (qs ++ d.packets) (ms ++ batch) small d.rests short.1 enough
        (small_append ms batch kinds (small_left batch (concat batches) kinds'))
        (small_right batch (concat batches) kinds') d.kept in
    record {
      packets = d.packets ++ d'.packets;
      state = d'.state;
      result = rw (d.result, receive_all) (ap (and_then d.packets) d'.result);
      block = d'.block;
      past = d'.past;
      room = d'.room;
      rests = d'.rests;
      kept =
          subst (λ ps. Kept n d'.state d'.block d'.past ps (ms ++ (batch ++ concat batches)))
            (append_assoc qs d.packets d'.packets)
            (subst (Kept n d'.state d'.block d'.past ((qs ++ d.packets) ++ d'.packets))
              (append_assoc ms batch (concat batches)) d'.kept);
    }

Read-reads :
    {n : ℕ} (m : NetworkMessage) (msgs : List Message) (r : Drained)
    → max_size n < 2 ^ 31
    → AllSmall msgs
    → Read n m [] [] msgs r
    → (ps : List RecvPacket) × (m' : NetworkMessage) × (r ≡ drained ps m')
      × (map (read_message n m') ps ≡ map some msgs)
Read-reads m msgs r small kinds d =
    (d.packets, d.state, d.result, Kept_reads d.state small d.rests d.packets msgs kinds d.kept)

-- A stream of any length, in reads that each hold whole messages and fewer bytes than the loop
-- asks for, comes out as one packet for each message, in order, over as many blocks as it takes;
-- and when all has been received every packet still reads as its message. The buffer sizes are
-- `int`s, the types are 32-bit patterns, and the fuel of a round is the number of bytes asked for.
pub receive_all-batches :
    (n : ℕ) (batches : List (List Message))
    → 0 < n
    → max_size n < 2 ^ 31
    → AllSmall (concat batches)
    → AllShort n batches
    → (ps : List RecvPacket) × (m : NetworkMessage) × (receive_all n n (init n) (map frames batches)
        ≡ drained ps m)
      × (map (read_message n m) ps ≡ map some (concat batches))
unfolding receive_all init
receive_all-batches n [] positive small kinds short = ([], init n, refl, refl)
receive_all-batches n (batch ∷ batches) positive small kinds short =
    let m = next_block (init n) (new_block n) in
    let first : receive_all n n (init n) (map frames (batch ∷ batches))
        ≡ receive_all n n m (map frames (batch ∷ batches)) =
      rw (receive_first n n (frames batch) small, receive_all) refl in
    Read-reads m (concat (batch ∷ batches))
      (receive_all n n (init n) (map frames (batch ∷ batches))) small kinds
      (subst (Read n m [] [] (concat (batch ∷ batches))) (sym first) (
        rounds_Read (batch ∷ batches) n m [] [] small (next_Rests n (init n) positive) short
          (omega arith) tt kinds tt))
